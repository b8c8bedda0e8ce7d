-- ===== src/Domain/Pipeline/Calls.antt =====
-- Which calls a `HookRunner` makes, and in which order.
use mathlib.Core.List.{append_assoc, append-nil}
use pingling.Prelude.{
  String, ◌≡◌, refl, sym, ap, ◌∙◌, List, [], ◌∷◌, ◌++◌, map, Result, ok, err, Result-cases, inl,
  inr,
}
use pingling.Domain.Error.{VpnError}
use pingling.Domain.Pipeline.{Handler, Hook, run_on_error, run_before, run_after}

pub data HookCall : Type 0 where
  before_call after_call error_call : String → HookCall
  handler_call : HookCall

-- A noted run is the run itself with the calls it adds to the log.
abbrev pub Noted :
    {W R : Type 0}
    → Result R VpnError × (W × List HookCall)
    → Result R VpnError × W
    → (log calls : List HookCall) → Type 0
Noted noted plain log calls = noted ≡ (plain.0, (plain.1, log ++ calls))

module _ {I O W : Type 0} where
  -- A hook, and a handler, that also notes its calls.
  abbrev pub noting_hook : Hook I O W → Hook I O (W × List HookCall)
  noting_hook h = record {
    name = h.name;
    before = λ input s.
        let (r, input', world) = h.before input s.0 in
        (r, input', (world, s.1 ++ before_call h.name ∷ []));
    after = λ input output s.
        let (r, output', world) = h.after input output s.0 in
        (r, output', (world, s.1 ++ after_call h.name ∷ []));
    on_error = λ input e s. (h.on_error input e s.0, s.1 ++ error_call h.name ∷ []);
  }

  abbrev pub noting : List (Hook I O W) → List (Hook I O (W × List HookCall))
  noting hooks = map noting_hook hooks

  abbrev pub noting_handler : Handler I O W → Handler I O (W × List HookCall)
  noting_handler handler input s =
      let (r, world) = handler input s.0 in (r, (world, s.1 ++ handler_call ∷ []))

  abbrev pub befores : List (Hook I O W) → List HookCall
  befores hooks = map (λ h. before_call h.name) hooks

  abbrev pub afters : List (Hook I O W) → List HookCall
  afters hooks = map (λ h. after_call h.name) hooks

  abbrev pub errors : List (Hook I O W) → List HookCall
  errors hooks = map (λ h. error_call h.name) hooks

  -- How the loop over the hooks `hs` ends: it ran them all, or stopped at one of them and told
  -- every hook of `all`.
  pub data Loop {R : Type 0} (all hs : List (Hook I O W)) (note : Hook I O W → HookCall)
      (result : Result R VpnError) (calls : List HookCall) : Type 0 where
    passed : (r : R) → result ≡ ok r → calls ≡ map note hs → Loop all hs note result calls
    stopped :
        (early : List (Hook I O W)) (h : Hook I O W) (rest : List (Hook I O W)) (e : VpnError)
        → hs ≡ early ++ h ∷ rest
        → result ≡ err e
        → calls ≡ map note early ++ note h ∷ errors all
        → Loop all hs note result calls

  abbrev pub before_note : Hook I O W → HookCall
  before_note h = before_call h.name

  abbrev pub after_note : Hook I O W → HookCall
  after_note h = after_call h.name

  Loop-first :
      {R : Type 0} (all hs : List (Hook I O W)) (h : Hook I O W) (note : Hook I O W → HookCall)
      (result : Result R VpnError) (calls : List HookCall)
      → Loop all hs note result calls
      → Loop all (h ∷ hs) note result (note h ∷ calls)
  Loop-first all hs h note result calls (passed r e c) = passed r e (ap (λ cs. note h ∷ cs) c)
  Loop-first all hs h note result calls (stopped early k rest e s f c) =
      stopped (h ∷ early) k rest e (ap (λ xs. h ∷ xs) s) f (ap (λ cs. note h ∷ cs) c)

  pub run_on_error-noting :
      (hs : List (Hook I O W)) (input : I) (e : VpnError) (world : W) (log : List HookCall)
      → run_on_error (noting hs) input e (world, log)
        ≡ (run_on_error hs input e world, log ++ errors hs)
  unfolding run_on_error
  run_on_error-noting [] input e world log = ap (λ l. (world, l)) (sym (append-nil log))
  run_on_error-noting (h ∷ hs) input e world log =
      run_on_error-noting hs input e (h.on_error input e world) (log ++ error_call h.name ∷ [])
      ∙ ap (λ l. (run_on_error hs input e (h.on_error input e world), l)) (append_assoc log _ _)

  pub run_before-noting :
      (all hs : List (Hook I O W)) (input : I) (world : W) (log : List HookCall)
      → (calls : List HookCall) × Noted
          (run_before (noting all) (noting hs) input (world, log))
          (run_before all hs input world)
          log
          calls
        × Loop all hs before_note (run_before all hs input world).0 calls
  unfolding run_before
  run_before-noting all [] input world log =
      ([], ap (λ l. (ok input, (world, l))) (sym (append-nil log)), passed input refl refl)
  run_before-noting all (h ∷ hs) input world log =
      let (checked, input', world') = h.before input world in
      elim (Result-cases checked) [
        | inl (u, c) ↦
            let (calls, noted, loop) =
              run_before-noting all hs input' world' (log ++ before_call h.name ∷ []) in
            rw (c, run_before)
              (
                before_call h.name ∷ calls,
                noted
                    ∙ ap
                        (λ l. (
                          (run_before all hs input' world').0,
                          ((run_before all hs input' world').1, l),
                        ))
                        (append_assoc log _ _),
                Loop-first all hs h before_note _ calls loop,
              )
        | inr (e, c) ↦
            rw (c, run_before)
              (
                before_call h.name ∷ errors all,
                ap (λ s. (err e, s))
                      (run_on_error-noting all input' e world' (log ++ before_call h.name ∷ []))
                    ∙ ap (λ l. (err e, (run_on_error all input' e world', l)))
                        (append_assoc log _ _),
                stopped [] h hs e refl refl refl,
              )
      ]

  pub run_after-noting :
      (all hs : List (Hook I O W)) (snap : I) (output : O) (world : W) (log : List HookCall)
      → (calls : List HookCall) × Noted
          (run_after (noting all) (noting hs) snap output (world, log))
          (run_after all hs snap output world)
          log
          calls
        × Loop all hs after_note (run_after all hs snap output world).0 calls
  unfolding run_after
  run_after-noting all [] snap output world log =
      ([], ap (λ l. (ok output, (world, l))) (sym (append-nil log)), passed output refl refl)
  run_after-noting all (h ∷ hs) snap output world log =
      let (checked, output', world') = h.after snap output world in
      elim (Result-cases checked) [
        | inl (u, c) ↦
            let (calls, noted, loop) =
              run_after-noting all hs snap output' world' (log ++ after_call h.name ∷ []) in
            let rest = run_after all hs snap output' world' in
            rw (c, run_after)
              (
                after_call h.name ∷ calls,
                noted ∙ ap (λ l. (rest.0, (rest.1, l))) (append_assoc log _ _),
                Loop-first all hs h after_note _ calls loop,
              )
        | inr (e, c) ↦
            rw (c, run_after)
              (
                after_call h.name ∷ errors all,
                ap (λ s. (err e, s))
                      (run_on_error-noting all snap e world' (log ++ after_call h.name ∷ []))
                    ∙ ap (λ l. (err e, (run_on_error all snap e world', l))) (append_assoc log _ _),
                stopped [] h hs e refl refl refl,
              )
      ]
