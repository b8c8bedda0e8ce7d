-- ===== src/Domain/Pipeline/Course.antt =====
-- Where a run of a `HookRunner` ends, and what it has called by then.
use mathlib.Core.List.{append_assoc, reverse-cons, map-append}
use pingling.Prelude.{◌≡◌, refl, sym, ap, ◌∙◌, List, [], ◌∷◌, ◌++◌, Result, ok, err, reverse}
use pingling.Domain.Error.{VpnError}
use pingling.Domain.Pipeline.{
  Handler, Hook, run_on_error, run_before, run_after, run_handler, after_handler, hook_runner,
}
use pingling.Domain.Pipeline.Calls.{
  HookCall, before_call, after_call, handler_call, Noted, noting_hook, noting, noting_handler,
  befores, afters, errors, passed, stopped, run_on_error-noting, run_before-noting,
  run_after-noting,
}

module _ {I O W : Type 0} where
  -- The calls of one run, by where it ends.
  pub data Course (hooks : List (Hook I O W)) (result : Result O VpnError) (calls : List HookCall)
      : Type 0 where
    refused :
        (early : List (Hook I O W)) (h : Hook I O W) (rest : List (Hook I O W)) (e : VpnError)
        → hooks ≡ early ++ h ∷ rest
        → result ≡ err e
        → calls ≡ befores early ++ before_call h.name ∷ errors hooks
        → Course hooks result calls
    failed :
        (e : VpnError)
        → result ≡ err e
        → calls ≡ befores hooks ++ handler_call ∷ errors hooks
        → Course hooks result calls
    spoiled :
        (late : List (Hook I O W)) (h : Hook I O W) (rest : List (Hook I O W)) (e : VpnError)
        → reverse hooks ≡ late ++ h ∷ rest
        → result ≡ err e
        → calls ≡ befores hooks ++ handler_call ∷ (afters late ++ after_call h.name ∷ errors hooks)
        → Course hooks result calls
    succeeded :
        (o : O)
        → result ≡ ok o
        → calls ≡ befores hooks ++ handler_call ∷ afters (reverse hooks)
        → Course hooks result calls

  noting-reverse : (hooks : List (Hook I O W)) → noting (reverse hooks) ≡ reverse (noting hooks)
  noting-reverse [] = refl
  noting-reverse (h ∷ hs) =
      rw (reverse-cons h hs, map-append, noting-reverse hs)
        (sym (reverse-cons (noting_hook h) (noting hs)))

  after_handler-noting :
      (hooks : List (Hook I O W)) (snap : I) (result : Result O VpnError) (world : W)
      (log : List HookCall)
      → (calls : List HookCall) × Noted
          (after_handler (noting hooks) snap result (world, log ++ handler_call ∷ []))
          (after_handler hooks snap result world)
          log
          (handler_call ∷ calls)
        × Course hooks
            (after_handler hooks snap result world).0
            (befores hooks ++ handler_call ∷ calls)
  unfolding after_handler
  after_handler-noting hooks snap (err e) world log = (
    errors hooks,
    ap (λ s. (err e, s)) (run_on_error-noting hooks snap e world (log ++ handler_call ∷ []))
        ∙ ap (λ l. (err e, (run_on_error hooks snap e world, l))) (append_assoc log _ _),
    failed e refl refl,
  )
  after_handler-noting hooks snap (ok output) world log =
      let rest = run_after hooks (reverse hooks) snap output world in
      let (calls, noted, loop) =
        run_after-noting hooks (reverse hooks) snap output world (log ++ handler_call ∷ []) in
      rw (← noting-reverse hooks) (
        calls,
        noted ∙ ap (λ l. (rest.0, (rest.1, l))) (append_assoc log _ _),
        elim loop [
          | passed o e c ↦ succeeded o e (ap (λ cs. befores hooks ++ handler_call ∷ cs) c)
          | stopped late h rest e s f c ↦
              spoiled late h rest e s f (ap (λ cs. befores hooks ++ handler_call ∷ cs) c)
        ],
      )

  -- A run calls the `before` of every hook in order, then the handler, then every `after` in
  -- reverse. When a `before` refuses, the handler is not called; when an `after` fails, the later
  -- ones are not called; and in each failing run, the last calls are the `on_error` of all hooks,
  -- in order, each once. Noting the calls changes neither the result nor the world.
  pub hook_runner-Course :
      (handler : Handler I O W) (hooks : List (Hook I O W)) (input : I) (world : W)
      → (calls : List HookCall) × Noted
          (hook_runner (noting_handler handler) (noting hooks) input (world, []))
          (hook_runner handler hooks input world)
          []
          calls
        × Course hooks (hook_runner handler hooks input world).0 calls
  unfolding hook_runner run_handler
  hook_runner-Course handler hooks input world =
      let (first, noted, loop) = run_before-noting hooks hooks input world [] in
      let started = run_before hooks hooks input world in
      elim loop [
        | stopped early h rest e s f c ↦ (
          first,
          rw (noted, f, hook_runner) refl,
          refused early h rest e s (rw (f, hook_runner) refl) c,
        )
        | passed snap f c ↦
            let (result, world') = handler snap started.1 in
            let (calls, noted', course) =
              after_handler-noting hooks snap result world' (befores hooks) in
            (
              befores hooks ++ handler_call ∷ calls,
              rw (noted, f, c, hook_runner) noted',
              rw (f, hook_runner) course,
            )
      ]
