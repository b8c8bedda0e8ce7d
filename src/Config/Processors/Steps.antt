-- ===== src/Config/Processors/Steps.antt =====
-- Which processors a run of the pipeline reaches, and which steps it reports.
use mathlib.Core.List.{append_assoc, append-nil}
use pingling.Prelude.{
  String, ◌≡◌, refl, sym, ap, ◌∙◌, List, [], ◌∷◌, ◌++◌, Result, ok, err, Result-cases, inl, inr,
  map_err, ◌>>=◌,
}
use pingling.Config.Attempt.{ConfigRequest}
use pingling.Config.Processors.{
  ConfigProcessor, ProcessorStep, ProcessorPipeline, processor_error, process_all, process_with,
  process, push,
}

module _ {V : Type 0} (request : ConfigRequest) where
  -- The processors turn `config` into `final`, and the steps report each of them with its input
  -- and its output.
  abbrev pub Ran : V → List (ConfigProcessor V) → List (ProcessorStep V) → V → Type 0
  Ran config [] [] final = config ≡ final
  Ran config [] (s ∷ ss) final = ⊥
  Ran config (p ∷ ps) [] final = ⊥
  Ran config (p ∷ ps) (s ∷ ss) final =
      (s.processor_name ≡ p.name)
      × (s.input ≡ config)
      × (p.process config request ≡ ok s.output)
      × Ran s.output ps ss final

  pub data Trace (processors : List (ConfigProcessor V)) (config : V) (result : Result V String)
      (steps : List (ProcessorStep V)) : Type 0 where
    completed :
        (final : V)
        → result ≡ ok final
        → Ran config processors steps final
        → Trace processors config result steps
    broke :
        (early : List (ConfigProcessor V)) (p : ConfigProcessor V) (rest : List (ConfigProcessor V))
        (reached : V) (e : String)
        → processors ≡ early ++ p ∷ rest
        → Ran config early steps reached
        → p.process reached request ≡ err e
        → result ≡ err (processor_error p.name e)
        → Trace processors config result steps

  Trace-first :
      (p : ConfigProcessor V) (ps : List (ConfigProcessor V)) (config output : V)
      (result : Result V String) (steps : List (ProcessorStep V))
      → p.process config request ≡ ok output
      → Trace ps output result steps
      → Trace
          (p ∷ ps)
          config
          result
          (record { processor_name = p.name; input = config; output = output } ∷ steps)
  Trace-first p ps config output result steps h (completed final e ran) =
      completed final e (refl, refl, h, ran)
  Trace-first p ps config output result steps h (broke early q rest reached e s ran f r) =
      broke (p ∷ early) q rest reached e (ap (λ qs. p ∷ qs) s) (refl, refl, h, ran) f r

  process_all-Trace :
      (ps : List (ConfigProcessor V)) (told : List (ProcessorStep V)) (config : V)
      → (steps : List (ProcessorStep V)) × ((process_all ps told config request).1 ≡ told ++ steps)
        × Trace ps config (process_all ps told config request).0 steps
  unfolding process_all
  process_all-Trace [] told config = ([], sym (append-nil told), completed config refl refl)
  process_all-Trace (p ∷ ps) told config = elim (Result-cases (p.process config request)) [
    | inl (output, c) ↦
        let step : ProcessorStep V = record {
          processor_name = p.name;
          input = config;
          output = output;
        } in
        let (steps, added, trace) = process_all-Trace ps (told ++ step ∷ []) output in
        rw (c, process_all)
          (
            step ∷ steps,
            added ∙ append_assoc told (step ∷ []) steps,
            Trace-first p ps config output _ steps c trace,
          )
    | inr (e, c) ↦
        rw (c, process_all) ([], sym (append-nil told), broke [] p ps config e refl refl c refl)
  ]

  -- A run feeds each processor the output of the one before and reports just the processors that
  -- succeeded, each with its own input and output. It ends with the last output, or at the first
  -- processor that fails, with that processor's name before its error.
  pub process_with-Trace :
      (p : ProcessorPipeline V) (config : V)
      → Trace p.processors config
          (process_with p config request).0
          (process_with p config request).1
  unfolding process_with
  process_with-Trace p config =
      let (steps, added, trace) = process_all-Trace p.processors [] config in rw added trace

  process_all-last :
      (ps : List (ConfigProcessor V)) (x : ConfigProcessor V) (told : List (ProcessorStep V))
      (config : V)
      → (process_all (ps ++ x ∷ []) told config request).0 ≡ (
          (process_all ps told config request).0 >>= λ reached.
          map_err (λ e. processor_error x.name e) (x.process reached request))
  unfolding process_all
  process_all-last [] x told config = elim (Result-cases (x.process config request)) [
    | inl (output, c) ↦ rw (c, process_all) refl
    | inr (e, c) ↦ rw (c, process_all) refl
  ]
  process_all-last (p ∷ ps) x told config = elim (Result-cases (p.process config request)) [
    | inl (output, c) ↦ rw (c, process_all) (process_all-last ps x _ output)
    | inr (e, c) ↦ rw (c, process_all) refl
  ]

  -- A processor that is pushed runs on what the pipeline before it gives, and not at all when that
  -- fails.
  pub process-push :
      (p : ProcessorPipeline V) (x : ConfigProcessor V) (config : V)
      → process (push p x) config request ≡ (
          process p config request >>= λ reached.
          map_err (λ e. processor_error x.name e) (x.process reached request))
  unfolding process push process_with
  process-push p x config = process_all-last p.processors x [] config
