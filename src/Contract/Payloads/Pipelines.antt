-- ===== src/Contract/Payloads/Pipelines.antt =====
-- The two config pipelines of the repository against each other.
use mathlib.Core.List.{map-append}
use pingling.Prelude.{List, [], ◌∷◌, ◌++◌, map, ◌≡◌, refl, map_err, Result-cases, inl, inr, arith}
use pingling.Contract.Failure.{plugin_error, to_string}
use pingling.Contract.Payloads.{
  ConfigProcessor, ProcessorPipeline, ProcessorStep, processor_failure, process_all, process_with,
}
use pingling.Config.Attempt.{ConfigRequest}
use pingling.Config.Processors as Config

module _ {V : Type 0} (value : V) where
  -- A processor of the contract as one of crates/config/pipeline, with the text of its failure.
  abbrev pub as_config : ConfigProcessor V → Config.ConfigProcessor V
  as_config p = record {
    name = p.name;
    process = λ config request. map_err to_string (p.process config value);
  }

  abbrev pub as_step : ProcessorStep V → Config.ProcessorStep V
  as_step s = record { processor_name = s.processor_name; input = s.input; output = s.output }

  abbrev pub as_pipeline : ProcessorPipeline V → Config.ProcessorPipeline V
  as_pipeline p = record { processors = map as_config p.processors }

  process_all-Same :
      (ps : List (ConfigProcessor V)) (told : List (ProcessorStep V)) (config : V)
      (request : ConfigRequest)
      → ((process_all ps told config value).0
          ≡ map_err plugin_error
              (Config.process_all (map as_config ps) (map as_step told) config request).0)
        × (map as_step (process_all ps told config value).1
            ≡ (Config.process_all (map as_config ps) (map as_step told) config request).1)
  unfolding process_all Config.process_all processor_failure Config.processor_error
  process_all-Same [] told config request = (refl, refl)
  process_all-Same (p ∷ ps) told config request = elim (Result-cases (p.process config value)) [
    | inr (error, e) ↦ ground (arith, e)
    | inl (output, e) ↦
        let step : ProcessorStep V = record {
          processor_name = p.name;
          input = config;
          output = output;
        } in
        let rest = process_all-Same ps (told ++ step ∷ []) output request in
        ground (arith, e, rest, map-append as_step told (step ∷ []))
  ]

  -- The config pipeline of the contract does what that of crates/config/pipeline does with the same
  -- processors: it has the same output or a plugin_error with the text of its error, and the same steps
  -- are reported, whatever the request of the other is.
  pub process_with-Same :
      (p : ProcessorPipeline V) (config : V) (request : ConfigRequest)
      → ((process_with p config value).0
          ≡ map_err plugin_error (Config.process_with (as_pipeline p) config request).0)
        × (map as_step (process_with p config value).1
            ≡ (Config.process_with (as_pipeline p) config request).1)
  unfolding process_with Config.process_with
  process_with-Same p config request = process_all-Same p.processors [] config request
