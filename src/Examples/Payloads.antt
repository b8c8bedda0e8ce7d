-- ===== src/Examples/Payloads.antt =====
-- A config pipeline of the contract whose second processor fails.
use pingling.Prelude.{String, [], ◌∷◌, ◌≡◌, map, ok, err, map_err}
use pingling.Prelude.Text.{format}
use pingling.Contract.Failure.{plugin_error, invalid_input}
use pingling.Contract.Payloads.{ProcessorPipeline, process_with}
use pingling.Contract.Payloads.Pipelines.{as_pipeline, as_step, process_with-Same}
use pingling.Config.Processors as Config
use pingling.Examples.Config.{request}

abbrev marking : ProcessorPipeline String
marking = record {
  processors =
      record { name = "mark"; process = λ config value. ok (format (config ∷ value ∷ [])) }
      ∷ record { name = "check"; process = λ config value. err (invalid_input "no route") }
      ∷ [];
}

process_with-Same_example :
    ((process_with marking "c" "!").0
      ≡ map_err plugin_error (Config.process_with (as_pipeline "!" marking) "c" request).0)
    × (map (as_step "!") (process_with marking "c" "!").1
        ≡ (Config.process_with (as_pipeline "!" marking) "c" request).1)
process_with-Same_example = process_with-Same "!" marking "c" request
