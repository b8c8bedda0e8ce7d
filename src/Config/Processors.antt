-- ===== src/Config/Processors.antt =====
-- `ProcessorPipeline` of crates/config/pipeline/src/pipeline.rs, for configurations of type `V`.
--
-- A processor is a function, as its contract demands the same result for the same input. The step
-- callback returns nothing to the code: it is the list of the steps it was told.
pub mod Steps
use pingling.Prelude.{String, List, [], ◌∷◌, ◌++◌, map, Bool, Result, ok, err, is_empty, map_err}
use pingling.Prelude.Text.{format}
use pingling.Config.Attempt.{ConfigRequest}

pub record ConfigProcessor (V : Type 0) : Type 0 where
  pub name : String
  pub process : V → ConfigRequest → Result V String

pub record ProcessorStep (V : Type 0) : Type 0 where
  pub processor_name : String
  pub input : V
  pub output : V

pub record ProcessorPipeline (V : Type 0) : Type 0 where
  pub processors : List (ConfigProcessor V)

unfoldable pub processor_error : String → String → String
processor_error name e = format ("processor[" ∷ name ∷ "]: " ∷ e ∷ [])

-- `PassthroughProcessor` of src/processors/passthrough.rs.
unfoldable pub passthrough : {V : Type 0} → ConfigProcessor V
passthrough = record { name = "passthrough"; process = λ config request. ok config }

module _ {V : Type 0} where
  unfoldable pub new_pipeline : ProcessorPipeline V
  new_pipeline = record { processors = [] }

  unfoldable pub push : ProcessorPipeline V → ConfigProcessor V → ProcessorPipeline V
  push p processor = record { processors = p.processors ++ processor ∷ [] }

  unfoldable pub names : ProcessorPipeline V → List String
  names p = map (λ processor. processor.name) p.processors

  unfoldable pub is_empty_pipeline : ProcessorPipeline V → Bool
  is_empty_pipeline p = is_empty p.processors

  -- The loop of `process_with` over the processors that are left; `told` are the steps so far.
  unfoldable pub process_all :
      List (ConfigProcessor V)
      → List (ProcessorStep V)
      → V
      → ConfigRequest
      → Result V String × List (ProcessorStep V)
  process_all [] told config request = (ok config, told)
  process_all (p ∷ ps) told config request =
      elim (map_err (λ e. processor_error p.name e) (p.process config request)) [
        | err e ↦ (err e, told)
        | ok output ↦
            process_all ps
              (told ++ record { processor_name = p.name; input = config; output = output } ∷ [])
              output request
      ]

  unfoldable pub process_with :
      ProcessorPipeline V → V → ConfigRequest → Result V String × List (ProcessorStep V)
  process_with p config request = process_all p.processors [] config request

  unfoldable pub process : ProcessorPipeline V → V → ConfigRequest → Result V String
  process p config request = (process_with p config request).0
