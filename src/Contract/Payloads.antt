-- ===== src/Contract/Payloads.antt =====
-- The payload of `config.process` and the config pipeline of
-- crates/plugin_runtime/host-contract/src/payloads.rs, for JSON values of a type `V`.
--
-- A processor is a function, and the step callback, which returns nothing to the code, is the list of the
-- steps it was told.
pub mod Pipelines
use pingling.Prelude.{
  String, List, [], ◌∷◌, ◌++◌, map, Bool, Option, Result, ok, err, is_empty, map_err,
}
use pingling.Prelude.Text.{format}
use pingling.Contract.Failure.{HostFailure, HostResult, plugin_error, to_string}

pub record ConfigProcessPayload (V : Type 0) : Type 0 where
  pub config : V
  pub request : V
  pub core_type : Option String
  pub core_version : Option String
  pub target_os : Option String

pub record ProcessorStep (V : Type 0) : Type 0 where
  pub processor_name : String
  pub input : V
  pub output : V

pub record ConfigProcessor (V : Type 0) : Type 0 where
  pub name : String
  pub process : V → V → HostResult V

pub record ProcessorPipeline (V : Type 0) : Type 0 where
  pub processors : List (ConfigProcessor V)

unfoldable pub processor_failure : String → HostFailure → HostFailure
processor_failure name error =
    plugin_error (format ("processor[" ∷ name ∷ "]: " ∷ to_string error ∷ []))

module _ {V : Type 0} where
  unfoldable pub new_pipeline : ProcessorPipeline V
  new_pipeline = record { processors = [] }

  unfoldable pub push : ProcessorPipeline V → ConfigProcessor V → ProcessorPipeline V
  push p processor = record { processors = p.processors ++ processor ∷ [] }

  unfoldable pub names : ProcessorPipeline V → List String
  names p = map (λ processor. processor.name) p.processors

  unfoldable pub is_empty_pipeline : ProcessorPipeline V → Bool
  is_empty_pipeline p = is_empty p.processors

  -- The loop over the processors that are left; `told` are the steps so far.
  unfoldable pub process_all :
      List (ConfigProcessor V)
      → List (ProcessorStep V)
      → V
      → V
      → HostResult V × List (ProcessorStep V)
  process_all [] told config request = (ok config, told)
  process_all (p ∷ ps) told config request =
      elim (map_err (processor_failure p.name) (p.process config request)) [
        | err e ↦ (err e, told)
        | ok output ↦
            process_all ps
              (told ++ record { processor_name = p.name; input = config; output = output } ∷ [])
              output request
      ]

  unfoldable pub process_with : ProcessorPipeline V → V → V → HostResult V × List (ProcessorStep V)
  process_with p config request = process_all p.processors [] config request

  unfoldable pub process : ProcessorPipeline V → V → V → HostResult V
  process p config request = (process_with p config request).0
