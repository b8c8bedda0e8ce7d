-- ===== src/Contract/Failure.antt =====
-- `HostFailure` and `HostResult` of host-contract/src/lib.rs, and loops that check and return early.
use pingling.Prelude.{String, List, [], ◌∷◌, Bool, false, Result, ok, ◌>>◌, ◌||◌, str_eq, reject_if}
use pingling.Prelude.Text.{format}

pub record HostFailure : Type 0 where
  pub code : String
  pub message : String

unfoldable pub invalid_input : String → HostFailure
invalid_input message = record { code = "invalid_input"; message = message }

unfoldable pub plugin_error : String → HostFailure
plugin_error message = record { code = "plugin_error"; message = message }

unfoldable pub unsupported : String → HostFailure
unsupported message = record { code = "unsupported"; message = message }

-- `Display`
unfoldable pub to_string : HostFailure → String
to_string f = format (f.code ∷ ": " ∷ f.message ∷ [])

abbrev pub HostResult {ℓ} : Type ℓ → Type ℓ
HostResult A = Result A HostFailure

-- `BTreeSet::contains` of a set that is never iterated over
abbrev pub has : List String → String → Bool
has [] k = false
has (j ∷ js) k = str_eq j k || has js k

-- `let mut seen = BTreeSet::new(); for x in xs { check(x)?; if !seen.insert(name(x)) { return Err } }`
module _ {A : Type 0} (name : A → String) (check : A → HostResult (Unit {0})) where
  abbrev pub each_once : (A → HostFailure) → List String → List A → HostResult (Unit {0})
  each_once duplicate seen [] = ok tt
  each_once duplicate seen (x ∷ xs) =
      check x
      >> reject_if (has seen (name x)) (duplicate x)
      >> each_once duplicate (name x ∷ seen) xs
