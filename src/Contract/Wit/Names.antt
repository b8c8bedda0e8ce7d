-- ===== src/Contract/Wit/Names.antt =====
-- The validators of WIT names in host-contract/src/contract.rs.
use pingling.Prelude.{
  ℕ, String, List, [], ◌∷◌, none, some, Bool, ok, err, ◌>>◌, ◌||◌, not, reject_if, any, str_eq,
  if◌then◌else◌, ◌==◌,
}
use pingling.Prelude.Text.{
  format, is_empty, chars_all, contains_char, is_ascii_alphanumeric, is_ascii_alphabetic,
  split_once,
}
use Prim.Native.Char.{code}
use Prim.Native.String as Str
use pingling.Contract.Failure.{HostResult, invalid_input}

abbrev pub is_identifier_start : ℕ → Bool
is_identifier_start c = is_ascii_alphabetic c || c == b'_'

abbrev pub is_identifier_char : ℕ → Bool
is_identifier_char c = is_ascii_alphanumeric c || c == b'-' || c == b'_'

unfoldable pub validate_wit_identifier : String → String → HostResult (Unit {0})
validate_wit_identifier kind Str.[] =
    err (invalid_input (format (kind ∷ " must not be empty" ∷ [])))
validate_wit_identifier kind (Str.◌∷◌ first rest) =
    if is_identifier_start (code first)
    then (if chars_all is_identifier_char rest
        then ok tt
        else err (invalid_input (format (kind ∷ " contains unsupported characters" ∷ []))))
    else err (invalid_input (format (kind ∷ " must start with a letter or underscore" ∷ [])))

abbrev pub wit_primitives : List String
wit_primitives =
    "bool" ∷ "u8" ∷ "u16" ∷ "u32" ∷ "u64" ∷ "s8" ∷ "s16" ∷ "s32" ∷ "s64" ∷ "f32" ∷ "f64" ∷ "char"
    ∷ "string" ∷ "_" ∷ []

unfoldable pub validate_wit_type : String → String → HostResult (Unit {0})
validate_wit_type kind value =
    if any (λ p. str_eq p value) wit_primitives then ok tt else validate_wit_identifier kind value

unfoldable pub validate_wit_package : String → HostResult (Unit {0})
validate_wit_package value = elim (split_once b':' value) [
  | none ↦ err (invalid_input "WIT package must use namespace:name form")
  | some (namespace, package_name) ↦
      validate_wit_identifier "WIT package namespace" namespace
      >> validate_wit_identifier "WIT package name" package_name
]

abbrev pub is_import_char : ℕ → Bool
is_import_char c =
    is_ascii_alphanumeric c
    || c == b':'
    || c == b'/'
    || c == b'@'
    || c == b'.'
    || c == b'-'
    || c == b'_'

unfoldable pub validate_wit_import_path : String → String → HostResult (Unit {0})
validate_wit_import_path kind value =
    reject_if (is_empty value) (invalid_input (format (kind ∷ " must not be empty" ∷ [])))
    >> reject_if (not (contains_char b':' value) || not (contains_char b'/' value))
        (invalid_input (format (kind ∷ " must use namespace:package/interface form" ∷ [])))
    >> (if chars_all is_import_char value
        then ok tt
        else err (invalid_input (format (kind ∷ " contains unsupported characters" ∷ []))))
