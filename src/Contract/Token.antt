-- ===== src/Contract/Token.antt =====
-- The validators of names and patterns in host-contract/src/lib.rs.
pub mod Laws
pub mod Matching
use Prim.Native.String as String
use pingling.Prelude.{
  ℕ, String, [], ◌∷◌, none, some, Bool, ◌||◌, ok, err, str_eq, if◌then◌else◌, ◌==◌, Ordering,
  compare,
}
use text.Mathlib.Text.{starts_with}
use pingling.Prelude.Text.{format, is_empty, chars_all, is_ascii_alphanumeric, strip_suffix}
use pingling.Prelude.Order.{then_with}
use pingling.Contract.Failure.{HostResult, invalid_input}

abbrev pub is_token_char : ℕ → Bool
is_token_char c = is_ascii_alphanumeric c || c == b'.' || c == b'-' || c == b'_' || c == b':'

abbrev pub is_host_char : ℕ → Bool
is_host_char c = is_ascii_alphanumeric c || c == b'.' || c == b'-' || c == b'*' || c == b':'

unfoldable pub validate_token : String → String → HostResult (Unit {0})
validate_token kind value =
    if is_empty value
    then err (invalid_input (format (kind ∷ " must not be empty" ∷ [])))
    else if chars_all is_token_char value
    then ok tt
    else err (invalid_input (format (kind ∷ " contains unsupported characters" ∷ [])))

unfoldable pub validate_method_pattern : String → HostResult (Unit {0})
validate_method_pattern value = elim (strip_suffix ".*" value) [
  | some prefix ↦ validate_token "method prefix" prefix
  | none ↦ validate_token "method" value
]

unfoldable pub validate_host_pattern : String → HostResult (Unit {0})
validate_host_pattern value =
    if is_empty value
    then err (invalid_input "host must not be empty")
    else if chars_all is_host_char value
    then ok tt
    else err (invalid_input "host contains unsupported characters")

unfoldable pub method_matches : String → String → Bool
method_matches pattern method = elim (strip_suffix ".*" pattern) [
  | some prefix ↦ str_eq method prefix || starts_with method (format (prefix ∷ "." ∷ []))
  | none ↦ str_eq pattern method
]

-- `(0, prefix.len())` for a prefix pattern, `(1, pattern.len())` for an exact one
unfoldable pub method_pattern_specificity : String → ℕ × ℕ
method_pattern_specificity pattern = elim (strip_suffix ".*" pattern) [
  | some prefix ↦ (0, String.len prefix)
  | none ↦ (1, String.len pattern)
]

-- the order of such pairs
abbrev pub specificity_cmp : ℕ × ℕ → ℕ × ℕ → Ordering
specificity_cmp (a, b) (c, d) = then_with (compare a c) (compare b d)
