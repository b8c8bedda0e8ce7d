-- ===== src/Contract/Token/Matching.antt =====
-- What method patterns match, and which of two is the more specific.
use Prim.Native.Char.{Char, len_utf8}
use Prim.Native.String.len
use Prim.Native.String.{len, String, [], ◌∷◌}
use mathlib.Core.List as List
use text.Mathlib.Text.{starts_with}
use text.Mathlib.TextPositions.{len-append, len_utf8-pos}
use Prim.Native.String as String
use text.Mathlib.TextLemmas.{nil-append, cons-append, append_assoc}
use text.Mathlib.TextEquality.{starts_with_iff}
use pingling.Prelude.{
  Ordering, compare, ℕ, ◌+◌, ◌<◌, ◌≡◌, refl, sym, ap, subst, ◌∙◌, ◌↔◌, ◌⊎◌, inl, inr, true, false,
  none, some, str_eq, eq_iff, eq_refl, arith, Bool-cases, Option-cases,
}
use pingling.Prelude.Text.{strip_suffix, format}
use pingling.Prelude.Order.{NotGt, str_cmp, then_with}
use pingling.Contract.Token.{method_matches, method_pattern_specificity}

-- The pattern is `stem` and the ending of a prefix pattern.
abbrev pub IsStem : String → String → Type 0
IsStem pattern stem = pattern ≡ String.◌++◌ stem ".*"

-- A pattern matches itself; a prefix pattern also its stem, and what follows the stem after a dot.
pub data Matches (pattern method : String) : Type 0 where
  itself : pattern ≡ method → Matches pattern method
  stem : IsStem pattern method → Matches pattern method
  below :
      (s rest : String)
      → IsStem pattern s
      → method ≡ String.◌++◌ (String.◌++◌ s ".") rest
      → Matches pattern method

strip_suffix_sound :
    (suffix s p : String) → strip_suffix suffix s ≡ some p → s ≡ String.◌++◌ p suffix
unfolding strip_suffix
strip_suffix_sound suffix [] p h = elim (Bool-cases (str_eq suffix "")) [
  | inl e ↦
      let empty : suffix ≡ "" = (eq_iff suffix "").0 e in
      let all : p ≡ "" = ground (arith, e, h) in rw (all, empty) refl
  | inr e ↦ absurd (ground (arith, e, h))
]
strip_suffix_sound suffix (c ∷ s) p h = elim (Bool-cases (str_eq suffix (c ∷ s))) [
  | inl e ↦
      let all : p ≡ "" = ground (arith, e, h) in
      sym ((eq_iff suffix (c ∷ s)).0 e) ∙ rw all (sym (nil-append suffix))
  | inr e ↦ elim (Option-cases (strip_suffix suffix s)) [
    | inl q ↦ absurd (ground (arith, e, q, h))
    | inr (r, q) ↦
        let cut : p ≡ c ∷ r = ground (arith, e, q, h) in
        ap (λ t. c ∷ t) (strip_suffix_sound suffix s r q) ∙ rw cut (sym (cons-append c r suffix))
  ]
]

stem_longer : (c : Char) (p : String) → str_eq ".*" (c ∷ String.◌++◌ p ".*") ≡ false
stem_longer c p = elim (Bool-cases (str_eq ".*" (c ∷ String.◌++◌ p ".*"))) [
  | inr e ↦ e
  | inl e ↦
      let same : ".*" ≡ c ∷ String.◌++◌ p ".*" = (eq_iff ".*" (c ∷ String.◌++◌ p ".*")).0 e in
      let equal : 2 ≡ len_utf8 c + (len p + 2) =
        ap len same
        ∙ len.cons c (String.◌++◌ p ".*")
        ∙ ap (λ k. len_utf8 c + k) (len-append p ".*") in
      let (k, positive) = len_utf8-pos c in absurd (omega arith)
]

strip_suffix_stem : (p : String) → strip_suffix ".*" (String.◌++◌ p ".*") ≡ some p
unfolding strip_suffix
strip_suffix_stem [] = refl
strip_suffix_stem (c ∷ p) =
    rw (cons-append c p ".*", strip_suffix, stem_longer c p, strip_suffix_stem p) refl

-- A pattern has one stem or none.
pub strip_suffix_iff :
    (pattern s : String) → (strip_suffix ".*" pattern ≡ some s) ↔ IsStem pattern s
strip_suffix_iff pattern s = (
  strip_suffix_sound ".*" pattern s,
  λ h. subst (λ t. strip_suffix ".*" t ≡ some s) (sym h) (strip_suffix_stem s),
)

pub method_matches-Matches :
    (pattern method : String) → method_matches pattern method ≡ true → Matches pattern method
unfolding method_matches format
method_matches-Matches pattern method h = elim (Option-cases (strip_suffix ".*" pattern)) [
  | inl e ↦ itself ((eq_iff pattern method).0 (rw (e, method_matches) at h))
  | inr (s, e) ↦ elim (Bool-cases (str_eq method s)) [
    | inl q ↦ stem (
        strip_suffix_sound ".*" pattern s e
        ∙ ap (λ t. String.◌++◌ t ".*") (sym ((eq_iff method s).0 q)))
    | inr q ↦
        let (rest, split) =
          (starts_with_iff method (format (List.◌∷◌ s (List.◌∷◌ "." List.[])))).0
            (rw (e, method_matches, q) at h) in
        below s rest (strip_suffix_sound ".*" pattern s e) (sym split)
  ]
]

pub Matches-method_matches :
    (pattern method : String) → Matches pattern method → method_matches pattern method ≡ true
unfolding method_matches format
Matches-method_matches pattern method (itself same) =
    elim (Option-cases (strip_suffix ".*" pattern)) [
      | inl e ↦ rw (e, method_matches) ((eq_iff pattern method).1 same)
      | inr (s, e) ↦
          let starts : starts_with method (format (List.◌∷◌ s (List.◌∷◌ "." List.[]))) ≡ true =
            (starts_with_iff method (format (List.◌∷◌ s (List.◌∷◌ "." List.[])))).1
              ("*", append_assoc s "." "*" ∙ sym (strip_suffix_sound ".*" pattern s e) ∙ same) in
          rw (e, method_matches) (ground (arith, starts))
    ]
Matches-method_matches pattern method (stem s) =
    rw ((strip_suffix_iff pattern method).1 s, method_matches, eq_refl method) refl
Matches-method_matches pattern method (below s rest is_stem split) =
    let starts : starts_with method (format (List.◌∷◌ s (List.◌∷◌ "." List.[]))) ≡ true =
      (starts_with_iff method (format (List.◌∷◌ s (List.◌∷◌ "." List.[])))).1 (rest, sym split) in
    rw ((strip_suffix_iff pattern s).1 is_stem, method_matches) (ground (arith, starts))

-- The two sorts of patterns.
abbrev pub IsPrefixPattern : String → Type 0
IsPrefixPattern pattern = (s : String) × IsStem pattern s

abbrev pub SameSort : String → String → Type 0
SameSort q p =
    (IsPrefixPattern q × IsPrefixPattern p) ⊎ ((IsPrefixPattern q → ⊥) × (IsPrefixPattern p → ⊥))

-- The pattern `q` is not preferred to `p`: any exact pattern is preferred to a prefix, among those
-- of one sort the longer one, and among those of one length the later in the order of the texts.
pub data NotPreferred (q p : String) : Type 0 where
  prefix_exact : IsPrefixPattern q → (IsPrefixPattern p → ⊥) → NotPreferred q p
  shorter : SameSort q p → len q < len p → NotPreferred q p
  earlier : SameSort q p → len q ≡ len p → NotGt (str_cmp q p) → NotPreferred q p

pub not_prefix : (p : String) → strip_suffix ".*" p ≡ none → IsPrefixPattern p → ⊥
not_prefix p e (s, h) =
    let bad : none ≡ some s = sym e ∙ (strip_suffix_iff p s).1 h in absurd (ground (arith, bad))

-- The pair of the code: the sort, and the length, without the ending of a prefix pattern.
pub specificity_prefix :
    (p s : String)
    → strip_suffix ".*" p ≡ some s
    → (method_pattern_specificity p ≡ (0, len s)) × (len p ≡ len s + 2)
unfolding method_pattern_specificity
specificity_prefix p s e = (
  rw (e, method_pattern_specificity) refl,
  ap len (strip_suffix_sound ".*" p s e) ∙ len-append s ".*",
)

pub specificity_exact :
    (p : String) → strip_suffix ".*" p ≡ none → method_pattern_specificity p ≡ (1, len p)
unfolding method_pattern_specificity
specificity_exact p e = rw (e, method_pattern_specificity) refl

pub by_length :
    (a b : ℕ) (k : Ordering) → NotGt (then_with (compare a b) k) → (a < b) ⊎ ((a ≡ b) × NotGt k)
by_length a b k h = ground arith

pub length_first :
    (a b : ℕ) (k : Ordering) → (a < b) ⊎ ((a ≡ b) × NotGt k) → NotGt (then_with (compare a b) k)
length_first a b k h = ground arith
