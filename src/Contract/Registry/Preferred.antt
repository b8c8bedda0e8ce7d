-- ===== src/Contract/Registry/Preferred.antt =====
-- The comparison of patterns is the preference among them.
use Prim.Native.String.{len}
use pingling.Prelude.{String, ◌<◌, ◌≡◌, ◌↔◌, inl, inr, none, some, arith, Option-cases}
use pingling.Prelude.Text.{strip_suffix}
use pingling.Prelude.Order.{NotGt, str_cmp}
use pingling.Contract.Token.Matching.{
  NotPreferred, prefix_exact, shorter, earlier, IsPrefixPattern, SameSort, strip_suffix_iff,
  not_prefix, specificity_prefix, specificity_exact, by_length, length_first,
}
use pingling.Contract.Registry.{pattern_cmp}

both_prefix :
    (q p s t : String)
    → strip_suffix ".*" q ≡ some s
    → strip_suffix ".*" p ≡ some t
    → NotGt (pattern_cmp q p) ↔ NotPreferred q p
both_prefix q p s t e f =
    let (vq, lq) = specificity_prefix q s e in
    let (vp, lp) = specificity_prefix p t f in
    let same = inl ((s, (strip_suffix_iff q s).0 e), (t, (strip_suffix_iff p t).0 f)) in
    rw (vq, vp)
      (
        λ h. elim (by_length (len s) (len t) (str_cmp q p) h) [
          | inl less ↦ let whole : len q < len p = omega arith in shorter same whole
          | inr (equal, k) ↦ let whole : len q ≡ len p = omega arith in earlier same whole k
        ],
        λ n. elim n [
          | prefix_exact _ never ↦ absurd (never (t, (strip_suffix_iff p t).0 f))
          | shorter _ less ↦
              let stems : len s < len t = omega arith in
              length_first (len s) (len t) (str_cmp q p) (inl stems)
          | earlier _ equal k ↦
              let stems : len s ≡ len t = omega arith in
              length_first (len s) (len t) (str_cmp q p) (inr (stems, k))
        ],
      )

mixed :
    (q p s : String)
    → strip_suffix ".*" q ≡ some s
    → strip_suffix ".*" p ≡ none
    → NotGt (pattern_cmp q p) ↔ NotPreferred q p
mixed q p s e f =
    rw ((specificity_prefix q s e).0, specificity_exact p f)
      (λ h. prefix_exact (s, (strip_suffix_iff q s).0 e) (not_prefix p f), λ n. tt)

exact_prefix :
    (q p t : String)
    → strip_suffix ".*" q ≡ none
    → strip_suffix ".*" p ≡ some t
    → NotGt (pattern_cmp q p) ↔ NotPreferred q p
exact_prefix q p t e f =
    let never : IsPrefixPattern q → ⊥ = not_prefix q e in
    let is_prefix : IsPrefixPattern p = (t, (strip_suffix_iff p t).0 f) in
    let apart : SameSort q p → ⊥ =
      λ same. elim same [ inl both ↦ never both.0 | inr neither ↦ neither.1 is_prefix ] in
    rw (specificity_exact q e, (specificity_prefix p t f).0)
      (
        λ h. absurd h,
        λ n. elim n [
          | prefix_exact is _ ↦ absurd (never is)
          | shorter same _ ↦ absurd (apart same)
          | earlier same _ _ ↦ absurd (apart same)
        ],
      )

both_exact :
    (q p : String)
    → strip_suffix ".*" q ≡ none
    → strip_suffix ".*" p ≡ none
    → NotGt (pattern_cmp q p) ↔ NotPreferred q p
both_exact q p e f =
    let same = inr (not_prefix q e, not_prefix p f) in
    rw (specificity_exact q e, specificity_exact p f)
      (
        λ h. elim (by_length (len q) (len p) (str_cmp q p) h) [
          | inl less ↦ shorter same less
          | inr (equal, k) ↦ earlier same equal k
        ],
        λ n. elim n [
          | prefix_exact is _ ↦ absurd (not_prefix q e is)
          | shorter _ less ↦ length_first (len q) (len p) (str_cmp q p) (inl less)
          | earlier _ equal k ↦ length_first (len q) (len p) (str_cmp q p) (inr (equal, k))
        ],
      )

pub pattern_cmp-NotPreferred : (q p : String) → NotGt (pattern_cmp q p) ↔ NotPreferred q p
pattern_cmp-NotPreferred q p = elim (Option-cases (strip_suffix ".*" q)) [
  | inl e ↦ elim (Option-cases (strip_suffix ".*" p)) [
    | inl f ↦ both_exact q p e f
    | inr (t, f) ↦ exact_prefix q p t e f
  ]
  | inr (s, e) ↦ elim (Option-cases (strip_suffix ".*" p)) [
    | inl f ↦ mixed q p s e f
    | inr (t, f) ↦ both_prefix q p s t e f
  ]
]
