-- ===== src/Contract/Registry/Patterns.antt =====
-- Which of a manifest's patterns a method is bound by: `max_by` over the ones that match.
use pingling.Prelude.{
  String, ◌≡◌, refl, ◌∙◌, ◌⊎◌, inl, inr, ◌↔◌, List, [], ◌∷◌, Bool, true, some, Ordering, In, All,
  subst, All-In, keep, arith,
}
use pingling.Prelude.Order.{
  IsOrder, IsOrder-by, IsOrder-then_with, str-IsOrder, ℕ-IsOrder, str_cmp-eq, then_with, flip,
  NotGt, NotGt-trans, NotGt-of_gt,
}
use pingling.Contract.Token.{method_matches, method_pattern_specificity, specificity_cmp}
use pingling.Contract.Package.{Json}
use pingling.Contract.Manifest.{PluginManifest, dispatch_methods}
use pingling.Contract.Registry.{max_from, max_by, pattern_cmp, best_pattern}

flip_fixed : (o : Ordering) → o ≡ flip o → NotGt o
flip_fixed o h = ground arith

both_NotGt : (o : Ordering) → NotGt o → NotGt (flip o) → o ≡ Ordering.eq
both_NotGt o h k = ground arith

then_with_eq : (p q : Ordering) → then_with p q ≡ Ordering.eq → q ≡ Ordering.eq
then_with_eq p q h = ground arith

specificity_cmp-IsOrder : IsOrder specificity_cmp
specificity_cmp-IsOrder =
    IsOrder-then_with (IsOrder-by (λ p. p.0) ℕ-IsOrder) (IsOrder-by (λ p. p.1) ℕ-IsOrder)

pattern_cmp-IsOrder : IsOrder pattern_cmp
pattern_cmp-IsOrder =
    IsOrder-then_with (IsOrder-by method_pattern_specificity specificity_cmp-IsOrder) str-IsOrder

-- Two patterns, each not above the other, are the same text.
pattern_cmp_antisym : (p q : String) → NotGt (pattern_cmp p q) → NotGt (pattern_cmp q p) → p ≡ q
pattern_cmp_antisym p q h k =
    str_cmp-eq p q
      (then_with_eq _ _ (both_NotGt (pattern_cmp p q) h (rw (pattern_cmp-IsOrder.swap p q) at k)))

module _ {A : Type 0} (cmp : A → A → Ordering) (o : IsOrder cmp) where
  NotGt-refl : (a : A) → NotGt (cmp a a)
  NotGt-refl a = flip_fixed (cmp a a) (o.swap a a)

  -- `r` is one of the items and none is above it.
  abbrev Tops : A → List A → Type 0
  Tops r xs = In r xs × All (λ x. NotGt (cmp x r)) xs

  Tops-step :
      (best x next r : A) (xs : List A)
      → (next ≡ best) ⊎ (next ≡ x)
      → NotGt (cmp best next)
      → NotGt (cmp x next)
      → Tops r (next ∷ xs)
      → Tops r (best ∷ x ∷ xs)
  Tops-step best x next r xs e b c (i, (n, all)) = (
    elim i [
      | inl same ↦ elim e [ inl f ↦ inl (same ∙ f) | inr f ↦ inr (inl (same ∙ f)) ]
      | inr later ↦ inr (inr later)
    ],
    (NotGt-trans o best next r b n, (NotGt-trans o x next r c n, all)),
  )

  -- The step of the loop keeps the greater item, the later one of equal items.
  greater : A → A → A
  greater best x = elim (cmp best x) [ Ordering.gt ↦ best | _ ↦ x ]

  greater_bounds :
      (best x : A)
      → ((greater best x ≡ best) ⊎ (greater best x ≡ x))
        × NotGt (cmp best (greater best x))
        × NotGt (cmp x (greater best x))
  unfolding greater
  greater_bounds best x = ground (arith, NotGt-refl best, NotGt-refl x, NotGt-of_gt o best x)

  max_from-Tops : (best : A) (xs : List A) → Tops (max_from cmp best xs) (best ∷ xs)
  unfolding max_from greater
  max_from-Tops best [] = (inl refl, (NotGt-refl best, tt))
  max_from-Tops best (x ∷ xs) =
      let (which, over_best, over_x) = greater_bounds best x in
      Tops-step best x (greater best x) _ xs which over_best over_x
        (max_from-Tops (greater best x) xs)

  max_by-Tops : (r : A) (xs : List A) → max_by cmp xs ≡ some r → Tops r xs
  unfolding max_by
  max_by-Tops r [] h = cc
  max_by-Tops r (x ∷ xs) h =
      let same : max_from cmp x xs ≡ r = cc in
      subst (λ t. Tops t (x ∷ xs)) same (max_from-Tops x xs)

  max_by-some : (x : A) (xs : List A) → In x xs → (r : A) × (max_by cmp xs ≡ some r)
  unfolding max_by
  max_by-some x [] i = absurd i
  max_by-some x (y ∷ ys) i = (max_from cmp y ys, refl)

module _ {A : Type 0} where
  In-keep : (p : A → Bool) (x : A) (xs : List A) → In x (keep p xs) ↔ (In x xs × (p x ≡ true))
  In-keep p x [] = (λ i. absurd i, λ i. i.0)
  In-keep p x (y ∷ ys) = ground (arith, In-keep p x ys)

module _ {V : Type 0} ⦃j : Json V⦄ (m : PluginManifest V) (method : String) where
  -- The pattern stands in the manifest or names a method of its package, it matches, and no other
  -- such pattern is more specific: an exact pattern is above a prefix, a longer one above a
  -- shorter, and then the order of the texts decides.
  pub record IsBest (p : String) : Type 0 where
    pub listed : In p (dispatch_methods m)
    pub matches : method_matches p method ≡ true
    pub most :
        (q : String)
        → In q (dispatch_methods m)
        → method_matches q method ≡ true
        → NotGt (pattern_cmp q p)

  best_pattern-IsBest : (p : String) → best_pattern m method ≡ some p → IsBest p
  unfolding best_pattern
  best_pattern-IsBest p h =
      let tests = λ (q : String). method_matches q method in
      let (i, top) = max_by-Tops pattern_cmp pattern_cmp-IsOrder p _ h in
      let (listed, matches) = (In-keep tests p (dispatch_methods m)).0 i in
      record {
        listed = listed;
        matches = matches;
        most = λ q k e. All-In _ q _ top ((In-keep tests q (dispatch_methods m)).1 (k, e));
      }

  IsBest-best_pattern : (p : String) → IsBest p → best_pattern m method ≡ some p
  unfolding best_pattern
  IsBest-best_pattern p b =
      let tests = λ (q : String). method_matches q method in
      let i = (In-keep tests p (dispatch_methods m)).1 (b.listed, b.matches) in
      let (r, e) = max_by-some pattern_cmp pattern_cmp-IsOrder p _ i in
      let best = best_pattern-IsBest r e in
      let same =
        pattern_cmp_antisym r p (b.most r best.listed best.matches)
          (best.most p b.listed b.matches) in
      rw same at e

  -- A manifest binds a method by a pattern exactly when it is the most specific of its patterns
  -- that match.
  pub best_pattern_iff : (p : String) → (best_pattern m method ≡ some p) ↔ IsBest p
  best_pattern_iff p = (best_pattern-IsBest p, IsBest-best_pattern p)
