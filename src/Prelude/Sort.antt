-- ===== src/Prelude/Sort.antt =====
-- `slice::sort_by`: the stable sort, as an insertion sort.
use Prim.Native.Nat.{Ordering}
use mathlib.Core.Path.{◌≡◌}
use mathlib.Core.Logic.{◌⊎◌, inl, inr, ◌↔◌}
use mathlib.Core.Bool.{Bool, true, false}
use mathlib.Core.List.{List, [], ◌∷◌, Perm}
use mathlib.Core.List.Perm
use native.Mathlib.Omega.{arith}
use pingling.Prelude.Tests.{if◌then◌else◌, Bool-cases}
use pingling.Prelude.Order.{IsOrder, NotGt, NotGt-trans, NotGt-of_gt}
use pingling.Prelude.Lists.{All, In}

abbrev is_gt : Ordering → Bool
is_gt Ordering.gt = true
is_gt _ = false

is_gt-eq : (o : Ordering) → is_gt o ≡ true → o ≡ Ordering.gt
is_gt-eq o h = ground arith

is_gt-NotGt : (o : Ordering) → is_gt o ≡ false → NotGt o
is_gt-NotGt o h = ground arith

module _ {ℓ} {A : Type ℓ} (cmp : A → A → Ordering) where
  -- `x` goes before the first item that is not below it.
  sort_insert : A → List A → List A
  sort_insert x [] = x ∷ []
  sort_insert x (y ∷ ys) = if is_gt (cmp x y) then y ∷ sort_insert x ys else x ∷ y ∷ ys

  unfoldable pub sort_by : List A → List A
  unfolding sort_insert
  sort_by [] = []
  sort_by (x ∷ xs) = sort_insert x (sort_by xs)

  abbrev pub IsSorted : List A → Type 0
  IsSorted [] = Unit
  IsSorted (x ∷ xs) = All (λ y. NotGt (cmp x y)) xs × IsSorted xs

  sort_insert-All {κ} :
      (P : A → Type κ) (x : A) (ys : List A) → P x → All P ys → All P (sort_insert x ys)
  unfolding sort_insert
  sort_insert-All P x [] p h = (p, tt)
  sort_insert-All P x (y ∷ ys) p h = elim (Bool-cases (is_gt (cmp x y))) [
    | inl e ↦ rw e (h.0, sort_insert-All P x ys p h.1)
    | inr e ↦ rw e (p, h)
  ]

  sort_by-All {κ} : (P : A → Type κ) (xs : List A) → All P xs → All P (sort_by xs)
  unfolding sort_by
  sort_by-All P [] h = tt
  sort_by-All P (x ∷ xs) h = sort_insert-All P x (sort_by xs) h.0 (sort_by-All P xs h.1)

  sort_insert-perm : (x : A) (ys : List A) → Perm (sort_insert x ys) (x ∷ ys)
  unfolding sort_insert
  sort_insert-perm x [] = Perm.rfl
  sort_insert-perm x (y ∷ ys) = elim (Bool-cases (is_gt (cmp x y))) [
    | inl e ↦ rw e (Perm.trans (Perm.cons y (sort_insert-perm x ys)) (Perm.swap x y ys))
    | inr e ↦ rw e Perm.rfl
  ]

  -- Sorting loses and adds nothing.
  pub sort_by-perm : (xs : List A) → Perm (sort_by xs) xs
  unfolding sort_by
  sort_by-perm [] = Perm.rfl
  sort_by-perm (x ∷ xs) =
      Perm.trans (sort_insert-perm x (sort_by xs)) (Perm.cons x (sort_by-perm xs))

  module _ (o : IsOrder cmp) where
    above :
        (x y : A) (ys : List A)
        → NotGt (cmp x y)
        → All (λ z. NotGt (cmp y z)) ys
        → All (λ z. NotGt (cmp x z)) ys
    above x y [] h k = tt
    above x y (z ∷ zs) h k = (NotGt-trans o x y z h k.0, above x y zs h k.1)

    sort_insert-IsSorted : (x : A) (ys : List A) → IsSorted ys → IsSorted (sort_insert x ys)
    unfolding sort_insert
    sort_insert-IsSorted x [] s = (tt, tt)
    sort_insert-IsSorted x (y ∷ ys) s = elim (Bool-cases (is_gt (cmp x y))) [
      | inl e ↦ rw e (
        sort_insert-All _ x ys (NotGt-of_gt o x y (is_gt-eq _ e)) s.0,
        sort_insert-IsSorted x ys s.1,
      )
      | inr e ↦ let h : NotGt (cmp x y) = is_gt-NotGt _ e in rw e ((h, above x y ys h s.0), s)
    ]

    pub sort_by-IsSorted : (xs : List A) → IsSorted (sort_by xs)
    unfolding sort_by
    sort_by-IsSorted [] = tt
    sort_by-IsSorted (x ∷ xs) = sort_insert-IsSorted x (sort_by xs) (sort_by-IsSorted xs)

module _ {A : Type 0} (cmp : A → A → Ordering) where
  sort_insert-In : (z x : A) (ys : List A) → In z (sort_insert cmp x ys) → (z ≡ x) ⊎ In z ys
  unfolding sort_insert
  sort_insert-In z x [] m = m
  sort_insert-In z x (y ∷ ys) m = ground (arith, sort_insert-In z x ys)

  In-sort_insert : (z x : A) (ys : List A) → (z ≡ x) ⊎ In z ys → In z (sort_insert cmp x ys)
  unfolding sort_insert
  In-sort_insert z x [] m = m
  In-sort_insert z x (y ∷ ys) m = ground (arith, In-sort_insert z x ys)

  pub In-sort_by : (z : A) (xs : List A) → In z (sort_by cmp xs) ↔ In z xs
  unfolding sort_by
  In-sort_by z [] = (λ m. m, λ m. m)
  In-sort_by z (x ∷ xs) =
      let ih = In-sort_by z xs in
      (
        λ m. elim (sort_insert-In z x (sort_by cmp xs) m) [ inl e ↦ inl e | inr n ↦ inr (ih.0 n) ],
        λ m. In-sort_insert z x (sort_by cmp xs) (elim m [ inl e ↦ inl e | inr n ↦ inr (ih.1 n) ]),
      )
