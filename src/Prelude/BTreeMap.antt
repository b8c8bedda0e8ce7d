-- ===== src/Prelude/BTreeMap.antt =====
-- `BTreeMap<String, V>`: an association list in the order of its keys; a `BTreeSet<String>` is the
-- list of its keys.
use Prim.Native.Nat.{Ordering, suc}
use Prim.Native.String.{String}
use mathlib.Core.Path.{◌≡◌, refl, ap}
use mathlib.Core.Logic.{◌⊎◌, ◌↔◌, inl}
use mathlib.Core.Bool.{Bool, true, false}
use mathlib.Core.Option.{Option, none, some}
use mathlib.Core.List.{List, [], ◌∷◌}
use text.Mathlib.Text.{◌==◌ as str_eq}
use text.Mathlib.TextEquality.{eq_iff}
use native.Mathlib.Omega.{arith}
use pingling.Prelude.Tests.{if◌then◌else◌}
use pingling.Prelude.Order.{str_cmp, str-IsOrder}
use pingling.Prelude.Lists.{All, In, length}

abbrev pub BTreeMap {ℓ} : Type ℓ → Type ℓ
BTreeMap V = List (String × V)

abbrev pub Rising : List String → Type 0
Rising [] = Unit
Rising (k ∷ ks) = All (λ j. str_cmp k j ≡ Ordering.lt) ks × Rising ks

module _ {ℓ} {V : Type ℓ} where
  unfoldable pub get : BTreeMap V → String → Option V
  get [] k = none
  get ((j, v) ∷ m) k = if str_eq j k then some v else get m k

  abbrev pub contains_key : BTreeMap V → String → Bool
  contains_key m k = elim (get m k) [ none ↦ false | some v ↦ true ]

  unfoldable pub insert : String → V → BTreeMap V → BTreeMap V
  insert k v [] = (k, v) ∷ []
  insert k v ((j, w) ∷ m) = elim (str_cmp k j) [
    | Ordering.lt ↦ (k, v) ∷ (j, w) ∷ m
    | Ordering.eq ↦ (k, v) ∷ m
    | Ordering.gt ↦ (j, w) ∷ insert k v m
  ]

  unfoldable pub remove : String → BTreeMap V → BTreeMap V
  remove k [] = []
  remove k ((j, v) ∷ m) = let rest = remove k m in if str_eq j k then rest else (j, v) ∷ rest

  abbrev pub keys : BTreeMap V → List String
  keys [] = []
  keys ((k, v) ∷ m) = k ∷ keys m

  abbrev pub values : BTreeMap V → List V
  values [] = []
  values ((k, v) ∷ m) = v ∷ values m

  pub get-insert :
      (k j : String) (v : V) (m : BTreeMap V)
      → get (insert k v m) j ≡ (if str_eq k j then some v else get m j)
  unfolding get insert
  get-insert k j v [] = refl
  get-insert k j v ((i, w) ∷ m) =
      ground (arith, eq_iff k j, eq_iff k i, eq_iff i j, get-insert k j v m)

  pub get-remove :
      (k j : String) (m : BTreeMap V) → get (remove k m) j ≡ (if str_eq k j then none else get m j)
  unfolding get remove
  get-remove k j [] = ground (arith, eq_iff k j)
  get-remove k j ((i, w) ∷ m) = ground (arith, eq_iff k j, eq_iff i k, eq_iff i j, get-remove k j m)

  -- Keys rise along the list.
  abbrev pub Below : String → BTreeMap V → Type 0
  Below k m = All (λ e. str_cmp k e.0 ≡ Ordering.lt) m

  abbrev pub IsMap : BTreeMap V → Type 0
  IsMap [] = Unit
  IsMap ((k, v) ∷ m) = Below k m × IsMap m

  Below-keys :
      (k : String) (m : BTreeMap V) → Below k m → All (λ j. str_cmp k j ≡ Ordering.lt) (keys m)
  Below-keys k [] h = tt
  Below-keys k ((j, v) ∷ m) h = (h.0, Below-keys k m h.1)

  -- The keys of a map rise.
  pub keys-Rising : (m : BTreeMap V) → IsMap m → Rising (keys m)
  keys-Rising [] h = tt
  keys-Rising ((k, v) ∷ m) h = (Below-keys k m h.0, keys-Rising m h.1)

  pub length-keys : (m : BTreeMap V) → length (keys m) ≡ length m
  length-keys [] = refl
  length-keys ((k, v) ∷ m) = ap suc (length-keys m)

  Below-trans : (k j : String) (m : BTreeMap V) → str_cmp k j ≡ Ordering.lt → Below j m → Below k m
  Below-trans k j [] h b = tt
  Below-trans k j ((i, w) ∷ m) h b =
      (ground (arith, str-IsOrder.chain k j i, b.0), Below-trans k j m h b.1)

  Below-insert :
      (j k : String) (v : V) (m : BTreeMap V)
      → str_cmp j k ≡ Ordering.lt
      → Below j m
      → Below j (insert k v m)
  unfolding insert
  Below-insert j k v [] h b = (h, tt)
  Below-insert j k v ((i, w) ∷ m) h b = ground (arith, Below-insert j k v m h b.1)

  -- Insertion keeps the keys in order.
  pub insert-IsMap : (k : String) (v : V) (m : BTreeMap V) → IsMap m → IsMap (insert k v m)
  unfolding insert
  insert-IsMap k v [] h = (tt, tt)
  insert-IsMap k v ((j, w) ∷ m) h = ground (
    arith,
    insert-IsMap k v m h.1,
    Below-insert j k v m,
    Below-trans k j m,
    str-IsOrder.swap k j,
    eq_iff k j,
    h,
  )

  Below-remove : (j k : String) (m : BTreeMap V) → Below j m → Below j (remove k m)
  unfolding remove
  Below-remove j k [] b = tt
  Below-remove j k ((i, w) ∷ m) b = ground (arith, Below-remove j k m b.1, b.0)

  -- So does removal.
  pub remove-IsMap : (k : String) (m : BTreeMap V) → IsMap m → IsMap (remove k m)
  unfolding remove
  remove-IsMap k [] h = tt
  remove-IsMap k ((j, w) ∷ m) h = ground (arith, remove-IsMap k m h.1, Below-remove j k m h.0)

  -- The keys are those that have a value.
  pub In-keys : (k : String) (m : BTreeMap V) → In k (keys m) ↔ (contains_key m k ≡ true)
  unfolding get
  In-keys k [] = (λ i. absurd i, λ e. cc)
  In-keys k ((j, w) ∷ m) = ground (arith, eq_iff j k, In-keys k m)

  pub All-insert {κ} :
      (P : String × V → Type κ) (k : String) (v : V) (m : BTreeMap V)
      → P (k, v)
      → All P m
      → All P (insert k v m)
  unfolding insert
  All-insert P k v [] p h = (p, tt)
  All-insert P k v ((j, w) ∷ m) p h =
      elim (str_cmp k j)
        as (λ o. All P (elim o [
          | Ordering.lt ↦ (k, v) ∷ (j, w) ∷ m
          | Ordering.eq ↦ (k, v) ∷ m
          | Ordering.gt ↦ (j, w) ∷ insert k v m
        ])) [
          | Ordering.lt ↦ (p, h)
          | Ordering.eq ↦ (p, h.1)
          | Ordering.gt ↦ (h.0, All-insert P k v m p h.1)
        ]

module _ {V : Type 0} where
  pub In-of_get : (k : String) (v : V) (m : BTreeMap V) → get m k ≡ some v → In v (values m)
  unfolding get
  In-of_get k v [] h = cc
  In-of_get k v ((j, w) ∷ m) h = ground (arith, In-of_get k v m)

  pub values-insert_cases :
      (x : V) (k : String) (v : V) (m : BTreeMap V)
      → In x (values (insert k v m))
      → (x ≡ v) ⊎ In x (values m)
  unfolding insert
  values-insert_cases x k v [] m = m
  values-insert_cases x k v ((j, w) ∷ m) h = ground (arith, values-insert_cases x k v m)

  pub In-values-insert : (k : String) (v : V) (m : BTreeMap V) → In v (values (insert k v m))
  unfolding insert
  In-values-insert k v [] = inl refl
  In-values-insert k v ((j, w) ∷ m) = ground (arith, In-values-insert k v m)

  -- What stands at other keys stays.
  pub In-values-insert_old :
      (x : V) (k : String) (v : V) (m : BTreeMap V)
      → get m k ≡ none
      → In x (values m)
      → In x (values (insert k v m))
  unfolding get insert
  In-values-insert_old x k v [] h m = absurd m
  In-values-insert_old x k v ((j, w) ∷ m) h n =
      ground (arith, eq_iff k j, eq_iff j k, In-values-insert_old x k v m)

-- `BTreeSet::insert`, and `into_iter` in the order of the set
unfoldable pub set_insert : String → List String → List String
set_insert k [] = k ∷ []
set_insert k (j ∷ s) = elim (str_cmp k j) [
  | Ordering.lt ↦ k ∷ j ∷ s
  | Ordering.eq ↦ j ∷ s
  | Ordering.gt ↦ j ∷ set_insert k s
]

unfoldable pub set_extend : List String → List String → List String
unfolding set_insert
set_extend s [] = s
set_extend s (k ∷ ks) = set_extend (set_insert k s) ks
