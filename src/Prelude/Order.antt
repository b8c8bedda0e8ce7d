-- ===== src/Prelude/Order.antt =====
-- Comparators into `Ordering`, with `then_with`, and the laws of those that the code sorts by.
use Prim.Native.Nat.{ℕ, Ordering, compare}
use Prim.Native.Char.{code}
use Prim.Native.String.{String, [], ◌∷◌}
use Prim.Native.String as String
use mathlib.Core.Path.{◌≡◌, refl, sym}
use text.Mathlib.TextEquality.{path_by_compare}
use native.Mathlib.Omega.{arith}

abbrev pub flip : Ordering → Ordering
flip Ordering.lt = Ordering.gt
flip Ordering.eq = Ordering.eq
flip Ordering.gt = Ordering.lt

-- `Ordering::then_with`
abbrev pub then_with : Ordering → Ordering → Ordering
then_with = String.then

-- What `a.cmp(b)` and `b.cmp(c)` say of `a.cmp(c)`.
abbrev pub Chain : Ordering → Ordering → Ordering → Type 0
Chain Ordering.lt Ordering.lt o = o ≡ Ordering.lt
Chain Ordering.lt Ordering.eq o = o ≡ Ordering.lt
Chain Ordering.eq p o = o ≡ p
Chain Ordering.gt Ordering.gt o = o ≡ Ordering.gt
Chain Ordering.gt Ordering.eq o = o ≡ Ordering.gt
Chain _ _ o = Unit

-- A total preorder.
pub record IsOrder {ℓ} {A : Type ℓ} (cmp : A → A → Ordering) : Type ℓ where
  pub swap : (a b : A) → cmp b a ≡ flip (cmp a b)
  pub chain : (a b c : A) → Chain (cmp a b) (cmp b c) (cmp a c)

pub ℕ-IsOrder : IsOrder compare
ℕ-IsOrder = record { swap = λ a b. ground arith; chain = λ a b c. ground arith }

-- Texts, by code points.
abbrev pub str_cmp : String → String → Ordering
str_cmp s t = String.compare s t

str_cmp_swap : (s t : String) → str_cmp t s ≡ flip (str_cmp s t)
str_cmp_swap [] [] = refl
str_cmp_swap [] (d ∷ t) = ground (arith, String.compare.cons-nil d t, String.compare.nil-cons d t)
str_cmp_swap (c ∷ s) [] = ground (arith, String.compare.cons-nil c s, String.compare.nil-cons c s)
str_cmp_swap (c ∷ s) (d ∷ t) = ground (
  arith,
  String.compare.cons-cons c d s t,
  String.compare.cons-cons d c t s,
  ℕ-IsOrder.swap (code c) (code d),
  str_cmp_swap s t,
)

then_with-Chain :
    (a b c : ℕ) (p q r : Ordering)
    → Chain p q r
    → Chain (then_with (compare a b) p) (then_with (compare b c) q) (then_with (compare a c) r)
then_with-Chain a b c p q r h = ground arith

Chain-lt : (o : Ordering) → Chain Ordering.lt o Ordering.lt
Chain-lt Ordering.lt = refl
Chain-lt Ordering.eq = refl
Chain-lt Ordering.gt = tt

Chain-gt : (o : Ordering) → Chain o Ordering.gt Ordering.gt
Chain-gt Ordering.lt = tt
Chain-gt Ordering.eq = refl
Chain-gt Ordering.gt = refl

Chain-eq : (o : Ordering) → Chain o Ordering.eq o
Chain-eq Ordering.lt = refl
Chain-eq Ordering.eq = refl
Chain-eq Ordering.gt = refl

str_cmp-Chain : (s t u : String) → Chain (str_cmp s t) (str_cmp t u) (str_cmp s u)
str_cmp-Chain [] [] u = refl
str_cmp-Chain [] (d ∷ t) [] = rw (String.compare.nil-cons d t, String.compare.cons-nil d t) tt
str_cmp-Chain [] (d ∷ t) (e ∷ u) =
    rw (String.compare.nil-cons d t, String.compare.nil-cons e u) (Chain-lt _)
str_cmp-Chain (c ∷ s) [] [] = Chain-eq _
str_cmp-Chain (c ∷ s) [] (e ∷ u) = rw (String.compare.cons-nil c s, String.compare.nil-cons e u) tt
str_cmp-Chain (c ∷ s) (d ∷ t) [] =
    rw (String.compare.cons-nil d t, String.compare.cons-nil c s) (Chain-gt _)
str_cmp-Chain (c ∷ s) (d ∷ t) (e ∷ u) =
    rw
      (
        String.compare.cons-cons c d s t,
        String.compare.cons-cons d e t u,
        String.compare.cons-cons c e s u,
      )
      (then_with-Chain (code c) (code d) (code e) _ _ _ (str_cmp-Chain s t u))

pub str-IsOrder : IsOrder str_cmp
str-IsOrder = record { swap = str_cmp_swap; chain = str_cmp-Chain }

pub str_cmp-eq : (s t : String) → str_cmp s t ≡ Ordering.eq → s ≡ t
str_cmp-eq s t h = path_by_compare s t h

-- `a.cmp(b).then_with(|| …)`: the first comparison that decides.
Chain-then_with :
    (p q r p' q' r' : Ordering)
    → Chain p q r
    → Chain p' q' r'
    → Chain (then_with p p') (then_with q q') (then_with r r')
Chain-then_with p q r p' q' r' h k = ground arith

flip-then_with : (p q : Ordering) → flip (then_with p q) ≡ then_with (flip p) (flip q)
flip-then_with p q = ground arith

module _ {ℓ κ} {A : Type ℓ} {B : Type κ} where
  pub IsOrder-by :
      {cmp : B → B → Ordering} (f : A → B) → IsOrder cmp → IsOrder (λ a b. cmp (f a) (f b))
  IsOrder-by f h = record {
    swap = λ a b. h.swap (f a) (f b);
    chain = λ a b c. h.chain (f a) (f b) (f c);
  }

module _ {ℓ} {A : Type ℓ} {first second : A → A → Ordering} where
  pub IsOrder-then_with :
      IsOrder first → IsOrder second → IsOrder (λ a b. then_with (first a b) (second a b))
  IsOrder-then_with h k = record {
    swap = λ a b. rw (h.swap a b, k.swap a b) (sym (flip-then_with _ _));
    chain = λ a b c. Chain-then_with _ _ _ _ _ _ (h.chain a b c) (k.chain a b c);
  }

-- `a <= b`, from `a.cmp(b)`
abbrev pub NotGt : Ordering → Type 0
NotGt Ordering.gt = ⊥
NotGt _ = Unit

NotGt-Chain : (p q r : Ordering) → Chain p q r → NotGt p → NotGt q → NotGt r
NotGt-Chain p q r h a b = ground arith

NotGt-flip : (p : Ordering) → p ≡ Ordering.gt → NotGt (flip p)
NotGt-flip p h = ground arith

module _ {ℓ} {A : Type ℓ} {cmp : A → A → Ordering} (o : IsOrder cmp) where
  pub NotGt-trans : (a b c : A) → NotGt (cmp a b) → NotGt (cmp b c) → NotGt (cmp a c)
  NotGt-trans a b c h k = NotGt-Chain _ _ _ (o.chain a b c) h k

  pub NotGt-of_gt : (a b : A) → cmp a b ≡ Ordering.gt → NotGt (cmp b a)
  NotGt-of_gt a b h = rw (o.swap a b) (NotGt-flip _ h)
