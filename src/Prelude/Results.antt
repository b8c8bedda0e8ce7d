-- ===== src/Prelude/Results.antt =====
-- Rust's `Result` with `?` as bind, and `for x in xs { f(x)?; }`.
use mathlib.Core.Path.{◌≡◌, refl}
use mathlib.Core.Logic.{◌⊎◌, inl, inr}
use mathlib.Core.Bool.{Bool, true, false}
use mathlib.Core.Option.{Option, none, some}
use mathlib.Core.List.{List, [], ◌∷◌}
use pingling.Prelude.Lists.{In}

pub data Result {ℓ κ} (A : Type ℓ) (E : Type κ) : Type (ℓ ⊔ κ) where
  ok : A → Result A E
  err : E → Result A E

infixl 5 ◌>>=◌ ◌>>◌
abbrev pub ◌>>=◌ {ℓ κ μ} :
    {A : Type ℓ} {B : Type κ} {E : Type μ} → Result A E → (A → Result B E) → Result B E
ok a >>= f = f a
err e >>= f = err e

abbrev pub ◌>>◌ {ℓ κ} : {B : Type ℓ} {E : Type κ} → Result (Unit {0}) E → Result B E → Result B E
ok u >> k = k
err e >> k = err e

-- `if b { return Err(e); }`
abbrev pub reject_if {ℓ} : {E : Type ℓ} → Bool → E → Result (Unit {0}) E
reject_if true e = err e
reject_if false e = ok tt

abbrev pub map_err {ℓ κ μ} :
    {A : Type ℓ} {D : Type κ} {E : Type μ} → (D → E) → Result A D → Result A E
map_err f (ok a) = ok a
map_err f (err d) = err (f d)

-- `Result::ok`
abbrev pub to_option {ℓ κ} : {A : Type ℓ} {E : Type κ} → Result A E → Option A
to_option (ok a) = some a
to_option (err e) = none

-- `if let Some(x) = o { f(x)?; }`
abbrev pub if_some {ℓ κ} :
    {A : Type ℓ} {E : Type κ} → Option A → (A → Result (Unit {0}) E) → Result (Unit {0}) E
if_some none f = ok tt
if_some (some a) f = f a

module _ {ℓ κ} {A : Type ℓ} {E : Type κ} where
  abbrev pub for_each : List A → (A → Result (Unit {0}) E) → Result (Unit {0}) E
  for_each [] f = ok tt
  for_each (x ∷ xs) f = f x >> for_each xs f

  pub Result-cases : (r : Result A E) → ((a : A) × (r ≡ ok a)) ⊎ ((e : E) × (r ≡ err e))
  Result-cases (ok a) = inl (a, refl)
  Result-cases (err e) = inr (e, refl)

module _ {ℓ} {E : Type ℓ} where
  -- A chain of checks passes when both parts pass.
  pub >>-eq-ok : (m n : Result (Unit {0}) E) → (m >> n) ≡ ok tt → (m ≡ ok tt) × (n ≡ ok tt)
  >>-eq-ok (ok u) n h = (refl, h)
  >>-eq-ok (err e) n h = cc

  pub >>_of_ok : (m n : Result (Unit {0}) E) → m ≡ ok tt → n ≡ ok tt → (m >> n) ≡ ok tt
  >>_of_ok (ok u) n h k = k
  >>_of_ok (err e) n h k = cc

module _ {ℓ} {A : Type 0} {E : Type ℓ} (f : A → Result (Unit {0}) E) where
  -- A loop of checks passes exactly when each check does.
  pub for_each-In : (x : A) (xs : List A) → for_each xs f ≡ ok tt → In x xs → f x ≡ ok tt
  for_each-In x [] h m = absurd m
  for_each-In x (y ∷ ys) h (inl e) = rw e ((>>-eq-ok (f y) (for_each ys f) h).0)
  for_each-In x (y ∷ ys) h (inr m) = for_each-In x ys ((>>-eq-ok (f y) (for_each ys f) h).1) m

  pub for_each_of_In : (xs : List A) → ((x : A) → In x xs → f x ≡ ok tt) → for_each xs f ≡ ok tt
  for_each_of_In [] h = refl
  for_each_of_In (y ∷ ys) h =
      >>_of_ok (f y) (for_each ys f) (h y (inl refl)) (for_each_of_In ys (λ x m. h x (inr m)))
