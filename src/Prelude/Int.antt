-- ===== src/Prelude/Int.antt =====
-- Signed integers over the native numbers: `i32` priorities, pids and `i64` codes.
use Prim.Native.Nat.{ℕ, Ordering, compare, ◌+◌, ◌-◌, ◌*◌, ◌^◌}
use Prim.Native.Char.{code}
use Prim.Native.String.{String, [], ◌∷◌}
use mathlib.Core.Option.{Option, none, some}
use pingling.Prelude.Tests.{ltb, leb, ◌==◌, if◌then◌else◌}
use pingling.Prelude.Text.{is_ascii_digit, is_empty, strip_prefix}
use native.Mathlib.Omega.{arith}
use pingling.Prelude.Order.{IsOrder}

-- `negsuc n` is -(n + 1).
pub data ℤ : Type 0 where
  pos : ℕ → ℤ
  negsuc : ℕ → ℤ

abbrev pub int_cmp : ℤ → ℤ → Ordering
int_cmp (pos a) (pos b) = compare a b
int_cmp (pos a) (negsuc b) = Ordering.gt
int_cmp (negsuc a) (pos b) = Ordering.lt
int_cmp (negsuc a) (negsuc b) = compare b a

pub int-IsOrder : IsOrder int_cmp
int-IsOrder = record { swap = λ a b. ground arith; chain = λ a b c. ground arith }

-- `str::parse::<i32>`: a sign, and digits up to the bounds of the type.
unfoldable pub parse_digits : ℕ → String → Option ℕ
parse_digits n [] = some n
parse_digits n (c ∷ s) =
    let rest = parse_digits (10 * n + (code c - b'0')) s in
    if is_ascii_digit (code c) then rest else none

unfoldable pub parse_nat : String → Option ℕ
parse_nat s = if is_empty s then none else parse_digits 0 s

unfoldable pub parse_i32 : String → Option ℤ
parse_i32 s = elim (strip_prefix "-" s) [
  | some digits ↦ elim (parse_nat digits) [
    | none ↦ none
    | some n ↦
        if n == 0 then some (pos 0) else if leb n (2 ^ 31) then some (negsuc (n - 1)) else none
  ]
  | none ↦ elim (parse_nat (elim (strip_prefix "+" s) [ some digits ↦ digits | none ↦ s ])) [
    | none ↦ none
    | some n ↦ if ltb n (2 ^ 31) then some (pos n) else none
  ]
]

-- `str::parse::<u16>`
unfoldable pub parse_u16 : String → Option ℕ
parse_u16 s = elim (parse_nat (elim (strip_prefix "+" s) [ some digits ↦ digits | none ↦ s ])) [
  | none ↦ none
  | some n ↦ if ltb n (2 ^ 16) then some n else none
]
