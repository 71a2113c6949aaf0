-- ===== src/Common/Decimal.antt =====
-- Decimal numbers as texts: "%d" of the package fmt on a natural number, and `strconv.Atoi`.
use Prim.Native.Nat.{ℕ, zero, suc, ◌+◌, ◌-◌, ◌*◌, ◌/◌, ◌%◌, ◌^◌, ◌≤◌}
use mathlib.Core.Path.{◌≡◌, refl, ap, ◌∙◌}
use mathlib.Core.Bool.{Bool, true, false, ◌&&◌}
use mathlib.Core.List.{[], ◌∷◌, ◌++◌}
use mathlib.Core.Logic.{inl, inr, ◌≢◌}
use mathlib.Core.Option.{Option, none, some}
use native.Mathlib.Omega.{arith}
use mynetwork.Common.Tests.{Bool-cases, ltb, leb, ◌==◌, if◌then◌else◌}
use mynetwork.Common.Text.{Bytes}

unfoldable pub is_digit : ℕ → Bool
is_digit c = leb 48 c && leb c 57

-- The digits of a number, with its tenths for fuel.
unfoldable pub decimal_from : ℕ → ℕ → Bytes
decimal_from zero n = (48 + n % 10) ∷ []
decimal_from (suc fuel) n =
    let front = decimal_from fuel (n / 10) in
    if ltb n 10 then (48 + n) ∷ [] else front ++ (48 + n % 10) ∷ []

unfoldable pub decimal : ℕ → Bytes
unfolding decimal_from
decimal n = decimal_from n n

unfoldable pub all_digits : Bytes → Bool
unfolding is_digit
all_digits [] = true
all_digits (c ∷ s) = is_digit c && all_digits s

-- The number that digits stand for, after a value.
unfoldable pub digits_value : ℕ → Bytes → ℕ
digits_value value [] = value
digits_value value (c ∷ s) = digits_value (value * 10 + (c - 48)) s

all_digits-append :
    (s : Bytes) (c : ℕ) → all_digits s ≡ true → is_digit c ≡ true → all_digits (s ++ c ∷ []) ≡ true
unfolding all_digits
all_digits-append [] c h k = rw k refl
all_digits-append (x ∷ s) c h k = ground (arith, all_digits-append s c)

digits_value-append :
    (value : ℕ) (s : Bytes) (c : ℕ)
    → digits_value value (s ++ c ∷ []) ≡ digits_value value s * 10 + (c - 48)
unfolding digits_value
digits_value-append value [] c = refl
digits_value-append value (x ∷ s) c = digits_value-append (value * 10 + (x - 48)) s c

append-full : (s : Bytes) (c : ℕ) → (s ++ c ∷ []) ≢ []
append-full [] c = λ e. cc e
append-full (x ∷ s) c = λ e. cc e

last_digit : (n : ℕ) → is_digit (48 + n % 10) ≡ true
unfolding is_digit
last_digit n = ground arith

one_digit : (n : ℕ) → ltb n 10 ≡ true → is_digit (48 + n) ≡ true
unfolding is_digit
one_digit n h = ground arith

decimal_from-digits : (fuel n : ℕ) → all_digits (decimal_from fuel n) ≡ true
unfolding decimal_from all_digits
decimal_from-digits zero n = rw (last_digit n) refl
decimal_from-digits (suc fuel) n = elim (Bool-cases (ltb n 10)) [
  | inl small ↦ rw (small, one_digit n small) refl
  | inr large ↦ rw large (
      all_digits-append (decimal_from fuel (n / 10)) (48 + n % 10)
        (decimal_from-digits fuel (n / 10)) (last_digit n))
]

digits_value-decimal_from : (fuel n : ℕ) → n ≤ fuel → digits_value 0 (decimal_from fuel n) ≡ n
unfolding decimal_from digits_value
digits_value-decimal_from zero n h = omega arith
digits_value-decimal_from (suc fuel) n h = elim (Bool-cases (ltb n 10)) [
  | inl small ↦ rw small (omega arith)
  | inr large ↦
      let ih = digits_value-decimal_from fuel (n / 10) (ground arith) in
      rw (large, digits_value-append 0 (decimal_from fuel (n / 10)) (48 + n % 10), ih) (omega arith)
]

-- An int of 64 bits, negative or not, that digits alone stand for.
unfoldable pub number_of : Bool → Bytes → Option (Bool × ℕ)
unfolding all_digits digits_value
number_of negative [] = none
number_of negative (c ∷ s) =
    let value = digits_value 0 (c ∷ s) in
    let bound = if negative then 2 ^ 63 else 2 ^ 63 - 1 in
    if all_digits (c ∷ s) && leb value bound then some (negative, value) else none

-- `strconv.Atoi`.
unfoldable pub atoi : Bytes → Option (Bool × ℕ)
unfolding number_of
atoi [] = none
atoi (c ∷ s) =
    if c == 43
    then number_of false s
    else if c == 45
    then number_of true s
    else number_of false (c ∷ s)

number_of-digits :
    (s : Bytes)
    → all_digits s ≡ true
    → s ≢ []
    → digits_value 0 s ≤ 2 ^ 63 - 1
    → atoi s ≡ some (false, digits_value 0 s)
unfolding atoi number_of all_digits is_digit
number_of-digits [] digits full small = absurd (full refl)
number_of-digits (c ∷ s) digits full small = ground arith

decimal_from-full : (fuel n : ℕ) → decimal_from fuel n ≢ []
unfolding decimal_from
decimal_from-full zero n = λ e. cc e
decimal_from-full (suc fuel) n = elim (Bool-cases (ltb n 10)) [
  | inl small ↦ rw small (λ e. cc e)
  | inr large ↦ rw large (append-full (decimal_from fuel (n / 10)) (48 + n % 10))
]

pub decimal-all_digits : (n : ℕ) → all_digits (decimal n) ≡ true
unfolding decimal
decimal-all_digits n = decimal_from-digits n n

-- Atoi reads what "%d" writes, if it fits an int.
pub atoi-decimal : (n : ℕ) → n ≤ 2 ^ 63 - 1 → atoi (decimal n) ≡ some (false, n)
unfolding decimal
atoi-decimal n small =
    let same = digits_value-decimal_from n n (omega arith) in
    let bounded : digits_value 0 (decimal_from n n) ≤ 2 ^ 63 - 1 = rw same small in
    number_of-digits (decimal_from n n) (decimal_from-digits n n) (decimal_from-full n n) bounded
    ∙ ap (λ v. some (false, v)) same
