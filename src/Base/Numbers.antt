-- ===== src/Base/Numbers.antt =====
-- `strconv.Atoi` on bytes, and the decimal digits of a number.
use Prim.Native.Nat.{ℕ, zero, suc, ◌+◌, ◌-◌, ◌*◌, ◌/◌, ◌%◌, ◌^◌, ◌≤◌, ◌<◌}
use mathlib.Core.Path.{◌≡◌, refl, ap, ◌∙◌}
use mathlib.Core.Bool.{Bool, true, false, ◌&&◌}
use mathlib.Core.Logic.{inl, inr}
use mathlib.Core.List.{[], ◌∷◌}
use mathlib.Core.Option.{Option, none, some}
use native.Mathlib.Omega.{arith}
use cogitator.Base.Tests.{if◌then◌else◌, ltb, leb, ◌==◌, Bool-cases}
use cogitator.Base.Lists.{All}
use cogitator.Base.Texts.{Bytes, is_empty}

pub data ℤ : Type 0 where
  pos negsuc : ℕ → ℤ

abbrev pub int_eq : ℤ → ℤ → Bool
int_eq (pos a) (pos b) = a == b
int_eq (negsuc a) (negsuc b) = a == b
int_eq _ _ = false

abbrev pub is_digit : ℕ → Bool
is_digit c = leb 48 c && leb c 57

-- The number of a non-empty run of digits, after what stands before it.
abbrev pub digits_from : ℕ → Bytes → Option ℕ
digits_from acc [] = some acc
digits_from acc (c ∷ s) = if is_digit c then digits_from (acc * 10 + (c - 48)) s else none

abbrev pub digits : Bytes → Option ℕ
digits [] = none
digits (c ∷ s) = digits_from 0 (c ∷ s)

-- The range of a 64-bit integer.
abbrev pub in_range : Option ℕ → Option ℤ
in_range none = none
in_range (some n) = if ltb n (2 ^ 63) then some (pos n) else none

abbrev pub negative : Option ℕ → Option ℤ
negative none = none
negative (some zero) = some (pos 0)
negative (some (suc n)) = if ltb n (2 ^ 63) then some (negsuc n) else none

abbrev pub atoi : Bytes → Option ℤ
atoi [] = none
atoi (c ∷ s) =
    if c == b'-'
    then negative (digits s)
    else if c == b'+'
    then in_range (digits s)
    else in_range (digits (c ∷ s))

-- The decimal digits; the fuel is one more than the number.
abbrev pub print_from : ℕ → ℕ → Bytes → Bytes
print_from zero n s = s
print_from (suc fuel) n s =
    if ltb n 10 then (48 + n) ∷ s else print_from fuel (n / 10) ((48 + n % 10) ∷ s)

abbrev pub print : ℕ → Bytes
print n = print_from (suc n) n []

-- Reading what was printed: the digits before `s` make the number.
digits-print_from :
    (fuel n : ℕ) (s : Bytes) → n < fuel → digits_from 0 (print_from fuel n s) ≡ digits_from n s
digits-print_from zero n s h = absurd (omega (arith, h))
digits-print_from (suc fuel) n s h = elim (Bool-cases (ltb n 10)) [
  | inl small ↦
      let digit : is_digit (48 + n) ≡ true = ground (arith, small) in
      let value : 0 * 10 + (48 + n - 48) ≡ n = omega arith in
      rw (small, digit) (ap (λ m. digits_from m s) value)
  | inr large ↦
      let fits : n / 10 < fuel = omega (arith, h, ground_le n large) in
      let digit : is_digit (48 + n % 10) ≡ true = ground arith in
      let value : n / 10 * 10 + (48 + n % 10 - 48) ≡ n = omega arith in
      rw large (
        digits-print_from fuel (n / 10) ((48 + n % 10) ∷ s) fits
        ∙ rw digit (ap (λ m. digits_from m s) value))
]
  where
    ground_le : (n : ℕ) → ltb n 10 ≡ false → 10 ≤ n
    ground_le n large = ground (arith, large)

abbrev pub AllDigits : Bytes → Type 0
AllDigits = All (λ c. is_digit c ≡ true)

print_from-digits : (fuel n : ℕ) (s : Bytes) → AllDigits s → AllDigits (print_from fuel n s)
print_from-digits zero n s h = h
print_from-digits (suc fuel) n s h = elim (Bool-cases (ltb n 10)) [
  | inl small ↦ rw small (ground (arith, small), h)
  | inr large ↦ rw large (print_from-digits fuel (n / 10) ((48 + n % 10) ∷ s) (ground arith, h))
]

print_from_cons : (fuel n c : ℕ) (s : Bytes) → is_empty (print_from fuel n (c ∷ s)) ≡ false
print_from_cons zero n c s = refl
print_from_cons (suc fuel) n c s = elim (Bool-cases (ltb n 10)) [
  | inl small ↦ rw small refl
  | inr large ↦ rw large (print_from_cons fuel (n / 10) (48 + n % 10) (c ∷ s))
]

pub print-digits : (n : ℕ) → AllDigits (print n)
print-digits n = print_from-digits (suc n) n [] tt

pub print_nonempty : (n : ℕ) → is_empty (print n) ≡ false
print_nonempty n = elim (Bool-cases (ltb n 10)) [
  | inl small ↦ rw small refl
  | inr large ↦ rw large (print_from_cons n (n / 10) (48 + n % 10) [])
]

atoi_digits : (s : Bytes) → AllDigits s → is_empty s ≡ false → atoi s ≡ in_range (digits_from 0 s)
atoi_digits [] h e = absurd cc
atoi_digits (c ∷ s) h e =
    let minus : (c == b'-') ≡ false = ground (arith, h.0) in
    let plus : (c == b'+') ≡ false = ground (arith, h.0) in rw (minus, plus) refl

-- Reading a number back that was printed, where it is in the range.
pub atoi-print : (n : ℕ) → n < 2 ^ 63 → atoi (print n) ≡ some (pos n)
atoi-print n h =
    atoi_digits (print n) (print-digits n) (print_nonempty n)
    ∙ ap in_range (digits-print_from (suc n) n [] (omega arith))
    ∙ ground (arith, h)
