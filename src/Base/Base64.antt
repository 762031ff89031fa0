-- ===== src/Base/Base64.antt =====
-- `base64.StdEncoding`: decoding as the library does it, line ends skipped, with the padding that
-- the last group needs; and the encoding.
use Prim.Native.Nat.{ℕ, ◌+◌, ◌-◌, ◌*◌, ◌/◌, ◌%◌, ◌<◌}
use mathlib.Core.Path.{◌≡◌, refl, ap, ◌∙◌}
use mathlib.Core.Bool.{Bool, false, not, ◌&&◌, ◌||◌}
use mathlib.Core.List.{[], ◌∷◌}
use mathlib.Core.Option.{Option, none, some}
use native.Mathlib.Omega.{arith}
use cogitator.Base.Tests.{if◌then◌else◌, ltb, leb, ◌==◌}
use cogitator.Base.Lists.{filterb, All}
use cogitator.Base.Texts.{Bytes}

-- The value of a letter of the alphabet.
abbrev pub sextet : ℕ → Option ℕ
sextet c =
    if leb 65 c && leb c 90
    then some (c - 65)
    else if leb 97 c && leb c 122
    then some (c - 71)
    else if leb 48 c && leb c 57
    then some (c + 4)
    else if c == 43
    then some 62
    else if c == 47
    then some 63
    else none

abbrev pub letter : ℕ → ℕ
letter n =
    if ltb n 26
    then n + 65
    else if ltb n 52
    then n + 71
    else if ltb n 62
    then n - 4
    else if n == 62
    then 43
    else 47

abbrev pub one_byte : Option ℕ → Option ℕ → Option Bytes
one_byte (some a) (some b) = some ((a * 4 + b / 16) ∷ [])
one_byte _ _ = none

abbrev pub two_bytes : Option ℕ → Option ℕ → Option ℕ → Option Bytes
two_bytes (some a) (some b) (some c) = some ((a * 4 + b / 16) ∷ (b % 16 * 16 + c / 4) ∷ [])
two_bytes _ _ _ = none

abbrev pub three_bytes : Option ℕ → Option ℕ → Option ℕ → Option ℕ → Option Bytes → Option Bytes
three_bytes (some a) (some b) (some c) (some d) (some rest) =
    some ((a * 4 + b / 16) ∷ (b % 16 * 16 + c / 4) ∷ (c % 4 * 64 + d) ∷ rest)
three_bytes _ _ _ _ _ = none

-- The last group of four letters, which may end in padding.
abbrev pub last_group : ℕ → ℕ → ℕ → ℕ → Option Bytes
last_group a b c d =
    if d == 61
    then if c == 61
      then one_byte (sextet a) (sextet b)
      else two_bytes (sextet a) (sextet b) (sextet c)
    else three_bytes (sextet a) (sextet b) (sextet c) (sextet d) (some [])

unfoldable pub decode_groups : Bytes → Option Bytes
decode_groups [] = some []
decode_groups (a ∷ b ∷ c ∷ d ∷ []) = last_group a b c d
decode_groups (a ∷ b ∷ c ∷ d ∷ e ∷ rest) =
    three_bytes (sextet a) (sextet b) (sextet c) (sextet d) (decode_groups (e ∷ rest))
decode_groups _ = none

abbrev pub is_line_end : ℕ → Bool
is_line_end c = c == 10 || c == 13

unfoldable pub decode : Bytes → Option Bytes
unfolding decode_groups
decode s = decode_groups (filterb (λ c. not (is_line_end c)) s)

unfoldable pub encode : Bytes → Bytes
encode [] = []
encode (x ∷ []) = letter (x / 4) ∷ letter (x % 4 * 16) ∷ 61 ∷ 61 ∷ []
encode (x ∷ y ∷ []) = letter (x / 4) ∷ letter (x % 4 * 16 + y / 16) ∷ letter (y % 16 * 4) ∷ 61 ∷ []
encode (x ∷ y ∷ z ∷ rest) =
    letter (x / 4)
    ∷ letter (x % 4 * 16 + y / 16)
    ∷ letter (y % 16 * 4 + z / 64)
    ∷ letter (z % 64)
    ∷ encode rest

sextet-letter : (n : ℕ) → n < 64 → sextet (letter n) ≡ some n
sextet-letter n h = ground arith

letter-plain : (n : ℕ) → n < 64 → (is_line_end (letter n) ≡ false) × ((letter n == 61) ≡ false)
letter-plain n h = ground arith

decode-group :
    (a b c d : ℕ) (rest : Bytes)
    → (d == 61) ≡ false
    → decode_groups (a ∷ b ∷ c ∷ d ∷ rest)
      ≡ three_bytes (sextet a) (sextet b) (sextet c) (sextet d) (decode_groups rest)
unfolding decode_groups
decode-group a b c d [] h = rw h refl
decode-group a b c d (e ∷ rest) h = refl

abbrev pub IsByte : ℕ → Type 0
IsByte b = b < 256

encode_plain :
    (xs : Bytes) → All IsByte xs → filterb (λ c. not (is_line_end c)) (encode xs) ≡ encode xs
unfolding encode
encode_plain [] h = refl
encode_plain (x ∷ []) h =
    rw ((letter-plain (x / 4) (omega (arith, h.0))).0, (letter-plain (x % 4 * 16) (omega arith)).0)
      refl
encode_plain (x ∷ y ∷ []) h =
    rw
      (
        (letter-plain (x / 4) (omega (arith, h.0))).0,
        (letter-plain (x % 4 * 16 + y / 16) (omega (arith, h.1.0))).0,
        (letter-plain (y % 16 * 4) (omega arith)).0,
      )
      refl
encode_plain (x ∷ y ∷ z ∷ rest) h =
    rw
      (
        (letter-plain (x / 4) (omega (arith, h.0))).0,
        (letter-plain (x % 4 * 16 + y / 16) (omega (arith, h.1.0))).0,
        (letter-plain (y % 16 * 4 + z / 64) (omega (arith, h.1.1.0))).0,
        (letter-plain (z % 64) (omega arith)).0,
        encode_plain rest h.1.1.1,
      )
      refl

one_back :
    (x : ℕ)
    → x < 256
    → one_byte (sextet (letter (x / 4))) (sextet (letter (x % 4 * 16))) ≡ some (x ∷ [])
one_back x h =
    rw (sextet-letter (x / 4) (omega (arith, h)), sextet-letter (x % 4 * 16) (omega arith))
      (ap (λ b. some (b ∷ [])) (omega (arith, h)))

two_back :
    (x y : ℕ)
    → x < 256
    → y < 256
    → two_bytes
        (sextet (letter (x / 4)))
        (sextet (letter (x % 4 * 16 + y / 16)))
        (sextet (letter (y % 16 * 4)))
      ≡ some (x ∷ y ∷ [])
two_back x y h k =
    rw
      (
        sextet-letter (x / 4) (omega (arith, h)),
        sextet-letter (x % 4 * 16 + y / 16) (omega (arith, k)),
        sextet-letter (y % 16 * 4) (omega arith),
      )
      (pair _ _ x y (omega (arith, h, k)) (omega (arith, h, k)))
  where
    pair : (a b x y : ℕ) → a ≡ x → b ≡ y → Option.some (a ∷ b ∷ []) ≡ some (x ∷ y ∷ [])
    pair a b x y p q = cc

three_back :
    (x y z : ℕ) (rest : Bytes)
    → x < 256
    → y < 256
    → z < 256
    → three_bytes
        (sextet (letter (x / 4)))
        (sextet (letter (x % 4 * 16 + y / 16)))
        (sextet (letter (y % 16 * 4 + z / 64)))
        (sextet (letter (z % 64)))
        (some rest)
      ≡ some (x ∷ y ∷ z ∷ rest)
three_back x y z rest h k l =
    rw
      (
        sextet-letter (x / 4) (omega (arith, h)),
        sextet-letter (x % 4 * 16 + y / 16) (omega (arith, k)),
        sextet-letter (y % 16 * 4 + z / 64) (omega (arith, l)),
        sextet-letter (z % 64) (omega arith),
      )
      (triple _ _ _ x y z (omega (arith, h, k)) (omega (arith, k, l)) (omega (arith, l)))
  where
    triple :
        (a b c x y z : ℕ)
        → a ≡ x
        → b ≡ y
        → c ≡ z
        → Option.some (a ∷ b ∷ c ∷ rest) ≡ some (x ∷ y ∷ z ∷ rest)
    triple a b c x y z p q r = cc

decode_groups-encode : (xs : Bytes) → All IsByte xs → decode_groups (encode xs) ≡ some xs
unfolding encode decode_groups
decode_groups-encode [] h = refl
decode_groups-encode (x ∷ []) h = one_back x h.0
decode_groups-encode (x ∷ y ∷ []) h =
    rw ((letter-plain (y % 16 * 4) (omega arith)).1) (two_back x y h.0 h.1.0)
decode_groups-encode (x ∷ y ∷ z ∷ rest) h =
    decode-group (letter (x / 4)) (letter (x % 4 * 16 + y / 16)) (letter (y % 16 * 4 + z / 64))
      (letter (z % 64)) (encode rest) ((letter-plain (z % 64) (omega arith)).1)
    ∙ rw (decode_groups-encode rest h.1.1.1) (three_back x y z rest h.0 h.1.0 h.1.1.0)

pub decode-encode : (xs : Bytes) → All IsByte xs → decode (encode xs) ≡ some xs
unfolding decode
decode-encode xs h = rw (encode_plain xs h) (decode_groups-encode xs h)
