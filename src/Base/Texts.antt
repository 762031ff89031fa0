-- ===== src/Base/Texts.antt =====
-- Texts that the code walks, as lists of bytes: prefixes, suffixes, substrings, splits.
use Prim.Native.Char.{code}
use Prim.Native.Nat.{ℕ, ◌+◌}
use Prim.Native.String.{String}
use mathlib.Core.Path.{◌≡◌, refl}
use mathlib.Core.Logic.{◌↔◌}
use mathlib.Core.Bool.{Bool, true, false, ◌&&◌, ◌||◌}
use mathlib.Core.List.{List, [], ◌∷◌, ◌++◌, map}
use native.Mathlib.Omega.{arith}
use cogitator.Base.Tests.{◌==◌, ltb, leb, if◌then◌else◌}
use cogitator.Base.Eqs.{Eq}

abbrev pub Bytes : Type 0
Bytes = List ℕ

-- The bytes of an ASCII text.
abbrev pub codes : String → Bytes
codes String.[] = []
codes (String.◌∷◌ c s) = code c ∷ codes s

abbrev pub bytes_eq : Bytes → Bytes → Bool
bytes_eq [] [] = true
bytes_eq [] (y ∷ ys) = false
bytes_eq (x ∷ xs) [] = false
bytes_eq (x ∷ xs) (y ∷ ys) = x == y && bytes_eq xs ys

pub bytes_eq_iff : (xs ys : Bytes) → (bytes_eq xs ys ≡ true) ↔ (xs ≡ ys)
bytes_eq_iff [] [] = ground arith
bytes_eq_iff [] (y ∷ ys) = ground arith
bytes_eq_iff (x ∷ xs) [] = ground arith
bytes_eq_iff (x ∷ xs) (y ∷ ys) = ground (arith, bytes_eq_iff xs ys)

instance abbrev pub bytes_eq_instance : Eq Bytes
bytes_eq_instance = record { beq = bytes_eq; beq_iff = bytes_eq_iff }

-- `strings.ToLower` and `strings.TrimSpace` on ASCII.
abbrev pub lower : ℕ → ℕ
lower c = if ltb b'@' c && ltb c b'[' then c + 32 else c

abbrev pub to_lower : Bytes → Bytes
to_lower = map lower

abbrev pub is_space : ℕ → Bool
is_space c = (leb 9 c && leb c 13) || c == 32

abbrev pub trim_left : Bytes → Bytes
trim_left [] = []
trim_left (c ∷ s) = if is_space c then trim_left s else c ∷ s

abbrev pub snoc_trimmed : ℕ → Bytes → Bytes
snoc_trimmed c [] = if is_space c then [] else c ∷ []
snoc_trimmed c (d ∷ s) = c ∷ d ∷ s

abbrev pub trim_right : Bytes → Bytes
trim_right [] = []
trim_right (c ∷ s) = snoc_trimmed c (trim_right s)

abbrev pub trim_space : Bytes → Bytes
trim_space s = trim_right (trim_left s)

abbrev pub is_empty : Bytes → Bool
is_empty [] = true
is_empty (c ∷ s) = false

-- `strings.HasPrefix`
unfoldable pub has_prefix : Bytes → Bytes → Bool
has_prefix s [] = true
has_prefix [] (p ∷ ps) = false
has_prefix (c ∷ s) (p ∷ ps) = c == p && has_prefix s ps

pub has_prefix_iff : (s p : Bytes) → (has_prefix s p ≡ true) ↔ ((rest : Bytes) × (s ≡ p ++ rest))
unfolding has_prefix
has_prefix_iff s [] = (λ h. (s, refl), λ h. refl)
has_prefix_iff [] (p ∷ ps) = (λ h. cc, λ h. cc (h.1))
has_prefix_iff (c ∷ s) (p ∷ ps) = (
  λ h. let (rest, e) = (has_prefix_iff s ps).0 (ground arith) in (rest, ground (arith, e)),
  λ (rest, e). ground (arith, (has_prefix_iff s ps).1 (rest, ground (arith, e))),
)

abbrev pub reversed : Bytes → Bytes
reversed [] = []
reversed (c ∷ s) = reversed s ++ c ∷ []

-- `strings.HasSuffix` and `strings.Contains`
unfoldable pub has_suffix : Bytes → Bytes → Bool
unfolding has_prefix
has_suffix s p = has_prefix (reversed s) (reversed p)

unfoldable pub contains : Bytes → Bytes → Bool
unfolding has_prefix
contains [] sub = has_prefix [] sub
contains (c ∷ s) sub = has_prefix (c ∷ s) sub || contains s sub

-- `strings.Split` at a byte: the pieces between its occurrences, at least one.
abbrev pub cons_head : ℕ → List Bytes → List Bytes
cons_head c [] = (c ∷ []) ∷ []
cons_head c (p ∷ ps) = (c ∷ p) ∷ ps

abbrev pub split : ℕ → Bytes → List Bytes
split d [] = [] ∷ []
split d (c ∷ s) = let rest = split d s in if c == d then [] ∷ rest else cons_head c rest

-- What stands before the first occurrence of a byte.
abbrev pub before_first : ℕ → Bytes → Bytes
before_first d [] = []
before_first d (c ∷ s) = if c == d then [] else c ∷ before_first d s
