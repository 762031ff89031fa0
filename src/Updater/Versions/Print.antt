-- ===== src/Updater/Versions/Print.antt =====
-- A version that is printed in the usual form is read back.
use mathlib.Core.Path.{ap, ◌∙◌}
use cogitator.Base.{ℕ, ◌^◌, ◌<◌, ◌≡◌, refl, false, [], ◌∷◌, ◌++◌, Option, some, arith, ◌==◌, All}
use cogitator.Base.Texts.{Bytes, split, before_first}
use cogitator.Base.Numbers.{ℤ, pos, print, print-digits, atoi-print, AllDigits, is_digit}
use cogitator.Updater.Versions.{parse_semver, numbers, three}

-- `v1.2.3`, with what a release may add after a dash.
abbrev pub print_semver : ℕ → ℕ → ℕ → Bytes → Bytes
print_semver a b c suffix = b'v' ∷ (print a ++ (b'.' ∷ (print b ++ (b'.' ∷ (print c ++ suffix)))))

-- A text without a byte, followed by it.
abbrev Lacks : ℕ → Bytes → Type 0
Lacks d = All (λ c. (c == d) ≡ false)

digits-Lacks : (d : ℕ) (s : Bytes) → is_digit d ≡ false → AllDigits s → Lacks d s
digits-Lacks d [] h a = tt
digits-Lacks d (c ∷ s) h a = (ground (arith, h, a.0), digits-Lacks d s h a.1)

split-Lacks : (d : ℕ) (s rest : Bytes) → Lacks d s → split d (s ++ d ∷ rest) ≡ s ∷ split d rest
split-Lacks d [] rest h = ground arith
split-Lacks d (c ∷ s) rest h = rw (h.0, split-Lacks d s rest h.1) refl

split-last : (d : ℕ) (s : Bytes) → Lacks d s → split d s ≡ s ∷ []
split-last d [] h = refl
split-last d (c ∷ s) h = rw (h.0, split-last d s h.1) refl

before-Lacks :
    (d : ℕ) (s rest : Bytes) → Lacks d s → before_first d (s ++ rest) ≡ s ++ before_first d rest
before-Lacks d [] rest h = refl
before-Lacks d (c ∷ s) rest h = rw h.0 (ap (λ t. c ∷ t) (before-Lacks d s rest h.1))

module _ (x y z : Bytes) (dx : AllDigits x) (dy : AllDigits y) (dz : AllDigits z) where
  cut :
      (suffix : Bytes)
      → before_first b'-' suffix ≡ []
      → before_first b'-' (x ++ (b'.' ∷ (y ++ (b'.' ∷ (z ++ suffix)))))
        ≡ x ++ (b'.' ∷ (y ++ (b'.' ∷ z)))
  cut suffix h =
      before-Lacks b'-' x (b'.' ∷ (y ++ (b'.' ∷ (z ++ suffix)))) (digits-Lacks b'-' x refl dx)
      ∙ ap (λ t. x ++ (b'.' ∷ t))
          (before-Lacks b'-' y (b'.' ∷ (z ++ suffix)) (digits-Lacks b'-' y refl dy)
            ∙ ap (λ t. y ++ (b'.' ∷ t))
                (before-Lacks b'-' z suffix (digits-Lacks b'-' z refl dz)
                  ∙ ap (λ t. z ++ t) h
                  ∙ append_nil z))
    where
      append_nil : (s : Bytes) → s ++ [] ≡ s
      append_nil [] = refl
      append_nil (c ∷ s) = ap (λ t. c ∷ t) (append_nil s)

  parts : split b'.' (x ++ (b'.' ∷ (y ++ (b'.' ∷ z)))) ≡ x ∷ y ∷ z ∷ []
  parts =
      split-Lacks b'.' x (y ++ (b'.' ∷ z)) (digits-Lacks b'.' x refl dx)
      ∙ ap (λ t. x ∷ t)
          (split-Lacks b'.' y z (digits-Lacks b'.' y refl dy)
            ∙ ap (λ t. y ∷ t) (split-last b'.' z (digits-Lacks b'.' z refl dz)))

-- A version as releases print it, with or without what follows a dash, is read back as its three
-- numbers, where they fit 64 bits.
pub parse_semver-print :
    (a b c : ℕ) (suffix : Bytes)
    → a < 2 ^ 63
    → b < 2 ^ 63
    → c < 2 ^ 63
    → before_first b'-' suffix ≡ []
    → parse_semver (print_semver a b c suffix)
      ≡ some (record { major = pos a; minor = pos b; patch = pos c })
unfolding parse_semver
parse_semver-print a b c suffix ha hb hc h =
    ap (λ s. numbers (split b'.' s))
      (cut (print a) (print b) (print c) (print-digits a) (print-digits b) (print-digits c) suffix
        h)
    ∙ ap numbers
        (parts (print a) (print b) (print c) (print-digits a) (print-digits b) (print-digits c))
    ∙ three_some (atoi-print a ha) (atoi-print b hb) (atoi-print c hc)
  where
    three_some :
        {o p q : Option ℤ}
        → o ≡ some (pos a)
        → p ≡ some (pos b)
        → q ≡ some (pos c)
        → three o p q ≡ some (record { major = pos a; minor = pos b; patch = pos c })
    three_some e f g = rw (e, f, g) refl
