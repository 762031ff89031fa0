-- ===== src/Updater/Versions.antt =====
-- server/internal/updater/semver.go: versions. The numbers are Go's 64-bit integers.
pub mod Print
use cogitator.Base.{
  ℕ, ◌≡◌, ◌≢◌, refl, ◌⊎◌, inl, inr, Bool, true, false, not, ◌||◌, ◌&&◌, List, [], ◌∷◌, Option, none,
  some, arith, ◌==◌, ltb, Bool-cases, if◌then◌else◌,
}
use mathlib.Core.Path.{subst, sym, ◌∙◌}
use cogitator.Base.Texts.{Bytes, split, before_first}
use cogitator.Base.Numbers.{ℤ, pos, negsuc, int_eq, atoi}

pub record Semver : Type 0 where
  pub major : ℤ
  pub minor : ℤ
  pub patch : ℤ

-- `strings.TrimPrefix(s, "v")`
abbrev pub trim_v : Bytes → Bytes
trim_v [] = []
trim_v (c ∷ s) = if c == b'v' then s else c ∷ s

abbrev pub three : Option ℤ → Option ℤ → Option ℤ → Option Semver
three (some a) (some b) (some c) = some (record { major = a; minor = b; patch = c })
three _ _ _ = none

abbrev pub numbers : List Bytes → Option Semver
numbers (a ∷ b ∷ c ∷ []) = three (atoi a) (atoi b) (atoi c)
numbers _ = none

unfoldable pub parse_semver : Bytes → Option Semver
parse_semver s = numbers (split b'.' (before_first b'-' (trim_v s)))

abbrev pub greater : ℤ → ℤ → Bool
greater (pos a) (pos b) = ltb b a
greater (pos a) (negsuc b) = true
greater (negsuc a) (pos b) = false
greater (negsuc a) (negsuc b) = ltb a b

unfoldable pub newer_than : Semver → Semver → Bool
newer_than v other =
    if not (int_eq v.major other.major)
    then greater v.major other.major
    else if not (int_eq v.minor other.minor)
    then greater v.minor other.minor
    else greater v.patch other.patch

int_eq_iff : (a b : ℤ) → int_eq a b ≡ true → a ≡ b
int_eq_iff (pos a) (pos b) h = ground (arith, h)
int_eq_iff (negsuc a) (negsuc b) h = ground (arith, h)
int_eq_iff (pos a) (negsuc b) h = cc
int_eq_iff (negsuc a) (pos b) h = cc

int_eq_refl : (a : ℤ) → int_eq a a ≡ true
int_eq_refl (pos a) = ground arith
int_eq_refl (negsuc a) = ground arith

greater_irrefl : (a : ℤ) → greater a a ≡ false
greater_irrefl (pos a) = ground arith
greater_irrefl (negsuc a) = ground arith

greater_total : (a b : ℤ) → int_eq a b ≡ false → greater a b ≡ not (greater b a)
greater_total (pos a) (pos b) h = ground (arith, h)
greater_total (negsuc a) (negsuc b) h = ground (arith, h)
greater_total (pos a) (negsuc b) h = refl
greater_total (negsuc a) (pos b) h = refl

greater_trans : (a b c : ℤ) → greater a b ≡ true → greater b c ≡ true → greater a c ≡ true
greater_trans (pos a) (pos b) (pos c) h k = ground (arith, h, k)
greater_trans (pos a) (pos b) (negsuc c) h k = refl
greater_trans (pos a) (negsuc b) (pos c) h k = cc
greater_trans (pos a) (negsuc b) (negsuc c) h k = refl
greater_trans (negsuc a) (pos b) c h k = cc
greater_trans (negsuc a) (negsuc b) (pos c) h k = cc
greater_trans (negsuc a) (negsuc b) (negsuc c) h k = ground (arith, h, k)

greater_differs : (a b : ℤ) → greater a b ≡ true → int_eq a b ≡ false
greater_differs (pos a) (pos b) h = ground (arith, h)
greater_differs (negsuc a) (negsuc b) h = ground (arith, h)
greater_differs (pos a) (negsuc b) h = refl
greater_differs (negsuc a) (pos b) h = refl

-- The order by the three numbers, written out.
abbrev pub After : Semver → Semver → Type 0
After v w =
    (greater v.major w.major ≡ true)
    ⊎ ((v.major ≡ w.major)
        × ((greater v.minor w.minor ≡ true)
            ⊎ ((v.minor ≡ w.minor) × (greater v.patch w.patch ≡ true))))

to_After : (v w : Semver) → newer_than v w ≡ true → After v w
unfolding newer_than
to_After v w h = elim (Bool-cases (int_eq v.major w.major)) [
  | inr major ↦ inl (rw major at h)
  | inl major ↦ inr (
    int_eq_iff v.major w.major major,
    elim (Bool-cases (int_eq v.minor w.minor)) [
      | inr minor ↦ inl (rw (major, minor) at h)
      | inl minor ↦ inr (int_eq_iff v.minor w.minor minor, rw (major, minor) at h)
    ],
  )
]

same_int : (a b : ℤ) → a ≡ b → int_eq a b ≡ true
same_int a b e = subst (λ b. int_eq a b ≡ true) e (int_eq_refl a)

of_After : (v w : Semver) → After v w → newer_than v w ≡ true
unfolding newer_than
of_After v w (inl g) = rw (greater_differs v.major w.major g, g) refl
of_After v w (inr (e, inl g)) =
    rw (same_int v.major w.major e, greater_differs v.minor w.minor g, g) refl
of_After v w (inr (e, inr (f, g))) =
    rw (same_int v.major w.major e, same_int v.minor w.minor f, g) refl

-- A version that is newer than one that is newer than a third is newer than the third.
pub newer_than_trans :
    (u v w : Semver) → newer_than u v ≡ true → newer_than v w ≡ true → newer_than u w ≡ true
newer_than_trans u v w h k = of_After u w (join (to_After u v h) (to_After v w k))
  where
    join : After u v → After v w → After u w
    join (inl g) (inl f) = inl (greater_trans u.major v.major w.major g f)
    join (inl g) (inr (e, x)) = inl (subst (λ m. greater u.major m ≡ true) e g)
    join (inr (e, x)) (inl g) = inl (subst (λ m. greater m w.major ≡ true) (sym e) g)
    join (inr (e, inl g)) (inr (f, inl k)) =
        inr (e ∙ f, inl (greater_trans u.minor v.minor w.minor g k))
    join (inr (e, inl g)) (inr (f, inr (i, k))) =
        inr (e ∙ f, inl (subst (λ m. greater u.minor m ≡ true) i g))
    join (inr (e, inr (i, g))) (inr (f, inl k)) =
        inr (e ∙ f, inl (subst (λ m. greater m w.minor ≡ true) (sym i) k))
    join (inr (e, inr (i, g))) (inr (f, inr (j, k))) =
        inr (e ∙ f, inr (i ∙ j, greater_trans u.patch v.patch w.patch g k))

-- Of two versions either both numbers agree, or exactly one is the newer; none is newer than itself.
pub newer_than-total :
    (v w : Semver) → ((v ≡ w) ⊎ (newer_than v w ≡ not (newer_than w v))) × (newer_than v v ≡ false)
unfolding newer_than
newer_than-total v w =
    (pair, rw (int_eq_refl v.major, int_eq_refl v.minor) (greater_irrefl v.patch))
  where
    swap : (a b : ℤ) → int_eq a b ≡ false → int_eq b a ≡ false
    swap (pos a) (pos b) h = ground (arith, h)
    swap (negsuc a) (negsuc b) h = ground (arith, h)
    swap (pos a) (negsuc b) h = refl
    swap (negsuc a) (pos b) h = refl

    pair : (v ≡ w) ⊎ (newer_than v w ≡ not (newer_than w v))
    pair = elim (Bool-cases (int_eq v.major w.major)) [
      | inr major ↦
          inr (rw (major, swap v.major w.major major) (greater_total v.major w.major major))
      | inl major ↦
          let e = int_eq_iff v.major w.major major in
          let back = same_int w.major v.major (sym e) in
          elim (Bool-cases (int_eq v.minor w.minor)) [
            | inr minor ↦ inr (
                rw (major, back, minor, swap v.minor w.minor minor)
                  (greater_total v.minor w.minor minor))
            | inl minor ↦
                let f = int_eq_iff v.minor w.minor minor in
                let again = same_int w.minor v.minor (sym f) in
                elim (Bool-cases (int_eq v.patch w.patch)) [
                  | inr patch ↦
                      inr (rw (major, back, minor, again) (greater_total v.patch w.patch patch))
                  | inl patch ↦ inl (whole e f (int_eq_iff v.patch w.patch patch))
                ]
          ]
    ]
      where
        whole : v.major ≡ w.major → v.minor ≡ w.minor → v.patch ≡ w.patch → v ≡ w
        whole e f g = cc
