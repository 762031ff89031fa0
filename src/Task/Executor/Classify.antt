-- ===== src/Task/Executor/Classify.antt =====
-- The search of `classifyError` for its keywords, which does not look at the case of letters.
use cogitator.Base.{◌≡◌, refl, sym, ◌↔◌, inl, inr, true, [], ◌∷◌, ◌++◌, map, arith, Bool-cases}
use cogitator.Base.Texts.{Bytes}
use cogitator.Task.Executor.{lower, lower_prefix, contains_lower}

-- The text has, somewhere in it, bytes that are `sub` when their letters are made small.
abbrev pub Occurs : Bytes → Bytes → Type 0
Occurs s sub =
    (before : Bytes) × (at : Bytes) × (after : Bytes) × (s ≡ before ++ at ++ after)
    × (map lower at ≡ sub)

lower_prefix-to :
    (s sub : Bytes)
    → lower_prefix s sub ≡ true
    → (at : Bytes) × (after : Bytes) × (s ≡ at ++ after) × (map lower at ≡ sub)
unfolding lower_prefix
lower_prefix-to s [] h = ([], s, refl, refl)
lower_prefix-to [] (p ∷ ps) h = absurd cc
lower_prefix-to (c ∷ s) (p ∷ ps) h =
    let same : lower c ≡ p = ground (arith, h) in
    let (at, after, split, small) = lower_prefix-to s ps (ground (arith, h)) in
    (c ∷ at, after, rw split refl, rw (same, small) refl)

lower_prefix-from : (at after : Bytes) → lower_prefix (at ++ after) (map lower at) ≡ true
unfolding lower_prefix
lower_prefix-from [] after = ground arith
lower_prefix-from (c ∷ at) after = ground (arith, lower_prefix-from at after)

contains_lower_prefix : (s sub : Bytes) → lower_prefix s sub ≡ true → contains_lower s sub ≡ true
unfolding contains_lower
contains_lower_prefix [] sub h = h
contains_lower_prefix (c ∷ s) sub h = ground (arith, h)

contains_lower-from :
    (before at after : Bytes) → contains_lower (before ++ at ++ after) (map lower at) ≡ true
unfolding contains_lower
contains_lower-from [] at after =
    contains_lower_prefix (at ++ after) (map lower at) (lower_prefix-from at after)
contains_lower-from (c ∷ before) at after = ground (arith, contains_lower-from before at after)

contains_lower-to : (s sub : Bytes) → contains_lower s sub ≡ true → Occurs s sub
unfolding contains_lower
contains_lower-to [] sub h =
    let (at, after, split, small) = lower_prefix-to [] sub h in ([], at, after, split, small)
contains_lower-to (c ∷ s) sub h = elim (Bool-cases (lower_prefix (c ∷ s) sub)) [
  | inl here ↦
      let (at, after, split, small) = lower_prefix-to (c ∷ s) sub here in
      ([], at, after, split, small)
  | inr not_here ↦
      let (before, at, after, split, small) =
        contains_lower-to s sub (ground (arith, h, not_here)) in
      (c ∷ before, at, after, rw split refl, small)
]

-- The search succeeds exactly where the keyword occurs in the text, but for the case of letters.
pub contains_lower_iff : (s sub : Bytes) → (contains_lower s sub ≡ true) ↔ Occurs s sub
contains_lower_iff s sub = (
  contains_lower-to s sub,
  λ (before, at, after, split, small). rw (split, sym small) (contains_lower-from before at after),
)
