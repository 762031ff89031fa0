-- ===== src/Base/Rows.antt =====
-- A table of a database as the list of its rows, in the order of insertion: the first row that a
-- test selects, UPDATE and DELETE with a WHERE clause, and columns whose values are unique.
use mathlib.Core.Path.{◌≡◌, refl, subst}
use mathlib.Core.Logic.{◌↔◌, inl, inr}
use mathlib.Core.Bool.{Bool, true, false, not, ◌||◌}
use mathlib.Core.List.{List, [], ◌∷◌, ◌++◌}
use mathlib.Core.Option.{Option, none, some, some_inj}
use native.Mathlib.Omega.{arith}
use cogitator.Base.Tests.{if◌then◌else◌, Bool-cases}
use cogitator.Base.Lists.{anyb, filterb, All}
use cogitator.Base.Eqs.{Eq}

module _ {ℓ} {A : Type ℓ} where
  abbrev pub first_where : (A → Bool) → List A → Option A
  first_where p [] = none
  first_where p (x ∷ xs) = if p x then some x else first_where p xs

  abbrev pub update_where : (A → Bool) → (A → A) → List A → List A
  update_where p f [] = []
  update_where p f (x ∷ xs) = (if p x then f x else x) ∷ update_where p f xs

  abbrev pub delete_where : (A → Bool) → List A → List A
  delete_where p = filterb (λ x. not (p x))

  pub first_where_sound :
      (p : A → Bool) (xs : List A) {x : A} → first_where p xs ≡ some x → p x ≡ true
  first_where_sound p [] h = cc
  first_where_sound p (y ∷ xs) {x} h = elim (Bool-cases (p y)) [
    | inl holds ↦ let same : some y ≡ some x = rw holds at h in rw (some_inj.0 same) at holds
    | inr fails ↦ first_where_sound p xs (rw fails at h)
  ]

  pub first_where-All {κ} :
      (P : A → Type κ) (p : A → Bool) (xs : List A) {x : A}
      → All P xs
      → first_where p xs ≡ some x
      → P x
  first_where-All P p [] all h = cc
  first_where-All P p (y ∷ xs) {x} all h = elim (Bool-cases (p y)) [
    | inl holds ↦ let same : some y ≡ some x = rw holds at h in subst P (some_inj.0 same) all.0
    | inr fails ↦ first_where-All P p xs all.1 (rw fails at h)
  ]

  pub anyb-first_where :
      (p : A → Bool) (xs : List A) → (anyb p xs ≡ false) ↔ (first_where p xs ≡ none)
  anyb-first_where p [] = ground arith
  anyb-first_where p (x ∷ xs) = ground (arith, anyb-first_where p xs)

  pub anyb-append : (p : A → Bool) (xs ys : List A) → anyb p (xs ++ ys) ≡ (anyb p xs || anyb p ys)
  anyb-append p [] ys = refl
  anyb-append p (x ∷ xs) ys = ground (arith, anyb-append p xs ys)

  pub first_where-append :
      (p : A → Bool) (xs ys : List A)
      → anyb p xs ≡ false
      → first_where p (xs ++ ys) ≡ first_where p ys
  first_where-append p [] ys h = refl
  first_where-append p (x ∷ xs) ys h = ground (arith, first_where-append p xs ys)

  pub delete_where_miss : (p : A → Bool) (xs : List A) → anyb p xs ≡ false → delete_where p xs ≡ xs
  delete_where_miss p [] h = refl
  delete_where_miss p (x ∷ xs) h = ground (arith, delete_where_miss p xs)

  pub update_where_miss :
      (p : A → Bool) (f : A → A) (xs : List A) → anyb p xs ≡ false → update_where p f xs ≡ xs
  update_where_miss p f [] h = refl
  update_where_miss p f (x ∷ xs) h = ground (arith, update_where_miss p f xs)

  pub delete_where-append :
      (p : A → Bool) (xs ys : List A)
      → delete_where p (xs ++ ys) ≡ delete_where p xs ++ delete_where p ys
  delete_where-append p [] ys = refl
  delete_where-append p (x ∷ xs) ys = ground (arith, delete_where-append p xs ys)

  pub delete_where-snoc :
      (p : A → Bool) (xs : List A) (x : A)
      → anyb p xs ≡ false
      → p x ≡ true
      → delete_where p (xs ++ x ∷ []) ≡ xs
  delete_where-snoc p [] x h k = ground arith
  delete_where-snoc p (y ∷ xs) x h k = ground (arith, delete_where-snoc p xs x)

  pub anyb-delete_where : (p : A → Bool) (xs : List A) → anyb p (delete_where p xs) ≡ false
  anyb-delete_where p [] = refl
  anyb-delete_where p (x ∷ xs) = ground (arith, anyb-delete_where p xs)

  pub anyb-delete_where-le :
      (p q : A → Bool) (xs : List A) → anyb q xs ≡ false → anyb q (delete_where p xs) ≡ false
  anyb-delete_where-le p q [] h = refl
  anyb-delete_where-le p q (x ∷ xs) h = ground (arith, anyb-delete_where-le p q xs)

  pub anyb-filterb :
      (p q : A → Bool) (xs : List A) → anyb p xs ≡ false → anyb p (filterb q xs) ≡ false
  anyb-filterb p q [] h = refl
  anyb-filterb p q (x ∷ xs) h = ground (arith, anyb-filterb p q xs)

  pub anyb-update_where :
      (p q : A → Bool) (f : A → A) (xs : List A)
      → ((x : A) → q (f x) ≡ q x)
      → anyb q (update_where p f xs) ≡ anyb q xs
  anyb-update_where p q f [] h = refl
  anyb-update_where p q f (x ∷ xs) h = ground (arith, anyb-update_where p q f xs h, h x)

-- No two rows have the same value in the column `key`.
module _ {ℓ} {A : Type ℓ} {K : Type 0} ⦃e : Eq K⦄ where
  abbrev pub Unique : (A → K) → List A → Type 0
  Unique key [] = Unit
  Unique key (x ∷ xs) = (anyb (λ y. e.beq (key y) (key x)) xs ≡ false) × Unique key xs

  pub Unique-snoc :
      (key : A → K) (xs : List A) (x : A)
      → Unique key xs
      → anyb (λ y. e.beq (key y) (key x)) xs ≡ false
      → Unique key (xs ++ x ∷ [])
  Unique-snoc key [] x u h = ground arith
  Unique-snoc key (y ∷ xs) x u h = (
    ground (
      arith,
      anyb-append (λ z. e.beq (key z) (key y)) xs (x ∷ []),
      e.beq_iff (key x) (key y),
      e.beq_iff (key y) (key x),
      u.0,
    ),
    Unique-snoc key xs x u.1 (ground arith),
  )

  pub Unique-delete_where :
      (key : A → K) (p : A → Bool) (xs : List A) → Unique key xs → Unique key (delete_where p xs)
  Unique-delete_where key p [] u = tt
  Unique-delete_where key p (x ∷ xs) u = ground (
    arith,
    anyb-delete_where-le p (λ y. e.beq (key y) (key x)) xs u.0,
    Unique-delete_where key p xs u.1,
  )

  pub Unique-filterb :
      (key : A → K) (p : A → Bool) (xs : List A) → Unique key xs → Unique key (filterb p xs)
  Unique-filterb key p [] u = tt
  Unique-filterb key p (x ∷ xs) u =
      ground
        (arith, anyb-filterb (λ y. e.beq (key y) (key x)) p xs u.0, Unique-filterb key p xs u.1)

  -- An update that leaves the column alone.
  pub Unique-update_where :
      (key : A → K) (p : A → Bool) (f : A → A) (xs : List A)
      → ((x : A) → key (f x) ≡ key x)
      → Unique key xs
      → Unique key (update_where p f xs)
  Unique-update_where key p f [] h u = tt
  Unique-update_where key p f (x ∷ xs) h u = (
    elim (Bool-cases (p x)) [
      | inl holds ↦
          rw (holds, h x)
            (rw (anyb-update_where p (λ y. e.beq (key y) (key x)) f xs (λ y. rw (h y))) u.0)
      | inr fails ↦
          rw fails (rw (anyb-update_where p (λ y. e.beq (key y) (key x)) f xs (λ y. rw (h y))) u.0)
    ],
    Unique-update_where key p f xs h u.1,
  )
