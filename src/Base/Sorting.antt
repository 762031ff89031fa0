-- ===== src/Base/Sorting.antt =====
-- `ORDER BY` and `sort.Slice`: an insertion sort by a numeric key, rising, that keeps the order of
-- equal rows (SQL and `sort.Slice` promise no order among those).
use mathlib.Core.List.{Perm}
use mathlib.Core.List.Perm
use Prim.Native.Nat.{ℕ, ◌≤◌}
use mathlib.Core.Logic.{inl, inr}
use mathlib.Core.List.{List, [], ◌∷◌}
use native.Mathlib.Omega.{arith}
use cogitator.Base.Tests.{if◌then◌else◌, leb, Bool-cases}
use cogitator.Base.Lists.{All}

module _ {ℓ} {A : Type ℓ} (key : A → ℕ) where
  abbrev pub insert_by : A → List A → List A
  insert_by x [] = x ∷ []
  insert_by x (y ∷ ys) = if leb (key x) (key y) then x ∷ y ∷ ys else y ∷ insert_by x ys

  abbrev pub sort_by : List A → List A
  sort_by [] = []
  sort_by (x ∷ xs) = insert_by x (sort_by xs)

  abbrev pub Rising : List A → Type 0
  Rising [] = Unit
  Rising (x ∷ xs) = All (λ y. key x ≤ key y) xs × Rising xs

  insert_by-All {κ} :
      (P : A → Type κ) (x : A) (ys : List A) → P x → All P ys → All P (insert_by x ys)
  insert_by-All P x [] px h = (px, tt)
  insert_by-All P x (y ∷ ys) px h = elim (Bool-cases (leb (key x) (key y))) [
    | inl le ↦ rw le (px, h)
    | inr gt ↦ rw gt (h.0, insert_by-All P x ys px h.1)
  ]

  pub sort_by-All {κ} : (P : A → Type κ) (xs : List A) → All P xs → All P (sort_by xs)
  sort_by-All P [] h = tt
  sort_by-All P (x ∷ xs) h = insert_by-All P x (sort_by xs) h.0 (sort_by-All P xs h.1)

  le-All :
      (x y : A) (ys : List A)
      → key x ≤ key y
      → All (λ z. key y ≤ key z) ys
      → All (λ z. key x ≤ key z) ys
  le-All x y [] le h = tt
  le-All x y (z ∷ ys) le h = (omega (arith, h.0), le-All x y ys le h.1)

  insert_by-Rising : (x : A) (ys : List A) → Rising ys → Rising (insert_by x ys)
  insert_by-Rising x [] h = (tt, tt)
  insert_by-Rising x (y ∷ ys) h = elim (Bool-cases (leb (key x) (key y))) [
    | inl le ↦ rw le ((ground (arith, le), le-All x y ys (ground (arith, le)) h.0), h)
    | inr gt ↦ rw gt (
      insert_by-All (λ z. key y ≤ key z) x ys (ground (arith, gt)) h.0,
      insert_by-Rising x ys h.1,
    )
  ]

  pub sort_by-Rising : (xs : List A) → Rising (sort_by xs)
  sort_by-Rising [] = tt
  sort_by-Rising (x ∷ xs) = insert_by-Rising x (sort_by xs) (sort_by-Rising xs)

  insert_by-Perm : (x : A) (ys : List A) → Perm (insert_by x ys) (x ∷ ys)
  insert_by-Perm x [] = Perm.refl (x ∷ [])
  insert_by-Perm x (y ∷ ys) = elim (Bool-cases (leb (key x) (key y))) [
    | inl le ↦ rw le (Perm.refl (x ∷ y ∷ ys))
    | inr gt ↦ rw gt (Perm.trans (Perm.cons y (insert_by-Perm x ys)) (Perm.swap x y ys))
  ]

  pub sort_by-Perm : (xs : List A) → Perm (sort_by xs) xs
  sort_by-Perm [] = Perm.refl []
  sort_by-Perm (x ∷ xs) = Perm.trans (insert_by-Perm x (sort_by xs)) (Perm.cons x (sort_by-Perm xs))
