-- ===== src/Base/Assoc.antt =====
-- A Go map as an association list. Iteration goes along the list; since the list is arbitrary, what
-- is proved holds for every order in which the runtime may visit the keys.
use Prim.Native.Nat.{suc, ◌+◌, ◌≤◌, ◌<◌}
use mathlib.Core.Path.{◌≡◌, refl, ap}
use mathlib.Core.Logic.{◌≢◌, inl, inr}
use mathlib.Core.Bool.{Bool}
use mathlib.Core.Option.{Option, none, some}
use mathlib.Core.List.{List, [], ◌∷◌}
use native.Mathlib.Omega.{arith}
use cogitator.Base.Tests.{if◌then◌else◌, Bool-cases}
use cogitator.Base.Lists.{length}
use cogitator.Base.Eqs.{Eq}

abbrev pub keep_option {κ} : {V : Type κ} → (V → Bool) → Option V → Option V
keep_option p none = none
keep_option p (some v) = if p v then some v else none

module _ {ℓ κ} {K : Type ℓ} {V : Type κ} ⦃e : Eq K⦄ where
  unfoldable pub lookup : K → List (K × V) → Option V
  lookup k [] = none
  lookup k ((j, v) ∷ m) = if e.beq j k then some v else lookup k m

  -- `m[k] = v`
  unfoldable pub insert : K → V → List (K × V) → List (K × V)
  insert k v [] = (k, v) ∷ []
  insert k v ((j, w) ∷ m) = if e.beq j k then (k, v) ∷ m else (j, w) ∷ insert k v m

  -- `delete(m, k)`
  unfoldable pub delete : K → List (K × V) → List (K × V)
  delete k [] = []
  delete k ((j, w) ∷ m) = let rest = delete k m in if e.beq j k then rest else (j, w) ∷ rest

  -- `for k, v := range m { if !p(v) { delete(m, k) } }`
  unfoldable pub keep : (V → Bool) → List (K × V) → List (K × V)
  keep p [] = []
  keep p ((j, w) ∷ m) = let rest = keep p m in if p w then (j, w) ∷ rest else rest

  -- Each key stands once, as in a map.
  abbrev pub Distinct : List (K × V) → Type κ
  Distinct [] = Unit
  Distinct ((k, v) ∷ m) = (lookup k m ≡ none) × Distinct m

  pub lookup-insert :
      (k j : K) (v : V) (m : List (K × V))
      → lookup j (insert k v m) ≡ (if e.beq k j then some v else lookup j m)
  unfolding lookup insert
  lookup-insert k j v [] = refl
  lookup-insert k j v ((i, w) ∷ m) =
      ground (arith, e.beq_iff k j, e.beq_iff i k, e.beq_iff i j, lookup-insert k j v m)

  pub lookup-insert_self : (k : K) (v : V) (m : List (K × V)) → lookup k (insert k v m) ≡ some v
  lookup-insert_self k v m = ground (arith, lookup-insert k k v m, e.beq_iff k k)

  pub lookup-delete :
      (k j : K) (m : List (K × V))
      → lookup j (delete k m) ≡ (if e.beq k j then none else lookup j m)
  unfolding lookup delete
  lookup-delete k j [] = ground arith
  lookup-delete k j ((i, w) ∷ m) =
      ground (arith, e.beq_iff k j, e.beq_iff i k, e.beq_iff i j, lookup-delete k j m)

  pub lookup-keep-none :
      (p : V → Bool) (k : K) (m : List (K × V)) → lookup k m ≡ none → lookup k (keep p m) ≡ none
  unfolding lookup keep
  lookup-keep-none p k [] h = refl
  lookup-keep-none p k ((i, w) ∷ m) h = ground (arith, e.beq_iff i k, lookup-keep-none p k m)

  pub lookup-keep :
      (p : V → Bool) (k : K) (m : List (K × V))
      → Distinct m
      → lookup k (keep p m) ≡ keep_option p (lookup k m)
  unfolding lookup keep
  lookup-keep p k [] d = refl
  lookup-keep p k ((i, w) ∷ m) d =
      ground (arith, e.beq_iff i k, lookup-keep p k m d.1, lookup-keep-none p i m d.0)

  pub keep-Distinct : (p : V → Bool) (m : List (K × V)) → Distinct m → Distinct (keep p m)
  unfolding keep
  keep-Distinct p [] d = tt
  keep-Distinct p ((i, w) ∷ m) d = ground (arith, lookup-keep-none p i m d.0, keep-Distinct p m d.1)

  pub insert-Distinct : (k : K) (v : V) (m : List (K × V)) → Distinct m → Distinct (insert k v m)
  unfolding insert lookup
  insert-Distinct k v [] d = (refl, tt)
  insert-Distinct k v ((i, w) ∷ m) d =
      ground (arith, e.beq_iff i k, e.beq_iff k i, lookup-insert k i v m, insert-Distinct k v m d.1)

  pub delete-Distinct : (k : K) (m : List (K × V)) → Distinct m → Distinct (delete k m)
  unfolding delete
  delete-Distinct k [] d = tt
  delete-Distinct k ((i, w) ∷ m) d = ground (arith, lookup-delete k i m, delete-Distinct k m d.1)

  pub length-keep-le : (p : V → Bool) (m : List (K × V)) → length (keep p m) ≤ length m
  unfolding keep
  length-keep-le p [] = omega arith
  length-keep-le p ((i, w) ∷ m) = ground (arith, length-keep-le p m)

  pub length-delete-le : (k : K) (m : List (K × V)) → length (delete k m) ≤ length m
  unfolding delete
  length-delete-le k [] = omega arith
  length-delete-le k ((i, w) ∷ m) = ground (arith, length-delete-le k m)

  pub length-delete-lt :
      (k : K) (m : List (K × V)) → lookup k m ≢ none → length (delete k m) < length m
  unfolding delete lookup
  length-delete-lt k [] h = absurd (h refl)
  length-delete-lt k ((i, w) ∷ m) h = elim (Bool-cases (e.beq i k)) [
    | inl same ↦ rw same (omega (arith, length-delete-le k m))
    | inr other ↦ rw other (omega (arith, length-delete-lt k m (rw (other, lookup) at h)))
  ]

  pub length-insert-le : (k : K) (v : V) (m : List (K × V)) → length (insert k v m) ≤ length m + 1
  unfolding insert
  length-insert-le k v [] = omega arith
  length-insert-le k v ((i, w) ∷ m) = ground (arith, length-insert-le k v m)

  pub length-insert_present :
      (k : K) (v : V) (m : List (K × V)) → lookup k m ≢ none → length (insert k v m) ≡ length m
  unfolding insert lookup
  length-insert_present k v [] h = absurd (h refl)
  length-insert_present k v ((i, w) ∷ m) h = elim (Bool-cases (e.beq i k)) [
    | inl same ↦ rw same refl
    | inr other ↦ rw other (ap suc (length-insert_present k v m (rw (other, lookup) at h)))
  ]
