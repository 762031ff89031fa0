-- ===== src/Drain.antt =====
-- server/internal/drain/drain.go: the drain flag and the middleware that turns requests away.
mod Tests
use cogitator.Base.{
  ℕ, ◌≡◌, refl, ◌⊎◌, inl, inr, Bool, true, false, not, ◌&&◌, ◌||◌, ◌↔◌, List, [], ◌∷◌, ◌++◌, ◌==◌,
  arith, if◌then◌else◌, Bool-cases, String,
}
use cogitator.Base.Texts.{Bytes, codes, bytes_eq, bytes_eq_iff, has_prefix, has_prefix_iff}

pub record Manager : Type 0 where
  pub draining : Bool

pub new : Manager
new = record { draining = false }

pub start : Manager → Manager
start m = record m { draining = true }

pub is_draining : Manager → Bool
is_draining m = m.draining

pub data Response : Type 0 where
  served : Response
  unavailable : Response

abbrev internal_prefix : Bytes
internal_prefix = codes "/api/internal/"

abbrev health_path : Bytes
health_path = codes "/api/health"

-- The path of the request decides while the manager drains.
pub middleware : Manager → Bytes → Response
middleware m path =
    if m.draining
    then (if not (has_prefix path internal_prefix) && not (bytes_eq path health_path)
        then unavailable
        else served)
    else served

-- The requests that go through in every state.
abbrev pub IsExempt : Bytes → Type 0
IsExempt path = ((rest : Bytes) × (path ≡ internal_prefix ++ rest)) ⊎ (path ≡ health_path)

is_exempt : Bytes → Bool
is_exempt path = has_prefix path internal_prefix || bytes_eq path health_path

is_exempt_iff : (path : Bytes) → (is_exempt path ≡ true) ↔ IsExempt path
unfolding is_exempt
is_exempt_iff path = (
  λ h. elim (Bool-cases (has_prefix path internal_prefix)) [
    | inl below ↦ inl ((has_prefix_iff path internal_prefix).0 below)
    | inr other ↦ inr ((bytes_eq_iff path health_path).0 (rw other at h))
  ],
  λ h. elim h [
    | inl below ↦ ground (arith, (has_prefix_iff path internal_prefix).1 below)
    | inr health ↦ ground (arith, (bytes_eq_iff path health_path).1 health)
  ],
)

-- A manager turns a request away exactly if it drains and the path is neither the health check nor
-- below the internal prefix.
pub middleware-unavailable :
    (m : Manager) (path : Bytes)
    → (middleware m path ≡ unavailable) ↔ ((m.draining ≡ true) × ¬ IsExempt path)
unfolding middleware is_exempt
middleware-unavailable m path = (
  λ h. (ground arith, λ exempt. ground (arith, (is_exempt_iff path).1 exempt)),
  λ h. elim (Bool-cases (is_exempt path)) [
    | inl exempt ↦ absurd (h.1 ((is_exempt_iff path).0 exempt))
    | inr other ↦ ground (arith, h.0, other)
  ],
)
