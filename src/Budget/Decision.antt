-- ===== src/Budget/Decision.antt =====
-- The decision of `Allow`, and what it records.
use cogitator.Base.{
  ℕ, ◌≡◌, refl, ap, inl, inr, Bool, true, false, ltb, leb, arith, if◌then◌else◌, Bool-cases, Option,
  none, some, String,
}
use cogitator.Base.Eqs.{string_eq}
use cogitator.Base.Assoc
use cogitator.Budget.{
  allowed, daily_budget_exceeded, rate_limited, SlidingWindow, Guard, window_allow, or_empty,
  record_request, rpm_of, budget_of, window_key, check_budget, allow,
}

-- The window of a user and tier.
abbrev pub window_of : Guard → String → SlidingWindow
window_of g key = or_empty (Assoc.lookup key g.windows)

-- Whether the window of the key has room at `now`, or no limit is set.
abbrev pub in_rate : Guard → String → String → ℕ → Bool
in_rate g tier user now =
    if ltb 0 (rpm_of g.limits tier)
    then (window_allow (window_of g (window_key tier user)) (rpm_of g.limits tier) now).1
    else true

-- Whether the usage backend reports that the budget, if one is set, is spent.
abbrev pub is_spent : ℕ → Option (Option ℕ) → Bool
is_spent budget none = false
is_spent budget (some none) = false
is_spent budget (some (some used)) = if ltb 0 budget then leb budget used else false

check_budget-is_spent :
    (budget : ℕ) (usage : Option (Option ℕ))
    → check_budget budget usage ≡ (if is_spent budget usage then daily_budget_exceeded else allowed)
unfolding check_budget
check_budget-is_spent budget none = refl
check_budget-is_spent budget (some none) = refl
check_budget-is_spent budget (some (some used)) = ground arith

-- The verdict: a full window is reported first; then a spent budget; a missing backend, a failing
-- query, and limits of 0 let the request pass.
pub allow_verdict :
    (g : Guard) (tier user : String) (usage : Option (Option ℕ)) (now : ℕ)
    → (allow g tier user usage now).1 ≡ (
        if in_rate g tier user now
        then (if is_spent (budget_of g.limits tier) usage then daily_budget_exceeded else allowed)
        else rate_limited)
unfolding allow record_request
allow_verdict g tier user usage now =
    ground (arith, check_budget-is_spent (budget_of g.limits tier) usage)

-- What a call records. Where a rate limit is set, the window of the caller's key becomes the one that
-- the sliding window returns, also when the budget then refuses the request; every other window,
-- and every window where no rate limit is set, stays as it was. The limits never change.
pub allow_records :
    (g : Guard) (tier user key : String) (usage : Option (Option ℕ)) (now : ℕ)
    → ((allow g tier user usage now).0.limits ≡ g.limits)
      × (window_of (allow g tier user usage now).0 key ≡ (
          if (if ltb 0 (rpm_of g.limits tier)
            then string_eq.beq (window_key tier user) key
            else false)
          then (window_allow (window_of g key) (rpm_of g.limits tier) now).0
          else window_of g key))
unfolding allow record_request
allow_records g tier user key usage now = elim (Bool-cases (ltb 0 (rpm_of g.limits tier))) [
  | inl on ↦ rw on (
    refl,
    rw (Assoc.lookup-insert (window_key tier user) key _ g.windows)
        (split (string_eq.beq (window_key tier user) key) (string_eq.beq_iff _ key).0),
  )
  | inr off ↦ rw off (refl, refl)
]
  where
    after : String → SlidingWindow
    after k = (window_allow (window_of g k) (rpm_of g.limits tier) now).0

    split :
        (same : Bool)
        → (same ≡ true → window_key tier user ≡ key)
        → or_empty
            (if same then some (after (window_key tier user)) else Assoc.lookup key g.windows)
          ≡ (if same then after key else window_of g key)
    split true e = ap after (e refl)
    split false e = refl
