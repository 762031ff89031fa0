-- ===== src/Budget.antt =====
-- server/internal/budget/guard.go: daily token budgets and requests-per-minute limits of a user.
-- `Allow` takes the lock for the window and not for the usage query, whose answer is the argument
-- `usage` (`none`: no backend is set; `some none`: the query fails). Times are nanoseconds, and
-- `ts.Before(now.Add(-time.Minute))` is written `ts + minute < now`. The limits are natural numbers:
-- the code treats a negative limit as it treats 0.
pub mod Window
pub mod Decision
mod Tests
use Prim.Native.String.{◌++◌ as ◌+++◌}
use cogitator.Base.{
  ℕ, ◌+◌, ◌*◌, ◌≡◌, Bool, true, false, List, [], ◌∷◌, ◌++◌, Option, none, some, ltb, leb, length,
  if◌then◌else◌, String,
}
use cogitator.Base.Eqs.{string_eq}
use cogitator.Base.Assoc

abbrev pub minute : ℕ
minute = 60_000_000_000

pub data Verdict : Type 0 where
  allowed daily_budget_exceeded rate_limited : Verdict

pub record Limits : Type 0 where
  pub daily_budget_standard : ℕ
  pub daily_budget_cheap : ℕ
  pub standard_model_rpm : ℕ
  pub cheap_model_rpm : ℕ

-- slidingWindow.timestamps, oldest first.
abbrev pub SlidingWindow : Type 0
SlidingWindow = List ℕ

pub record Guard : Type 0 where
  pub limits : Limits
  pub windows : List (String × SlidingWindow)

pub new_guard : Limits → Guard
new_guard limits = record { limits = limits; windows = [] }

pub set_limits : Guard → Limits → Guard
set_limits g l = record g { limits = l }

-- `w.timestamps[start:]` after the loop that moves `start` past the expired entries.
pub trim : ℕ → SlidingWindow → SlidingWindow
trim now [] = []
trim now (ts ∷ w) = let rest = trim now w in if ltb (ts + minute) now then rest else ts ∷ w

unfoldable pub window_allow : SlidingWindow → ℕ → ℕ → SlidingWindow × Bool
unfolding trim
window_allow w limit now =
    let kept = trim now w in
    if leb limit (length kept) then (kept, false) else (kept ++ now ∷ [], true)

abbrev pub or_empty : Option SlidingWindow → SlidingWindow
or_empty none = []
or_empty (some w) = w

pub record_request : Guard → String → ℕ → ℕ → Guard × Bool
record_request g key limit now =
    let (w, accepted) = window_allow (or_empty (Assoc.lookup key g.windows)) limit now in
    (record g { windows = Assoc.insert key w g.windows }, accepted)

abbrev pub is_cheap : String → Bool
is_cheap tier = string_eq.beq tier "cheap"

abbrev pub rpm_of : Limits → String → ℕ
rpm_of l tier = if is_cheap tier then l.cheap_model_rpm else l.standard_model_rpm

abbrev pub budget_of : Limits → String → ℕ
budget_of l tier = if is_cheap tier then l.daily_budget_cheap else l.daily_budget_standard

abbrev pub window_key : String → String → String
window_key tier user = user +++ (":" +++ tier)

-- The daily budget check.
pub check_budget : ℕ → Option (Option ℕ) → Verdict
check_budget budget none = allowed
check_budget budget (some none) = allowed
check_budget budget (some (some used)) =
    if ltb 0 budget then (if leb budget used then daily_budget_exceeded else allowed) else allowed

pub allow : Guard → String → String → Option (Option ℕ) → ℕ → Guard × Verdict
allow g tier user usage now =
    let rpm = rpm_of g.limits tier in
    let checked = check_budget (budget_of g.limits tier) usage in
    let (g', accepted) = record_request g (window_key tier user) rpm now in
    if ltb 0 rpm then (g', if accepted then checked else rate_limited) else (g, checked)
