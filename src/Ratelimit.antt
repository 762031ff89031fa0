-- ===== src/Ratelimit.antt =====
-- server/internal/ratelimit/limiter.go: a token bucket for each address.
-- The code counts tokens in floats; here one token is `unit` parts and a nanosecond adds `burst`
-- parts, which is the rate of `burst` tokens a minute without rounding. The two clock reads of a
-- call are one, and the clock does not go back. `lastCheck.Before(now.Add(-5 minutes))` is written
-- `last_check + stale_after < now`. `cleanup` is one step here, as if no call of `Allow` came in
-- between: the code reads `lastCheck` under the lock of the bucket and deletes the bucket after it has
-- released it, so that what such a call takes from the bucket can be lost.
pub mod Conformance
pub mod Cleanup
mod Tests
use cogitator.Base.{
  ℕ, ◌+◌, ◌-◌, ◌*◌, ◌≤◌, ◌≡◌, Bool, true, false, not, List, [], ◌∷◌, Option, none, some, ltb,
  if◌then◌else◌, String,
}
use cogitator.Base.Eqs.{string_eq}
use cogitator.Base.Assoc

-- A nanosecond at one request a minute.
abbrev pub unit : ℕ
unit = 60_000_000_000

abbrev pub stale_after : ℕ
stale_after = 300_000_000_000

pub record Bucket : Type 0 where
  pub tokens : ℕ
  pub last_check : ℕ

pub record Limiter : Type 0 where
  pub burst : ℕ
  pub buckets : List (String × Bucket)

pub new : ℕ → Limiter
new requests_per_minute = record { burst = requests_per_minute; buckets = [] }

abbrev pub is_fresh : ℕ → Bucket → Bool
is_fresh now b = not (ltb (b.last_check + stale_after) now)

pub cleanup : Limiter → ℕ → Limiter
cleanup l now = record l { buckets = Assoc.keep (is_fresh now) l.buckets }

-- `LoadOrStore`: a new bucket is full.
abbrev pub or_full : ℕ → ℕ → Option Bucket → Bucket
or_full burst now none = record { tokens = burst * unit; last_check = now }
or_full burst now (some b) = b

-- The tokens after the refill, capped at the burst.
pub refill : ℕ → ℕ → Bucket → ℕ
refill burst now b =
    let grown = b.tokens + (now - b.last_check) * burst in
    if ltb (burst * unit) grown then burst * unit else grown

pub spend : ℕ → ℕ → Bucket → Bucket × Bool
unfolding refill
spend burst now b =
    let filled = refill burst now b in
    if ltb filled unit
    then (record { tokens = filled; last_check = now }, false)
    else (record { tokens = filled - unit; last_check = now }, true)

pub allow : Limiter → String → ℕ → Limiter × Bool
allow l ip now =
    let (b, permitted) = spend l.burst now (or_full l.burst now (Assoc.lookup ip l.buckets)) in
    (record l { buckets = Assoc.insert ip b l.buckets }, permitted)

pub data Response : Type 0 where
  served : Response
  too_many_requests : Response

-- The host that `net.SplitHostPort` finds in the remote address, or "", is a parameter.
pub middleware : (String → String) → Limiter → String → ℕ → Limiter × Response
middleware split_host l remote now =
    let host = split_host remote in
    let ip = if string_eq.beq host "" then remote else host in
    let (l', permitted) = allow l ip now in (l', if permitted then served else too_many_requests)
