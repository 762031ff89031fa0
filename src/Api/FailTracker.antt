-- ===== src/Api/FailTracker.antt =====
-- server/internal/api/authlimit.go: the failure counters that lock out brute-force logins.
-- Each method is one step under the mutex, with the clock as the argument `now`, in nanoseconds.
-- `now.Sub(first) >= window` is written `first + window <= now`: the two agree also when the clock
-- stands before `first`. `remaining.Seconds()` truncated to an integer is a division by 10^9.
pub mod Bounds
pub mod Lockout
mod Tests
use cogitator.Base.{
  ℕ, ◌+◌, ◌-◌, ◌/◌, ◌≤◌, ◌≡◌, Bool, true, false, not, List, [], ◌∷◌, Option, none, some, ltb, leb,
  length, if◌then◌else◌,
}
use cogitator.Base.Texts.{Bytes, bytes_eq_instance}
use cogitator.Base.Assoc
use cogitator.Base.Assoc.{Distinct}

pub record FailEntry : Type 0 where
  pub count : ℕ
  pub first : ℕ
  pub last : ℕ

abbrev pub Entries : Type 0
Entries = List (Bytes × FailEntry)

pub record FailTracker : Type 0 where
  pub entries : Entries
  pub max : ℕ

abbrev pub second : ℕ
second = 1_000_000_000

abbrev pub auth_tracker_max_entries : ℕ
auth_tracker_max_entries = 10000

pub new_fail_tracker : FailTracker
new_fail_tracker = record { entries = []; max = auth_tracker_max_entries }

-- `now.Sub(e.first) >= window`
abbrev pub elapsed : ℕ → ℕ → FailEntry → Bool
elapsed now window e = leb (e.first + window) now

abbrev pub is_open : ℕ → ℕ → FailEntry → Bool
is_open now window e = not (elapsed now window e)

unfoldable pub prune : FailTracker → ℕ → ℕ → FailTracker
prune t now window = record t { entries = Assoc.keep (is_open now window) t.entries }

abbrev pub older : Option (Bytes × ℕ) → Bytes → FailEntry → Option (Bytes × ℕ)
older none k e = some (k, e.last)
older (some (b, u)) k e = if ltb e.last u then some (k, e.last) else some (b, u)

unfoldable pub oldest : Entries → Option (Bytes × ℕ) → Option (Bytes × ℕ)
oldest [] best = best
oldest ((k, e) ∷ m) best = oldest m (older best k e)

-- `delete(t.entries, oldestKey)`: the empty key where no entry was seen.
abbrev pub oldest_key : Option (Bytes × ℕ) → Bytes
oldest_key none = []
oldest_key (some (k, u)) = k

unfoldable pub evict : FailTracker → FailTracker
evict t =
    if leb (length t.entries) t.max
    then t
    else record t { entries = Assoc.delete (oldest_key (oldest t.entries none)) t.entries }

-- The answer of `blocked` for a live entry: `int(remaining.Seconds())`, at least 1.
unfoldable pub retry_after : ℕ → ℕ → FailEntry → ℕ
retry_after now window e =
    let secs = (window - (now - e.first)) / second in if ltb secs 1 then 1 else secs

unfoldable pub blocked_entry :
    FailTracker → Bytes → ℕ → ℕ → ℕ → Option FailEntry → FailTracker × Bool × ℕ
unfolding retry_after
blocked_entry t key threshold window now none = (t, false, 0)
blocked_entry t key threshold window now (some e) =
    if elapsed now window e
    then (record t { entries = Assoc.delete key t.entries }, false, 0)
    else if ltb e.count threshold
    then (t, false, 0)
    else (t, true, retry_after now window e)

unfoldable pub blocked : FailTracker → Bytes → ℕ → ℕ → ℕ → FailTracker × Bool × ℕ
unfolding blocked_entry
blocked t key threshold window now =
    let pruned = prune t now window in
    blocked_entry pruned key threshold window now (Assoc.lookup key pruned.entries)

-- `!ok || now.Sub(e.first) >= window`
abbrev pub needs_entry : ℕ → ℕ → Option FailEntry → Bool
needs_entry now window none = true
needs_entry now window (some e) = elapsed now window e

abbrev pub fresh : ℕ → FailEntry
fresh now = record { count = 0; first = now; last = now }

abbrev pub entry_or_fresh : ℕ → ℕ → Option FailEntry → FailEntry
entry_or_fresh now window none = fresh now
entry_or_fresh now window (some e) = if elapsed now window e then fresh now else e

-- `e.count++; e.last = now` through the pointer: the map sees it if it still holds the entry.
abbrev pub bump : ℕ → FailEntry → FailEntry
bump now e = record e { count = e.count + 1; last = now }

abbrev pub write_through : FailTracker → Bytes → FailEntry → Option FailEntry → FailTracker
write_through t key e none = t
write_through t key e (some _) = record t { entries = Assoc.insert key e t.entries }

unfoldable pub fail : FailTracker → Bytes → ℕ → ℕ → FailTracker × ℕ
fail t key window now =
    let pruned = prune t now window in
    let found = Assoc.lookup key pruned.entries in
    let e = entry_or_fresh now window found in
    let added =
      if needs_entry now window found
      then evict (record pruned { entries = Assoc.insert key e pruned.entries })
      else pruned in
    (write_through added key (bump now e) (Assoc.lookup key added.entries), e.count + 1)

unfoldable pub reset : FailTracker → Bytes → FailTracker
reset t key = record t { entries = Assoc.delete key t.entries }

pub record IsValid (t : FailTracker) : Type 0 where
  pub distinct : Distinct t.entries
  pub bounded : length t.entries ≤ t.max
