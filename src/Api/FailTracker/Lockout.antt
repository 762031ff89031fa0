-- ===== src/Api/FailTracker/Lockout.antt =====
-- When a key is locked out: the counts of `fail`, the answers of `blocked`, and `reset`.
use cogitator.Base.{
  ℕ, ◌+◌, ◌-◌, ◌*◌, ◌/◌, ◌≤◌, ◌<◌, ◌≡◌, refl, ◌∙◌, ◌⊎◌, inl, inr, List, [], ◌∷◌, Option, none, some,
  Bool, true, false, ◌&&◌, ltb, leb, length, arith, Bool-cases, All, if◌then◌else◌,
}
use cogitator.Base.Texts.{Bytes, bytes_eq_instance}
use cogitator.Base.Assoc
use cogitator.Base.Assoc.{Distinct, keep_option}
use cogitator.Api.FailTracker.{
  FailEntry, FailTracker, second, elapsed, is_open, prune, evict, retry_after, blocked_entry,
  blocked, fresh, bump, fail, reset, IsValid,
}
use cogitator.Api.FailTracker.Bounds.{fail-IsValid, reset-IsValid}

lookup-prune :
    (t : FailTracker) (now window : ℕ) (key : Bytes)
    → IsValid t
    → Assoc.lookup key (prune t now window).entries
      ≡ keep_option (is_open now window) (Assoc.lookup key t.entries)
unfolding prune
lookup-prune t now window key v = Assoc.lookup-keep (is_open now window) key t.entries v.distinct

-- An independent reading of the lock: a live entry with at least `threshold` failures.
abbrev pub locked : ℕ → ℕ → ℕ → Option FailEntry → Bool
locked threshold window now none = false
locked threshold window now (some e) = ltb now (e.first + window) && leb threshold e.count

blocked_entry-locked :
    (t : FailTracker) (key : Bytes) (threshold window now : ℕ) (o : Option FailEntry)
    → (blocked_entry t key threshold window now (keep_option (is_open now window) o)).1
      ≡ locked threshold window now o
unfolding blocked_entry
blocked_entry-locked t key threshold window now none = refl
blocked_entry-locked t key threshold window now (some e) = ground arith

-- `blocked` answers true exactly when the key has an entry whose window has not elapsed and whose
-- count has reached the threshold.
pub blocked-locked :
    (t : FailTracker) (key : Bytes) (threshold window now : ℕ)
    → IsValid t
    → (blocked t key threshold window now).1
      ≡ locked threshold window now (Assoc.lookup key t.entries)
unfolding blocked
blocked-locked t key threshold window now v =
    rw (lookup-prune t now window key v) (blocked_entry-locked _ key threshold window now _)

retry_after_pos : (now window : ℕ) (e : FailEntry) → 0 < retry_after now window e
unfolding retry_after
retry_after_pos now window e = ground arith

retry_after_le :
    (now window : ℕ) (e : FailEntry)
    → (retry_after now window e ≡ 1)
      ⊎ (retry_after now window e * second ≤ window - (now - e.first))
unfolding retry_after
retry_after_le now window e =
    let secs = (window - (now - e.first)) in
    elim (Bool-cases (ltb (secs / second) 1)) [
      | inl short ↦ rw short (inl refl)
      | inr long ↦ rw long (inr (omega arith))
    ]

-- What a caller may read off the number of seconds `r`.
abbrev pub Advises : ℕ → ℕ → ℕ → Option FailEntry → Type 0
Advises r now window none = r ≡ 0
Advises r now window (some e) =
    (0 < r) × ((r ≡ 1) ⊎ (r * second ≤ e.first + window - now) ⊎ (now < e.first))

abbrev pub Advised : ℕ → ℕ → Option FailEntry → Bool → ℕ → Type 0
Advised now window o true r = Advises r now window o
Advised now window o false r = r ≡ 0

retry_after-Advises :
    (now window : ℕ) (e : FailEntry) → Advises (retry_after now window e) now window (some e)
retry_after-Advises now window e = elim (retry_after_le now window e) [
  | inl one ↦ (retry_after_pos now window e, inl one)
  | inr le ↦ (retry_after_pos now window e, inr (omega (arith, le)))
]

blocked_entry-Advised :
    (t : FailTracker) (key : Bytes) (threshold window now : ℕ) (o : Option FailEntry)
    → let r = blocked_entry t key threshold window now (keep_option (is_open now window) o) in
      Advised now window o r.1 r.2
unfolding blocked_entry
blocked_entry-Advised t key threshold window now none = refl
blocked_entry-Advised t key threshold window now (some e) =
    elim (Bool-cases (elapsed now window e)) [
      | inl over ↦ rw over refl
      | inr live ↦
          rw (live, live)
            (elim (Bool-cases (ltb e.count threshold)) [
              | inl few ↦ rw few refl
              | inr many ↦ rw many (retry_after-Advises now window e)
            ])
    ]

-- The number of seconds is 0 where `blocked` answers false. Where it answers true it is positive,
-- and it is 1 or ends no later than the lock, unless the clock stands before the first failure.
pub blocked-Advised :
    (t : FailTracker) (key : Bytes) (threshold window now : ℕ)
    → IsValid t
    → let r = blocked t key threshold window now in
      Advised now window (Assoc.lookup key t.entries) r.1 r.2
unfolding blocked
blocked-Advised t key threshold window now v = rw (lookup-prune t now window key v) (
    blocked_entry-Advised (prune t now window) key threshold window now
      (Assoc.lookup key t.entries))

locked-reset :
    (threshold window now : ℕ) (same : Bool) (o : Option FailEntry)
    → locked threshold window now (if same then none else o)
      ≡ (if same then false else locked threshold window now o)
locked-reset threshold window now true o = refl
locked-reset threshold window now false o = refl

-- `reset` unlocks its key, whatever the threshold, the window and the time, and no other key.
pub blocked-reset :
    (t : FailTracker) (key other : Bytes) (threshold window now : ℕ)
    → IsValid t
    → (blocked (reset t key) other threshold window now).1 ≡ (
        if bytes_eq_instance.beq key other then false else (blocked t other threshold window now).1)
unfolding reset
blocked-reset t key other threshold window now v =
    rw
      (
        blocked-locked _ other threshold window now (reset-IsValid t key v),
        blocked-locked t other threshold window now v,
      )
      (rw (reset, Assoc.lookup-delete key other t.entries)
        (locked-reset threshold window now _ (Assoc.lookup other t.entries)))

no_eviction : (t : FailTracker) → length t.entries ≤ t.max → evict t ≡ t
unfolding evict
no_eviction t h = ground arith

fits :
    (now window : ℕ) (t : FailTracker) (key : Bytes) (e : FailEntry)
    → length t.entries < t.max
    → length (Assoc.insert key e (prune t now window).entries) ≤ (prune t now window).max
unfolding prune
fits now window t key e h = omega (
  arith,
  Assoc.length-insert-le key e (Assoc.keep (is_open now window) t.entries),
  Assoc.length-keep-le (is_open now window) t.entries,
)

-- A failure on a key with a live entry is counted there and keeps the start of the window.
fail_live :
    (t : FailTracker) (key : Bytes) (window now : ℕ) (e : FailEntry)
    → IsValid t
    → Assoc.lookup key t.entries ≡ some e
    → now < e.first + window
    → (Assoc.lookup key (fail t key window now).0.entries ≡ some (bump now e))
      × ((fail t key window now).1 ≡ e.count + 1)
unfolding fail
fail_live t key window now e v h live =
    let found : Assoc.lookup key (prune t now window).entries ≡ some e =
      lookup-prune t now window key v ∙ rw h (ground arith) in
    let open_window : elapsed now window e ≡ false = ground arith in
    rw (found, open_window, found)
      (
        ground (
          arith,
          Assoc.lookup-insert key key (bump now e) (prune t now window).entries,
          bytes_eq_instance.beq_iff key key,
        ),
        refl,
      )

-- The failures of a key at the given times, in order.
pub fail_all : FailTracker → Bytes → ℕ → List ℕ → FailTracker
fail_all t key window [] = t
fail_all t key window (now ∷ times) = fail_all (fail t key window now).0 key window times

-- What the key's entry is afterwards.
abbrev after_failures : FailEntry → List ℕ → FailEntry
after_failures e [] = e
after_failures e (now ∷ times) = after_failures (bump now e) times

fail_all_live :
    (t : FailTracker) (key : Bytes) (window : ℕ) (e : FailEntry) (times : List ℕ)
    → IsValid t
    → Assoc.lookup key t.entries ≡ some e
    → All (λ now. now < e.first + window) times
    → IsValid (fail_all t key window times)
      × (Assoc.lookup key (fail_all t key window times).entries ≡ some (after_failures e times))
unfolding fail_all
fail_all_live t key window e [] v h live = (v, h)
fail_all_live t key window e (now ∷ times) v h live =
    fail_all_live (fail t key window now).0 key window (bump now e) times
      (fail-IsValid t key window now v) (fail_live t key window now e v h live.0).0 live.1

after_failures_fields :
    (e : FailEntry) (times : List ℕ)
    → ((after_failures e times).first ≡ e.first)
      × ((after_failures e times).count ≡ e.count + length times)
after_failures_fields e [] = omega arith
after_failures_fields e (now ∷ times) = omega (arith, after_failures_fields (bump now e) times)

-- From a live entry, any number of further failures inside its window locks the key exactly when
-- the total count reaches the threshold, for as long as the window lasts.
pub failures_lock :
    (t : FailTracker) (key : Bytes) (threshold window : ℕ) (e : FailEntry) (times : List ℕ)
    (now : ℕ)
    → IsValid t
    → Assoc.lookup key t.entries ≡ some e
    → All (λ at. at < e.first + window) times
    → (blocked (fail_all t key window times) key threshold window now).1
      ≡ (ltb now (e.first + window) && leb threshold (e.count + length times))
failures_lock t key threshold window e times now v h live =
    let (w, found) = fail_all_live t key window e times v h live in
    let (first, count) = after_failures_fields e times in
    rw (blocked-locked _ key threshold window now w, found, first, count) refl

fail_fresh :
    (t : FailTracker) (key : Bytes) (window now : ℕ)
    → IsValid t
    → length t.entries < t.max
    → Assoc.lookup key t.entries ≡ none
    → (Assoc.lookup key (fail t key window now).0.entries ≡ some (bump now (fresh now)))
      × ((fail t key window now).1 ≡ 1)
unfolding fail
fail_fresh t key window now v room h =
    let found : Assoc.lookup key (prune t now window).entries ≡ none =
      lookup-prune t now window key v ∙ rw h refl in
    let kept = no_eviction _ (fits now window t key (fresh now) room) in
    let same = bytes_eq_instance.beq_iff key key in
    let stored = Assoc.lookup-insert key key (fresh now) (prune t now window).entries in
    let held : Assoc.lookup key (Assoc.insert key (fresh now) (prune t now window).entries)
        ≡ some (fresh now) =
      ground (arith, stored, same) in
    rw (found, kept, held)
      (
        ground (
          arith,
          same,
          Assoc.lookup-insert key key (bump now (fresh now))
              (Assoc.insert key (fresh now) (prune t now window).entries),
        ),
        refl,
      )

-- A key without an entry, in a tracker below its cap, is locked after `length times + 1` failures
-- inside one window exactly when that number reaches the threshold, until the window ends.
pub failures_lock_fresh :
    (t : FailTracker) (key : Bytes) (threshold window start : ℕ) (times : List ℕ) (now : ℕ)
    → IsValid t
    → length t.entries < t.max
    → Assoc.lookup key t.entries ≡ none
    → All (λ at. at < start + window) times
    → (blocked (fail_all t key window (start ∷ times)) key threshold window now).1
      ≡ (ltb now (start + window) && leb threshold (1 + length times))
unfolding fail_all
failures_lock_fresh t key threshold window start times now v room h inside =
    failures_lock (fail t key window start).0 key threshold window (bump start (fresh start)) times
      now (fail-IsValid t key window start v) (fail_fresh t key window start v room h).0 inside
