-- ===== src/Api/TtlStore.antt =====
-- server/internal/api/ttlstore.go: a bounded single-use store whose entries expire.
-- The mutex makes each method one step; the injected clock is the argument `now`, in nanoseconds.
pub mod Bounds
pub mod Uses
mod Tests
use cogitator.Base.{
  ℕ, ◌+◌, ◌≤◌, ◌<◌, ◌≡◌, Bool, List, [], ◌∷◌, Option, none, some, ltb, length, if◌then◌else◌,
  String,
}
use cogitator.Base.Eqs.{string_eq}
use cogitator.Base.Assoc
use cogitator.Base.Assoc.{Distinct}

pub record TtlEntry {ℓ} (V : Type ℓ) : Type ℓ where
  pub value : V
  pub expires : ℕ

pub record TtlStore {ℓ} (V : Type ℓ) : Type ℓ where
  pub entries : List (String × TtlEntry V)
  pub ttl : ℕ
  pub max : ℕ

module _ {ℓ} {V : Type ℓ} where
  pub new_ttl_store : ℕ → ℕ → TtlStore V
  new_ttl_store ttl max = record { entries = []; ttl = ttl; max = max }

  -- `now.Before(e.expires)`
  abbrev pub is_live : ℕ → TtlEntry V → Bool
  is_live now e = ltb now e.expires

  pub prune : TtlStore V → ℕ → TtlStore V
  prune s now = record s { entries = Assoc.keep (is_live now) s.entries }

  -- One round of the loop in evictOldestLocked: `none` while `first` is set.
  abbrev pub older : Option (String × ℕ) → String → TtlEntry V → Option (String × ℕ)
  older none k e = some (k, e.expires)
  older (some (b, t)) k e = if ltb e.expires t then some (k, e.expires) else some (b, t)

  pub oldest : List (String × TtlEntry V) → Option (String × ℕ) → Option (String × ℕ)
  oldest [] best = best
  oldest ((k, e) ∷ m) best = oldest m (older best k e)

  abbrev pub drop_oldest : TtlStore V → Option (String × ℕ) → TtlStore V
  drop_oldest s none = s
  drop_oldest s (some (k, t)) = record s { entries = Assoc.delete k s.entries }

  pub evict_oldest : TtlStore V → TtlStore V
  evict_oldest s = if ltb (length s.entries) s.max then s else drop_oldest s (oldest s.entries none)

  -- The branch of `set` on `_, exists := s.entries[key]`.
  abbrev pub make_room : TtlStore V → Option (TtlEntry V) → TtlStore V
  make_room s none = evict_oldest s
  make_room s (some e) = s

  pub set : TtlStore V → ℕ → String → V → TtlStore V
  set s now key value =
      let pruned = prune s now in
      let room = make_room pruned (Assoc.lookup key pruned.entries) in
      record room {
        entries = Assoc.insert key (record { value = value; expires = now + s.ttl }) room.entries;
      }

  -- The second `if` of `take`, after the entry is deleted.
  abbrev pub taken : ℕ → TtlEntry V → Option V
  taken now e = if is_live now e then some e.value else none

  abbrev pub consume : TtlStore V → ℕ → String → Option (TtlEntry V) → TtlStore V × Option V
  consume s now key none = (s, none)
  consume s now key (some e) = (record s { entries = Assoc.delete key s.entries }, taken now e)

  pub take : TtlStore V → ℕ → String → TtlStore V × Option V
  take s now key =
      let pruned = prune s now in consume pruned now key (Assoc.lookup key pruned.entries)

  -- The map's keys are distinct, and the cap holds.
  pub record IsValid (s : TtlStore V) : Type ℓ where
    pub distinct : Distinct s.entries
    pub bounded : length s.entries ≤ s.max
    pub positive : 0 < s.max
