-- ===== src/Api/FailTracker/Bounds.antt =====
-- The cap on tracked keys, and what an eviction can remove.
use mathlib.Core.Path.{subst}
use cogitator.Base.{
  ℕ, ◌+◌, ◌≤◌, ◌<◌, ◌≡◌, refl, sym, ◌⊎◌, inl, inr, [], ◌∷◌, Option, none, some, ltb, leb, Bool,
  true, false, length, arith, some-ne-none, Bool-cases, if◌then◌else◌,
}
use cogitator.Base.Texts.{Bytes, bytes_eq_instance}
use cogitator.Base.Assoc
use cogitator.Base.Assoc.{Distinct}
use cogitator.Api.FailTracker.{
  FailEntry, Entries, FailTracker, is_open, prune, oldest, oldest_key, evict, blocked_entry,
  blocked, needs_entry, entry_or_fresh, write_through, fail, reset, IsValid,
}

abbrev pub Updates : ℕ → Entries → Type 0
Updates u [] = Unit {0}
Updates u ((k, e) ∷ m) = (u ≤ e.last) × Updates u m

abbrev In : Bytes → ℕ → Entries → Type 0
In k u [] = ⊥
In k u ((j, e) ∷ m) = ((j ≡ k) × (e.last ≡ u)) ⊎ In k u m

-- What the loop of evictLocked finds: a least recent update, at a key of the map.
record IsOldest (m : Entries) (b : Bytes) (u : ℕ) (r : Option (Bytes × ℕ)) : Type 0 where
  key : Bytes
  update : ℕ
  found : r ≡ some (key, update)
  below : update ≤ u
  least : Updates update m
  present : ((b ≡ key) × (u ≡ update)) ⊎ In key update m

oldest-IsOldest : (m : Entries) (b : Bytes) (u : ℕ) → IsOldest m b u (oldest m (some (b, u)))
unfolding oldest
oldest-IsOldest [] b u = record {
  key = b;
  update = u;
  found = refl;
  below = omega arith;
  least = tt;
  present = inl (refl, refl);
}
oldest-IsOldest ((j, e) ∷ m) b u = elim (Bool-cases (ltb e.last u)) [
  | inl less ↦
      let o = oldest-IsOldest m j e.last in
      rw less (record {
        key = o.key;
        update = o.update;
        found = o.found;
        below = ground (arith, o.below);
        least = (o.below, o.least);
        present = inr o.present;
      })
  | inr geq ↦
      let o = oldest-IsOldest m b u in
      rw geq (record {
        key = o.key;
        update = o.update;
        found = o.found;
        below = o.below;
        least = (ground (arith, o.below), o.least);
        present = elim o.present [ inl here ↦ inl here | inr there ↦ inr (inr there) ];
      })
]

In-lookup :
    (k : Bytes) (u : ℕ) (m : Entries)
    → Distinct m
    → In k u m
    → (e : FailEntry) × (Assoc.lookup k m ≡ some e) × (e.last ≡ u)
unfolding Assoc.lookup
In-lookup k u [] d i = absurd i
In-lookup k u ((j, e) ∷ m) d (inl (same, h)) = (e, ground (arith, bytes_eq_instance.beq_iff j k), h)
In-lookup k u ((j, e) ∷ m) d (inr i) =
    let (e', found, h) = In-lookup k u m d.1 i in
    (e', ground (arith, bytes_eq_instance.beq_iff j k, found, d.0), h)

-- The tracker after an eviction: one entry is gone, and none was updated before it.
pub record Evicted (s t : FailTracker) : Type 0 where
  pub key : Bytes
  pub entry : FailEntry
  pub held : Assoc.lookup key s.entries ≡ some entry
  pub least : Updates entry.last s.entries
  pub after : t ≡ record s { entries = Assoc.delete key s.entries }

evict_from :
    (s : FailTracker) (m : Entries)
    → s.entries ≡ m
    → 0 < length m
    → Distinct m
    → Evicted s (record s { entries = Assoc.delete (oldest_key (oldest m none)) s.entries })
unfolding oldest
evict_from s [] h p d = absurd (omega arith)
evict_from s ((j, e) ∷ m) h p d =
    let o = oldest-IsOldest m j e.last in
    let (e', found, u) = In-lookup o.key o.update ((j, e) ∷ m) d o.present in
    rw (h, oldest, o.found)
      (record {
        key = o.key;
        entry = e';
        held = found;
        least = subst (λ x. Updates x ((j, e) ∷ m)) (sym u) (o.below, o.least);
        after = refl;
      })

pub evict-cases :
    (s : FailTracker)
    → Distinct s.entries
    → ((evict s ≡ s) × (length s.entries ≤ s.max)) ⊎ Evicted s (evict s)
unfolding evict
evict-cases s d = elim (Bool-cases (leb (length s.entries) s.max)) [
  | inl within ↦ inl (rw within, ground arith)
  | inr over ↦ rw over (inr (evict_from s s.entries refl (ground arith) d))
]

evict-IsValid :
    (s : FailTracker)
    → Distinct s.entries
    → length s.entries ≤ s.max + 1
    → IsValid (evict s) × ((evict s).max ≡ s.max)
evict-IsValid s d h = elim (evict-cases s d) [
  | inl (same, within) ↦ rw same (record { distinct = d; bounded = within }, refl)
  | inr r ↦ rw r.after (
    record {
      distinct = Assoc.delete-Distinct r.key s.entries d;
      bounded = omega (arith, Assoc.length-delete-lt r.key s.entries (some-ne-none r.held));
    },
    refl,
  )
]

pub prune-IsValid : (t : FailTracker) (now window : ℕ) → IsValid t → IsValid (prune t now window)
unfolding prune
prune-IsValid t now window v = record {
  distinct = Assoc.keep-Distinct (is_open now window) t.entries v.distinct;
  bounded = omega (arith, v.bounded, Assoc.length-keep-le (is_open now window) t.entries);
}

write_through-IsValid :
    (t : FailTracker) (key : Bytes) (e : FailEntry)
    → IsValid t
    → (o : Option FailEntry) → Assoc.lookup key t.entries ≡ o
    → IsValid (write_through t key e o)
write_through-IsValid t key e v none h = v
write_through-IsValid t key e v (some old) h = record {
  distinct = Assoc.insert-Distinct key e t.entries v.distinct;
  bounded = omega (arith, v.bounded, Assoc.length-insert_present key e t.entries (some-ne-none h));
}

add-IsValid :
    (t : FailTracker) (key : Bytes) (e : FailEntry)
    → IsValid t
    → IsValid (evict (record t { entries = Assoc.insert key e t.entries }))
add-IsValid t key e v =
    (evict-IsValid _ (Assoc.insert-Distinct key e t.entries v.distinct)
      (omega (arith, v.bounded, Assoc.length-insert-le key e t.entries))).0

-- `fail` keeps the tracked keys distinct and their number within the cap, for every cap.
pub fail-IsValid :
    (t : FailTracker) (key : Bytes) (window now : ℕ) → IsValid t → IsValid (fail t key window now).0
unfolding fail
fail-IsValid t key window now v =
    write_through-IsValid _ key _ (added (needs_entry now window found)) _ refl
  where
    pruned : FailTracker
    pruned = prune t now window

    found : Option FailEntry
    found = Assoc.lookup key pruned.entries

    e : FailEntry
    e = entry_or_fresh now window found

    added :
        (b : Bool)
        → IsValid (
            if b
            then evict (record pruned { entries = Assoc.insert key e pruned.entries })
            else pruned)
    added true = add-IsValid pruned key e (prune-IsValid t now window v)
    added false = prune-IsValid t now window v

delete-IsValid :
    (t : FailTracker) (key : Bytes)
    → IsValid t
    → IsValid (record t { entries = Assoc.delete key t.entries })
delete-IsValid t key v = record {
  distinct = Assoc.delete-Distinct key t.entries v.distinct;
  bounded = omega (arith, v.bounded, Assoc.length-delete-le key t.entries);
}

pub reset-IsValid : (t : FailTracker) (key : Bytes) → IsValid t → IsValid (reset t key)
unfolding reset
reset-IsValid t key v = delete-IsValid t key v

blocked_entry-IsValid :
    (t : FailTracker) (key : Bytes) (threshold window now : ℕ) (o : Option FailEntry)
    → IsValid t
    → IsValid (blocked_entry t key threshold window now o).0
unfolding blocked_entry
blocked_entry-IsValid t key threshold window now none v = v
blocked_entry-IsValid t key threshold window now (some e) v = ground (arith, delete-IsValid t key v)

-- `blocked` keeps the tracked keys distinct and their number within the cap.
pub blocked-IsValid :
    (t : FailTracker) (key : Bytes) (threshold window now : ℕ)
    → IsValid t
    → IsValid (blocked t key threshold window now).0
unfolding blocked
blocked-IsValid t key threshold window now v =
    blocked_entry-IsValid (prune t now window) key threshold window now
      (Assoc.lookup key (prune t now window).entries) (prune-IsValid t now window v)
