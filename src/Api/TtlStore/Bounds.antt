-- ===== src/Api/TtlStore/Bounds.antt =====
-- The size bound of the store, and which entry an eviction removes.
use cogitator.Base.{
  ℕ, ◌≤◌, ◌<◌, ◌≡◌, refl, sym, ◌⊎◌, inl, inr, List, [], ◌∷◌, Option, none, some, ltb, length, arith,
  String, some-ne-none, Bool-cases,
}
use mathlib.Core.Path.{subst}
use cogitator.Base.Eqs.{string_eq}
use cogitator.Base.Assoc
use cogitator.Base.Assoc.{Distinct}
use cogitator.Api.TtlStore.{
  TtlEntry, TtlStore, is_live, prune, oldest, drop_oldest, evict_oldest, make_room, set, consume,
  take, IsValid,
}

module _ {ℓ} {V : Type ℓ} where
  abbrev pub Expiries : ℕ → List (String × TtlEntry V) → Type 0
  Expiries u [] = Unit {0}
  Expiries u ((k, e) ∷ m) = (u ≤ e.expires) × Expiries u m

  -- Some entry of the list has the key and the expiry.
  abbrev In : String → ℕ → List (String × TtlEntry V) → Type 0
  In k t [] = ⊥
  In k t ((j, e) ∷ m) = ((j ≡ k) × (e.expires ≡ t)) ⊎ In k t m

  -- What the loop of evictOldestLocked finds: an earliest expiry, at a key of the map.
  record IsOldest (m : List (String × TtlEntry V)) (b : String) (t : ℕ) (r : Option (String × ℕ))
      : Type ℓ where
    key : String
    expiry : ℕ
    found : r ≡ some (key, expiry)
    below : expiry ≤ t
    least : Expiries expiry m
    present : ((b ≡ key) × (t ≡ expiry)) ⊎ In key expiry m

  oldest-IsOldest :
      (m : List (String × TtlEntry V)) (b : String) (t : ℕ)
      → IsOldest m b t (oldest m (some (b, t)))
  unfolding oldest
  oldest-IsOldest [] b t = record {
    key = b;
    expiry = t;
    found = refl;
    below = omega arith;
    least = tt;
    present = inl (refl, refl);
  }
  oldest-IsOldest ((j, e) ∷ m) b t = elim (Bool-cases (ltb e.expires t)) [
    | inl less ↦
        let o = oldest-IsOldest m j e.expires in
        rw less (record {
          key = o.key;
          expiry = o.expiry;
          found = o.found;
          below = ground (arith, o.below);
          least = (o.below, o.least);
          present = inr o.present;
        })
    | inr geq ↦
        let o = oldest-IsOldest m b t in
        rw geq (record {
          key = o.key;
          expiry = o.expiry;
          found = o.found;
          below = o.below;
          least = (ground (arith, o.below), o.least);
          present = elim o.present [ inl here ↦ inl here | inr there ↦ inr (inr there) ];
        })
  ]

  In-lookup :
      (k : String) (t : ℕ) (m : List (String × TtlEntry V))
      → Distinct m
      → In k t m
      → (e : TtlEntry V) × (Assoc.lookup k m ≡ some e) × (e.expires ≡ t)
  unfolding Assoc.lookup
  In-lookup k t [] d i = absurd i
  In-lookup k t ((j, e) ∷ m) d (inl (same, u)) = (e, ground (arith, string_eq.beq_iff j k), u)
  In-lookup k t ((j, e) ∷ m) d (inr i) =
      let (e', found, u) = In-lookup k t m d.1 i in
      (e', ground (arith, string_eq.beq_iff j k, found, d.0), u)

  -- The store after an eviction: one entry is gone, and no entry expires before it.
  pub record Evicted (s t : TtlStore V) : Type ℓ where
    pub key : String
    pub entry : TtlEntry V
    pub held : Assoc.lookup key s.entries ≡ some entry
    pub least : Expiries entry.expires s.entries
    pub after : t ≡ record s { entries = Assoc.delete key s.entries }

  drop_oldest-Evicted :
      (s : TtlStore V) (m : List (String × TtlEntry V))
      → s.entries ≡ m
      → 0 < length m
      → Distinct m
      → Evicted s (drop_oldest s (oldest s.entries none))
  unfolding oldest
  drop_oldest-Evicted s [] h p d = absurd (omega arith)
  drop_oldest-Evicted s ((j, e) ∷ m) h p d =
      let o = oldest-IsOldest m j e.expires in
      let (e', found, u) = In-lookup o.key o.expiry ((j, e) ∷ m) d o.present in
      rw (h, oldest, o.found)
        (record {
          key = o.key;
          entry = e';
          held = found;
          least = subst (λ x. Expiries x ((j, e) ∷ m)) (sym u) (o.below, o.least);
          after = refl;
        })

  -- On a valid store at capacity, evictOldestLocked removes exactly one entry, and no entry of the
  -- store expires before it.
  pub evict_oldest-Evicted :
      (s : TtlStore V) → IsValid s → s.max ≤ length s.entries → Evicted s (evict_oldest s)
  unfolding evict_oldest
  evict_oldest-Evicted s v full =
      let r = drop_oldest-Evicted s s.entries refl (omega (arith, v.positive)) v.distinct in
      elim (Bool-cases (ltb (length s.entries) s.max)) [
        | inl below ↦ absurd (ground arith)
        | inr above ↦ rw above r
      ]

  evict_oldest-cases :
      (s : TtlStore V)
      → IsValid s
      → ((evict_oldest s ≡ s) × (length s.entries < s.max)) ⊎ Evicted s (evict_oldest s)
  unfolding evict_oldest
  evict_oldest-cases s v = elim (Bool-cases (ltb (length s.entries) s.max)) [
    | inl below ↦ inl (rw below, ground arith)
    | inr above ↦ inr (evict_oldest-Evicted s v (ground arith))
  ]

  -- After the eviction there is room for one entry.
  evict_oldest-room :
      (s : TtlStore V)
      → IsValid s
      → Distinct (evict_oldest s).entries
        × (length (evict_oldest s).entries < s.max)
        × ((evict_oldest s).max ≡ s.max)
  evict_oldest-room s v = elim (evict_oldest-cases s v) [
    | inl (same, room) ↦ rw same (v.distinct, room, refl)
    | inr r ↦ rw r.after (
      Assoc.delete-Distinct r.key s.entries v.distinct,
      omega (arith, v.bounded, Assoc.length-delete-lt r.key s.entries (some-ne-none r.held)),
      refl,
    )
  ]

  pub prune-IsValid : (s : TtlStore V) (now : ℕ) → IsValid s → IsValid (prune s now)
  unfolding prune
  prune-IsValid s now v = record {
    distinct = Assoc.keep-Distinct (is_live now) s.entries v.distinct;
    bounded = omega (arith, v.bounded, Assoc.length-keep-le (is_live now) s.entries);
    positive = v.positive;
  }

  insert-IsValid :
      (s : TtlStore V) (key : String) (e : TtlEntry V)
      → IsValid s
      → (o : Option (TtlEntry V)) → Assoc.lookup key s.entries ≡ o
      → IsValid (record (make_room s o) { entries = Assoc.insert key e (make_room s o).entries })
  insert-IsValid s key e v none h =
      let (distinct, room, cap) = evict_oldest-room s v in
      record {
        distinct = Assoc.insert-Distinct key e _ distinct;
        bounded = omega (arith, room, cap, Assoc.length-insert-le key e (evict_oldest s).entries);
        positive = omega (arith, v.positive, cap);
      }
  insert-IsValid s key e v (some old) h = record {
    distinct = Assoc.insert-Distinct key e _ v.distinct;
    bounded =
        omega (arith, v.bounded, Assoc.length-insert_present key e s.entries (some-ne-none h));
    positive = v.positive;
  }

  -- `set` on a valid store, whose cap is positive, gives a valid store: the keys stay distinct and
  -- the number of entries stays within the cap, whether the key is new or not.
  pub set-IsValid :
      (s : TtlStore V) (now : ℕ) (key : String) (v : V) → IsValid s → IsValid (set s now key v)
  unfolding set
  set-IsValid s now key value v = insert-IsValid (prune s now) key _ (prune-IsValid s now v) _ refl

  -- `take` on a valid store gives a valid store.
  pub take-IsValid :
      (s : TtlStore V) (now : ℕ) (key : String) → IsValid s → IsValid (take s now key).0
  unfolding take
  take-IsValid s now key v = after (Assoc.lookup key (prune s now).entries)
    where
      w : IsValid (prune s now)
      w = prune-IsValid s now v

      after : (o : Option (TtlEntry V)) → IsValid (consume (prune s now) now key o).0
      after none = w
      after (some e) = record {
        distinct = Assoc.delete-Distinct key _ w.distinct;
        bounded = omega (arith, w.bounded, Assoc.length-delete-le key (prune s now).entries);
        positive = w.positive;
      }
