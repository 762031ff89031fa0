-- ===== src/Api/TtlStore/Uses.antt =====
-- What `take` returns: a stored value once, until it expires.
use cogitator.Base.{
  ℕ, ◌+◌, ◌≤◌, ◌<◌, ◌≡◌, refl, ◌∙◌, ◌≢◌, Option, none, some, ltb, length, arith, String,
  if◌then◌else◌,
}
use cogitator.Base.Eqs.{string_eq}
use cogitator.Base.Assoc
use cogitator.Base.Assoc.{Distinct, keep_option}
use cogitator.Api.TtlStore.{
  TtlEntry, TtlStore, is_live, prune, evict_oldest, make_room, set, consume, take, IsValid,
}
use cogitator.Api.TtlStore.Bounds.{set-IsValid}

module _ {ℓ} {V : Type ℓ} where
  -- The value that a reader at the time `now` should see.
  abbrev pub visible : ℕ → Option (TtlEntry V) → Option V
  visible now none = none
  visible now (some e) = if ltb now e.expires then some e.value else none

  consume-visible :
      (s : TtlStore V) (now : ℕ) (key : String) (o : Option (TtlEntry V))
      → (consume s now key (keep_option (is_live now) o)).1 ≡ visible now o
  consume-visible s now key none = refl
  consume-visible s now key (some e) = ground arith

  -- `take` returns the value stored at the key if its expiry lies after `now`, and nothing if the
  -- key is missing or has expired.
  pub take_result :
      (s : TtlStore V) (now : ℕ) (key : String)
      → IsValid s
      → (take s now key).1 ≡ visible now (Assoc.lookup key s.entries)
  unfolding take prune
  take_result s now key v =
      rw (Assoc.lookup-keep (is_live now) key s.entries v.distinct)
        (consume-visible (prune s now) now key (Assoc.lookup key s.entries))

  consume-gone :
      (s : TtlStore V) (now : ℕ) (key : String) (o : Option (TtlEntry V))
      → Assoc.lookup key s.entries ≡ o
      → Assoc.lookup key (consume s now key o).0.entries ≡ none
  consume-gone s now key none h = h
  consume-gone s now key (some e) h =
      ground (arith, Assoc.lookup-delete key key s.entries, string_eq.beq_iff key key)

  take_absent :
      (s : TtlStore V) (now : ℕ) (key : String)
      → Assoc.lookup key s.entries ≡ none
      → (take s now key).1 ≡ none
  unfolding take prune
  take_absent s now key gone = rw (Assoc.lookup-keep-none (is_live now) key s.entries gone) refl

  take-gone :
      (s : TtlStore V) (now : ℕ) (key : String) → Assoc.lookup key (take s now key).0.entries ≡ none
  unfolding take
  take-gone s now key = consume-gone (prune s now) now key _ refl

  -- A value that was asked for is gone, whether it was there or not.
  pub take_again :
      (s : TtlStore V) (now later : ℕ) (key : String) → (take (take s now key).0 later key).1 ≡ none
  take_again s now later key = take_absent (take s now key).0 later key (take-gone s now key)

  lookup-set :
      (s : TtlStore V) (now : ℕ) (key : String) (value : V)
      → Assoc.lookup key (set s now key value).entries
        ≡ some (record { value = value; expires = now + s.ttl })
  unfolding set
  lookup-set s now key value =
      Assoc.lookup-insert key key _ _ ∙ ground (arith, string_eq.beq_iff key key)

  -- A value stored by `set` comes back from `take` exactly while the time of the read lies before
  -- the expiry, and after one `take`, whatever it returned, a later `take` of the key finds nothing.
  pub set-take_once :
      (s : TtlStore V) (now read later : ℕ) (key : String) (value : V)
      → IsValid s
      → let stored = set s now key value in
        ((take stored read key).1 ≡ (if ltb read (now + s.ttl) then some value else none))
        × ((take (take stored read key).0 later key).1 ≡ none)
  set-take_once s now read later key value v =
      let w = set-IsValid s now key value v in
      (
        take_result (set s now key value) read key w ∙ rw (lookup-set s now key value) refl,
        take_again (set s now key value) read later key,
      )

  room-others :
      (s : TtlStore V) (o : Option (TtlEntry V)) → length s.entries < s.max → make_room s o ≡ s
  unfolding evict_oldest
  room-others s none h = ground arith
  room-others s (some e) h = refl

  -- Below the cap, `set` leaves every other key as readers at `now` or later see it.
  pub set_others :
      (s : TtlStore V) (now later : ℕ) (key other : String) (value : V)
      → IsValid s
      → length s.entries < s.max
      → key ≢ other
      → now ≤ later
      → visible later (Assoc.lookup other (set s now key value).entries)
        ≡ visible later (Assoc.lookup other s.entries)
  unfolding set prune
  set_others s now later key other value v room ne le =
      rw (room-others (prune s now) (Assoc.lookup key (prune s now).entries) fits) (
        rw (Assoc.lookup-insert key other _ (Assoc.keep (is_live now) s.entries)) (
          rw (Assoc.lookup-keep (is_live now) other s.entries v.distinct)
            (unmatched (Assoc.lookup other s.entries))))
    where
      fits : length (prune s now).entries < s.max
      fits = omega (arith, room, Assoc.length-keep-le (is_live now) s.entries)

      unmatched :
          (o : Option (TtlEntry V))
          → visible later (
              if string_eq.beq key other
              then some (record { value = value; expires = now + s.ttl })
              else keep_option (is_live now) o)
            ≡ visible later o
      unmatched none = ground (arith, string_eq.beq_iff key other)
      unmatched (some e) = ground (arith, string_eq.beq_iff key other)
