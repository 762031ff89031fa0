-- ===== src/Session/Active.antt =====
-- The active session of a channel and a user.
use mathlib.Core.Path.{subst, ap, ◌∙◌}
use mathlib.Core.Option.{some_inj}
use cogitator.Base.{
  ◌≡◌, refl, Bool, true, false, ◌&&◌, inl, inr, List, [], ◌∷◌, some, arith, anyb, filterb, map,
  Bool-cases, String,
}
use cogitator.Base.Eqs.{string_eq}
use cogitator.Base.Results.{ok}
use cogitator.Base.Rows.{first_where, update_where, Unique}
use cogitator.Session.{
  Store, Session, get, set_active_session, has_key, owned, on_channel, or_no_rows,
}

module _ (key channel user_id : String) where
  -- The two updates of the table.
  abbrev switched : List Session → List Session
  switched xs =
      update_where (has_key key) (λ t. record t { is_active = true })
        (update_where (on_channel channel user_id) (λ t. record t { is_active = false }) xs)

  abbrev pub is_current : Session → Bool
  is_current t = t.is_active && on_channel channel user_id t

  none_current :
      (xs : List Session) → anyb (has_key key) xs ≡ false → filterb is_current (switched xs) ≡ []
  none_current [] h = refl
  none_current (t ∷ xs) h =
      let other : has_key key t ≡ false = ground (arith, h) in
      let rest = none_current xs (ground (arith, h)) in
      elim (Bool-cases (on_channel channel user_id t)) [
        | inl on ↦ rw (on, other) rest
        | inr off ↦
            let idle : is_current t ≡ false = ground (arith, off) in rw (off, other, idle) rest
      ]

  found_key :
      (xs : List Session) {sess : Session}
      → first_where (λ t. has_key key t && owned user_id t) xs ≡ some sess
      → anyb (has_key key) xs ≡ true
  found_key [] h = absurd cc
  found_key (t ∷ xs) h = elim (Bool-cases (has_key key t && owned user_id t)) [
    | inl here ↦ ground (arith, here)
    | inr there ↦ ground (arith, found_key xs (rw there at h))
  ]

  -- Where the session is found by its key and owner on the channel, it is the only current one.
  one_current :
      (xs : List Session) {sess : Session}
      → Unique (λ (t : Session). t.key) xs
      → first_where (λ t. has_key key t && owned user_id t) xs ≡ some sess
      → sess.channel ≡ channel
      → map (λ t. t.key) (filterb is_current (switched xs)) ≡ key ∷ []
  one_current [] unique h c = absurd cc
  one_current (t ∷ xs) {sess} unique h c = elim (Bool-cases (has_key key t)) [
    | inr other ↦
        let rest = one_current xs unique.1 (rw other at h) c in
        elim (Bool-cases (on_channel channel user_id t)) [
          | inl on ↦ rw (on, other) rest
          | inr off ↦
              let idle : is_current t ≡ false = ground (arith, off) in rw (off, other, idle) rest
        ]
    | inl here ↦
        let gone : anyb (has_key key) xs ≡ false =
          subst (λ k. anyb (has_key k) xs ≡ false) ((string_eq.beq_iff t.key key).0 here)
            unique.0 in
        elim (Bool-cases (owned user_id t)) [
          | inr foreign ↦
              let later : first_where (λ t. has_key key t && owned user_id t) xs ≡ some sess =
                rw (here, foreign) at h in
              absurd (ground (arith, gone, found_key xs later))
          | inl own ↦
              let same : t ≡ sess = some_inj.0 (rw (here, own) at h) in
              let chan : t.channel ≡ channel = ap (λ (t : Session). t.channel) same ∙ c in
              let on : on_channel channel user_id t ≡ true =
                ground (arith, own, (string_eq.beq_iff t.channel channel).1 chan) in
              rw (on, here)
                (rw (none_current xs gone, on)
                  (ap (λ k. k ∷ []) ((string_eq.beq_iff t.key key).0 here)))
        ]
  ]

-- Where keys are unique, the session that a user makes active is then the only active one of the
-- user on its channel, whichever were active before.
pub set_active-one :
    (s : Store) (key user_id : String) (sess : Session)
    → Unique (λ (t : Session). t.key) s.sessions
    → get s key user_id ≡ ok sess
    → map
        (λ t. t.key)
        (filterb
          (is_current key sess.channel user_id)
          (set_active_session s key user_id).0.sessions)
      ≡ key ∷ []
unfolding set_active_session get
set_active-one s key user_id sess unique h =
    rw h (one_current key sess.channel user_id s.sessions unique (found s.sessions h) refl)
  where
    found :
        (xs : List Session) {t : Session}
        → or_no_rows (first_where (λ t. has_key key t && owned user_id t) xs) ≡ ok t
        → first_where (λ t. has_key key t && owned user_id t) xs ≡ some t
    found [] h = absurd cc
    found (x ∷ xs) h = elim (Bool-cases (has_key key x && owned user_id x)) [
      | inl here ↦ rw here (cc (rw here at h))
      | inr there ↦ rw there (found xs (rw there at h))
    ]
