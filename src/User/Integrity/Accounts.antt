-- ===== src/User/Integrity/Accounts.antt =====
-- The calls that change the table of the accounts keep the integrity.
use mathlib.Core.Path.{subst}
use cogitator.Base.{
  ℕ, ◌≡◌, refl, Bool, false, not, ◌||◌, ◌&&◌, inl, inr, List, [], ◌∷◌, ◌++◌, Option, none, some,
  arith, anyb, All, All-weaken, Bool-cases, String,
}
use cogitator.Base.Eqs.{string_eq, pair_eq, ◌===◌}
use cogitator.Base.Texts.{Bytes, bytes_eq_instance}
use cogitator.Base.Rows.{
  update_where, delete_where, anyb-append, anyb-update_where, Unique, Unique-snoc,
  Unique-delete_where, Unique-update_where,
}
use cogitator.User.{
  User, InviteCode, RefreshToken, OauthLink, Store, has_id, has_email, insert_user, update_by_id,
  update_email, delete, names_user,
}
use cogitator.User.Integrity.{IsThere, IsRedeemer, IsValid, pair_of}

-- A change of the accounts under which each account that was there still is.
module _ (s : Store) (users : List User)
    (kept : (id : String) → IsThere s.users id → IsThere users id) where
  IsRedeemer-kept : (o : Option String) → IsRedeemer s.users o → IsRedeemer users o
  IsRedeemer-kept none h = tt
  IsRedeemer-kept (some id) h = kept id h

  with_users :
      Unique (λ (u : User). u.id) users
      → Unique (λ (u : User). u.email) users
      → IsValid s
      → IsValid (record s { users = users })
  with_users ids emails v = record {
    ids = ids;
    emails = emails;
    codes = v.codes;
    hashes = v.hashes;
    pairs = v.pairs;
    creators =
        All-weaken (λ (c : InviteCode). IsThere s.users c.created_by)
          (λ (c : InviteCode). IsThere users c.created_by) s.invites (λ c. kept c.created_by)
          v.creators;
    redeemers =
        All-weaken (λ (c : InviteCode). IsRedeemer s.users c.redeemed_by)
          (λ (c : InviteCode). IsRedeemer users c.redeemed_by) s.invites
          (λ c. IsRedeemer-kept c.redeemed_by) v.redeemers;
    token_users =
        All-weaken (λ (t : RefreshToken). IsThere s.users t.user_id)
          (λ (t : RefreshToken). IsThere users t.user_id) s.tokens (λ t. kept t.user_id)
          v.token_users;
    link_users =
        All-weaken (λ (l : OauthLink). IsThere s.users l.user_id)
          (λ (l : OauthLink). IsThere users l.user_id) s.links (λ l. kept l.user_id) v.link_users;
    other_users = All-weaken (IsThere s.users) (IsThere users) s.others kept v.other_users;
  }

pub insert_user-IsValid : (s : Store) (u : User) → IsValid s → IsValid (insert_user s u).0
unfolding insert_user
insert_user-IsValid s u v =
    elim (Bool-cases (anyb (has_id u.id) s.users || anyb (has_email u.email) s.users)) [
      | inl taken ↦ rw taken v
      | inr free ↦ rw free (
          with_users s (s.users ++ u ∷ [])
            (λ id h. ground (arith, anyb-append (has_id id) s.users (u ∷ []), h))
            (Unique-snoc (λ (u : User). u.id) s.users u v.ids (ground (arith, free)))
            (Unique-snoc (λ (u : User). u.email) s.users u v.emails (ground (arith, free))) v)
    ]

-- An update that leaves the id and the email alone.
pub update_by_id-IsValid :
    (s : Store) (id : String) (f : User → User)
    → ((u : User) → (f u).id ≡ u.id)
    → ((u : User) → (f u).email ≡ u.email)
    → IsValid s
    → IsValid (update_by_id s id f).0
unfolding update_by_id
update_by_id-IsValid s id f same_id same_email v = elim (Bool-cases (anyb (has_id id) s.users)) [
  | inl here ↦ rw here (
      with_users s (update_where (has_id id) f s.users)
        (λ k h. rw (anyb-update_where (has_id id) (has_id k) f s.users (λ u. rw (same_id u))) h)
        (Unique-update_where (λ (u : User). u.id) (has_id id) f s.users same_id v.ids)
        (Unique-update_where (λ (u : User). u.email) (has_id id) f s.users same_email v.emails) v)
  | inr missing ↦ rw missing v
]

abbrev taken : String → Bytes → User → Bool
taken id email u = has_email email u && not (has_id id u)

-- The row `id` gets the email, which no other row has.
module _ (id : String) (email : Bytes) (f : User → User)
    (sets : (u : User) → (f u).email ≡ email) where
  update_miss : (us : List User) → anyb (has_id id) us ≡ false → update_where (has_id id) f us ≡ us
  update_miss [] h = refl
  update_miss (u ∷ us) h = elim (Bool-cases (has_id id u)) [
    | inl here ↦ absurd (ground (arith, h, here))
    | inr there ↦ rw there (rw (update_miss us (ground (arith, h))))
  ]

  free_elsewhere :
      (us : List User)
      → anyb (has_id id) us ≡ false
      → anyb (taken id email) us ≡ false
      → anyb (has_email email) us ≡ false
  free_elsewhere [] h t = refl
  free_elsewhere (u ∷ us) h t = ground (arith, free_elsewhere us)

  other_email :
      (us : List User) (own : Bytes)
      → anyb (has_email own) us ≡ false
      → (email === own) ≡ false
      → anyb (has_email own) (update_where (has_id id) f us) ≡ false
  other_email [] own h d = refl
  other_email (u ∷ us) own h d = elim (Bool-cases (has_id id u)) [
    | inl here ↦ rw (here, sets u, d) (other_email us own (ground (arith, h)) d)
    | inr there ↦ rw there (ground (arith, h, other_email us own))
  ]

  pub Unique-email :
      (us : List User)
      → Unique (λ (u : User). u.id) us
      → Unique (λ (u : User). u.email) us
      → anyb (taken id email) us ≡ false
      → Unique (λ (u : User). u.email) (update_where (has_id id) f us)
  Unique-email [] i e t = tt
  Unique-email (u ∷ us) i e t = elim (Bool-cases (has_id id u)) [
    | inl here ↦
        let gone : anyb (has_id id) us ≡ false =
          subst (λ k. anyb (has_id k) us ≡ false) ((string_eq.beq_iff u.id id).0 here) i.0 in
        rw (here, update_miss us gone, sets u) (free_elsewhere us gone (ground (arith, t)), e.1)
    | inr there ↦
        let differs : (email === u.email) ≡ false = ground (
          arith,
          t,
          there,
          bytes_eq_instance.beq_iff email u.email,
          bytes_eq_instance.beq_iff u.email email,
        ) in
        rw there (other_email us u.email e.0 differs, Unique-email us i.1 e.1 (ground (arith, t)))
  ]

abbrev stamped : Bytes → ℕ → User → User
stamped email now u = record u { email = email; updated_at = now }

pub update_email-IsValid :
    (s : Store) (id : String) (email : Bytes) (now : ℕ)
    → IsValid s
    → IsValid (update_email s id email now).0
unfolding update_email update_by_id
update_email-IsValid s id email now v = elim (Bool-cases (anyb (has_id id) s.users)) [
  | inl here ↦ elim (Bool-cases (anyb (taken id email) s.users)) [
    | inl other ↦ rw (here, other) v
    | inr free ↦
        rw (here, free)
          (with_users s (update_where (has_id id) (stamped email now) s.users)
            (λ k h.
              rw (anyb-update_where (has_id id) (has_id k) (stamped email now) s.users (λ u. refl))
                h)
            (Unique-update_where (λ (u : User). u.id) (has_id id) (stamped email now) s.users
              (λ u. refl) v.ids)
            (Unique-email id email (stamped email now) (λ u. refl) s.users v.ids v.emails free) v)
  ]
  | inr missing ↦ rw missing v
]

-- What the deletion of an account leaves of the references.
IsThere-delete :
    (us : List User) (id k : String)
    → (k === id) ≡ false
    → IsThere us k
    → IsThere (delete_where (has_id id) us) k
IsThere-delete [] id k d h = h
IsThere-delete (u ∷ us) id k d h = ground (
  arith,
  string_eq.beq_iff u.id id,
  string_eq.beq_iff u.id k,
  string_eq.beq_iff k id,
  IsThere-delete us id k d,
)

module _ {A : Type 0} (user_of : A → String) (us : List User) (id : String) where
  owners_kept :
      (xs : List A)
      → All (λ x. IsThere us (user_of x)) xs
      → All
          (λ x. IsThere (delete_where (has_id id) us) (user_of x))
          (delete_where (λ x. user_of x === id) xs)
  owners_kept [] h = tt
  owners_kept (x ∷ xs) h = elim (Bool-cases (user_of x === id)) [
    | inl own ↦ rw own (owners_kept xs h.1)
    | inr other ↦ rw other (IsThere-delete us id (user_of x) other h.0, owners_kept xs h.1)
  ]

creators_kept :
    (us : List User) (id : String) (cs : List InviteCode)
    → anyb (names_user id) cs ≡ false
    → All (λ (c : InviteCode). IsThere us c.created_by) cs
    → All (λ (c : InviteCode). IsThere (delete_where (has_id id) us) c.created_by) cs
creators_kept us id [] n h = tt
creators_kept us id (c ∷ cs) n h = (
  IsThere-delete us id c.created_by (ground (arith, n)) h.0,
  creators_kept us id cs (ground (arith, n)) h.1,
)

IsRedeemer-kept_by :
    (us : List User) (id : String) (o : Option String)
    → (elim o [ none ↦ false | some u ↦ u === id ]) ≡ false
    → IsRedeemer us o
    → IsRedeemer (delete_where (has_id id) us) o
IsRedeemer-kept_by us id none n h = tt
IsRedeemer-kept_by us id (some u) n h = IsThere-delete us id u n h

redeemers_kept :
    (us : List User) (id : String) (cs : List InviteCode)
    → anyb (names_user id) cs ≡ false
    → All (λ (c : InviteCode). IsRedeemer us c.redeemed_by) cs
    → All (λ (c : InviteCode). IsRedeemer (delete_where (has_id id) us) c.redeemed_by) cs
redeemers_kept us id [] n h = tt
redeemers_kept us id (c ∷ cs) n h = (
  IsRedeemer-kept_by us id c.redeemed_by (ground (arith, n)) h.0,
  redeemers_kept us id cs (ground (arith, n)) h.1,
)

others_kept :
    (us : List User) (id : String) (ids : List String)
    → anyb (λ u. u === id) ids ≡ false
    → All (IsThere us) ids
    → All (IsThere (delete_where (has_id id) us)) ids
others_kept us id [] n h = tt
others_kept us id (u ∷ ids) n h =
    (IsThere-delete us id u (ground (arith, n)) h.0, others_kept us id ids (ground (arith, n)) h.1)

pub delete-IsValid : (s : Store) (id : String) → IsValid s → IsValid (delete s id).0
unfolding delete
delete-IsValid s id v = elim (Bool-cases (anyb (has_id id) s.users)) [
  | inr missing ↦ rw missing v
  | inl here ↦ elim (Bool-cases (anyb (names_user id) s.invites || anyb (λ u. u === id) s.others)) [
    | inl named ↦ rw (here, named) v
    | inr free ↦
        rw (here, free)
          (record {
            ids = Unique-delete_where (λ (u : User). u.id) (has_id id) s.users v.ids;
            emails = Unique-delete_where (λ (u : User). u.email) (has_id id) s.users v.emails;
            codes = v.codes;
            hashes =
                Unique-delete_where (λ (t : RefreshToken). t.token_hash) (λ t. t.user_id === id)
                  s.tokens v.hashes;
            pairs = Unique-delete_where pair_of (λ l. l.user_id === id) s.links v.pairs;
            creators = creators_kept s.users id s.invites (ground (arith, free)) v.creators;
            redeemers = redeemers_kept s.users id s.invites (ground (arith, free)) v.redeemers;
            token_users =
                owners_kept (λ (t : RefreshToken). t.user_id) s.users id s.tokens v.token_users;
            link_users = owners_kept (λ (l : OauthLink). l.user_id) s.users id s.links v.link_users;
            other_users = others_kept s.users id s.others (ground (arith, free)) v.other_users;
          })
  ]
]
