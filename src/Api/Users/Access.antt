-- ===== src/Api/Users/Access.antt =====
-- What an administrator's reset and deletion do to passwords and invite codes.
use mathlib.Core.Path.{subst, sym, ap}
use mathlib.Core.Option.{some_inj}
use cogitator.Base.{
  ℕ, ◌≡◌, refl, Bool, true, false, ◌||◌, ◌&&◌, inl, inr, List, [], ◌∷◌, Option, none, some, anyb,
  leb, Bool-cases, String,
}
use cogitator.Base.Eqs.{string_eq, ◌===◌}
use cogitator.Base.Texts.{Bytes, is_empty}
use cogitator.Base.Results.{Result, ok, err}
use cogitator.Base.Rows.{first_where, update_where, delete_where}
use cogitator.User.{
  Error, User, InviteCode, Store, Bcrypt, Laws, code_redeemed, has_id, names_user, get, update_user,
  delete, set_password,
}
use cogitator.User.Lookup.{update_by_id-get}
use cogitator.User.Invites.{has_code, is_past, read_invite}
use cogitator.User.Tokens.{revoke_all_refresh_tokens}
use cogitator.Api.Users.{
  Answer, is_admin, count_admins, handle_reset_password, reset_found, password_reset,
  handle_delete_user, delete_found, clear_private, redeemed_by_id, unredeemed, reported, reply,
  done, no_content,
}

module _ (B : Bcrypt) (laws : Laws B) (s : Store) (id : String) (password : Bytes) where
  -- The account opens with the password, where the answer says so.
  abbrev Opens : Store × Answer → Type 0
  Opens (t, done) =
      (u : User) × (get t id ≡ ok u) × (B.compare_hash_and_password u.password_hash password ≡ true)
  Opens (t, _) = Unit

  reset-Opens :
      (now : ℕ) (r : Result Error User) → get s id ≡ r → Opens (reset_found B s id password now r)
  unfolding update_user
  reset-Opens now (err e) h = tt
  reset-Opens now (ok u) h = hashed (B.generate_from_password password) refl
    where
      hashed :
          (o : Option String)
          → B.generate_from_password password ≡ o
          → Opens (password_reset s id now o u)
      hashed none g = tt
      hashed (some hash) g =
          let f =
            λ (w : User). record (set_password (some hash) w) { name = u.name; updated_at = now } in
          let (wrote, read) = update_by_id-get s id f u (λ w. refl) h in
          rw wrote (f u, read, laws.accepts password hash g)

-- After a reset that is answered with success the account of the id is there and its stored hash
-- accepts the new password, where bcrypt keeps to its documentation.
pub handle_reset_password-opens :
    (B : Bcrypt) (s s' : Store) (id : String) (password : Bytes) (now : ℕ)
    → Laws B
    → handle_reset_password B s id (some password) now ≡ (s', done)
    → (u : User) × (get s' id ≡ ok u)
      × (B.compare_hash_and_password u.password_hash password ≡ true)
unfolding handle_reset_password
handle_reset_password-opens B s s' id password now laws h = elim (Bool-cases (is_empty password)) [
  | inl empty ↦
      let e : ◌≡◌ {A = Store × Answer} (s, reply 400 "password is required") (s', done) =
        rw empty at h in
      absurd (cc (ap (λ (r : Store × Answer). r.1) e))
  | inr full ↦
      let e : reset_found B s id password now (get s id) ≡ (s', done) = rw full at h in
      subst (Opens B laws s id password) e (reset-Opens B laws s id password now (get s id) refl)
]

abbrev without : String → List InviteCode → List InviteCode
without id cs =
    delete_where (λ c. c.created_by === id) (update_where (redeemed_by_id id) unredeemed cs)

-- What the deletion does to the first row of a code that the account had redeemed.
cleared :
    (code : Bytes) (id : String) (cs : List InviteCode) {c : InviteCode}
    → first_where (has_code code) cs ≡ some c
    → c.redeemed_by ≡ some id
    → (c.created_by === id) ≡ false
    → first_where (has_code code) (without id cs) ≡ some (unredeemed c)
cleared code id [] h r k = absurd cc
cleared code id (d ∷ cs) {c} h r k = elim (Bool-cases (has_code code d)) [
  | inl here ↦
      let same : ◌≡◌ {A = Option InviteCode} (some d) (some c) = rw here at h in
      let dc : d ≡ c = some_inj.0 same in
      let red : redeemed_by_id id d ≡ true =
        subst (λ x. redeemed_by_id id x ≡ true) (sym dc)
          (rw r ((string_eq.beq_iff id id).1 refl)) in
      let kept : (d.created_by === id) ≡ false =
        subst (λ (x : InviteCode). (x.created_by === id) ≡ false) (sym dc) k in
      subst (λ x. first_where (has_code code) (without id (d ∷ cs)) ≡ some (unredeemed x)) dc
        (rw (red, kept, here) refl)
  | inr other ↦
      let rest : first_where (has_code code) (without id cs) ≡ some (unredeemed c) =
        cleared code id cs (rw other at h) r k in
      elim (Bool-cases (redeemed_by_id id d)) [
        | inl red ↦ elim (Bool-cases (d.created_by === id)) [
          | inl own ↦ rw (red, own) rest
          | inr foreign ↦ rw (red, foreign, other) rest
        ]
        | inr free ↦ elim (Bool-cases (d.created_by === id)) [
          | inl own ↦ rw (free, own) rest
          | inr foreign ↦ rw (free, foreign, other) rest
        ]
      ]
]

module _ (s : Store) (id : String) where
  -- The codes after a deletion that is answered with success.
  abbrev Cleared : Store × Answer → Type 0
  Cleared (t, no_content) = t.invites ≡ without id s.invites
  Cleared (t, _) = Unit

  delete-Cleared :
      (t : Store)
      → t.invites ≡ without id s.invites
      → Cleared (reported "failed to delete user" no_content (delete t id))
  unfolding delete
  delete-Cleared t e = elim (Bool-cases (anyb (has_id id) t.users)) [
    | inr missing ↦ rw missing tt
    | inl here ↦
        elim (Bool-cases (anyb (names_user id) t.invites || anyb (λ u. u === id) t.others)) [
          | inl named ↦ rw (here, named) tt
          | inr free ↦ rw (here, free) e
        ]
  ]

  found-Cleared :
      (reassigns clears : Bool) (r : Result Error User)
      → Cleared (delete_found s id reassigns clears r)
  unfolding clear_private revoke_all_refresh_tokens
  found-Cleared reassigns clears (err e) = tt
  found-Cleared reassigns clears (ok u) = elim (Bool-cases (is_admin u && leb (count_admins s) 1)) [
    | inl last ↦ rw last tt
    | inr fine ↦ elim (Bool-cases reassigns) [
      | inr stuck ↦ rw (fine, stuck) tt
      | inl able ↦
          rw (fine, able)
            (delete-Cleared (revoke_all_refresh_tokens (clear_private s id clears) id) refl)
    ]
  ]

  handle-Cleared :
      (caller : String) (reassigns clears : Bool)
      → Cleared (handle_delete_user s (some caller) id reassigns clears)
  unfolding handle_delete_user
  handle-Cleared caller reassigns clears = elim (Bool-cases (id === caller)) [
    | inl self ↦ rw self tt
    | inr other ↦ rw other (found-Cleared reassigns clears (get s id))
  ]

-- The deletion of an account opens the code again that the account was made with: a code that was
-- redeemed by it, made by someone else and not yet expired, can be redeemed after the deletion.
pub delete-opens_code :
    (s s' : Store) (caller id : String) (reassigns clears : Bool) (code : Bytes) (now : ℕ)
    (c : InviteCode)
    → first_where (has_code code) s.invites ≡ some c
    → c.redeemed_by ≡ some id
    → (c.created_by === id) ≡ false
    → is_past now c.expires_at ≡ false
    → handle_delete_user s (some caller) id reassigns clears ≡ (s', no_content)
    → (read_invite s code now ≡ err code_redeemed) × (read_invite s' code now ≡ ok (unredeemed c))
unfolding read_invite
delete-opens_code s s' caller id reassigns clears code now c there red foreign live h =
    let after : s'.invites ≡ without id s.invites =
      subst (Cleared s id) h (handle-Cleared s id caller reassigns clears) in
    (rw (there, red) refl, rw (after, cleared code id s.invites there red foreign, live) refl)
