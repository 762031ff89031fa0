-- ===== src/Api/Users/Admins.antt =====
-- No change of a role and no deletion leaves the server without an administrator.
use mathlib.Core.Path.{subst}
use cogitator.Base.{
  ℕ, ◌+◌, ◌≤◌, ◌≡◌, refl, Bool, true, false, not, ◌||◌, ◌&&◌, inl, inr, List, [], ◌∷◌, Option, none,
  some, arith, anyb, leb, length, filterb, Bool-cases, if◌then◌else◌, String,
}
use cogitator.Base.Eqs.{string_eq, ◌===◌}
use cogitator.Base.Results.{Result, ok, err}
use cogitator.Base.Rows.{
  first_where, update_where, delete_where, update_where_miss, delete_where_miss, Unique,
}
use cogitator.User.{
  Role, role_admin, role_beq, Error, User, Store, not_found, has_id, names_user, or_error, get,
  update_role, update_by_id, delete,
}
use cogitator.User.Invites.Once.{ok-injective}
use cogitator.User.Tokens.{revoke_all_refresh_tokens}
use cogitator.Api.Users.{
  is_admin, count_admins, handle_update_user_role, handle_delete_user, role_checked, role_change,
  delete_found, clear_private, reported, parse_role, no_content,
}

abbrev admins : List User → ℕ
admins us = length (filterb is_admin us)

abbrev one_if : Bool → ℕ
one_if b = if b then 1 else 0

abbrev read : String → List User → Result Error User
read id us = or_error not_found (first_where (has_id id) us)

-- Where ids are unique, the row of an id is the only one that a statement by that id touches.
module _ (id : String) where
  gone :
      (u : User) (us : List User)
      → has_id id u ≡ true
      → anyb (has_id u.id) us ≡ false
      → anyb (has_id id) us ≡ false
  gone u us here unique =
      subst (λ k. anyb (has_id k) us ≡ false) ((string_eq.beq_iff u.id id).0 here) unique

  admins-update :
      (f : User → User) (us : List User) {t : User}
      → Unique (λ (u : User). u.id) us
      → read id us ≡ ok t
      → admins (update_where (has_id id) f us) + one_if (is_admin t)
        ≡ admins us + one_if (is_admin (f t))
  admins-update f [] unique h = absurd cc
  admins-update f (u ∷ us) {t} unique h = elim (Bool-cases (has_id id u)) [
    | inl here ↦
        let same : ◌≡◌ {A = Result Error User} (ok u) (ok t) = rw here at h in
        subst
          (λ t.
            admins (update_where (has_id id) f (u ∷ us)) + one_if (is_admin t)
            ≡ admins (u ∷ us) + one_if (is_admin (f t)))
          (ok-injective same)
          (rw (here, update_where_miss (has_id id) f us (gone u us here unique.0)) (ground arith))
    | inr other ↦ rw other (ground (arith, admins-update f us unique.1 (rw other at h)))
  ]

  admins-delete :
      (us : List User) {t : User}
      → Unique (λ (u : User). u.id) us
      → read id us ≡ ok t
      → admins (delete_where (has_id id) us) + one_if (is_admin t) ≡ admins us
  admins-delete [] unique h = absurd cc
  admins-delete (u ∷ us) {t} unique h = elim (Bool-cases (has_id id u)) [
    | inl here ↦
        let same : ◌≡◌ {A = Result Error User} (ok u) (ok t) = rw here at h in
        subst
          (λ t. admins (delete_where (has_id id) (u ∷ us)) + one_if (is_admin t) ≡ admins (u ∷ us))
          (ok-injective same)
          (rw (here, delete_where_miss (has_id id) us (gone u us here unique.0)) (ground arith))
    | inr other ↦ rw other (ground (arith, admins-delete us unique.1 (rw other at h)))
  ]

-- The answered deletion leaves the accounts, or takes the rows of the id away.
delete-users :
    (s : Store) (id : String) (P : List User → Type 0)
    → P s.users
    → P (delete_where (has_id id) s.users)
    → P (reported "failed to delete user" no_content (delete s id)).0.users
unfolding delete
delete-users s id P stays goes = elim (Bool-cases (anyb (has_id id) s.users)) [
  | inr missing ↦ rw missing stays
  | inl here ↦ elim (Bool-cases (anyb (names_user id) s.invites || anyb (λ u. u === id) s.others)) [
    | inl named ↦ rw (here, named) stays
    | inr free ↦ rw (here, free) goes
  ]
]

module _ (s : Store) (id : String) (unique : Unique (λ (u : User). u.id) s.users)
    (some_admin : 1 ≤ count_admins s) where
  changed :
      (role : Role) (now : ℕ) (r : Result Error User)
      → get s id ≡ r
      → 1 ≤ count_admins (role_change s id role now r).0
  unfolding count_admins get update_role update_by_id
  changed role now (err e) h = some_admin
  changed role now (ok t) h =
      let f = λ (u : User). record u { role = role; updated_at = now } in
      let count = admins-update id f s.users unique h in
      elim (Bool-cases (is_admin t && not (role_beq role role_admin) && leb (admins s.users) 1)) [
        | inl last ↦ rw last some_admin
        | inr fine ↦ rw fine (elim (Bool-cases (anyb (has_id id) s.users)) [
          | inl here ↦ rw here (ground (arith, count, fine, some_admin))
          | inr missing ↦ rw missing some_admin
        ])
      ]

  deleted :
      (reassigns clears : Bool) (r : Result Error User)
      → get s id ≡ r
      → 1 ≤ count_admins (delete_found s id reassigns clears r).0
  unfolding count_admins get delete revoke_all_refresh_tokens clear_private
  deleted reassigns clears (err e) h = some_admin
  deleted reassigns clears (ok t) h =
      let count = admins-delete id s.users unique h in
      let t' = revoke_all_refresh_tokens (clear_private s id clears) id in
      elim (Bool-cases (is_admin t && leb (admins s.users) 1)) [
        | inl last ↦ rw last some_admin
        | inr fine ↦ elim (Bool-cases reassigns) [
          | inr stuck ↦ rw (fine, stuck) some_admin
          | inl able ↦
              rw (fine, able)
                (delete-users t' id (λ us. 1 ≤ admins us) some_admin
                  (ground (arith, count, fine, some_admin)))
        ]
      ]

-- Where the ids are unique and there is an administrator, there still is one after any change of a
-- role and after any deletion of an account, whoever asks for it and whatever the request says.
pub admin_remains :
    (s : Store) (caller : Option String) (id : String) (body : Option String) (now : ℕ)
    (reassigns clears : Bool)
    → Unique (λ (u : User). u.id) s.users
    → 1 ≤ count_admins s
    → (1 ≤ count_admins (handle_update_user_role s caller id body now).0)
      × (1 ≤ count_admins (handle_delete_user s caller id reassigns clears).0)
unfolding handle_update_user_role handle_delete_user
admin_remains s none id body now reassigns clears unique some_admin = (some_admin, some_admin)
admin_remains s (some caller) id body now reassigns clears unique some_admin = (
  role body,
  elim (Bool-cases (id === caller)) [
    | inl self ↦ rw self some_admin
    | inr other ↦ rw other (deleted s id unique some_admin reassigns clears (get s id) refl)
  ],
)
  where
    checked : (r : Option Role) → 1 ≤ count_admins (role_checked s caller id r now).0
    checked none = some_admin
    checked (some r) = elim (Bool-cases (id === caller)) [
      | inl self ↦ rw self some_admin
      | inr other ↦ rw other (changed s id unique some_admin r now (get s id) refl)
    ]

    role :
        (b : Option String) → 1 ≤ count_admins (handle_update_user_role s (some caller) id b now).0
    role none = some_admin
    role (some r) = checked (parse_role r)
