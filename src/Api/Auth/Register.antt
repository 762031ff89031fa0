-- ===== src/Api/Auth/Register.antt =====
-- What a registration leaves behind, on each branch of the handler.
use mathlib.Core.Path.{subst, sym, ◌∙◌}
use cogitator.Base.{
  ℕ, ◌≡◌, refl, false, not, ◌||◌, inl, inr, [], ◌∷◌, ◌++◌, Option, none, some, arith, anyb,
  Bool-cases, if_both, String,
}
use cogitator.Base.Eqs.{string_eq}
use cogitator.Base.Results.{err}
use cogitator.Base.Texts.{Bytes, is_empty}
use cogitator.User.{
  User, Error, has_id, has_email, insert_user, create, create_hashed, new_user, CreateUserInput,
}
use cogitator.User.Integrity.{IsValid}
use cogitator.User.Restore.{delete_new}
use cogitator.User.Invites.{read_invite, write_redeemed, redeem_invite_code}
use cogitator.Api.FailTracker.{blocked}
use cogitator.Api.Auth.{
  Server, Services, Draw, Response, RegisterRequest, handle_register, created, redeemed,
  unless_blocked, register_new, new_input, register_key, register_ip_max_failures, auth_window,
}
use cogitator.Api.Auth.InviteLink.{parse_invite_code}

-- A handler that leaves the store alone does so behind the guard too.
pub unless_blocked-store :
    (s : Server) (key : Bytes) (threshold now : ℕ) (next : Server → Server × Response)
    → ((t : Server) → t.store ≡ s.store → (next t).0.store ≡ s.store)
    → (unless_blocked s key threshold now next).0.store ≡ s.store
unless_blocked-store s key threshold now next keeps =
    let b = blocked s.failures key threshold auth_window now in
    if_both (λ (r : Server × Response). r.0.store ≡ s.store) b.1 _ _ (λ h. refl)
      (λ h. keeps (record s { failures = b.0 }) refl)

module _ (v : Services) (key code : Bytes) (d : Draw) (now : ℕ) {e : Error} where
  -- A new account is deleted again where its code cannot be redeemed.
  redeemed-store :
      (s : Server) (u : User)
      → IsValid s.store
      → anyb (has_id u.id) s.store.users ≡ false
      → read_invite s.store (parse_invite_code code) now ≡ err e
      → let t = record s { store = record s.store { users = s.store.users ++ u ∷ [] } } in
        (redeemed v t key u d now
          (redeem_invite_code t.store (parse_invite_code code) u.id now)).0.store
        ≡ s.store
  unfolding redeem_invite_code read_invite write_redeemed
  redeemed-store s u valid new bad = rw bad (delete_new s.store u valid new)

  inserted-store :
      (s : Server) (u : User)
      → IsValid s.store
      → read_invite s.store (parse_invite_code code) now ≡ err e
      → (created v s key code d now (insert_user s.store u)).0.store ≡ s.store
  unfolding insert_user
  inserted-store s u valid bad =
      elim (Bool-cases
        (anyb (has_id u.id) s.store.users || anyb (has_email u.email) s.store.users)) [
          | inl taken ↦ rw taken refl
          | inr free ↦ rw free (redeemed-store s u valid (ground (arith, free)) bad)
        ]

  created-store :
      (s : Server) (input : CreateUserInput) (h : Option String)
      → IsValid s.store
      → read_invite s.store (parse_invite_code code) now ≡ err e
      → (created v s key code d now (create_hashed s.store input d.id now h)).0.store ≡ s.store
  created-store s input none valid bad = refl
  created-store s input (some h) valid bad = inserted-store s (new_user input d.id h now) valid bad

-- A registration whose code is unknown, redeemed or expired leaves the accounts, codes, tokens and
-- links exactly as they were, where those were sound before: whatever else the request holds, and
-- at whichever step it fails.
pub handle_register-atomic :
    (v : Services) (s : Server) (ip : Bytes) (body : RegisterRequest) (d : Draw) (now : ℕ)
    (e : Error)
    → IsValid s.store
    → read_invite s.store (parse_invite_code body.invite_code) now ≡ err e
    → (handle_register v s ip (some body) d now).0.store ≡ s.store
unfolding handle_register register_new create
handle_register-atomic v s ip body d now e valid bad =
    elim (Bool-cases (is_empty body.email || is_empty body.password || is_empty body.invite_code)) [
      | inl lacking ↦ rw lacking refl
      | inr full ↦ elim (Bool-cases (not (v.parse_address body.email))) [
        | inl no_address ↦ rw (full, no_address) refl
        | inr address ↦
            rw (full, address)
              (unless_blocked-store s (register_key ip) register_ip_max_failures now
                (λ t. register_new v t ip body d now)
                (λ t same.
                  created-store v (register_key ip) body.invite_code d now t (new_input body)
                    (v.bcrypt.generate_from_password body.password) (subst IsValid (sym same) valid)
                    (subst (λ x. read_invite x (parse_invite_code body.invite_code) now ≡ err e)
                      (sym same) bad)
                  ∙ same))
      ]
    ]
