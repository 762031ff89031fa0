-- ===== src/Api/Auth/Granted.antt =====
-- What a registration has done when it answers with tokens.
use mathlib.Core.Path.{subst, sym, ap, ◌∙◌}
use cogitator.Base.{
  ℕ, ◌≡◌, refl, true, not, ◌||◌, ◌&&◌, inl, inr, List, All, [], ◌∷◌, ◌++◌, Option, none, some,
  arith, anyb, Bool-cases, if_both, String,
}
use cogitator.Base.Eqs.{string_eq, ◌===◌}
use cogitator.Base.Results.{Result, ok, err}
use cogitator.Base.Rows.{update_where}
use cogitator.Base.Texts.{Bytes, is_empty}
use cogitator.User.{
  Store, User, InviteCode, Error, Role, has_id, has_email, insert_user, create, create_hashed,
  new_user, get, role_user, role_beq, update_role, delete, duplicate_user, CreateUserInput,
  code_redeemed, code_not_found, code_expired, role_admin, role_moderator,
}
use cogitator.User.Lookup.{update_by_id-get, get-insert}
use cogitator.User.Invites.{read_invite, write_redeemed, redeem_invite_code, has_code}
use cogitator.User.Invites.Once.{read-written, written}
use cogitator.User.Invites.Kept.{Spares, run_all-Used}
use cogitator.User.Integrity.{Op, run_all}
use cogitator.User.Tokens.{store_refresh_token}
use cogitator.Api.FailTracker.{blocked}
use cogitator.Api.Auth.{
  Server, Services, Draw, Response, issued, RegisterRequest, handle_register, created, redeemed,
  issue_tokens, issue_access, stored, apply_role, register_key, register_ip_max_failures,
  auth_window, create_error, invite_error, count_failure, register_new, new_input,
}
use cogitator.Api.Auth.InviteLink.{parse_invite_code}

pub role_beq_eq : (a b : Role) → role_beq a b ≡ true → b ≡ a
role_beq_eq role_admin role_admin h = refl
role_beq_eq role_moderator role_moderator h = refl
role_beq_eq role_user role_user h = refl
role_beq_eq role_admin role_moderator h = cc
role_beq_eq role_admin role_user h = cc
role_beq_eq role_moderator role_admin h = cc
role_beq_eq role_moderator role_user h = cc
role_beq_eq role_user role_admin h = cc
role_beq_eq role_user role_moderator h = cc

pub read_same :
    (a b : Store) (code : Bytes) (now : ℕ)
    → a.invites ≡ b.invites
    → read_invite b code now ≡ read_invite a code now
unfolding read_invite
read_same a b code now e = rw e refl

module _ (before : Store) (code : Bytes) (now later : ℕ) where
  -- The code was good for the role of the account, is redeemed now, and the account is as stated.
  abbrev pub Facts : Store → User → Type 0
  Facts after u =
      (c : InviteCode) × (read_invite before code now ≡ ok c)
      × (u.role ≡ c.role)
      × (read_invite after code later ≡ err code_redeemed)
      × (get after u.id ≡ ok u)

  abbrev pub Granted : Server × Response → Type 0
  Granted (s, issued status u access raw) = (status ≡ 201) × Facts s.store u
  Granted (s, _) = Unit

  issue-Granted :
      (v : Services) (s : Server) (u : User) (d : Draw)
      → Facts s.store u
      → Granted (issue_tokens v s u 201 d now)
  unfolding issue_tokens store_refresh_token read_invite get
  issue-Granted v s u d f = access (v.generate_access_token u.id u.role) d.raw
    where
      access :
          (a raw : Option String) → Granted (issue_access v s u 201 a (record d { raw = raw }) now)
      access none raw = tt
      access (some a) none = tt
      access (some a) (some raw) =
          if_both (λ r. Granted (stored s u 201 a raw r))
            (anyb (λ t. t.token_hash === v.hash_token raw) s.store.tokens
              || not (anyb (has_id u.id) s.store.users))
            _ _ (λ h. tt) (λ h. (refl, f))

  refused : (s : Server) (e : Error) → Granted (s, invite_error e)
  refused s code_not_found = tt
  refused s code_redeemed = tt
  refused s code_expired = tt
  refused s _ = tt

  -- The second half of the redemption and the role, for an account that is the last row.
  role-Granted :
      (v : Services) (s : Server) (u : User) (c : InviteCode) (d : Draw)
      → u.updated_at ≡ now
      → read_invite before code now ≡ ok c
      → read_invite s.store code later ≡ err code_redeemed
      → get s.store u.id ≡ ok u
      → Granted (apply_role v s u c.role d now)
  unfolding apply_role update_role read_invite
  role-Granted v s u c d stamp good used there = elim (Bool-cases (role_beq c.role u.role)) [
    | inl equal ↦
        rw equal (issue-Granted v s u d (c, good, role_beq_eq c.role u.role equal, used, there))
    | inr differs ↦
        let set = λ (w : User). record w { role = c.role; updated_at = now } in
        let (done, read) = update_by_id-get s.store u.id set u (λ w. refl) there in
        let given : set u ≡ record u { role = c.role } =
          ap (λ t. record u { role = c.role; updated_at = t }) (sym stamp) in
        rw differs (
          rw done (
            issue-Granted v
              (record s {
                store = record s.store { users = update_where (has_id u.id) set s.store.users };
              })
              (record u { role = c.role }) d (c, good, refl, used, read ∙ ap ok given)))
  ]

  redeemed-Granted :
      (v : Services) (s : Server) (key : Bytes) (u : User) (d : Draw)
      → u.updated_at ≡ now
      → before.invites ≡ s.store.invites
      → get s.store u.id ≡ ok u
      → Granted (redeemed v s key u d now (redeem_invite_code s.store code u.id now))
  unfolding redeem_invite_code write_redeemed get
  redeemed-Granted v s key u d stamp invites there = step (read_invite s.store code now) refl
    where
      step :
          (r : Result Error InviteCode)
          → read_invite s.store code now ≡ r
          → Granted (redeemed v s key u d now (write_redeemed s.store code u.id r))
      step (err e) h =
          refused (count_failure (record s { store = (delete s.store u.id).0 }) key now) e
      step (ok c) h =
          if_both (λ r. Granted (redeemed v s key u d now r))
            (anyb (has_code code) s.store.invites && not (anyb (has_id u.id) s.store.users)) _ _
            (λ h. tt)
            (λ g.
              role-Granted v
                (record s {
                  store = record s.store { invites = written code u.id s.store.invites };
                })
                u c d stamp (sym (read_same before s.store code now invites) ∙ h)
                (read-written s.store code u.id now later h) there)

  not_created : (s : Server) (key : Bytes) (e : Error) → Granted (create_error s key now e)
  not_created s key duplicate_user = tt
  not_created s key _ = tt

inserted-Granted :
    (v : Services) (s : Server) (key code : Bytes) (u : User) (d : Draw) (now later : ℕ)
    → u.updated_at ≡ now
    → Granted s.store
        (parse_invite_code code)
        now
        later
        (created v s key code d now (insert_user s.store u))
unfolding insert_user
inserted-Granted v s key code u d now later stamp =
    elim (Bool-cases (anyb (has_id u.id) s.store.users || anyb (has_email u.email) s.store.users)) [
      | inl taken ↦ rw taken tt
      | inr free ↦ rw free (
          redeemed-Granted s.store (parse_invite_code code) now later v
            (record s { store = record s.store { users = s.store.users ++ u ∷ [] } }) key u d stamp
            refl (get-insert s.store u (ground (arith, free))))
    ]

created-Granted :
    (v : Services) (s : Server) (key code : Bytes) (input : CreateUserInput) (d : Draw)
    (now later : ℕ) (h : Option String)
    → Granted s.store
        (parse_invite_code code)
        now
        later
        (created v s key code d now (create_hashed s.store input d.id now h))
created-Granted v s key code input d now later none = tt
created-Granted v s key code input d now later (some h) =
    inserted-Granted v s key code (new_user input d.id h now) d now later refl

register-Granted :
    (v : Services) (s : Server) (ip : Bytes) (body : RegisterRequest) (d : Draw) (now later : ℕ)
    → Granted s.store
        (parse_invite_code body.invite_code)
        now
        later
        (handle_register v s ip (some body) d now)
unfolding handle_register register_new create
register-Granted v s ip body d now later =
    elim (Bool-cases (is_empty body.email || is_empty body.password || is_empty body.invite_code)) [
      | inl lacking ↦ rw lacking tt
      | inr full ↦ elim (Bool-cases (not (v.parse_address body.email))) [
        | inl no_address ↦ rw (full, no_address) tt
        | inr address ↦
            let b = blocked s.failures (register_key ip) register_ip_max_failures auth_window now in
            elim (Bool-cases b.1) [
              | inl stop ↦ rw (full, address, stop) tt
              | inr open_ ↦
                  rw (full, address, open_)
                    (created-Granted v (record s { failures = b.0 }) (register_key ip)
                      body.invite_code (new_input body) d now later
                      (v.bcrypt.generate_from_password body.password))
            ]
      ]
    ]

-- A registration that answers with tokens answers 201: its code was there, neither redeemed nor
-- expired; the account is in the table with the role of the code; and the code is redeemed, also
-- after any further calls of the account store but a deletion of the code itself. The cleanup of
-- handleDeleteUser, which goes past the store, is no such call.
pub handle_register-grants :
    (v : Services) (s s' : Server) (ip : Bytes) (body : RegisterRequest) (d : Draw)
    (now later status : ℕ) (u : User) (access raw : String) (ops : List (Op × ℕ))
    → handle_register v s ip (some body) d now ≡ (s', issued status u access raw)
    → All (Spares (parse_invite_code body.invite_code)) ops
    → let code = parse_invite_code body.invite_code in
      (status ≡ 201)
      × ((c : InviteCode) × (read_invite s.store code now ≡ ok c)
          × (u.role ≡ c.role)
          × (read_invite (run_all v.bcrypt ops s'.store) code later ≡ err code_redeemed)
          × (get s'.store u.id ≡ ok u))
unfolding read_invite
handle_register-grants v s s' ip body d now later status u access raw ops h spares =
    let code = parse_invite_code body.invite_code in
    let (answer_code, (c, good, role, used, there)) =
      subst (Granted s.store code now later) h (register-Granted v s ip body d now later) in
    (answer_code, (c, good, role, run_all-Used v.bcrypt code later ops s'.store spares used, there))
