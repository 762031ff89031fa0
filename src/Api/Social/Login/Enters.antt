-- ===== src/Api/Social/Login/Enters.antt =====
-- What a social login has done when it answers with tokens.
use mathlib.Core.Path.{sym, ap, ◌∙◌}
use cogitator.Base.{
  ℕ, ◌+◌, ◌≡◌, refl, true, false, not, ◌||◌, ◌&&◌, ◌⊎◌, inl, inr, [], ◌∷◌, ◌++◌, Option, none, some,
  arith, anyb, ltb, ◌==◌, Bool-cases, if_both, if◌then◌else◌, String,
}
use cogitator.Base.Eqs.{string_eq, ◌===◌}
use cogitator.Base.Results.{Result, ok, err}
use cogitator.Base.Rows.{first_where-append, update_where}
use cogitator.Base.Texts.{Bytes, is_empty}
use cogitator.User.{
  Store, User, InviteCode, Error, has_id, has_email, insert_user, create_social, get, get_by_email,
  count, role_user, role_beq, update_role, delete, not_found, code_redeemed, code_not_found,
  code_expired, role_admin, token_expired,
}
use cogitator.User.Lookup.{update_by_id-get, get-insert}
use cogitator.User.Invites.{read_invite, write_redeemed, redeem_invite_code, has_code}
use cogitator.User.Invites.Once.{written}
use cogitator.User.Links.{get_by_oauth_link, link_oauth, is_link, new_link}
use cogitator.User.Tokens.{new_token, store_refresh_token, validate_refresh_token}
use cogitator.User.Tokens.Expiry.{validate-store}
use cogitator.Api.Auth.{Server, Services, Draw}
use cogitator.Api.Auth.Granted.{role_beq_eq, read_same}
use cogitator.Api.Auth.InviteLink.{parse_invite_code}
use cogitator.Api.Social.{Identity, identity}
use cogitator.Api.Social.Login.{
  PendingAuthResult, failed, result_stored, result_access, generate_auth_result, identity_linked,
  link_identity, login_role_updated, redeem_failure, login_redeemed, login_created, unless_known,
  login_found, complete_social_login,
}

-- How an account comes by its role: it was linked before, it is the first of all, or a code that
-- could be redeemed has the role.
abbrev pub Entitled : Store → Bytes → ℕ → Identity → User → Type 0
Entitled before code now i u =
    (get_by_oauth_link before i.provider i.subject ≡ ok u)
    ⊎ ((count before ≡ 0) × (u.role ≡ role_admin))
    ⊎ ((c : InviteCode) × (read_invite before (parse_invite_code code) now ≡ ok c)
        × (u.role ≡ c.role))

-- A token that was inserted, of a hash that was not there, is valid for its account in its time.
stored-valid :
    (s : Store) (hash id : String) (expires now later : ℕ)
    → (anyb (λ t. t.token_hash === hash) s.tokens || not (anyb (has_id id) s.users)) ≡ false
    → validate_refresh_token
        (record s { tokens = s.tokens ++ new_token hash id expires now ∷ [] })
        hash
        later
      ≡ (if ltb expires later then err token_expired else ok id)
unfolding store_refresh_token
stored-valid s hash id expires now later free =
    rw free at (validate-store s hash id expires now later (rw free refl))

module _ (v : Services) (before : Store) (code : Bytes) (now later : ℕ) (i : Identity) where
  abbrev pub Entered : Server × PendingAuthResult → Type 0
  Entered (s, r) =
      r.error ≡ ""
      → (u : User) × (get_by_oauth_link s.store i.provider i.subject ≡ ok u)
        × (v.generate_access_token u.id u.role ≡ some r.access_token)
        × (validate_refresh_token s.store (v.hash_token r.refresh_token) later
            ≡ (if ltb (now + v.refresh_ttl) later then err token_expired else ok u.id))
        × Entitled before code now i u

  Entered-failed : (s : Server) (text : String) → (text === "") ≡ false → Entered (s, failed text)
  Entered-failed s text h e = absurd (cc (rw e at h))

  Entered-result :
      (s : Server) (u : User) (d : Draw)
      → get_by_oauth_link s.store i.provider i.subject ≡ ok u
      → Entitled before code now i u
      → Entered (generate_auth_result v s u d now)
  unfolding generate_auth_result store_refresh_token get_by_oauth_link get
  Entered-result s u d linked entitled = access (v.generate_access_token u.id u.role) d.raw refl
    where
      access :
          (a raw : Option String)
          → v.generate_access_token u.id u.role ≡ a
          → Entered (result_access v s u a (record d { raw = raw }) now)
      access none raw e = Entered-failed s "Failed to generate access token" refl
      access (some a) none e = Entered-failed s "Failed to generate refresh token" refl
      access (some a) (some raw) e =
          if_both (λ r. Entered (result_stored s a raw r))
            (anyb (λ t. t.token_hash === v.hash_token raw) s.store.tokens
              || not (anyb (has_id u.id) s.store.users))
            _ _ (λ h. Entered-failed s "Failed to store refresh token" refl)
            (λ free good. (
              u,
              linked,
              e,
              stored-valid s.store (v.hash_token raw) u.id (now + v.refresh_ttl) now later free,
              entitled,
            ))

  abbrev linked_store : Store → String → String → Store
  linked_store s id link = record s {
    links = s.links ++ new_link link id i.provider i.subject i.email now ∷ [];
  }

  read-linked :
      (s : Store) (u : User) (link : String)
      → anyb (is_link i.provider i.subject) s.links ≡ false
      → get s u.id ≡ ok u
      → get_by_oauth_link (linked_store s u.id link) i.provider i.subject ≡ ok u
  unfolding get_by_oauth_link get
  read-linked s u link free there =
      let l = new_link link u.id i.provider i.subject i.email now in
      let this : is_link i.provider i.subject l ≡ true =
        ground
          (arith, string_eq.beq_iff i.provider i.provider, string_eq.beq_iff i.subject i.subject) in
      rw (first_where-append (is_link i.provider i.subject) s.links (l ∷ []) free) (rw this there)

  Entered-link :
      (s : Server) (u : User) (link : String) (d : Draw)
      → get s.store u.id ≡ ok u
      → Entitled before code now i u
      → Entered (link_identity v s i u link d now)
  unfolding link_oauth
  Entered-link s u link d there entitled =
      if_both (λ r. Entered (identity_linked v s u d now r))
        (anyb (λ l. l.id === link) s.store.links
          || anyb (is_link i.provider i.subject) s.store.links
          || not (anyb (has_id u.id) s.store.users))
        _ _ (λ h. Entered-failed s "Failed to link identity" refl)
        (λ free.
          Entered-result (record s { store = linked_store s.store u.id link }) u d
            (read-linked s.store u link (ground (arith, free)) there) entitled)

  Entered-role :
      (s : Server) (u : User) (c : InviteCode) (link : String) (d : Draw)
      → u.updated_at ≡ now
      → get s.store u.id ≡ ok u
      → read_invite before (parse_invite_code code) now ≡ ok c
      → Entered (
          if role_beq c.role u.role
          then link_identity v s i u link d now
          else login_role_updated v s i u c.role link d now (update_role s.store u.id c.role now))
  unfolding update_role
  Entered-role s u c link d stamp there good = elim (Bool-cases (role_beq c.role u.role)) [
    | inl equal ↦
        rw equal
          (Entered-link s u link d there (inr (inr (c, good, role_beq_eq c.role u.role equal))))
    | inr differs ↦
        let set = λ (w : User). record w { role = c.role; updated_at = now } in
        let (done, read) = update_by_id-get s.store u.id set u (λ w. refl) there in
        let given : set u ≡ record u { role = c.role } =
          ap (λ t. record u { role = c.role; updated_at = t }) (sym stamp) in
        rw differs (
          rw done (
            Entered-link
              (record s {
                store = record s.store { users = update_where (has_id u.id) set s.store.users };
              })
              (record u { role = c.role }) link d (read ∙ ap ok given) (inr (inr (c, good, refl)))))
  ]

  Entered-redeemed :
      (s : Server) (u : User) (link : String) (d : Draw)
      → u.updated_at ≡ now
      → before.invites ≡ s.store.invites
      → get s.store u.id ≡ ok u
      → Entered (
          login_redeemed v s i u link d now
            (redeem_invite_code s.store (parse_invite_code code) u.id now))
  unfolding redeem_invite_code write_redeemed get
  Entered-redeemed s u link d stamp invites there =
      step (read_invite s.store (parse_invite_code code) now) refl
    where
      refused : (t : Server) (e : Error) → Entered (t, failed (redeem_failure e))
      refused t code_not_found = Entered-failed t _ refl
      refused t code_redeemed = Entered-failed t _ refl
      refused t code_expired = Entered-failed t _ refl
      refused t _ = Entered-failed t _ refl

      step :
          (r : Result Error InviteCode)
          → read_invite s.store (parse_invite_code code) now ≡ r
          → Entered (
              login_redeemed v s i u link d now
                (write_redeemed s.store (parse_invite_code code) u.id r))
      step (err e) h = refused (record s { store = (delete s.store u.id).0 }) e
      step (ok c) h =
          if_both (λ r. Entered (login_redeemed v s i u link d now r))
            (anyb (has_code (parse_invite_code code)) s.store.invites
              && not (anyb (has_id u.id) s.store.users))
            _ _
            (λ h.
              Entered-failed (record s { store = (delete s.store u.id).0 })
                "Failed to redeem invite code" refl)
            (λ g.
              Entered-role
                (record s {
                  store = record s.store {
                    invites = written (parse_invite_code code) u.id s.store.invites;
                  };
                })
                u c link d stamp there
                (sym (read_same before s.store (parse_invite_code code) now invites) ∙ h))

  Entered-created :
      (s : Server) (u : User) (link : String) (d : Draw)
      → s.store ≡ before
      → u.updated_at ≡ now
      → u.role ≡ (if count before == 0 then role_admin else role_user)
      → Entered (login_created v s (count before == 0) code i link d now (insert_user s.store u))
  unfolding insert_user
  Entered-created s u link d same stamp role =
      elim (Bool-cases
        (anyb (has_id u.id) s.store.users || anyb (has_email u.email) s.store.users)) [
          | inl taken ↦ rw taken (Entered-failed s _ refl)
          | inr free ↦
              let there = get-insert s.store u (ground (arith, free)) in
              let t : Server = record s {
                store = record s.store { users = s.store.users ++ u ∷ [] };
              } in
              rw free (elim (Bool-cases (count before == 0)) [
                | inl first ↦ rw first (
                    Entered-link t u link d there
                      (inr (inl (ground (arith, first), rw first at role))))
                | inr later ↦
                    rw later
                      (Entered-redeemed t u link d stamp (ap (λ b. b.invites) (sym same)) there)
              ])
        ]

  Entered-known :
      (s : Server) (link : String) (d : Draw) (r : Result Error User)
      → s.store ≡ before
      → Entered (unless_known v s (count before == 0) code i link d now r)
  unfolding create_social
  Entered-known s link d (ok u) same = Entered-failed s _ refl
  Entered-known s link d (err e) same = Entered-created s _ link d same refl refl

  Entered-found :
      (s : Server) (link : String) (d : Draw) (r : Result Error User)
      → s.store ≡ before
      → get_by_oauth_link s.store i.provider i.subject ≡ r
      → Entered (login_found v s code i link d now r)
  Entered-found s link d (ok u) same h = Entered-result s u d h (inl (rw same at h))
  Entered-found s link d (err not_found) same h = rw same (
      if_both Entered (not (count before == 0) && is_empty code) _ _
        (λ h.
          Entered-failed (record s { store = before })
            "An invite code is required to create an account. Please register first." refl)
        (λ h.
          Entered-known (record s { store = before }) link d (get_by_email before i.email) refl))
  Entered-found s link d (err _) same h = Entered-failed s _ refl

-- A social login that gives tokens gives them for the account that the identity leads to in the
-- store that it leaves: the access token is that of the account, and the refresh token is valid for
-- the account until its time is over. That account was linked to it before; or it is the first of
-- the server, and an administrator; or a code that could be redeemed gave it its role.
pub complete_social_login-enters :
    (v : Services) (s : Server) (i : Identity) (code : Bytes) (link : String) (d : Draw)
    (now later : ℕ)
    → (complete_social_login v s (identity i) code link d now).1.error ≡ ""
    → let (s', result) = complete_social_login v s (identity i) code link d now in
      (u : User) × (get_by_oauth_link s'.store i.provider i.subject ≡ ok u)
      × (v.generate_access_token u.id u.role ≡ some result.access_token)
      × (validate_refresh_token s'.store (v.hash_token result.refresh_token) later
          ≡ (if ltb (now + v.refresh_ttl) later then err token_expired else ok u.id))
      × Entitled s.store code now i u
unfolding complete_social_login
complete_social_login-enters v s i code link d now later good =
    Entered-found v s.store code now later i s link d
      (get_by_oauth_link s.store i.provider i.subject) refl refl good
