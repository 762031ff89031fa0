-- ===== src/Api/Auth/Sessions.antt =====
-- Login and refresh: the lock of an account, and the rotation of the refresh tokens.
use mathlib.Core.Path.{subst, sym, ap, ◌∙◌}
use cogitator.Base.{
  ℕ, ◌+◌, ◌≤◌, ◌≡◌, refl, true, false, ◌||◌, inl, inr, List, [], ◌∷◌, Option, none, some, arith,
  ltb, Bool-cases, if◌then◌else◌, String,
}
use cogitator.Base.Assoc
use cogitator.Base.Eqs.{string_eq, ◌===◌}
use cogitator.Base.Results.{Result, ok, err, is_ok}
use cogitator.Base.Texts.{Bytes, is_empty, bytes_eq_instance}
use cogitator.User.{
  Store, User, Error, not_found, authenticate, get, token_not_found, token_expired, has_id,
  or_error,
}
use cogitator.User.Tokens.{store_refresh_token, validate_refresh_token, revoke_refresh_token}
use cogitator.User.Tokens.Expiry.{validate-revoke, validate-store, validate-store_other}
use cogitator.User.Invites.Once.{ok-injective}
use cogitator.Base.Rows.{first_where}
use cogitator.Api.FailTracker.{FailTracker, blocked, reset, IsValid}
use cogitator.Api.FailTracker.Bounds.{blocked-IsValid}
use cogitator.Api.FailTracker.Lockout.{locked, blocked-locked, blocked-reset}
use cogitator.Api.Auth.{
  Server, Services, Draw, Response, throttled, issued, LoginRequest, handle_login, handle_refresh,
  authenticated, validated, found, issue_tokens, issue_access, stored, account_key, login_key,
  login_account_max_failures, login_ip_max_failures, auth_window, refresh_key,
  refresh_ip_max_failures,
}

-- While an account is locked, a login for it is answered 429 with at least a second to wait, and
-- leaves the store alone: whether the password is right and the account exists plays no part.
pub handle_login-locked :
    (v : Services) (s : Server) (ip : Bytes) (body : LoginRequest) (d : Draw) (now : ℕ)
    → IsValid s.failures
    → (is_empty body.email || is_empty body.password) ≡ false
    → locked login_account_max_failures auth_window now
        (Assoc.lookup (account_key body.email) s.failures.entries)
      ≡ true
    → (secs : ℕ) × (1 ≤ secs)
      × ((handle_login v s ip (some body) d now).1 ≡ throttled secs)
      × ((handle_login v s ip (some body) d now).0.store ≡ s.store)
unfolding handle_login
handle_login-locked v s ip body d now valid full lock =
    let b =
      blocked s.failures (account_key body.email) login_account_max_failures auth_window now in
    let stop : b.1 ≡ true =
      blocked-locked s.failures (account_key body.email) login_account_max_failures auth_window now
        valid
      ∙ lock in
    rw (full, stop) ((if ltb b.2 1 then 1 else b.2), ground arith, refl, refl)

module _ (v : Services) (s : Server) (body : LoginRequest) where
  -- What stands after a login that has issued tokens.
  abbrev Entered : ℕ → Server × Response → Type 0
  Entered now (t, issued status u access raw) =
      (authenticate v.bcrypt s.store body.email body.password ≡ ok u)
      × ((blocked t.failures (account_key body.email) login_account_max_failures auth_window now).1
          ≡ false)
  Entered now (t, _) = Unit

  Entered-issue :
      (t : Server) (u : User) (d : Draw) (now : ℕ)
      → authenticate v.bcrypt s.store body.email body.password ≡ ok u
      → (blocked t.failures (account_key body.email) login_account_max_failures auth_window now).1
        ≡ false
      → Entered now (issue_tokens v t u 200 d now)
  unfolding issue_tokens
  Entered-issue t u d now good free = go (v.generate_access_token u.id u.role) d.raw
    where
      go :
          (a raw : Option String)
          → Entered now (issue_access v t u 200 a (record d { raw = raw }) now)
      go none raw = tt
      go (some a) none = tt
      go (some a) (some raw) =
          tokens (store_refresh_token t.store (v.hash_token raw) u.id (now + v.refresh_ttl) now)
        where
          tokens : (r : Store × Result Error (Unit {0})) → Entered now (stored t u 200 a raw r)
          tokens (store, ok x) = (good, free)
          tokens (store, err e) = tt

  Entered-answer :
      (t : Server) (ip : Bytes) (d : Draw) (now : ℕ) (r : Result Error User)
      → IsValid t.failures
      → authenticate v.bcrypt s.store body.email body.password ≡ r
      → Entered now (authenticated v t (account_key body.email) ip d now r)
  Entered-answer t ip d now (err e) valid good = tt
  Entered-answer t ip d now (ok u) valid good =
      Entered-issue (record t { failures = reset t.failures (account_key body.email) }) u d now good
        (blocked-reset t.failures (account_key body.email) (account_key body.email)
            login_account_max_failures auth_window now valid
          ∙ rw
              ((bytes_eq_instance.beq_iff (account_key body.email) (account_key body.email)).1 refl)
              refl)

  login-Entered :
      (ip : Bytes) (d : Draw) (now : ℕ)
      → IsValid s.failures
      → Entered now (handle_login v s ip (some body) d now)
  unfolding handle_login
  login-Entered ip d now valid = elim (Bool-cases (is_empty body.email || is_empty body.password)) [
    | inl lacking ↦ rw lacking tt
    | inr full ↦
        let key = account_key body.email in
        let b = blocked s.failures key login_account_max_failures auth_window now in
        let valid_b =
          blocked-IsValid s.failures key login_account_max_failures auth_window now valid in
        elim (Bool-cases b.1) [
          | inl stop ↦ rw (full, stop) tt
          | inr pass ↦
              let c = blocked b.0 (login_key ip) login_ip_max_failures auth_window now in
              elim (Bool-cases c.1) [
                | inl stop ↦ rw (full, pass, stop) tt
                | inr through ↦
                    rw (full, pass, through)
                      (Entered-answer (record s { failures = c.0 }) (login_key ip) d now _
                        (blocked-IsValid b.0 (login_key ip) login_ip_max_failures auth_window now
                          valid_b)
                        refl)
              ]
        ]
  ]

-- A login that issues tokens has checked the password of the account that it answers with, and
-- leaves the account unlocked, whatever its failures before.
pub handle_login-issues :
    (v : Services) (s s' : Server) (ip : Bytes) (body : LoginRequest) (d : Draw) (now status : ℕ)
    (u : User) (access raw : String)
    → IsValid s.failures
    → handle_login v s ip (some body) d now ≡ (s', issued status u access raw)
    → (authenticate v.bcrypt s.store body.email body.password ≡ ok u)
      × ((blocked s'.failures (account_key body.email) login_account_max_failures auth_window now).1
          ≡ false)
handle_login-issues v s s' ip body d now status u access raw valid h =
    subst (Entered v s body now) h (login-Entered v s body ip d now valid)

found-id : (s : Store) (id : String) {u : User} → get s id ≡ ok u → u.id ≡ id
unfolding get
found-id s id h = go s.users h
  where
    go :
        (us : List User) {u : User}
        → or_error not_found (first_where (has_id id) us) ≡ ok u
        → u.id ≡ id
    go [] h = absurd cc
    go (w ∷ us) {u} h = elim (Bool-cases (has_id id w)) [
      | inl here ↦
          let same : ◌≡◌ {A = Result Error User} (ok w) (ok u) = rw here at h in
          subst (λ (w : User). w.id ≡ id) (ok-injective same) ((string_eq.beq_iff w.id id).0 here)
      | inr other ↦ go us (rw other at h)
    ]

module _ (v : Services) (s : Server) (hash other : String) (now later : ℕ) where
  -- What stands after a refresh that has issued tokens.
  abbrev Rotated : Server × Response → Type 0
  Rotated (t, issued status u access raw) =
      (validate_refresh_token s.store hash now ≡ ok u.id)
      × (validate_refresh_token t.store other later ≡ (
          if v.hash_token raw === other
          then (if ltb (now + v.refresh_ttl) later then err token_expired else ok u.id)
          else if hash === other
          then err token_not_found
          else validate_refresh_token s.store other later))
  Rotated (t, _) = Unit

  Rotated-issue :
      (failures : FailTracker) (u : User) (d : Draw)
      → validate_refresh_token s.store hash now ≡ ok u.id
      → Rotated (
          issue_tokens v
            (record { store = revoke_refresh_token s.store hash; failures = failures })
            u
            200
            d
            now)
  unfolding issue_tokens
  Rotated-issue failures u d good = go (v.generate_access_token u.id u.role) d.raw
    where
      t : Server
      t = record { store = revoke_refresh_token s.store hash; failures = failures }

      after :
          (new : String)
          → is_ok (store_refresh_token t.store new u.id (now + v.refresh_ttl) now).1 ≡ true
          → validate_refresh_token
              (store_refresh_token t.store new u.id (now + v.refresh_ttl) now).0
              other
              later
            ≡ (if new === other
                then (if ltb (now + v.refresh_ttl) later then err token_expired else ok u.id)
                else if hash === other
                then err token_not_found
                else validate_refresh_token s.store other later)
      after new done = elim (Bool-cases (new === other)) [
        | inl same ↦ rw same (
            subst
              (λ k.
                validate_refresh_token
                  (store_refresh_token t.store new u.id (now + v.refresh_ttl) now).0 k later
                ≡ (if ltb (now + v.refresh_ttl) later then err token_expired else ok u.id))
              ((string_eq.beq_iff new other).0 same)
              (validate-store t.store new u.id (now + v.refresh_ttl) now later done))
        | inr differs ↦ rw differs (
            validate-store_other t.store new other u.id (now + v.refresh_ttl) now later differs
            ∙ validate-revoke s.store hash other later)
      ]

      go : (a raw : Option String) → Rotated (issue_access v t u 200 a (record d { raw = raw }) now)
      go none raw = tt
      go (some a) none = tt
      go (some a) (some raw) =
          tokens (store_refresh_token t.store (v.hash_token raw) u.id (now + v.refresh_ttl) now)
            refl
        where
          tokens :
              (r : Store × Result Error (Unit {0}))
              → store_refresh_token t.store (v.hash_token raw) u.id (now + v.refresh_ttl) now ≡ r
              → Rotated (stored t u 200 a raw r)
          tokens (store, err e) h = tt
          tokens (store, ok x) h = (
            good,
            ap (λ (r : Store × Result Error (Unit {0})). validate_refresh_token r.0 other later)
                  (sym h)
                ∙ after (v.hash_token raw)
                    (ap (λ (r : Store × Result Error (Unit {0})). is_ok r.1) h),
          )

  Rotated-answer :
      (key : Bytes) (failures : FailTracker) (d : Draw) (r : Result Error String)
      → validate_refresh_token s.store hash now ≡ r
      → Rotated (validated v (record { store = s.store; failures = failures }) key hash d now r)
  Rotated-answer key failures d (err e) good = tt
  Rotated-answer key failures d (ok id) good =
      read (get (revoke_refresh_token s.store hash) id) refl
    where
      read :
          (r : Result Error User)
          → get (revoke_refresh_token s.store hash) id ≡ r
          → Rotated (
              found v
                (record { store = revoke_refresh_token s.store hash; failures = failures })
                d
                now
                r)
      read (err e) h = tt
      read (ok u) h =
          Rotated-issue failures u d
            (good ∙ ap ok (sym (found-id (revoke_refresh_token s.store hash) id h)))

refresh-Rotated :
    (v : Services) (s : Server) (ip : Bytes) (raw : String) (other : String) (d : Draw)
    (now later : ℕ)
    → Rotated v s (v.hash_token raw) other now later (handle_refresh v s ip (some raw) d now)
unfolding handle_refresh
refresh-Rotated v s ip String.[] other d now later = tt
refresh-Rotated v s ip (String.◌∷◌ c rest) other d now later =
    let b = blocked s.failures (refresh_key ip) refresh_ip_max_failures auth_window now in
    elim (Bool-cases b.1) [
      | inl stop ↦ rw stop tt
      | inr pass ↦ rw pass (
          Rotated-answer v s (v.hash_token (String.◌∷◌ c rest)) other now later (refresh_key ip) b.0
            d _ refl)
    ]

-- A refresh that issues tokens was of a valid token of the account that it answers with. After it
-- the new token is valid for that account until its time is over, the old one is unknown, unless it
-- has the hash of the new one, and each other token is as valid as before.
pub handle_refresh-rotates :
    (v : Services) (s s' : Server) (ip : Bytes) (old other : String) (d : Draw)
    (now later status : ℕ) (u : User) (access raw : String)
    → handle_refresh v s ip (some old) d now ≡ (s', issued status u access raw)
    → (validate_refresh_token s.store (v.hash_token old) now ≡ ok u.id)
      × (validate_refresh_token s'.store other later ≡ (
          if v.hash_token raw === other
          then (if ltb (now + v.refresh_ttl) later then err token_expired else ok u.id)
          else if v.hash_token old === other
          then err token_not_found
          else validate_refresh_token s.store other later))
handle_refresh-rotates v s s' ip old other d now later status u access raw h =
    subst (Rotated v s (v.hash_token old) other now later) h
      (refresh-Rotated v s ip old other d now later)
