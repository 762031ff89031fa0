-- ===== src/Api/Social/Login.antt =====
-- server/internal/api/social_handlers.go, completeSocialLogin and generateAuthResult: the account of
-- a verified identity, new if need be, and the tokens that wait for their client. On a server
-- without accounts the first identity makes the administrator.
pub mod Enters
use cogitator.Base.{
  ℕ, ◌+◌, ◌≡◌, Bool, true, false, not, ◌&&◌, List, [], ◌∷◌, Option, none, some, ◌==◌, if◌then◌else◌,
  String,
}
use cogitator.Base.Eqs.{string_eq, ◌===◌}
use cogitator.Base.Texts.{Bytes, is_empty}
use cogitator.Base.Results.{Result, ok, err}
use cogitator.User.{
  Role, role_admin, role_user, role_beq, Error, User, InviteCode, Store, not_found, duplicate_user,
  code_not_found, code_redeemed, code_expired, get_by_email, create_social, update_role, delete,
  count,
}
use cogitator.User.Invites.{redeem_invite_code}
use cogitator.User.Links.{get_by_oauth_link, link_oauth}
use cogitator.User.Tokens.{store_refresh_token}
use cogitator.Api.Auth.{Server, Services, Draw}
use cogitator.Api.Auth.InviteLink.{parse_invite_code}
use cogitator.Api.Social.{Identity, Verified, identity}

pub record PendingAuthResult : Type 0 where
  pub access_token : String
  pub refresh_token : String
  pub error : String

abbrev pub failed : String → PendingAuthResult
failed text = record { access_token = ""; refresh_token = ""; error = text }

abbrev pub result_stored :
    Server → String → String → Store × Result Error (Unit {0}) → Server × PendingAuthResult
result_stored s access raw (store, ok _) =
    (record s { store = store }, record { access_token = access; refresh_token = raw; error = "" })
result_stored s access raw (store, err _) =
    (record s { store = store }, failed "Failed to store refresh token")

abbrev pub result_refresh :
    Services → Server → User → String → Option String → ℕ → Server × PendingAuthResult
result_refresh v s u access none now = (s, failed "Failed to generate refresh token")
result_refresh v s u access (some raw) now =
    result_stored s access raw
      (store_refresh_token s.store (v.hash_token raw) u.id (now + v.refresh_ttl) now)

abbrev pub result_access :
    Services → Server → User → Option String → Draw → ℕ → Server × PendingAuthResult
result_access v s u none d now = (s, failed "Failed to generate access token")
result_access v s u (some access) d now = result_refresh v s u access d.raw now

unfoldable pub generate_auth_result :
    Services → Server → User → Draw → ℕ → Server × PendingAuthResult
generate_auth_result v s u d now = result_access v s u (v.generate_access_token u.id u.role) d now

abbrev pub identity_linked :
    Services
    → Server
    → User
    → Draw
    → ℕ
    → Store × Result Error (Unit {0})
    → Server × PendingAuthResult
identity_linked v s u d now (store, err _) =
    (record s { store = store }, failed "Failed to link identity")
identity_linked v s u d now (store, ok _) =
    generate_auth_result v (record s { store = store }) u d now

abbrev pub link_identity :
    Services → Server → Identity → User → String → Draw → ℕ → Server × PendingAuthResult
link_identity v s i u link d now =
    identity_linked v s u d now (link_oauth s.store link u.id i.provider i.subject i.email now)

abbrev pub login_role_updated :
    Services
    → Server
    → Identity
    → User
    → Role
    → String
    → Draw
    → ℕ
    → Store × Result Error (Unit {0})
    → Server × PendingAuthResult
login_role_updated v s i u role link d now (store, err _) =
    (record s { store = store }, failed "Failed to update user role")
login_role_updated v s i u role link d now (store, ok _) =
    link_identity v (record s { store = store }) i (record u { role = role }) link d now

abbrev pub redeem_failure : Error → String
redeem_failure code_not_found = "Invalid invite code"
redeem_failure code_redeemed = "Invite code already redeemed"
redeem_failure code_expired = "Invite code expired"
redeem_failure _ = "Failed to redeem invite code"

abbrev pub login_redeemed :
    Services
    → Server
    → Identity
    → User
    → String
    → Draw
    → ℕ
    → Store × Result Error InviteCode
    → Server × PendingAuthResult
login_redeemed v s i u link d now (store, err e) =
    (record s { store = (delete store u.id).0 }, failed (redeem_failure e))
login_redeemed v s i u link d now (store, ok ic) =
    if role_beq ic.role u.role
    then link_identity v (record s { store = store }) i u link d now
    else login_role_updated v (record s { store = store }) i u ic.role link d now
        (update_role store u.id ic.role now)

abbrev pub email_taken : String
email_taken =
    "An account with this email already exists. Log in with your password and link your social account from settings."

abbrev pub login_created :
    Services
    → Server
    → Bool
    → Bytes
    → Identity
    → String
    → Draw
    → ℕ
    → Store × Result Error User
    → Server × PendingAuthResult
login_created v s setup code i link d now (store, err duplicate_user) =
    (record s { store = store }, failed email_taken)
login_created v s setup code i link d now (store, err _) =
    (record s { store = store }, failed "Failed to create user")
login_created v s setup code i link d now (store, ok u) =
    if setup
    then link_identity v (record s { store = store }) i u link d now
    else login_redeemed v (record s { store = store }) i u link d now
        (redeem_invite_code store (parse_invite_code code) u.id now)

abbrev pub name_or_email : Identity → Bytes
name_or_email i = if is_empty i.name then i.email else i.name

abbrev pub unless_known :
    Services
    → Server
    → Bool
    → Bytes
    → Identity
    → String
    → Draw
    → ℕ
    → Result Error User
    → Server × PendingAuthResult
unless_known v s setup code i link d now (ok u) = (s, failed email_taken)
unless_known v s setup code i link d now (err e) = login_created v s setup code i link d now (
    create_social s.store i.email (name_or_email i) (if setup then role_admin else role_user) d.id
      now)

abbrev pub login_found :
    Services
    → Server
    → Bytes
    → Identity
    → String
    → Draw
    → ℕ
    → Result Error User
    → Server × PendingAuthResult
login_found v s code i link d now (ok u) = generate_auth_result v s u d now
login_found v s code i link d now (err not_found) =
    let setup = count s.store == 0 in
    if not setup && is_empty code
    then (s, failed "An invite code is required to create an account. Please register first.")
    else unless_known v s setup code i link d now (get_by_email s.store i.email)
login_found v s code i link d now (err _) = (s, failed "Failed to look up user")

-- `link` is the id of a new link; the token has been verified already.
unfoldable pub complete_social_login :
    Services → Server → Verified → Bytes → String → Draw → ℕ → Server × PendingAuthResult
unfolding generate_auth_result
complete_social_login v s (identity i) code link d now =
    login_found v s code i link d now (get_by_oauth_link s.store i.provider i.subject)
complete_social_login v s _ code link d now = (s, failed "Failed to verify identity")
