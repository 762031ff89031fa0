-- ===== src/Api/Social.antt =====
-- server/internal/api/social_handlers.go: login by the ID token of a provider, and the links of
-- accounts to providers. The verification of the token (server/internal/social) is an argument, as
-- what it answers.
pub mod Unlink
pub mod Login
pub mod Flow
mod Tests
use cogitator.Base.{
  ℕ, ◌≡◌, Bool, true, false, not, ◌||◌, ◌&&◌, List, [], ◌∷◌, Option, none, some, ◌==◌, length,
  filterb, if◌then◌else◌, String,
}
use cogitator.Base.Eqs.{string_eq, ◌===◌}
use cogitator.Base.Texts.{Bytes, is_empty}
use cogitator.Base.Results.{Result, ok, err}
use cogitator.User.{
  Role, role_user, role_beq, Error, User, InviteCode, OauthLink, Store, not_found, duplicate_user,
  link_not_found, get, get_by_email, create_social, update_role, delete,
}
use cogitator.User.Invites.{redeem_invite_code}
use cogitator.User.Links.{
  get_by_oauth_link, link_oauth, list_oauth_links, unlink_oauth, has_password,
}
use cogitator.Api.Auth.{
  Server, Services, Draw, Response, reply, no_content, issue_tokens, invite_error,
}
use cogitator.Api.Auth.InviteLink.{parse_invite_code}

pub record Identity : Type 0 where
  pub provider : String
  pub subject : String
  pub email : Bytes
  pub name : Bytes

pub data Verified : Type 0 where
  identity : Identity → Verified
  unsupported not_configured invalid : Verified

pub record SocialAuthRequest : Type 0 where
  pub provider : String
  pub id_token : String
  pub invite_code : Bytes
  pub name : Bytes

abbrev pub lacks : String → String → Bool
lacks provider token = provider === "" || token === ""

abbrev pub verify_error : Verified → Response
verify_error unsupported = reply 400 "unsupported provider"
verify_error not_configured = reply 400 "provider not configured"
verify_error _ = reply 401 "invalid id token"

abbrev pub display_name : SocialAuthRequest → Identity → Bytes
display_name body i =
    if not (is_empty body.name)
    then body.name
    else if not (is_empty i.name)
    then i.name
    else i.email

abbrev pub taken : String
taken =
    "an account with this email already exists; log in with your password and link your social account from settings"

abbrev pub linked :
    Services → Server → User → Draw → ℕ → Store × Result Error (Unit {0}) → Server × Response
linked v s u d now (store, err _) =
    (record s { store = store }, reply 500 "failed to link oauth identity")
linked v s u d now (store, ok _) = issue_tokens v (record s { store = store }) u 201 d now

-- The link of the new account gets an id of its own.
abbrev pub link_new : Services → Server → Identity → User → String → Draw → ℕ → Server × Response
link_new v s i u link d now =
    linked v s u d now (link_oauth s.store link u.id i.provider i.subject i.email now)

abbrev pub role_applied :
    Services
    → Server
    → Identity
    → User
    → Role
    → String
    → Draw
    → ℕ
    → Store × Result Error (Unit {0})
    → Server × Response
role_applied v s i u role link d now (store, err _) =
    (record s { store = store }, reply 500 "failed to update user role")
role_applied v s i u role link d now (store, ok _) =
    link_new v (record s { store = store }) i (record u { role = role }) link d now

abbrev pub social_redeemed :
    Services
    → Server
    → Identity
    → User
    → String
    → Draw
    → ℕ
    → Store × Result Error InviteCode
    → Server × Response
social_redeemed v s i u link d now (store, err e) =
    (record s { store = (delete store u.id).0 }, invite_error e)
social_redeemed v s i u link d now (store, ok ic) =
    if role_beq ic.role u.role
    then link_new v (record s { store = store }) i u link d now
    else role_applied v (record s { store = store }) i u ic.role link d now
        (update_role store u.id ic.role now)

abbrev pub social_created :
    Services
    → Server
    → Bytes
    → Identity
    → String
    → Draw
    → ℕ
    → Store × Result Error User
    → Server × Response
social_created v s code i link d now (store, err duplicate_user) =
    (record s { store = store }, reply 409 taken)
social_created v s code i link d now (store, err _) =
    (record s { store = store }, reply 500 "failed to create user")
social_created v s code i link d now (store, ok u) =
    social_redeemed v (record s { store = store }) i u link d now
      (redeem_invite_code store (parse_invite_code code) u.id now)

abbrev pub unless_email :
    Services
    → Server
    → SocialAuthRequest
    → Identity
    → String
    → Draw
    → ℕ
    → Result Error User
    → Server × Response
unless_email v s body i link d now (ok u) = (s, reply 409 taken)
unless_email v s body i link d now (err e) =
    social_created v s body.invite_code i link d now
      (create_social s.store i.email (display_name body i) role_user d.id now)

abbrev pub signed_in :
    Services
    → Server
    → SocialAuthRequest
    → Identity
    → String
    → Draw
    → ℕ
    → Result Error User
    → Server × Response
signed_in v s body i link d now (ok u) = issue_tokens v s u 200 d now
signed_in v s body i link d now (err not_found) =
    if is_empty body.invite_code
    then (s, reply 403 "invite_code is required to create an account")
    else unless_email v s body i link d now (get_by_email s.store i.email)
signed_in v s body i link d now (err _) = (s, reply 500 "failed to look up user")

abbrev pub social_verified :
    Services → Server → SocialAuthRequest → Verified → String → Draw → ℕ → Server × Response
social_verified v s body (identity i) link d now =
    signed_in v s body i link d now (get_by_oauth_link s.store i.provider i.subject)
social_verified v s body failure link d now = (s, verify_error failure)

unfoldable pub handle_social_auth :
    Services → Server → Option SocialAuthRequest → Verified → String → Draw → ℕ → Server × Response
handle_social_auth v s none verified link d now = (s, reply 400 "invalid JSON body")
handle_social_auth v s (some body) verified link d now =
    if lacks body.provider body.id_token
    then (s, reply 400 "provider and id_token are required")
    else social_verified v s body verified link d now

abbrev pub link_written : Store × Result Error (Unit {0}) → Store × Response
link_written (s, ok _) = (s, no_content)
link_written (s, err e) = (s, reply 500 "failed to link oauth identity")

abbrev pub link_checked :
    Store → String → Identity → String → ℕ → Result Error User → Store × Response
link_checked s caller i link now (ok u) =
    if u.id === caller
    then (s, no_content)
    else (s, reply 409 "provider identity is already linked to another account")
link_checked s caller i link now (err not_found) =
    link_written (link_oauth s link caller i.provider i.subject i.email now)
link_checked s caller i link now (err _) = (s, reply 500 "failed to check existing link")

abbrev pub link_verified : Store → String → Verified → String → ℕ → Store × Response
link_verified s caller (identity i) link now =
    link_checked s caller i link now (get_by_oauth_link s i.provider i.subject)
link_verified s caller failure link now = (s, verify_error failure)

-- The body is the pair of the provider and the token.
unfoldable pub handle_link_oauth :
    Store → Option String → Option (String × String) → Verified → String → ℕ → Store × Response
handle_link_oauth s none body verified link now = (s, reply 401 "unauthorized")
handle_link_oauth s (some caller) none verified link now = (s, reply 400 "invalid JSON body")
handle_link_oauth s (some caller) (some (provider, token)) verified link now =
    if lacks provider token
    then (s, reply 400 "provider and id_token are required")
    else link_verified s caller verified link now

abbrev pub other_links : String → List OauthLink → ℕ
other_links provider links = length (filterb (λ l. not (l.provider === provider)) links)

abbrev pub unlinked : Store × Result Error (Unit {0}) → Store × Response
unlinked (s, ok _) = (s, no_content)
unlinked (s, err link_not_found) = (s, reply 404 "provider link not found")
unlinked (s, err _) = (s, reply 500 "failed to unlink oauth identity")

abbrev pub unlink_checked : Store → String → String → Result Error Bool → Store × Response
unlink_checked s caller provider (err e) = (s, reply 500 "failed to check password")
unlink_checked s caller provider (ok password) =
    if not password && other_links provider (list_oauth_links s caller) == 0
    then (s, reply 400 "cannot unlink: account has no password and no other linked providers")
    else unlinked (unlink_oauth s caller provider)

unfoldable pub handle_unlink_oauth : Store → Option String → String → Store × Response
handle_unlink_oauth s none provider = (s, reply 401 "unauthorized")
handle_unlink_oauth s (some caller) provider =
    if provider === ""
    then (s, reply 400 "provider is required")
    else unlink_checked s caller provider (has_password s caller)
