-- ===== src/Api/Auth.antt =====
-- server/internal/api/auth_handlers.go and the issuing of tokens in social_handlers.go: the handlers
-- of registration, login, refresh, logout and first-run setup, over the account store and the
-- failure tracker. A request is what its JSON decodes to, with the source IP that `clientIP` finds;
-- an answer is its status and text, or the tokens. Address parsing, hashing and signing are the
-- interface `Services`.
pub mod InviteLink
pub mod Clients
pub mod Register
pub mod Granted
pub mod Sessions
mod Tests
use cogitator.Base.{
  ℕ, ◌+◌, ◌*◌, ◌≡◌, Bool, true, false, not, ◌||◌, List, [], ◌∷◌, ◌++◌, Option, none, some, ltb,
  ◌==◌, length, if◌then◌else◌, String,
}
use cogitator.Base.Texts.{Bytes, codes, is_empty, to_lower, trim_space}
use cogitator.Base.Results.{Result, ok, err}
use cogitator.User.{
  Role, role_admin, role_moderator, role_user, role_beq, Error, User, InviteCode, Store,
  CreateUserInput, Bcrypt, code_not_found, code_redeemed, code_expired, duplicate_user,
  setup_complete, create, create_first_admin, delete, update_role, authenticate, count, get,
}
use cogitator.User.Invites.{redeem_invite_code}
use cogitator.User.Tokens.{store_refresh_token, validate_refresh_token, revoke_refresh_token}
use cogitator.Api.FailTracker.{FailTracker, blocked, fail, reset, second}
use cogitator.Api.Auth.InviteLink.{parse_invite_code}

abbrev pub auth_window : ℕ
auth_window = 15 * 60 * second

abbrev pub login_account_max_failures : ℕ
login_account_max_failures = 5

abbrev pub login_ip_max_failures : ℕ
login_ip_max_failures = 20

abbrev pub register_ip_max_failures : ℕ
register_ip_max_failures = 10

abbrev pub refresh_ip_max_failures : ℕ
refresh_ip_max_failures = 30

pub record Server : Type 0 where
  pub store : Store
  pub failures : FailTracker

pub record Services : Type 0 where
  pub bcrypt : Bcrypt
  pub parse_address : Bytes → Bool
  pub generate_access_token : String → Role → Option String
  pub hash_token : String → String
  pub refresh_ttl : ℕ

-- What a call draws at random: the id of a new account, and a raw refresh token, if that works.
pub record Draw : Type 0 where
  pub id : String
  pub raw : Option String

pub data Response : Type 0 where
  reply : ℕ → String → Response
  throttled : ℕ → Response
  issued : ℕ → User → String → String → Response
  no_content : Response
  needs_setup : Bool → Response

-- The default and the least of the Retry-After header is a second.
abbrev pub write_auth_throttled : ℕ → Response
write_auth_throttled secs = throttled (if ltb secs 1 then 1 else secs)

-- The guard of a handler: the answer 429 where the key is blocked.
abbrev pub unless_blocked :
    Server → Bytes → ℕ → ℕ → (Server → Server × Response) → Server × Response
unless_blocked s key threshold now next =
    let (failures, stop, retry) = blocked s.failures key threshold auth_window now in
    if stop
    then (record s { failures = failures }, write_auth_throttled retry)
    else next (record s { failures = failures })

abbrev pub count_failure : Server → Bytes → ℕ → Server
count_failure s key now = record s { failures = (fail s.failures key auth_window now).0 }

abbrev pub stored :
    Server → User → ℕ → String → String → Store × Result Error (Unit {0}) → Server × Response
stored s u status access raw (store, ok _) =
    (record s { store = store }, issued status u access raw)
stored s u status access raw (store, err _) =
    (record s { store = store }, reply 500 "failed to store refresh token")

abbrev pub issue_refresh :
    Services → Server → User → ℕ → String → Option String → ℕ → Server × Response
issue_refresh v s u status access none now = (s, reply 500 "failed to generate refresh token")
issue_refresh v s u status access (some raw) now =
    stored s u status access raw
      (store_refresh_token s.store (v.hash_token raw) u.id (now + v.refresh_ttl) now)

abbrev pub issue_access :
    Services → Server → User → ℕ → Option String → Draw → ℕ → Server × Response
issue_access v s u status none d now = (s, reply 500 "failed to generate access token")
issue_access v s u status (some access) d now = issue_refresh v s u status access d.raw now

unfoldable pub issue_tokens : Services → Server → User → ℕ → Draw → ℕ → Server × Response
issue_tokens v s u status d now =
    issue_access v s u status (v.generate_access_token u.id u.role) d now

pub record RegisterRequest : Type 0 where
  pub email : Bytes
  pub name : Bytes
  pub password : Bytes
  pub invite_code : Bytes

abbrev pub invite_error : Error → Response
invite_error code_not_found = reply 400 "invalid invite code"
invite_error code_redeemed = reply 400 "invite code already redeemed"
invite_error code_expired = reply 400 "invite code expired"
invite_error _ = reply 500 "failed to redeem invite code"

abbrev pub role_updated :
    Services → Server → User → Role → Draw → ℕ → Store × Result Error (Unit {0}) → Server × Response
role_updated v s u role d now (store, err _) =
    (record s { store = store }, reply 500 "failed to update user role")
role_updated v s u role d now (store, ok _) =
    issue_tokens v (record s { store = store }) (record u { role = role }) 201 d now

-- Steps 3 and 4: the role of the code, and the tokens.
unfoldable pub apply_role : Services → Server → User → Role → Draw → ℕ → Server × Response
apply_role v s u role d now =
    if role_beq role u.role
    then issue_tokens v s u 201 d now
    else role_updated v s u role d now (update_role s.store u.id role now)

-- Step 2, after the redemption: the account goes again where it failed.
abbrev pub redeemed :
    Services
    → Server
    → Bytes
    → User
    → Draw
    → ℕ
    → Store × Result Error InviteCode
    → Server × Response
redeemed v s key u d now (store, err e) =
    (count_failure (record s { store = (delete store u.id).0 }) key now, invite_error e)
redeemed v s key u d now (store, ok ic) = apply_role v (record s { store = store }) u ic.role d now

abbrev pub create_error : Server → Bytes → ℕ → Error → Server × Response
create_error s key now duplicate_user =
    (count_failure s key now, reply 409 "an account with this email already exists")
create_error s key now _ = (s, reply 500 "failed to create user")

abbrev pub created :
    Services → Server → Bytes → Bytes → Draw → ℕ → Store × Result Error User → Server × Response
created v s key code d now (store, err e) = create_error (record s { store = store }) key now e
created v s key code d now (store, ok u) =
    redeemed v (record s { store = store }) key u d now
      (redeem_invite_code store (parse_invite_code code) u.id now)

abbrev pub register_key : Bytes → Bytes
register_key ip = codes "register:ip:" ++ ip

abbrev pub new_input : RegisterRequest → CreateUserInput
new_input body = record {
  email = body.email;
  name = body.name;
  password = body.password;
  role = role_user;
}

unfoldable pub register_new :
    Services → Server → Bytes → RegisterRequest → Draw → ℕ → Server × Response
register_new v s ip body d now =
    created v s (register_key ip) body.invite_code d now
      (create v.bcrypt s.store (new_input body) d.id now)

unfoldable pub handle_register :
    Services → Server → Bytes → Option RegisterRequest → Draw → ℕ → Server × Response
handle_register v s ip none d now = (s, reply 400 "invalid JSON body")
handle_register v s ip (some body) d now =
    if is_empty body.email || is_empty body.password || is_empty body.invite_code
    then (s, reply 400 "email, password, and invite_code are required")
    else if not (v.parse_address body.email)
    then (s, reply 400 "invalid email address")
    else unless_blocked s (register_key ip) register_ip_max_failures now
        (λ s. register_new v s ip body d now)

pub record LoginRequest : Type 0 where
  pub email : Bytes
  pub password : Bytes

abbrev pub account_key : Bytes → Bytes
account_key email = codes "login:account:" ++ to_lower (trim_space email)

abbrev pub login_key : Bytes → Bytes
login_key ip = codes "login:ip:" ++ ip

abbrev pub authenticated :
    Services → Server → Bytes → Bytes → Draw → ℕ → Result Error User → Server × Response
authenticated v s account ip d now (err e) =
    (count_failure (count_failure s account now) ip now, reply 401 "invalid credentials")
authenticated v s account ip d now (ok u) =
    issue_tokens v (record s { failures = reset s.failures account }) u 200 d now

unfoldable pub handle_login :
    Services → Server → Bytes → Option LoginRequest → Draw → ℕ → Server × Response
handle_login v s ip none d now = (s, reply 400 "invalid JSON body")
handle_login v s ip (some body) d now =
    if is_empty body.email || is_empty body.password
    then (s, reply 400 "email and password are required")
    else unless_blocked s (account_key body.email) login_account_max_failures now (λ s.
      unless_blocked s (login_key ip) login_ip_max_failures now (λ s.
        authenticated v s (account_key body.email) (login_key ip) d now
          (authenticate v.bcrypt s.store body.email body.password)))

abbrev pub refresh_key : Bytes → Bytes
refresh_key ip = codes "refresh:ip:" ++ ip

abbrev pub found : Services → Server → Draw → ℕ → Result Error User → Server × Response
found v s d now (err e) = (s, reply 401 "user not found")
found v s d now (ok u) = issue_tokens v s u 200 d now

-- The old token is revoked before the account is read.
abbrev pub validated :
    Services → Server → Bytes → String → Draw → ℕ → Result Error String → Server × Response
validated v s key hash d now (err e) =
    (count_failure s key now, reply 401 "invalid or expired refresh token")
validated v s key hash d now (ok id) =
    let store = revoke_refresh_token s.store hash in
    found v (record s { store = store }) d now (get store id)

-- `raw` is the refresh token of the body, `none` where the JSON is invalid, `""` where it is empty.
unfoldable pub handle_refresh :
    Services → Server → Bytes → Option String → Draw → ℕ → Server × Response
handle_refresh v s ip none d now = (s, reply 400 "invalid JSON body")
handle_refresh v s ip (some String.[]) d now = (s, reply 400 "refresh_token is required")
handle_refresh v s ip (some (String.◌∷◌ c rest)) d now =
    let hash = v.hash_token (String.◌∷◌ c rest) in
    unless_blocked s (refresh_key ip) refresh_ip_max_failures now
      (λ s. validated v s (refresh_key ip) hash d now (validate_refresh_token s.store hash now))

unfoldable pub handle_logout : Services → Server → Option String → Server × Response
handle_logout v s none = (s, reply 400 "invalid JSON body")
handle_logout v s (some String.[]) = (s, reply 400 "refresh_token is required")
handle_logout v s (some (String.◌∷◌ c rest)) = (
  record s { store = revoke_refresh_token s.store (v.hash_token (String.◌∷◌ c rest)) },
  no_content,
)

unfoldable pub handle_needs_setup : Server → Response
handle_needs_setup s = needs_setup (count s.store == 0)

pub record SetupRequest : Type 0 where
  pub email : Bytes
  pub name : Bytes
  pub password : Bytes

abbrev pub set_up : Services → Server → Draw → ℕ → Store × Result Error User → Server × Response
set_up v s d now (store, ok u) = issue_tokens v (record s { store = store }) u 201 d now
set_up v s d now (store, err setup_complete) =
    (record s { store = store }, reply 409 "setup already completed")
set_up v s d now (store, err duplicate_user) =
    (record s { store = store }, reply 409 "an account with this email already exists")
set_up v s d now (store, err _) = (record s { store = store }, reply 500 "failed to create user")

abbrev pub setup_body : Services → Server → Option SetupRequest → Draw → ℕ → Server × Response
setup_body v s none d now = (s, reply 400 "invalid JSON body")
setup_body v s (some body) d now =
    if is_empty body.email || is_empty body.password
    then (s, reply 400 "email and password are required")
    else if not (v.parse_address body.email)
    then (s, reply 400 "invalid email address")
    else if ltb (length body.password) 6
    then (s, reply 400 "password must be at least 6 characters")
    else set_up v s d now (
        create_first_admin v.bcrypt s.store
          (record {
            email = body.email;
            name = body.name;
            password = body.password;
            role = role_user;
          })
          d.id now)

unfoldable pub handle_setup : Services → Server → Option SetupRequest → Draw → ℕ → Server × Response
handle_setup v s body d now =
    if ltb 0 (count s.store)
    then (s, reply 409 "setup already completed")
    else setup_body v s body d now
