-- ===== src/Api/Social/Flow.antt =====
-- server/internal/api/social_handlers.go, the sign-in by redirects: handleGoogleAuthStart leaves a
-- nonce in one single-use store, handleGoogleCallback takes it and leaves the result in another,
-- and handleAuthClaim hands the result to the client that asks for it. What the code of Google gives
-- (exchangeGoogleCode), its verification, the JWT service, the escaping of URLs and their parsing are
-- arguments; the HTML around the texts of a page and the wrapped error texts are left out.
pub mod Once
mod Tests
use cogitator.Base.{
  ℕ, ◌+◌, ◌*◌, ◌≡◌, Bool, true, false, not, ◌&&◌, ◌||◌, List, [], ◌∷◌, ◌++◌, Option, none, some,
  if◌then◌else◌, String,
}
use cogitator.Base.Eqs.{string_eq, ◌===◌}
use cogitator.Base.Texts.{Bytes, codes, is_empty}
use cogitator.Base.Numbers.{print}
use cogitator.Base.Results.{Result, ok, err}
use cogitator.User.{Error, User, Store, not_found}
use cogitator.User.Links.{get_by_oauth_link, link_oauth}
use cogitator.Api.FailTracker.{second}
use cogitator.Api.TtlStore.{TtlStore, new_ttl_store, set, take}
use cogitator.Api.Auth.{Server, Services, Draw}
use cogitator.Api.Social.{Identity, Verified, identity}
use cogitator.Api.Social.Login.{PendingAuthResult, complete_social_login}

pub record PendingSocialAuth : Type 0 where
  pub return_to : Bytes
  pub purpose : String
  pub token : String
  pub claim_id : String
  pub invite_code : Bytes
  pub redirect_scheme : Bytes
  pub source : String
  pub origin : Bytes
  pub redirect_uri : Bytes

pub record Flow : Type 0 where
  pub server : Server
  pub states : TtlStore PendingSocialAuth
  pub results : TtlStore PendingAuthResult

abbrev pub minute : ℕ
minute = 60 * second

unfoldable pub new_flow : Server → Flow
new_flow server = record {
  server = server;
  states = new_ttl_store (10 * minute) 1000;
  results = new_ttl_store (5 * minute) 1000;
}

-- The configuration of the server, and `net/url`: the scheme and the host of an address.
pub record Site : Type 0 where
  pub google_client_id : Bytes
  pub public_url : Bytes
  pub server_port : ℕ
  pub query_escape : Bytes → Bytes
  pub parse_url : Bytes → Option (Bytes × Bytes)

-- The query and the headers of a start request.
pub record StartRequest : Type 0 where
  pub return_to : Bytes
  pub purpose : String
  pub token : String
  pub claim_id : String
  pub invite_code : Bytes
  pub redirect_scheme : Bytes
  pub source : String
  pub origin : Bytes
  pub referer : Bytes
  pub host : Bytes
  pub tls : Bool
  pub forwarded_proto : Bytes

pub data Page : Type 0 where
  reply : ℕ → String → Page
  error_page : String → Bytes → Page
  branded : String → String → Page
  redirect : Bytes → Page
  accepted : Page
  claimed : PendingAuthResult → Page

abbrev pub scheme_of : StartRequest → Bytes
scheme_of r =
    if not (is_empty r.forwarded_proto)
    then r.forwarded_proto
    else if r.tls
    then codes "https"
    else codes "http"

abbrev pub callback_path : Bytes
callback_path = codes "/api/auth/google/callback"

abbrev pub google_callback_uri : Site → StartRequest → Bytes
google_callback_uri site r =
    if not (is_empty site.public_url)
    then site.public_url ++ callback_path
    else if not (is_empty r.host)
    then scheme_of r ++ codes "://" ++ r.host ++ callback_path
    else codes "http://127.0.0.1:" ++ print site.server_port ++ callback_path

abbrev pub host_origin : StartRequest → Bytes
host_origin r = if is_empty r.host then [] else scheme_of r ++ codes "://" ++ r.host

abbrev pub referer_or : Bytes → Option (Bytes × Bytes) → Bytes
referer_or fallback none = fallback
referer_or fallback (some (scheme, host)) =
    if is_empty host then fallback else scheme ++ codes "://" ++ host

abbrev pub request_origin : Site → StartRequest → Bytes
request_origin site r =
    if not (is_empty r.origin)
    then r.origin
    else if is_empty r.referer
    then host_origin r
    else referer_or (host_origin r) (site.parse_url r.referer)

abbrev pub pending_of : Site → StartRequest → PendingSocialAuth
pending_of site r = record {
  return_to = r.return_to;
  purpose = if r.purpose === "" then "login" else r.purpose;
  token = r.token;
  claim_id = r.claim_id;
  invite_code = r.invite_code;
  redirect_scheme = r.redirect_scheme;
  source = r.source;
  origin = request_origin site r;
  redirect_uri = google_callback_uri site r;
}

abbrev pub google_url : Site → Bytes → String → Bytes
google_url site uri state =
    codes "https://accounts.google.com/o/oauth2/v2/auth?client_id="
    ++ site.query_escape site.google_client_id
    ++ codes "&redirect_uri="
    ++ site.query_escape uri
    ++ codes "&response_type=code&scope=openid+email+profile&state="
    ++ site.query_escape (codes state)
    ++ codes "&access_type=online&prompt=select_account"

-- `state` is the nonce that is drawn.
unfoldable pub handle_google_auth_start : Site → Flow → StartRequest → String → ℕ → Flow × Page
handle_google_auth_start site f r state now =
    if is_empty site.google_client_id then (f, reply 400 "Google sign-in not configured") else (
      record f { states = set f.states now state (pending_of site r) },
      redirect (google_url site (google_callback_uri site r) state),
    )

-- What the callback asks others: the ID token for a code and a redirect address, the identity of an
-- ID token, and the account of an access token.
pub record Google : Type 0 where
  pub exchange : Bytes → Bytes → Option Bytes
  pub verify : Bytes → Verified
  pub validate_access_token : String → Option String

abbrev pub or_word : Bytes → String → Bytes
or_word s word = if is_empty s then codes word else s

abbrev pub back : PendingSocialAuth → String → Page
back p word = redirect (p.origin ++ codes "/#" ++ or_word p.return_to word)

abbrev pub error_back : PendingSocialAuth → String → Page
error_back p text = error_page text (or_word p.return_to "login")

abbrev pub link_page : PendingSocialAuth → Page
link_page p =
    if p.source === "web"
    then back p "account"
    else branded "Google account connected successfully." "You can close this window."

abbrev pub with_store : Flow → Store → Flow
with_store f store = record f { server = record f.server { store = store } }

abbrev pub link_added : Flow → PendingSocialAuth → Store × Result Error (Unit {0}) → Flow × Page
link_added f p (store, err _) = (with_store f store, error_back p "Failed to link Google account.")
link_added f p (store, ok _) = (with_store f store, link_page p)

abbrev pub link_existing :
    Flow → PendingSocialAuth → String → Identity → String → ℕ → Result Error User → Flow × Page
link_existing f p caller i link now (ok u) =
    if u.id === caller
    then (f, link_page p)
    else (f, error_back p "This Google account is already linked to another user.")
link_existing f p caller i link now (err not_found) =
    link_added f p (link_oauth f.server.store link caller i.provider i.subject i.email now)
link_existing f p caller i link now (err _) = (f, error_back p "Failed to check existing link")

abbrev pub link_identified : Flow → PendingSocialAuth → String → String → ℕ → Verified → Flow × Page
link_identified f p caller link now (identity i) =
    link_existing f p caller i link now (get_by_oauth_link f.server.store i.provider i.subject)
link_identified f p caller link now _ = (f, error_back p "Failed to verify Google identity")

abbrev pub link_claims :
    Flow → PendingSocialAuth → Verified → String → ℕ → Option String → Flow × Page
link_claims f p verified link now none =
    (f, error_back p "Session expired. Please sign in again and retry.")
link_claims f p verified link now (some caller) = link_identified f p caller link now verified

abbrev pub login_page : PendingSocialAuth → PendingAuthResult → Page
login_page p r =
    if not (is_empty p.redirect_scheme)
    then redirect (
        p.redirect_scheme
        ++ codes "://auth-callback?claim_id="
        ++ codes p.claim_id
        ++ codes "&status="
        ++ (if r.error === "" then codes "success" else codes "error"))
    else if p.source === "web"
    then back p "login"
    else if r.error === ""
    then branded "Signed in successfully." "You can close this window."
    else branded "Sign-in failed." r.error

abbrev pub login_done : Flow → PendingSocialAuth → ℕ → Server × PendingAuthResult → Flow × Page
login_done f p now (server, result) = (
  record { server = server; states = f.states; results = set f.results now p.claim_id result },
  login_page p result,
)

abbrev pub fragment_page : PendingSocialAuth → Bytes → Page
fragment_page p token = redirect (
    codes "/#"
    ++ or_word p.return_to "login"
    ++ codes "?google_id_token="
    ++ token
    ++ codes "&purpose="
    ++ codes p.purpose)

abbrev pub exchanged :
    Services → Google → Flow → PendingSocialAuth → String → Draw → ℕ → Option Bytes → Flow × Page
exchanged v g f p link d now none = (f, error_back p "Failed to exchange authorization code")
exchanged v g f p link d now (some token) =
    if p.purpose === "link" && not (p.token === "")
    then link_claims f p (g.verify token) link now (g.validate_access_token p.token)
    else if not (p.claim_id === "")
    then login_done f p now
        (complete_social_login v f.server (g.verify token) p.invite_code link d now)
    else (f, fragment_page p token)

abbrev pub state_taken :
    Services
    → Google
    → Flow
    → Bytes
    → String
    → Draw
    → ℕ
    → TtlStore PendingSocialAuth × Option PendingSocialAuth
    → Flow × Page
state_taken v g f code link d now (states, none) =
    (record f { states = states }, reply 400 "unknown or expired state")
state_taken v g f code link d now (states, some p) =
    exchanged v g (record f { states = states }) p link d now (g.exchange code p.redirect_uri)

unfoldable pub handle_google_callback :
    Services → Google → Flow → Bytes → String → String → Draw → ℕ → Flow × Page
handle_google_callback v g f code state link d now =
    if is_empty code || state === ""
    then (f, reply 400 "missing code or state")
    else state_taken v g f code link d now (take f.states now state)

abbrev pub claim_page : PendingAuthResult → Page
claim_page r = if r.error === "" then claimed r else reply 400 r.error

abbrev pub claim_taken : Option PendingAuthResult → Page
claim_taken none = accepted
claim_taken (some r) = claim_page r

unfoldable pub handle_auth_claim : Flow → String → ℕ → Flow × Page
handle_auth_claim f id now =
    if id === ""
    then (f, reply 400 "claim id is required")
    else let (results, o) = take f.results now id in (record f { results = results }, claim_taken o)
