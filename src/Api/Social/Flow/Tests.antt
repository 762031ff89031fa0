-- ===== src/Api/Social/Flow/Tests.antt =====
-- The first sign-in of a server without accounts, from the start to the claim.
use cogitator.Base.{◌+◌, ◌≡◌, refl, true, [], some, none, arith, ltb, if◌then◌else◌}
use cogitator.Base.Eqs.{string_eq}
use cogitator.Base.Texts.{codes, bytes_eq_instance}
use cogitator.Base.Results.{ok, err}
use cogitator.User.{token_expired, User, count, get, get_by_email, create_social, insert_user}
use cogitator.User.Links.{get_by_oauth_link, link_oauth}
use cogitator.User.Tokens.{store_refresh_token, validate_refresh_token}
use cogitator.User.Samples.{toy, no_one}
use cogitator.Api.TtlStore.{IsValid}
use cogitator.Api.Auth.{Server, Services, Draw}
use cogitator.Api.Social.{Identity, identity}
use cogitator.Api.Social.Login.{PendingAuthResult, complete_social_login, generate_auth_result}
use cogitator.Api.Social.Login.Enters.{Entitled, complete_social_login-enters}
use cogitator.Api.Social.Flow.{
  Flow, Site, StartRequest, Google, reply, accepted, claim_page, handle_google_auth_start,
  handle_google_callback, handle_auth_claim,
}
use cogitator.Api.Social.Flow.Once.{callback_once, start_claim}

abbrev services : Services
services = record {
  bcrypt = toy;
  parse_address = λ a. true;
  generate_access_token = λ id role. some "access";
  hash_token = λ raw. raw;
  refresh_ttl = 1000;
}

abbrev server : Server
server = record { store = no_one; failures = record { entries = []; max = 10 } }

abbrev draw : Draw
draw = record { id = "u1"; raw = some "raw" }

abbrev dan : Identity
dan = record {
  provider = "google";
  subject = "42";
  email = codes "dan@example.org";
  name = codes "Dan";
}

abbrev flow : Flow
flow = record {
  server = server;
  states = record { entries = []; ttl = 600; max = 1000 };
  results = record { entries = []; ttl = 300; max = 1000 };
}

states-IsValid : IsValid flow.states
states-IsValid = record { distinct = tt; bounded = omega arith; positive = omega arith }

results-IsValid : IsValid flow.results
results-IsValid = record { distinct = tt; bounded = omega arith; positive = omega arith }

abbrev site : Site
site = record {
  google_client_id = codes "cogitator";
  public_url = codes "https://cogitator.example";
  server_port = 8484;
  query_escape = λ s. s;
  parse_url = λ s. none;
}

abbrev google : Google
google = record {
  exchange = λ code uri. some code;
  verify = λ token. identity dan;
  validate_access_token = λ token. none;
}

abbrev request : StartRequest
request = record {
  return_to = [];
  purpose = "";
  token = "";
  claim_id = "c1";
  invite_code = [];
  redirect_scheme = [];
  source = "web";
  origin = codes "https://cogitator.example";
  referer = [];
  host = [];
  tls = true;
  forwarded_proto = [];
}

runs : Unit {0}
unfolding complete_social_login generate_auth_result get_by_oauth_link get_by_email create_social
    insert_user link_oauth store_refresh_token get count
runs = tt

complete_social_login-enters_example :
    let (s', result) = complete_social_login services server (identity dan) [] "l1" draw 7 in
    (u : User) × (get_by_oauth_link s'.store "google" "42" ≡ ok u)
    × (services.generate_access_token u.id u.role ≡ some result.access_token)
    × (validate_refresh_token s'.store "raw" 500
        ≡ (if ltb 1007 500 then err token_expired else ok u.id))
    × Entitled server.store [] 7 dan u
unfolding runs
complete_social_login-enters_example =
    complete_social_login-enters services server dan [] "l1" draw 7 500 refl

abbrev begun : Flow
begun = (handle_google_auth_start site flow request "nonce" 10).0

abbrev done : Flow
done = (handle_google_callback services google begun (codes "code") "nonce" "l1" draw 20).0

callback_once_example :
    let again = handle_google_callback services google done (codes "other") "nonce" "l2" draw 21 in
    (again.1 ≡ reply 400 "unknown or expired state")
    × (again.0.server ≡ done.server)
    × (again.0.results ≡ done.results)
callback_once_example =
    callback_once services google begun (codes "code") (codes "other") "nonce" "l1" "l2" draw draw
      20 21 refl refl

abbrev outcome : PendingAuthResult
outcome = (complete_social_login services server (identity dan) [] "l1" draw 20).1

start_claim_example :
    let first = handle_auth_claim done "c1" 30 in
    (first.1 ≡ (if ltb 30 (20 + 300) then claim_page outcome else accepted))
    × ((handle_auth_claim first.0 "c1" 31).1 ≡ accepted)
start_claim_example =
    start_claim services site google flow request "nonce" (codes "code") (codes "code") "l1" draw 10
      20 30 31 states-IsValid results-IsValid refl refl refl refl refl (omega arith)
