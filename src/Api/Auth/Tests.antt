-- ===== src/Api/Auth/Tests.antt =====
-- Registrations, logins and refreshes on the household.
use cogitator.Base.{
  List, ℕ, ◌+◌, ◌≤◌, ◌≡◌, refl, true, false, [], ◌∷◌, ◌++◌, some, arith, ltb, if◌then◌else◌,
}
use cogitator.Base.Assoc
use cogitator.Base.Eqs.{string_eq, ◌===◌}
use cogitator.Base.Texts.{codes, bytes_eq_instance}
use cogitator.Base.Base64.{encode}
use cogitator.Base.Results.{ok, err}
use cogitator.User.{
  User, InviteCode, code_redeemed, token_not_found, token_expired, role_user, role_moderator,
  create, insert_user, get_by_email, update_by_id, update_role, authenticate, get, new_user,
}
use cogitator.User.Invites.{read_invite, redeem_invite_code, write_redeemed}
use cogitator.User.Tokens.{validate_refresh_token, store_refresh_token, revoke_refresh_token}
use cogitator.User.Samples.{toy, household, household-IsValid, bob, open_code}
use cogitator.User.Integrity.{Op, op_redeem, op_cleanup, run_all}
use cogitator.Api.FailTracker.{FailTracker, IsValid, blocked, reset, prune}
use cogitator.Api.Auth.{
  Server, Services, Draw, throttled, RegisterRequest, handle_register, handle_login, handle_refresh,
  register_new, issue_tokens, apply_role, account_key,
}
use cogitator.Api.Auth.InviteLink.{parse_invite_code, parse_invite_code-encode}
use cogitator.Api.Auth.Clients.{client_ip, client_ip-last_hop}
use cogitator.Api.Auth.Register.{handle_register-atomic}
use cogitator.Api.Auth.Granted.{handle_register-grants}
use cogitator.Api.Auth.Sessions.{handle_login-locked, handle_refresh-rotates}

abbrev services : Services
services = record {
  bcrypt = toy;
  parse_address = λ a. true;
  generate_access_token = λ id role. some "access";
  hash_token = λ raw. if raw === "old" then "t1" else raw;
  refresh_ttl = 1000;
}

abbrev tracker : FailTracker
tracker = record {
  entries =
      (account_key (codes "ann@example.org"), record { count = 5; first = 0; last = 90 }) ∷ [];
  max = 10;
}

abbrev calm : FailTracker
calm = record { entries = []; max = 10 }

tracker-IsValid : IsValid tracker
unfolding Assoc.lookup
tracker-IsValid = record { distinct = (refl, tt); bounded = omega arith }

abbrev server : Server
server = record { store = household; failures = calm }

abbrev locked_server : Server
locked_server = record { store = household; failures = tracker }

abbrev draw : Draw
draw = record { id = "u3"; raw = some "new" }

abbrev cal : RegisterRequest
cal = record {
  email = codes "cal@example.org";
  name = codes "Cal";
  password = codes "secret";
  invite_code = codes "1111-2222-3333";
}

parse_invite_code-encode_example :
    parse_invite_code (encode (codes "https://home.example" ++ b'|' ∷ codes "00FF-12AB-9C0D"))
    ≡ codes "00FF-12AB-9C0D"
parse_invite_code-encode_example =
    parse_invite_code-encode (codes "https://home.example") (codes "00FF-12AB-9C0D") (omega arith)
      (omega arith) refl

client_ip-last_hop_example :
    (client_ip
        (record {
          fly_client_ip = [];
          x_forwarded_for = codes "6.6.6.6" ++ b',' ∷ codes " 10.0.0.9";
          remote_addr = codes "[::1]:80";
        })
        true
      ≡ client_ip
          (record {
            fly_client_ip = [];
            x_forwarded_for = codes " 10.0.0.9";
            remote_addr = codes "[::1]:80";
          })
          true)
    × (client_ip
          (record {
            fly_client_ip = [];
            x_forwarded_for = codes "6.6.6.6";
            remote_addr = codes "[::1]:80";
          })
          false
        ≡ client_ip
            (record {
              fly_client_ip = codes "9.9.9.9";
              x_forwarded_for = codes " 10.0.0.9";
              remote_addr = codes "[::1]:80";
            })
            false)
client_ip-last_hop_example =
    client_ip-last_hop [] (codes "6.6.6.6") (codes " 10.0.0.9") (codes "[::1]:80") (codes "9.9.9.9")
      refl

client_ips :
    (client_ip
        (record {
          fly_client_ip = [];
          x_forwarded_for = codes "6.6.6.6, 10.0.0.9";
          remote_addr = codes "[::1]:80";
        })
        true
      ≡ codes "10.0.0.9")
    × (client_ip
          (record {
            fly_client_ip = codes "9.9.9.9";
            x_forwarded_for = [];
            remote_addr = codes "[::1]:80";
          })
          false
        ≡ codes "::1")
    × (client_ip
          (record { fly_client_ip = []; x_forwarded_for = []; remote_addr = codes "10.1.2.3:999" })
          true
        ≡ codes "10.1.2.3")
unfolding client_ip
client_ips = (refl, refl, refl)

handle_register-atomic_example :
    (handle_register services server (codes "1.2.3.4") (some cal) draw 100).0.store ≡ household
unfolding read_invite parse_invite_code
handle_register-atomic_example =
    handle_register-atomic services server (codes "1.2.3.4") cal draw 100 code_redeemed
      household-IsValid refl

-- Opens what a run of the handlers calls.
runs : Unit {0}
unfolding handle_register register_new create insert_user redeem_invite_code read_invite
    write_redeemed apply_role update_role update_by_id issue_tokens store_refresh_token
    parse_invite_code blocked Assoc.lookup Assoc.keep prune get handle_login authenticate
    get_by_email handle_refresh validate_refresh_token revoke_refresh_token reset Assoc.delete
runs = tt

abbrev dora : RegisterRequest
dora = record cal { invite_code = codes "00FF-12AB-9C0D" }

abbrev dora_user : User
dora_user =
    record (new_user
      (record { email = dora.email; name = dora.name; password = dora.password; role = role_user })
      "u3" "h1" 100) { role = role_moderator }

abbrev after_dora : Server
after_dora = (handle_register services server (codes "1.2.3.4") (some dora) draw 100).0

abbrev status : ℕ
status = 201

abbrev later_calls : List (Op × ℕ)
later_calls = (op_redeem (codes "00FF-12AB-9C0D") "u2" (ok open_code), 200) ∷ (op_cleanup, 300) ∷ []

handle_register-grants_example :
    (status ≡ 201)
    × ((c : InviteCode) × (read_invite household (parse_invite_code dora.invite_code) 100 ≡ ok c)
        × (dora_user.role ≡ c.role)
        × (read_invite
              (run_all toy later_calls after_dora.store)
              (parse_invite_code dora.invite_code)
              400
            ≡ err code_redeemed)
        × (get after_dora.store "u3" ≡ ok dora_user))
unfolding runs
handle_register-grants_example =
    handle_register-grants services server after_dora (codes "1.2.3.4") dora draw 100 400 status
      dora_user "access" "new" later_calls refl (tt, (tt, tt))

handle_login-locked_example :
    (secs : ℕ) × (1 ≤ secs)
    × ((handle_login services locked_server
          (codes "1.2.3.4")
          (some (record { email = codes "Ann@Example.org "; password = codes "secret" }))
          draw
          100).1
        ≡ throttled secs)
    × ((handle_login services locked_server
          (codes "1.2.3.4")
          (some (record { email = codes "Ann@Example.org "; password = codes "secret" }))
          draw
          100).0.store
        ≡ household)
unfolding Assoc.lookup
handle_login-locked_example =
    handle_login-locked services locked_server (codes "1.2.3.4")
      (record { email = codes "Ann@Example.org "; password = codes "secret" }) draw 100
      tracker-IsValid refl refl

abbrev after_refresh : Server
after_refresh = (handle_refresh services server (codes "1.2.3.4") (some "old") draw 100).0

handle_refresh-rotates_example :
    (validate_refresh_token household "t1" 100 ≡ ok "u2")
    × (validate_refresh_token after_refresh.store "t1" 200 ≡ (
        if services.hash_token "new" === "t1"
        then (if ltb (100 + 1000) 200 then err token_expired else ok "u2")
        else if services.hash_token "old" === "t1"
        then err token_not_found
        else validate_refresh_token household "t1" 200))
unfolding runs
handle_refresh-rotates_example =
    handle_refresh-rotates services server after_refresh (codes "1.2.3.4") "old" "t1" draw 100 200
      200 bob "access" "new" refl
