-- ===== src/Api/Users/Tests.antt =====
-- What administrators do to the household.
use cogitator.Base.{◌≤◌, ◌≡◌, refl, true, [], ◌∷◌, some, arith}
use cogitator.Base.Texts.{codes, bytes_eq_instance}
use cogitator.Base.Results.{ok, err}
use cogitator.User.{Store, code_redeemed, get, update_user, update_by_id, delete, update_email}
use cogitator.User.Invites.{read_invite}
use cogitator.User.Tokens.{revoke_all_refresh_tokens}
use cogitator.User.Samples.{toy, household, used_code, ann, bob}
use cogitator.Api.Users.{
  reply, count_admins, handle_update_user_role, handle_delete_user, handle_reset_password,
  handle_update_me, clear_private, unredeemed,
}
use cogitator.Api.Users.Admins.{admin_remains}
use cogitator.Api.Users.Access.{delete-opens_code}

runs : Unit {0}
unfolding count_admins handle_update_user_role handle_delete_user handle_reset_password
    clear_private get update_user update_by_id delete revoke_all_refresh_tokens read_invite
    handle_update_me update_email
runs = tt

admin_remains_example :
    (1 ≤ count_admins (handle_update_user_role household (some "u2") "u1" (some "user") 9).0)
    × (1 ≤ count_admins (handle_delete_user household (some "u2") "u1" true true).0)
unfolding count_admins
admin_remains_example =
    admin_remains household (some "u2") "u1" (some "user") 9 true true (refl, (refl, tt))
      (omega arith)

abbrev without_bob : Store
without_bob = (handle_delete_user household (some "u1") "u2" true true).0

delete-opens_code_example :
    (read_invite household (codes "1111-2222-3333") 50 ≡ err code_redeemed)
    × (read_invite without_bob (codes "1111-2222-3333") 50 ≡ ok (unredeemed used_code))
unfolding runs
delete-opens_code_example =
    delete-opens_code household without_bob "u1" "u2" true true (codes "1111-2222-3333") 50
      used_code refl refl refl refl refl

-- A change of the own account whose new password cannot be hashed answers 500, with the email
-- changed all the same.
half_done :
    handle_update_me toy household
      (some "u1")
      (some (record {
        current_password = codes "secret";
        name = [];
        email = codes "new@example.org";
        password = codes "unhashable";
      }))
      30
    ≡ (
      record household {
        users = record ann { email = codes "new@example.org"; updated_at = 30 } ∷ bob ∷ [];
      },
      reply 500 "failed to hash password",
    )
unfolding runs
half_done = refl
