-- ===== src/User/Tests.antt =====
-- Calls of the account store on the household.
use cogitator.Base.{ℕ, ◌≡◌, refl, false, List, [], ◌∷◌, none, some, String, All, length}
use cogitator.Base.Texts.{codes}
use cogitator.Base.Rows.{first_where}
use cogitator.Base.Results.{ok, err}
use cogitator.User.{
  Store, CreateUserInput, InviteCode, role_admin, role_user, code_redeemed, insert_user,
  get_by_email,
}
use cogitator.User.Integrity.{
  IsValid, Op, op_create, op_redeem, op_delete_invite, op_delete, op_email, run_all,
}
use cogitator.User.Integrity.Theorem.{run_all-IsValid}
use cogitator.User.Admins.{setups, setups-one, count_ok}
use cogitator.User.Invites.{
  read_invite, redeem_invite_code, write_redeemed, redeemed_by_user, is_past, has_code,
}
use cogitator.User.Invites.Kept.{redeem-once}
use cogitator.User.Samples.{toy, household, household-IsValid, no_one, open_code, ann, bob}

abbrev cal : CreateUserInput
cal = record {
  email = codes "cal@example.org";
  name = codes "Cal";
  password = codes "secret";
  role = role_user;
}

abbrev calls : List (Op × ℕ)
calls =
    (op_create cal "u3", 10)
    ∷ (op_redeem (codes "00FF-12AB-9C0D") "u3" (ok open_code), 11)
    ∷ (op_email "u3" (codes "ann@example.org"), 12)
    ∷ (op_delete "u3", 13)
    ∷ []

run_all-IsValid_example : IsValid (run_all toy calls household)
run_all-IsValid_example = run_all-IsValid toy calls household household-IsValid

abbrev race : List (CreateUserInput × String × ℕ)
race = (cal, "u1", 1) ∷ (record cal { password = codes "other" }, "u2", 1) ∷ (cal, "u3", 2) ∷ []

setups-one_example :
    (count_ok (setups toy no_one race).1 ≡ 1)
    × (length (setups toy no_one race).0.users ≡ count_ok (setups toy no_one race).1)
    × All (λ u. u.role ≡ role_admin) (setups toy no_one race).0.users
setups-one_example = setups-one toy no_one race refl

abbrev redeemed : Store
redeemed = record household {
  invites =
      redeemed_by_user "u2" open_code
      ∷ record open_code {
        code = codes "1111-2222-3333";
        created_by = "u1";
        role = role_user;
        redeemed_by = some "u2";
        expires_at = none;
        created_at = 1;
      }
      ∷ [];
}

abbrev more : List (Op × ℕ)
more =
    (op_redeem (codes "00FF-12AB-9C0D") "u1" (ok open_code), 110)
    ∷ (op_delete_invite (codes "1111-2222-3333"), 120)
    ∷ []

redeem-once_example :
    ((b : InviteCode) × (first_where (has_code (codes "00FF-12AB-9C0D")) household.invites ≡ some b)
      × (b.redeemed_by ≡ none)
      × (is_past 100 b.expires_at ≡ false)
      × (redeemed_by_user "u2" open_code ≡ redeemed_by_user "u2" b))
    × (redeem_invite_code (run_all toy more redeemed) (codes "00FF-12AB-9C0D") "u1" 2000
        ≡ (run_all toy more redeemed, err code_redeemed))
unfolding redeem_invite_code write_redeemed read_invite
redeem-once_example =
    redeem-once toy household redeemed (codes "00FF-12AB-9C0D") "u2" "u1" 100 2000
      (redeemed_by_user "u2" open_code) more runs (tt, (refl, tt))
  where
    runs :
        redeem_invite_code household (codes "00FF-12AB-9C0D") "u2" 100
        ≡ (redeemed, ok (redeemed_by_user "u2" open_code))
    runs = refl

-- The email of an account is unique as it is written, while a login ignores its case.
case_twins :
    let twins =
      (insert_user household (record ann { id = "u3"; email = codes "BOB@example.org" })).0 in
    (length twins.users ≡ 3) × (get_by_email twins (codes "BOB@example.org") ≡ ok bob)
unfolding insert_user get_by_email
case_twins = (refl, refl)
