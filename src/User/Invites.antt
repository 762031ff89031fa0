-- ===== src/User/Invites.antt =====
-- server/internal/user/store.go: the invite codes. Redeeming reads the row on one connection and
-- writes it on another, in two steps with other calls in between; `redeem_invite_code` is the call
-- where nothing comes in between.
pub mod Once
pub mod Kept
use Prim.Native.Nat.{◌/◌, ◌%◌}
use cogitator.Base.{
  ℕ, ◌+◌, Bool, true, false, not, ◌||◌, ◌&&◌, List, [], ◌∷◌, ◌++◌, Option, none, some, ltb, anyb,
  take, drop, if◌then◌else◌, String,
}
use cogitator.Base.Eqs.{◌===◌, string_eq}
use cogitator.Base.Texts.{Bytes, bytes_eq_instance}
use cogitator.Base.Results.{Result, ok, err, ◌>>=◌}
use cogitator.Base.Rows.{first_where, update_where, delete_where}
use cogitator.Base.Sorting.{sort_by}
use cogitator.User.{
  Store, InviteCode, Role, Error, database, code_not_found, code_redeemed, code_expired, has_id,
  or_error,
}

abbrev pub has_code : Bytes → InviteCode → Bool
has_code code c = c.code === code

pub record CreateInviteInput : Type 0 where
  pub created_by : String
  pub role : Role
  pub expires_at : Option ℕ

abbrev pub hex_digit : ℕ → ℕ
hex_digit n = if ltb n 10 then 48 + n else 55 + n

-- `fmt.Sprintf("%X", b)`
abbrev pub hex : Bytes → Bytes
hex [] = []
hex (b ∷ bs) = hex_digit (b / 16) ∷ hex_digit (b % 16) ∷ hex bs

-- On the six bytes of `rand.Read`.
unfoldable pub generate_invite_code : Bytes → Bytes
generate_invite_code b =
    take 4 (hex b) ++ 45 ∷ take 4 (drop 4 (hex b)) ++ 45 ∷ take 4 (drop 8 (hex b))

abbrev pub new_invite : CreateInviteInput → Bytes → ℕ → InviteCode
new_invite input code now = record {
  code = code;
  created_by = input.created_by;
  role = input.role;
  redeemed_by = none;
  expires_at = input.expires_at;
  created_at = now;
}

unfoldable pub create_invite_code :
    Store → CreateInviteInput → Bytes → ℕ → Store × Result Error InviteCode
unfolding generate_invite_code
create_invite_code s input random now =
    let c = new_invite input (generate_invite_code random) now in
    if anyb (has_code c.code) s.invites || not (anyb (has_id c.created_by) s.users)
    then (s, err database)
    else (record s { invites = s.invites ++ c ∷ [] }, ok c)

abbrev pub is_past : ℕ → Option ℕ → Bool
is_past now none = false
is_past now (some t) = ltb t now

abbrev pub check_unused : ℕ → InviteCode → Option String → Result Error InviteCode
check_unused now c (some u) = err code_redeemed
check_unused now c none = if is_past now c.expires_at then err code_expired else ok c

-- The first step: the query and the two tests.
unfoldable pub read_invite : Store → Bytes → ℕ → Result Error InviteCode
read_invite s code now = or_error code_not_found (first_where (has_code code) s.invites) >>= λ c.
    check_unused now c c.redeemed_by

abbrev pub redeemed_by_user : String → InviteCode → InviteCode
redeemed_by_user id c = record c { redeemed_by = some id }

-- The second step: the UPDATE, for what the first step has read.
unfoldable pub write_redeemed :
    Store → Bytes → String → Result Error InviteCode → Store × Result Error InviteCode
write_redeemed s code id (err e) = (s, err e)
write_redeemed s code id (ok c) =
    if anyb (has_code code) s.invites && not (anyb (has_id id) s.users)
    then (s, err database)
    else (
      record s { invites = update_where (has_code code) (redeemed_by_user id) s.invites },
      ok (redeemed_by_user id c),
    )

unfoldable pub redeem_invite_code : Store → Bytes → String → ℕ → Store × Result Error InviteCode
redeem_invite_code s code id now = write_redeemed s code id (read_invite s code now)

abbrev pub newest_first : List InviteCode → List InviteCode
newest_first [] = []
newest_first (c ∷ cs) = newest_first cs ++ c ∷ []

unfoldable pub list_invite_codes : Store → List InviteCode
list_invite_codes s = newest_first (sort_by (λ c. c.created_at) s.invites)

unfoldable pub delete_invite_code : Store → Bytes → Store
delete_invite_code s code = record s { invites = delete_where (has_code code) s.invites }
