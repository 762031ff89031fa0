-- ===== src/User.antt =====
-- server/internal/user/types.go and store.go: the accounts. The four tables of the database are the
-- lists of their rows. A statement is one step on the single writer connection, and its outcome is
-- what the constraints of the schema (server/internal/database/migrations.go) make of it: the keys
-- that are unique, and the foreign keys, which are switched on. No other failure of the database is
-- modelled. A text that the code takes apart or measures is the list of its bytes. Ids and times are arguments; bcrypt is the interface `Bcrypt`.
pub mod Invites
pub mod Tokens
pub mod Links
pub mod Admins
pub mod Lookup
pub mod Integrity
pub mod Restore
pub mod Samples
mod Tests
use cogitator.Base.{
  ℕ, ◌≡◌, ◌+◌, Bool, true, false, not, ◌||◌, ◌&&◌, List, [], ◌∷◌, ◌++◌, Option, none, some, ◌==◌,
  leb, anyb, length, filterb, if◌then◌else◌, String, map,
}
use cogitator.Base.Eqs.{Eq, ◌===◌, string_eq}
use cogitator.Base.Texts.{Bytes, bytes_eq, bytes_eq_instance}
use cogitator.Base.Results.{Result, ok, err}
use cogitator.Base.Rows.{first_where, update_where, delete_where}
use cogitator.Base.Sorting.{sort_by}

pub data Role : Type 0 where
  role_admin role_moderator role_user : Role

abbrev pub role_beq : Role → Role → Bool
role_beq role_admin role_admin = true
role_beq role_moderator role_moderator = true
role_beq role_user role_user = true
role_beq _ _ = false

pub data Error : Type 0 where
  not_found invalid_creds code_redeemed code_expired code_not_found : Error
  token_not_found token_expired duplicate_user link_not_found setup_complete : Error
  -- the errors that the code only wraps: of bcrypt, and of the database
  hashing database : Error

pub record User : Type 0 where
  pub id : String
  pub email : Bytes
  pub name : Bytes
  pub password_hash : String
  pub role : Role
  pub profile_overrides : String
  pub created_at : ℕ
  pub updated_at : ℕ

pub record InviteCode : Type 0 where
  pub code : Bytes
  pub created_by : String
  pub role : Role
  pub redeemed_by : Option String
  pub expires_at : Option ℕ
  pub created_at : ℕ

pub record RefreshToken : Type 0 where
  pub token_hash : String
  pub user_id : String
  pub expires_at : ℕ
  pub created_at : ℕ

pub record OauthLink : Type 0 where
  pub id : String
  pub user_id : String
  pub provider : String
  pub subject : String
  pub email : Bytes
  pub created_at : ℕ

-- `others`: the users that rows of the other tables refer to.
pub record Store : Type 0 where
  pub users : List User
  pub invites : List InviteCode
  pub tokens : List RefreshToken
  pub links : List OauthLink
  pub others : List String

pub record CreateUserInput : Type 0 where
  pub email : Bytes
  pub name : Bytes
  pub password : Bytes
  pub role : Role

-- The part of bcrypt that the code uses: a password that is too long has no hash.
pub record Bcrypt : Type 0 where
  pub generate_from_password : Bytes → Option String
  pub compare_hash_and_password : String → Bytes → Bool

pub record Laws (B : Bcrypt) : Type 0 where
  pub accepts :
      (p : Bytes) (h : String)
      → B.generate_from_password p ≡ some h
      → B.compare_hash_and_password h p ≡ true
  pub refuses_empty : (p : Bytes) → B.compare_hash_and_password "" p ≡ false

abbrev pub has_id : String → User → Bool
has_id id u = u.id === id

abbrev pub has_email : Bytes → User → Bool
has_email email u = u.email === email

-- `INSERT INTO users`: the id and the email are unique.
unfoldable pub insert_user : Store → User → Store × Result Error User
insert_user s u =
    if anyb (has_id u.id) s.users || anyb (has_email u.email) s.users
    then (s, err duplicate_user)
    else (record s { users = s.users ++ u ∷ [] }, ok u)

abbrev pub new_user : CreateUserInput → String → String → ℕ → User
new_user input id hash now = record {
  id = id;
  email = input.email;
  name = input.name;
  password_hash = hash;
  role = input.role;
  profile_overrides = "{}";
  created_at = now;
  updated_at = now;
}

abbrev pub create_hashed :
    Store → CreateUserInput → String → ℕ → Option String → Store × Result Error User
create_hashed s input id now none = (s, err hashing)
create_hashed s input id now (some hash) = insert_user s (new_user input id hash now)

unfoldable pub create : Bcrypt → Store → CreateUserInput → String → ℕ → Store × Result Error User
create B s input id now = create_hashed s input id now (B.generate_from_password input.password)

-- `INSERT ... SELECT ... WHERE NOT EXISTS (SELECT 1 FROM users)`, and the count of its rows.
abbrev pub insert_first : Store → List User → User → Store × Result Error User
insert_first s [] u = insert_user s u
insert_first s (v ∷ vs) u = (s, err setup_complete)

abbrev pub create_first_hashed :
    Store → CreateUserInput → String → ℕ → Option String → Store × Result Error User
create_first_hashed s input id now none = (s, err hashing)
create_first_hashed s input id now (some hash) =
    insert_first s s.users (new_user (record input { role = role_admin }) id hash now)

unfoldable pub create_first_admin :
    Bcrypt → Store → CreateUserInput → String → ℕ → Store × Result Error User
create_first_admin B s input id now =
    create_first_hashed s input id now (B.generate_from_password input.password)

-- An account of a social login has the empty password hash.
unfoldable pub create_social : Store → Bytes → Bytes → Role → String → ℕ → Store × Result Error User
create_social s email name role id now =
    insert_user s
      (new_user (record { email = email; name = name; password = []; role = role }) id "" now)

abbrev pub or_error {ℓ} : {A : Type ℓ} → Error → Option A → Result Error A
or_error e none = err e
or_error e (some a) = ok a

unfoldable pub get : Store → String → Result Error User
get s id = or_error not_found (first_where (has_id id) s.users)

-- `COLLATE NOCASE` folds the letters of ASCII.
abbrev pub fold_case : ℕ → ℕ
fold_case c = if leb 65 c && leb c 90 then c + 32 else c

abbrev pub same_nocase : Bytes → Bytes → Bool
same_nocase a b = bytes_eq (map fold_case a) (map fold_case b)

unfoldable pub get_by_email : Store → Bytes → Result Error User
get_by_email s email = or_error not_found (first_where (λ u. same_nocase u.email email) s.users)

unfoldable pub list : Store → List User
list s = sort_by (λ u. u.created_at) s.users

unfoldable pub count : Store → ℕ
count s = length s.users

-- An UPDATE of the row `id`, and `checkAffected`.
unfoldable pub update_by_id : Store → String → (User → User) → Store × Result Error (Unit {0})
update_by_id s id f =
    if anyb (has_id id) s.users
    then (record s { users = update_where (has_id id) f s.users }, ok tt)
    else (s, err not_found)

unfoldable pub update_role : Store → String → Role → ℕ → Store × Result Error (Unit {0})
update_role s id role now = update_by_id s id (λ u. record u { role = role; updated_at = now })

unfoldable pub update_profile : Store → String → String → ℕ → Store × Result Error (Unit {0})
update_profile s id overrides now =
    update_by_id s id (λ u. record u { profile_overrides = overrides; updated_at = now })

abbrev pub set_password : Option String → User → User
set_password none u = u
set_password (some hash) u = record u { password_hash = hash }

unfoldable pub update_user :
    Store → String → Bytes → Option String → ℕ → Store × Result Error (Unit {0})
update_user s id name hash now =
    update_by_id s id (λ u. record (set_password hash u) { name = name; updated_at = now })

-- The new email may not be that of another row.
unfoldable pub update_email : Store → String → Bytes → ℕ → Store × Result Error (Unit {0})
update_email s id email now =
    if anyb (has_id id) s.users && anyb (λ u. has_email email u && not (has_id id u)) s.users
    then (s, err duplicate_user)
    else update_by_id s id (λ u. record u { email = email; updated_at = now })

abbrev pub names_user : String → InviteCode → Bool
names_user id c = (c.created_by === id) || (elim c.redeemed_by [ none ↦ false | some u ↦ u === id ])

-- The tokens and links of the user go with the row; any other row that refers to it forbids it.
unfoldable pub delete : Store → String → Store × Result Error (Unit {0})
delete s id =
    if not (anyb (has_id id) s.users)
    then (s, err not_found)
    else if anyb (names_user id) s.invites || anyb (λ u. u === id) s.others
    then (s, err database)
    else (
      record s {
        users = delete_where (has_id id) s.users;
        tokens = delete_where (λ t. t.user_id === id) s.tokens;
        links = delete_where (λ l. l.user_id === id) s.links;
      },
      ok tt,
    )

abbrev pub check_password : Bcrypt → Bytes → Result Error User → Result Error User
check_password B password (err e) = err invalid_creds
check_password B password (ok u) =
    if B.compare_hash_and_password u.password_hash password then ok u else err invalid_creds

unfoldable pub authenticate : Bcrypt → Store → Bytes → Bytes → Result Error User
authenticate B s email password = check_password B password (get_by_email s email)
