-- ===== src/User/Samples.antt =====
-- A small household of accounts, with a toy hash function that knows two passwords.
use mathlib.Core.Path.{subst}
use mathlib.Core.Option.{some_inj}
use cogitator.Base.{
  ◌≡◌, refl, Bool, true, ◌||◌, ◌&&◌, [], ◌∷◌, Option, none, some, inl, inr, Bool-cases,
  if◌then◌else◌, String,
}
use cogitator.Base.Eqs.{string_eq, pair_eq, ◌===◌}
use cogitator.Base.Texts.{Bytes, codes, bytes_eq, bytes_eq_instance}
use cogitator.User.{
  Bcrypt, Laws, Store, User, InviteCode, RefreshToken, OauthLink, role_admin, role_moderator,
  role_user,
}
use cogitator.User.Integrity.{IsValid}

abbrev pub toy_hash : Bytes → Option String
toy_hash p =
    if bytes_eq p (codes "secret")
    then some "h1"
    else if bytes_eq p (codes "better1")
    then some "h2"
    else none

abbrev pub toy_accepts : String → Bytes → Bool
toy_accepts h p =
    (h === "h1" && bytes_eq p (codes "secret")) || (h === "h2" && bytes_eq p (codes "better1"))

abbrev pub toy : Bcrypt
toy = record { generate_from_password = toy_hash; compare_hash_and_password = toy_accepts }

abbrev pub ann : User
ann = record {
  id = "u1";
  email = codes "ann@example.org";
  name = codes "Ann";
  password_hash = "h1";
  role = role_admin;
  profile_overrides = "{}";
  created_at = 1;
  updated_at = 1;
}

abbrev pub bob : User
bob = record {
  id = "u2";
  email = codes "bob@example.org";
  name = codes "Bob";
  password_hash = "";
  role = role_user;
  profile_overrides = "{}";
  created_at = 2;
  updated_at = 2;
}

abbrev pub open_code : InviteCode
open_code = record {
  code = codes "00FF-12AB-9C0D";
  created_by = "u1";
  role = role_moderator;
  redeemed_by = none;
  expires_at = some 900;
  created_at = 3;
}

abbrev pub used_code : InviteCode
used_code = record {
  code = codes "1111-2222-3333";
  created_by = "u1";
  role = role_user;
  redeemed_by = some "u2";
  expires_at = none;
  created_at = 1;
}

abbrev pub bob_token : RefreshToken
bob_token = record { token_hash = "t1"; user_id = "u2"; expires_at = 500; created_at = 2 }

abbrev pub bob_google : OauthLink
bob_google = record {
  id = "l1";
  user_id = "u2";
  provider = "google";
  subject = "42";
  email = codes "bob@example.org";
  created_at = 2;
}

abbrev pub bob_apple : OauthLink
bob_apple = record {
  id = "l2";
  user_id = "u2";
  provider = "apple";
  subject = "7";
  email = codes "bob@example.org";
  created_at = 3;
}

abbrev pub household : Store
household = record {
  users = ann ∷ bob ∷ [];
  invites = open_code ∷ used_code ∷ [];
  tokens = bob_token ∷ [];
  links = bob_google ∷ bob_apple ∷ [];
  others = "u1" ∷ [];
}

abbrev pub no_one : Store
no_one = record { users = []; invites = []; tokens = []; links = []; others = [] }

pub household-IsValid : IsValid household
household-IsValid = record {
  ids = (refl, (refl, tt));
  emails = (refl, (refl, tt));
  codes = (refl, (refl, tt));
  hashes = (refl, tt);
  pairs = (refl, (refl, tt));
  creators = (refl, (refl, tt));
  redeemers = (tt, (refl, tt));
  token_users = (refl, tt);
  link_users = (refl, (refl, tt));
  other_users = (refl, tt);
}

pub toy-Laws : Laws toy
toy-Laws = record { accepts = accepts; refuses_empty = λ p. refl }
  where
    accepts : (p : Bytes) (h : String) → toy_hash p ≡ some h → toy_accepts h p ≡ true
    accepts p h e = elim (Bool-cases (bytes_eq p (codes "secret"))) [
      | inl first ↦
          let same : ◌≡◌ {A = Option String} (some "h1") (some h) = rw first at e in
          subst (λ h. toy_accepts h p ≡ true) (some_inj.0 same) (rw first refl)
      | inr other ↦ elim (Bool-cases (bytes_eq p (codes "better1"))) [
        | inl second ↦
            let same : ◌≡◌ {A = Option String} (some "h2") (some h) = rw (other, second) at e in
            subst (λ h. toy_accepts h p ≡ true) (some_inj.0 same) (rw second refl)
        | inr neither ↦
            let wrong : ◌≡◌ {A = Option String} none (some h) = rw (other, neither) at e in
            absurd (cc wrong)
      ]
    ]
