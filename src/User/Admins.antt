-- ===== src/User/Admins.antt =====
-- The first-run setup creates one administrator, however many calls race for it; and one invite
-- code makes one account, or two where two redemptions read it before either writes it.
use cogitator.Base.{
  ℕ, ◌+◌, ◌≡◌, refl, ◌∙◌, anyb, Option-cases, if◌then◌else◌, inl, inr, Bool, true, false, List, [],
  ◌∷◌, Option, none, some, length, All, String,
}
use cogitator.Base.Results.{Result, ok, err, is_ok}
use cogitator.User.{
  Bcrypt, Store, User, CreateUserInput, Error, role_admin, new_user, create_first_admin,
  create_first_hashed, insert_user,
}

-- The answers of a series of setup calls, and the store after it.
abbrev pub setups :
    Bcrypt → Store → List (CreateUserInput × String × ℕ) → Store × List (Result Error User)
setups B s [] = (s, [])
setups B s ((input, id, now) ∷ calls) =
    let (s', r) = create_first_admin B s input id now in
    let (s'', rs) = setups B s' calls in (s'', r ∷ rs)

abbrev pub count_ok {ℓ} : {A : Type ℓ} → List (Result Error A) → ℕ
count_ok [] = 0
count_ok (ok a ∷ rs) = 1 + count_ok rs
count_ok (err e ∷ rs) = count_ok rs

abbrev pub has_hash : Option String → Bool
has_hash none = false
has_hash (some h) = true

-- The calls whose password bcrypt takes.
abbrev pub can_hash : Bcrypt → CreateUserInput × String × ℕ → Bool
can_hash B (input, id, now) = has_hash (B.generate_from_password input.password)

abbrev IsRefused : Store → Store × Result Error User → Type 0
IsRefused s r = (r.0 ≡ s) × (is_ok r.1 ≡ false)

-- On a table with an account the call adds none.
closed_hashed :
    (s : Store) (v : User) (vs : List User) (input : CreateUserInput) (id : String) (now : ℕ)
    (h : Option String)
    → s.users ≡ v ∷ vs
    → IsRefused s (create_first_hashed s input id now h)
closed_hashed s v vs input id now none e = (refl, refl)
closed_hashed s v vs input id now (some h) e = rw e (refl, refl)

count_refused :
    (r : Result Error User) (rs : List (Result Error User))
    → is_ok r ≡ false
    → count_ok (r ∷ rs) ≡ count_ok rs
count_refused (ok u) rs e = absurd cc
count_refused (err x) rs e = refl

setups-closed :
    (B : Bcrypt) (s : Store) (v : User) (vs : List User)
    (calls : List (CreateUserInput × String × ℕ))
    → s.users ≡ v ∷ vs
    → ((setups B s calls).0 ≡ s) × (count_ok (setups B s calls).1 ≡ 0)
unfolding create_first_admin
setups-closed B s v vs [] e = (refl, refl)
setups-closed B s v vs ((input, id, now) ∷ calls) e =
    let h = B.generate_from_password input.password in
    let (same, refused) = closed_hashed s v vs input id now h e in
    let (stays, nothing) = setups-closed B s v vs calls e in
    (
      rw same stays,
      count_refused (create_first_hashed s input id now h).1
            (setups B (create_first_hashed s input id now h).0 calls).1 refused
          ∙ rw same nothing,
    )

-- Of the setup calls that reach a store without accounts, in their order, exactly one succeeds, or
-- none where bcrypt takes no password of theirs; the accounts are then the one administrator.
pub setups-one :
    (B : Bcrypt) (s : Store) (calls : List (CreateUserInput × String × ℕ))
    → s.users ≡ []
    → (count_ok (setups B s calls).1 ≡ (if anyb (can_hash B) calls then 1 else 0))
      × (length (setups B s calls).0.users ≡ count_ok (setups B s calls).1)
      × All (λ u. u.role ≡ role_admin) (setups B s calls).0.users
unfolding create_first_admin insert_user
setups-one B s [] e = (refl, rw e refl, rw e tt)
setups-one B s ((input, id, now) ∷ calls) e =
    elim (Option-cases (B.generate_from_password input.password)) [
      | inl refused ↦ rw refused (setups-one B s calls e)
      | inr (h, hashes) ↦
          let u = new_user (record input { role = role_admin }) id h now in
          let (stays, nothing) = setups-closed B (record s { users = u ∷ [] }) u [] calls refl in
          rw (hashes, e) (rw (stays, nothing) (refl, refl, (refl, tt)))
    ]
