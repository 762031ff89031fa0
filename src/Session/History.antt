-- ===== src/Session/History.antt =====
-- The history of a session: what is appended is read back, and what truncation leaves is what a
-- limit of that length reads.
use mathlib.Core.Path.{subst, sym, ap, ◌∙◌}
use cogitator.Base.{
  ℕ, zero, suc, leb, ◌-◌, ◌≤◌, ◌≡◌, ◌≢◌, refl, Bool, true, false, not, ◌&&◌, inl, inr, List, [],
  ◌∷◌, ◌++◌, arith, anyb, filterb, length, take, drop, ◌==◌, All, Bool-cases, length-append,
  if◌then◌else◌, String,
}
use cogitator.Base.Eqs.{string_eq, nat_eq, ◌===◌}
use cogitator.Base.Results.{Result, ok, err}
use cogitator.Base.Rows.{delete_where, anyb-append, Unique, Unique-filterb}
use cogitator.Session.{
  Store, Message, Error, add_message, get_messages, message_count, truncate_messages, in_session,
  is_in, is_account, has_key, reverse, newest,
}

module _ {ℓ} {A : Type ℓ} where
  reverse-snoc : (xs : List A) (x : A) → reverse (xs ++ x ∷ []) ≡ x ∷ reverse xs
  reverse-snoc [] x = refl
  reverse-snoc (y ∷ xs) x = rw (reverse-snoc xs x) refl

  reverse_twice : (xs : List A) → reverse (reverse xs) ≡ xs
  reverse_twice [] = refl
  reverse_twice (x ∷ xs) = reverse-snoc (reverse xs) x ∙ ap (λ ys. x ∷ ys) (reverse_twice xs)

  length-reverse : (xs : List A) → length (reverse xs) ≡ length xs
  length-reverse [] = refl
  length-reverse (x ∷ xs) = omega (arith, length-append (reverse xs) (x ∷ []), length-reverse xs)

  take_within : (n : ℕ) (xs ys : List A) → n ≤ length xs → take n (xs ++ ys) ≡ take n xs
  take_within zero xs ys h = refl
  take_within (suc n) [] ys h = absurd (omega (arith, h))
  take_within (suc n) (x ∷ xs) ys h = ap (λ zs. x ∷ zs) (take_within n xs ys (omega (arith, h)))

  take_all : (n : ℕ) (xs : List A) → length xs ≤ n → take n xs ≡ xs
  take_all zero [] h = refl
  take_all zero (x ∷ xs) h = absurd (omega (arith, h))
  take_all (suc n) [] h = refl
  take_all (suc n) (x ∷ xs) h = ap (λ zs. x ∷ zs) (take_all n xs (omega (arith, h)))

  take_nil : (n : ℕ) → take {A = A} n [] ≡ []
  take_nil zero = refl
  take_nil (suc n) = refl

  take-reverse : (n : ℕ) (xs : List A) → take n (reverse xs) ≡ reverse (drop (length xs - n) xs)
  take-reverse n [] = take_nil n ∙ ap reverse (sym (drop_nil (0 - n)))
    where
      drop_nil : (m : ℕ) → drop {A = A} m [] ≡ []
      drop_nil zero = refl
      drop_nil (suc m) = refl
  take-reverse n (x ∷ xs) = elim (Bool-cases (leb n (length xs))) [
    | inl fits ↦
        let less : suc (length xs) - n ≡ suc (length xs - n) = ground (arith, fits) in
        take_within n (reverse xs) (x ∷ []) (ground (arith, fits, length-reverse xs))
        ∙ take-reverse n xs
        ∙ ap (λ m. reverse (drop m (x ∷ xs))) (sym less)
    | inr longer ↦
        let none_left : suc (length xs) - n ≡ 0 = ground (arith, longer) in
        take_all n (reverse (x ∷ xs)) (ground (arith, longer, length-reverse (x ∷ xs)))
        ∙ ap (λ m. reverse (drop m (x ∷ xs))) (sym none_left)
  ]

  newest-drop : (n : ℕ) (xs : List A) → newest n xs ≡ drop (length xs - n) xs
  newest-drop n xs = ap reverse (take-reverse n xs) ∙ reverse_twice (drop (length xs - n) xs)

module _ (key : String) where
  -- The messages of a session after others of it were deleted, and of another session.
  filterb-delete :
      (p : Message → Bool) (xs : List Message)
      → filterb (in_session key) (delete_where (λ m. in_session key m && not (p m)) xs)
        ≡ filterb p (filterb (in_session key) xs)
  filterb-delete p [] = refl
  filterb-delete p (m ∷ xs) = ground (arith, filterb-delete p xs)

  filterb-delete_other :
      (other : String) (p : Message → Bool) (xs : List Message)
      → (key === other) ≡ false
      → filterb (in_session other) (delete_where (λ m. in_session key m && p m) xs)
        ≡ filterb (in_session other) xs
  filterb-delete_other other p [] h = refl
  filterb-delete_other other p (m ∷ xs) h = ground (
    arith,
    string_eq.beq_iff m.session_key key,
    string_eq.beq_iff m.session_key other,
    string_eq.beq_iff key other,
    h,
    filterb-delete_other other p xs h,
  )

is_in-reverse : (ks : List Message) (m : Message) → is_in (reverse ks) m ≡ is_in ks m
is_in-reverse [] m = refl
is_in-reverse (k ∷ ks) m =
    ground (arith, anyb-append (λ k. k.id == m.id) (reverse ks) (k ∷ []), is_in-reverse ks m)

filterb_same :
    (p q : Message → Bool) (xs : List Message)
    → ((m : Message) → p m ≡ q m)
    → filterb p xs ≡ filterb q xs
filterb_same p q [] h = refl
filterb_same p q (m ∷ xs) h = rw (h m, filterb_same p q xs h) refl

-- Of rows with unique ids, those whose id stands in a final part are that part.
filterb-All :
    (p : Message → Bool) (xs : List Message) → All (λ m. p m ≡ true) xs → filterb p xs ≡ xs
filterb-All p [] h = refl
filterb-All p (m ∷ xs) h = rw h.0 (ap (λ ys. m ∷ ys) (filterb-All p xs h.1))

All-in :
    (ks xs : List Message)
    → All (λ m. is_in ks m ≡ true) xs
    → (k : Message) → All (λ m. is_in (k ∷ ks) m ≡ true) xs
All-in ks [] h k = tt
All-in ks (m ∷ xs) h k = (ground (arith, h.0), All-in ks xs h.1 k)

self_in : (xs : List Message) → All (λ m. is_in xs m ≡ true) xs
self_in [] = tt
self_in (m ∷ xs) = (ground arith, All-in xs xs (self_in xs) m)

filterb-tail :
    (front back : List Message)
    → Unique (λ (m : Message). m.id) (front ++ back)
    → filterb (is_in back) (front ++ back) ≡ back
filterb-tail [] back u = filterb-All (is_in back) back (self_in back)
filterb-tail (a ∷ front) back u =
    let missing : is_in back a ≡ false =
      ground (arith, u.0, anyb-append (λ k. k.id == a.id) front back) in
    rw missing (filterb-tail front back u.1)

take-drop {ℓ} : {A : Type ℓ} (n : ℕ) (xs : List A) → take n xs ++ drop n xs ≡ xs
take-drop zero xs = refl
take-drop (suc n) [] = refl
take-drop (suc n) (x ∷ xs) = ap (λ ys. x ∷ ys) (take-drop n xs)

kept_rows :
    (n : ℕ) (xs : List Message)
    → Unique (λ (m : Message). m.id) xs
    → filterb (is_in (take n (reverse xs))) xs ≡ newest n xs
kept_rows n xs u =
    let k = length xs - n in
    filterb_same (is_in (take n (reverse xs))) (is_in (drop k xs)) xs
      (λ m. ap (λ ks. is_in ks m) (take-reverse n xs) ∙ is_in-reverse (drop k xs) m)
    ∙ subst (λ ys. filterb (is_in (drop k xs)) ys ≡ drop k xs) (take-drop k xs)
        (filterb-tail (take k xs) (drop k xs)
          (subst (Unique (λ (m : Message). m.id)) (sym (take-drop k xs)) u))
    ∙ sym (newest-drop n xs)

-- Where ids are unique, the session reads after a truncation to a positive length exactly what it
-- read with that limit before, which is the last messages of its history, in order; and the history
-- of each other session is as before.
pub truncate-get :
    (s : Store) (key other : String) (keep : ℕ)
    → Unique (λ (m : Message). m.id) s.messages
    → keep ≢ 0
    → (get_messages (truncate_messages s key keep) other 0
        ≡ (if key === other then get_messages s key keep else get_messages s other 0))
      × (get_messages s key keep ≡ drop (message_count s key - keep) (get_messages s key 0))
unfolding get_messages truncate_messages message_count
truncate-get s key other keep unique positive =
    let nonzero : (keep == 0) ≡ false = ground (arith, positive) in
    let rows = filterb (in_session key) s.messages in
    let own : filterb (in_session key) (
          delete_where (λ m. in_session key m && not (is_in (take keep (reverse rows)) m))
            s.messages)
        ≡ newest keep rows =
      filterb-delete key (is_in (take keep (reverse rows))) s.messages
      ∙ kept_rows keep rows
          (Unique-filterb (λ (m : Message). m.id) (in_session key) s.messages unique) in
    (
      elim (Bool-cases (key === other)) [
        | inl same ↦
            rw (nonzero, same)
              (subst
                (λ k.
                  filterb (in_session k) (
                    delete_where (λ m. in_session key m && not (is_in (take keep (reverse rows)) m))
                      s.messages)
                  ≡ newest keep rows)
                ((string_eq.beq_iff key other).0 same) own)
        | inr differs ↦
            rw (nonzero, differs)
              (filterb-delete_other key other (λ m. not (is_in (take keep (reverse rows)) m))
                s.messages differs)
      ],
      rw nonzero (newest-drop keep rows),
    )

filterb-append :
    (p : Message → Bool) (xs ys : List Message)
    → filterb p (xs ++ ys) ≡ filterb p xs ++ filterb p ys
filterb-append p [] ys = refl
filterb-append p (x ∷ xs) ys = ground (arith, filterb-append p xs ys)

append_nil : (xs : List Message) → xs ++ [] ≡ xs
append_nil [] = refl
append_nil (x ∷ xs) = ap (λ ys. x ∷ ys) (append_nil xs)

abbrev Added : Store → String → String → Message → ℕ → Store × Result Error ℕ → Type 0
Added s key other msg now (t, err e) = Unit
Added s key other msg now (t, ok id) = get_messages t other 0 ≡ (
    if key === other
    then get_messages s other 0 ++ record msg { id = id; session_key = key; created_at = now } ∷ []
    else get_messages s other 0)

add-Added :
    (s : Store) (key other : String) (msg : Message) (now : ℕ)
    → Added s key other msg now (add_message s key msg now)
unfolding get_messages add_message
add-Added s key other msg now =
    elim (Bool-cases (anyb (has_key key) s.sessions && is_account s msg.user_id)) [
      | inr refused ↦ rw refused tt
      | inl fine ↦
          let m = record msg { id = s.next_id; session_key = key; created_at = now } in
          rw (fine, filterb-append (in_session other) s.messages (m ∷ []))
            (elim (Bool-cases (key === other)) [
              | inl same ↦ rw same refl
              | inr differs ↦ rw differs (append_nil (filterb (in_session other) s.messages))
            ])
    ]

-- A message that was stored under an id is the last of its session's history, with that id, the
-- session and the time, and the history of each other session is as before.
pub add-get :
    (s s' : Store) (key other : String) (msg : Message) (now id : ℕ)
    → add_message s key msg now ≡ (s', ok id)
    → get_messages s' other 0 ≡ (
        if key === other
        then get_messages s other 0
          ++ record msg { id = id; session_key = key; created_at = now } ∷ []
        else get_messages s other 0)
add-get s s' key other msg now id h =
    subst (Added s key other msg now) h (add-Added s key other msg now)
