-- ===== src/Api/Social/Flow/Once.antt =====
-- The nonce of a sign-in is good for one callback, and its result for one claim.
use mathlib.Core.Option.{some_inj}
use mathlib.Core.Path.{◌∙◌, ap}
use cogitator.Base.{
  ℕ, ◌+◌, ◌<◌, ◌≡◌, refl, inl, inr, Bool, true, false, not, ◌&&◌, ◌||◌, Option, none, some, arith,
  ltb, if◌then◌else◌, Bool-cases, String,
}
use cogitator.Base.Eqs.{string_eq, ◌===◌}
use cogitator.Base.Texts.{Bytes, is_empty}
use cogitator.Base.Results.{Result, ok, err}
use cogitator.User.{Error, User, Store, not_found}
use cogitator.Api.TtlStore.{TtlStore, set, take, IsValid}
use cogitator.Api.TtlStore.Uses.{set-take_once, take_again}
use cogitator.Api.Auth.{Services, Draw}
use cogitator.Api.Social.{Identity, Verified, identity}
use cogitator.Api.Social.Login.{PendingAuthResult, complete_social_login}
use cogitator.Api.Social.Flow.{
  PendingSocialAuth, Flow, Site, StartRequest, reply, accepted, pending_of,
  handle_google_auth_start, google_callback_uri, Google, link_added, link_existing, link_identified,
  link_claims, login_done, exchanged, state_taken, handle_google_callback, claim_page, claim_taken,
  handle_auth_claim,
}

link_added-states :
    (f : Flow) (p : PendingSocialAuth) (r : Store × Result Error (Unit {0}))
    → (link_added f p r).0.states ≡ f.states
link_added-states f p (store, ok x) = refl
link_added-states f p (store, err e) = refl

link_existing-states :
    (f : Flow) (p : PendingSocialAuth) (caller : String) (i : Identity) (link : String) (now : ℕ)
    (r : Result Error User)
    → (link_existing f p caller i link now r).0.states ≡ f.states
link_existing-states f p caller i link now (ok u) = elim (Bool-cases (u.id === caller)) [
  | inl same ↦ rw same refl
  | inr other ↦ rw other refl
]
link_existing-states f p caller i link now (err not_found) = link_added-states f p _
link_existing-states f p caller i link now (err _) = refl

link_identified-states :
    (f : Flow) (p : PendingSocialAuth) (caller link : String) (now : ℕ) (w : Verified)
    → (link_identified f p caller link now w).0.states ≡ f.states
link_identified-states f p caller link now (identity i) =
    link_existing-states f p caller i link now _
link_identified-states f p caller link now _ = refl

link_claims-states :
    (f : Flow) (p : PendingSocialAuth) (w : Verified) (link : String) (now : ℕ) (o : Option String)
    → (link_claims f p w link now o).0.states ≡ f.states
link_claims-states f p w link now none = refl
link_claims-states f p w link now (some caller) = link_identified-states f p caller link now w

exchanged-states :
    (v : Services) (g : Google) (f : Flow) (p : PendingSocialAuth) (link : String) (d : Draw)
    (now : ℕ) (o : Option Bytes)
    → (exchanged v g f p link d now o).0.states ≡ f.states
exchanged-states v g f p link d now none = refl
exchanged-states v g f p link d now (some token) =
    elim (Bool-cases (p.purpose === "link" && not (p.token === ""))) [
      | inl links ↦
          rw links
            (link_claims-states f p (g.verify token) link now (g.validate_access_token p.token))
      | inr logs ↦
          rw logs (elim (Bool-cases (p.claim_id === "")) [ inl e ↦ rw e refl | inr e ↦ rw e refl ])
    ]

state_taken-states :
    (v : Services) (g : Google) (f : Flow) (code : Bytes) (link : String) (d : Draw) (now : ℕ)
    (r : TtlStore PendingSocialAuth × Option PendingSocialAuth)
    → (state_taken v g f code link d now r).0.states ≡ r.0
state_taken-states v g f code link d now (states, none) = refl
state_taken-states v g f code link d now (states, some p) = exchanged-states v g _ p link d now _

-- Whatever comes of a callback, the nonce is gone after it.
callback-states :
    (v : Services) (g : Google) (f : Flow) (code : Bytes) (state link : String) (d : Draw) (now : ℕ)
    → (is_empty code || state === "") ≡ false
    → (handle_google_callback v g f code state link d now).0.states ≡ (take f.states now state).0
unfolding handle_google_callback
callback-states v g f code state link d now given =
    rw given (state_taken-states v g f code link d now _)

taken_none :
    (v : Services) (g : Google) (f : Flow) (code : Bytes) (link : String) (d : Draw) (now : ℕ)
    (r : TtlStore PendingSocialAuth × Option PendingSocialAuth)
    → r.1 ≡ none
    → (state_taken v g f code link d now r).1 ≡ reply 400 "unknown or expired state"
      × ((state_taken v g f code link d now r).0.server ≡ f.server)
      × ((state_taken v g f code link d now r).0.results ≡ f.results)
taken_none v g f code link d now (states, none) e = (refl, refl, refl)
taken_none v g f code link d now (states, some p) e = absurd (cc e)

callback_unknown :
    (v : Services) (g : Google) (f : Flow) (code : Bytes) (state link : String) (d : Draw) (now : ℕ)
    → (is_empty code || state === "") ≡ false
    → (take f.states now state).1 ≡ none
    → let again = handle_google_callback v g f code state link d now in
      (again.1 ≡ reply 400 "unknown or expired state")
      × (again.0.server ≡ f.server)
      × (again.0.results ≡ f.results)
unfolding handle_google_callback
callback_unknown v g f code state link d now given gone =
    rw given (taken_none v g f code link d now (take f.states now state) gone)

-- A callback with a code and a nonce uses the nonce up, whatever comes of it: each later callback
-- with the nonce, with any code and at any time, is answered 400 and changes neither accounts nor
-- results.
pub callback_once :
    (v : Services) (g : Google) (f : Flow) (code other : Bytes) (state link next : String)
    (d e : Draw) (now later : ℕ)
    → (is_empty code || state === "") ≡ false
    → (is_empty other || state === "") ≡ false
    → let after = (handle_google_callback v g f code state link d now).0 in
      let again = handle_google_callback v g after other state next e later in
      (again.1 ≡ reply 400 "unknown or expired state")
      × (again.0.server ≡ after.server)
      × (again.0.results ≡ after.results)
callback_once v g f code other state link next d e now later given given' =
    callback_unknown v g (handle_google_callback v g f code state link d now).0 other state next e
      later given'
      (rw (callback-states v g f code state link d now given) (take_again f.states now later state))

taken_some :
    (v : Services) (g : Google) (f : Flow) (code : Bytes) (link : String) (d : Draw) (now : ℕ)
    (p : PendingSocialAuth) (r : TtlStore PendingSocialAuth × Option PendingSocialAuth)
    → r.1 ≡ some p
    → state_taken v g f code link d now r
      ≡ exchanged v g (record f { states = r.0 }) p link d now (g.exchange code p.redirect_uri)
taken_some v g f code link d now p (states, none) e = absurd (cc e)
taken_some v g f code link d now p (states, some q) e = rw (some_inj.0 e) refl

exchanged-login :
    (v : Services) (g : Google) (f : Flow) (p : PendingSocialAuth) (link : String) (d : Draw)
    (now : ℕ) (token : Bytes)
    → (p.purpose === "link") ≡ false
    → (p.claim_id === "") ≡ false
    → exchanged v g f p link d now (some token)
      ≡ login_done f p now
          (complete_social_login v f.server (g.verify token) p.invite_code link d now)
exchanged-login v g f p link d now token login claims = rw (login, claims) refl

pending_login :
    (site : Site) (r : StartRequest)
    → (r.purpose === "link") ≡ false
    → ((pending_of site r).purpose === "link") ≡ false
pending_login site r h = elim (Bool-cases (r.purpose === "")) [ inl e ↦ rw e refl | inr e ↦ rw e h ]

callback_login :
    (v : Services) (g : Google) (f : Flow) (p : PendingSocialAuth) (code token : Bytes)
    (state link : String) (d : Draw) (now : ℕ)
    → (is_empty code || state === "") ≡ false
    → (take f.states now state).1 ≡ some p
    → (p.purpose === "link") ≡ false
    → (p.claim_id === "") ≡ false
    → g.exchange code p.redirect_uri ≡ some token
    → (handle_google_callback v g f code state link d now).0.results
      ≡ set f.results now p.claim_id
          (complete_social_login v f.server (g.verify token) p.invite_code link d now).1
unfolding handle_google_callback
callback_login v g f p code token state link d now given taken login claims exchanges =
    rw (given, taken_some v g f code link d now p (take f.states now state) taken, exchanges)
      (rw
        (exchanged-login v g (record f { states = (take f.states now state).0 }) p link d now token
          login claims)
        refl)

in_time : (n m : ℕ) → n < m → ltb n m ≡ true
in_time n m h = ground (arith, h)

claim_result :
    (f : Flow) (id : String) (now : ℕ)
    → (id === "") ≡ false
    → handle_auth_claim f id now
      ≡ (record f { results = (take f.results now id).0 }, claim_taken (take f.results now id).1)
unfolding handle_auth_claim
claim_result f id now given = rw given refl

claim_twice :
    (f : Flow) (s : TtlStore PendingAuthResult) (id : String) (result : PendingAuthResult)
    (now claim later : ℕ)
    → IsValid s
    → (id === "") ≡ false
    → f.results ≡ set s now id result
    → let first = handle_auth_claim f id claim in
      (first.1 ≡ (if ltb claim (now + s.ttl) then claim_page result else accepted))
      × ((handle_auth_claim first.0 id later).1 ≡ accepted)
claim_twice f s id result now claim later valid given e =
    let once = set-take_once s now claim later id result valid in
    rw (claim_result f id claim given) (
      rw (claim_result (record f { results = (take f.results claim id).0 }) id later given)
        (rw e (ap claim_taken once.0 ∙ page (ltb claim (now + s.ttl)), ap claim_taken once.1)))
  where
    page :
        (b : Bool)
        → claim_taken (if b then some result else none)
          ≡ (if b then claim_page result else accepted)
    page true = refl
    page false = refl

-- A sign-in that is started with a claim id, and whose callback comes before the nonce expires and
-- with a code that Google exchanges: the claim gives the client what completeSocialLogin answered, if
-- it comes before the result expires, and otherwise 202; and each later claim gives 202.
pub start_claim :
    (v : Services) (site : Site) (g : Google) (f : Flow) (r : StartRequest) (state : String)
    (code token : Bytes) (link : String) (d : Draw) (start back claim later : ℕ)
    → IsValid f.states
    → IsValid f.results
    → is_empty site.google_client_id ≡ false
    → (is_empty code || state === "") ≡ false
    → (r.purpose === "link") ≡ false
    → (r.claim_id === "") ≡ false
    → g.exchange code (google_callback_uri site r) ≡ some token
    → back < start + f.states.ttl
    → let begun = (handle_google_auth_start site f r state start).0 in
      let done = (handle_google_callback v g begun code state link d back).0 in
      let result =
        (complete_social_login v f.server (g.verify token) r.invite_code link d back).1 in
      let first = handle_auth_claim done r.claim_id claim in
      (first.1 ≡ (if ltb claim (back + f.results.ttl) then claim_page result else accepted))
      × ((handle_auth_claim first.0 r.claim_id later).1 ≡ accepted)
unfolding handle_google_auth_start
start_claim v site g f r state code token link d start back claim later valid valid' client given
      login claims exchanges early =
    let p = pending_of site r in
    let begun = record f { states = set f.states start state p } in
    rw client (
      claim_twice _ f.results r.claim_id _ back claim later valid' claims (
        callback_login v g begun p code token state link d back given
          ((set-take_once f.states start back back state p valid).0
            ∙ rw (in_time back (start + f.states.ttl) early) refl)
          (pending_login site r login) claims exchanges))
