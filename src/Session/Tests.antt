-- ===== src/Session/Tests.antt =====
-- Two sessions with a short history.
use cogitator.Base.{
  ℕ, ◌-◌, ◌≡◌, refl, true, false, [], ◌∷◌, some, arith, drop, map, if◌then◌else◌, String,
}
use cogitator.Base.Eqs.{string_eq, nat_eq, ◌===◌}
use cogitator.Session.{
  Store, Session, Message, new_session, get, get_or_create, add_message, get_messages,
  message_count, truncate_messages, set_active_session, get_active_sessions,
}
use cogitator.Session.History.{truncate-get}

abbrev web1 : String
web1 = "web:1"

abbrev message : ℕ → String → String → Message
message id key text = record {
  id = id;
  session_key = key;
  user_id = some "u1";
  role = "user";
  content = text;
  tool_calls = "";
  tool_call_id = "";
  tools_used = "";
  metadata = "";
  created_at = id;
}

abbrev first : Session
first = record (new_session "web:1" "web" "1" "u1" false 1) { is_active = true }

abbrev second : Session
second = new_session "web:2" "web" "2" "u1" false 2

abbrev orphan : Session
orphan = record (new_session "web:3" "web" "3" "" false 3) { is_active = true }

abbrev history : Store
history = record {
  sessions = first ∷ second ∷ orphan ∷ [];
  messages =
      message 1 "web:1" "hello"
      ∷ message 2 "web:2" "other"
      ∷ message 3 "web:1" "how are you"
      ∷ message 4 "web:1" "bye"
      ∷ [];
  next_id = 5;
  accounts = "u1" ∷ [];
}

runs : Unit {0}
unfolding get get_or_create add_message get_messages message_count truncate_messages
    set_active_session get_active_sessions
runs = tt

truncate-get_example :
    (get_messages (truncate_messages history "web:1" 2) "web:1" 0
      ≡ (if web1 === web1 then get_messages history "web:1" 2 else get_messages history "web:1" 0))
    × (get_messages history "web:1" 2
        ≡ drop (message_count history "web:1" - 2) (get_messages history "web:1" 0))
truncate-get_example =
    truncate-get history "web:1" "web:1" 2 (refl, (refl, (refl, (refl, tt)))) (omega arith)

-- The claim of an active session without an owner gives the user a second active one.
two_active :
    map
      (λ t. t.key)
      (get_active_sessions (get_or_create history "web:3" "web" "3" "u1" false 9).0 "u1")
    ≡ "web:1" ∷ "web:3" ∷ []
unfolding runs
two_active = refl
