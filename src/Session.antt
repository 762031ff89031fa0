-- ===== src/Session.antt =====
-- server/internal/session/store.go: the sessions and their messages. The tables are the lists of
-- their rows, in the order of insertion, which is that of the ids (AUTOINCREMENT); a text that is
-- NULL reads as the empty one. The schema makes the key of a session unique, deletes the messages
-- with their session, and forbids a message without a session and an owner that is no account. A
-- limit of 0 stands for every limit that is not positive.
pub mod History
pub mod Active
mod Tests
use Prim.Native.String.{◌++◌ as text_append}
use cogitator.Base.{
  ℕ, ◌+◌, ◌≡◌, Bool, true, false, not, ◌||◌, ◌&&◌, List, [], ◌∷◌, ◌++◌, Option, none, some, suc,
  zero, ◌==◌, ltb, take, length, anyb, filterb, map, if◌then◌else◌, String,
}
use cogitator.Base.Eqs.{string_eq, ◌===◌}
use cogitator.Base.Results.{Result, ok, err}
use cogitator.Base.Rows.{first_where, update_where, delete_where}
use cogitator.Base.Sorting.{sort_by}

pub record Message : Type 0 where
  pub id : ℕ
  pub session_key : String
  pub user_id : Option String
  pub role : String
  pub content : String
  pub tool_calls : String
  pub tool_call_id : String
  pub tools_used : String
  pub metadata : String
  pub created_at : ℕ

pub record Session : Type 0 where
  pub key : String
  pub channel : String
  pub chat_id : String
  pub user_id : Option String
  pub private : Bool
  pub summary : String
  pub is_active : Bool
  pub created_at : ℕ
  pub updated_at : ℕ
  pub last_active : ℕ

pub data Error : Type 0 where
  no_rows constraint : Error

-- `accounts`: the ids of the table of the accounts.
pub record Store : Type 0 where
  pub sessions : List Session
  pub messages : List Message
  pub next_id : ℕ
  pub accounts : List String

abbrev pub tasks_output_key : String → String
tasks_output_key String.[] = "tasks:output"
tasks_output_key (String.◌∷◌ c id) = text_append "tasks:output:" (String.◌∷◌ c id)

-- The empty user id is NULL in the table.
abbrev pub owner : String → Option String
owner String.[] = none
owner (String.◌∷◌ c id) = some (String.◌∷◌ c id)

abbrev pub same_owner : Option String → Option String → Bool
same_owner none none = true
same_owner (some a) (some b) = a === b
same_owner _ _ = false

abbrev pub has_key : String → Session → Bool
has_key key s = s.key === key

abbrev pub is_account : Store → Option String → Bool
is_account s none = true
is_account s (some id) = anyb (λ a. a === id) s.accounts

abbrev pub new_session : String → String → String → String → Bool → ℕ → Session
new_session key channel chat_id user_id private now = record {
  key = key;
  channel = channel;
  chat_id = chat_id;
  user_id = owner user_id;
  private = private;
  summary = "";
  is_active = false;
  created_at = now;
  updated_at = now;
  last_active = now;
}

-- The claim of a session without an owner: an error of the UPDATE goes unseen.
abbrev pub is_orphan : Session → Bool
is_orphan s = same_owner s.user_id none

abbrev pub claim : Store → Option String → Session → Store × Result Error Session
claim s none sess = (s, ok sess)
claim s (some id) sess =
    if is_orphan sess
    then (
      if is_account s (some id)
          then record s {
            sessions =
                update_where (λ t. has_key sess.key t && is_orphan t)
                  (λ t. record t { user_id = some id }) s.sessions;
          }
          else s,
      ok (record sess { user_id = some id }),
    )
    else (s, ok sess)

abbrev pub got : Store → Option String → Session → Option Session → Store × Result Error Session
got s user fresh (some sess) = claim s user sess
got s user fresh none =
    if is_account s user
    then (record s { sessions = s.sessions ++ fresh ∷ [] }, ok fresh)
    else (s, err constraint)

unfoldable pub get_or_create :
    Store → String → String → String → String → Bool → ℕ → Store × Result Error Session
get_or_create s key channel chat_id user_id private now =
    got s (owner user_id) (new_session key channel chat_id user_id private now)
      (first_where (has_key key) s.sessions)

abbrev pub or_no_rows {ℓ} : {A : Type ℓ} → Option A → Result Error A
or_no_rows none = err no_rows
or_no_rows (some a) = ok a

abbrev pub owned : String → Session → Bool
owned user_id s = same_owner s.user_id (owner user_id)

unfoldable pub get : Store → String → String → Result Error Session
get s key user_id = or_no_rows (first_where (λ t. has_key key t && owned user_id t) s.sessions)

unfoldable pub get_by_key : Store → String → Result Error Session
get_by_key s key = or_no_rows (first_where (has_key key) s.sessions)

abbrev pub reverse {ℓ} : {A : Type ℓ} → List A → List A
reverse [] = []
reverse (x ∷ xs) = reverse xs ++ x ∷ []

-- `channel NOT IN ('task', 'tasks')`
abbrev pub is_chat : Session → Bool
is_chat s = not (s.channel === "task" || s.channel === "tasks")

unfoldable pub list : Store → String → List Session
list s user_id =
    reverse (sort_by (λ t. t.last_active) (filterb (λ t. owned user_id t && is_chat t) s.sessions))

abbrev pub in_session : String → Message → Bool
in_session key m = m.session_key === key

unfoldable pub delete : Store → String → String → Store
delete s key user_id =
    let gone = λ (t : Session). has_key key t && owned user_id t in
    record s {
      sessions = delete_where gone s.sessions;
      messages =
          if anyb gone s.sessions then delete_where (in_session key) s.messages else s.messages;
    }

abbrev pub touch : ℕ → Session → Session
touch now t = record t { updated_at = now; last_active = now }

unfoldable pub add_message : Store → String → Message → ℕ → Store × Result Error ℕ
add_message s key msg now =
    if anyb (has_key key) s.sessions && is_account s msg.user_id
    then (
      record s {
        messages =
            s.messages ++ record msg { id = s.next_id; session_key = key; created_at = now } ∷ [];
        next_id = suc s.next_id;
        sessions = update_where (has_key key) (touch now) s.sessions;
      },
      ok s.next_id,
    )
    else (s, err constraint)

-- `ORDER BY id DESC LIMIT n`, in ascending order.
abbrev pub newest {ℓ} : {A : Type ℓ} → ℕ → List A → List A
newest n xs = reverse (take n (reverse xs))

unfoldable pub get_messages : Store → String → ℕ → List Message
get_messages s key limit =
    let rows = filterb (in_session key) s.messages in if limit == 0 then rows else newest limit rows

unfoldable pub message_count : Store → String → ℕ
message_count s key = length (filterb (in_session key) s.messages)

unfoldable pub set_summary : Store → String → String → ℕ → Store
set_summary s key summary now = record s {
  sessions =
      update_where (has_key key) (λ t. record t { summary = summary; updated_at = now }) s.sessions;
}

abbrev pub is_in : List Message → Message → Bool
is_in kept m = anyb (λ k. k.id == m.id) kept

unfoldable pub truncate_messages : Store → String → ℕ → Store
truncate_messages s key keep_last =
    if keep_last == 0
    then record s { messages = delete_where (in_session key) s.messages }
    else let kept = take keep_last (reverse (filterb (in_session key) s.messages)) in
      record s { messages = delete_where (λ m. in_session key m && not (is_in kept m)) s.messages }

unfoldable pub delete_message : Store → ℕ → Store
delete_message s id = record s { messages = delete_where (λ m. m.id == id) s.messages }

abbrev pub on_channel : String → String → Session → Bool
on_channel channel user_id t = t.channel === channel && owned user_id t

abbrev pub activated :
    Store → String → String → Result Error Session → Store × Result Error (Unit {0})
activated s key user_id (err e) = (s, err e)
activated s key user_id (ok sess) = (
  record s {
    sessions =
        update_where (has_key key) (λ t. record t { is_active = true })
          (update_where (on_channel sess.channel user_id) (λ t. record t { is_active = false })
            s.sessions);
  },
  ok tt,
)

unfoldable pub set_active_session : Store → String → String → Store × Result Error (Unit {0})
set_active_session s key user_id = activated s key user_id (get s key user_id)

unfoldable pub get_active_sessions : Store → String → List Session
get_active_sessions s user_id =
    filterb (λ t. t.is_active && owned user_id t && is_chat t) s.sessions
