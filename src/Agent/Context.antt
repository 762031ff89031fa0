-- ===== src/Agent/Context.antt =====
-- server/internal/agent/context.go: `BuildMessages`. What `json.Unmarshal` makes of a stored content
-- and of stored tool calls, and what the attachments become, are parameters.
use mathlib.Core.Path.{subst, sym, ap}
use cogitator.Base.{
  ℕ, ◌≡◌, ◌≢◌, refl, All, arith, inl, inr, Bool, true, false, not, ◌&&◌, List, [], ◌∷◌, ◌++◌,
  Option, none, some, if◌then◌else◌, Bool-cases, String,
}
use cogitator.Base.Eqs.{string_eq}

pub data Role : Type 0 where
  user assistant tool other : Role

-- Any content other than a text is a list of blocks, here its encoding.
pub data Content : Type 0 where
  text blocks : String → Content

pub record ToolCall : Type 0 where
  pub id : String
  pub name : String
  pub arguments : String

pub record Message : Type 0 where
  pub role : Role
  pub content : Content
  pub tool_calls : List ToolCall
  pub tool_call_id : String

pub record Stored : Type 0 where
  pub id : ℕ
  pub role : Role
  pub content : String
  pub tool_calls : List ToolCall
  pub tool_call_id : String

abbrev pub is_tool : Role → Bool
is_tool tool = true
is_tool r = false

abbrev pub is_multimodal : Role → Bool
is_multimodal user = true
is_multimodal assistant = true
is_multimodal r = false

abbrev pub is_assistant : Role → Bool
is_assistant assistant = true
is_assistant r = false

abbrev pub has_calls : List ToolCall → Bool
has_calls [] = false
has_calls (c ∷ cs) = true

-- The content of a message of the history; `decode` finds the blocks, if they are all valid.
abbrev pub content_of : (String → Option String) → Role → String → Content
content_of decode r stored =
    if is_multimodal r
    then elim (decode stored) [ none ↦ text stored | some b ↦ blocks b ]
    else text stored

abbrev pub message_of : (String → Option String) → Stored → Message
message_of decode m = record {
  role = m.role;
  content = content_of decode m.role m.content;
  tool_calls = m.tool_calls;
  tool_call_id = m.tool_call_id;
}

-- `inToolSequence` after a message that is kept.
abbrev pub sequence_after : Bool → Message → Bool
sequence_after inside m =
    if is_assistant m.role && has_calls m.tool_calls
    then true
    else if not (is_tool m.role)
    then false
    else inside

unfoldable pub history_messages : (String → Option String) → Bool → List Stored → List Message
history_messages decode inside [] = []
history_messages decode inside (m ∷ history) =
    let msg = message_of decode m in
    let skipped = history_messages decode inside history in
    let kept = history_messages decode (sequence_after inside msg) history in
    if is_tool msg.role && not inside then skipped else msg ∷ kept

abbrev pub plain : Role → Content → Message
plain r c = record { role = r; content = c; tool_calls = []; tool_call_id = "" }

-- The current message: none if it is blank and nothing is attached.
abbrev pub current : Option Content → List Message
current none = []
current (some c) = plain user c ∷ []

unfoldable pub build_messages :
    (String → Option String) → String → List Stored → Option Content → List Message
build_messages decode system_prompt history message =
    plain other (text system_prompt) ∷ history_messages decode false history ++ current message

-- The flag of the code is up at each tool result.
abbrev pub IsSequenced : Bool → List Message → Type 0
IsSequenced inside [] = Unit
IsSequenced inside (m ∷ ms) =
    ((is_tool m.role && not inside) ≡ false) × IsSequenced (sequence_after inside m) ms

history_messages-IsSequenced :
    (decode : String → Option String) (inside : Bool) (history : List Stored) (after : List Message)
    → ((b : Bool) → IsSequenced b after)
    → IsSequenced inside (history_messages decode inside history ++ after)
unfolding history_messages
history_messages-IsSequenced decode inside [] after h = h inside
history_messages-IsSequenced decode inside (m ∷ history) after h =
    elim (Bool-cases (is_tool m.role && not inside)) [
      | inl orphan ↦ rw orphan (history_messages-IsSequenced decode inside history after h)
      | inr fine ↦ rw fine (
        fine,
        history_messages-IsSequenced decode (sequence_after inside (message_of decode m)) history
            after h,
      )
    ]

current-IsSequenced : (message : Option Content) (b : Bool) → IsSequenced b (current message)
current-IsSequenced none b = tt
current-IsSequenced (some c) b = (refl, tt)

build_messages-IsSequenced :
    (decode : String → Option String) (system_prompt : String) (history : List Stored)
    (message : Option Content)
    → IsSequenced false (build_messages decode system_prompt history message)
unfolding build_messages
build_messages-IsSequenced decode system_prompt history message = (
  refl,
  history_messages-IsSequenced decode false history (current message) (current-IsSequenced message),
)

-- What a provider accepts: messages that are no tool results, and groups of an assistant message
-- with tool calls and any tool results directly behind it.
pub data IsGrouped : List Message → Type 0 where
  done : IsGrouped []
  single :
      (m : Message) (ms : List Message) → is_tool m.role ≡ false → IsGrouped ms → IsGrouped (m ∷ ms)
  group :
      (call : Message) (results ms : List Message)
      → call.role ≡ assistant
      → call.tool_calls ≢ []
      → All (λ m. m.role ≡ tool) results
      → IsGrouped ms
      → IsGrouped (call ∷ results ++ ms)

-- Tool results, and then a sequence of groups.
abbrev IsContinued : List Message → Type 0
IsContinued ms =
    (results : List Message) × (rest : List Message) × (ms ≡ results ++ rest)
    × All (λ (m : Message). m.role ≡ tool) results
    × IsGrouped rest

is_tool-role : (r : Role) → is_tool r ≡ true → r ≡ tool
is_tool-role tool h = refl
is_tool-role user h = absurd cc
is_tool-role assistant h = absurd cc
is_tool-role other h = absurd cc

is_assistant-role : (r : Role) → is_assistant r ≡ true → r ≡ assistant
is_assistant-role assistant h = refl
is_assistant-role user h = absurd cc
is_assistant-role tool h = absurd cc
is_assistant-role other h = absurd cc

has_calls-nonempty : (cs : List ToolCall) → has_calls cs ≡ true → cs ≢ []
has_calls-nonempty [] h e = absurd cc
has_calls-nonempty (c ∷ cs) h e = absurd (cc e)

-- What the flag is after a message, by its role.
after_other :
    (b : Bool) (m : Message)
    → is_tool m.role ≡ false
    → sequence_after b m ≡ (is_assistant m.role && has_calls m.tool_calls)
after_other b m no_tool = elim (Bool-cases (is_assistant m.role && has_calls m.tool_calls)) [
  | inl calls ↦ rw calls refl
  | inr none_ ↦ rw (none_, no_tool) refl
]

after_tool : (m : Message) → m.role ≡ tool → sequence_after true m ≡ true
after_tool m e = rw e refl

both_true : (a b : Bool) → (a && b) ≡ true → (a ≡ true) × (b ≡ true)
both_true a b h = (ground (arith, h), ground (arith, h))

grouped_other :
    (m : Message) (ms : List Message)
    → is_tool m.role ≡ false
    → (IsSequenced false ms → IsGrouped ms)
    → (IsSequenced true ms → IsContinued ms)
    → IsSequenced (is_assistant m.role && has_calls m.tool_calls) ms
    → IsGrouped (m ∷ ms)
grouped_other m ms no_tool alone behind h =
    elim (Bool-cases (is_assistant m.role && has_calls m.tool_calls)) [
      | inl calls ↦
          let (results, rest, e, tools, g) = behind (rw calls at h) in
          let (assists, some_) = both_true (is_assistant m.role) (has_calls m.tool_calls) calls in
          subst (λ xs. IsGrouped (m ∷ xs)) (sym e)
            (group m results rest (is_assistant-role m.role assists)
              (has_calls-nonempty m.tool_calls some_) tools g)
      | inr none_ ↦ single m ms no_tool (alone (rw none_ at h))
    ]

-- The flag of the code is up exactly behind calls and their results.
grouped :
    (ms : List Message)
    → (IsSequenced false ms → IsGrouped ms) × (IsSequenced true ms → IsContinued ms)
grouped [] = (λ h. done, λ h. ([], [], refl, tt, done))
grouped (m ∷ ms) =
    let (alone, behind) = grouped ms in
    elim (Bool-cases (is_tool m.role)) [
      | inl result ↦
          let r = is_tool-role m.role result in
          (
            λ h. absurd (cc (rw result at h.0)),
            λ h.
                let (results, rest, e, tools, g) =
                  behind (subst (λ b. IsSequenced b ms) (after_tool m r) h.1) in
                (m ∷ results, rest, ap (λ xs. m ∷ xs) e, (r, tools), g),
          )
      | inr no_tool ↦
          let from = λ (b : Bool) (h : IsSequenced (sequence_after b m) ms).
            grouped_other m ms no_tool alone behind
              (subst (λ b. IsSequenced b ms) (after_other b m no_tool) h) in
          (λ h. from false h.1, λ h. ([], m ∷ ms, refl, tt, from true h.1))
    ]

-- Whatever the stored history, the messages that are built are a sequence of messages that are no
-- tool results and of groups, each an assistant message with tool calls and the tool results
-- directly behind it: no tool result stands elsewhere.
pub build_messages-IsGrouped :
    (decode : String → Option String) (system_prompt : String) (history : List Stored)
    (message : Option Content)
    → IsGrouped (build_messages decode system_prompt history message)
build_messages-IsGrouped decode system_prompt history message =
    (grouped (build_messages decode system_prompt history message)).0
      (build_messages-IsSequenced decode system_prompt history message)

-- The history as messages, none left out.
abbrev pub all_messages : (String → Option String) → List Stored → List Message
all_messages decode [] = []
all_messages decode (m ∷ history) = message_of decode m ∷ all_messages decode history

history_messages_whole :
    (decode : String → Option String) (inside : Bool) (history : List Stored)
    → IsSequenced inside (all_messages decode history)
    → history_messages decode inside history ≡ all_messages decode history
unfolding history_messages
history_messages_whole decode inside [] h = refl
history_messages_whole decode inside (m ∷ history) h =
    rw
      (h.0, history_messages_whole decode (sequence_after inside (message_of decode m)) history h.1)

-- A history whose tool results stand behind their calls is sent as it is: no message is left out.
pub build_messages_whole :
    (decode : String → Option String) (system_prompt : String) (history : List Stored)
    (message : Option Content)
    → IsSequenced false (all_messages decode history)
    → build_messages decode system_prompt history message
      ≡ plain other (text system_prompt) ∷ all_messages decode history ++ current message
unfolding build_messages
build_messages_whole decode system_prompt history message h =
    rw (history_messages_whole decode false history h)
