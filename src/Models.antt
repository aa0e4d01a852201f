-- ===== src/Models.antt =====
-- cbrain/models/contracts.py: the messages between an agent and a model, and the checks on them.
pub mod History
use cbrain.Prelude.{
  String, Option, none, some, Bool, true, false, ◌&&◌, ◌||◌, not, is_none, List, [], ◌∷◌, Result,
  ok, err, ◌>>◌, require, refuse, str_eq, is_blank, codes, ltb, leb, ◌==◌, ℕ, if◌then◌else◌,
}
use cbrain.Prelude.Lists.{length}
use cbrain.Json.{Fields}

-- Each way in which `ModelContractError` is raised here, with the path that its message names.
pub data ModelContractError : Type 0 where
  empty_text bad_tool_name : String → ModelContractError
  call_not_by_assistant call_with_text tool_fields : ModelContractError
  unmatched_result missing_result duplicate_call : ModelContractError
  no_messages repeated_tools no_tokens : ModelContractError

pub data MessageRole : Type 0 where
  system user assistant tool : MessageRole

-- The continuation of a provider is kept apart from the call.
pub record ToolCall : Type 0 where
  pub call_id : String
  pub name : String
  pub arguments : Fields

pub record Message : Type 0 where
  pub role : MessageRole
  pub content : String
  pub tool_call_id : Option String
  pub tool_name : Option String
  pub tool_call : Option ToolCall

abbrev pub is_tool : MessageRole → Bool
is_tool MessageRole.tool = true
is_tool _ = false

abbrev pub is_assistant : MessageRole → Bool
is_assistant MessageRole.assistant = true
is_assistant _ = false

unfoldable pub required_text : Option String → String → Result ModelContractError (Unit {0})
required_text none path = err (ModelContractError.empty_text path)
required_text (some s) path = require (not (is_blank s)) (ModelContractError.empty_text path)

-- `[A-Za-z0-9_-]`
unfoldable pub is_name_char : ℕ → Bool
is_name_char c =
    (leb 65 c && leb c 90)
    || (leb 97 c && leb c 122)
    || (leb 48 c && leb c 57)
    || (c == 95)
    || (c == 45)

unfoldable pub all_name_chars : List ℕ → Bool
unfolding is_name_char
all_name_chars [] = true
all_name_chars (c ∷ cs) = is_name_char c && all_name_chars cs

-- `_TOOL_NAME.fullmatch`
unfoldable pub is_tool_name : String → Bool
unfolding all_name_chars
is_tool_name s = all_name_chars (codes s) && leb 1 (length (codes s)) && leb (length (codes s)) 64

-- `_tool_name`
unfoldable pub tool_name : Option String → String → Result ModelContractError (Unit {0})
unfolding is_tool_name
tool_name none path = err (ModelContractError.empty_text path)
tool_name (some s) path = do
  require (not (is_blank s)) (ModelContractError.empty_text path)
  require (is_tool_name s) (ModelContractError.bad_tool_name path)

-- The check on a message's content, which a call replaces.
unfoldable pub checked_content : Message → Result ModelContractError (Unit {0})
unfolding required_text
checked_content m = elim m.tool_call [
  | some _ ↦
      refuse (not (is_assistant m.role)) ModelContractError.call_not_by_assistant
      >> refuse (not (str_eq m.content "")) ModelContractError.call_with_text
  | none ↦ required_text (some m.content) "message content"
]

-- `Message(...)`: the message, if `__post_init__` raises nothing.
unfoldable pub message : Message → Result ModelContractError Message
unfolding required_text tool_name checked_content
message m = do
  checked_content m
  if is_tool m.role
      then (required_text m.tool_call_id "tool_call_id" >> tool_name m.tool_name "tool_name")
      else refuse (not (is_none m.tool_call_id) || not (is_none m.tool_name))
          ModelContractError.tool_fields
  ok m

-- `ToolCall.as_message`
abbrev pub as_message : ToolCall → Message
as_message c = record {
  role = MessageRole.assistant;
  content = "";
  tool_call_id = none;
  tool_name = none;
  tool_call = some c;
}

abbrev pub in_list : String → List String → Bool
in_list x [] = false
in_list x (y ∷ ys) = str_eq y x || in_list x ys

-- `len(names) == len(set(names))`
abbrev pub all_unique : List String → Bool
all_unique [] = true
all_unique (x ∷ xs) = not (in_list x xs) && all_unique xs

-- What a provider's answer is translated to.
pub data ModelOutput : Type 0 where
  text : String → ModelOutput
  call : ToolCall → ModelOutput
  other : ModelOutput
