-- ===== src/Channels/Commands.antt =====
-- packages/channel-discord/src/commands.ts: the commands of the Discord channel. `JSON.parse` is a
-- parameter; log lines are left out.
pub mod Template
pub mod Valid
pub mod Tests
use openpalm.Base.{
  ℕ, ◌++◌, Bool, true, false, ◌&&◌, ◌||◌, not, List, [], ◌∷◌, Option, none, some, Text, text_eq,
  codes, length, take, keep, map, all_by, any_by, is_empty, trim, or_else, leb, ltb, nat_beq,
  if◌then◌else◌, ◌==◌,
}
use openpalm.Sdk.Value.{Value, undefined, bool, number, string, array, object, items}
use openpalm.Sdk.Payload.{is_object, member}

pub record Choice : Type 0 where
  pub name : Text
  pub value : Text

pub record CommandOption : Type 0 where
  pub name : Text
  pub description : Text
  pub kind : ℕ
  pub required : Bool
  pub choices : Option (List Choice)

pub record CustomCommand : Type 0 where
  pub name : Text
  pub description : Text
  pub options : Option (List CommandOption)
  pub prompt_template : Option Text
  pub ephemeral : Bool

-- `CommandOptionType.STRING`
abbrev pub string_kind : ℕ
string_kind = 3

abbrev message_option : Text → Option (List CommandOption)
message_option description = some (
    record {
      name = codes "message";
      description = description;
      kind = string_kind;
      required = true;
      choices = none;
    }
    ∷ [])

abbrev builtin : Text → Text → Option (List CommandOption) → Bool → CustomCommand
builtin name description options ephemeral = record {
  name = name;
  description = description;
  options = options;
  prompt_template = none;
  ephemeral = ephemeral;
}

abbrev pub builtin_commands : List CustomCommand
builtin_commands =
    builtin (codes "ask") (codes "Send a message to the assistant")
      (message_option (codes "Your message or question")) false
    ∷ builtin (codes "queue") (codes "Queue a follow-up for the current conversation")
        (message_option (codes "Your follow-up message or question")) false
    ∷ builtin (codes "health") (codes "Check the assistant's health status") none true
    ∷ builtin (codes "help") (codes "Show available commands and usage information") none true
    ∷ builtin (codes "clear") (codes "Start a fresh conversation (clears session context)") none
        true
    ∷ []

abbrev pub max_description_length : ℕ
max_description_length = 100

abbrev pub max_custom_commands : ℕ
max_custom_commands = 20

abbrev pub is_name_char : ℕ → Bool
is_name_char c =
    leb b'a' c && leb c b'z' || leb b'0' c && leb c b'9' || nat_beq c b'_' || nat_beq c b'-'

-- `VALID_NAME`
abbrev pub is_valid_name : Text → Bool
is_valid_name s = leb 1 (length s) && leb (length s) 32 && all_by is_name_char s

abbrev pub valid_name : Value → Option Text
valid_name (string s) = if is_valid_name s then some s else none
valid_name _ = none

-- A text of at least `least` and at most 100 units.
abbrev pub valid_description : ℕ → Value → Option Text
valid_description least (string s) =
    if leb least (length s) && leb (length s) max_description_length then some s else none
valid_description least _ = none

-- A number among those of `CommandOptionType`, or else that of texts.
abbrev pub option_kind : Value → ℕ
option_kind (number n) = if leb 1 n && leb n 11 then n else string_kind
option_kind _ = string_kind

abbrev pub bool_or_false : Value → Bool
bool_or_false (bool b) = b
bool_or_false _ = false

abbrev pub choice_of : Value → Value → Option Choice
choice_of (string name) (string value) = some (record { name = name; value = value })
choice_of _ _ = none

-- The entries that are choices, in their order.
unfoldable pub choices_of : List Value → List Choice
choices_of [] = []
choices_of (c ∷ cs) =
    let rest = choices_of cs in
    elim (choice_of (member (codes "name") c) (member (codes "value") c)) [
      | none ↦ rest
      | some choice ↦ choice ∷ rest
    ]

unfoldable pub option_choices : Value → Option (List Choice)
option_choices (array cs) = some (take 25 (choices_of (items cs)))
option_choices _ = none

unfoldable pub validate_command_option : Value → Option CommandOption
validate_command_option o =
    if not (is_object o) then none else elim (valid_name (member (codes "name") o)) [
      | none ↦ none
      | some name ↦ elim (valid_description 0 (member (codes "description") o)) [
        | none ↦ none
        | some description ↦ some (record {
          name = name;
          description = description;
          kind = option_kind (member (codes "type") o);
          required = bool_or_false (member (codes "required") o);
          choices = option_choices (member (codes "choices") o);
        })
      ]
    ]

-- Those of the entries that a test turns into something.
unfoldable pub collect : {A : Type 0} → (Value → Option A) → List Value → List A
collect f [] = []
collect f (v ∷ vs) = let rest = collect f vs in elim (f v) [ none ↦ rest | some a ↦ a ∷ rest ]

unfoldable pub command_options : Value → Option (List CommandOption)
command_options (array os) = some (collect validate_command_option (items os))
command_options _ = none

abbrev pub template_of : Value → Option Text
template_of (string s) = some s
template_of _ = none

abbrev pub is_builtin : Text → Bool
is_builtin name = any_by (λ (c : CustomCommand). c.name == name) builtin_commands

-- The body of the loop: `none` is an entry that is passed over.
unfoldable pub parse_entry : Value → Option CustomCommand
parse_entry e = if not (is_object e) then none else elim (valid_name (member (codes "name") e)) [
  | none ↦ none
  | some name ↦
      if is_builtin name
      then none
      else elim (valid_description 1 (member (codes "description") e)) [
        | none ↦ none
        | some description ↦ some (record {
          name = name;
          description = description;
          options = command_options (member (codes "options") e);
          prompt_template = template_of (member (codes "promptTemplate") e);
          ephemeral = bool_or_false (member (codes "ephemeral") e);
        })
      ]
]

unfoldable pub commands_of : Value → List CustomCommand
commands_of (array entries) = collect parse_entry (take max_custom_commands (items entries))
commands_of _ = []

-- `raw` is empty where the variable is not set.
unfoldable pub parse_custom_commands : (Text → Option Value) → Text → List CustomCommand
parse_custom_commands json_parse raw =
    if is_empty (trim raw)
    then []
    else elim (json_parse raw) [ none ↦ [] | some parsed ↦ commands_of parsed ]

unfoldable pub all_commands : List CustomCommand → List CustomCommand
all_commands custom = builtin_commands ++ custom

unfoldable pub find_command : List CustomCommand → Text → Option CustomCommand
find_command [] name = none
find_command (c ∷ cs) name = if c.name == name then some c else find_command cs name
