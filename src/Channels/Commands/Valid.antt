-- ===== src/Channels/Commands/Valid.antt =====
-- What the registered commands are like.
use openpalm.Base.{
  ℕ, ◌≤◌, ◌≡◌, ◌++◌, arith, true, false, List, [], ◌∷◌, Option, none, some, Option-cases, inl, inr,
  Bool-cases, Text, text_eq, codes, length, length-take, take, All, is_empty, trim, ◌==◌, any_by,
}
use openpalm.Sdk.Value.{Value, undefined, null, bool, number, string, array, object, items}
use openpalm.Sdk.Payload.{is_object, member}
use openpalm.Channels.Commands.{
  Choice, CommandOption, CustomCommand, builtin_commands, is_builtin, is_valid_name, valid_name,
  valid_description, option_kind, option_choices, choices_of, validate_command_option, collect,
  command_options, parse_entry, commands_of, parse_custom_commands, max_custom_commands,
  max_description_length, all_commands, find_command,
}

-- At most 25 choices.
abbrev pub HasFewChoices : Option (List Choice) → Type 0
HasFewChoices none = Unit
HasFewChoices (some cs) = length cs ≤ 25

pub record IsOption (o : CommandOption) : Type 0 where
  pub named : is_valid_name o.name ≡ true
  pub described : length o.description ≤ max_description_length
  pub kind_from : 1 ≤ o.kind
  pub kind_to : o.kind ≤ 11
  pub few : HasFewChoices o.choices

abbrev pub AreOptions : Option (List CommandOption) → Type 0
AreOptions none = Unit
AreOptions (some os) = All IsOption os

pub record IsCommand (c : CustomCommand) : Type 0 where
  pub named : is_valid_name c.name ≡ true
  pub own : is_builtin c.name ≡ false
  pub described : 1 ≤ length c.description
  pub short : length c.description ≤ max_description_length
  pub options : AreOptions c.options

named_lem : (v : Value) (s : Text) → valid_name v ≡ some s → is_valid_name s ≡ true
named_lem (string t) s e = ground arith
named_lem undefined s e = cc
named_lem null s e = cc
named_lem (bool b) s e = cc
named_lem (number n) s e = cc
named_lem (array vs) s e = cc
named_lem (object fs) s e = cc

described_lem :
    (least : ℕ) (v : Value) (s : Text)
    → valid_description least v ≡ some s
    → (least ≤ length s) × (length s ≤ max_description_length)
described_lem least (string t) s e = ground arith
described_lem least undefined s e = cc
described_lem least null s e = cc
described_lem least (bool b) s e = cc
described_lem least (number n) s e = cc
described_lem least (array vs) s e = cc
described_lem least (object fs) s e = cc

kind_lem : (v : Value) → (1 ≤ option_kind v) × (option_kind v ≤ 11)
kind_lem (number n) = ground arith
kind_lem undefined = omega arith
kind_lem null = omega arith
kind_lem (bool b) = omega arith
kind_lem (string s) = omega arith
kind_lem (array vs) = omega arith
kind_lem (object fs) = omega arith

option_choices-HasFewChoices : (v : Value) → HasFewChoices (option_choices v)
unfolding option_choices
option_choices-HasFewChoices (array cs) = omega (arith, length-take 25 (choices_of (items cs)))
option_choices-HasFewChoices undefined = tt
option_choices-HasFewChoices null = tt
option_choices-HasFewChoices (bool b) = tt
option_choices-HasFewChoices (number n) = tt
option_choices-HasFewChoices (string s) = tt
option_choices-HasFewChoices (object fs) = tt

-- What a reader returns, if anything, has the property.
abbrev OnSome : {A : Type 0} → (A → Type 0) → Option A → Type 0
OnSome P none = Unit
OnSome P (some a) = P a

collect-All :
    {A : Type 0} (P : A → Type 0) (f : Value → Option A)
    → ((v : Value) → OnSome P (f v))
    → (vs : List Value) → All P (collect f vs)
unfolding collect
collect-All P f h [] = tt
collect-All P f h (v ∷ vs) = elim (Option-cases (f v)) [
  | inl e ↦ rw (e, collect) (collect-All P f h vs)
  | inr (a, e) ↦ rw (e, collect) (rw e at (h v), collect-All P f h vs)
]

length-collect :
    {A : Type 0} (f : Value → Option A) (vs : List Value) → length (collect f vs) ≤ length vs
unfolding collect
length-collect f [] = omega arith
length-collect f (v ∷ vs) = ground (arith, length-collect f vs)

validate_command_option-IsOption : (v : Value) → OnSome IsOption (validate_command_option v)
unfolding validate_command_option
validate_command_option-IsOption v = elim (Bool-cases (is_object v)) [
  | inr o ↦ rw (o, validate_command_option) tt
  | inl o ↦ elim (Option-cases (valid_name (member (codes "name") v))) [
    | inl f ↦ rw (o, f, validate_command_option) tt
    | inr (name, f) ↦ elim (Option-cases (valid_description 0 (member (codes "description") v))) [
      | inl h ↦ rw (o, f, h, validate_command_option) tt
      | inr (description, h) ↦
          let kind = kind_lem (member (codes "type") v) in
          rw (o, f, h, validate_command_option)
            (record {
              named = named_lem (member (codes "name") v) name f;
              described = (described_lem 0 (member (codes "description") v) description h).1;
              kind_from = kind.0;
              kind_to = kind.1;
              few = option_choices-HasFewChoices (member (codes "choices") v);
            })
    ]
  ]
]

command_options-AreOptions : (v : Value) → AreOptions (command_options v)
unfolding command_options
command_options-AreOptions (array os) =
    collect-All IsOption validate_command_option validate_command_option-IsOption (items os)
command_options-AreOptions undefined = tt
command_options-AreOptions null = tt
command_options-AreOptions (bool b) = tt
command_options-AreOptions (number n) = tt
command_options-AreOptions (string s) = tt
command_options-AreOptions (object fs) = tt

parse_entry-IsCommand : (v : Value) → OnSome IsCommand (parse_entry v)
unfolding parse_entry
parse_entry-IsCommand v = elim (Bool-cases (is_object v)) [
  | inr o ↦ rw (o, parse_entry) tt
  | inl o ↦ elim (Option-cases (valid_name (member (codes "name") v))) [
    | inl f ↦ rw (o, f, parse_entry) tt
    | inr (name, f) ↦ elim (Bool-cases (is_builtin name)) [
      | inl b ↦ rw (o, f, b, parse_entry) tt
      | inr b ↦ elim (Option-cases (valid_description 1 (member (codes "description") v))) [
        | inl h ↦ rw (o, f, b, h, parse_entry) tt
        | inr (description, h) ↦
            let described = described_lem 1 (member (codes "description") v) description h in
            rw (o, f, b, h, parse_entry)
              (record {
                named = named_lem (member (codes "name") v) name f;
                own = b;
                described = described.0;
                short = described.1;
                options = command_options-AreOptions (member (codes "options") v);
              })
      ]
    ]
  ]
]

commands_of-AreCommands :
    (v : Value) → All IsCommand (commands_of v) × (length (commands_of v) ≤ max_custom_commands)
unfolding commands_of
commands_of-AreCommands (array entries) = (
  collect-All IsCommand parse_entry parse_entry-IsCommand
      (take max_custom_commands (items entries)),
  omega (
    arith,
    length-collect parse_entry (take max_custom_commands (items entries)),
    length-take max_custom_commands (items entries),
  ),
)
commands_of-AreCommands undefined = (tt, omega arith)
commands_of-AreCommands null = (tt, omega arith)
commands_of-AreCommands (bool b) = (tt, omega arith)
commands_of-AreCommands (number n) = (tt, omega arith)
commands_of-AreCommands (string s) = (tt, omega arith)
commands_of-AreCommands (object fs) = (tt, omega arith)

-- Whatever the configuration says, at most 20 commands are read from it, and each of them has a
-- valid name that no built-in command has, a description of 1 to 100 units, and options with valid
-- names, descriptions of at most 100 units, a type that Discord knows and at most 25 choices. Two
-- of the commands may have the same name.
pub parse_custom_commands-AreCommands :
    (json_parse : Text → Option Value) (raw : Text)
    → let commands = parse_custom_commands json_parse raw in
      All IsCommand commands × (length commands ≤ max_custom_commands)
unfolding parse_custom_commands
parse_custom_commands-AreCommands json_parse raw = elim (Bool-cases (is_empty (trim raw))) [
  | inl e ↦ rw (e, parse_custom_commands) (tt, omega arith)
  | inr e ↦ elim (Option-cases (json_parse raw)) [
    | inl f ↦ rw (e, f, parse_custom_commands) (tt, omega arith)
    | inr (v, f) ↦ rw (e, f, parse_custom_commands) (commands_of-AreCommands v)
  ]
]

find_builtin :
    (cs custom : List CustomCommand) (name : Text)
    → any_by (λ (c : CustomCommand). c.name == name) cs ≡ true
    → find_command (cs ++ custom) name ≡ find_command cs name
unfolding find_command
find_builtin [] custom name e = cc
find_builtin (c ∷ cs) custom name e = ground (arith, find_builtin cs custom name)

-- No configuration hides a built-in command: its name finds the built-in one.
pub find-all_commands :
    (custom : List CustomCommand) (name : Text)
    → is_builtin name ≡ true
    → find_command (all_commands custom) name ≡ find_command builtin_commands name
unfolding all_commands
find-all_commands custom name e = find_builtin builtin_commands custom name e
