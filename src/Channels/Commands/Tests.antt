-- ===== src/Channels/Commands/Tests.antt =====
-- Commands and templates at concrete inputs.
use openpalm.Base.{
  ◌≡◌, refl, [], ◌∷◌, some, Option, Text, codes, Map, get, All, length, ◌≤◌, trim, strip_prefix,
}
use openpalm.Sdk.Value.{Value, string, array, object, field, end, nil, cons, property}
use openpalm.Sdk.Payload.{member}
use openpalm.Channels.Commands.{
  parse_custom_commands, commands_of, collect, parse_entry, command_options, max_custom_commands,
}
use openpalm.Channels.Commands.Valid.{IsCommand, parse_custom_commands-AreCommands}
use openpalm.Channels.Commands.Template.{word_at, placeholder, expand, resolve_prompt_template}

abbrev two : Value
two = array (
    cons
      (object (
        field (codes "name") (string (codes "ask"))
          (field (codes "description") (string (codes "d")) end)))
      (cons
        (object (
          field (codes "name") (string (codes "sum_up"))
            (field (codes "description") (string (codes "d")) end)))
        nil))

abbrev reads_two : Text → Option Value
reads_two raw = some two

keeps_one : length (parse_custom_commands reads_two (codes "x")) ≡ 1
unfolding parse_custom_commands trim commands_of collect parse_entry member property command_options
keeps_one = refl

parse_custom_commands-AreCommands_example :
    All IsCommand (parse_custom_commands reads_two (codes "x"))
    × (length (parse_custom_commands reads_two (codes "x")) ≤ max_custom_commands)
parse_custom_commands-AreCommands_example = parse_custom_commands-AreCommands reads_two (codes "x")

abbrev options : Map Text Text
options = (codes "a", codes "{{b}}") ∷ []

fills_once : resolve_prompt_template options (codes "{{{a}} {{b}}") ≡ codes "{{{b}} "
unfolding resolve_prompt_template expand placeholder word_at strip_prefix get
fills_once = refl
