-- ===== src/Automation/Config.antt =====
-- packages/lib/src/control-plane/scheduler.ts: the automations and how they are read. The YAML
-- parser is a parameter, `none` where it throws, and so is `String(v)`. Log lines are left out.
use openpalm.Base.{
  ℕ, Bool, true, false, not, List, [], ◌∷◌, Option, none, some, Text, text_eq, codes, Map, get, map,
  or_else, trim, if◌then◌else◌, ◌==◌, strip_suffix,
}
use openpalm.Sdk.Value.{Value, bool, number, string, array, object, Fields, field, end, items}
use openpalm.Sdk.Payload.{is_object, member, non_blank}

pub data ActionType : Type 0 where
  api http shell assistant : ActionType

pub record AutomationAction : Type 0 where
  pub kind : ActionType
  pub method : Text
  pub path : Option Text
  pub url : Option Text
  pub body : Value
  pub headers : Option (Map Text Text)
  pub command : Option (List Text)
  pub content : Option Text
  pub agent : Option Text
  pub timeout : ℕ

pub record AutomationConfig : Type 0 where
  pub name : Text
  pub description : Text
  pub schedule : Text
  pub timezone : Text
  pub enabled : Bool
  pub action : AutomationAction
  -- `"audit"`, or else `"log"`.
  pub audits_failure : Bool
  pub file_name : Text

abbrev pub schedule_presets : Map Text Text
schedule_presets =
    (codes "every-minute", codes "* * * * *")
    ∷ (codes "every-5-minutes", codes "*/5 * * * *")
    ∷ (codes "every-15-minutes", codes "*/15 * * * *")
    ∷ (codes "every-hour", codes "0 * * * *")
    ∷ (codes "daily", codes "0 0 * * *")
    ∷ (codes "daily-8am", codes "0 8 * * *")
    ∷ (codes "weekly", codes "0 0 * * 0")
    ∷ (codes "weekly-sunday-3am", codes "0 3 * * 0")
    ∷ (codes "weekly-sunday-4am", codes "0 4 * * 0")
    ∷ []

unfoldable pub resolve_schedule : Text → Text
resolve_schedule schedule = or_else (get schedule schedule_presets) schedule

abbrev pub text_of : Value → Option Text
text_of (string s) = some s
text_of _ = none

abbrev pub number_or : ℕ → Value → ℕ
number_or fallback (number n) = n
number_or fallback _ = fallback

abbrev pub is_false : Value → Bool
is_false (bool b) = not b
is_false _ = false

unfoldable pub action_type : Value → Option ActionType
action_type (string s) =
    if s == codes "api"
    then some api
    else if s == codes "http"
    then some http
    else if s == codes "shell"
    then some shell
    else if s == codes "assistant"
    then some assistant
    else none
action_type _ = none

abbrev pub is_filled_array : Value → Bool
is_filled_array (array vs) = elim (items vs) [ [] ↦ false | _ ∷ _ ↦ true ]
is_filled_array _ = false

abbrev pub is_some_text : Option Text → Bool
is_some_text none = false
is_some_text (some s) = true

-- What an action of the type must have.
unfoldable pub has_needed : ActionType → Value → Bool
has_needed api action = is_some_text (text_of (member (codes "path") action))
has_needed http action = is_some_text (text_of (member (codes "url") action))
has_needed shell action = is_filled_array (member (codes "command") action)
has_needed assistant action = is_some_text (non_blank (member (codes "content") action))

-- The headers, if all of them are texts.
unfoldable pub text_fields : Fields → Option (Map Text Text)
text_fields end = some []
text_fields (field k v fs) = elim (text_fields fs) [
  | none ↦ none
  | some m ↦ elim v [ string s ↦ some ((k, s) ∷ m) | _ ↦ none ]
]

unfoldable pub headers_of : Value → Option (Map Text Text)
headers_of (object fs) = text_fields fs
headers_of _ = none

abbrev pub default_timeout : ActionType → ℕ
default_timeout assistant = 120_000
default_timeout api = 30_000
default_timeout http = 30_000
default_timeout shell = 30_000

module _ (string_of : Value → Text) where
  unfoldable pub command_of : Value → Option (List Text)
  command_of (array vs) = some (map string_of (items vs))
  command_of _ = none

  unfoldable pub make_action : ActionType → Value → AutomationAction
  make_action kind action = record {
    kind = kind;
    method = or_else (text_of (member (codes "method") action)) (codes "GET");
    path = text_of (member (codes "path") action);
    url = text_of (member (codes "url") action);
    body = member (codes "body") action;
    headers = headers_of (member (codes "headers") action);
    command = command_of (member (codes "command") action);
    content = text_of (member (codes "content") action);
    agent = text_of (member (codes "agent") action);
    timeout = number_or (default_timeout kind) (member (codes "timeout") action);
  }

  -- `fileName.replace(/\.yml$/, "")`
  unfoldable pub make_config : Text → Value → Text → ActionType → AutomationConfig
  make_config file_name doc schedule kind = record {
    name =
        or_else (text_of (member (codes "name") doc))
          (or_else (strip_suffix (codes ".yml") file_name) file_name);
    description = or_else (text_of (member (codes "description") doc)) [];
    schedule = resolve_schedule (trim schedule);
    timezone = or_else (text_of (member (codes "timezone") doc)) (codes "UTC");
    enabled = not (is_false (member (codes "enabled") doc));
    action = make_action kind (member (codes "action") doc);
    audits_failure = or_else (text_of (member (codes "on_failure") doc)) [] == codes "audit";
    file_name = file_name;
  }

  unfoldable pub read_automation : Text → Value → Option AutomationConfig
  read_automation file_name doc =
      if not (is_object doc) then none else elim (non_blank (member (codes "schedule") doc)) [
        | none ↦ none
        | some schedule ↦
            if not (is_object (member (codes "action") doc))
            then none
            else elim (action_type (member (codes "type") (member (codes "action") doc))) [
              | none ↦ none
              | some kind ↦
                  if has_needed kind (member (codes "action") doc)
                  then some (make_config file_name doc schedule kind)
                  else none
            ]
      ]

  module _ (yaml_parse : Text → Option Value) where
    unfoldable pub parse_automation_yaml : Text → Text → Option AutomationConfig
    parse_automation_yaml content file_name = elim (yaml_parse content) [
      | none ↦ none
      | some doc ↦ read_automation file_name doc
    ]

    -- The files of the directory, by name and content, in its order.
    unfoldable pub load_automations : List (Text × Text) → List AutomationConfig
    load_automations [] = []
    load_automations ((name, content) ∷ files) =
        let rest = load_automations files in
        elim (strip_suffix (codes ".yml") name) [
          | none ↦ rest
          | some stem ↦ elim (parse_automation_yaml content name) [
            | none ↦ rest
            | some c ↦ c ∷ rest
          ]
        ]
