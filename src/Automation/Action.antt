-- ===== src/Automation/Action.antt =====
-- packages/lib/src/control-plane/scheduler.ts: the execution of an action. The network and the
-- processes are a parameter, and so is the value of the `authorization` header for a password.
-- A result of `false` is a call that throws.
pub mod Contained
use openpalm.Base.{
  ℕ, ◌++◌, Bool, true, false, ◌&&◌, ◌||◌, not, List, [], ◌∷◌, Option, none, some, Text, text_eq,
  codes, Map, get, set, delete, has, or_else, is_empty, trim, all_by, leb, ltb, nat_beq,
  if◌then◌else◌, ◌==◌, strip_prefix, starts_with,
}
use openpalm.Sdk.Value.{
  Value, undefined, null, bool, number, string, array, object, field, end, cons, nil,
}
use openpalm.Sdk.Payload.{member}
use openpalm.Automation.Config.{ActionType, api, http, shell, assistant, AutomationAction}

pub record Outgoing : Type 0 where
  pub url : Text
  pub method : Text
  pub headers : Map Text Text
  pub body : Option Value
  pub timeout : ℕ

-- An answer; the body is `none` where it is no JSON.
pub record HttpAnswer : Type 0 where
  pub status : ℕ
  pub body : Option Value

-- What an action can reach: `none` is a fetch that throws, `false` a process that fails.
pub record Network : Type 1 where
  pub World : Type 0
  pub fetch : Outgoing → World → Option HttpAnswer × World
  pub exec : Text → List Text → Map Text Text → ℕ → World → Bool × World

-- The environment of the scheduler's process.
pub record Settings : Type 0 where
  pub admin_url : Text
  pub api_url : Text
  pub password : Text
  pub env : Map Text Text

abbrev pub is_ok : Option HttpAnswer → Bool
is_ok none = false
is_ok (some a) = leb 200 a.status && ltb a.status 300

-- What an `if` takes for true.
abbrev pub truthy : Value → Bool
truthy undefined = false
truthy null = false
truthy (bool b) = b
truthy (number n) = not (nat_beq n 0)
truthy (string s) = not (is_empty s)
truthy (array vs) = true
truthy (object fs) = true

abbrev pub is_path_char : ℕ → Bool
is_path_char c =
    leb b'a' c && leb c b'z'
    || leb b'A' c && leb c b'Z'
    || leb b'0' c && leb c b'9'
    || nat_beq c b'/'
    || nat_beq c b'.'
    || nat_beq c b'_'
    || nat_beq c b'-'

unfoldable pub has_dots : Text → Bool
has_dots [] = false
has_dots (c ∷ s) = let rest = has_dots s in starts_with (c ∷ s) (codes "..") || rest

-- `SAFE_PATH_RE`
unfoldable pub is_admin_path : Text → Bool
is_admin_path path = elim (strip_prefix (codes "/admin/") path) [
  | none ↦ false
  | some rest ↦ not (is_empty rest) && all_by is_path_char rest
]

abbrev pub is_safe_path : Text → Bool
is_safe_path path = is_admin_path path && not (has_dots path)

abbrev pub json_body : Value → Option Value
json_body v = if truthy v then some v else none

-- The names are compared as they are written, which `fetch` does not do: an automation's header
-- `Authorization` stays.
unfoldable pub api_headers : Text → AutomationAction → Map Text Text
api_headers admin_token action =
    let kept =
      delete (codes "authorization") (delete (codes "x-admin-token") (or_else action.headers [])) in
    let own =
      set (codes "x-requested-by") (codes "automation")
        (set (codes "x-admin-token") admin_token kept) in
    if truthy action.body then set (codes "content-type") (codes "application/json") own else own

unfoldable pub http_headers : AutomationAction → Map Text Text
http_headers action =
    let headers = or_else action.headers [] in
    if truthy action.body && not (has (codes "content-type") headers)
    then set (codes "content-type") (codes "application/json") headers
    else headers

abbrev pub shell_safe_env_keys : List Text
shell_safe_env_keys =
    codes "PATH"
    ∷ codes "HOME"
    ∷ codes "LANG"
    ∷ codes "LC_ALL"
    ∷ codes "TZ"
    ∷ codes "NODE_ENV"
    ∷ codes "OP_HOME"
    ∷ []

-- Those of the variables that are set and not empty.
unfoldable pub safe_env : List Text → Map Text Text → Map Text Text → Map Text Text
safe_env [] env out = out
safe_env (key ∷ keys) env out =
    let value = or_else (get key env) [] in
    safe_env keys env (if is_empty value then out else set key value out)

abbrev pub is_id_char : ℕ → Bool
is_id_char c =
    leb b'a' c && leb c b'z'
    || leb b'A' c && leb c b'Z'
    || leb b'0' c && leb c b'9'
    || nat_beq c b'_'
    || nat_beq c b'-'

-- The id of the session that the assistant has made, if it is a valid one.
unfoldable pub session_id : Option HttpAnswer → Option Text
session_id none = none
session_id (some answer) = elim answer.body [
  | none ↦ none
  | some v ↦ elim (member (codes "id") v) [
    | string s ↦ if not (is_empty s) && all_by is_id_char s then some s else none
    | _ ↦ none
  ]
]

abbrev pub session_body : AutomationAction → Value
session_body action = object (
    field (codes "title") (string (codes "automation/" ++ or_else action.agent (codes "default")))
      end)

abbrev pub message_body : Text → Value
message_body content = object (
    field (codes "parts")
      (array (
        cons
          (object (
            field (codes "type") (string (codes "text"))
              (field (codes "text") (string content) end)))
          nil))
      end)

module _ (net : Network) (settings : Settings) where
  unfoldable pub execute_api_action : Text → AutomationAction → net.World → Bool × net.World
  execute_api_action admin_token action w =
      let path = or_else action.path [] in
      if is_empty path || not (is_safe_path path)
      then (true, w)
      else let (answer, w') =
          net.fetch
            (record {
              url = settings.admin_url ++ path;
              method = action.method;
              headers = api_headers admin_token action;
              body = json_body action.body;
              timeout = action.timeout;
            })
            w in
        (is_ok answer, w')

  unfoldable pub execute_http_action : AutomationAction → net.World → Bool × net.World
  execute_http_action action w =
      if is_empty (or_else action.url [])
      then (false, w)
      else let (answer, w') =
          net.fetch
            (record {
              url = or_else action.url [];
              method = action.method;
              headers = http_headers action;
              body = json_body action.body;
              timeout = action.timeout;
            })
            w in
        (is_ok answer, w')

  unfoldable pub execute_shell_action : AutomationAction → net.World → Bool × net.World
  execute_shell_action action w = elim (or_else action.command []) [
    | [] ↦ (false, w)
    | program ∷ arguments ↦
        net.exec program arguments (safe_env shell_safe_env_keys settings.env []) action.timeout w
  ]

  module _ (basic : Text → Text) where
    abbrev pub assistant_headers : Map Text Text
    assistant_headers =
        let headers = (codes "content-type", codes "application/json") ∷ [] in
        if is_empty settings.password
        then headers
        else set (codes "authorization") (basic settings.password) headers

    unfoldable pub send_prompt : AutomationAction → Text → Text → net.World → Bool × net.World
    send_prompt action content id w =
        let (answer, w') =
          net.fetch
            (record {
              url = settings.api_url ++ (codes "/session/" ++ (id ++ codes "/message"));
              method = codes "POST";
              headers = assistant_headers;
              body = some (message_body content);
              timeout = action.timeout;
            })
            w in
        (is_ok answer, w')

    unfoldable pub execute_assistant_action : AutomationAction → net.World → Bool × net.World
    execute_assistant_action action w =
        let content = or_else action.content [] in
        if is_empty content
        then (false, w)
        else let (answer, w') =
            net.fetch
              (record {
                url = settings.api_url ++ codes "/session";
                method = codes "POST";
                headers = assistant_headers;
                body = some (session_body action);
                timeout = 10_000;
              })
              w in
          if not (is_ok answer) then (false, w') else elim (session_id answer) [
            | none ↦ (false, w')
            | some id ↦ send_prompt action content id w'
          ]

    unfoldable pub execute_action : Text → AutomationAction → net.World → Bool × net.World
    execute_action admin_token action w = elim action.kind [
      | api ↦ execute_api_action admin_token action w
      | http ↦ execute_http_action action w
      | shell ↦ execute_shell_action action w
      | assistant ↦ execute_assistant_action action w
    ]
