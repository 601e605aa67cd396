-- ===== src/Automation/Tests.antt =====
-- Automations at concrete inputs.
use openpalm.Base.{
  ℕ, suc, ◌≡◌, ◌⊎◌, refl, [], ◌∷◌, List, some, none, Text, text_eq, codes, true, strip_prefix,
  starts_with,
}
use mathlib.Core.List.{reverse}
use openpalm.Sdk.Value.{Value, undefined, string, object, field, end}
use openpalm.Automation.Config.{api, shell, AutomationAction, AutomationConfig, load_automations}
use openpalm.Automation.Action.{Network, Settings, execute_api_action, is_admin_path, has_dots}
use openpalm.Automation.Action.Contained.{Calls, api_action-Calls}
use openpalm.Automation.Scheduler.{
  SchedulerState, ExecutionLogEntry, max_log_entries, get_execution_log,
}
use openpalm.Automation.Scheduler.Log.{last_of, executions_of, record_all, log-last_of}
use openpalm.Automation.Scheduler.Server.{SchedulerRequest, handle_request}
use openpalm.Automation.Scheduler.Server.Guarded.{IsQuiet, IsAdmin, handle_request-IsQuiet}

-- A network that counts the calls and answers each.
abbrev counting : Network
counting = record {
  World = ℕ;
  fetch = λ out w. (some (record { status = 200; body = none }), suc w);
  exec = λ program arguments env timeout w. (true, suc w);
}

abbrev settings : Settings
settings = record {
  admin_url = codes "http://admin:8100";
  api_url = codes "http://assistant:4096";
  password = [];
  env = (codes "PATH", codes "/bin") ∷ (codes "OP_ADMIN_TOKEN", codes "t") ∷ [];
}

abbrev document : Value
document = object (
    field (codes "schedule") (string (codes " daily ")) (
      field (codes "action")
        (object (
          field (codes "type") (string (codes "api"))
            (field (codes "path") (string (codes "/admin/x/../y")) end)))
        end))

abbrev files : List (Text × Text)
files = (codes "notes.txt", []) ∷ (codes "up.yml", []) ∷ []

abbrev loaded : List AutomationConfig
loaded = load_automations (λ v. []) (λ content. some document) files

abbrev climbing : AutomationAction
climbing = record {
  kind = api;
  method = codes "GET";
  path = some (codes "/admin/x/../y");
  url = none;
  body = undefined;
  headers = none;
  command = none;
  content = none;
  agent = none;
  timeout = 30_000;
}

-- An action with an unsafe path counts as done, though nothing is called.
unsafe_succeeds : execute_api_action counting settings (codes "t") climbing 4 ≡ (true, 4)
unfolding execute_api_action is_admin_path has_dots strip_prefix starts_with
unsafe_succeeds = refl

api_action-Calls_example :
    let r = execute_api_action counting settings (codes "t") climbing 4 in
    (r.1 ≡ 4) ⊎ Calls counting settings (codes "t") climbing 4 r.1
api_action-Calls_example = api_action-Calls counting settings (codes "t") climbing 4

abbrev listing : AutomationAction
listing = record climbing { kind = shell; command = some (codes "ls" ∷ codes "-l" ∷ []) }

abbrev entry : ℕ → ExecutionLogEntry
entry at = record { at = at; ok = true; duration_ms = 1 }

abbrev runs : List (Text × ExecutionLogEntry)
runs = (codes "a.yml", entry 1) ∷ (codes "b.yml", entry 2) ∷ (codes "a.yml", entry 3) ∷ []

log-last_of_example :
    get_execution_log (codes "a.yml") (record_all runs [])
    ≡ reverse (last_of max_log_entries (executions_of (codes "a.yml") runs))
log-last_of_example = log-last_of (codes "a.yml") runs

abbrev quiet_state : SchedulerState ℕ
quiet_state = record { active_jobs = []; logs = []; world = 0 }

abbrev stranger : SchedulerRequest
stranger = record {
  method = codes "POST";
  path = codes "/automations/up.yml/run";
  x_admin_token = none;
  authorization = some (codes "Bearer nope");
  uptime = 60;
  start = 1;
  finish = 2;
}

handle_request-IsQuiet_example :
    IsQuiet counting settings
      (λ p. p)
      (λ t. t)
      (codes "secret")
      quiet_state
      (handle_request counting settings (λ p. p) (λ t. t) (codes "secret") [] stranger quiet_state)
    ⊎ IsAdmin counting settings (λ p. p) (λ t. t) (codes "secret") stranger
handle_request-IsQuiet_example =
    handle_request-IsQuiet counting settings (λ p. p) (λ t. t) (codes "secret") [] stranger
      quiet_state
