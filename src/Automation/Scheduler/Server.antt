-- ===== src/Automation/Scheduler/Server.antt =====
-- packages/scheduler/src/server.ts: the interface of the scheduler. SHA-256 is a parameter; what
-- an automation's entry in the list repeats of its configuration is left out.
pub mod Guarded
use openpalm.Base.{
  ℕ, ◌++◌, Bool, true, false, ◌&&◌, ◌||◌, not, List, [], ◌∷◌, Option, none, some, Text, text_eq,
  codes, length, take, drop, keep, map, any_by, is_empty, is_space, trim_start, or_else, leb, split,
  join, starts_with, if◌then◌else◌, ◌==◌,
}
use mathlib.Core.List.{reverse}
use openpalm.Channels.Api.{lower}
use openpalm.Automation.Config.{AutomationConfig}
use openpalm.Automation.Action.{Network, Settings}
use openpalm.Automation.Scheduler.{
  ExecutionLogEntry, Logs, SchedulerState, Triggered, succeeded, failed, not_found,
  get_execution_log, trigger_automation,
}

pub record SchedulerRequest : Type 0 where
  pub method : Text
  pub path : Text
  pub x_admin_token : Option Text
  pub authorization : Option Text
  -- `process.uptime()`
  pub uptime : ℕ
  -- The clock before and after an action.
  pub start : ℕ
  pub finish : ℕ

pub data SchedulerReply : Type 0 where
  -- The number of jobs and the uptime.
  health : ℕ → ℕ → SchedulerReply
  automations : List AutomationConfig → List AutomationConfig → Logs → SchedulerReply
  log : Text → List ExecutionLogEntry → SchedulerReply
  ran : Text → SchedulerReply
  -- Status 404 in both cases.
  run_failed : Triggered → SchedulerReply
  unauthorized : SchedulerReply
  unknown : SchedulerReply

-- `replace(/^Bearer\s+/i, "")`
unfoldable pub without_bearer : Text → Text
without_bearer header =
    if map lower (take 6 header) == codes "bearer"
      && any_by (λ c. is_space c) (take 1 (drop 6 header))
    then trim_start (drop 6 header)
    else header

abbrev pub shown_token : SchedulerRequest → Text
shown_token req = elim req.x_admin_token [
  | some token ↦ token
  | none ↦ elim req.authorization [ some header ↦ without_bearer header | none ↦ [] ]
]

unfoldable pub safe_token_compare : (Text → Text) → Text → Text → Bool
safe_token_compare sha256 a b = if is_empty a || is_empty b then false else sha256 a == sha256 b

unfoldable pub require_auth : (Text → Text) → Text → SchedulerRequest → Bool
require_auth sha256 admin_token req =
    if is_empty admin_token then false else safe_token_compare sha256 (shown_token req) admin_token

-- The parts of a path that are not empty.
unfoldable pub segments : Text → List Text
segments path = keep (λ s. not (is_empty s)) (split b'/' path)

-- The last of three or more parts, and the join of those between it and the first.
unfoldable pub action_and_name : List Text → Option (Text × Text)
action_and_name parts = elim (reverse (drop 1 parts)) [
  | [] ↦ none
  | action ∷ between ↦ elim between [
    | [] ↦ none
    | x ∷ xs ↦ some (action, join b'/' (reverse (x ∷ xs)))
  ]
]

module _ (net : Network) (settings : Settings) (basic : Text → Text) (sha256 : Text → Text)
    (admin_token : Text) where
  abbrev State : Type 0
  State = SchedulerState net.World

  unfoldable pub run_named : SchedulerRequest → Text → State → SchedulerReply × State
  run_named req name s =
      let (outcome, s') =
        trigger_automation net settings basic admin_token req.start req.finish name s in
      (elim outcome [ succeeded ↦ ran name | other ↦ run_failed other ], s')

  unfoldable pub handle_named : SchedulerRequest → Text → Text → State → SchedulerReply × State
  handle_named req action name s =
      if req.method == codes "GET" && action == codes "log" && not (is_empty name)
      then (
        if require_auth sha256 admin_token req
            then log name (get_execution_log name s.logs)
            else unauthorized,
        s,
      )
      else if req.method == codes "POST" && action == codes "run" && not (is_empty name)
      then (if require_auth sha256 admin_token req then run_named req name s else (unauthorized, s))
      else (unknown, s)

  unfoldable pub handle_automations : SchedulerRequest → State → SchedulerReply × State
  handle_automations req s = elim (action_and_name (segments req.path)) [
    | none ↦ (unknown, s)
    | some (action, name) ↦ handle_named req action name s
  ]

  -- `configs` are the automations on disk.
  unfoldable pub handle_request :
      List AutomationConfig → SchedulerRequest → State → SchedulerReply × State
  handle_request configs req s =
      if req.method == codes "GET" && req.path == codes "/health"
      then (health (length s.active_jobs) req.uptime, s)
      else if req.method == codes "GET" && req.path == codes "/automations"
      then (
        if require_auth sha256 admin_token req
            then automations configs s.active_jobs s.logs
            else unauthorized,
        s,
      )
      else if starts_with req.path (codes "/automations/")
      then handle_automations req s
      else (unknown, s)
