-- ===== src/Automation/Scheduler.antt =====
-- packages/scheduler/src/scheduler.ts: the running automations and the log of their executions.
-- The library of the timers is a parameter: whether it takes a schedule. When a timer fires is an
-- event; texts of errors are left out of the log.
pub mod Log
pub mod Server
use openpalm.Base.{
  ℕ, ◌-◌, ◌++◌, Bool, true, false, ◌&&◌, not, List, [], ◌∷◌, Option, none, some, Text, text_eq, Map,
  get, set, keep, length, drop, ltb, or_else, if◌then◌else◌, ◌==◌,
}
use mathlib.Core.List.{reverse}
use openpalm.Automation.Config.{AutomationConfig}
use openpalm.Automation.Action.{Network, Settings, execute_action}

pub record ExecutionLogEntry : Type 0 where
  pub at : ℕ
  pub ok : Bool
  pub duration_ms : ℕ

abbrev pub max_log_entries : ℕ
max_log_entries = 50

abbrev pub Logs : Type 0
Logs = Map Text (List ExecutionLogEntry)

-- `entries.slice(-MAX_LOG_ENTRIES)` where there are more.
unfoldable pub record_execution : Text → ExecutionLogEntry → Logs → Logs
record_execution file_name entry logs =
    let entries = or_else (get file_name logs) [] ++ entry ∷ [] in
    set file_name
      (if ltb max_log_entries (length entries)
        then drop (length entries - max_log_entries) entries
        else entries)
      logs

-- The newest first.
unfoldable pub get_execution_log : Text → Logs → List ExecutionLogEntry
get_execution_log file_name logs = reverse (or_else (get file_name logs) [])

pub record SchedulerState (W : Type 0) : Type 0 where
  pub active_jobs : List AutomationConfig
  pub logs : Logs
  pub world : W

unfoldable pub find_job : List AutomationConfig → Text → Option AutomationConfig
find_job [] file_name = none
find_job (job ∷ jobs) file_name =
    if job.file_name == file_name then some job else find_job jobs file_name

pub data Triggered : Type 0 where
  succeeded : Triggered
  failed : Triggered
  not_found : Triggered

module _ (takes_schedule : AutomationConfig → Bool) where
  -- Each enabled automation becomes a job, unless its timer cannot be made.
  abbrev pub new_jobs : List AutomationConfig → List AutomationConfig
  new_jobs configs = keep takes_schedule (keep (λ (c : AutomationConfig). c.enabled) configs)

  unfoldable pub start_scheduler :
      {W : Type 0} → List AutomationConfig → SchedulerState W → SchedulerState W
  start_scheduler configs s = record s { active_jobs = s.active_jobs ++ new_jobs configs }

unfoldable pub stop_scheduler : {W : Type 0} → SchedulerState W → SchedulerState W
stop_scheduler s = record s { active_jobs = [] }

unfoldable pub reload_scheduler :
    {W : Type 0}
    → (AutomationConfig → Bool)
    → List AutomationConfig
    → SchedulerState W
    → SchedulerState W
unfolding start_scheduler stop_scheduler
reload_scheduler takes_schedule configs s =
    start_scheduler takes_schedule configs (stop_scheduler s)

module _ (net : Network) (settings : Settings) (basic : Text → Text) (admin_token : Text) where
  -- A job's run, between two readings of the clock.
  unfoldable pub run_job :
      ℕ → ℕ → AutomationConfig → SchedulerState net.World → Bool × SchedulerState net.World
  run_job start finish job s =
      let (ok, w) = execute_action net settings basic admin_token job.action s.world in
      let entry : ExecutionLogEntry = record {
        at = finish;
        ok = ok;
        duration_ms = finish - start;
      } in
      (ok, record s { logs = record_execution job.file_name entry s.logs; world = w })

  unfoldable pub trigger_automation :
      ℕ → ℕ → Text → SchedulerState net.World → Triggered × SchedulerState net.World
  trigger_automation start finish file_name s = elim (find_job s.active_jobs file_name) [
    | none ↦ (not_found, s)
    | some job ↦ let (ok, s') = run_job start finish job s in (if ok then succeeded else failed, s')
  ]
