-- ===== src/Automation/Scheduler/Server/Guarded.antt =====
-- Who may do what with the scheduler.
use openpalm.Base.{
  ◌≡◌, ◌≢◌, ◌⊎◌, inl, inr, refl, arith, Bool, true, false, List, [], Option-cases, Bool-cases, Text,
  text_eq, text_beq_iff, if◌then◌else◌, length,
}
use openpalm.Automation.Config.{AutomationConfig}
use openpalm.Automation.Action.{Network, Settings}
use openpalm.Automation.Scheduler.{SchedulerState}
use openpalm.Automation.Scheduler.Server.{
  SchedulerRequest, SchedulerReply, health, automations, log, ran, run_failed, unauthorized,
  unknown, shown_token, safe_token_compare, require_auth, segments, action_and_name, handle_named,
  handle_automations, handle_request,
}

-- A reply that says nothing of the automations but how many are active.
abbrev pub IsPublic : SchedulerReply → Type 0
IsPublic (health n uptime) = Unit
IsPublic unauthorized = Unit
IsPublic unknown = Unit
IsPublic (automations c j l) = ⊥
IsPublic (log f l) = ⊥
IsPublic (ran f) = ⊥
IsPublic (run_failed o) = ⊥

module _ (net : Network) (settings : Settings) (basic : Text → Text) (sha256 : Text → Text)
    (admin_token : Text) where
  -- The request shows a token whose digest is that of the configured one.
  pub record IsAdmin (req : SchedulerRequest) : Type 0 where
    pub configured : admin_token ≢ []
    pub shown : shown_token req ≢ []
    pub same : sha256 (shown_token req) ≡ sha256 admin_token

  require_auth-IsAdmin :
      (req : SchedulerRequest) → require_auth sha256 admin_token req ≡ true → IsAdmin req
  unfolding require_auth safe_token_compare
  require_auth-IsAdmin req h = record {
    configured = ground arith;
    shown = ground arith;
    same = ground (arith, text_beq_iff (sha256 (shown_token req)) (sha256 admin_token));
  }

  -- Nothing happens, and nothing is told.
  pub record IsQuiet (s : SchedulerState net.World) (r : SchedulerReply × SchedulerState net.World)
      : Type 0 where
    pub says : IsPublic r.0
    pub same : r.1 ≡ s

  if-IsQuiet :
      (s : SchedulerState net.World) (b : Bool) (x y : SchedulerReply × SchedulerState net.World)
      → IsQuiet s x
      → IsQuiet s y
      → IsQuiet s (if b then x else y)
  if-IsQuiet s true x y qx qy = qx
  if-IsQuiet s false x y qx qy = qy

  quiet :
      (s : SchedulerState net.World) (reply : SchedulerReply)
      → IsPublic reply
      → IsQuiet s (reply, s)
  quiet s reply h = record { says = h; same = refl }

  handle_named-IsQuiet :
      (req : SchedulerRequest) (action name : Text) (s : SchedulerState net.World)
      → require_auth sha256 admin_token req ≡ false
      → IsQuiet s (handle_named net settings basic sha256 admin_token req action name s)
  unfolding handle_named
  handle_named-IsQuiet req action name s h =
      rw (h, handle_named)
        (if-IsQuiet s _ _ _ (quiet s unauthorized tt)
          (if-IsQuiet s _ _ _ (quiet s unauthorized tt) (quiet s unknown tt)))

  handle_automations-IsQuiet :
      (req : SchedulerRequest) (s : SchedulerState net.World)
      → require_auth sha256 admin_token req ≡ false
      → IsQuiet s (handle_automations net settings basic sha256 admin_token req s)
  unfolding handle_automations
  handle_automations-IsQuiet req s h = elim (Option-cases (action_and_name (segments req.path))) [
    | inl e ↦ rw (e, handle_automations) (quiet s unknown tt)
    | inr ((action, name), e) ↦
        rw (e, handle_automations) (handle_named-IsQuiet req action name s h)
  ]

  -- A request that does not show a token with the digest of the configured one, or any request
  -- where none is configured, changes nothing, runs nothing, and is told no more than the number
  -- of the jobs and the uptime of the process.
  pub handle_request-IsQuiet :
      (configs : List AutomationConfig) (req : SchedulerRequest) (s : SchedulerState net.World)
      → IsQuiet s (handle_request net settings basic sha256 admin_token configs req s) ⊎ IsAdmin req
  unfolding handle_request
  handle_request-IsQuiet configs req s = elim (Bool-cases (require_auth sha256 admin_token req)) [
    | inl h ↦ inr (require_auth-IsAdmin req h)
    | inr h ↦ inl (
        rw (h, handle_request)
          (if-IsQuiet s _ _ _ (quiet s (health (length s.active_jobs) req.uptime) tt) (
            if-IsQuiet s _ _ _ (quiet s unauthorized tt)
              (if-IsQuiet s _ _ _ (handle_automations-IsQuiet req s h) (quiet s unknown tt)))))
  ]
