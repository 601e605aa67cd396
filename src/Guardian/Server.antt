-- ===== src/Guardian/Server.antt =====
-- core/guardian/src/server.ts: the request handler, as a function of the request and the state of
-- the whole guardian. `JSON.parse`, the HMAC, `toLowerCase`, the parser of `dotenv` and the
-- assistant are parameters; the readings of the clock and the secrets found come with the request.
pub mod Types
pub mod Authentic
pub mod Rejected
pub mod Counting
pub mod Replays
pub mod Tests
use openpalm.Base.{
  ℕ, ◌+◌, ◌-◌, ◌/◌, ◌++◌, Bool, true, false, ◌&&◌, not, List, [], ◌∷◌, Option, none, some, Text,
  text_eq, codes, Map, get, set, is_empty, ltb, nat_beq, if◌then◌else◌, length, map, or_else, ◌==◌,
}
use openpalm.Sdk.Value.{Value}
use openpalm.Sdk.Compare.{verify_signature}
use openpalm.Sdk.Payload.{
  ErrorCode, invalid_json, payload_too_large, invalid_signature, replay_detected, rate_limited,
  assistant_unavailable, not_found, ChannelPayload, ok, err, validate_payload,
}
use openpalm.Guardian.RateLimit.{
  Buckets, allow, active_rate_limiters, user_rate_limit, user_rate_window_ms, channel_rate_limit,
  channel_rate_window_ms,
}
use openpalm.Guardian.Replay.{Seen, check_nonce, nonce_cache_size, nonce_max_size, clock_skew}
use openpalm.Guardian.Secrets.{SecretsCache, SecretsSource, load_channel_secrets}
use openpalm.Guardian.Forward.{
  SessionTarget, Assistant, ForwardState, Outcome, answered, thrown, resolve_session_target,
  should_clear_session, ask_assistant, clear_assistant_sessions,
}
use Types.{
  Runtime, Request, Counters, AuditEvent, denied, clear_failed, clear_done, inbound_done,
  forward_failed, Reply, failure, health, stats, cleared, answer, Response, error_text,
}

pub record GuardianState (W : Type 0) : Type 0 where
  pub counters : Counters
  pub buckets : Buckets
  pub seen : Seen
  pub secrets_cache : Option SecretsCache
  pub forward : ForwardState W
  -- The latest event first.
  pub audit_log : List AuditEvent

abbrev pub max_body : ℕ
max_body = 102_400

abbrev bump : Text → Map Text ℕ → Map Text ℕ
bump key m = set key (or_else (get key m) 0 + 1) m

-- A channel is counted unless it is missing or empty.
unfoldable pub count_request : Text → Text → Counters → Counters
count_request status channel c = record {
  total = c.total + 1;
  by_status = bump status c.by_status;
  by_channel = if is_empty channel then c.by_channel else bump channel c.by_channel;
}

module _ {W : Type 0} where
  abbrev pub counted : Text → Text → GuardianState W → GuardianState W
  counted status channel s = record s { counters = count_request status channel s.counters }

  abbrev pub audit : AuditEvent → GuardianState W → GuardianState W
  audit event s = record s { audit_log = event ∷ s.audit_log }

  -- An error answer, counted under its code and channel.
  unfoldable pub reject : ErrorCode → ℕ → Text → Text → GuardianState W → Response × GuardianState W
  reject code status channel rid s =
      (record { status = status; reply = failure code rid }, counted (error_text code) channel s)

-- `payload.channel.toLowerCase().replace(/-/g, "_")`
abbrev pub secret_name : (Text → Text) → Text → Text
secret_name to_lower_case channel =
    map (λ c. if nat_beq c b'-' then b'_' else c) (to_lower_case channel)

abbrev pub channel_bucket : Text → Text
channel_bucket channel = codes "ch:" ++ channel

module _ (rt : Runtime) where
  abbrev pub State : Type 0
  State = GuardianState rt.assistant.World

  unfoldable pub finish_clear :
      Request
      → ChannelPayload
      → SessionTarget
      → State
      → Bool × ForwardState rt.assistant.World
      → Response × State
  finish_clear req p target s (false, forward) =
      reject assistant_unavailable 502 p.channel req.request_id
        (audit (clear_failed req.request_id) (record s { forward = forward }))
  finish_clear req p target s (true, forward) = (
    record { status = 200; reply = cleared req.request_id p.user_id },
    audit (clear_done req.request_id p.channel p.user_id target.session_key)
        (record s { forward = forward }),
  )

  unfoldable pub finish_ask :
      Request
      → ChannelPayload
      → SessionTarget
      → State
      → Outcome × ForwardState rt.assistant.World
      → Response × State
  finish_ask req p target s (thrown, forward) =
      reject assistant_unavailable 502 p.channel req.request_id
        (audit (forward_failed req.request_id) (record s { forward = forward }))
  finish_ask req p target s (answered text id, forward) = (
    record { status = 200; reply = answer req.request_id id text p.user_id },
    audit (inbound_done req.request_id id p.channel p.user_id target.session_key)
        (counted (codes "ok") p.channel (record s { forward = forward })),
  )

  unfoldable pub forward_message : Request → ChannelPayload → State → Response × State
  forward_message req p s =
      let target = resolve_session_target p.user_id p.channel p.metadata in
      if should_clear_session p.metadata
      then finish_clear req p target s
          (clear_assistant_sessions rt.assistant rt.session_ttl target s.forward)
      else finish_ask req p target s
          (ask_assistant rt.assistant rt.session_ttl p.text target s.forward)

  unfoldable pub check_replay : Request → ChannelPayload → State → Response × State
  check_replay req p s =
      let (seen, fresh) = check_nonce nonce_max_size req.nonce_time p.nonce p.timestamp s.seen in
      if fresh
      then forward_message req p (record s { seen = seen })
      else reject replay_detected 409 p.channel req.request_id (record s { seen = seen })

  unfoldable pub deny_rate : Request → ChannelPayload → State → Response × State
  deny_rate req p s =
      reject rate_limited 429 p.channel req.request_id (audit (denied req.request_id p.channel) s)

  unfoldable pub limit_channel : Request → ChannelPayload → State → Response × State
  limit_channel req p s =
      let (buckets, allowed) =
        allow req.channel_time (channel_bucket p.channel) channel_rate_limit channel_rate_window_ms
          s.buckets in
      if allowed
      then check_replay req p (record s { buckets = buckets })
      else deny_rate req p (record s { buckets = buckets })

  unfoldable pub limit_user : Request → ChannelPayload → State → Response × State
  limit_user req p s =
      let (buckets, allowed) =
        allow req.user_time p.user_id user_rate_limit user_rate_window_ms s.buckets in
      if allowed
      then limit_channel req p (record s { buckets = buckets })
      else deny_rate req p (record s { buckets = buckets })

  unfoldable pub check_secret : Request → ChannelPayload → Text → State → Response × State
  check_secret req p secret s =
      if is_empty secret
      then reject invalid_signature 403 p.channel req.request_id s
      else if verify_signature rt.hmac secret req.raw (or_else req.signature [])
      then limit_user req p s
      else reject invalid_signature 403 p.channel req.request_id s

  unfoldable pub authenticate : Request → ChannelPayload → State → Response × State
  authenticate req p s =
      let (secrets, cache) =
        load_channel_secrets rt.to_lower_case rt.dotenv_parse req.secrets_time req.secrets
          s.secrets_cache in
      check_secret req p (or_else (get (secret_name rt.to_lower_case p.channel) secrets) [])
        (record s { secrets_cache = cache })

  unfoldable pub read_value : Request → Value → State → Response × State
  read_value req body s = elim (validate_payload body) [
    | err code ↦ reject code 400 [] req.request_id s
    | ok p ↦ authenticate req p s
  ]

  unfoldable pub inbound : Request → State → Response × State
  inbound req s =
      if ltb max_body (or_else req.content_length 0)
      then reject payload_too_large 413 [] req.request_id s
      else if ltb max_body (length req.raw)
      then reject payload_too_large 413 [] req.request_id s
      else elim (rt.json_parse req.raw) [
        | none ↦ reject invalid_json 400 [] req.request_id s
        | some body ↦ read_value req body s
      ]

  unfoldable pub statistics : Request → State → Reply
  statistics req s =
      let active = active_rate_limiters req.user_time s.buckets in
      stats (record {
        uptime_seconds = (req.user_time - rt.start_time) / 1000;
        active_user_limiters = active.active_user_limiters;
        active_channel_limiters = active.active_channel_limiters;
        nonce_cache_size = nonce_cache_size s.seen;
        sessions_active = length s.forward.session_cache;
        requests = s.counters;
      })

  unfoldable pub fetch : Request → State → Response × State
  fetch req s =
      if req.path == codes "/health" && req.method == codes "GET"
      then (record { status = 200; reply = health }, s)
      else if req.path == codes "/stats" && req.method == codes "GET"
      then (record { status = 200; reply = statistics req s }, s)
      else if req.path == codes "/channel/inbound" && req.method == codes "POST"
      then inbound req s
      else (record { status = 404; reply = failure not_found [] }, s)
