-- ===== src/Guardian/Server/Types.antt =====
-- What the handler receives, answers and writes down.
use openpalm.Base.{ℕ, List, Option, Text, Map, codes}
use openpalm.Sdk.Value.{Value}
use openpalm.Sdk.Payload.{
  ErrorCode, invalid_json, invalid_payload, payload_too_large, channel_not_configured,
  invalid_signature, replay_detected, rate_limited, assistant_unavailable, not_found,
}
use openpalm.Guardian.Secrets.{SecretsSource}
use openpalm.Guardian.Forward.{Assistant}

-- What stands behind the handler. `json_parse` is none where `JSON.parse` throws.
pub record Runtime : Type 1 where
  pub json_parse : Text → Option Value
  pub hmac : Text → Text → Text
  pub to_lower_case : Text → Text
  pub dotenv_parse : Text → List (Text × Text)
  pub assistant : Assistant
  pub session_ttl : ℕ
  pub start_time : ℕ

-- A request with what the handler finds while it serves it: the readings of the clock for the
-- secrets' cache, the two rate limits and the replay check, and the secrets. `content_length` is
-- the header as a number, `request_id` the header's or the random one.
pub record Request : Type 0 where
  pub path : Text
  pub method : Text
  pub request_id : Text
  pub content_length : Option ℕ
  pub signature : Option Text
  pub raw : Text
  pub secrets_time : ℕ
  pub user_time : ℕ
  pub channel_time : ℕ
  pub nonce_time : ℕ
  pub secrets : SecretsSource

pub record Counters : Type 0 where
  pub total : ℕ
  pub by_status : Map Text ℕ
  pub by_channel : Map Text ℕ

-- The lines of the audit log, by action and status.
pub data AuditEvent : Type 0 where
  denied : Text → Text → AuditEvent
  clear_failed : Text → AuditEvent
  clear_done : Text → Text → Text → Text → AuditEvent
  inbound_done : Text → Text → Text → Text → Text → AuditEvent
  forward_failed : Text → AuditEvent

-- The changing part of `/stats`.
pub record Stats : Type 0 where
  pub uptime_seconds : ℕ
  pub active_user_limiters : ℕ
  pub active_channel_limiters : ℕ
  pub nonce_cache_size : ℕ
  pub sessions_active : ℕ
  pub requests : Counters

pub data Reply : Type 0 where
  failure : ErrorCode → Text → Reply
  health : Reply
  stats : Stats → Reply
  cleared : Text → Text → Reply
  answer : Text → Text → Text → Text → Reply

pub record Response : Type 0 where
  pub status : ℕ
  pub reply : Reply

-- `ERROR_CODES`
abbrev pub error_text : ErrorCode → Text
error_text invalid_json = codes "invalid_json"
error_text invalid_payload = codes "invalid_payload"
error_text payload_too_large = codes "payload_too_large"
error_text channel_not_configured = codes "channel_not_configured"
error_text invalid_signature = codes "invalid_signature"
error_text replay_detected = codes "replay_detected"
error_text rate_limited = codes "rate_limited"
error_text assistant_unavailable = codes "assistant_unavailable"
error_text not_found = codes "not_found"
