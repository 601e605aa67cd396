-- ===== src/Sdk/Payload.antt =====
-- packages/channels-sdk/src/channel.ts: the wire format and its validation.
pub mod Laws
pub mod Tests
use openpalm.Base.{
  ℕ, Bool, true, false, ◌||◌, not, Option, none, some, Text, codes, trim, is_empty, length, ltb,
  if◌then◌else◌, ◌>>=◌, ◌∷◌,
}
use openpalm.Sdk.Value.{Value, undefined, null, bool, number, string, array, object, property}

pub data ErrorCode : Type 0 where
  invalid_json invalid_payload payload_too_large channel_not_configured : ErrorCode
  invalid_signature replay_detected rate_limited assistant_unavailable not_found : ErrorCode

pub record ChannelPayload : Type 0 where
  pub user_id : Text
  pub channel : Text
  pub text : Text
  pub nonce : Text
  pub timestamp : ℕ
  -- `undefined` where the message has none.
  pub metadata : Value

pub data ValidationResult : Type 0 where
  ok : ChannelPayload → ValidationResult
  err : ErrorCode → ValidationResult

-- `!body || typeof body !== "object"`, negated: arrays pass.
abbrev pub is_object : Value → Bool
is_object (object fs) = true
is_object (array vs) = true
is_object _ = false

-- `o.key` of an object or an array.
unfoldable pub member : Text → Value → Value
member key (object fs) = property key fs
member key _ = undefined

-- `typeof v === "string" && !!v.trim()`
unfoldable pub non_blank : Value → Option Text
non_blank (string s) = if is_empty (trim s) then none else some s
non_blank _ = none

-- `typeof v === "number"`
unfoldable pub number_of : Value → Option ℕ
number_of (number n) = some n
number_of _ = none

-- The fields that must be there.
unfoldable pub required : Value → Option ChannelPayload
required o = do
  user_id ← non_blank (member (codes "userId") o)
  channel ← non_blank (member (codes "channel") o)
  text ← non_blank (member (codes "text") o)
  nonce ← non_blank (member (codes "nonce") o)
  timestamp ← number_of (member (codes "timestamp") o)
  some (record {
    user_id = user_id;
    channel = channel;
    text = text;
    nonce = nonce;
    timestamp = timestamp;
    metadata = member (codes "metadata") o;
  })

-- The bounds on their lengths, in the order of the source.
unfoldable pub bounded : ChannelPayload → ValidationResult
bounded p =
    if ltb 256 (length p.user_id)
    then err invalid_payload
    else if ltb 64 (length p.channel)
    then err invalid_payload
    else if ltb 128 (length p.nonce)
    then err invalid_payload
    else if ltb 10_000 (length p.text)
    then err invalid_payload
    else ok p

unfoldable pub validate_payload : Value → ValidationResult
validate_payload body =
    if not (is_object body)
    then err invalid_payload
    else elim (required body) [ none ↦ err invalid_payload | some p ↦ bounded p ]
