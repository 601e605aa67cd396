-- ===== src/Channels/Adapter.antt =====
-- packages/channels-sdk/src/channel-base.ts and channel-sdk.ts: what every channel adapter does with
-- a request. The guardian behind `fetch` is a parameter, and so are the HMAC, `JSON.stringify` and
-- `toUpperCase`; the nonce and the time are arguments. The adapter's own `route` and
-- `handleRequest` are given by their results.
pub mod Posting
pub mod Accepted
pub mod Tests
use openpalm.Base.{
  ℕ, ◌+◌, ◌++◌, Bool, true, false, ◌&&◌, not, List, [], ◌∷◌, Option, none, some, Text, text_eq,
  codes, Map, get, map, or_else, is_empty, leb, ltb, nat_beq, if◌then◌else◌, ◌==◌,
}
use openpalm.Sdk.Value.{Value, undefined, string, number, object, Fields, field, end}
use openpalm.Sdk.Compare.{sign_payload}
use openpalm.Sdk.Payload.{ChannelPayload, non_blank, member}

-- The guardian's answer; the body is `none` where it is no JSON.
pub record GuardianResponse : Type 0 where
  pub status : ℕ
  pub body : Option Value

-- What stands behind `fetch`: it is sent a body and a signature, and `none` is a call that throws.
pub record Guardian : Type 1 where
  pub World : Type 0
  pub post : Text → Text → World → Option GuardianResponse × World

abbrev pub is_ok : GuardianResponse → Bool
is_ok r = leb 200 r.status && ltb r.status 300

-- `guardianResp.status >= 500 ? 502 : guardianResp.status`
abbrev pub relayed_status : GuardianResponse → ℕ
relayed_status r = if leb 500 r.status then 502 else r.status

-- What `JSON.stringify` writes of a payload: a metadata of `undefined` is left out.
unfoldable pub metadata_field : Value → Fields
metadata_field undefined = end
metadata_field v = field (codes "metadata") v end

unfoldable pub payload_value : ChannelPayload → Value
payload_value p = object (
    field (codes "userId") (string p.user_id) (
      field (codes "channel") (string p.channel) (
        field (codes "text") (string p.text) (
          field (codes "nonce") (string p.nonce)
            (field (codes "timestamp") (number p.timestamp) (metadata_field p.metadata))))))

-- `HandleResult`, whose members the base class checks.
pub record HandleResult : Type 0 where
  pub user_id : Value
  pub text : Value
  pub metadata : Value

pub data Handled : Type 0 where
  failed : Handled
  skipped : Handled
  message : HandleResult → Handled

pub record ChannelRequest : Type 0 where
  pub path : Text
  pub method : Text
  -- The adapter's own answer, `none` where there is no `route` or it returns null.
  pub routed : Option Value
  pub handled : Handled
  pub nonce : Text
  pub now : ℕ

pub data ChannelReply : Type 0 where
  healthy : ChannelReply
  custom : Value → ChannelReply
  skipped_reply : ChannelReply
  relayed : Value → ChannelReply
  refused : ℕ → Text → ChannelReply
  guardian_error : ℕ → ℕ → ChannelReply
  -- An exception that nothing catches.
  uncaught : ChannelReply

unfoldable pub build_channel_message : Text → ℕ → Text → Text → Text → Value → ChannelPayload
build_channel_message nonce now user_id channel text metadata = record {
  user_id = user_id;
  channel = channel;
  text = text;
  nonce = nonce;
  timestamp = now;
  metadata = metadata;
}

-- `CHANNEL_${name}_SECRET` in the environment.
unfoldable pub channel_secret : (Text → Text) → Map Text Text → Text → Text
channel_secret to_upper_case env name =
    let key = map (λ c. if nat_beq c b'-' then b'_' else c) (to_upper_case name) in
    or_else (get (codes "CHANNEL_" ++ (key ++ codes "_SECRET")) env) []

module _ (g : Guardian) (hmac : Text → Text → Text) (json_stringify : Value → Text) where
  unfoldable pub forward_channel_message :
      Text → ChannelPayload → g.World → Option GuardianResponse × g.World
  unfolding sign_payload
  forward_channel_message secret payload w =
      let body = json_stringify (payload_value payload) in
      g.post body (sign_payload hmac secret body) w

  module _ (name secret : Text) where
    unfoldable pub forward :
        Text → ℕ → Text → Text → Value → g.World → Option GuardianResponse × g.World
    forward nonce now user_id text metadata w =
        forward_channel_message secret (build_channel_message nonce now user_id name text metadata)
          w

    unfoldable pub relay : Option GuardianResponse → ChannelReply
    relay none = refused 502 (codes "guardian_error")
    relay (some r) =
        if not (is_ok r)
        then guardian_error (relayed_status r) r.status
        else elim r.body [ none ↦ uncaught | some data_value ↦ relayed data_value ]

    unfoldable pub handle_message : Text → ℕ → HandleResult → g.World → ChannelReply × g.World
    handle_message nonce now result w = elim (non_blank result.text) [
      | none ↦ (refused 400 (codes "text_required"), w)
      | some text ↦ elim (non_blank result.user_id) [
        | none ↦ (refused 400 (codes "missing_user_id"), w)
        | some user_id ↦
            let (response, w') = forward nonce now user_id text result.metadata w in
            (relay response, w')
      ]
    ]

    unfoldable pub handle : ChannelRequest → Handled → g.World → ChannelReply × g.World
    handle req failed w = (refused 400 (codes "invalid_request"), w)
    handle req skipped w = (skipped_reply, w)
    handle req (message result) w = handle_message req.nonce req.now result w

    unfoldable pub create_fetch : ChannelRequest → g.World → ChannelReply × g.World
    create_fetch req w = if req.path == codes "/health" then (healthy, w) else elim req.routed [
      | some answer ↦ (custom answer, w)
      | none ↦
          if not (req.method == codes "POST")
          then (refused 404 (codes "not_found"), w)
          else handle req req.handled w
    ]

    -- The answer's text; `none` where it throws. A body of null or none makes it throw, too.
    unfoldable pub answer_text : Value → Option Value
    answer_text Value.null = none
    answer_text undefined = none
    answer_text v = some (elim (member (codes "answer") v) [
      | undefined ↦ string (codes "No response received.")
      | Value.null ↦ string (codes "No response received.")
      | answer ↦ answer
    ])

    unfoldable pub read_answer : Option GuardianResponse → Option Value
    read_answer none = none
    read_answer (some r) =
        if not (is_ok r) then none else elim r.body [ none ↦ none | some v ↦ answer_text v ]

    unfoldable pub forward_to_guardian :
        Text → ℕ → Text → Text → Value → g.World → Option Value × g.World
    forward_to_guardian nonce now user_id text metadata w =
        let (response, w') = forward nonce now (name ++ (codes ":" ++ user_id)) text metadata w in
        (read_answer response, w')
