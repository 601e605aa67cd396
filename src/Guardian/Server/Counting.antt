-- ===== src/Guardian/Server/Counting.antt =====
-- Every message is counted, but for one that clears its session.
use openpalm.Base.{
  ℕ, ◌+◌, ◌≡◌, refl, Bool, true, false, [], none, some, Text, text_eq, is_empty, or_else, arith,
  length, ltb, if◌then◌else◌,
}
use openpalm.Sdk.Value.{Value}
use openpalm.Sdk.Payload.{ChannelPayload, ErrorCode, invalid_json, ok, err, validate_payload}
use openpalm.Sdk.Compare.{verify_signature}
use openpalm.Guardian.RateLimit.{
  allow, user_rate_limit, user_rate_window_ms, channel_rate_limit, channel_rate_window_ms,
}
use openpalm.Guardian.Replay.{check_nonce, nonce_max_size}
use openpalm.Guardian.Forward.{
  ForwardState, Outcome, answered, thrown, resolve_session_target, clear_assistant_sessions,
  ask_assistant, SessionTarget,
}
use openpalm.Guardian.Server.Types.{
  Runtime, Request, Response, Reply, failure, health, stats, cleared, answer,
}
use openpalm.Guardian.Server.{
  State, reject, count_request, forward_message, finish_clear, finish_ask, check_replay, deny_rate,
  limit_channel, limit_user, check_secret, authenticate, read_value, inbound, channel_bucket,
  max_body,
}

abbrev pub tally : Reply → ℕ
tally (cleared rid user) = 0
tally (failure code rid) = 1
tally health = 0
tally (stats x) = 0
tally (answer rid id text user) = 1

module _ (rt : Runtime) where
  -- The answer is counted on top of `before`, once or, for a clear, not at all.
  abbrev pub IsCounted : ℕ → Response × State rt → Type 0
  IsCounted before r = r.1.counters.total ≡ before + tally r.0.reply

  if-IsCounted :
      (b : Bool) (before : ℕ) (x y : Response × State rt)
      → IsCounted before x
      → IsCounted before y
      → IsCounted before (if b then x else y)
  if-IsCounted true before x y cx cy = cx
  if-IsCounted false before x y cx cy = cy

  module _ (req : Request) where
    reject-IsCounted :
        (code : ErrorCode) (status : ℕ) (channel : Text) (s : State rt)
        → IsCounted s.counters.total (reject code status channel req.request_id s)
    unfolding reject count_request
    reject-IsCounted code status channel s = refl

    finish_clear-IsCounted :
        (p : ChannelPayload) (target : SessionTarget) (s : State rt)
        (r : Bool × ForwardState rt.assistant.World)
        → IsCounted s.counters.total (finish_clear rt req p target s r)
    unfolding finish_clear reject count_request
    finish_clear-IsCounted p target s (false, f) = refl
    finish_clear-IsCounted p target s (true, f) = omega arith

    finish_ask-IsCounted :
        (p : ChannelPayload) (target : SessionTarget) (s : State rt)
        (r : Outcome × ForwardState rt.assistant.World)
        → IsCounted s.counters.total (finish_ask rt req p target s r)
    unfolding finish_ask reject count_request
    finish_ask-IsCounted p target s (thrown, f) = refl
    finish_ask-IsCounted p target s (answered text id, f) = refl

    forward_message-IsCounted :
        (p : ChannelPayload) (s : State rt)
        → IsCounted s.counters.total (forward_message rt req p s)
    unfolding forward_message
    forward_message-IsCounted p s =
        let target = resolve_session_target p.user_id p.channel p.metadata in
        ground (
          arith,
          finish_clear-IsCounted p target s
              (clear_assistant_sessions rt.assistant rt.session_ttl target s.forward),
          finish_ask-IsCounted p target s
              (ask_assistant rt.assistant rt.session_ttl p.text target s.forward),
        )

    check_replay-IsCounted :
        (p : ChannelPayload) (s : State rt) → IsCounted s.counters.total (check_replay rt req p s)
    unfolding check_replay
    check_replay-IsCounted p s =
        if-IsCounted (check_nonce nonce_max_size req.nonce_time p.nonce p.timestamp s.seen).1
          s.counters.total _ _ (forward_message-IsCounted p _) (reject-IsCounted _ _ _ _)

    deny_rate-IsCounted :
        (p : ChannelPayload) (s : State rt) → IsCounted s.counters.total (deny_rate rt req p s)
    unfolding deny_rate
    deny_rate-IsCounted p s = reject-IsCounted _ _ _ _

    limit_channel-IsCounted :
        (p : ChannelPayload) (s : State rt) → IsCounted s.counters.total (limit_channel rt req p s)
    unfolding limit_channel
    limit_channel-IsCounted p s =
        if-IsCounted
          (allow req.channel_time (channel_bucket p.channel) channel_rate_limit
            channel_rate_window_ms s.buckets).1
          s.counters.total _ _ (check_replay-IsCounted p _) (deny_rate-IsCounted p _)

    limit_user-IsCounted :
        (p : ChannelPayload) (s : State rt) → IsCounted s.counters.total (limit_user rt req p s)
    unfolding limit_user
    limit_user-IsCounted p s =
        if-IsCounted (allow req.user_time p.user_id user_rate_limit user_rate_window_ms s.buckets).1
          s.counters.total _ _ (limit_channel-IsCounted p _) (deny_rate-IsCounted p _)

    check_secret-IsCounted :
        (p : ChannelPayload) (secret : Text) (s : State rt)
        → IsCounted s.counters.total (check_secret rt req p secret s)
    unfolding check_secret
    check_secret-IsCounted p secret s =
        if-IsCounted (is_empty secret) s.counters.total _ _ (reject-IsCounted _ _ _ s) (
          if-IsCounted (verify_signature rt.hmac secret req.raw (or_else req.signature []))
            s.counters.total _ _ (limit_user-IsCounted p s) (reject-IsCounted _ _ _ s))

    authenticate-IsCounted :
        (p : ChannelPayload) (s : State rt) → IsCounted s.counters.total (authenticate rt req p s)
    unfolding authenticate
    authenticate-IsCounted p s = check_secret-IsCounted p _ _

    read_value-IsCounted :
        (body : Value) (s : State rt) → IsCounted s.counters.total (read_value rt req body s)
    unfolding read_value
    read_value-IsCounted body s =
        elim (validate_payload body)
          as (λ v. IsCounted s.counters.total (elim v [
            | err code ↦ reject code 400 [] req.request_id s
            | ok p ↦ authenticate rt req p s
          ])) [ err code ↦ reject-IsCounted code 400 [] s | ok p ↦ authenticate-IsCounted p s ]

    -- Whatever becomes of a message, the counter of all requests grows by exactly one, except that
    -- a clear of a session which succeeds is not counted.
    pub inbound-IsCounted : (s : State rt) → IsCounted s.counters.total (inbound rt req s)
    unfolding inbound
    inbound-IsCounted s =
        if-IsCounted (ltb max_body (or_else req.content_length 0)) s.counters.total _ _
          (reject-IsCounted _ _ _ s)
          (if-IsCounted (ltb max_body (length req.raw)) s.counters.total _ _
            (reject-IsCounted _ _ _ s)
            (elim (rt.json_parse req.raw)
              as (λ v. IsCounted s.counters.total (elim v [
                | none ↦ reject invalid_json 400 [] req.request_id s
                | some body ↦ read_value rt req body s
              ])) [ none ↦ reject-IsCounted _ _ _ s | some body ↦ read_value-IsCounted body s ]))
