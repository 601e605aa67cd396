-- ===== src/Guardian/Server/Rejected.antt =====
-- What a request that is turned away leaves as it was.
use openpalm.Base.{
  ℕ, ◌≡◌, ◌⊎◌, inl, inr, refl, Bool, true, false, [], none, some, Text, text_eq, is_empty, or_else,
  arith, length, ltb, if◌then◌else◌,
}
use openpalm.Sdk.Value.{Value}
use openpalm.Sdk.Payload.{ChannelPayload, ErrorCode, invalid_json, ok, err, validate_payload}
use openpalm.Sdk.Compare.{verify_signature}
use openpalm.Guardian.RateLimit.{
  allow, user_rate_limit, user_rate_window_ms, channel_rate_limit, channel_rate_window_ms,
}
use openpalm.Guardian.Replay.{check_nonce, nonce_max_size, Seen}
use openpalm.Guardian.Forward.{
  ForwardState, Outcome, answered, thrown, resolve_session_target, clear_assistant_sessions,
  ask_assistant, SessionTarget,
}
use openpalm.Guardian.Server.Types.{Runtime, Request, Response}
use openpalm.Guardian.Server.{
  State, reject, forward_message, finish_clear, finish_ask, check_replay, deny_rate, limit_channel,
  limit_user, check_secret, authenticate, read_value, inbound, channel_bucket, max_body,
}
use openpalm.Guardian.Server.Authentic.{IsForwarded}

refused_keeps :
    (max_size now : ℕ) (nonce : Text) (ts : ℕ) (seen : Seen)
    → (check_nonce max_size now nonce ts seen).1 ≡ false
    → (check_nonce max_size now nonce ts seen).0 ≡ seen
unfolding check_nonce
refused_keeps max_size now nonce ts seen h = ground arith

module _ (rt : Runtime) where
  -- Refused for what it is, before any of the limits is asked.
  abbrev pub IsMalformed : Response × State rt → Type 0
  IsMalformed r = (r.0.status ≡ 400) ⊎ (r.0.status ≡ 403) ⊎ (r.0.status ≡ 413)

  -- What an answer leaves as it was: the sessions and the nonces unless the message was taken to
  -- the assistant, and for a malformed message the limits, too.
  pub record Keeps (s : State rt) (r : Response × State rt) : Type 0 where
    pub sessions : ¬ (IsForwarded r) → r.1.forward ≡ s.forward
    pub nonces : ¬ (IsForwarded r) → r.1.seen ≡ s.seen
    pub limits : IsMalformed r → r.1.buckets ≡ s.buckets

  -- The same for an answer behind the signature, which is no malformed one.
  record KeepsBoth (forward : ForwardState rt.assistant.World) (seen : Seen)
      (r : Response × State rt) : Type 0 where
    pub sessions : ¬ (IsForwarded r) → r.1.forward ≡ forward
    pub nonces : ¬ (IsForwarded r) → r.1.seen ≡ seen
    pub wellformed : ¬ (IsMalformed r)

  Keeps-both : (s : State rt) (r : Response × State rt) → KeepsBoth s.forward s.seen r → Keeps s r
  Keeps-both s r k = record {
    sessions = k.sessions;
    nonces = k.nonces;
    limits = λ m. absurd (k.wellformed m);
  }

  if-KeepsBoth :
      (b : Bool) (f : ForwardState rt.assistant.World) (seen : Seen) (x y : Response × State rt)
      → (b ≡ true → KeepsBoth f seen x)
      → (b ≡ false → KeepsBoth f seen y)
      → KeepsBoth f seen (if b then x else y)
  if-KeepsBoth true f seen x y kx ky = kx refl
  if-KeepsBoth false f seen x y kx ky = ky refl

  if-Keeps :
      (b : Bool) (s : State rt) (x y : Response × State rt)
      → Keeps s x
      → Keeps s y
      → Keeps s (if b then x else y)
  if-Keeps true s x y kx ky = kx
  if-Keeps false s x y kx ky = ky

  module _ (req : Request) where
    reject-Keeps :
        (code : ErrorCode) (status : ℕ) (channel : Text) (s : State rt)
        → Keeps s (reject code status channel req.request_id s)
    unfolding reject
    reject-Keeps code status channel s = record {
      sessions = λ h. refl;
      nonces = λ h. refl;
      limits = λ h. refl;
    }

    finish_clear-IsForwarded :
        (p : ChannelPayload) (target : SessionTarget) (s : State rt)
        (r : Bool × ForwardState rt.assistant.World)
        → IsForwarded (finish_clear rt req p target s r)
    unfolding finish_clear reject
    finish_clear-IsForwarded p target s (false, f) = inr refl
    finish_clear-IsForwarded p target s (true, f) = inl refl

    finish_ask-IsForwarded :
        (p : ChannelPayload) (target : SessionTarget) (s : State rt)
        (r : Outcome × ForwardState rt.assistant.World)
        → IsForwarded (finish_ask rt req p target s r)
    unfolding finish_ask reject
    finish_ask-IsForwarded p target s (thrown, f) = inr refl
    finish_ask-IsForwarded p target s (answered text id, f) = inl refl

    pub forward_message-IsForwarded :
        (p : ChannelPayload) (s : State rt) → IsForwarded (forward_message rt req p s)
    unfolding forward_message
    forward_message-IsForwarded p s =
        let target = resolve_session_target p.user_id p.channel p.metadata in
        ground (
          arith,
          finish_clear-IsForwarded p target s
              (clear_assistant_sessions rt.assistant rt.session_ttl target s.forward),
          finish_ask-IsForwarded p target s
              (ask_assistant rt.assistant rt.session_ttl p.text target s.forward),
        )

    forwarded-KeepsBoth :
        (f : ForwardState rt.assistant.World) (seen : Seen) (r : Response × State rt)
        → IsForwarded r
        → KeepsBoth f seen r
    forwarded-KeepsBoth f seen r h = record {
      sessions = λ no. absurd (no h);
      nonces = λ no. absurd (no h);
      wellformed = λ m. omega arith;
    }

    check_replay-KeepsBoth :
        (p : ChannelPayload) (s : State rt) → KeepsBoth s.forward s.seen (check_replay rt req p s)
    unfolding check_replay reject
    check_replay-KeepsBoth p s =
        if-KeepsBoth (check_nonce nonce_max_size req.nonce_time p.nonce p.timestamp s.seen).1
          s.forward s.seen _ _
          (λ e. forwarded-KeepsBoth s.forward s.seen _ (forward_message-IsForwarded p _))
          (λ e. record {
            sessions = λ h. refl;
            nonces = λ h. refused_keeps nonce_max_size req.nonce_time p.nonce p.timestamp s.seen e;
            wellformed = λ m. omega arith;
          })

    deny_rate-KeepsBoth :
        (p : ChannelPayload) (s : State rt) → KeepsBoth s.forward s.seen (deny_rate rt req p s)
    unfolding deny_rate reject
    deny_rate-KeepsBoth p s = record {
      sessions = λ h. refl;
      nonces = λ h. refl;
      wellformed = λ m. omega arith;
    }

    limit_channel-KeepsBoth :
        (p : ChannelPayload) (s : State rt) → KeepsBoth s.forward s.seen (limit_channel rt req p s)
    unfolding limit_channel
    limit_channel-KeepsBoth p s =
        if-KeepsBoth
          (allow req.channel_time (channel_bucket p.channel) channel_rate_limit
            channel_rate_window_ms s.buckets).1
          s.forward s.seen _ _ (λ e. check_replay-KeepsBoth p _) (λ e. deny_rate-KeepsBoth p _)

    limit_user-KeepsBoth :
        (p : ChannelPayload) (s : State rt) → KeepsBoth s.forward s.seen (limit_user rt req p s)
    unfolding limit_user
    limit_user-KeepsBoth p s =
        if-KeepsBoth (allow req.user_time p.user_id user_rate_limit user_rate_window_ms s.buckets).1
          s.forward s.seen _ _ (λ e. limit_channel-KeepsBoth p _) (λ e. deny_rate-KeepsBoth p _)

    check_secret-Keeps :
        (p : ChannelPayload) (secret : Text) (s : State rt)
        → Keeps s (check_secret rt req p secret s)
    unfolding check_secret
    check_secret-Keeps p secret s = if-Keeps (is_empty secret) s _ _ (reject-Keeps _ _ _ s) (
        if-Keeps (verify_signature rt.hmac secret req.raw (or_else req.signature [])) s _ _
          (Keeps-both s _ (limit_user-KeepsBoth p s)) (reject-Keeps _ _ _ s))

    authenticate-Keeps : (p : ChannelPayload) (s : State rt) → Keeps s (authenticate rt req p s)
    unfolding authenticate
    authenticate-Keeps p s =
        let k = check_secret-Keeps p _ (record s { secrets_cache = _ }) in
        record { sessions = k.sessions; nonces = k.nonces; limits = k.limits }

    read_value-Keeps : (body : Value) (s : State rt) → Keeps s (read_value rt req body s)
    unfolding read_value
    read_value-Keeps body s =
        elim (validate_payload body)
          as (λ v. Keeps s (elim v [
            | err code ↦ reject code 400 [] req.request_id s
            | ok p ↦ authenticate rt req p s
          ])) [ err code ↦ reject-Keeps code 400 [] s | ok p ↦ authenticate-Keeps p s ]

    -- A message that is not taken to the assistant leaves the sessions and the noted nonces as they
    -- were, and one that is too large, malformed or not signed spends nothing of any rate limit.
    pub inbound-Keeps : (s : State rt) → Keeps s (inbound rt req s)
    unfolding inbound
    inbound-Keeps s =
        if-Keeps (ltb max_body (or_else req.content_length 0)) s _ _ (reject-Keeps _ _ _ s) (
          if-Keeps (ltb max_body (length req.raw)) s _ _ (reject-Keeps _ _ _ s)
            (elim (rt.json_parse req.raw)
              as (λ v. Keeps s (elim v [
                | none ↦ reject invalid_json 400 [] req.request_id s
                | some body ↦ read_value rt req body s
              ])) [ none ↦ reject-Keeps _ _ _ s | some body ↦ read_value-Keeps body s ]))
