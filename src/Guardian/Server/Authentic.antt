-- ===== src/Guardian/Server/Authentic.antt =====
-- What every message has passed that reaches the assistant.
use openpalm.Base.{
  ◌≤◌, ◌≡◌, ◌⊎◌, inl, inr, refl, Bool, true, [], Option, none, some, Option-cases, Text, text_eq,
  subst, get, or_else, arith, length, nat_beq, ◌||◌, ◌↔◌,
}
use openpalm.Sdk.Value.{Value}
use openpalm.Sdk.Compare.{verify_signature}
use openpalm.Sdk.Compare.Laws.{verify_signature_iff}
use openpalm.Sdk.Payload.{ChannelPayload, ErrorCode, ValidationResult, ok, err, validate_payload}
use openpalm.Guardian.RateLimit.{
  allow, user_rate_limit, user_rate_window_ms, channel_rate_limit, channel_rate_window_ms,
}
use openpalm.Guardian.Replay.{check_nonce, nonce_max_size}
use openpalm.Guardian.Secrets.{load_channel_secrets}
use openpalm.Guardian.Server.Types.{Runtime, Request, Response}
use openpalm.Guardian.Server.{
  State, reject, check_replay, deny_rate, limit_channel, limit_user, check_secret, authenticate,
  read_value, inbound, secret_name, channel_bucket, max_body,
}

ValidationResult-cases :
    (r : ValidationResult)
    → ((code : ErrorCode) × (r ≡ err code)) ⊎ ((p : ChannelPayload) × (r ≡ ok p))
ValidationResult-cases (err code) = inl (code, refl)
ValidationResult-cases (ok p) = inr (p, refl)

-- The answer of a message that was taken to the assistant, which served it or failed.
abbrev pub IsForwarded : {S : Type 0} → Response × S → Type 0
IsForwarded r = (r.0.status ≡ 200) ⊎ (r.0.status ≡ 502)

unfoldable pub is_forwarded : {S : Type 0} → Response × S → Bool
is_forwarded r = nat_beq r.0.status 200 || nat_beq r.0.status 502

pub is_forwarded_iff : {S : Type 0} (r : Response × S) → (is_forwarded r ≡ true) ↔ IsForwarded r
unfolding is_forwarded
is_forwarded_iff r = ground arith

module _ (rt : Runtime) (req : Request) where
  -- The two rate limits and the replay check, on the state that they read.
  pub record Passes (p : ChannelPayload) (s : State rt) : Type 0 where
    pub user_allowed :
        (allow req.user_time p.user_id user_rate_limit user_rate_window_ms s.buckets).1 ≡ true
    pub channel_allowed :
        (allow req.channel_time
          (channel_bucket p.channel)
          channel_rate_limit
          channel_rate_window_ms
          (allow req.user_time p.user_id user_rate_limit user_rate_window_ms s.buckets).0).1
        ≡ true
    pub fresh : (check_nonce nonce_max_size req.nonce_time p.nonce p.timestamp s.seen).1 ≡ true

  pub fresh_of_replay :
      (p : ChannelPayload) (s : State rt)
      → IsForwarded (check_replay rt req p s)
      → (check_nonce nonce_max_size req.nonce_time p.nonce p.timestamp s.seen).1 ≡ true
  unfolding check_replay reject
  fresh_of_replay p s h = ground arith

  pub allowed_of_channel :
      (p : ChannelPayload) (s : State rt)
      → IsForwarded (limit_channel rt req p s)
      → let r =
          allow req.channel_time
            (channel_bucket p.channel)
            channel_rate_limit
            channel_rate_window_ms
            s.buckets in
        (r.1 ≡ true)
        × IsForwarded (check_replay rt req p (record s { buckets = r.0 }))
        × (limit_channel rt req p s ≡ check_replay rt req p (record s { buckets = r.0 }))
  unfolding limit_channel deny_rate reject
  allowed_of_channel p s h = ground arith

  pub allowed_of_user :
      (p : ChannelPayload) (s : State rt)
      → IsForwarded (limit_user rt req p s)
      → let r = allow req.user_time p.user_id user_rate_limit user_rate_window_ms s.buckets in
        (r.1 ≡ true)
        × IsForwarded (limit_channel rt req p (record s { buckets = r.0 }))
        × (limit_user rt req p s ≡ limit_channel rt req p (record s { buckets = r.0 }))
  unfolding limit_user deny_rate reject
  allowed_of_user p s h = ground arith

  limit_user-Passes :
      (p : ChannelPayload) (s : State rt) → IsForwarded (limit_user rt req p s) → Passes p s
  limit_user-Passes p s h =
      let (user, at_channel, _) = allowed_of_user p s h in
      let (channel, at_replay, _) = allowed_of_channel p _ at_channel in
      record {
        user_allowed = user;
        channel_allowed = channel;
        fresh = fresh_of_replay p _ at_replay;
      }

  -- What stands behind a message that is forwarded, on the state before it.
  pub record Authentic (s : State rt) : Type 0 where
    pub body : Value
    pub payload : ChannelPayload
    pub secret : Text
    pub small : length req.raw ≤ max_body
    pub parsed : rt.json_parse req.raw ≡ some body
    pub valid : validate_payload body ≡ ok payload
    pub known :
        get
          (secret_name rt.to_lower_case payload.channel)
          (load_channel_secrets rt.to_lower_case rt.dotenv_parse req.secrets_time req.secrets
            s.secrets_cache).0
        ≡ some secret
    pub signed : req.signature ≡ some (rt.hmac secret req.raw)
    pub passes : Passes payload s

  pub secret_checked :
      (p : ChannelPayload) (secret : Text) (s : State rt)
      → IsForwarded (check_secret rt req p secret s)
      → (verify_signature rt.hmac secret req.raw (or_else req.signature []) ≡ true)
        × IsForwarded (limit_user rt req p s)
        × (check_secret rt req p secret s ≡ limit_user rt req p s)
  unfolding check_secret reject
  secret_checked p secret s h = ground arith

  secret_there :
      (secret : Option Text) (sig : Option Text)
      → verify_signature rt.hmac (or_else secret []) req.raw (or_else sig []) ≡ true
      → (found : Text) × (secret ≡ some found) × (sig ≡ some (rt.hmac found req.raw))
  secret_there none sig h = absurd (((verify_signature_iff rt.hmac _ _ _).0 h).0 refl)
  secret_there (some found) none h = absurd (((verify_signature_iff rt.hmac _ _ _).0 h).1 refl)
  secret_there (some found) (some given) h =
      (found, refl, ground (arith, (verify_signature_iff rt.hmac found req.raw given).0 h))

  authenticate-Authentic :
      (body : Value) (p : ChannelPayload) (s : State rt)
      → length req.raw ≤ max_body
      → rt.json_parse req.raw ≡ some body
      → validate_payload body ≡ ok p
      → IsForwarded (authenticate rt req p s)
      → Authentic s
  unfolding authenticate
  authenticate-Authentic body p s small parsed valid h =
      let loaded =
        load_channel_secrets rt.to_lower_case rt.dotenv_parse req.secrets_time req.secrets
          s.secrets_cache in
      let (verified, limits, _) = secret_checked p _ (record s { secrets_cache = loaded.1 }) h in
      let (secret, known, signed) =
        secret_there (get (secret_name rt.to_lower_case p.channel) loaded.0) req.signature
          verified in
      let passes = limit_user-Passes p (record s { secrets_cache = loaded.1 }) limits in
      record {
        body = body;
        payload = p;
        secret = secret;
        small = small;
        parsed = parsed;
        valid = valid;
        known = known;
        signed = signed;
        passes = record {
          user_allowed = passes.user_allowed;
          channel_allowed = passes.channel_allowed;
          fresh = passes.fresh;
        };
      }

  validated :
      (body : Value) (s : State rt)
      → IsForwarded (read_value rt req body s)
      → (p : ChannelPayload) × (validate_payload body ≡ ok p)
        × (read_value rt req body s ≡ authenticate rt req p s)
  unfolding read_value reject
  validated body s h = elim (ValidationResult-cases (validate_payload body)) [
    | inl (code, e) ↦ ground (arith, e)
    | inr (p, e) ↦ (p, e, rw (e, read_value))
  ]

  parsed_small :
      (s : State rt)
      → IsForwarded (inbound rt req s)
      → (body : Value) × (length req.raw ≤ max_body)
        × (rt.json_parse req.raw ≡ some body)
        × (inbound rt req s ≡ read_value rt req body s)
  unfolding inbound reject
  parsed_small s h = elim (Option-cases (rt.json_parse req.raw)) [
    | inl e ↦ ground (arith, e)
    | inr (body, e) ↦ (body, ground (arith, e), e, ground (arith, e))
  ]

  -- How far a message came that is forwarded.
  pub record Reached (s : State rt) : Type 0 where
    pub body : Value
    pub payload : ChannelPayload
    pub small : length req.raw ≤ max_body
    pub parsed : rt.json_parse req.raw ≡ some body
    pub valid : validate_payload body ≡ ok payload
    pub served : inbound rt req s ≡ authenticate rt req payload s

  pub inbound-Reached : (s : State rt) → IsForwarded (inbound rt req s) → Reached s
  inbound-Reached s h =
      let (body, small, parsed, at_value) = parsed_small s h in
      let (p, valid, at_secret) = validated body s (subst IsForwarded at_value h) in
      record {
        body = body;
        payload = p;
        small = small;
        parsed = parsed;
        valid = valid;
        served = rw at_value at_secret;
      }

  -- A message reaches the assistant (answer 200, or 502 where the assistant fails) only if its
  -- body is at most 102,400 units of valid JSON and a valid payload, its channel has a secret under
  -- which the body is signed, and both rate limits and the replay check let it pass.
  pub inbound-Authentic : (s : State rt) → IsForwarded (inbound rt req s) → Authentic s
  inbound-Authentic s h =
      let r = inbound-Reached s h in
      authenticate-Authentic r.body r.payload s r.small r.parsed r.valid
        (subst IsForwarded r.served h)
