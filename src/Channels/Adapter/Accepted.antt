-- ===== src/Channels/Adapter/Accepted.antt =====
-- From the adapter to the guardian: what the one signs the other takes.
use openpalm.Base.{
  ◌≤◌, ◌≡◌, ◌≢◌, refl, arith, true, [], some, Text, codes, text_eq, trim, length, get, or_else,
}
use openpalm.Sdk.Value.{Value, undefined, null, bool, number, string, array, object, property}
use openpalm.Sdk.Compare.{sign_payload, verify_signature}
use openpalm.Sdk.Compare.Laws.{verify_signature_iff}
use openpalm.Sdk.Payload.{ChannelPayload, member, ok, validate_payload}
use openpalm.Sdk.Payload.Laws.{Holds, validate_payload_iff}
use openpalm.Guardian.Secrets.{load_channel_secrets}
use openpalm.Guardian.Server.Types.{Runtime, Request, Response}
use openpalm.Guardian.Server.{
  State, check_replay, limit_channel, limit_user, check_secret, authenticate, read_value, inbound,
  secret_name, max_body,
}
use openpalm.Guardian.Server.Authentic.{IsForwarded, Passes}
use openpalm.Guardian.Server.Rejected.{forward_message-IsForwarded}
use openpalm.Channels.Adapter.{
  Guardian, GuardianResponse, metadata_field, payload_value, build_channel_message,
  forward_channel_message, forward,
}

-- The bounds that the guardian puts on a message.
pub record IsSendable (p : ChannelPayload) : Type 0 where
  pub user_id : (trim p.user_id ≢ []) × (length p.user_id ≤ 256)
  pub channel : (trim p.channel ≢ []) × (length p.channel ≤ 64)
  pub text : (trim p.text ≢ []) × (length p.text ≤ 10_000)
  pub nonce : (trim p.nonce ≢ []) × (length p.nonce ≤ 128)

metadata-field : (v : Value) → property (codes "metadata") (metadata_field v) ≡ v
unfolding property metadata_field
metadata-field undefined = refl
metadata-field null = refl
metadata-field (bool b) = refl
metadata-field (number n) = refl
metadata-field (string s) = refl
metadata-field (array vs) = refl
metadata-field (object fs) = refl

payload_value-Holds : (p : ChannelPayload) → IsSendable p → Holds (payload_value p) p
unfolding payload_value member property
payload_value-Holds p h = record {
  user_id = (refl, h.user_id.0, h.user_id.1);
  channel = (refl, h.channel.0, h.channel.1);
  text = (refl, h.text.0, h.text.1);
  nonce = (refl, h.nonce.0, h.nonce.1);
  timestamp = refl;
  metadata = metadata-field p.metadata;
}

module _ (rt : Runtime) (json_stringify : Value → Text) where
  abbrev wire : ChannelPayload → Text
  wire p = json_stringify (payload_value p)

  -- The request that reaches the guardian with this body and signature, and for the rest as `seen`.
  abbrev pub arriving : Request → Text → Text → Request
  arriving seen body signature = record seen { raw = body; signature = some signature }

  -- The guardian's handler as what stands behind an adapter's `fetch`: each call is one run of it.
  -- The world is its last response and its state; `shown` is what the adapter sees of a response.
  abbrev pub behind_fetch : (Response → GuardianResponse) → Request → Guardian
  behind_fetch shown seen = record {
    World = Response × State rt;
    post = λ body signature w.
        let r = inbound rt (arriving seen body signature) w.1 in (some (shown r.0), r);
  }

  -- The adapter that sends the message with this secret and the guardian agree: on JSON, and on the
  -- secret of the channel; and the message is within the limit of a request's size.
  pub record Agrees (seen : Request) (p : ChannelPayload) (secret : Text) (s : State rt)
      : Type 0 where
    pub parses : rt.json_parse (wire p) ≡ some (payload_value p)
    pub has_digest : rt.hmac secret (wire p) ≢ []
    pub has_secret : secret ≢ []
    pub shared :
        get
          (secret_name rt.to_lower_case p.channel)
          (load_channel_secrets rt.to_lower_case rt.dotenv_parse seen.secrets_time seen.secrets
            s.secrets_cache).0
        ≡ some secret
    pub small : length (wire p) ≤ max_body
    pub small_header : or_else seen.content_length 0 ≤ max_body

  module _ (seen : Request) (p : ChannelPayload) (secret : Text) (s : State rt)
      (c : Agrees seen p secret s) where
    abbrev req : Request
    req = arriving seen (wire p) (rt.hmac secret (wire p))

    verified : verify_signature rt.hmac secret req.raw (or_else req.signature []) ≡ true
    verified =
        (verify_signature_iff rt.hmac secret req.raw (or_else req.signature [])).1
          (c.has_secret, c.has_digest, refl)

    to_limits : (s' : State rt) → check_secret rt req p secret s' ≡ limit_user rt req p s'
    unfolding check_secret
    to_limits s' = ground (arith, verified, c.has_secret)

    authenticated :
        authenticate rt req p s
        ≡ limit_user rt req p (record s {
          secrets_cache =
              (load_channel_secrets rt.to_lower_case rt.dotenv_parse req.secrets_time req.secrets
                s.secrets_cache).1;
        })
    unfolding authenticate
    authenticated = rw c.shared (to_limits _)

    through : IsSendable p → inbound rt req s ≡ authenticate rt req p s
    unfolding inbound read_value
    through h =
        let valid : validate_payload (payload_value p) ≡ ok p =
          (validate_payload_iff (payload_value p) p).1 (payload_value-Holds p h) in
        ground (arith, valid, c.small, c.small_header, c.parses)

  passed :
      (req : Request) (p : ChannelPayload) (s : State rt)
      → Passes rt req p s
      → IsForwarded (limit_user rt req p s)
  unfolding limit_user limit_channel check_replay
  passed req p s h =
      rw (h.user_allowed, h.channel_allowed, h.fresh) (forward_message-IsForwarded rt req p _)

  inbound-accepts :
      (seen : Request) (p : ChannelPayload) (secret : Text) (s : State rt)
      → Agrees seen p secret s
      → IsSendable p
      → Passes rt seen p s
      → IsForwarded (inbound rt (arriving seen (wire p) (rt.hmac secret (wire p))) s)
  inbound-accepts seen p secret s c h passes =
      let limits =
        passed (arriving seen (wire p) (rt.hmac secret (wire p))) p (record s { secrets_cache = _ })
          (record {
            user_allowed = passes.user_allowed;
            channel_allowed = passes.channel_allowed;
            fresh = passes.fresh;
          }) in
      rw (through seen p secret s c h, authenticated seen p secret s c) limits

  -- When an adapter with the guardian's handler behind its `fetch` forwards a text of a user, the
  -- handler takes the message to the assistant, if: its user, channel, text and nonce are not blank
  -- and within the guardian's bounds; the guardian has the adapter's secret, which is not empty, for
  -- its channel, and its digest is not empty; the guardian reads the JSON that the adapter writes,
  -- and it and the length in the header are within the limit; and both rate limits and the replay
  -- check let the message pass.
  pub forward-IsForwarded :
      (shown : Response → GuardianResponse) (seen : Request) (p : ChannelPayload) (secret : Text)
      (last : Response) (s : State rt)
      → Agrees seen p secret s
      → IsSendable p
      → Passes rt seen p s
      → IsForwarded
          (forward
            (behind_fetch shown seen)
            rt.hmac
            json_stringify
            p.channel
            secret
            p.nonce
            p.timestamp
            p.user_id
            p.text
            p.metadata
            (last, s)).1
  unfolding forward forward_channel_message build_channel_message sign_payload
  forward-IsForwarded shown seen p secret last s = inbound-accepts seen p secret s
