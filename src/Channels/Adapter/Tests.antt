-- ===== src/Channels/Adapter/Tests.antt =====
-- A concrete message from an adapter to the guardian.
use openpalm.Base.{
  ℕ, suc, ◌≡◌, refl, [], none, Text, codes, arith, trim, get, set, strip_prefix, strip_suffix,
}
use openpalm.Sdk.Value.{Value, undefined, string}
use openpalm.Sdk.Payload.{ChannelPayload, non_blank, not_found}
use openpalm.Guardian.RateLimit.{allow, admit}
use openpalm.Guardian.Replay.{check_nonce}
use openpalm.Guardian.Secrets.{channel_of_key, store_secret, collect_secrets, load_channel_secrets}
use openpalm.Guardian.Server.Types.{Response, failure}
use openpalm.Guardian.Server.Authentic.{IsForwarded, Passes}
use openpalm.Guardian.Server.Tests.{runtime, hello, start}
use openpalm.Channels.Adapter.{
  Guardian, GuardianResponse, ChannelRequest, forward, message, refused, create_fetch, handle,
  handle_message, metadata_field, payload_value,
}
use openpalm.Channels.Adapter.Accepted.{IsSendable, Agrees, behind_fetch, forward-IsForwarded}

abbrev payload : ChannelPayload
payload = record {
  user_id = codes "u1";
  channel = codes "A";
  text = codes "hi";
  nonce = codes "n1";
  timestamp = 1_000_000;
  metadata = undefined;
}

abbrev written : Value → Text
written v = codes "hello"

agreeing : Agrees runtime written hello payload (codes "k") start
unfolding payload_value metadata_field load_channel_secrets collect_secrets store_secret
    channel_of_key strip_prefix strip_suffix get set
agreeing = record {
  parses = refl;
  has_digest = λ e. cc;
  has_secret = λ e. cc;
  shared = refl;
  small = omega arith;
  small_header = omega arith;
}

sendable : IsSendable payload
unfolding trim
sendable = record {
  user_id = ((λ e. cc), omega arith);
  channel = ((λ e. cc), omega arith);
  text = ((λ e. cc), omega arith);
  nonce = ((λ e. cc), omega arith);
}

passing : Passes runtime hello payload start
unfolding allow admit check_nonce get set
passing = record { user_allowed = refl; channel_allowed = refl; fresh = refl }

abbrev shown : Response → GuardianResponse
shown r = record { status = r.status; body = none }

abbrev refusal : Response
refusal = record { status = 404; reply = failure not_found [] }

forward-IsForwarded_example :
    IsForwarded
      (forward
        (behind_fetch runtime written shown hello)
        runtime.hmac
        written
        (codes "A")
        (codes "k")
        (codes "n1")
        1_000_000
        (codes "u1")
        (codes "hi")
        undefined
        (refusal, start)).1
forward-IsForwarded_example =
    forward-IsForwarded runtime written shown hello payload (codes "k") refusal start agreeing
      sendable passing

-- A guardian that cannot be reached and counts the attempts.
abbrev gone : Guardian
gone = record { World = ℕ; post = λ body sig w. (none, suc w) }

abbrev blank : ChannelRequest
blank = record {
  path = codes "/";
  method = codes "POST";
  routed = none;
  handled =
      message
        (record { user_id = string (codes "u"); text = string (codes "  "); metadata = undefined });
  nonce = codes "n";
  now = 1;
}

blank_stays :
    create_fetch gone (λ k t. t) written (codes "api") (codes "s") blank 7
    ≡ (refused 400 (codes "text_required"), 7)
unfolding create_fetch handle handle_message non_blank trim
blank_stays = refl

abbrev said : ChannelRequest
said = record blank {
  handled =
      message
        (record { user_id = string (codes "u"); text = string (codes "hi"); metadata = undefined });
}
