-- ===== src/Guardian/Server/Tests.antt =====
-- The handler at concrete requests, with an assistant that echoes and a digest that is the key
-- before the text.
use openpalm.Base.{
  ℕ, ◌+◌, ◌≡◌, inl, refl, List, [], ◌∷◌, none, some, text_eq, codes, get, set, arith, trim, ◌++◌,
  strip_prefix, strip_suffix, evict_oldest,
}
use openpalm.Sdk.Value.{Value, string, number, object, field, end, property}
use openpalm.Sdk.Compare.{diff_from, constant_time_equal, verify_signature, sign_payload}
use openpalm.Sdk.Payload.{required, bounded, member, non_blank, number_of, validate_payload}
use openpalm.Guardian.RateLimit.{allow, admit}
use openpalm.Guardian.Replay.{check_nonce, prune_nonce_cache}
use openpalm.Guardian.Secrets.{channel_of_key, store_secret, collect_secrets, load_channel_secrets}
use openpalm.Guardian.Forward.{
  Assistant, should_clear_session, ask_assistant, live_session, reattach, find_existing_session_id,
  reload_titles, use_existing, start_session, send_first, fill_titles,
}
use openpalm.Guardian.Server.Types.{Runtime, Request}
use openpalm.Guardian.Server.{
  State, reject, forward_message, finish_ask, check_replay, limit_channel, limit_user, check_secret,
  authenticate, read_value, inbound,
}
use openpalm.Guardian.Server.Authentic.{IsForwarded, Authentic, inbound-Authentic}
use openpalm.Guardian.Server.Rejected.{Keeps, inbound-Keeps}
use openpalm.Guardian.Server.Counting.{IsCounted, inbound-IsCounted}
use openpalm.Guardian.Server.Replays.{
  Arrival, message, prune_timer, HasRoom, serve, times_taken, taken_once,
}

abbrev pub echo : Assistant
echo = record {
  World = ℕ;
  clock = λ w. w;
  send_message = λ id text w. (some text, w + 1);
  create_session = λ title w. (some (codes "s-1"), w);
  list_sessions = λ w. (some [], w);
  delete_session = λ id w. w;
}

abbrev pub hello_value : Value
hello_value = object (
    field (codes "userId") (string (codes "u1")) (
      field (codes "channel") (string (codes "A")) (
        field (codes "text") (string (codes "hi")) (
          field (codes "nonce") (string (codes "n1"))
            (field (codes "timestamp") (number 1_000_000) end)))))

-- Every text is read as the same message.
abbrev pub runtime : Runtime
runtime = record {
  json_parse = λ raw. some hello_value;
  hmac = λ key text. key ++ text;
  to_lower_case = λ t. t;
  dotenv_parse = λ t. [];
  assistant = echo;
  session_ttl = 900_000;
  start_time = 0;
}

abbrev pub hello : Request
hello = record {
  path = codes "/channel/inbound";
  method = codes "POST";
  request_id = codes "r1";
  content_length = some 5;
  signature = some (codes "khello");
  raw = codes "hello";
  secrets_time = 1_000_001;
  user_time = 1_000_001;
  channel_time = 1_000_001;
  nonce_time = 1_000_001;
  secrets = record { file = none; env = (codes "CHANNEL_A_SECRET", codes "k") ∷ []; ttl = 30_000 };
}

abbrev pub start : State runtime
start = record {
  counters = record { total = 0; by_status = []; by_channel = [] };
  buckets = [];
  seen = [];
  secrets_cache = none;
  forward = record { session_cache = []; title_cache = []; list_loaded = 0; world = 1_000_001 };
  audit_log = [];
}

hello-IsForwarded : IsForwarded (inbound runtime hello start)
unfolding inbound read_value validate_payload required bounded member non_blank number_of property
    trim authenticate load_channel_secrets collect_secrets store_secret channel_of_key strip_prefix
    strip_suffix get set check_secret verify_signature sign_payload constant_time_equal diff_from
    limit_user limit_channel allow admit check_replay check_nonce forward_message
    should_clear_session finish_ask ask_assistant live_session reattach find_existing_session_id
    reload_titles use_existing start_session send_first fill_titles
hello-IsForwarded = inl refl

inbound-Authentic_example : Authentic runtime hello start
inbound-Authentic_example = inbound-Authentic runtime hello start hello-IsForwarded

inbound-Keeps_example : Keeps runtime start (inbound runtime hello start)
inbound-Keeps_example = inbound-Keeps runtime hello start

inbound-IsCounted_example : IsCounted runtime 0 (inbound runtime hello start)
inbound-IsCounted_example = inbound-IsCounted runtime hello start

-- The same request again, a turn of the timer, and the request once more.
abbrev again : List Arrival
again =
    message hello ∷ prune_timer 2_000_000 ∷ message (record hello { nonce_time = 2_000_001 }) ∷ []

again-HasRoom : HasRoom runtime again (inbound runtime hello start).1
unfolding HasRoom serve inbound read_value validate_payload required bounded member non_blank
    number_of property trim authenticate load_channel_secrets collect_secrets store_secret
    channel_of_key strip_prefix strip_suffix get set check_secret verify_signature sign_payload
    constant_time_equal diff_from limit_user limit_channel allow admit check_replay check_nonce
    forward_message should_clear_session finish_ask ask_assistant live_session reattach
    find_existing_session_id reload_titles use_existing start_session send_first fill_titles reject
    prune_nonce_cache evict_oldest
again-HasRoom = omega arith

taken_once_example : times_taken runtime (codes "hello") again (inbound runtime hello start).1 ≡ 0
taken_once_example =
    taken_once runtime hello start again (omega arith) hello-IsForwarded (omega arith) again-HasRoom
