-- ===== src/Guardian/Forward/Tests.antt =====
-- The session caches at concrete inputs.
use openpalm.Base.{ℕ, ◌+◌, ◌≡◌, refl, [], some, text_eq, codes, get, trim}
use openpalm.Sdk.Value.{Value, string, object, field, end, property}
use openpalm.Guardian.Forward.{
  SessionTarget, Assistant, ForwardState, answered, resolve_session_target, metadata_session_key,
  ask_assistant, live_session, reattach, find_existing_session_id, reload_titles, use_existing,
  start_session, send_first, fill_titles,
}
use openpalm.Guardian.Forward.Laws.{Post, ask_assistant-Post}

-- An assistant that echoes, for which each message takes one unit of time; session "gone" is
-- unknown to it.
abbrev echo : Assistant
echo = record {
  World = ℕ;
  clock = λ w. w;
  send_message = λ id message w. (some message, w + 1);
  create_session = λ title w. (some (codes "s-1"), w);
  list_sessions = λ w. (some [], w);
  delete_session = λ id w. w;
}

abbrev alice : SessionTarget
alice = record {
  cache_key = codes "chat:alice";
  session_key = codes "alice";
  title = codes "chat/alice";
}

abbrev start : ForwardState ℕ
start = record { session_cache = []; title_cache = []; list_loaded = 0; world = 1000 }

creates : (ask_assistant echo 900 (codes "hi") alice start).0 ≡ answered (codes "hi") (codes "s-1")
unfolding ask_assistant live_session reattach find_existing_session_id reload_titles use_existing
    start_session send_first get fill_titles
creates = refl

ask_assistant-Post_example :
    Post echo 900 alice [] (ask_assistant echo 900 (codes "hi") alice start)
ask_assistant-Post_example = ask_assistant-Post echo 900 (codes "hi") alice start

-- The key that a message names for itself.
abbrev thread : Value
thread = object (field (codes "sessionKey") (string (codes " slack:thread:c:1 ")) end)

named :
    (resolve_session_target (codes "u1") (codes "slack") thread).cache_key
    ≡ codes "slack:slack:thread:c:1"
unfolding resolve_session_target metadata_session_key property trim
named = refl
