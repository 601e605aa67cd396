-- ===== src/Guardian/Forward.antt =====
-- core/guardian/src/forward.ts: which assistant session a message goes to. The assistant behind
-- packages/channels-sdk/src/assistant-client.ts is a parameter: a world in which its calls
-- answer or fail and in which time passes. One call runs at a time, as under `withSessionLock`
-- for its key; calls for other keys in between are not modelled.
pub mod Turns
pub mod Origin
pub mod Laws
pub mod Tests
use openpalm.Base.{
  ℕ, ◌-◌, ◌++◌, Bool, true, false, ◌&&◌, not, List, [], ◌∷◌, Option, none, some, Text, text_eq,
  codes, Map, get, set, delete, retain, evict_oldest, trim, is_empty, leb, ltb, if◌then◌else◌,
  length, or_else, ◌==◌,
}
use openpalm.Sdk.Value.{Value, string, property, as_record, is_true}

abbrev pub session_key_max_length : ℕ
session_key_max_length = 256

abbrev pub session_list_cache_ttl_ms : ℕ
session_list_cache_ttl_ms = 60_000

abbrev pub session_cache_max : ℕ
session_cache_max = 10_000

pub record SessionTarget : Type 0 where
  pub cache_key : Text
  pub session_key : Text
  pub title : Text

-- `typeof meta?.sessionKey === "string" ? meta.sessionKey.trim() : ""`
unfoldable pub metadata_session_key : Value → Text
metadata_session_key metadata = elim (as_record metadata) [
  | none ↦ []
  | some fields ↦ elim (property (codes "sessionKey") fields) [ string s ↦ trim s | _ ↦ [] ]
]

unfoldable pub resolve_session_target : Text → Text → Value → SessionTarget
resolve_session_target user_id channel metadata =
    let given = metadata_session_key metadata in
    let session_key : Text =
      if not (is_empty given) && leb (length given) session_key_max_length
      then given
      else user_id in
    record {
      cache_key = channel ++ (codes ":" ++ session_key);
      session_key = session_key;
      title = channel ++ (codes "/" ++ session_key);
    }

unfoldable pub should_clear_session : Value → Bool
should_clear_session metadata = elim (as_record metadata) [
  | none ↦ false
  | some fields ↦ is_true (property (codes "clearSession") fields)
]

pub record CachedSession : Type 0 where
  pub session_id : Text
  pub last_used : ℕ

pub record Session : Type 0 where
  pub id : Text
  pub title : Text

-- What the guardian asks of the assistant; `none` is a call that throws. A failure to delete is
-- ignored.
pub record Assistant : Type 1 where
  pub World : Type 0
  pub clock : World → ℕ
  pub send_message : Text → Text → World → Option Text × World
  pub create_session : Text → World → Option Text × World
  pub list_sessions : World → Option (List Session) × World
  pub delete_session : Text → World → World

pub record ForwardState (W : Type 0) : Type 0 where
  pub session_cache : Map Text CachedSession
  pub title_cache : Map Text Text
  pub list_loaded : ℕ
  pub world : W

pub data Outcome : Type 0 where
  answered : Text → Text → Outcome
  thrown : Outcome

-- The pruning timer.
unfoldable pub prune_sessions : {W : Type 0} → ℕ → ℕ → ForwardState W → ForwardState W
prune_sessions ttl now s = record s {
  session_cache =
      evict_oldest (λ c. c.last_used) session_cache_max
        (retain (λ c. not (ltb ttl (now - c.last_used))) s.session_cache);
}

unfoldable pub forget : {W : Type 0} → SessionTarget → ForwardState W → ForwardState W
forget target s = record s {
  session_cache = delete target.cache_key s.session_cache;
  title_cache = delete target.title s.title_cache;
  list_loaded = 0;
}

unfoldable pub fill_titles : List Session → Map Text Text → Map Text Text
fill_titles [] titles = titles
fill_titles (session ∷ sessions) titles =
    fill_titles sessions
      (if is_empty session.title then titles else set session.title session.id titles)

module _ (a : Assistant) (ttl : ℕ) where
  open a use {World, clock, send_message, create_session, list_sessions, delete_session}

  -- The source writes the time into a cached entry in place; no other name refers to that entry.
  unfoldable pub remember : SessionTarget → Text → ForwardState World → ForwardState World
  remember target id s = record s {
    session_cache =
        set target.cache_key (record { session_id = id; last_used = clock s.world })
          s.session_cache;
    title_cache = set target.title id s.title_cache;
  }

  -- `cached && Date.now() - cached.lastUsed < SESSION_TTL_MS`
  unfoldable pub live_session : SessionTarget → ForwardState World → Option Text
  live_session target s = elim (get target.cache_key s.session_cache) [
    | none ↦ none
    | some c ↦ if ltb (clock s.world - c.last_used) ttl then some c.session_id else none
  ]

  -- The list of sessions anew; `none` if it throws.
  unfoldable pub reload_titles : ForwardState World → Bool × ForwardState World
  reload_titles s =
      let (sessions, w) = list_sessions s.world in
      elim sessions [
        | none ↦ (false, record s { world = w })
        | some found ↦ (
          true,
          record s { title_cache = fill_titles found []; list_loaded = clock s.world; world = w },
        )
      ]

  unfoldable pub find_existing_session_id :
      SessionTarget → ForwardState World → Option (Option Text) × ForwardState World
  find_existing_session_id target s =
      let cached = or_else (get target.title s.title_cache) [] in
      if not (is_empty cached) && ltb (clock s.world - s.list_loaded) session_list_cache_ttl_ms
      then (some (some cached), s)
      else let (loaded, s') = reload_titles s in
        (if loaded then some (get target.title s'.title_cache) else none, s')

  -- A message to a session that may be gone: the caches follow the result.
  unfoldable pub try_session :
      SessionTarget → Text → Text → ForwardState World → Option Text × ForwardState World
  try_session target id message s =
      let (answer, w) = send_message id message s.world in
      elim answer [
        | none ↦ (none, forget target (record s { world = w }))
        | some text ↦ (some text, remember target id (record s { world = w }))
      ]

  unfoldable pub send_first :
      SessionTarget → Text → Text → ForwardState World → Outcome × ForwardState World
  send_first target id message s =
      let (answer, w) = send_message id message s.world in
      elim answer [
        | none ↦ (thrown, record s { world = w })
        | some text ↦ (answered text id, remember target id (record s { world = w }))
      ]

  unfoldable pub start_session :
      SessionTarget → Text → ForwardState World → Outcome × ForwardState World
  start_session target message s =
      let (created, w) = create_session target.title s.world in
      elim created [
        | none ↦ (thrown, record s { world = w })
        | some id ↦ send_first target id message (record s { world = w })
      ]

  -- Behind a try: its answer, or the next way to one.
  unfoldable pub or_then :
      Text
      → (ForwardState World → Outcome × ForwardState World)
      → Option Text × ForwardState World
      → Outcome × ForwardState World
  or_then id next (some text, s) = (answered text id, s)
  or_then id next (none, s) = next s

  -- Behind the search for an existing session.
  unfoldable pub use_existing :
      SessionTarget
      → Text
      → Option (Option Text) × ForwardState World
      → Outcome × ForwardState World
  use_existing target message (none, s) = (thrown, s)
  use_existing target message (some none, s) = start_session target message s
  use_existing target message (some (some id), s) =
      if is_empty id
      then start_session target message s
      else or_then id (start_session target message) (try_session target id message s)

  unfoldable pub reattach : SessionTarget → Text → ForwardState World → Outcome × ForwardState World
  reattach target message s = use_existing target message (find_existing_session_id target s)

  unfoldable pub ask_assistant :
      Text → SessionTarget → ForwardState World → Outcome × ForwardState World
  ask_assistant message target s = elim (live_session target s) [
    | none ↦ reattach target message s
    | some id ↦ or_then id (reattach target message) (try_session target id message s)
  ]

  unfoldable pub delete_sessions : SessionTarget → List Session → World → World
  delete_sessions target [] w = w
  delete_sessions target (session ∷ sessions) w =
      delete_sessions target sessions
        (if session.title == target.title then delete_session session.id w else w)

  -- `false` is the call that throws.
  unfoldable pub clear_assistant_sessions :
      SessionTarget → ForwardState World → Bool × ForwardState World
  clear_assistant_sessions target s =
      let s' = forget target s in
      let (sessions, w) = list_sessions s'.world in
      elim sessions [
        | none ↦ (false, record s' { world = w })
        | some found ↦ (true, record s' { world = delete_sessions target found w })
      ]
