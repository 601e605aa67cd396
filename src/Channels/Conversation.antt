-- ===== src/Channels/Conversation.antt =====
-- packages/channel-slack/src/session.ts `ConversationQueue` (channel-discord/src/session.ts has the
-- same class). Each asynchronous method is cut at its `await`: a task that is started runs until an
-- event settles it, in success or in failure. `running` and `started` record what the
-- environment sees; no method reads them. Tasks are numbers.
pub mod Exclusion
pub mod Steps
pub mod Order
pub mod Progress
pub mod Tests
use openpalm.Base.{
  ℕ, Bool, true, false, [], ◌∷◌, ◌++◌, List, Option, none, some, Text, text_eq, Map, get, set,
  delete, ◌==◌, if◌then◌else◌, length, or_else, is_some,
}

pub record SessionState : Type 0 where
  pub processing : Bool
  pub queue : List ℕ

pub record Conversations : Type 0 where
  pub states : Map Text SessionState
  -- The tasks that have been started and have not settled.
  pub running : List (Text × ℕ)
  -- All tasks started, in order.
  pub started : List (Text × ℕ)

abbrev pub idle : Conversations
idle = record { states = []; running = []; started = [] }

unfoldable pub is_processing : Text → Conversations → Bool
is_processing key c = elim (get key c.states) [ none ↦ false | some s ↦ s.processing ]

unfoldable pub queued_count : Text → Conversations → ℕ
queued_count key c = elim (get key c.states) [ none ↦ 0 | some s ↦ length s.queue ]

unfoldable pub clear : Text → Conversations → Conversations × ℕ
clear key c = elim (get key c.states) [
  | none ↦ (c, 0)
  | some s ↦
      if s.processing
      then (record c { states = set key (record s { queue = [] }) c.states }, length s.queue)
      else (record c { states = delete key c.states }, length s.queue)
]

-- `state.processing = true` and the call of `run`.
unfoldable pub launch : Text → ℕ → List ℕ → Conversations → Conversations
launch key task queue c = record c {
  states = set key (record { processing = true; queue = queue }) c.states;
  running = (key, task) ∷ c.running;
  started = c.started ++ (key, task) ∷ [];
}

unfoldable pub run_or_queue : Text → ℕ → Conversations → Conversations
run_or_queue key task c =
    let s = or_else (get key c.states) (record { processing = false; queue = [] }) in
    if s.processing
    then record c { states = set key (record s { queue = s.queue ++ task ∷ [] }) c.states }
    else launch key task s.queue c

unfoldable pub drain : Text → Conversations → Conversations
drain key c = elim (get key c.states) [
  | none ↦ c
  | some s ↦ if s.processing then c else elim s.queue [
    | [] ↦ record c { states = delete key c.states }
    | next ∷ rest ↦ launch key next rest c
  ]
]

-- The `finally` of `runOrQueue` and of `drain`.
unfoldable pub settle : Text → Conversations → Conversations
unfolding drain
settle key c = elim (get key c.states) [
  | none ↦ c
  | some s ↦ elim s.queue [
    | [] ↦ record c { states = delete key c.states }
    | next ∷ rest ↦ drain key (record c {
      states = set key (record { processing = false; queue = next ∷ rest }) c.states;
    })
  ]
]

-- Takes the latest task of the key out of those that run.
unfoldable pub finished : Text → List (Text × ℕ) → List (Text × ℕ)
finished key [] = []
finished key ((k, t) ∷ ts) = if k == key then ts else (k, t) ∷ finished key ts

abbrev pub runs : Text → List (Text × ℕ) → Bool
runs key [] = false
runs key ((k, t) ∷ ts) = if k == key then true else runs key ts

pub data Event : Type 0 where
  submitted : Text → ℕ → Event
  settled : Text → Event
  cleared : Text → Event

-- A task can only settle if one of the key runs.
unfoldable pub step : Event → Conversations → Conversations
step (submitted key task) c = run_or_queue key task c
step (settled key) c =
    if runs key c.running then settle key (record c { running = finished key c.running }) else c
step (cleared key) c = (clear key c).0

unfoldable pub run : List Event → Conversations → Conversations
run [] c = c
run (ev ∷ evs) c = run evs (step ev c)
