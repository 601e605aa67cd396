-- ===== src/Channels/Conversation/Exclusion.antt =====
-- One task of a conversation at a time.
use openpalm.Base.{
  ℕ, ◌-◌, ◌≤◌, ◌≡◌, refl, Bool, true, false, [], ◌∷◌, ◌++◌, List, Option, none, some, Text, text_eq,
  text_beq_iff, get, get-set, get-delete, set, delete, ◌==◌, if◌then◌else◌, arith, count_by,
  Option-cases, Bool-cases, ◌≢◌, ◌↔◌, inl, inr,
}
use openpalm.Channels.Conversation.{
  SessionState, Conversations, idle, clear, launch, run_or_queue, drain, settle, finished, runs,
  Event, submitted, settled, cleared, step, run, is_processing,
}

abbrev of_key : Text → Text × ℕ → Bool
of_key k t = t.0 == k

abbrev pub running_count : Text → Conversations → ℕ
running_count k c = count_by (of_key k) c.running

-- The entry of a key stands in the map exactly while one task of the key runs.
abbrev Agrees : Option SessionState → ℕ → Type 0
Agrees none n = n ≡ 0
Agrees (some s) n = (s.processing ≡ true) × (n ≡ 1)

abbrev pub IsExclusive : Text → Conversations → Type 0
IsExclusive k c = Agrees (get k c.states) (running_count k c)

count-finished :
    (key k : Text) (ts : List (Text × ℕ))
    → count_by (of_key k) (finished key ts)
      ≡ (if key == k then count_by (of_key k) ts - 1 else count_by (of_key k) ts)
unfolding finished
count-finished key k [] = ground arith
count-finished key k ((j, t) ∷ ts) =
    ground
      (arith, text_beq_iff key k, text_beq_iff j key, text_beq_iff j k, count-finished key k ts)

launch-IsExclusive :
    (key k : Text) (t : ℕ) (q : List ℕ) (c : Conversations)
    → (key ≡ k → running_count k c ≡ 0)
    → ((key == k) ≡ false → IsExclusive k c)
    → IsExclusive k (launch key t q c)
unfolding launch
launch-IsExclusive key k t q c h i =
    ground
      (arith, text_beq_iff key k, get-set key k (record { processing = true; queue = q }) c.states)

-- The invariant for every key.
abbrev pub AllExclusive : Conversations → Type 0
AllExclusive c = (k : Text) → IsExclusive k c

run_or_queue-AllExclusive :
    (key : Text) (t : ℕ) (c : Conversations) → AllExclusive c → AllExclusive (run_or_queue key t c)
unfolding run_or_queue
run_or_queue-AllExclusive key t c h k = elim (Option-cases (get key c.states)) [
  | inl e ↦
      rw (e, run_or_queue)
        (launch-IsExclusive key k t [] c (λ same. ground (arith, h key, e)) (λ other. h k))
  | inr (s, e) ↦
      rw (e, run_or_queue)
        (ground (
          arith,
          e,
          h k,
          h key,
          text_beq_iff key k,
          get-set key k (record { processing = s.processing; queue = s.queue ++ t ∷ [] }) c.states,
        ))
]

clear-AllExclusive :
    (key : Text) (c : Conversations) → AllExclusive c → AllExclusive (clear key c).0
unfolding clear
clear-AllExclusive key c h k = elim (Option-cases (get key c.states)) [
  | inl e ↦ rw (e, clear) (h k)
  | inr (s, e) ↦
      rw (e, clear)
        (ground (
          arith,
          e,
          h k,
          h key,
          text_beq_iff key k,
          get-set key k (record { processing = s.processing; queue = [] }) c.states,
        ))
]

-- A task that settles hands over to the next one in the queue, or closes the conversation.
pub settle_next :
    (key : Text) (c : Conversations) (s : SessionState) (n : ℕ) (ns : List ℕ)
    → get key c.states ≡ some s
    → s.queue ≡ n ∷ ns
    → settle key c
      ≡ launch key n ns
          (record c { states = set key (record { processing = false; queue = n ∷ ns }) c.states })
unfolding settle drain
settle_next key c s n ns e eq = ground (
  arith,
  e,
  eq,
  text_beq_iff key key,
  get-set key key (record { processing = false; queue = n ∷ ns }) c.states,
)

pub settle_last :
    (key : Text) (c : Conversations) (s : SessionState)
    → get key c.states ≡ some s
    → s.queue ≡ []
    → settle key c ≡ record c { states = delete key c.states }
unfolding settle
settle_last key c s e eq = ground (arith, e, eq)

-- Settling the one task of a key.
settle-AllExclusive :
    (key : Text) (c : Conversations) (s : SessionState) (q : List ℕ)
    → AllExclusive c
    → get key c.states ≡ some s
    → s.queue ≡ q
    → AllExclusive (settle key (record c { running = finished key c.running }))
settle-AllExclusive key c s [] h e eq k =
    rw (settle_last key (record c { running = finished key c.running }) s e eq) (
      ground (
        arith,
        e,
        h k,
        h key,
        text_beq_iff key k,
        count-finished key k c.running,
        get-delete key k c.states,
      ))
settle-AllExclusive key c s (n ∷ ns) h e eq k =
    rw (settle_next key (record c { running = finished key c.running }) s n ns e eq) (
      launch-IsExclusive key k n ns _
        (λ same. ground (arith, e, h key, text_beq_iff key k, count-finished key k c.running))
        (λ other. ground (
          arith,
          h k,
          count-finished key k c.running,
          get-set key k (record { processing = false; queue = n ∷ ns }) c.states,
        )))

pub runs-count :
    (key : Text) (ts : List (Text × ℕ)) → runs key ts ≡ true → count_by (of_key key) ts ≢ 0
runs-count key [] h = cc
runs-count key ((k, t) ∷ ts) h = ground (arith, runs-count key ts)

pub step-AllExclusive : (ev : Event) (c : Conversations) → AllExclusive c → AllExclusive (step ev c)
unfolding step
step-AllExclusive (submitted key t) c h = run_or_queue-AllExclusive key t c h
step-AllExclusive (cleared key) c h = clear-AllExclusive key c h
step-AllExclusive (settled key) c h = elim (Bool-cases (runs key c.running)) [
  | inr e ↦ rw e h
  | inl e ↦ rw e (elim (Option-cases (get key c.states)) [
    | inl none_there ↦ absurd (ground (arith, h key, none_there, runs-count key c.running))
    | inr (s, there) ↦ settle-AllExclusive key c s s.queue h there refl
  ])
]

pub run-AllExclusive :
    (evs : List Event) (c : Conversations) → AllExclusive c → AllExclusive (run evs c)
unfolding run
run-AllExclusive [] c h = h
run-AllExclusive (ev ∷ evs) c h = run-AllExclusive evs (step ev c) (step-AllExclusive ev c h)

pub idle-AllExclusive : AllExclusive idle
unfolding get
idle-AllExclusive k = refl

-- Whatever is submitted, settled and cleared, in any order, at most one task of a conversation
-- runs at a time, and the conversation is processing exactly while one does.
pub one_at_a_time :
    (evs : List Event) (key : Text)
    → (running_count key (run evs idle) ≤ 1)
      × ((is_processing key (run evs idle) ≡ true) ↔ (running_count key (run evs idle) ≡ 1))
unfolding is_processing
one_at_a_time evs key = ground (arith, run-AllExclusive evs idle idle-AllExclusive key)
