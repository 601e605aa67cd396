-- ===== src/Channels/Conversation/Steps.antt =====
-- What each event does to the tasks started and waiting of one conversation.
use mathlib.Core.List.{append-nil, append_assoc}
use openpalm.Base.{
  ℕ, ◌≡◌, ◌∙◌, sym, ap, refl, true, false, [], ◌∷◌, ◌++◌, List, Option, none, some, Text, text_eq,
  text_beq_iff, get, get-set, get-delete, set, delete, ◌==◌, if◌then◌else◌, arith, Option-cases,
  Bool-cases, inl, inr, subst, same_refl, ◌⊎◌,
}
use openpalm.Channels.Conversation.{
  SessionState, Conversations, clear, launch, run_or_queue, settle, finished, runs, Event,
  submitted, settled, cleared, step,
}
use openpalm.Channels.Conversation.Exclusion.{AllExclusive, runs-count, settle_next, settle_last}

unfoldable pub tasks_of : Text → List (Text × ℕ) → List ℕ
tasks_of k [] = []
tasks_of k ((j, t) ∷ ts) = if j == k then t ∷ tasks_of k ts else tasks_of k ts

-- The queue of a key: empty where it has no entry.
abbrev pub queue_of : Option SessionState → List ℕ
queue_of none = []
queue_of (some s) = s.queue

abbrev pub waiting : Text → Conversations → List ℕ
waiting k c = queue_of (get k c.states)

unfoldable pub submissions : Text → List Event → List ℕ
submissions k [] = []
submissions k (submitted key t ∷ evs) =
    if key == k then t ∷ submissions k evs else submissions k evs
submissions k (settled key ∷ evs) = submissions k evs
submissions k (cleared key ∷ evs) = submissions k evs

-- No event drops the queue of this key.
abbrev pub KeepsQueue : Text → Event → Type 0
KeepsQueue k (submitted key t) = Unit
KeepsQueue k (settled key) = Unit
KeepsQueue k (cleared key) = (key == k) ≡ false

-- What has been started, then what waits.
abbrev pub order : Text → Conversations → List ℕ
order k c = tasks_of k c.started ++ waiting k c

tasks_of-append :
    (k : Text) (ts us : List (Text × ℕ)) → tasks_of k (ts ++ us) ≡ tasks_of k ts ++ tasks_of k us
unfolding tasks_of
tasks_of-append k [] us = refl
tasks_of-append k ((j, t) ∷ ts) us = ground (arith, tasks_of-append k ts us)

pub order-launch :
    (k : Text) (t : ℕ) (q : List ℕ) (c : Conversations)
    → order k (launch k t q c) ≡ tasks_of k c.started ++ t ∷ q
unfolding launch tasks_of
order-launch k t q c =
    rw
      (
        get-set k k (record { processing = true; queue = q }) c.states,
        tasks_of-append k c.started ((k, t) ∷ []),
        same_refl k,
      )
      (append_assoc (tasks_of k c.started) (t ∷ []) q)

order-launch_other :
    (key k : Text) (t : ℕ) (q : List ℕ) (c : Conversations)
    → (key == k) ≡ false
    → order k (launch key t q c) ≡ order k c
unfolding launch tasks_of
order-launch_other key k t q c h = rw (
  get-set key k (record { processing = true; queue = q }) c.states,
  tasks_of-append k c.started ((key, t) ∷ []),
  h,
  append-nil (tasks_of k c.started),
)

-- A submission while a task runs.
pub busy_queues :
    (key : Text) (t : ℕ) (c : Conversations) (s : SessionState)
    → get key c.states ≡ some s
    → s.processing ≡ true
    → run_or_queue key t c ≡ record c {
      states = set key (record { processing = s.processing; queue = s.queue ++ t ∷ [] }) c.states;
    }
unfolding run_or_queue
busy_queues key t c s e p = ground (arith, e, p)

entry_is_busy :
    (key : Text) (c : Conversations) (s : SessionState)
    → AllExclusive c
    → get key c.states ≡ some s
    → s.processing ≡ true
entry_is_busy key c s h e = ground (arith, h key, e)

order-set :
    (k : Text) (s : SessionState) (c : Conversations)
    → order k (record c { states = set k s c.states }) ≡ tasks_of k c.started ++ s.queue
order-set k s c = rw (get-set k k s c.states, same_refl k)

order-set_other :
    (key k : Text) (s : SessionState) (c : Conversations)
    → (key == k) ≡ false
    → order k (record c { states = set key s c.states }) ≡ order k c
order-set_other key k s c h = rw (get-set key k s c.states, h)

order-delete_other :
    (key k : Text) (c : Conversations)
    → (key == k) ≡ false
    → order k (record c { states = delete key c.states }) ≡ order k c
order-delete_other key k c h = rw (get-delete key k c.states, h)

order-submit :
    (k : Text) (t : ℕ) (c : Conversations)
    → AllExclusive c
    → order k (run_or_queue k t c) ≡ order k c ++ t ∷ []
unfolding run_or_queue
order-submit k t c h = elim (Option-cases (get k c.states)) [
  | inl e ↦ rw (e, run_or_queue) (order-launch k t [] c ∙ rw (append-nil (tasks_of k c.started)))
  | inr (s, e) ↦ rw (busy_queues k t c s e (entry_is_busy k c s h e)) (
      order-set k (record { processing = s.processing; queue = s.queue ++ t ∷ [] }) c
      ∙ rw e (sym (append_assoc (tasks_of k c.started) s.queue (t ∷ []))))
]

order-submit_other :
    (key k : Text) (t : ℕ) (c : Conversations)
    → AllExclusive c
    → (key == k) ≡ false
    → order k (run_or_queue key t c) ≡ order k c
unfolding run_or_queue
order-submit_other key k t c h other = elim (Option-cases (get key c.states)) [
  | inl e ↦ rw (e, run_or_queue) (order-launch_other key k t [] c other)
  | inr (s, e) ↦
      rw (busy_queues key t c s e (entry_is_busy key c s h e)) (order-set_other key k _ c other)
]

order-settle :
    (k : Text) (c : Conversations) (s : SessionState) (q : List ℕ)
    → get k c.states ≡ some s
    → s.queue ≡ q
    → order k (settle k c) ≡ order k c
order-settle k c s [] e eq =
    rw (settle_last k c s e eq, get-delete k k c.states, same_refl k, e, eq)
order-settle k c s (n ∷ ns) e eq = rw (settle_next k c s n ns e eq, e, eq) (order-launch k n ns _)

order-settle_other :
    (key k : Text) (c : Conversations) (s : SessionState) (q : List ℕ)
    → (key == k) ≡ false
    → get key c.states ≡ some s
    → s.queue ≡ q
    → order k (settle key c) ≡ order k c
order-settle_other key k c s [] other e eq =
    rw (settle_last key c s e eq) (order-delete_other key k c other)
order-settle_other key k c s (n ∷ ns) other e eq =
    rw (settle_next key c s n ns e eq)
      (order-launch_other key k n ns _ other ∙ order-set_other key k _ c other)

-- A settlement that finds a task of the key running.
pub settled_step :
    (key : Text) (c : Conversations)
    → AllExclusive c
    → (step (settled key) c ≡ c)
      ⊎ ((s : SessionState) × (get key c.states ≡ some s)
          × (step (settled key) c ≡ settle key (record c { running = finished key c.running })))
unfolding step
settled_step key c h = elim (Bool-cases (runs key c.running)) [
  | inr e ↦ inl (rw e)
  | inl e ↦ elim (Option-cases (get key c.states)) [
    | inl gone ↦ absurd (ground (arith, h key, gone, runs-count key c.running))
    | inr (s, there) ↦ inr (s, there, rw e)
  ]
]

order-clear_other :
    (key k : Text) (c : Conversations) → (key == k) ≡ false → order k (clear key c).0 ≡ order k c
unfolding clear
order-clear_other key k c other = elim (Option-cases (get key c.states)) [
  | inl e ↦ rw (e, clear)
  | inr (s, e) ↦
      rw (e, clear)
        (elim (Bool-cases s.processing) [
          | inl busy ↦
              rw busy (order-set_other key k (record { processing = true; queue = [] }) c other)
          | inr free ↦ rw free (order-delete_other key k c other)
        ])
]

pub order-step :
    (k : Text) (ev : Event) (c : Conversations)
    → AllExclusive c
    → KeepsQueue k ev
    → order k (step ev c) ≡ order k c ++ submissions k (ev ∷ [])
unfolding step submissions
order-step k (submitted key t) c h keeps = elim (Bool-cases (key == k)) [
  | inl same ↦ rw same (
      subst (λ j. order k (run_or_queue j t c) ≡ order k c ++ t ∷ [])
        (sym ((text_beq_iff key k).0 same)) (order-submit k t c h))
  | inr other ↦ rw (other, append-nil (order k c)) (order-submit_other key k t c h other)
]
order-step k (settled key) c h keeps = rw (append-nil (order k c)) (elim (settled_step key c h) [
  | inl same ↦ ap (order k) same
  | inr (s, there, e) ↦ ap (order k) e ∙ elim (Bool-cases (key == k)) [
    | inl same ↦
        let p = (text_beq_iff key k).0 same in
        subst (λ j. order k (settle j (record c { running = finished key c.running })) ≡ order k c)
          (sym p)
          (order-settle k (record c { running = finished key c.running }) s s.queue
            (subst (λ j. get j c.states ≡ some s) p there) refl)
    | inr other ↦
        order-settle_other key k (record c { running = finished key c.running }) s s.queue other
          there refl
  ]
])
order-step k (cleared key) c h keeps = rw (append-nil (order k c)) (order-clear_other key k c keeps)
