-- ===== src/Channels/Conversation/Progress.antt =====
-- A conversation whose tasks keep settling works off its queue.
use mathlib.Core.List.{append-nil}
use openpalm.Base.{
  ℕ, zero, suc, length, ◌≢◌, count_by, ◌≡◌, ◌∙◌, sym, refl, true, false, [], ◌∷◌, ◌++◌, List, some,
  Text, text_eq, text_beq_iff, get, get-set, set, ◌==◌, arith, Option-cases, inl, inr, All, subst,
}
use openpalm.Channels.Conversation.{
  SessionState, Conversations, idle, launch, finished, runs, Event, settled, step, run,
}
use openpalm.Channels.Conversation.Exclusion.{
  AllExclusive, step-AllExclusive, run-AllExclusive, idle-AllExclusive, settle_next,
}
use openpalm.Channels.Conversation.Steps.{tasks_of, waiting, submissions, KeepsQueue, order}
use openpalm.Channels.Conversation.Order.{order-run}

abbrev pub settlements : Text → ℕ → List Event
settlements k zero = []
settlements k (suc n) = settled k ∷ settlements k n

count-runs :
    (key : Text) (ts : List (Text × ℕ)) → count_by (λ t. t.0 == key) ts ≢ 0 → runs key ts ≡ true
count-runs key [] h = absurd (h refl)
count-runs key ((k, t) ∷ ts) h = ground (arith, count-runs key ts)

waiting_entry :
    (k : Text) (c : Conversations) (n : ℕ) (ns : List ℕ)
    → waiting k c ≡ n ∷ ns
    → (s : SessionState) × (get k c.states ≡ some s) × (s.queue ≡ n ∷ ns)
waiting_entry k c n ns w = elim (Option-cases (get k c.states)) [
  | inl e ↦ absurd (ground (arith, e, w))
  | inr (s, e) ↦ (s, e, ground (arith, e, w))
]

-- A settlement takes the first task out of the queue.
settle_waiting :
    (k : Text) (c : Conversations) (n : ℕ) (ns : List ℕ)
    → AllExclusive c
    → waiting k c ≡ n ∷ ns
    → waiting k (step (settled k) c) ≡ ns
unfolding step launch
settle_waiting k c n ns h w =
    let (s, e, q) = waiting_entry k c n ns w in
    let busy : runs k c.running ≡ true = count-runs k c.running (ground (arith, h k, e)) in
    rw (busy, settle_next k (record c { running = finished k c.running }) s n ns e q)
      (ground (
        arith,
        text_beq_iff k k,
        get-set k k (record { processing = true; queue = ns })
            (set k (record { processing = false; queue = n ∷ ns }) c.states),
      ))

works_off :
    (k : Text) (q : List ℕ) (c : Conversations)
    → AllExclusive c
    → waiting k c ≡ q
    → waiting k (run (settlements k (length q)) c) ≡ []
unfolding run
works_off k [] c h w = w
works_off k (n ∷ ns) c h w =
    works_off k ns (step (settled k) c) (step-AllExclusive (settled k) c h)
      (settle_waiting k c n ns h w)

submissions-settlements : (k : Text) (n : ℕ) → submissions k (settlements k n) ≡ []
unfolding submissions
submissions-settlements k zero = refl
submissions-settlements k (suc n) = submissions-settlements k n

KeepsQueue-settlements : (k : Text) (n : ℕ) → All (KeepsQueue k) (settlements k n)
KeepsQueue-settlements k zero = tt
KeepsQueue-settlements k (suc n) = (tt, KeepsQueue-settlements k n)

-- After any history, when as many tasks of the conversation as wait then settle one after the other,
-- with no clear and no submission in between, all that waited are started, behind the ones that
-- were and in the order in which they waited.
pub queue_works_off :
    (key : Text) (evs : List Event)
    → let c = run evs idle in
      tasks_of key (run (settlements key (length (waiting key c))) c).started
      ≡ tasks_of key c.started ++ waiting key c
queue_works_off k evs =
    let c = run evs idle in
    let n = length (waiting k c) in
    let h = run-AllExclusive evs idle idle-AllExclusive in
    let later = order-run k (settlements k n) c h (KeepsQueue-settlements k n) in
    sym (append-nil _)
    ∙ subst (λ w. tasks_of k (run (settlements k n) c).started ++ w ≡ order k c)
        (works_off k (waiting k c) c h refl)
        (later ∙ rw (submissions-settlements k n) (append-nil (order k c)))
