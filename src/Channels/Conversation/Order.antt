-- ===== src/Channels/Conversation/Order.antt =====
-- The tasks of a conversation start in the order of their submission, and none is lost.
use mathlib.Core.List.{append-nil, append_assoc}
use openpalm.Base.{
  ◌≡◌, ◌∙◌, sym, ap, refl, [], ◌∷◌, ◌++◌, List, Text, text_eq, get, arith, All, subst,
}
use openpalm.Channels.Conversation.{
  Conversations, idle, Event, submitted, settled, cleared, step, run,
}
use openpalm.Channels.Conversation.Exclusion.{
  AllExclusive, step-AllExclusive, run-AllExclusive, idle-AllExclusive, running_count,
}
use openpalm.Channels.Conversation.Steps.{
  tasks_of, waiting, submissions, KeepsQueue, order, order-step,
}

submissions_cons :
    (k : Text) (ev : Event) (evs : List Event)
    → submissions k (ev ∷ evs) ≡ submissions k (ev ∷ []) ++ submissions k evs
unfolding submissions
submissions_cons k (submitted key t) evs = ground arith
submissions_cons k (settled key) evs = refl
submissions_cons k (cleared key) evs = refl

pub order-run :
    (k : Text) (evs : List Event) (c : Conversations)
    → AllExclusive c
    → All (KeepsQueue k) evs
    → order k (run evs c) ≡ order k c ++ submissions k evs
unfolding run submissions
order-run k [] c h keeps = sym (append-nil (order k c))
order-run k (ev ∷ evs) c h keeps =
    order-run k evs (step ev c) (step-AllExclusive ev c h) keeps.1
    ∙ rw (order-step k ev c h keeps.0) (
        append_assoc (order k c) (submissions k (ev ∷ [])) (submissions k evs)
        ∙ ap (λ l. order k c ++ l) (sym (submissions_cons k ev evs)))

order-idle : (k : Text) → order k idle ≡ []
unfolding tasks_of get
order-idle k = refl

-- In any history that does not clear the conversation, its tasks are started in the order of their
-- submission: those started, then those in its queue, are those submitted.
pub first_come_first_served :
    (key : Text) (evs : List Event)
    → All (KeepsQueue key) evs
    → tasks_of key (run evs idle).started ++ waiting key (run evs idle) ≡ submissions key evs
first_come_first_served k evs keeps =
    order-run k evs idle idle-AllExclusive keeps ∙ ap (λ l. l ++ submissions k evs) (order-idle k)

-- In a history that does not clear the conversation, if nothing of it runs at the end, all that
-- was submitted to it has been started.
pub none_left_behind :
    (key : Text) (evs : List Event)
    → All (KeepsQueue key) evs
    → running_count key (run evs idle) ≡ 0
    → tasks_of key (run evs idle).started ≡ submissions key evs
none_left_behind k evs keeps none_runs =
    sym (append-nil (tasks_of k (run evs idle).started))
    ∙ subst (λ q. tasks_of k (run evs idle).started ++ q ≡ submissions k evs) empty
        (first_come_first_served k evs keeps)
  where
    empty : waiting k (run evs idle) ≡ []
    empty = ground (arith, run-AllExclusive evs idle idle-AllExclusive k)
