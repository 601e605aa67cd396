-- ===== src/Channels/Conversation/Tests.antt =====
-- Conversations at concrete histories.
use openpalm.Base.{
  ◌≤◌, ◌≡◌, ◌↔◌, ◌++◌, refl, true, [], ◌∷◌, List, Text, text_eq, codes, get, set, delete, length,
}
use openpalm.Channels.Conversation.{
  Event, submitted, settled, cleared, idle, run, step, run_or_queue, launch, settle, drain, clear,
  finished, is_processing,
}
use openpalm.Channels.Conversation.Exclusion.{running_count, one_at_a_time}
use openpalm.Channels.Conversation.Steps.{tasks_of, waiting, submissions}
use openpalm.Channels.Conversation.Order.{first_come_first_served}
use openpalm.Channels.Conversation.Progress.{settlements, queue_works_off}

abbrev dm : Text
dm = codes "slack:dm:u1"

abbrev other : Text
other = codes "slack:dm:u2"

abbrev chatter : List Event
chatter =
    submitted dm 1
    ∷ submitted dm 2
    ∷ submitted other 3
    ∷ submitted dm 4
    ∷ cleared other
    ∷ settled dm
    ∷ []

two_left : (run chatter idle).running ≡ (dm, 2) ∷ (other, 3) ∷ []
unfolding run step run_or_queue launch settle drain clear finished get set delete
two_left = refl

one_at_a_time_example :
    (running_count dm (run chatter idle) ≤ 1)
    × ((is_processing dm (run chatter idle) ≡ true) ↔ (running_count dm (run chatter idle) ≡ 1))
one_at_a_time_example = one_at_a_time chatter dm

first_come_first_served_example :
    tasks_of dm (run chatter idle).started ++ waiting dm (run chatter idle) ≡ submissions dm chatter
first_come_first_served_example =
    first_come_first_served dm chatter (tt, (tt, (tt, (tt, (refl, (tt, tt))))))

abbrev quiet : List Event
quiet = submitted dm 1 ∷ settled dm ∷ []

queue_works_off_example :
    tasks_of dm
      (run (settlements dm (length (waiting dm (run chatter idle)))) (run chatter idle)).started
    ≡ tasks_of dm (run chatter idle).started ++ waiting dm (run chatter idle)
queue_works_off_example = queue_works_off dm chatter
