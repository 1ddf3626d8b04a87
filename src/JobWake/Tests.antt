-- ===== src/JobWake/Tests.antt =====
-- A hub with one finished job, and the theorems applied to it.
use pi_shared.Common.{
  List, [], false, none, refl, some, true, ◌+◌, ◌∷◌, ◌≡◌, ◌≤◌, keep_if, find, str_eq,
}
use pi_shared.JobWake.Hub.{
  command_job, JobWakeEvent, Observed, Hub, Wakes, WakeStep, observes, notifies, timer_fires,
  run_ends, stopped_otherwise, trigger_turn, wake_step, wake_steps, notify, schedule, set_pending,
  flush_idle, take_and_send, send_events, was_observed, mark_job_observed,
}
use pi_shared.JobWake.Counts.{notified, sent_count, waiting, wake_steps-once}
use pi_shared.JobWake.Turns.{turns_started, wake_steps-silent}
use pi_shared.JobWake.Fresh.{Sends, wake_step-Sends}

abbrev done : JobWakeEvent
done = record {
  id = "j1";
  kind = command_job;
  status = "exited";
  summary = "exit 0";
  inspect = "command_status";
  at_time = 50;
}

abbrev empty_hub : Hub
empty_hub = record { pending = []; timer = false; handoff = none; error_held = false }

abbrev wakes : Wakes
wakes = record { hub = some empty_hub; observed = []; sent = [] }

-- The job is notified and the timer fires twice: one message.
abbrev steps : List WakeStep
steps = notifies true done ∷ timer_fires true true ∷ timer_fires true true ∷ []

one_message_test :
    (wake_steps steps wakes).sent ≡ record { events = done ∷ []; mode = trigger_turn } ∷ []
unfolding wake_steps wake_step notify schedule set_pending flush_idle take_and_send send_events
    was_observed keep_if find
one_message_test = refl

-- A job that was observed after it ended is not sent.
observed_test :
    (wake_steps (notifies true done ∷ observes "j1" 60 ∷ timer_fires true true ∷ []) wakes).sent
    ≡ []
unfolding wake_steps wake_step notify schedule set_pending flush_idle take_and_send send_events
    was_observed keep_if find mark_job_observed
observed_test = refl

wake_steps-once_example :
    waiting (λ e. true) (wake_steps steps wakes).hub
      + sent_count (λ e. true) (wake_steps steps wakes).sent
    ≤ waiting (λ e. true) wakes.hub + sent_count (λ e. true) wakes.sent + notified (λ e. true) steps
wake_steps-once_example = wake_steps-once (λ e. true) steps wakes

abbrev held_hub : Hub
held_hub = record { pending = done ∷ []; timer = false; handoff = some "a1"; error_held = false }

abbrev held : Wakes
held = record { hub = some held_hub; observed = []; sent = [] }

wake_steps-silent_example :
    turns_started
      (wake_steps (timer_fires true true ∷ run_ends true stopped_otherwise ∷ []) held).sent
    ≡ turns_started []
wake_steps-silent_example =
    wake_steps-silent "a1" refl (timer_fires true true ∷ run_ends true stopped_otherwise ∷ []) held
      held_hub refl refl (refl, (refl, tt))

wake_step-Sends_example :
    Sends held (wake_step (run_ends true stopped_otherwise) held)
    × (find (λ (o : Observed). str_eq o.id "j1") (wake_step (observes "j1" 60) held).observed
        ≡ some (record { id = "j1"; seen_at = 60 }))
wake_step-Sends_example = wake_step-Sends (run_ends true stopped_otherwise) held "j1" 60
