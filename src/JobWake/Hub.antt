-- ===== src/JobWake/Hub.antt =====
-- extensions/_shared/job-wake.ts: the hub of a session that wakes it for finished jobs.
use pi_shared.Common.{
  is_truthy, Bool, List, Option, String, [], drop, false, find, if◌then◌else◌, keep_if, leb, length,
  ltb, none, not, opt_str_eq, some, str_eq, true, ℕ, ◌++◌, ◌&&◌, ◌||◌, ◌∷◌,
}

pub data JobKind : Type 0 where
  command_job : JobKind
  subagent_job : JobKind

pub record JobWakeEvent : Type 0 where
  pub id : String
  pub kind : JobKind
  pub status : String
  pub summary : String
  pub inspect : String
  pub at_time : ℕ

-- A hub; `timer` says whether one is set.
pub record Hub : Type 0 where
  pub pending : List JobWakeEvent
  pub timer : Bool
  pub handoff : Option String
  pub error_held : Bool

-- How a message is delivered: `triggerTurn` as a follow-up, or with the user's next prompt.
pub data Mode : Type 0 where
  trigger_turn : Mode
  next_turn : Mode

pub record Delivery : Type 0 where
  pub events : List JobWakeEvent
  pub mode : Mode

pub record Observed : Type 0 where
  pub id : String
  pub seen_at : ℕ

-- What the wakers of one session share: its hub, the jobs that the model has observed, in the order
-- of the map, and the messages that were sent, the last one first.
pub record Wakes : Type 0 where
  pub hub : Option Hub
  pub observed : List Observed
  pub sent : List Delivery

abbrev pub max_observed : ℕ
max_observed = 1000

abbrev pub drop_oldest : List Observed → List Observed
drop_oldest observed = if ltb max_observed (length observed) then drop 1 observed else observed

unfoldable pub mark_job_observed : String → ℕ → Wakes → Wakes
mark_job_observed id now w = record w {
  observed = drop_oldest (
      keep_if (λ (o : Observed). not (str_eq o.id id)) w.observed
      ++ (record { id = id; seen_at = now } ∷ []));
}

abbrev pub seen_since : JobWakeEvent → Option Observed → Bool
seen_since e none = false
seen_since e (some o) = leb e.at_time o.seen_at

unfoldable pub was_observed : List Observed → JobWakeEvent → Bool
was_observed observed e = seen_since e (find (λ o. str_eq o.id e.id) observed)

-- `h.pending.set(event.id, event)`: an id that is there keeps its place.
unfoldable pub set_pending : JobWakeEvent → List JobWakeEvent → List JobWakeEvent
set_pending e [] = e ∷ []
set_pending e (f ∷ fs) = if str_eq f.id e.id then e ∷ fs else f ∷ set_pending e fs

abbrev pub is_empty : List JobWakeEvent → Bool
is_empty [] = true
is_empty (e ∷ es) = false

abbrev pub not_observed : List Observed → JobWakeEvent → Bool
not_observed observed e = not (was_observed observed e)

-- `send`, of the events that `take` gives.
unfoldable pub send_events : List JobWakeEvent → Mode → List Delivery → List Delivery
send_events [] mode sent = sent
send_events (e ∷ es) mode sent = record { events = e ∷ es; mode = mode } ∷ sent

unfoldable pub take_and_send : Mode → Hub → Wakes → Wakes
take_and_send mode h w = record w {
  hub = some (record h { pending = [] });
  sent = send_events (keep_if (not_observed w.observed) h.pending) mode w.sent;
}

abbrev pub is_held : Hub → Bool
is_held h = is_truthy h.handoff || h.error_held || is_empty h.pending

unfoldable pub schedule : Hub → Hub
schedule h = if h.timer || is_held h then h else record h { timer = true }

abbrev pub with_hub : Hub → Wakes → Wakes
with_hub h w = record w { hub = some h }

abbrev pub notify_hub : JobWakeEvent → Wakes → Option Hub → Wakes
notify_hub e w none = w
notify_hub e w (some h) = with_hub (schedule (record h { pending = set_pending e h.pending })) w

-- The hub that a waker sees: none where it is not enabled, or has been stopped.
abbrev pub visible : Bool → Wakes → Option Hub
visible live w = if live then w.hub else none

unfoldable pub notify : Bool → JobWakeEvent → Wakes → Wakes
notify live e w = notify_hub e w (visible live w)

abbrev pub flush_hub : Bool → Wakes → Option Hub → Wakes
flush_hub idle w none = w
flush_hub idle w (some h) =
    let g : Hub = record h { timer = false } in
    if is_held h
    then with_hub g w
    else (if idle then take_and_send trigger_turn g w else with_hub (schedule g) w)

-- `flushIdle`, when the timer fires.
unfoldable pub flush_idle : Bool → Bool → Wakes → Wakes
flush_idle live idle w = flush_hub idle w (visible live w)

-- How the last assistant message of a run stopped.
pub data LastStop : Type 0 where
  stopped_by_error : LastStop
  stopped_by_user : LastStop
  stopped_otherwise : LastStop

abbrev pub end_hub : LastStop → Wakes → Option Hub → Wakes
end_hub last w none = w
end_hub stopped_by_error w (some h) = with_hub (record h { error_held = true }) w
end_hub stopped_by_user w (some h) =
    let g : Hub = record h { error_held = false; timer = false } in
    if is_empty h.pending
    then with_hub (record h { error_held = false }) w
    else take_and_send next_turn g w
end_hub stopped_otherwise w (some h) =
    let g : Hub = record h { error_held = false; timer = false } in
    if is_empty h.pending
    then with_hub (record h { error_held = false }) w
    else (if is_truthy h.handoff then with_hub g w else take_and_send trigger_turn g w)

-- The handler of agent_end.
unfoldable pub agent_end : Bool → LastStop → Wakes → Wakes
agent_end live last w = end_hub last w (visible live w)

abbrev pub settle_hub : Wakes → Option Hub → Wakes
settle_hub w none = w
settle_hub w (some h) =
    if h.error_held
    then take_and_send next_turn (record h { error_held = false }) w
    else with_hub (schedule h) w

-- The handler of agent_settled.
unfoldable pub agent_settled : Bool → Wakes → Wakes
agent_settled live w = settle_hub w (visible live w)

abbrev pub begin_hub : String → Wakes → Option Hub → Wakes
begin_hub attempt w none = w
begin_hub attempt w (some h) = with_hub (record h { handoff = some attempt; timer = false }) w

-- The listener of SELF_HANDOFF_BEGIN_EVENT, for an event of this session.
unfoldable pub handoff_begins : Bool → String → Wakes → Wakes
handoff_begins live attempt w = begin_hub attempt w (visible live w)

abbrev pub rollback_hub : String → Wakes → Option Hub → Wakes
rollback_hub attempt w none = w
rollback_hub attempt w (some h) =
    if is_truthy h.handoff && opt_str_eq h.handoff (some attempt)
    then with_hub (schedule (record h { handoff = none })) w
    else w

-- The listener of SELF_HANDOFF_ROLLBACK_EVENT.
unfoldable pub handoff_rolls_back : Bool → String → Wakes → Wakes
handoff_rolls_back live attempt w = rollback_hub attempt w (visible live w)

-- `stop`, by a waker that was not stopped before.
unfoldable pub stop_waker : Wakes → Wakes
stop_waker w = record w { hub = none }

abbrev pub start_hub : Option Hub → Option Hub
start_hub none = some (record { pending = []; timer = false; handoff = none; error_held = false })
start_hub (some h) = some h

-- The handler of session_start, with `enabled` as it computes it.
unfoldable pub session_start : Bool → Wakes → Wakes
session_start enabled w = if enabled then record w { hub = start_hub w.hub } else w

-- What happens to the hub of a session.
pub data WakeStep : Type 0 where
  observes : String → ℕ → WakeStep
  notifies : Bool → JobWakeEvent → WakeStep
  timer_fires : Bool → Bool → WakeStep
  run_ends : Bool → LastStop → WakeStep
  run_settles : Bool → WakeStep
  begins : Bool → String → WakeStep
  rolls_back : Bool → String → WakeStep
  starts : Bool → WakeStep
  stops : WakeStep

unfoldable pub wake_step : WakeStep → Wakes → Wakes
wake_step (observes id now) w = mark_job_observed id now w
wake_step (notifies live e) w = notify live e w
wake_step (timer_fires live idle) w = flush_idle live idle w
wake_step (run_ends live last) w = agent_end live last w
wake_step (run_settles live) w = agent_settled live w
wake_step (begins live attempt) w = handoff_begins live attempt w
wake_step (rolls_back live attempt) w = handoff_rolls_back live attempt w
wake_step (starts enabled) w = session_start enabled w
wake_step stops w = stop_waker w

unfoldable pub wake_steps : List WakeStep → Wakes → Wakes
wake_steps [] w = w
wake_steps (x ∷ xs) w = wake_steps xs (wake_step x w)
