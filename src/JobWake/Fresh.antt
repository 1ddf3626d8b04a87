-- ===== src/JobWake/Fresh.antt =====
-- What one step sends: updates that were pending and that the model has not observed, as far as the
-- map of observed jobs tells. The map forgets the oldest past 1000 jobs, so a job that was observed
-- longer ago may be sent.
use pi_shared.Common.{
  is_truthy, All, Bool, List, Option, String, [], arith, false, if◌then◌else◌, keep_if,
  keep_if-passes, none, refl, some, true, ◌≡◌, ◌∷◌, opt_str_eq, ◌&&◌, ◌≢◌, ◌++◌, ◌<◌, ℕ, find, ltb,
  length, not, Bool-cases, inl, inr, str_eq, str_eq_refl,
}
use pi_shared.JobWake.Hub.{
  JobWakeEvent, Hub, Mode, trigger_turn, next_turn, Delivery, Observed, Wakes, WakeStep, observes,
  notifies, timer_fires, run_ends, run_settles, begins, rolls_back, starts, stops, LastStop,
  stopped_by_error, stopped_by_user, stopped_otherwise, agent_end, agent_settled, begin_hub,
  end_hub, flush_hub, flush_idle, handoff_begins, handoff_rolls_back, is_empty, is_held,
  drop_oldest, max_observed, mark_job_observed, not_observed, notify, notify_hub, rollback_hub,
  send_events, session_start, settle_hub, stop_waker, take_and_send, visible, wake_step,
  was_observed, seen_since,
}

-- The map of observed jobs has no time at or after the update's under the update's job.
abbrev pub IsFresh : List Observed → JobWakeEvent → Type 0
IsFresh observed e =
    (o : Observed)
    → find (λ (p : Observed). str_eq p.id e.id) observed ≡ some o
    → o.seen_at < e.at_time

not_observed-IsFresh :
    (observed : List Observed) (e : JobWakeEvent)
    → not_observed observed e ≡ true
    → IsFresh observed e
unfolding was_observed
not_observed-IsFresh observed e h o found =
    let late : not (seen_since e (some o)) ≡ true = rw found at h in ground arith

-- A step sends nothing, or one message of updates that the model has not observed, at least one.
pub data Sends (w v : Wakes) : Type 0 where
  nothing : v.sent ≡ w.sent → Sends w v
  message :
      (d : Delivery)
      → v.sent ≡ d ∷ w.sent
      → All (IsFresh w.observed) d.events
      → d.events ≢ []
      → Sends w v

if_Sends : (b : Bool) (w u v : Wakes) → Sends w u → Sends w v → Sends w (if b then u else v)
if_Sends true w u v h k = h
if_Sends false w u v h k = k

unobserved :
    (observed : List Observed) (es : List JobWakeEvent)
    → All (λ e. not_observed observed e ≡ true) es
    → All (IsFresh observed) es
unobserved observed [] h = tt
unobserved observed (e ∷ es) h = (not_observed-IsFresh observed e h.0, unobserved observed es h.1)

send-Sends :
    (mode : Mode) (es : List JobWakeEvent) (w : Wakes) (h : Option Hub)
    → All (IsFresh w.observed) es
    → Sends w (record w { hub = h; sent = send_events es mode w.sent })
unfolding send_events
send-Sends mode [] w h q = nothing refl
send-Sends mode (e ∷ es) w h q = message (record { events = e ∷ es; mode = mode }) refl q (λ k. cc)

take-Sends : (mode : Mode) (h : Hub) (w : Wakes) → Sends w (take_and_send mode h w)
unfolding take_and_send
take-Sends mode h w =
    send-Sends mode (keep_if (not_observed w.observed) h.pending) w
      (some (record h { pending = [] }))
      (unobserved w.observed _ (keep_if-passes (not_observed w.observed) h.pending))

notify_hub-Sends : (e : JobWakeEvent) (w : Wakes) (o : Option Hub) → Sends w (notify_hub e w o)
notify_hub-Sends e w none = nothing refl
notify_hub-Sends e w (some g) = nothing refl

flush_hub-Sends : (idle : Bool) (w : Wakes) (o : Option Hub) → Sends w (flush_hub idle w o)
flush_hub-Sends idle w none = nothing refl
flush_hub-Sends idle w (some g) =
    if_Sends (is_held g) w _ _ (nothing refl)
      (if_Sends idle w _ _ (take-Sends trigger_turn (record g { timer = false }) w) (nothing refl))

end_hub-Sends : (last : LastStop) (w : Wakes) (o : Option Hub) → Sends w (end_hub last w o)
end_hub-Sends stopped_by_error w none = nothing refl
end_hub-Sends stopped_by_user w none = nothing refl
end_hub-Sends stopped_otherwise w none = nothing refl
end_hub-Sends stopped_by_error w (some g) = nothing refl
end_hub-Sends stopped_by_user w (some g) =
    if_Sends (is_empty g.pending) w _ _ (nothing refl)
      (take-Sends next_turn (record g { error_held = false; timer = false }) w)
end_hub-Sends stopped_otherwise w (some g) = if_Sends (is_empty g.pending) w _ _ (nothing refl) (
    if_Sends (is_truthy g.handoff) w _ _ (nothing refl)
      (take-Sends trigger_turn (record g { error_held = false; timer = false }) w))

settle_hub-Sends : (w : Wakes) (o : Option Hub) → Sends w (settle_hub w o)
settle_hub-Sends w none = nothing refl
settle_hub-Sends w (some g) =
    if_Sends g.error_held w _ _ (take-Sends next_turn (record g { error_held = false }) w)
      (nothing refl)

begin_hub-Sends : (a : String) (w : Wakes) (o : Option Hub) → Sends w (begin_hub a w o)
begin_hub-Sends a w none = nothing refl
begin_hub-Sends a w (some g) = nothing refl

rollback_hub-Sends : (a : String) (w : Wakes) (o : Option Hub) → Sends w (rollback_hub a w o)
rollback_hub-Sends a w none = nothing refl
rollback_hub-Sends a w (some g) =
    if_Sends (is_truthy g.handoff && opt_str_eq g.handoff (some a)) w _ _ (nothing refl)
      (nothing refl)

module _ (id : String) (o : Observed) (own : str_eq o.id id ≡ true) where
  find-behind :
      (xs : List Observed)
      → All (λ x. not (str_eq x.id id) ≡ true) xs
      → find (λ x. str_eq x.id id) (xs ++ o ∷ []) ≡ some o
  unfolding find
  find-behind [] h = rw own refl
  find-behind (x ∷ xs) h = ground (arith, h.0, find-behind xs h.1)

  find-drop_oldest :
      (xs : List Observed)
      → All (λ x. not (str_eq x.id id) ≡ true) xs
      → find (λ x. str_eq x.id id) (drop_oldest (xs ++ o ∷ [])) ≡ some o
  find-drop_oldest [] h = find-behind [] h
  find-drop_oldest (x ∷ xs) h = elim (Bool-cases (ltb max_observed (length (x ∷ xs ++ o ∷ [])))) [
    | inl full ↦ rw full (find-behind xs h.1)
    | inr room ↦ rw room (find-behind (x ∷ xs) h)
  ]

step-Sends : (x : WakeStep) (w : Wakes) → Sends w (wake_step x w)
unfolding wake_step notify flush_idle agent_end agent_settled handoff_begins handoff_rolls_back
    session_start stop_waker mark_job_observed
step-Sends (observes id now) w = nothing refl
step-Sends (notifies live e) w = notify_hub-Sends e w (visible live w)
step-Sends (timer_fires live idle) w = flush_hub-Sends idle w (visible live w)
step-Sends (run_ends live last) w = end_hub-Sends last w (visible live w)
step-Sends (run_settles live) w = settle_hub-Sends w (visible live w)
step-Sends (begins live a) w = begin_hub-Sends a w (visible live w)
step-Sends (rolls_back live a) w = rollback_hub-Sends a w (visible live w)
step-Sends (starts enabled) w = if_Sends enabled w _ _ (nothing refl) (nothing refl)
step-Sends stops w = nothing refl

-- Whatever happens to the hub, at most one message is sent, and then one of at least one update; for
-- none of these updates does the map of observed jobs have a time at or after the update's own.
-- And right after a job is observed, the map has the time of that for it.
pub wake_step-Sends :
    (x : WakeStep) (w : Wakes) (id : String) (now : ℕ)
    → Sends w (wake_step x w)
      × (find (λ (o : Observed). str_eq o.id id) (wake_step (observes id now) w).observed
          ≡ some (record { id = id; seen_at = now }))
unfolding wake_step mark_job_observed
wake_step-Sends x w id now = (
  step-Sends x w,
  find-drop_oldest id (record { id = id; seen_at = now }) (str_eq_refl id)
      (keep_if (λ (o : Observed). not (str_eq o.id id)) w.observed)
      (keep_if-passes (λ (o : Observed). not (str_eq o.id id)) w.observed),
)
