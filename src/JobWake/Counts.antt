-- ===== src/JobWake/Counts.antt =====
-- No job update is sent more often than it was notified.
use pi_shared.Common.{
  is_truthy, ap, opt_str_eq, Bool, List, Option, String, [], arith, count_if, false, if◌then◌else◌,
  keep_if, none, refl, some, true, ℕ, ◌+◌, ◌≤◌, ◌≡◌, ◌∷◌, ◌||◌, ◌&&◌,
}
use pi_shared.JobWake.Hub.{
  JobWakeEvent, Hub, Mode, trigger_turn, next_turn, Delivery, Wakes, WakeStep, observes, notifies,
  timer_fires, run_ends, run_settles, begins, rolls_back, starts, stops, LastStop, stopped_by_error,
  stopped_by_user, stopped_otherwise, agent_end, agent_settled, begin_hub, end_hub, flush_hub,
  flush_idle, handoff_begins, handoff_rolls_back, is_empty, is_held, mark_job_observed,
  not_observed, notify, notify_hub, rollback_hub, schedule, send_events, session_start, set_pending,
  settle_hub, start_hub, stop_waker, take_and_send, visible, wake_step, wake_steps,
}

if_pending : (b : Bool) (h : Hub) → (if b then h else record h { timer = true }).pending ≡ h.pending
if_pending true h = refl
if_pending false h = refl

module _ (p : JobWakeEvent → Bool) where
  -- How many of the events that `p` picks out wait in a hub, were sent, or are notified.
  abbrev pub waiting : Option Hub → ℕ
  waiting none = 0
  waiting (some h) = count_if p h.pending

  unfoldable pub sent_count : List Delivery → ℕ
  sent_count [] = 0
  sent_count (d ∷ ds) = count_if p d.events + sent_count ds

  unfoldable pub notified : List WakeStep → ℕ
  notified [] = 0
  notified (notifies live e ∷ xs) = count_if p (e ∷ []) + notified xs
  notified (observes id now ∷ xs) = notified xs
  notified (timer_fires live idle ∷ xs) = notified xs
  notified (run_ends live last ∷ xs) = notified xs
  notified (run_settles live ∷ xs) = notified xs
  notified (begins live attempt ∷ xs) = notified xs
  notified (rolls_back live attempt ∷ xs) = notified xs
  notified (starts enabled ∷ xs) = notified xs
  notified (stops ∷ xs) = notified xs

  abbrev total : Wakes → ℕ
  total w = waiting w.hub + sent_count w.sent

  count_if-keep_if-le :
      (q : JobWakeEvent → Bool) (es : List JobWakeEvent) → count_if p (keep_if q es) ≤ count_if p es
  unfolding count_if keep_if
  count_if-keep_if-le q [] = omega arith
  count_if-keep_if-le q (e ∷ es) = ground (arith, count_if-keep_if-le q es)

  count_if-set_pending-le :
      (e : JobWakeEvent) (es : List JobWakeEvent)
      → count_if p (set_pending e es) ≤ count_if p es + count_if p (e ∷ [])
  unfolding count_if set_pending
  count_if-set_pending-le e [] = ground arith
  count_if-set_pending-le e (f ∷ fs) = ground (arith, count_if-set_pending-le e fs)

  schedule-pending : (h : Hub) → (schedule h).pending ≡ h.pending
  unfolding schedule
  schedule-pending h = if_pending (h.timer || is_held h) h

  sent_count-send_events :
      (es : List JobWakeEvent) (mode : Mode) (sent : List Delivery)
      → sent_count (send_events es mode sent) ≡ count_if p es + sent_count sent
  unfolding sent_count send_events count_if
  sent_count-send_events [] mode sent = omega arith
  sent_count-send_events (e ∷ es) mode sent = refl

  take-total :
      (mode : Mode) (h : Hub) (w : Wakes)
      → total (take_and_send mode h w) ≤ count_if p h.pending + sent_count w.sent
  unfolding take_and_send
  take-total mode h w =
      let none_waiting : count_if p [] ≡ 0 = unfold count_if in refl in
      omega (
        arith,
        none_waiting,
        sent_count-send_events (keep_if (not_observed w.observed) h.pending) mode w.sent,
        count_if-keep_if-le (not_observed w.observed) h.pending,
      )

  schedule-count : (h : Hub) → count_if p (schedule h).pending ≡ count_if p h.pending
  schedule-count h = ap (count_if p) (schedule-pending h)

  visible-waiting : (live : Bool) (w : Wakes) → waiting (visible live w) ≤ waiting w.hub
  visible-waiting true w = omega arith
  visible-waiting false w = omega arith

  if_total :
      (b : Bool) (v w : Wakes) (n : ℕ) → total v ≤ n → total w ≤ n → total (if b then v else w) ≤ n
  if_total true v w n h k = h
  if_total false v w n h k = k

  notify_hub-total :
      (e : JobWakeEvent) (w : Wakes) (o : Option Hub)
      → waiting o ≤ waiting w.hub
      → total (notify_hub e w o) ≤ total w + count_if p (e ∷ [])
  notify_hub-total e w none h = omega arith
  notify_hub-total e w (some g) h = omega (
    arith,
    h,
    schedule-count (record g { pending = set_pending e g.pending }),
    count_if-set_pending-le e g.pending,
  )

  flush_hub-total :
      (idle : Bool) (w : Wakes) (o : Option Hub)
      → waiting o ≤ waiting w.hub
      → total (flush_hub idle w o) ≤ total w
  flush_hub-total idle w none h = omega arith
  flush_hub-total idle w (some g) h =
      let f : Hub = record g { timer = false } in
      if_total (is_held g) _ _ (total w) (omega (arith, h)) (
        if_total idle _ _ (total w) (omega (arith, h, take-total trigger_turn f w))
          (omega (arith, h, schedule-count f)))

  end_hub-total :
      (last : LastStop) (w : Wakes) (o : Option Hub)
      → waiting o ≤ waiting w.hub
      → total (end_hub last w o) ≤ total w
  end_hub-total stopped_by_error w none h = omega arith
  end_hub-total stopped_by_user w none h = omega arith
  end_hub-total stopped_otherwise w none h = omega arith
  end_hub-total stopped_by_error w (some g) h = omega (arith, h)
  end_hub-total stopped_by_user w (some g) h =
      if_total (is_empty g.pending) _ _ (total w) (omega (arith, h))
        (omega (arith, h, take-total next_turn (record g { error_held = false; timer = false }) w))
  end_hub-total stopped_otherwise w (some g) h =
      if_total (is_empty g.pending) _ _ (total w) (omega (arith, h)) (
        if_total (is_truthy g.handoff) _ _ (total w) (omega (arith, h)) (
          omega
            (arith, h, take-total trigger_turn (record g { error_held = false; timer = false }) w)))

  settle_hub-total :
      (w : Wakes) (o : Option Hub) → waiting o ≤ waiting w.hub → total (settle_hub w o) ≤ total w
  settle_hub-total w none h = omega arith
  settle_hub-total w (some g) h =
      if_total g.error_held _ _ (total w)
        (omega (arith, h, take-total next_turn (record g { error_held = false }) w))
        (omega (arith, h, schedule-count g))

  begin_hub-total :
      (a : String) (w : Wakes) (o : Option Hub)
      → waiting o ≤ waiting w.hub
      → total (begin_hub a w o) ≤ total w
  begin_hub-total a w none h = omega arith
  begin_hub-total a w (some g) h = omega (arith, h)

  rollback_hub-total :
      (a : String) (w : Wakes) (o : Option Hub)
      → waiting o ≤ waiting w.hub
      → total (rollback_hub a w o) ≤ total w
  rollback_hub-total a w none h = omega arith
  rollback_hub-total a w (some g) h =
      if_total (is_truthy g.handoff && opt_str_eq g.handoff (some a)) _ _ (total w)
        (omega (arith, h, schedule-count (record g { handoff = none }))) (omega arith)

  start_hub-waiting : (o : Option Hub) → waiting (start_hub o) ≡ waiting o
  unfolding count_if
  start_hub-waiting none = refl
  start_hub-waiting (some h) = refl

  -- One step, and what it notifies.
  wake_step-total : (x : WakeStep) (w : Wakes) → total (wake_step x w) ≤ total w + notified (x ∷ [])
  unfolding wake_step notify flush_idle agent_end agent_settled handoff_begins handoff_rolls_back
      session_start stop_waker mark_job_observed notified
  wake_step-total (observes id now) w = omega arith
  wake_step-total (notifies live e) w =
      omega (arith, notify_hub-total e w (visible live w) (visible-waiting live w))
  wake_step-total (timer_fires live idle) w =
      omega (arith, flush_hub-total idle w (visible live w) (visible-waiting live w))
  wake_step-total (run_ends live last) w =
      omega (arith, end_hub-total last w (visible live w) (visible-waiting live w))
  wake_step-total (run_settles live) w =
      omega (arith, settle_hub-total w (visible live w) (visible-waiting live w))
  wake_step-total (begins live a) w =
      omega (arith, begin_hub-total a w (visible live w) (visible-waiting live w))
  wake_step-total (rolls_back live a) w =
      omega (arith, rollback_hub-total a w (visible live w) (visible-waiting live w))
  wake_step-total (starts enabled) w =
      if_total enabled (record w { hub = start_hub w.hub }) w (total w + 0)
        (omega (arith, start_hub-waiting w.hub)) (omega arith)
  wake_step-total stops w = omega arith

  notified-cons :
      (x : WakeStep) (xs : List WakeStep) → notified (x ∷ xs) ≡ notified (x ∷ []) + notified xs
  unfolding notified
  notified-cons (observes id now) xs = omega arith
  notified-cons (notifies live e) xs = omega arith
  notified-cons (timer_fires live idle) xs = omega arith
  notified-cons (run_ends live last) xs = omega arith
  notified-cons (run_settles live) xs = omega arith
  notified-cons (begins live a) xs = omega arith
  notified-cons (rolls_back live a) xs = omega arith
  notified-cons (starts enabled) xs = omega arith
  notified-cons stops xs = omega arith

  -- Whatever events one picks out: those that wait after some steps and those that were sent are
  -- together no more than those that waited and were sent before and those that the steps notified.
  pub wake_steps-once :
      (xs : List WakeStep) (w : Wakes)
      → waiting (wake_steps xs w).hub + sent_count (wake_steps xs w).sent
        ≤ waiting w.hub + sent_count w.sent + notified xs
  unfolding wake_steps
  wake_steps-once [] w = omega arith
  wake_steps-once (x ∷ xs) w =
      omega (arith, wake_step-total x w, wake_steps-once xs (wake_step x w), notified-cons x xs)
