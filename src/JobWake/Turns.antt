-- ===== src/JobWake/Turns.antt =====
-- When an update may start a turn, and which updates are sent at all.
use mathlib.Core.Path.{subst}
use pi_shared.Common.{
  is_truthy, All, Bool, List, Option, String, [], arith, false, if◌then◌else◌, keep_if, none, not,
  refl, some, suc, true, ℕ, ◌≡◌, ◌∷◌, ◌||◌, str_eq, opt_str_eq, ◌&&◌, ap, str_eq_iff, ◌∙◌, sym,
}
use pi_shared.JobWake.Hub.{
  JobWakeEvent, Hub, trigger_turn, next_turn, Delivery, Wakes, WakeStep, observes, notifies,
  timer_fires, run_ends, run_settles, begins, rolls_back, starts, stops, LastStop, stopped_by_error,
  stopped_by_user, stopped_otherwise, agent_end, agent_settled, begin_hub, end_hub, flush_hub,
  flush_idle, handoff_begins, handoff_rolls_back, is_empty, is_held, mark_job_observed,
  not_observed, notify, notify_hub, rollback_hub, schedule, send_events, set_pending, settle_hub,
  stop_waker, take_and_send, visible, wake_step, wake_steps, with_hub,
}

-- How many of the messages started a turn.
unfoldable pub turns_started : List Delivery → ℕ
turns_started [] = 0
turns_started (d ∷ ds) =
    let rest = turns_started ds in elim d.mode [ trigger_turn ↦ suc rest | next_turn ↦ rest ]

-- A step that does not roll the attempt back, begins no other, and does not start the session again.
abbrev pub is_within : String → WakeStep → Bool
is_within a (rolls_back live b) = not (str_eq a b)
is_within a (begins live b) = str_eq b a
is_within a (starts enabled) = false
is_within a (observes id now) = true
is_within a (notifies live e) = true
is_within a (timer_fires live idle) = true
is_within a (run_ends live last) = true
is_within a (run_settles live) = true
is_within a stops = true

next_silent :
    (es : List JobWakeEvent) (sent : List Delivery)
    → turns_started (send_events es next_turn sent) ≡ turns_started sent
unfolding turns_started send_events
next_silent [] sent = refl
next_silent (e ∷ es) sent = refl

if_handoff : (b : Bool) (h : Hub) → (if b then h else record h { timer = true }).handoff ≡ h.handoff
if_handoff true h = refl
if_handoff false h = refl

module _ (a : String) (named : str_eq a "" ≡ false) where
  -- The hub is that attempt's, or gone.
  abbrev HeldHub : Option Hub → Type 0
  HeldHub none = Unit
  HeldHub (some h) = h.handoff ≡ some a

  record HeldStep (w v : Wakes) : Type 0 where
    held : HeldHub v.hub
    silent : turns_started v.sent ≡ turns_started w.sent

  if_HeldStep :
      (b : Bool) (w u v : Wakes) → HeldStep w u → HeldStep w v → HeldStep w (if b then u else v)
  if_HeldStep true w u v h k = h
  if_HeldStep false w u v h k = k

  visible-Held : (live : Bool) (w : Wakes) → HeldHub w.hub → HeldHub (visible live w)
  visible-Held true w h = h
  visible-Held false w h = tt

  with_hub-Held : (w : Wakes) (g : Hub) → g.handoff ≡ some a → HeldStep w (with_hub g w)
  with_hub-Held w g h = record { held = h; silent = refl }

  schedule-handoff : (h : Hub) → (schedule h).handoff ≡ h.handoff
  unfolding schedule
  schedule-handoff h = if_handoff (h.timer || is_held h) h

  take-Held : (w : Wakes) (g : Hub) → g.handoff ≡ some a → HeldStep w (take_and_send next_turn g w)
  unfolding take_and_send
  take-Held w g h = record {
    held = h;
    silent = next_silent (keep_if (not_observed w.observed) g.pending) w.sent;
  }

  notify_hub-Held :
      (e : JobWakeEvent) (w : Wakes) (o : Option Hub)
      → HeldHub w.hub
      → HeldHub o
      → HeldStep w (notify_hub e w o)
  notify_hub-Held e w none k h = record { held = k; silent = refl }
  notify_hub-Held e w (some g) k h =
      let f : Hub = record g { pending = set_pending e g.pending } in
      with_hub-Held w (schedule f) (schedule-handoff f ∙ h)

  flush_hub-Held :
      (idle : Bool) (w : Wakes) (o : Option Hub)
      → HeldHub w.hub
      → HeldHub o
      → HeldStep w (flush_hub idle w o)
  flush_hub-Held idle w none k h = record { held = k; silent = refl }
  flush_hub-Held idle w (some g) k h =
      let s : is_truthy g.handoff ≡ true = rw h (rw named refl) in
      rw s (with_hub-Held w (record g { timer = false }) h)

  end_hub-Held :
      (last : LastStop) (w : Wakes) (o : Option Hub)
      → HeldHub w.hub
      → HeldHub o
      → HeldStep w (end_hub last w o)
  end_hub-Held stopped_by_error w none k h = record { held = k; silent = refl }
  end_hub-Held stopped_by_user w none k h = record { held = k; silent = refl }
  end_hub-Held stopped_otherwise w none k h = record { held = k; silent = refl }
  end_hub-Held stopped_by_error w (some g) k h = with_hub-Held w (record g { error_held = true }) h
  end_hub-Held stopped_by_user w (some g) k h =
      if_HeldStep (is_empty g.pending) w _ _ (with_hub-Held w (record g { error_held = false }) h)
        (take-Held w (record g { error_held = false; timer = false }) h)
  end_hub-Held stopped_otherwise w (some g) k h =
      let s : is_truthy g.handoff ≡ true = rw h (rw named refl) in
      if_HeldStep (is_empty g.pending) w _ _ (with_hub-Held w (record g { error_held = false }) h)
        (rw s (with_hub-Held w (record g { error_held = false; timer = false }) h))

  settle_hub-Held :
      (w : Wakes) (o : Option Hub) → HeldHub w.hub → HeldHub o → HeldStep w (settle_hub w o)
  settle_hub-Held w none k h = record { held = k; silent = refl }
  settle_hub-Held w (some g) k h =
      if_HeldStep g.error_held w _ _ (take-Held w (record g { error_held = false }) h)
        (with_hub-Held w (schedule g) (schedule-handoff g ∙ h))

  begin_hub-Held :
      (b : String) (w : Wakes) (o : Option Hub)
      → str_eq b a ≡ true
      → HeldHub w.hub
      → HeldHub o
      → HeldStep w (begin_hub b w o)
  begin_hub-Held b w none e k h = record { held = k; silent = refl }
  begin_hub-Held b w (some g) e k h =
      with_hub-Held w (record g { handoff = some b; timer = false })
        (ap some ((str_eq_iff b a).0 e))

  rollback_hub-Held :
      (b : String) (w : Wakes) (o : Option Hub)
      → str_eq a b ≡ false
      → HeldHub w.hub
      → HeldHub o
      → HeldStep w (rollback_hub b w o)
  rollback_hub-Held b w none e k h = record { held = k; silent = refl }
  rollback_hub-Held b w (some g) e k h =
      let s : (is_truthy g.handoff && opt_str_eq g.handoff (some b)) ≡ false =
        rw h (ground (arith, e)) in
      rw s (record { held = k; silent = refl })

  wake_step-Held :
      (x : WakeStep) (w : Wakes) → is_within a x ≡ true → HeldHub w.hub → HeldStep w (wake_step x w)
  unfolding wake_step notify flush_idle agent_end agent_settled handoff_begins handoff_rolls_back
      stop_waker mark_job_observed
  wake_step-Held (observes id now) w q k = record { held = k; silent = refl }
  wake_step-Held (notifies live e) w q k =
      notify_hub-Held e w (visible live w) k (visible-Held live w k)
  wake_step-Held (timer_fires live idle) w q k =
      flush_hub-Held idle w (visible live w) k (visible-Held live w k)
  wake_step-Held (run_ends live last) w q k =
      end_hub-Held last w (visible live w) k (visible-Held live w k)
  wake_step-Held (run_settles live) w q k =
      settle_hub-Held w (visible live w) k (visible-Held live w k)
  wake_step-Held (begins live b) w q k =
      begin_hub-Held b w (visible live w) q k (visible-Held live w k)
  wake_step-Held (rolls_back live b) w q k =
      rollback_hub-Held b w (visible live w) (ground (arith, q)) k (visible-Held live w k)
  wake_step-Held (starts enabled) w q k = cc
  wake_step-Held stops w q k = record { held = tt; silent = refl }

  steps-silent :
      (xs : List WakeStep) (w : Wakes)
      → HeldHub w.hub
      → All (λ x. is_within a x ≡ true) xs
      → turns_started (wake_steps xs w).sent ≡ turns_started w.sent
  unfolding wake_steps
  steps-silent [] w k q = refl
  steps-silent (x ∷ xs) w k q =
      let s = wake_step-Held x w q.0 k in steps-silent xs (wake_step x w) s.held q.1 ∙ s.silent

  -- From a hub on that a handoff attempt with a nonempty id holds, no step starts a turn until the attempt is rolled
  -- back, another begins or the session starts again: not a timer, nor the end of a run.
  pub wake_steps-silent :
      (xs : List WakeStep) (w : Wakes) (h : Hub)
      → w.hub ≡ some h
      → h.handoff ≡ some a
      → All (λ x. is_within a x ≡ true) xs
      → turns_started (wake_steps xs w).sent ≡ turns_started w.sent
  wake_steps-silent xs w h e k q = steps-silent xs w (subst HeldHub (sym e) k) q
