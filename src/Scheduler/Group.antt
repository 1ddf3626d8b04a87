-- ===== src/Scheduler/Group.antt =====
-- extensions/_shared/subagent-scheduler.ts: `SubagentExecutionGroup`, the fan-out limit of one
-- request. The group's promises are named by numbers; what a promise runs is the scheduler's.
use pi_shared.Common.{
  Bool, List, [], any_of, arith, false, if◌then◌else◌, leb, length, not, suc, true, ℕ, ◌+◌, refl,
  count_if, ◌∙◌, ◌-◌, ◌==◌, ◌∷◌, ◌≡◌, ◌≤◌,
}
use pi_shared.Scheduler.State.{SubagentConfig}

pub record ExecutionGroup : Type 0 where
  pub outstanding : ℕ
  pub closed : Bool
  pub aborted : Bool  -- of the group's own controller
  pub pending : List ℕ

unfoldable pub new_group : ExecutionGroup
new_group = record { outstanding = 0; closed = false; aborted = false; pending = [] }

pub data GroupReply : Type 0 where
  started group_closed fanout_exceeded no_reply : GroupReply

pub data GroupEvent : Type 0 where
  -- A call of `run` that, if it is accepted, makes the given promise.
  run : ℕ → GroupEvent
  -- A promise of the group settles, and its `finally` runs.
  settle : ℕ → GroupEvent
  cancel : GroupEvent
  close : GroupEvent

unfoldable pub run_in_group : SubagentConfig → ExecutionGroup → ℕ → ExecutionGroup × GroupReply
run_in_group config g promise =
    if g.closed
    then (g, group_closed)
    else if leb config.max_fanout g.outstanding
    then (g, fanout_exceeded)
    else (record g { outstanding = g.outstanding + 1; pending = promise ∷ g.pending }, started)

-- `pending.delete(promise)`
unfoldable pub delete_promise : ℕ → List ℕ → List ℕ
delete_promise promise [] = []
delete_promise promise (p ∷ ps) = if p == promise then ps else p ∷ delete_promise promise ps

-- A promise settles once: an event for another promise than a pending one does not happen.
unfoldable pub settle_in_group : ExecutionGroup → ℕ → ExecutionGroup
unfolding delete_promise
settle_in_group g promise =
    if any_of (λ p. p == promise) g.pending
    then record g { outstanding = g.outstanding - 1; pending = delete_promise promise g.pending }
    else g

unfoldable pub cancel_group : ExecutionGroup → ExecutionGroup
cancel_group g = if not g.aborted then record g { aborted = true } else g

-- The part of `close` before it drains.
unfoldable pub close_group : ExecutionGroup → ExecutionGroup
unfolding cancel_group
close_group g = cancel_group (record g { closed = true })

-- `drain` waits while this fails.
unfoldable pub is_drained : ExecutionGroup → Bool
is_drained g = length g.pending == 0

unfoldable pub group_step :
    SubagentConfig → ExecutionGroup → GroupEvent → ExecutionGroup × GroupReply
unfolding run_in_group settle_in_group cancel_group close_group
group_step config g (run promise) = run_in_group config g promise
group_step config g (settle promise) = (settle_in_group g promise, no_reply)
group_step config g cancel = (cancel_group g, no_reply)
group_step config g close = (close_group g, no_reply)

unfoldable pub group_run : SubagentConfig → ExecutionGroup → List GroupEvent → ExecutionGroup
group_run config g [] = g
group_run config g (e ∷ es) = group_run config (group_step config g e).0 es

pub record GroupIsValid (config : SubagentConfig) (g : ExecutionGroup) : Type 0 where
  pub counted : g.outstanding ≡ length g.pending
  pub bounded : g.outstanding ≤ config.max_fanout

length-delete_promise :
    (promise : ℕ) (ps : List ℕ)
    → any_of (λ p. p == promise) ps ≡ true
    → suc (length (delete_promise promise ps)) ≡ length ps
unfolding any_of delete_promise
length-delete_promise promise [] h = cc
length-delete_promise promise (p ∷ ps) h = ground (arith, length-delete_promise promise ps)

group_step-IsValid :
    (config : SubagentConfig) (g : ExecutionGroup) (e : GroupEvent)
    → GroupIsValid config g
    → GroupIsValid config (group_step config g e).0
unfolding group_step
group_step-IsValid config g (settle promise) v =
    ground (arith, length-delete_promise promise g.pending)
group_step-IsValid config g _ v = ground arith

-- Whatever happens in a group, the count of outstanding agents is the number of its unsettled
-- promises, and never passes the fan-out limit.
pub group_run-IsValid :
    (config : SubagentConfig) (g : ExecutionGroup) (es : List GroupEvent)
    → GroupIsValid config g
    → GroupIsValid config (group_run config g es)
unfolding group_run
group_run-IsValid config g [] v = v
group_run-IsValid config g (e ∷ es) v =
    group_run-IsValid config (group_step config g e).0 es (group_step-IsValid config g e v)

-- How often a promise settles among some events.
unfoldable pub settlements : ℕ → List GroupEvent → ℕ
settlements p [] = 0
settlements p (settle q ∷ es) = let rest = settlements p es in if q == p then suc rest else rest
settlements p (run q ∷ es) = settlements p es
settlements p (cancel ∷ es) = settlements p es
settlements p (close ∷ es) = settlements p es

-- How often a promise is pending.
abbrev pub times_pending : ℕ → List ℕ → ℕ
times_pending p = count_if (λ q. q == p)

count-delete_promise :
    (p q : ℕ) (ps : List ℕ)
    → times_pending p (delete_promise q ps)
      ≡ (if q == p then times_pending p ps - 1 else times_pending p ps)
unfolding delete_promise count_if
count-delete_promise p q [] = ground arith
count-delete_promise p q (x ∷ xs) = ground (arith, count-delete_promise p q xs)

not_pending : (p : ℕ) (ps : List ℕ) → any_of (λ q. q == p) ps ≡ false → times_pending p ps ≡ 0
unfolding any_of count_if
not_pending p [] h = refl
not_pending p (x ∷ xs) h = ground (arith, not_pending p xs)

-- What one event does to a closed group's count of one promise.
closed-group_step :
    (config : SubagentConfig) (g : ExecutionGroup) (p : ℕ) (e : GroupEvent)
    → g.closed ≡ true
    → ((group_step config g e).0.closed ≡ true)
      × (times_pending p (group_step config g e).0.pending
          ≡ times_pending p g.pending - settlements p (e ∷ []))
unfolding group_step settlements
closed-group_step config g p (settle q) h =
    ground (arith, count-delete_promise p q g.pending, not_pending q g.pending)
closed-group_step config g p (run q) h = ground arith
closed-group_step config g p cancel h = ground arith
closed-group_step config g p close h = ground arith

settlements-cons :
    (p : ℕ) (e : GroupEvent) (es : List GroupEvent)
    → settlements p (e ∷ es) ≡ settlements p (e ∷ []) + settlements p es
unfolding settlements
settlements-cons p (settle q) es = ground arith
settlements-cons p (run q) es = omega arith
settlements-cons p cancel es = omega arith
settlements-cons p close es = omega arith

closed-group_run :
    (config : SubagentConfig) (g : ExecutionGroup) (p : ℕ) (es : List GroupEvent)
    → g.closed ≡ true
    → ((group_run config g es).closed ≡ true)
      × (times_pending p (group_run config g es).pending
          ≡ times_pending p g.pending - settlements p es)
unfolding group_run
closed-group_run config g p [] h = (h, unfold settlements in omega arith)
closed-group_run config g p (e ∷ es) h =
    let step = closed-group_step config g p e h in
    let rest = closed-group_run config (group_step config g e).0 p es step.0 in
    (rest.0, omega (arith, settlements-cons p e es, step.1, rest.1))

closed-run :
    (config : SubagentConfig) (g : ExecutionGroup) (promise : ℕ)
    → g.closed ≡ true
    → group_step config g (run promise) ≡ (g, group_closed)
unfolding group_step
closed-run config g promise h = rw h refl

none_pending : (ps : List ℕ) → ((p : ℕ) → times_pending p ps ≡ 0) → (length ps == 0) ≡ true
unfolding count_if
none_pending [] h = refl
none_pending (p ∷ ps) h = ground (arith, h p)

-- Whatever happens in a group once it is closed, further runs, cancels and closes included, in any
-- order: when every promise that was pending at the close has settled, `drain` returns, and a run
-- is still refused.
pub close_group_drains :
    (config : SubagentConfig) (g : ExecutionGroup) (es : List GroupEvent) (promise : ℕ)
    → ((p : ℕ) → times_pending p g.pending ≤ settlements p es)
    → (group_step config (group_run config (close_group g) es) (run promise)
        ≡ (group_run config (close_group g) es, group_closed))
      × (is_drained (group_run config (close_group g) es) ≡ true)
unfolding close_group is_drained
close_group_drains config g es promise settled =
    let c = close_group g in
    let after = λ (p : ℕ). closed-group_run config c p es (ground arith) in
    let same : c.pending ≡ g.pending = ground arith in
    (
      closed-run config (group_run config c es) promise (after 0).0,
      none_pending (group_run config c es).pending
          (λ p. (after p).1 ∙ rw same (omega (arith, settled p))),
    )
