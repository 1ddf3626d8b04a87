-- ===== src/Handoff/Finality.antt =====
-- What a request resolves to agrees with every audit record of it.
use mathlib.Core.Path.{subst}
use pi_shared.Handoff.Records.{
  prepared, child_created, received, awaiting_user, transferred, cancelled, failed,
  SelfHandoffStatus, SelfHandoffRequest, SelfHandoffRecord, SessionEntry,
}
use pi_shared.Handoff.Reduce.{
  reduced, ReduceState, HandoffSource, advance, child_differs, differs, is_allowed_next, may_follow,
  same_self_handoff_request, inspect_self_handoff_records, no_record, reduce_self_handoff_request,
  reduce_sources,
}
use pi_shared.Common.{
  Bool, Bool-cases, Option, String, ap, arith, false, inl, inr, is_some, none, not, opt_str_eq_iff,
  if◌then◌else◌, str_eq_iff, refl, some, str_eq, sym, true, ◌&&◌, ◌==◌, ◌∙◌, ◌≡◌, All, List, [],
  ◌∷◌,
}

abbrev pub is_final : SelfHandoffStatus → Bool
is_final transferred = true
is_final cancelled = true
is_final failed = true
is_final prepared = false
is_final child_created = false
is_final received = false
is_final awaiting_user = false

final_stays : (a b : SelfHandoffStatus) → is_final a ≡ true → is_allowed_next a b ≡ true → b ≡ a
unfolding is_allowed_next
final_stays prepared b f h = cc
final_stays child_created b f h = cc
final_stays received b f h = cc
final_stays awaiting_user b f h = cc
final_stays transferred b f h = ground arith
final_stays cancelled b f h = ground arith
final_stays failed b f h = ground arith

differs_same : (a b : Option String) → is_some a ≡ true → differs a b ≡ false → b ≡ a
differs_same none b s h = cc
differs_same (some k) b s h = sym ((opt_str_eq_iff (some k) b).0 (ground arith))

-- A later record keeps a final status, and the child once it is known.
abbrev pub Follows : SelfHandoffRecord → SelfHandoffRecord → Type 0
Follows c r =
    (is_final c.status ≡ true → r.status ≡ c.status)
    × (is_some c.target_session_file ≡ true → r.target_session_file ≡ c.target_session_file)
    × (is_some c.target_session_file ≡ true
        → is_some c.target_session_id ≡ true
        → r.target_session_id ≡ c.target_session_id)

Follows-refl : (r : SelfHandoffRecord) → Follows r r
Follows-refl r = ((λ h. refl), (λ h. refl), λ h k. refl)

Follows-trans : (a b c : SelfHandoffRecord) → Follows a b → Follows b c → Follows a c
Follows-trans a b c (s, f, i) (s', f', i') = (
  (λ h. s' (ap is_final (s h) ∙ h) ∙ s h),
  (λ h. f' (ap is_some (f h) ∙ h) ∙ f h),
  λ h k. i' (ap is_some (f h) ∙ h) (ap is_some (i h k) ∙ k) ∙ i h k,
)

abbrev Tracks : ReduceState → SelfHandoffRecord → Type 0
Tracks s c =
    (s.current ≡ some c)
    × (s.target_session_file ≡ c.target_session_file)
    × (is_some c.target_session_file ≡ true → s.target_session_id ≡ c.target_session_id)

abbrev pub is_of : SelfHandoffRequest → HandoffSource → Bool
is_of expected source = str_eq source.handoff.request.id expected.id

-- A record of the request agrees with what the request resolves to.
abbrev pub Agrees : SelfHandoffRequest → SelfHandoffRecord → HandoffSource → Type 0
Agrees expected r source =
    is_of expected source ≡ true → (source.handoff.request ≡ expected) × Follows source.handoff r

same_flag : (a b : Bool) → (if a then b else not b) ≡ true → a ≡ b
same_flag true b h = ground arith
same_flag false b h = ground arith

and_parts : (a b : Bool) → (a && b) ≡ true → (a ≡ true) × (b ≡ true)
and_parts true b h = (refl, h)
and_parts false b h = cc

same_fields :
    (l r : SelfHandoffRequest)
    → l.id ≡ r.id
    → l.created_at ≡ r.created_at
    → l.origin_session_id ≡ r.origin_session_id
    → l.origin_session_file ≡ r.origin_session_file
    → l.context_nonce ≡ r.context_nonce
    → l.kickoff_hash ≡ r.kickoff_hash
    → l.goal_transferred ≡ r.goal_transferred
    → l.goal_id ≡ r.goal_id
    → l.work_plan_transferred ≡ r.work_plan_transferred
    → l ≡ r
same_fields l r id created session file nonce hash goal goal_id plan = λ i. record {
  id = id i;
  created_at = created i;
  origin_session_id = session i;
  origin_session_file = file i;
  context_nonce = nonce i;
  kickoff_hash = hash i;
  goal_transferred = goal i;
  goal_id = goal_id i;
  work_plan_transferred = plan i;
}

-- The comparison of requests compares all that a request consists of.
same_self_handoff_request→eq :
    (l r : SelfHandoffRequest) → same_self_handoff_request l r ≡ true → l ≡ r
unfolding same_self_handoff_request
same_self_handoff_request→eq l r h =
    let (h1, plan) = and_parts _ _ h in
    let (h2, goal_id) = and_parts _ _ h1 in
    let (h3, goal) = and_parts _ _ h2 in
    let (h4, hash) = and_parts _ _ h3 in
    let (h5, nonce) = and_parts _ _ h4 in
    let (h6, file) = and_parts _ _ h5 in
    let (h7, session) = and_parts _ _ h6 in
    let (id, created) = and_parts _ (l.created_at == r.created_at) h7 in
    same_fields l r ((str_eq_iff l.id r.id).0 id) (ground (arith, created))
      ((str_eq_iff l.origin_session_id r.origin_session_id).0 session)
      ((str_eq_iff l.origin_session_file r.origin_session_file).0 file)
      ((str_eq_iff l.context_nonce r.context_nonce).0 nonce)
      ((opt_str_eq_iff l.kickoff_hash r.kickoff_hash).0 hash)
      (same_flag l.goal_transferred r.goal_transferred goal)
      ((opt_str_eq_iff l.goal_id r.goal_id).0 goal_id)
      (same_flag l.work_plan_transferred r.work_plan_transferred plan)

both_none : (a b : Option String) → (is_some a && not false) ≡ false → is_some b ≡ false → a ≡ b
both_none none none h k = refl
both_none (some a) b h k = cc
both_none none (some b) h k = cc

advance-Tracks :
    (s : ReduceState) (source : HandoffSource)
    → (is_some s.target_session_file && not (is_some source.handoff.target_session_file)) ≡ false
    → Tracks (advance s source) source.handoff
advance-Tracks s source kept = elim (Bool-cases (is_some source.handoff.target_session_file)) [
  | inl child ↦ rw child (refl, refl, λ h. refl)
  | inr no_child ↦ rw no_child (refl, both_none _ _ (rw no_child at kept) no_child, λ h. cc)
]

step-Follows :
    (s : ReduceState) (c r : SelfHandoffRecord)
    → Tracks s c
    → (is_some s.target_session_file && not (is_some r.target_session_file)) ≡ false
    → child_differs s r ≡ false
    → may_follow s.current r ≡ true
    → Follows c r
step-Follows s c r (at_c, file, id) kept same allowed =
    let next : is_allowed_next c.status r.status ≡ true = rw at_c at allowed in
    (
      (λ h. final_stays c.status r.status h next),
      (λ h.
          let known : is_some s.target_session_file ≡ true = ap is_some file ∙ h in
          differs_same s.target_session_file r.target_session_file known (ground arith) ∙ file),
      λ h k.
          let known : is_some s.target_session_file ≡ true = ap is_some file ∙ h in
          let known_id : is_some s.target_session_id ≡ true = ap is_some (id h) ∙ k in
          differs_same s.target_session_id r.target_session_id known_id (ground arith) ∙ id h,
    )

-- What the loop does with the records that it has still to read, after the record `c`.
loop-Follows :
    (expected : SelfHandoffRequest) (s : ReduceState) (c r : SelfHandoffRecord) (id : Option String)
    (sources : List HandoffSource)
    → Tracks s c
    → reduce_sources expected s sources ≡ reduced (some r) id
    → Follows c r × All (Agrees expected r) sources
unfolding reduce_sources
loop-Follows expected s c r id [] t = λ h.
    let at_c = t.0 in
    let same : c ≡ r = ground arith in (subst (Follows c) same (Follows-refl c), tt)
loop-Follows expected s c r id (source ∷ sources) t = elim (Bool-cases (is_of expected source)) [
  | inr other ↦
      rw other
        λ h. let rest = loop-Follows expected s c r id sources t h in (rest.0, ((λ k. cc), rest.1))
  | inl ours ↦
      rw ours (elim (Bool-cases (same_self_handoff_request source.handoff.request expected)) [
        | inr changed ↦ rw changed λ h. cc
        | inl same ↦
            rw same
              (elim (Bool-cases (
                is_some s.target_session_file
                && not (is_some source.handoff.target_session_file))) [
                  | inl gone ↦ rw gone λ h. cc
                  | inr kept ↦ rw kept (elim (Bool-cases (child_differs s source.handoff)) [
                    | inl swapped ↦ rw swapped λ h. cc
                    | inr child ↦
                        rw child (elim (Bool-cases (may_follow s.current source.handoff)) [
                          | inr invalid ↦ rw invalid λ h. cc
                          | inl allowed ↦ rw allowed λ h.
                              let rest =
                                loop-Follows expected (advance s source) source.handoff r id sources
                                  (advance-Tracks s source kept) h in
                              let exact = same_self_handoff_request→eq _ _ same in
                              let here = step-Follows s c source.handoff t kept child allowed in
                              (
                                Follows-trans c source.handoff r here rest.0,
                                ((λ k. (exact, rest.0)), rest.1),
                              )
                        ])
                  ])
                ])
      ])
]

-- The records before the first of the request change nothing.
first-Agrees :
    (expected : SelfHandoffRequest) (r : SelfHandoffRecord) (id : Option String)
    (sources : List HandoffSource)
    → reduce_sources expected no_record sources ≡ reduced (some r) id
    → All (Agrees expected r) sources
unfolding reduce_sources
first-Agrees expected r id [] = λ h. tt
first-Agrees expected r id (source ∷ sources) = elim (Bool-cases (is_of expected source)) [
  | inr other ↦ rw other λ h. ((λ k. cc), first-Agrees expected r id sources h)
  | inl ours ↦
      rw ours (elim (Bool-cases (same_self_handoff_request source.handoff.request expected)) [
        | inr changed ↦ rw changed λ h. cc
        | inl same ↦ rw same (elim (Bool-cases (child_differs no_record source.handoff)) [
          | inl swapped ↦ rw swapped λ h. cc
          | inr child ↦ rw child λ h.
              let exact = same_self_handoff_request→eq _ _ same in
              let rest =
                loop-Follows expected (advance no_record source) source.handoff r id sources
                  (advance-Tracks no_record source refl) h in
              ((λ k. (exact, rest.0)), rest.1)
        ])
      ])
]

-- If the audit records of a session resolve a request to a record, then none of them is malformed, and
-- each record with the request's id has exactly this request, field by field; its status, if final, is the one resolved
-- to, and the child session that it names is the one resolved to.
pub reduce_self_handoff_request-Agrees :
    (kickoff_hash : String → String) (entries : List SessionEntry) (expected : SelfHandoffRequest)
    (r : SelfHandoffRecord) (id : Option String)
    → reduce_self_handoff_request kickoff_hash entries expected ≡ reduced (some r) id
    → ((inspect_self_handoff_records kickoff_hash entries).malformed ≡ false)
      × All (Agrees expected r) (inspect_self_handoff_records kickoff_hash entries).sources
unfolding reduce_self_handoff_request
reduce_self_handoff_request-Agrees kickoff_hash entries expected r id =
    elim (Bool-cases (inspect_self_handoff_records kickoff_hash entries).malformed) [
      | inl bad ↦ rw bad λ h. cc
      | inr good ↦ rw good λ h. (refl, first-Agrees expected r id _ h)
    ]
