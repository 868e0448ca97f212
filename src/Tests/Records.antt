-- ===== src/Tests/Records.antt =====
-- The goals, tasks, requests, leases and the routing of crates/workflow-core on small inputs.
use google_antigravity_cycle.Prelude.{
  ℕ, ◌+◌, ◌≤◌, ◌<◌, ◌≡◌, ◌≢◌, ◌⊎◌, ◌↔◌, true, false, none, List, [], ◌∷◌, ◌++◌, length, ok, err,
  arith, refl,
}
use mathlib.Core.List.{Sublist}
use google_antigravity_cycle.Prelude.Text.{Text, is_blank, byte_length}
use google_antigravity_cycle.Prelude.Int.{pos}
use google_antigravity_cycle.Core.Request
use google_antigravity_cycle.Core.Request.{RequestRecord, append_amendment, too_many_amendments}
use google_antigravity_cycle.Core.Request.Laws.{try_from-append_amendment}
use google_antigravity_cycle.Core.Goal
use google_antigravity_cycle.Core.Goal.{
  Goal, validate_objective, validate_items, start_planning, mark_ready, activate, continue, draft,
  active, blocked, invalid_field, invalid_transition, request_error,
}
use google_antigravity_cycle.Core.Goal.Amendments.{
  is_refused, amended, deserialize-append_amendment,
}
use google_antigravity_cycle.Core.Goal.Persistence.{deserialize-run, past_limit, unreadable_goal}
use google_antigravity_cycle.Core.Task
use google_antigravity_cycle.Core.Task.{
  TaskCommand, dependencies_satisfied, lease, start, submit_candidate, verification_passed,
  verification_failed, max_u32,
}
use google_antigravity_cycle.Core.Task.Laws.{completed_needs_gates}
use google_antigravity_cycle.Core.Lease.{
  Lease, LeaseReconciliation, idempotent, heartbeat, reconcile, expired,
}
use google_antigravity_cycle.Core.Workflow.{WorkflowMode}
use google_antigravity_cycle.Core.Routing.{
  RoutingInput, secrets, protocol, documentation, deterministic, user, model_advisory, auto,
  route_workflow,
}
use google_antigravity_cycle.Core.Routing.Laws.{
  NeedsFull, route_full_iff, drop_advice, route_workflow-drop_advice,
}
use google_antigravity_cycle.Core.Lease.Laws.{heartbeat-expired}

abbrev objective : Text
objective = 65 ∷ []

abbrev goal_in : Goal.GoalState → ℕ → Goal
goal_in s n = record {
  request = Request.new objective [];
  success_criteria = objective ∷ [];
  constraints = [];
  non_goals = [];
  state = s;
  max_continuations = 2;
  continuations = n;
  paused_from = none;
  blocked_from = none;
}

made : Goal.new objective (objective ∷ []) [] [] 2 ≡ ok (goal_in draft 0)
unfolding Goal.new validate_objective is_blank byte_length validate_items
made = refl

unreadable_goal_example :
    let g = Goal.run (goal_in draft 0) (past_limit 2) in
    (g.max_continuations < g.continuations) × (Goal.deserialize g ≡ err invalid_field)
unreadable_goal_example =
    unreadable_goal objective (objective ∷ []) [] [] 1 {g = goal_in draft 0} (omega arith) made

goal_read_back : Goal.deserialize (goal_in active 1) ≡ ok (goal_in active 1)
unfolding Goal.deserialize Request.new Request.try_from validate_objective is_blank byte_length
    validate_items
goal_read_back = refl

deserialize-append_amendment_example :
    let g = goal_in active 1 in
    let (result, after) = Goal.append_amendment (66 ∷ []) 9 g in
    (Goal.deserialize after ≡ ok after)
    × (((result ≡ ok tt)
          × (is_refused g (66 ∷ []) ≡ false)
          × (length g.request.amendments < 4294967295)
          × (after ≡ record g { request = amended g.request (66 ∷ []) 9 }))
        ⊎ ((after ≡ g)
            × (((result ≡ err invalid_transition) × (is_refused g (66 ∷ []) ≡ true))
                ⊎ ((result ≡ err (request_error too_many_amendments))
                    × (is_refused g (66 ∷ []) ≡ false)
                    × (4294967295 ≤ length g.request.amendments)))))
deserialize-append_amendment_example =
    deserialize-append_amendment (goal_in active 1) (66 ∷ []) 9 goal_read_back

deserialize-run_example :
    let g = Goal.run (goal_in draft 0) (start_planning ∷ mark_ready ∷ activate ∷ continue ∷ []) in
    Goal.deserialize g ≡ ok g
deserialize-run_example =
    deserialize-run objective (objective ∷ []) [] [] 2 {g = goal_in draft 0}
      (start_planning ∷ mark_ready ∷ activate ∷ continue ∷ []) (omega arith) (omega arith) made
      (ground arith)

-- A task that fails its verification once.
abbrev commands : List TaskCommand
commands =
    dependencies_satisfied
    ∷ lease
    ∷ start
    ∷ submit_candidate
    ∷ verification_failed true
    ∷ lease
    ∷ start
    ∷ submit_candidate
    ∷ verification_passed true
    ∷ []

completed_needs_gates_example :
    Sublist (start ∷ submit_candidate ∷ verification_passed true ∷ []) commands
unfolding Task.new Task.run Task.apply
completed_needs_gates_example = completed_needs_gates commands refl

try_from-append_amendment_example :
    let r : RequestRecord = Request.new objective [] in
    let (result, after) = append_amendment (66 ∷ []) 9 r in
    (Request.try_from after ≡ ok after)
    × (((result ≡ ok tt)
          × (after.amendments
              ≡ r.amendments
                ++ record { sequence = length r.amendments + 1; text = 66 ∷ []; received_at = 9 }
                  ∷ []))
        ⊎ ((result ≡ err too_many_amendments) × (4294967295 ≤ length r.amendments) × (after ≡ r)))
unfolding Request.new Request.try_from
try_from-append_amendment_example =
    try_from-append_amendment (Request.new objective []) (66 ∷ []) 9 refl

abbrev leased : Lease
leased = record {
  id = 1;
  task_id = 2;
  owner = 3;
  acquired_at_unix_millis = pos 1000;
  expires_at_unix_millis = pos 1500;
  safety = idempotent;
}

heartbeat-expired_example :
    ((heartbeat (pos 1600) (pos 500) leased).0 ≡ err expired)
    ↔ (reconcile leased (pos 1600) ≢ LeaseReconciliation.active)
heartbeat-expired_example = heartbeat-expired leased (pos 1600) (pos 500)

-- One critical fact of its own, another that a model advises, and a harmless one.
abbrev input : RoutingInput
input = record {
  facts =
      record { category = secrets; path_backed = false; source = user }
      ∷ record { category = protocol; path_backed = true; source = model_advisory }
      ∷ record { category = documentation; path_backed = true; source = deterministic }
      ∷ [];
  preference = auto;
  critical_downgrade_approval = none;
}

route_quick_test : (route_workflow input).mode ≡ WorkflowMode.quick
unfolding route_workflow
route_quick_test = refl

route_full_iff_example : ((route_workflow input).mode ≡ WorkflowMode.full) ↔ NeedsFull input
route_full_iff_example = route_full_iff input

route_workflow-drop_advice_example :
    let d = route_workflow input in
    let d' = route_workflow (record input { facts = drop_advice input.facts }) in
    (d'.mode ≡ d.mode)
    × (d'.critical_categories ≡ d.critical_categories)
    × (d'.downgrade_approval_required ≡ d.downgrade_approval_required)
    × (d'.downgrade_approval ≡ d.downgrade_approval)
route_workflow-drop_advice_example = route_workflow-drop_advice input
