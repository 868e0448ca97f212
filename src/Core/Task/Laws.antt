-- ===== src/Core/Task/Laws.antt =====
-- crates/workflow-core/src/task.rs: attempts, gates, and the ends of a task.
use google_antigravity_cycle.Prelude.{
  ℕ, ◌+◌, ◌≤◌, ◌≡◌, ◌⊎◌, inl, inr, true, List, [], ◌∷◌, Result, ok, err, arith, min, saturating_add,
}
use mathlib.Core.List.{Sublist, Sublistᴰ, cons-sublist-cons, sublist_of_cons-sublist}
use mathlib.Core.Logic.{∥∥₁_map}
use google_antigravity_cycle.Core.Workflow.{TransitionError, invalid_transition}
use google_antigravity_cycle.Core.Task.{
  Task, TaskState, TaskCommand, TaskEvent, apply, run, new, is_terminal, max_u32, start,
  submit_candidate, verification_passed, completed, running, verifying,
}

abbrev started : Result (List TaskEvent) TransitionError → TaskCommand → ℕ
started (ok _) TaskCommand.start = 1
started _ _ = 0

-- How many starts were accepted.
pub starts : Task → List TaskCommand → ℕ
starts t [] = 0
starts t (c ∷ cs) = started (apply c t).0 c + starts (apply c t).1 cs

attempts-apply :
    (c : TaskCommand) (t : Task)
    → t.attempts ≤ max_u32
    → (apply c t).1.attempts ≡ saturating_add max_u32 t.attempts (started (apply c t).0 c)
unfolding apply
attempts-apply c t h = ground arith

-- The attempts of a task after some commands are those before and the starts that were accepted, up
-- to the largest `u32`, if those before are.
pub attempts-run :
    (cs : List TaskCommand) (t : Task)
    → t.attempts ≤ max_u32
    → (run t cs).attempts ≡ min max_u32 (t.attempts + starts t cs)
unfolding run starts
attempts-run [] t h = ground arith
attempts-run (c ∷ cs) t h = ground (arith, attempts-apply c t h, attempts-run cs (apply c t).1)

-- An error leaves the task as it was, and what it says is that the command or the gates are wrong.
pub apply_error_unchanged :
    (c : TaskCommand) (t : Task) (e : TransitionError) → (apply c t).0 ≡ err e → (apply c t).1 ≡ t
unfolding apply
apply_error_unchanged c t e h = ground arith

-- A completed, failed or cancelled task refuses every command.
pub terminal_refuses :
    (c : TaskCommand) (t : Task)
    → is_terminal t.state ≡ true
    → apply c t ≡ (err invalid_transition, t)
unfolding apply
terminal_refuses c t h = ground arith

-- The commands that a task still has to be given before it is completed.
abbrev remaining : TaskState → List TaskCommand
remaining completed = []
remaining verifying = verification_passed true ∷ []
remaining running = submit_candidate ∷ verification_passed true ∷ []
remaining _ = start ∷ submit_candidate ∷ verification_passed true ∷ []

-- A command takes itself off that list, or puts some back, or leaves it.
remaining-apply :
    (c : TaskCommand) (t : Task)
    → let now = remaining t.state in
      let after = remaining (apply c t).1.state in
      (now ≡ after)
      ⊎ (now ≡ c ∷ after)
      ⊎ (after ≡ start ∷ now)
      ⊎ (after ≡ submit_candidate ∷ now)
      ⊎ (after ≡ start ∷ submit_candidate ∷ now)
unfolding apply
remaining-apply c t = ground arith

sublist-cons : {c : TaskCommand} {xs ys : List TaskCommand} → Sublist xs ys → Sublist xs (c ∷ ys)
sublist-cons h = ∥∥₁_map h Sublistᴰ.cons

shorter :
    (c : TaskCommand) (cs now after : List TaskCommand)
    → (now ≡ after)
      ⊎ (now ≡ c ∷ after)
      ⊎ (after ≡ start ∷ now)
      ⊎ (after ≡ submit_candidate ∷ now)
      ⊎ (after ≡ start ∷ submit_candidate ∷ now)
    → Sublist after cs
    → Sublist now (c ∷ cs)
shorter c cs now after (inl e) h = rw e (sublist-cons h)
shorter c cs now after (inr (inl e)) h = rw e (cons-sublist-cons.1 h)
shorter c cs now after (inr (inr (inl e))) h = sublist-cons (sublist_of_cons-sublist (rw e at h))
shorter c cs now after (inr (inr (inr (inl e)))) h =
    sublist-cons (sublist_of_cons-sublist (rw e at h))
shorter c cs now after (inr (inr (inr (inr e)))) h =
    sublist-cons (sublist_of_cons-sublist (sublist_of_cons-sublist (rw e at h)))

completed_needs_rest :
    (cs : List TaskCommand) (t : Task)
    → (run t cs).state ≡ completed
    → Sublist (remaining t.state) cs
unfolding run
completed_needs_rest [] t done = rw done (∣ Sublistᴰ.slnil ∣₁)
completed_needs_rest (c ∷ cs) t done =
    shorter c cs (remaining t.state) (remaining (apply c t).1.state) (remaining-apply c t)
      (completed_needs_rest cs (apply c t).1 done)

-- A new task that ends up completed has been started, then had a candidate submitted, then passed its
-- verification with the mandatory gates passed: the three commands stand among its commands in
-- this order.
pub completed_needs_gates :
    (cs : List TaskCommand)
    → (run new cs).state ≡ completed
    → Sublist (start ∷ submit_candidate ∷ verification_passed true ∷ []) cs
unfolding new
completed_needs_gates cs done = completed_needs_rest cs _ done
