-- ===== src/Core/Goal/Persistence.antt =====
-- crates/workflow-core/src/goal.rs: which goals are read back from what was written.
use google_antigravity_cycle.Prelude.{
  ℕ, zero, suc, ◌+◌, ◌≤◌, ◌<◌, ◌≡◌, ◌↔◌, ◌≢◌, ◌||◌, All, false, none, some, List, [], ◌∷◌, ◌++◌, ok,
  err, arith, refl, sym, ◌∙◌, replicate,
}
use google_antigravity_cycle.Prelude.Text.{Text}
use google_antigravity_cycle.Core.Request
use google_antigravity_cycle.Core.Request.Laws.{try_from-new}
use google_antigravity_cycle.Core.Goal.{
  Goal, GoalCommand, apply, run, new, deserialize, validate_objective, validate_items, ◌is◌,
  invalid_field, active, blocked, aborted, start_planning, mark_ready, activate, resume_blocked,
  continue,
}
use google_antigravity_cycle.Core.Goal.Invariant.{IsValid, new-IsValid, apply-IsValid, run-IsValid}

-- The texts of a goal and its request are those that deserialisation accepts.
pub record IsReadable (g : Goal) : Type 0 where
  pub request : Request.try_from g.request ≡ ok g.request
  pub objective : validate_objective g.request.original_text ≡ none
  pub criteria : validate_items g.success_criteria ≡ none
  pub constraints : validate_items g.constraints ≡ none
  pub non_goals : validate_items g.non_goals ≡ none

pub new-IsReadable :
    (objective : Text) (criteria constraints non_goals : List Text) (n : ℕ) {g : Goal}
    → new objective criteria constraints non_goals n ≡ ok g
    → IsReadable g
unfolding new
new-IsReadable objective criteria constraints non_goals n h =
    ground (arith, try_from-new objective [])

pub apply-IsReadable : (c : GoalCommand) (g : Goal) → IsReadable g → IsReadable (apply c g).1
unfolding apply
apply-IsReadable c g r = ground arith

deserialize_iff :
    (g : Goal)
    → IsValid g
    → IsReadable g
    → (deserialize g ≡ ok g) ↔ (g.continuations ≤ g.max_continuations)
unfolding deserialize
deserialize_iff g v r = (λ h. ground (arith, r.request), λ h. ground (arith, r.request))

deserialize_past :
    (g : Goal)
    → IsReadable g
    → g.max_continuations < g.continuations
    → deserialize g ≡ err invalid_field
unfolding deserialize
deserialize_past g r h = ground (arith, r.request)

-- The limit does not stay in force: an active goal, valid and with texts that
-- are accepted, at a maximum below 255 records one continuation more,
-- is blocked, and what is written of it is refused when it is read back.
pub continue_past_limit :
    (g : Goal)
    → IsValid g
    → IsReadable g
    → g.state ≡ active
    → g.continuations ≡ g.max_continuations
    → g.max_continuations < 255
    → ((apply continue g).1.continuations ≡ g.max_continuations + 1)
      × ((apply continue g).1.state ≡ blocked)
      × (deserialize (apply continue g).1 ≡ err invalid_field)
unfolding apply
continue_past_limit g v r s e small = (
  ground arith,
  ground arith,
  deserialize_past (apply continue g).1 (apply-IsReadable continue g r) (ground arith),
)

-- Room for one continuation more, unless the goal has ended or is blocked.
record HasRoom (g : Goal) : Type 0 where
  capped : g.continuations ≤ g.max_continuations
  room : (g.state is blocked || g.state is aborted) ≡ false → g.continuations < g.max_continuations

apply-HasRoom :
    (c : GoalCommand) (g : Goal)
    → c ≢ resume_blocked
    → IsValid g
    → HasRoom g
    → HasRoom (apply c g).1
unfolding apply
apply-HasRoom resume_blocked g ne v r = absurd (ne refl)
apply-HasRoom _ g ne v r = ground arith

run-HasRoom :
    (cs : List GoalCommand) (g : Goal)
    → All (λ c. c ≢ resume_blocked) cs
    → IsValid g
    → HasRoom g
    → HasRoom (run g cs)
unfolding run
run-HasRoom [] g ne v r = r
run-HasRoom (c ∷ cs) g ne v r =
    run-HasRoom cs (apply c g).1 ne.1 (apply-IsValid c g v) (apply-HasRoom c g ne.0 v r)

run-IsReadable : (cs : List GoalCommand) (g : Goal) → IsReadable g → IsReadable (run g cs)
unfolding run
run-IsReadable [] g r = r
run-IsReadable (c ∷ cs) g r = run-IsReadable cs (apply c g).1 (apply-IsReadable c g r)

new-HasRoom :
    (objective : Text) (criteria constraints non_goals : List Text) (n : ℕ) {g : Goal}
    → 0 < n
    → new objective criteria constraints non_goals n ≡ ok g
    → HasRoom g
unfolding new
new-HasRoom objective criteria constraints non_goals n pos h = ground arith

-- A goal that was made by `new`, with a maximum from 1 to 255, and never resumed from a block is read back unchanged, whatever
-- other commands it was given; its request is checked again as well.
pub deserialize-run :
    (objective : Text) (criteria constraints non_goals : List Text) (n : ℕ) {g : Goal}
    (cs : List GoalCommand)
    → 0 < n
    → n < 256
    → new objective criteria constraints non_goals n ≡ ok g
    → All (λ c. c ≢ resume_blocked) cs
    → deserialize (run g cs) ≡ ok (run g cs)
deserialize-run objective criteria constraints non_goals n {g} cs pos small made ne =
    let v = new-IsValid objective criteria constraints non_goals n pos small made in
    let r = new-IsReadable objective criteria constraints non_goals n made in
    (deserialize_iff (run g cs) (run-IsValid cs g v) (run-IsReadable cs g r)).1
      (run-HasRoom cs g ne v
        (new-HasRoom objective criteria constraints non_goals n pos made)).capped

-- An active goal with `k` continuations left is blocked, at its maximum, after `k` of them.
use_up :
    (k : ℕ) (g : Goal)
    → g.max_continuations < 255
    → g.state ≡ active
    → g.continuations + suc k ≡ g.max_continuations
    → let g' = run g (replicate (suc k) continue) in
      (g'.continuations ≡ g.max_continuations)
      × (g'.max_continuations ≡ g.max_continuations)
      × (g'.state ≡ blocked)
      × (g'.blocked_from ≡ some active)
unfolding run apply
use_up zero g small a e = ground arith
use_up (suc k) g small a e = ground (arith, use_up k (apply continue g).1)

run-append : (cs ds : List GoalCommand) (g : Goal) → run g (cs ++ ds) ≡ run (run g cs) ds
unfolding run
run-append [] ds g = refl
run-append (c ∷ cs) ds g = run-append cs ds (apply c g).1

-- The commands that take a draft with a maximum of `n` past it.
abbrev pub past_limit : ℕ → List GoalCommand
past_limit n =
    start_planning
    ∷ mark_ready
    ∷ activate
    ∷ (replicate n continue ++ resume_blocked ∷ continue ∷ [])

resumed_past_limit :
    (g : Goal)
    → g.state ≡ blocked
    → g.blocked_from ≡ some active
    → g.continuations ≡ g.max_continuations
    → g.max_continuations < 255
    → let g' = run g (resume_blocked ∷ continue ∷ []) in
      (g'.continuations ≡ g.max_continuations + 1) × (g'.max_continuations ≡ g.max_continuations)
unfolding run apply
resumed_past_limit g s b e small = ground arith

run-past_limit :
    (g : Goal) (n : ℕ)
    → run g (past_limit n)
      ≡ run
          (run (run g (start_planning ∷ mark_ready ∷ activate ∷ [])) (replicate n continue))
          (resume_blocked ∷ continue ∷ [])
run-past_limit g n =
    run-append (start_planning ∷ mark_ready ∷ activate ∷ [])
      (replicate n continue ++ resume_blocked ∷ continue ∷ []) g
    ∙ run-append (replicate n continue) (resume_blocked ∷ continue ∷ [])
        (run g (start_planning ∷ mark_ready ∷ activate ∷ []))

activated :
    (objective : Text) (criteria constraints non_goals : List Text) (n : ℕ) {g : Goal}
    → new objective criteria constraints non_goals n ≡ ok g
    → let a = run g (start_planning ∷ mark_ready ∷ activate ∷ []) in
      (a.state ≡ active) × (a.continuations ≡ 0) × (a.max_continuations ≡ n)
unfolding new run apply
activated objective criteria constraints non_goals n h = ground arith

-- For every maximum from 1 to 254 there are commands after which a goal made by `new` has passed its
-- maximum, and deserialisation refuses what is written of it as an invalid field.
pub unreadable_goal :
    (objective : Text) (criteria constraints non_goals : List Text) (n : ℕ) {g : Goal}
    → n < 254
    → new objective criteria constraints non_goals (suc n) ≡ ok g
    → let g' = run g (past_limit (suc n)) in
      (g'.max_continuations < g'.continuations) × (deserialize g' ≡ err invalid_field)
unreadable_goal objective criteria constraints non_goals n {g} small made =
    let (s, z, m) = activated objective criteria constraints non_goals (suc n) made in
    let a = run g (start_planning ∷ mark_ready ∷ activate ∷ []) in
    let (c, mx, st, fr) = use_up n a (omega arith) s (omega arith) in
    let b = run a (replicate (suc n) continue) in
    let (past, same) = resumed_past_limit b st fr (c ∙ sym mx) (omega arith) in
    let r = new-IsReadable objective criteria constraints non_goals (suc n) made in
    let beyond : (run g (past_limit (suc n))).max_continuations
        < (run g (past_limit (suc n))).continuations =
      rw run-past_limit (omega arith) in
    (
      beyond,
      deserialize_past (run g (past_limit (suc n))) (run-IsReadable (past_limit (suc n)) g r)
          beyond,
    )
