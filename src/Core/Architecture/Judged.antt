-- ===== src/Core/Architecture/Judged.antt =====
-- crates/workflow-core/src/architecture.rs: what `ArchitecturePlan::validate` returns.
use google_antigravity_cycle.Prelude.{
  ◌≡◌, ◌≤◌, true, false, Option, none, some, [], if◌then◌else◌, length, is_some, All, Result, ok,
  err, arith, refl,
}
use google_antigravity_cycle.Prelude.Text.{Text}
use google_antigravity_cycle.Prelude.Maps.{get, text_equality}
use google_antigravity_cycle.Prelude.Checks.{
  ◌and_then◌, and_then-eq-none, reject_if, reject_if-eq-none, has_text,
}
use google_antigravity_cycle.Core.Dag.{TaskDag, DagError, Nodes, validate}
use google_antigravity_cycle.Core.Dag.Sound.{
  IsPlan, Validated, accepted, no_order, refused, validate-Validated,
}
use google_antigravity_cycle.Core.Architecture.{
  ArchitecturePlan, ArchitectureError, Index, Outcome, index_requirements, link_tasks, nodes_of,
  uncovered, check_limits, check_lists, finish, after_graph, after_links, after_requirements,
  after_lists, validate_plan, max_items, is_empty, empty_integration_checks, validate_texts,
}
use google_antigravity_cycle.Core.Architecture.Texts.{
  AllTexts, IsWritten, IsPrepared, validate_texts-none, index_requirements-IsWritten,
  link_tasks-IsPrepared,
}
use google_antigravity_cycle.Core.Architecture.Coverage.{
  requirement_ids, is_covered, Distinct, Indexed, index_requirements-Indexed, link_tasks-ok,
  all_covered, known_requirements, own_ids,
}

-- A plan that can be carried out: with requirements, tasks and checks of the whole, within the limits,
-- each requirement and task with what it needs, each requirement named once and covered by a task, each
-- task linked to known requirements, and tasks that make a graph that can be worked on.
pub record IsComplete (p : ArchitecturePlan) : Type 0 where
  pub some_requirements : is_empty p.requirements ≡ false
  pub some_tasks : is_empty p.tasks ≡ false
  pub some_checks : is_empty p.integration_checks ≡ false
  pub requirements_capped : length p.requirements ≤ max_items
  pub tasks_capped : length p.tasks ≤ max_items
  pub assumptions_capped : length p.assumptions ≤ max_items
  pub risks_capped : length p.risks ≤ max_items
  pub checks_capped : length p.integration_checks ≤ max_items
  pub assumptions_valid : AllTexts p.assumptions
  pub risks_valid : AllTexts p.risks
  pub checks_valid : AllTexts p.integration_checks
  pub written : All IsWritten p.requirements
  pub prepared : All IsPrepared p.tasks
  pub distinct : Distinct (requirement_ids p.requirements)
  pub covered : All (λ r. is_covered r.id p.tasks ≡ true) p.requirements
  pub linked :
      All
        (λ t. All (λ i. has_text i (requirement_ids p.requirements) ≡ true) t.requirement_ids)
        p.tasks
  pub graph :
      (d : TaskDag) × (validate (nodes_of p.tasks) ≡ some (ok d)) × IsPlan (nodes_of p.tasks) d

-- What `ArchitecturePlan::validate` may return.
pub data Judged (p : ArchitecturePlan) : Outcome → Type 0 where
  complete : IsComplete p → Judged p (some (ok p))
  rejected : {e : ArchitectureError} → Judged p (some (err e))

-- What `TaskDag::validate` has shown.
abbrev Shown : Nodes → Option (Result TaskDag DagError) → Type 0
Shown nodes none = ⊥
Shown nodes (some (err e)) = Unit {0}
Shown nodes (some (ok d)) = IsPlan nodes d

shown : {nodes : Nodes} {o : Option (Result TaskDag DagError)} → Validated nodes o → Shown nodes o
shown (accepted plan) = plan
shown (no_order h) = tt
shown (refused h) = tt

-- What the checks before the loops have shown of the lists.
record Limited (p : ArchitecturePlan) : Type 0 where
  limits : check_limits p ≡ none
  some_checks : is_empty p.integration_checks ≡ false
  assumptions_valid : AllTexts p.assumptions
  risks_valid : AllTexts p.risks
  checks_valid : AllTexts p.integration_checks

limited : (p : ArchitecturePlan) → check_lists p ≡ none → Limited p
unfolding check_lists
limited p h =
    let some_check = reject_if (is_empty p.integration_checks) empty_integration_checks in
    let texts = validate_texts p.integration_checks in
    let (a, b) =
      and_then-eq-none (check_limits p)
        (validate_texts p.assumptions
          and_then validate_texts p.risks
          and_then some_check
          and_then texts)
        h in
    let (c, d) =
      and_then-eq-none (validate_texts p.assumptions)
        (validate_texts p.risks and_then some_check and_then texts) b in
    let (e, f) = and_then-eq-none (validate_texts p.risks) (some_check and_then texts) d in
    let (u, v) = and_then-eq-none some_check texts f in
    record {
      limits = a;
      some_checks = reject_if-eq-none (is_empty p.integration_checks) empty_integration_checks u;
      assumptions_valid = validate_texts-none p.assumptions c;
      risks_valid = validate_texts-none p.risks e;
      checks_valid = validate_texts-none p.integration_checks v;
    }

module _ (p : ArchitecturePlan) (index : Index) (start : Indexed p.requirements [] index)
    (written : All IsWritten p.requirements) (lists : check_lists p ≡ none) where
  from_nothing :
      (j : Text)
      → get j index ≡ (if has_text j (requirement_ids p.requirements) then some false else none)
  unfolding get
  from_nothing j = start.entries j

  finish-Judged :
      (final : Index) (d : TaskDag) (o : Option Text)
      → ((j : Text) → get j final ≡ (if is_covered j p.tasks then some true else get j index))
      → All (λ t. All (λ i. is_some (get i index) ≡ true) t.requirement_ids) p.tasks
      → validate (nodes_of p.tasks) ≡ some (ok d)
      → IsPlan (nodes_of p.tasks) d
      → All IsPrepared p.tasks
      → uncovered final ≡ o
      → Judged p (finish p o)
  finish-Judged final d (some i) links known v plan prepared left = rejected
  finish-Judged final d none links known v plan prepared left = complete (record {
    some_requirements = ground (arith, (limited p lists).limits);
    some_tasks = ground (arith, (limited p lists).limits);
    some_checks = (limited p lists).some_checks;
    requirements_capped = ground (arith, (limited p lists).limits);
    tasks_capped = ground (arith, (limited p lists).limits);
    assumptions_capped = ground (arith, (limited p lists).limits);
    risks_capped = ground (arith, (limited p lists).limits);
    checks_capped = ground (arith, (limited p lists).limits);
    assumptions_valid = (limited p lists).assumptions_valid;
    risks_valid = (limited p lists).risks_valid;
    checks_valid = (limited p lists).checks_valid;
    written = written;
    prepared = prepared;
    distinct = start.distinct;
    covered =
        all_covered p.requirements p.requirements p.tasks index final from_nothing links left
          (own_ids p.requirements p.requirements (λ i k. k));
    linked = known_requirements p.requirements p.tasks index from_nothing known;
    graph = (d, v, plan);
  })

  after_graph-Judged :
      (final : Index)
      → ((j : Text) → get j final ≡ (if is_covered j p.tasks then some true else get j index))
      → All (λ t. All (λ i. is_some (get i index) ≡ true) t.requirement_ids) p.tasks
      → All IsPrepared p.tasks
      → (o : Option (Result TaskDag DagError)) → validate (nodes_of p.tasks) ≡ o
      → Shown (nodes_of p.tasks) o
      → Judged p (after_graph p final o)
  unfolding after_graph
  after_graph-Judged final links known prepared none v never = absurd never
  after_graph-Judged final links known prepared (some (err e)) v _ = rejected
  after_graph-Judged final links known prepared (some (ok d)) v plan =
      finish-Judged final d (uncovered final) links known v plan prepared refl

  after_links-Judged :
      (o : Result Index ArchitectureError)
      → link_tasks p.tasks index ≡ o
      → Judged p (after_links p o)
  unfolding after_links after_graph
  after_links-Judged (err e) h = rejected
  after_links-Judged (ok final) h =
      let (links, known) = link_tasks-ok p.tasks index final h in
      after_graph-Judged final links known (link_tasks-IsPrepared p.tasks index final h)
        (validate (nodes_of p.tasks)) refl (shown (validate-Validated (nodes_of p.tasks)))

after_requirements-Judged :
    (p : ArchitecturePlan) (o : Result Index ArchitectureError)
    → check_lists p ≡ none
    → index_requirements p.requirements [] ≡ o
    → Judged p (after_requirements p o)
unfolding after_requirements
after_requirements-Judged p (err e) lists h = rejected
after_requirements-Judged p (ok index) lists h =
    after_links-Judged p index (index_requirements-Indexed p.requirements [] index h)
      (index_requirements-IsWritten p.requirements [] index h) lists (link_tasks p.tasks index) refl

after_lists-Judged :
    (p : ArchitecturePlan) (o : Option ArchitectureError)
    → check_lists p ≡ o
    → Judged p (after_lists p o)
unfolding after_lists
after_lists-Judged p (some e) h = rejected
after_lists-Judged p none h =
    after_requirements-Judged p (index_requirements p.requirements []) h refl

-- `ArchitecturePlan::validate` returns for every plan. The plan that it accepts is the one given: it has
-- requirements, tasks and checks of the whole, at most 256 of each and of assumptions and risks. The
-- texts of assumptions, risks and checks are valid, and each requirement and task has the valid texts,
-- acceptance criteria and, for a task, verification commands that it needs. No two requirements share
-- an identifier, each is covered by a task, each task is linked to known requirements only, and to none
-- twice, and the tasks make a graph that can be worked on.
pub validate_plan-Judged : (p : ArchitecturePlan) → Judged p (validate_plan p)
unfolding validate_plan
validate_plan-Judged p = after_lists-Judged p (check_lists p) refl
