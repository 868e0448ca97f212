-- ===== src/Core/Architecture/Texts.antt =====
-- crates/workflow-core/src/architecture.rs: the checks of each requirement and each task.
use google_antigravity_cycle.Prelude.{
  Option-cases, Bool-cases, All-map, Result-cases, inl, inr, ◌≡◌, true, false, none, List, [], ◌∷◌,
  All, ok, arith,
}
use google_antigravity_cycle.Prelude.Text.{Text, text_eq_iff}
use google_antigravity_cycle.Prelude.Maps.{insert, text_equality}
use google_antigravity_cycle.Prelude.Checks.{has_text}
use google_antigravity_cycle.Core.Architecture.Coverage.{Distinct, All-has_text}
use google_antigravity_cycle.Core.Architecture.{
  Requirement, PlannedTask, Index, validate_texts, valid_text, valid_key, is_empty,
  check_requirement, check_task, index_requirements, link_tasks, link_requirements, insert_key,
}

abbrev pub AllTexts : List Text → Type 0
AllTexts = All (λ t. valid_text t ≡ true)

pub record IsWritten (r : Requirement) : Type 0 where
  pub id : valid_key r.id ≡ true
  pub statement : valid_text r.statement ≡ true
  pub some_criteria : is_empty r.acceptance_criteria ≡ false
  pub criteria : AllTexts r.acceptance_criteria

pub record IsPrepared (t : PlannedTask) : Type 0 where
  pub title : valid_text t.title ≡ true
  pub objective : valid_text t.objective ≡ true
  pub some_requirement : is_empty t.requirement_ids ≡ false
  pub linked_once : Distinct t.requirement_ids
  pub some_criteria : is_empty t.acceptance_criteria ≡ false
  pub criteria : AllTexts t.acceptance_criteria
  pub some_command : is_empty t.verification_commands ≡ false
  pub commands : AllTexts t.verification_commands

pub validate_texts-none : (values : List Text) → validate_texts values ≡ none → AllTexts values
unfolding validate_texts
validate_texts-none [] h = tt
validate_texts-none (v ∷ vs) h = (ground arith, validate_texts-none vs (ground arith))

check_requirement-none :
    (index : Index) (r : Requirement) → check_requirement index r ≡ none → IsWritten r
unfolding check_requirement
check_requirement-none index r h =
    let texts : validate_texts r.acceptance_criteria ≡ none = ground arith in
    record {
      id = ground arith;
      statement = ground arith;
      some_criteria = ground arith;
      criteria = validate_texts-none r.acceptance_criteria texts;
    }

-- No identifier is linked twice, or again after those before.
linked_once :
    (is linked : List Text) (index final : Index)
    → link_requirements is linked index ≡ ok final
    → Distinct is × All (λ i. has_text i linked ≡ false) is
unfolding link_requirements
linked_once [] linked index final h = (tt, tt)
linked_once (i ∷ is) linked index final h =
    let (distinct, others) =
      linked_once is (i ∷ linked) (insert i true index) final (ground arith) in
    (
      (
        elim (Bool-cases (has_text i is)) [
          | inr n ↦ n
          | inl y ↦
              let again : has_text i (i ∷ linked) ≡ false =
                All-has_text (λ k. has_text k (i ∷ linked) ≡ false) is i others y in
              absurd (ground (arith, again, text_eq_iff i i))
        ],
        distinct,
      ),
      (ground arith, All-map (λ k n. ground arith) is others),
    )

check_task-none :
    (t : PlannedTask) (index final : Index)
    → check_task t ≡ none
    → link_requirements t.requirement_ids [] index ≡ ok final
    → IsPrepared t
unfolding check_task
check_task-none t index final h k =
    let criteria : validate_texts t.acceptance_criteria ≡ none = ground arith in
    let commands : validate_texts t.verification_commands ≡ none = ground arith in
    record {
      title = ground arith;
      objective = ground arith;
      some_requirement = ground arith;
      linked_once = (linked_once t.requirement_ids [] index final k).0;
      some_criteria = ground arith;
      criteria = validate_texts-none t.acceptance_criteria criteria;
      some_command = ground arith;
      commands = validate_texts-none t.verification_commands commands;
    }

pub index_requirements-IsWritten :
    (rs : List Requirement) (before index : Index)
    → index_requirements rs before ≡ ok index
    → All IsWritten rs
unfolding index_requirements
index_requirements-IsWritten [] before index h = tt
index_requirements-IsWritten (r ∷ rs) before index h = (
  check_requirement-none before r (ground arith),
  index_requirements-IsWritten rs (insert_key r.id false before) index (ground arith),
)

pub link_tasks-IsPrepared :
    (ts : List PlannedTask) (before index : Index)
    → link_tasks ts before ≡ ok index
    → All IsPrepared ts
unfolding link_tasks
link_tasks-IsPrepared [] before index h = tt
link_tasks-IsPrepared (t ∷ ts) before index h = elim (Option-cases (check_task t)) [
  | inr (e, p) ↦ absurd (ground (arith, p))
  | inl p ↦ elim (Result-cases (link_requirements t.requirement_ids [] before)) [
    | inr (e, q) ↦ absurd (ground (arith, p, q))
    | inl (middle, q) ↦ (
      check_task-none t before middle p q,
      link_tasks-IsPrepared ts middle index (ground (arith, p, q)),
    )
  ]
]
