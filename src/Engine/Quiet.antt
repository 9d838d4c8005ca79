-- ===== src/Engine/Quiet.antt =====
-- What the work of a step leaves alone: the steps, and the status of every execution.
use agentic_ai_platform.Prelude.{
  ℕ, ◌≤◌, ◌<◌, ◌≡◌, refl, sym, ◌∙◌, ap, subst, Option, none, some, String, nat_eq, inl, inr,
  Option-cases, arith,
}
use agentic_ai_platform.Prelude.Dict.{Dict, lookup, put, lookup-put}
use agentic_ai_platform.Value.{Fields}
use agentic_ai_platform.Schemas.{
  Execution, ExecutionStatus, ToolCall, StepResult, ActionProposal, PolicyEvaluation, Approval,
  ExecutionPlan, ExecutionContext,
}
use agentic_ai_platform.Repository
use agentic_ai_platform.Exec.{
  reads, key_error, World, ok, err, pure, saves, updates, uuid4, now_utc, next_call, if_some, ◌>>=◌,
}
use agentic_ai_platform.Exec.Keeps.{Keeps, IsPreorder}
use agentic_ai_platform.Engine.Ready.{append_timeline}
use agentic_ai_platform.Engine.Trace.{get_execution, update_execution, append_row}

-- Every execution is stored under its identifier, which `uuid4` has given out.
pub record IsWellFormed (w : World) : Type 0 where
  pub keyed : (k : ℕ) (e : Execution) → lookup k w.executions ≡ some e → e.execution_id ≡ k
  pub given : (k : ℕ) (e : Execution) → lookup k w.executions ≡ some e → k < w.next_uuid

abbrev pub status_in : Option Execution → Option ExecutionStatus
status_in none = none
status_in (some e) = some e.status

-- The status of an execution, where there is one.
unfoldable pub status_of : ℕ → World → Option ExecutionStatus
status_of k w = status_in (lookup k w.executions)

-- The change of the executions that a world allows.
pub record Settled (w w' : World) : Type 0 where
  pub formed : IsWellFormed w'
  pub unmoved : (k : ℕ) → status_of k w' ≡ status_of k w

pub record Quiet (w w' : World) : Type 0 where
  pub steps_same : w'.steps ≡ w.steps
  pub settled : IsWellFormed w → Settled w w'

pub Quiet-IsPreorder : IsPreorder Quiet
Quiet-IsPreorder = record {
  stay =
      λ w. record { steps_same = refl; settled = λ f. record { formed = f; unmoved = λ k. refl } };
  chain = λ u v w p q. record {
    steps_same = q.steps_same ∙ p.steps_same;
    settled = λ f.
        let s = p.settled f in
        let t = q.settled s.formed in
        record { formed = t.formed; unmoved = λ k. t.unmoved k ∙ s.unmoved k };
  };
}

-- A change of another table, of the clock or of the counters is quiet.
module _ (w w' : World) where
  aside :
      w'.steps ≡ w.steps → w'.executions ≡ w.executions → w.next_uuid ≤ w'.next_uuid → Quiet w w'
  unfolding status_of
  aside hs he hu = record {
    steps_same = hs;
    settled = λ f. record {
      formed = record {
        keyed = λ k e h. f.keyed k e (ap (lookup k) (sym he) ∙ h);
        given =
            λ k e h. let old = f.given k e (ap (lookup k) (sym he) ∙ h) in omega (arith, old, hu);
      };
      unmoved = λ k. ap (λ d. status_in (lookup k d)) he;
    };
  }

-- The actions that change none of the two tables.
pub Quiet-uuid4 : Keeps Quiet uuid4
unfolding uuid4
Quiet-uuid4 = record { at = λ w. aside w (uuid4 w).1 refl refl (omega arith) }

pub Quiet-now_utc : (readings : ℕ → ℕ) → Keeps Quiet (now_utc readings)
unfolding now_utc
Quiet-now_utc readings = record { at = λ w. aside w (now_utc readings w).1 refl refl (omega arith) }

pub Quiet-next_call : Keeps Quiet next_call
unfolding next_call
Quiet-next_call = record { at = λ w. aside w (next_call w).1 refl refl (omega arith) }

-- A save into another table.
module _ (f : Repository.Repository → Repository.Repository) where
  Quiet-saves :
      ((r : Repository.Repository) → (f r).steps ≡ r.steps)
      → ((r : Repository.Repository) → (f r).executions ≡ r.executions)
      → Keeps Quiet (saves f)
  unfolding saves
  Quiet-saves hs he = record {
    at = λ w. aside w (saves f w).1 (hs w.repo) (he w.repo) (omega arith);
  }

pub Quiet-save_tool_call : (c : ToolCall) → Keeps Quiet (saves (Repository.save_tool_call c))
unfolding Repository.save_tool_call
Quiet-save_tool_call c = Quiet-saves (Repository.save_tool_call c) (λ r. refl) (λ r. refl)

pub Quiet-save_step_result : (x : StepResult) → Keeps Quiet (saves (Repository.save_step_result x))
unfolding Repository.save_step_result
Quiet-save_step_result x = Quiet-saves (Repository.save_step_result x) (λ r. refl) (λ r. refl)

pub Quiet-save_action_proposal :
    (p : ActionProposal) → Keeps Quiet (saves (Repository.save_action_proposal p))
unfolding Repository.save_action_proposal
Quiet-save_action_proposal p =
    Quiet-saves (Repository.save_action_proposal p) (λ r. refl) (λ r. refl)

pub Quiet-save_policy_evaluation :
    (p : PolicyEvaluation) → Keeps Quiet (saves (Repository.save_policy_evaluation p))
unfolding Repository.save_policy_evaluation
Quiet-save_policy_evaluation p =
    Quiet-saves (Repository.save_policy_evaluation p) (λ r. refl) (λ r. refl)

pub Quiet-save_approval : (a : Approval) → Keeps Quiet (saves (Repository.save_approval a))
unfolding Repository.save_approval
Quiet-save_approval a = Quiet-saves (Repository.save_approval a) (λ r. refl) (λ r. refl)

pub Quiet-save_plan : (p : ExecutionPlan) → Keeps Quiet (saves (Repository.save_plan p))
unfolding Repository.save_plan
Quiet-save_plan p = Quiet-saves (Repository.save_plan p) (λ r. refl) (λ r. refl)

pub Quiet-save_context : (c : ExecutionContext) → Keeps Quiet (saves (Repository.save_context c))
unfolding Repository.save_context
Quiet-save_context c = Quiet-saves (Repository.save_context c) (λ r. refl) (λ r. refl)

-- One execution overwritten by another of the same identifier and status.
pub status-put :
    (j k : ℕ) (e e' : Execution) (d : Dict Execution)
    → lookup k d ≡ some e
    → e'.status ≡ e.status
    → status_in (lookup j (put k e' d)) ≡ status_in (lookup j d)
status-put j k e e' d h s = ground (arith, lookup-put k j e' d)

-- The world after `update_execution`, where the row is there.
abbrev pub with_execution : Execution → World → World
with_execution e w = record w {
  repo = record w.repo { executions = put e.execution_id e w.executions };
}

pub with_execution-IsWellFormed :
    (k : ℕ) (e e' : Execution) (w : World)
    → lookup k w.executions ≡ some e
    → e'.execution_id ≡ k
    → IsWellFormed w
    → IsWellFormed (with_execution e' w)
with_execution-IsWellFormed k e e' w h hk f = record {
  keyed = λ j x hx.
      let split = lookup-put e'.execution_id j e' w.executions in
      let old = f.keyed j x in ground (arith, split, old, hx, hk);
  given = λ j x hx.
      let split = lookup-put e'.execution_id j e' w.executions in
      let old = f.given j x in let here = f.given k e h in ground (arith, split, old, hx, hk, here);
}

pub update_execution-runs :
    (e old : Execution) (w : World)
    → lookup e.execution_id w.executions ≡ some old
    → update_execution e w ≡ (ok tt, with_execution e w)
unfolding update_execution updates Repository.update_execution
update_execution-runs e old w h =
    rw (update_execution, updates, Repository.update_execution, h) refl

pub update_execution-raises :
    (e : Execution) (w : World)
    → lookup e.execution_id w.executions ≡ none
    → update_execution e w ≡ (err key_error, w)
unfolding update_execution updates Repository.update_execution
update_execution-raises e w h = rw (update_execution, updates, Repository.update_execution, h) refl

-- `update_execution` in a relation: it raises and changes nothing, or stores the row.
pub update_execution-cases :
    (e : Execution) (w : World) (P : World → Type 0)
    → P w
    → ((old : Execution) → lookup e.execution_id w.executions ≡ some old → P (with_execution e w))
    → P (update_execution e w).1
update_execution-cases e w P missing found =
    elim (Option-cases (lookup e.execution_id w.executions)) [
      | inl h ↦ subst (λ r. P r.1) (sym (update_execution-raises e w h)) missing
      | inr (old, h) ↦ subst (λ r. P r.1) (sym (update_execution-runs e old w h)) (found old h)
    ]

-- Storing an execution with another timeline, other times and another input is quiet.
pub update_execution-Quiet :
    (k : ℕ) (e e' : Execution) (w : World)
    → lookup k w.executions ≡ some e
    → e'.execution_id ≡ e.execution_id
    → e'.status ≡ e.status
    → Quiet w (update_execution e' w).1
unfolding status_of
update_execution-Quiet k e e' w h hid hs =
    update_execution-cases e' w (Quiet w) (Quiet-IsPreorder.stay w) λ old ho. record {
      steps_same = refl;
      settled = λ f.
          let key = f.keyed k e h in
          let here : lookup e'.execution_id w.executions ≡ some e =
            ap (λ j. lookup j w.executions) (hid ∙ key) ∙ h in
          record {
            formed = with_execution-IsWellFormed e'.execution_id e e' w here refl f;
            unmoved = λ j. status-put j e'.execution_id e e' w.executions here hs;
          };
    }

pub Quiet-append_row :
    (id : ℕ) (event_type : String) (detail : Fields) (now : ℕ)
    → Keeps Quiet (append_row id event_type detail now)
unfolding append_row get_execution Repository.get_execution reads pure ◌>>=◌ if_some append_timeline
Quiet-append_row id event_type detail now = record {
  at = λ w. elim (Option-cases (lookup id w.executions)) [
    | inl h ↦ rw h (Quiet-IsPreorder.stay w)
    | inr (e, h) ↦
        rw h (update_execution-Quiet id e (append_timeline e event_type detail now) w h refl refl)
  ];
}

pub ruleset quiet_rules = (
  Quiet-uuid4, Quiet-now_utc, Quiet-next_call, Quiet-save_tool_call, Quiet-save_step_result,
  Quiet-save_action_proposal, Quiet-save_policy_evaluation, Quiet-save_approval, Quiet-save_plan,
  Quiet-save_context, Quiet-append_row,
)
