-- ===== src/Feedback/Listing.antt =====
-- What a submission leaves to be read and listed.
use agentic_ai_platform.Prelude.{
  ℕ, ◌≡◌, ◌≢◌, refl, ◌∙◌, true, ◌&&◌, some, ◌==◌, nat_eq, nat_beq_iff, keep, any, any-keep, All,
  All-keep, arith,
}
use agentic_ai_platform.Prelude.Dict.{lookup-put, lookup-put_self, any-put}
use agentic_ai_platform.Prelude.Order.{any-sort, All-sort, sort-IsSorted, IsSorted}
use agentic_ai_platform.Feedback.{
  FeedbackRepository, Submission, submit_operator_feedback, save_operator_feedback,
  get_operator_feedback, list_operator_feedback_for_execution,
}

same_number : (n : ℕ) → (n == n) ≡ true
same_number n = (nat_beq_iff n n).1 refl

-- A submission under an identifier is read back under it, and is in the list of its execution, which
-- holds feedback of this execution alone, in the order of creation; every other record is as it was.
pub submit_operator_feedback_lem :
    (s : Submission) (id ts : ℕ) (r : FeedbackRepository)
    → let (x, r') = submit_operator_feedback s id ts r in
      let listed = list_operator_feedback_for_execution s.execution_id r' in
      (get_operator_feedback id r' ≡ some x)
      × (any (λ y. y.feedback_record_id == id) listed ≡ true)
      × All (λ y. y.execution_id ≡ s.execution_id) listed
      × IsSorted (λ y. y.created_at) listed
      × ((k : ℕ) → k ≢ id → get_operator_feedback k r' ≡ get_operator_feedback k r)
unfolding submit_operator_feedback save_operator_feedback get_operator_feedback
    list_operator_feedback_for_execution
submit_operator_feedback_lem s id ts r =
    let (x, r') = submit_operator_feedback s id ts r in
    (
      lookup-put_self id x r.operator,
      any-sort _ (λ y. y.feedback_record_id == id) (keep (λ y. y.execution_id == s.execution_id) _)
          ∙ (any-keep (λ y. y.feedback_record_id == id) (λ y. y.execution_id == s.execution_id) _
              ∙ any-put (λ y. y.execution_id == s.execution_id && y.feedback_record_id == id) id x
                  r.operator (rw (same_number s.execution_id) (same_number id))),
      All-sort _ _ _ (
          All-keep (λ y. y.execution_id == s.execution_id) _
            λ y. (nat_beq_iff y.execution_id s.execution_id).0),
      sort-IsSorted (λ y. y.created_at) _,
      λ k other. ground (arith, lookup-put id k x r.operator, other),
    )
