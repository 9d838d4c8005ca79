-- ===== src/Replay/Guarantees.antt =====
-- What `create_replay` guarantees of the source, of the child and of every other execution.
use agentic_ai_platform.Prelude.{
  ℕ, suc, ◌≡◌, refl, sym, ◌∙◌, ap, subst, Bool, true, false, none, some, arith, nat_eq,
  if◌then◌else◌, inl, inr,
}
use agentic_ai_platform.Prelude.Dict.{lookup}
use agentic_ai_platform.Value.{object, get, get-put_self}
use agentic_ai_platform.Schemas.{Execution, ExecutionStatus, execution_status_value}
use agentic_ai_platform.Repository
use agentic_ai_platform.Exec.{World, Result, Error, ok, err, pure, reads, if_some, ◌>>=◌}
use agentic_ai_platform.Env.{Env}
use agentic_ai_platform.Engine.Trace.{get_execution}
use agentic_ai_platform.Engine.Quiet.{IsWellFormed}
use agentic_ai_platform.Engine.Steers.{Advanced, Advances-IsPreorder, Advanced-trans}
use agentic_ai_platform.Engine.Ready.{append_timeline}
use agentic_ai_platform.Service.{start_execution, new_execution}
use agentic_ai_platform.Exec.Returns.{Result-cases}
use agentic_ai_platform.Engine.Progress.{StepsKeyed}
use agentic_ai_platform.Service.Guarantees.{start_execution_lifecycle}
use agentic_ai_platform.Service.Creating.{unused}
use agentic_ai_platform.Replay.{
  ReplayRequest, ReplayProvenance, ReplayCreatedResponse, Admitted, admit, produce, prepare,
  respond, finish, launch, create_replay, Created, replay_provenance_key, dump_provenance, child_of,
  append_replay_created_event, replay_creation,
}
use agentic_ai_platform.Replay.Snapshot.{same_execution_refl}
use agentic_ai_platform.Replay.Checks.{admit-same, admit-source, respond-Unchanged}
use agentic_ai_platform.Replay.Child.{
  stored_row, provenance, after_produce, produce-runs, produce-others, produce-holds,
  after_produce-Advances, after_produce-steps,
}

module _ (env : Env) (q : ReplayRequest) (ts : ℕ) (w : World) where
  prepare-refused : (x : Error) → (admit q w).0 ≡ err x → prepare env q ts w ≡ (err x, w)
  unfolding prepare ◌>>=◌
  prepare-refused x h = rw (h, admit-same q w) refl

  prepare-admitted :
      (a : Admitted) → (admit q w).0 ≡ ok a → prepare env q ts w ≡ produce env q ts a w
  unfolding prepare ◌>>=◌
  prepare-admitted a h = rw (h, admit-same q w) refl

  -- A replay that the checks refuse raises what they raise and changes nothing, whether it was to be
  -- started or not.
  pub create_replay_refused :
      (x : Error) → (admit q w).0 ≡ err x → create_replay env q ts w ≡ some (err x, w)
  unfolding create_replay launch
  create_replay_refused x h = rw (prepare-refused x h) refl

  -- The response where the source reads as it did.
  abbrev pub response : Admitted → Execution → ReplayCreatedResponse
  response a child = record {
    replay_execution_id = child.execution_id;
    source_execution_id = q.source_execution_id;
    status = execution_status_value child.status;
    replay_mode = q.replay_mode;
    provenance = provenance env q ts a w;
  }

  respond-runs :
      (a : Admitted) (child : Execution) (v : World)
      → lookup q.source_execution_id v.executions ≡ some a.source
      → respond q a (provenance env q ts a w) child v ≡ (ok (response a child), v)
  unfolding respond get_execution Repository.get_execution reads pure if_some ◌>>=◌
  respond-runs a child v h = rw h (rw (same_execution_refl a.source) refl)

  module _ (a : Admitted) (passed : (admit q w).0 ≡ ok a) (formed : IsWellFormed w) where
    there : lookup q.source_execution_id w.executions ≡ some a.source
    there = (admit-source q w a passed).0

    kept :
        (k : ℕ) (e : Execution)
        → lookup k w.executions ≡ some e
        → lookup k (produce env q ts a w).1.executions ≡ some e
    kept k e h =
        let below = formed.given k e h in
        produce-others env q ts a w k (λ same. omega (arith, below, same)) ∙ h

    pub create_replay-runs :
        q.start_execution ≡ false
        → create_replay env q ts w
          ≡ some (ok (response a (stored_row env q ts a w)), (produce env q ts a w).1)
    unfolding create_replay launch finish
    create_replay-runs off =
        let same = kept q.source_execution_id a.source there in
        let v = after_produce env q ts a w in
        let ran = produce-runs env q ts a w in
        let source_same : lookup q.source_execution_id v.executions ≡ some a.source =
          sym (ap (λ x. lookup q.source_execution_id x.1.executions) ran) ∙ same in
        let child = stored_row env q ts a w in
        rw (prepare-admitted a passed, ran)
          (ap
              (λ b.
                finish q a (provenance env q ts a w)
                  (if b then start_execution env child.execution_id v else some (ok child, v)))
              off
            ∙ ap some (respond-runs a child v source_same))

-- A replay that passes the checks and is not to be started is created: its row is new, belongs to
-- the source, has its workflow and the status created, and carries its provenance; the answer is
-- the response, so the source was found as it was; and every execution in the store is as it was.
pub create_replay_creates :
    (env : Env) (q : ReplayRequest) (ts : ℕ) (w : World) (a : Admitted)
    → (admit q w).0 ≡ ok a
    → IsWellFormed w
    → q.start_execution ≡ false
    → (answer : ReplayCreatedResponse) × (w' : World) × (child : Execution) × (create_replay env q
          ts w
        ≡ some (ok answer, w'))
      × (lookup answer.replay_execution_id w.executions ≡ none)
      × (lookup answer.replay_execution_id w'.executions ≡ some child)
      × (child.parent_execution_id ≡ some q.source_execution_id)
      × (child.workflow_type ≡ a.source.workflow_type)
      × (child.status ≡ ExecutionStatus.created)
      × (get replay_provenance_key child.input ≡ object (dump_provenance answer.provenance))
      × ((k : ℕ) (e : Execution) → lookup k w.executions ≡ some e → lookup k w'.executions ≡ some e)
unfolding child_of append_replay_created_event append_timeline new_execution replay_creation
create_replay_creates env q ts w a passed formed off = (
  response env q ts w a (stored_row env q ts a w),
  (produce env q ts a w).1,
  stored_row env q ts a w,
  create_replay-runs env q ts w a passed formed off,
  unused w formed (suc w.next_uuid) refl,
  produce-holds env q ts a w,
  refl,
  refl,
  refl,
  get-put_self replay_provenance_key _ a.input,
  kept env q ts w a passed formed,
)

-- A creation that ended, and only moved executions along the lifecycle.
abbrev Ends : World → Created → Type 0
Ends w o = (r : Result ReplayCreatedResponse) × (w' : World) × (o ≡ some (r, w')) × Advanced w w'

module _ (env : Env) (q : ReplayRequest) (ts : ℕ) (w : World) where
  finish-Advanced :
      (a : Admitted) (p : ReplayProvenance) (r : Result Execution) (v : World)
      → Advanced w v
      → Ends w (finish q a p (some (r, v)))
  unfolding finish
  finish-Advanced a p (err x) v moved = (err x, v, refl, moved)
  finish-Advanced a p (ok child) v moved = (
    (respond q a p child v).0,
    v,
    ap (λ u. some ((respond q a p child v).0, u)) (respond-Unchanged q a p child v),
    moved,
  )

  -- What the produced child comes to, started or not.
  launch-Advanced :
      (a : Admitted) (child : Execution) (p : ReplayProvenance) (v : World) (b : Bool)
      → Advanced w v
      → StepsKeyed v
      → Ends w (
          finish q a p (if b then start_execution env child.execution_id v else some (ok child, v)))
  launch-Advanced a child p v false moved keyed = finish-Advanced a p (ok child) v moved
  launch-Advanced a child p v true moved keyed =
      let (r, u, ran, started) =
        start_execution_lifecycle env child.execution_id v moved.formed keyed in
      subst (λ o. Ends w (finish q a p o)) (sym ran)
        (finish-Advanced a p r u (Advanced-trans w v u moved started))

  -- From a well-formed store whose steps are stored under their identifiers, `create_replay` comes to
  -- an end, whether the replay is started or not; it leaves the store well formed and has moved every
  -- execution only along the lifecycle.
  pub create_replay_lifecycle :
      IsWellFormed w
      → StepsKeyed w
      → (r : Result ReplayCreatedResponse) × (w' : World) × (create_replay env q ts w
          ≡ some (r, w'))
        × Advanced w w'
  unfolding create_replay launch
  create_replay_lifecycle formed keyed = elim (Result-cases (admit q w).0) [
    | inl (x, h) ↦ (
      err x,
      w,
      create_replay_refused env q ts w x h,
      (Advances-IsPreorder.stay w).advanced formed,
    )
    | inr (a, h) ↦
        rw (prepare-admitted env q ts w a h, produce-runs env q ts a w)
          (launch-Advanced a (stored_row env q ts a w) (provenance env q ts a w)
            (after_produce env q ts a w) q.start_execution
            ((after_produce-Advances env q ts a w).advanced formed)
            (λ k s there.
              keyed k s (ap (lookup k) (sym (after_produce-steps env q ts a w)) ∙ there)))
  ]
