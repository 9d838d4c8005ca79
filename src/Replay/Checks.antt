-- ===== src/Replay/Checks.antt =====
-- The checks of a replay write nothing.
use agentic_ai_platform.Prelude.{
  ◌≡◌, refl, sym, ◌∙◌, ap, subst, Option, none, some, Option-cases, inl, inr, arith,
}
use agentic_ai_platform.Prelude.Dict.{lookup}
use agentic_ai_platform.Value.{Fields, end}
use agentic_ai_platform.Schemas.{Execution}
use agentic_ai_platform.Repository
use agentic_ai_platform.Exec.{World, ok, raise, reads, if_some, replay_not_found, ◌>>=◌}
use agentic_ai_platform.Exec.Returns.{
  Returns, Returns-pure, Returns-raise, Returns-bind, Returns-last, Returns-if_some,
}
use agentic_ai_platform.Exec.Keeps.{IsPreorder, Keeps, keeps_rules}
use agentic_ai_platform.Engine.Trace.{get_execution}
use agentic_ai_platform.Replay.{
  ReplayRequest, ReplayMode, Admitted, check_mode, validate_request, replay_input, admit_source,
  admit, ReplayProvenance, respond, strip_replay_metadata,
}

Unchanged : World → World → Type 0
Unchanged w w' = w' ≡ w

Unchanged-IsPreorder : IsPreorder Unchanged
unfolding Unchanged
Unchanged-IsPreorder = record { stay = λ w. refl; chain = λ u v w p q. q ∙ p }

ruleset unchanged_rules = (Unchanged-IsPreorder, keeps_rules)

check_mode-Unchanged : (q : ReplayRequest) (m : ReplayMode) → Keeps Unchanged (check_mode q m)
unfolding check_mode
check_mode-Unchanged q ReplayMode.exact = search (unchanged_rules) depth 24
check_mode-Unchanged q ReplayMode.investigative = search (unchanged_rules) depth 24

replay_input-Unchanged :
    (q : ReplayRequest) (base : Fields) (m : ReplayMode) → Keeps Unchanged (replay_input q base m)
unfolding replay_input
replay_input-Unchanged q base ReplayMode.exact = search (unchanged_rules) depth 24
replay_input-Unchanged q base ReplayMode.investigative = search (unchanged_rules) depth 24

admit-Unchanged : (q : ReplayRequest) → Keeps Unchanged (admit q)
unfolding admit admit_source validate_request get_execution
admit-Unchanged q = search (unchanged_rules, check_mode-Unchanged, replay_input-Unchanged) depth 24

-- Whatever the checks come to, the store is as it was.
pub admit-same : (q : ReplayRequest) (w : World) → (admit q w).1 ≡ w
unfolding Unchanged
admit-same q w = (admit-Unchanged q).at w

-- The answer is made without a write.
pub respond-Unchanged :
    (q : ReplayRequest) (a : Admitted) (p : ReplayProvenance) (child : Execution) (w : World)
    → (respond q a p child w).1 ≡ w
unfolding respond get_execution Unchanged
respond-Unchanged q a p child w =
    let k : Keeps Unchanged (respond q a p child) = search (unchanged_rules) depth 24 in k.at w

replay_input_exact :
    (q : ReplayRequest) (base : Fields) (m : ReplayMode)
    → Returns (λ b. m ≡ ReplayMode.exact → b ≡ (base, end)) (replay_input q base m)
unfolding replay_input
replay_input_exact q base ReplayMode.exact = Returns-pure _ _ λ h. refl
replay_input_exact q base ReplayMode.investigative = record {
  at = λ w a ran same. absurd (ground (arith, same));
}

-- What the checks return is of the source; an exact replay has its input, without a provenance.
pub record Fits (q : ReplayRequest) (src : Execution) (a : Admitted) : Type 0 where
  pub of_source : a.source ≡ src
  pub as_source :
      q.replay_mode ≡ ReplayMode.exact
      → (a.input ≡ strip_replay_metadata src.input) × (a.overrides ≡ end)

admit_source-Fits :
    (q : ReplayRequest) (src : Execution) → Returns (Fits q src) (admit_source q src)
unfolding admit_source
admit_source-Fits q src = Returns-last _ _ _ λ kept.
    Returns-if_some _ kept _ _ (Returns-raise _ _) λ ctx. Returns-last _ _ _ λ _.
      Returns-bind _ _ _ _ (replay_input_exact q (strip_replay_metadata src.input) q.replay_mode)
        λ b h.
          Returns-pure _ _ (record {
            of_source = refl;
            as_source = λ e. (ap (λ x. x.0) (h e), ap (λ x. x.1) (h e));
          })

-- A request that passes the checks has a source in the store, and they return it.
pub admit-source :
    (q : ReplayRequest) (w : World) (a : Admitted)
    → (admit q w).0 ≡ ok a
    → (lookup q.source_execution_id w.executions ≡ some a.source) × Fits q a.source a
unfolding admit get_execution Repository.get_execution reads raise ◌>>=◌ if_some
admit-source q w a ran =
    let split = λ (o : Option Execution) (h : lookup q.source_execution_id w.executions ≡ o).
      sym (ap (λ x. (if_some x (raise replay_not_found) (admit_source q) w).0) h) ∙ ran in
    elim (Option-cases (lookup q.source_execution_id w.executions)) [
      | inl h ↦ let no = split none h in absurd (ground (arith, no))
      | inr (src, h) ↦
          let fits = (admit_source-Fits q src).at w a (split (some src) h) in
          (h ∙ ap some (sym fits.of_source), subst (λ s. Fits q s a) (sym fits.of_source) fits)
    ]
