-- ===== src/Engine/Steers.antt =====
-- Actions that move an execution along its lifecycle, and no other execution at all.
use agentic_ai_platform.Prelude.{
  ℕ, ◌≡◌, refl, sym, ◌∙◌, ap, subst, Bool, true, false, Option, none, some, if◌then◌else◌, arith,
  inl, inr, Option-cases, ◌==◌, nat_eq, nat_beq_iff,
}
use agentic_ai_platform.Prelude.Dict.{Dict, lookup, put, lookup-put}
use agentic_ai_platform.Schemas.{Execution, ExecutionStatus}
use agentic_ai_platform.StateMachine.Lifecycle.{Reach, here, Reach-trans}
use agentic_ai_platform.Repository
use agentic_ai_platform.Exec.{Exec, World, Result, ok, err, reads, if_some, continue, ◌>>=◌}
use agentic_ai_platform.Exec.Keeps.{Keeps, IsPreorder}
use agentic_ai_platform.Engine.Trace.{get_execution, update_execution}
use agentic_ai_platform.Engine.Quiet.{
  IsWellFormed, status_of, status_in, with_execution, with_execution-IsWellFormed,
  update_execution-cases,
}
use agentic_ai_platform.Engine.Still.{Still, Continues, Prepares}

-- An execution that is there stays, in a status that its lifecycle reaches.
pub data Follows : Option ExecutionStatus → Option ExecutionStatus → Type 0 where
  absent : {t : Option ExecutionStatus} → Follows none t
  moved : {s t : ExecutionStatus} → Reach s t → Follows (some s) (some t)

pub Follows-stay : (s : Option ExecutionStatus) → Follows s s
Follows-stay none = absent
Follows-stay (some s) = moved here

Follows-chain : {s t u : Option ExecutionStatus} → Follows s t → Follows t u → Follows s u
Follows-chain absent q = absent
Follows-chain (moved p) (moved q) = moved (Reach-trans p q)

pub record Advanced (w w' : World) : Type 0 where
  pub formed : IsWellFormed w'
  pub follows : (k : ℕ) → Follows (status_of k w) (status_of k w')

pub Advanced-trans : (u v w : World) → Advanced u v → Advanced v w → Advanced u w
Advanced-trans u v w p q = record {
  formed = q.formed;
  follows = λ k. Follows-chain (p.follows k) (q.follows k);
}

pub record Advances (w w' : World) : Type 0 where
  pub advanced : IsWellFormed w → Advanced w w'

pub Advances-IsPreorder : IsPreorder Advances
Advances-IsPreorder = record {
  stay = λ w. record {
    advanced = λ f. record { formed = f; follows = λ k. Follows-stay (status_of k w) };
  };
  chain = λ u v w p q. record {
    advanced = λ f.
        let s = p.advanced f in
        let t = q.advanced s.formed in
        record { formed = t.formed; follows = λ k. Follows-chain (s.follows k) (t.follows k) };
  };
}

pub Still→Advances : (w w' : World) → Still w w' → Advances w w'
Still→Advances w w' q = record {
  advanced = λ f.
      let s = q.settles f in
      record {
        formed = s.formed;
        follows =
            λ k. subst (Follows (status_of k w)) (sym (s.unmoved k)) (Follows-stay (status_of k w));
      };
}

pub Still→Keeps : {A : Type 0} (m : Exec A) → Keeps Still m → Keeps Advances m
Still→Keeps m k = record { at = λ w. Still→Advances w (m w).1 (k.at w) }

-- The stored row of an execution has its status.
pub record Holds (e : Execution) (w : World) : Type 0 where
  pub formed : IsWellFormed w
  pub here : status_of e.execution_id w ≡ some e.status

-- From a world that holds the row, an action only advances.
pub record Steers {A : Type 0} (e : Execution) (m : Exec A) : Type 0 where
  pub at : (w : World) → Holds e w → Advances w (m w).1

pub status-row :
    (k : ℕ) (s : ExecutionStatus) (w : World)
    → status_of k w ≡ some s
    → (e : Execution) × (lookup k w.executions ≡ some e) × (e.status ≡ s)
unfolding status_of
status-row k s w h = elim (Option-cases (lookup k w.executions)) [
  | inl q ↦ absurd (ground (arith, h, q))
  | inr (e, q) ↦ (e, q, ground (arith, h, q))
]

pub Follows-if :
    (b : Bool) (e' : Execution) (cur : Option Execution)
    → (b ≡ true → Follows (status_in cur) (some e'.status))
    → Follows (status_in cur) (status_in (if b then some e' else cur))
Follows-if true e' cur h = h refl
Follows-if false e' cur h = Follows-stay (status_in cur)

Follows-put :
    (j k : ℕ) (old e' : Execution) (d : Dict Execution)
    → lookup k d ≡ some old
    → Reach old.status e'.status
    → Follows (status_in (lookup j d)) (status_in (lookup j (put k e' d)))
Follows-put j k old e' d h r = rw (lookup-put k j e' d) (
    Follows-if (k == j) e' (lookup j d) λ eq.
      let same : lookup j d ≡ some old = ap (λ i. lookup i d) (sym ((nat_beq_iff k j).0 eq)) ∙ h in
      rw same (moved r))

-- Storing a row that continues the one held.
module _ (e : Execution) where
  pub Advances-with :
      (e' : Execution) (w : World) → Holds e w → Continues e e' → Advances w (with_execution e' w)
  unfolding status_of
  Advances-with e' w held c = record {
    advanced = λ f.
        let (old, found, same) = status-row e.execution_id e.status w held.here in
        let there : lookup e'.execution_id w.executions ≡ some old =
          ap (λ i. lookup i w.executions) c.same_id ∙ found in
        record {
          formed = with_execution-IsWellFormed e'.execution_id old e' w there refl f;
          follows = λ j.
              Follows-put j e'.execution_id old e' w.executions there
                (subst (λ s. Reach s e'.status) (sym same) c.reach);
        };
  }

  pub Steers-update : (e' : Execution) → Continues e e' → Steers e (update_execution e')
  Steers-update e' c = record {
    at = λ w held.
        update_execution-cases e' w (Advances w) (Advances-IsPreorder.stay w)
          λ old ho. Advances-with e' w held c;
  }

  pub Steers-keeps : {A : Type 0} (m : Exec A) → Keeps Advances m → Steers e m
  Steers-keeps m k = record { at = λ w held. k.at w }

  pub Holds-still : (w w' : World) → Holds e w → Still w w' → Holds e w'
  Holds-still w w' held q =
      let s = q.settles held.formed in
      record { formed = s.formed; here = s.unmoved e.execution_id ∙ held.here }

  pub continue-steers :
      {A B : Type 0} (r : Result A) (f : A → Exec B) (u w : World)
      → Advances u w
      → ((a : A) → r ≡ ok a → Advances w (f a w).1)
      → Advances u (continue r f w).1
  continue-steers (ok a) f u w h k = Advances-IsPreorder.chain u w (f a w).1 h (k a refl)
  continue-steers (err x) f u w h k = h

  -- A quiet action first, then one that steers.
  pub Steers-after_still :
      {A B : Type 0} (m : Exec A) (f : A → Exec B)
      → Keeps Still m
      → ((a : A) → Steers e (f a))
      → Steers e (m >>= f)
  unfolding ◌>>=◌
  Steers-after_still m f km kf = record {
    at = λ w held.
        continue-steers (m w).0 f w (m w).1 (Still→Advances w (m w).1 (km.at w))
          λ a ha. (kf a).at (m w).1 (Holds-still w (m w).1 held (km.at w));
  }

  -- A row is worked out first, and what follows may store it.
  pub Steers-after-Prepares :
      {B : Type 0} (m : Exec Execution) (f : Execution → Exec B)
      → Prepares e m
      → ((e' : Execution) → Continues e e' → Steers e (f e'))
      → Steers e (m >>= f)
  unfolding ◌>>=◌
  Steers-after-Prepares m f pm kf = record {
    at = λ w held.
        continue-steers (m w).0 f w (m w).1 (Still→Advances w (m w).1 (pm.still.at w)) λ e' he.
          (kf e' (pm.gives w e' he)).at (m w).1 (Holds-still w (m w).1 held (pm.still.at w));
  }

  -- An action that steers first, then one that advances from anywhere.
  pub Steers-then :
      {A B : Type 0} (m : Exec A) (f : A → Exec B)
      → Steers e m
      → ((a : A) → Keeps Advances (f a))
      → Steers e (m >>= f)
  unfolding ◌>>=◌
  Steers-then m f km kf = record {
    at = λ w held. continue-steers (m w).0 f w (m w).1 (km.at w held) λ a ha. (kf a).at (m w).1;
  }

  pub Steers-if :
      {A : Type 0} (b : Bool) (m n : Exec A)
      → (b ≡ true → Steers e m)
      → (b ≡ false → Steers e n)
      → Steers e (if b then m else n)
  Steers-if true m n km kn = km refl
  Steers-if false m n km kn = kn refl

  pub Steers-if_some :
      {A B : Type 0} (o : Option B) (m : Exec A) (f : B → Exec A)
      → Steers e m
      → ((b : B) → Steers e (f b))
      → Steers e (if_some o m f)
  unfolding if_some
  Steers-if_some none m f km kf = km
  Steers-if_some (some b) m f km kf = kf b

-- Reading an execution, then an action that steers it.
pub Keeps-get_execution :
    {B : Type 0} (id : ℕ) (absent_ : Exec B) (f : Execution → Exec B)
    → Keeps Advances absent_
    → ((e : Execution) → Steers e (f e))
    → Keeps Advances (get_execution id >>= (λ found. if_some found absent_ f))
unfolding get_execution Repository.get_execution reads ◌>>=◌ if_some status_of
Keeps-get_execution id absent_ f ka kf = record {
  at = λ w. elim (Option-cases (lookup id w.executions)) [
    | inl h ↦ rw h (ka.at w)
    | inr (e, h) ↦ rw h record {
      advanced = λ formed.
          let key = formed.keyed id e h in
          let held : Holds e w = record {
            formed = formed;
            here = ap status_in (ap (λ i. lookup i w.executions) key ∙ h);
          } in
          ((kf e).at w held).advanced formed;
    }
  ];
}
