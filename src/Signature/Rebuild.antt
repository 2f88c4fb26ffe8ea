-- ===== src/Signature/Rebuild.antt =====
-- Task.py: what a build leaves, and what the next build does of it.
use meguro.Base.{
  string_eq, nat_eq, ◌↔◌, List, [], ◌∷◌, Option, none, some, Bool, true, false, if◌then◌else◌, ◌==◌,
  ◌≡◌, refl, sym, ap, ◌∙◌, subst, lookup, All,
}
use meguro.Base.Raise.{Result, ok, err, given}
use meguro.Signature.{
  Sig, Sigs, TaskNode, of_env, variant_eq, Build, Failure, key_error, os_error, waf_error,
  other_error, node_sig, Task, variant_of, World, unique_id, signature,
}
use meguro.Signature.Status.{
  Status, skip_me, run_me, outputs_have, compare_sigs, have_run, ready_status, runnable_status,
  post_run, on_failure,
}
use meguro.Signature.Skipping.{
  SameTask, same_task, unique_id-same, signature-same, compare_sigs-kept, ready_status-signed,
  outputs_have_iff, post_run_parts,
}

same_task_trans : (t u v : Task) → SameTask t u → SameTask u v → SameTask t v
same_task_trans t u v (same_task a b c d) (same_task e f g h) =
    same_task (a ∙ e) (b ∙ f) (c ∙ g) (d ∙ h)

same_variant_outputs :
    (t u : Task) → SameTask t u → (t.variant ≡ u.variant) × (t.outputs ≡ u.outputs)
same_variant_outputs t u (same_task a b c d) = (b, d)

unique_id-md5 : (v w : World) (t : Task) → v.md5 ≡ w.md5 → unique_id v t ≡ unique_id w t
unfolding unique_id
unique_id-md5 v w t h = rw h

-- The outputs of a build have a variant, that of the environment.
built :
    (t u : Task) (sig : Sig) (b c : Build) (nodes : List TaskNode)
    → t.variant ≡ u.variant
    → All (λ x. x.is_file ≡ false) nodes
    → All (λ x. node_sig (of_env t.variant) x.ident b ≡ some sig) nodes
    → All (λ x. node_sig (of_env t.variant) x.ident c ≡ node_sig (of_env t.variant) x.ident b) nodes
    → All (λ x. node_sig (variant_of u x) x.ident c ≡ some sig) nodes
built t u sig b c [] v f h k = tt
built t u sig b c (x ∷ nodes) v f h k = (
  subst (λ o. node_sig o x.ident c ≡ some sig) (ap of_env v ∙ rw f.0) (k.0 ∙ h.0),
  built t u sig b c nodes v f.1 h.1 k.1,
)

-- Let `post_run` end well for a task whose outputs are not source files, and let a later build compute the signature of the task
-- with the same class, variant, inputs and outputs, with what `post_run` kept for its outputs and for it still there:
-- where all of `run_after` have run, the task is skipped if the two signatures are the same, and runs otherwise.
pub runnable_status-post_run :
    (w later : World) (exists : TaskNode → Bool) (run_after : List Bool) (t t' u u' : Task)
    (b b' c c' : Build) (new : Sigs)
    → have_run run_after ≡ true
    → All (λ x. x.is_file ≡ false) t.outputs
    → post_run w exists t b ≡ (ok t', b')
    → later.md5 ≡ w.md5
    → SameTask t u
    → signature later u c ≡ (ok (new, u'), c')
    → All
        (λ x. node_sig (of_env t.variant) x.ident c' ≡ node_sig (of_env t.variant) x.ident b')
        t.outputs
    → lookup (unique_id w t) c'.task_sigs ≡ lookup (unique_id w t) b'.task_sigs
    → (old : Sigs) × ((t'.cache_sig ≡ some old)
        × (runnable_status later run_after u c
            ≡ (ok (if new.0 == old.0 then skip_me else run_me, u'), c')))
unfolding runnable_status
runnable_status-post_run w later exists run_after t t' u u' b b' c c' new ran f h m same k n l =
    let parts = post_run_parts w exists t t' b b' h in
    let old : Sigs = parts.0 in
    let left = signature-same later u u' c c' new k in
    let id : unique_id w t ≡ unique_id later u' =
      unique_id-same w t u' (same_task_trans t u u' same left.0)
      ∙ sym (unique_id-md5 later w u' m) in
    let q = same_variant_outputs t u' (same_task_trans t u u' same left.0) in
    (
      old,
      (
        parts.1.0.1,
        ap (λ r. ready_status later r u c) ran
            ∙ ready_status-signed later u u' c c' new k
            ∙ ap (λ s. (ok (s, u'), c'))
                (compare_sigs-kept later new.0 u' c' old
                  (subst (λ i. lookup i c'.task_sigs ≡ some old) id (l ∙ parts.1.1.1))
                  (subst
                    (λ nodes. All (λ x. node_sig (variant_of u' x) x.ident c' ≡ some old.0) nodes)
                    q.1 (built t u' old.0 b' c' t.outputs q.0 f parts.1.1.0 n))),
      ),
    )

taken : (c : Bool) → ◌≡◌ {A = Status} (if c then skip_me else run_me) skip_me → c ≡ true
taken true h = refl
taken false h = cc

-- What `compare_sigs` asks for to skip.
skipped :
    (all : Bool) (new : Sig) (prev : Option Sigs)
    → (elim prev as (λ _. Status) [
      | none ↦ run_me
      | some old ↦ if all then (if new == old.0 then skip_me else run_me) else run_me
    ])
      ≡ skip_me
    → (old : Sigs) × ((prev ≡ some old) × ((all ≡ true) × (new ≡ old.0)))
skipped all new none h = cc
skipped true new (some old) h =
    (old, (refl, (refl, (string_eq.decides new old.0).0 (taken (new == old.0) h))))
skipped false new (some old) h = cc

module _ (w : World) where
  compare_sigs-skip :
      (new : Sig) (t : Task) (b : Build)
      → compare_sigs w new t b ≡ skip_me
      → (old : Sigs) × ((lookup (unique_id w t) b.task_sigs ≡ some old)
          × ((outputs_have new t t.outputs b ≡ true) × (new ≡ old.0)))
  unfolding compare_sigs
  compare_sigs-skip new t b h =
      skipped (outputs_have new t t.outputs b) new (lookup (unique_id w t) b.task_sigs) h

  asked :
      (r : Result Failure (Sigs × Task) × Build) (t t' : Task) (b' : Build)
      → ◌≡◌ {A = Result Failure (Status × Task) × Build}
          (elim r.0 as (λ _. Result Failure (Status × Task) × Build) [
            | ok q ↦ (ok (compare_sigs w q.0.0 q.1 r.1, q.1), r.1)
            | err e ↦ (on_failure e t, r.1)
          ])
          (ok (skip_me, t'), b')
      → (sigs : Sigs) × ((r ≡ (ok (sigs, t'), b')) × (compare_sigs w sigs.0 t' b' ≡ skip_me))
  asked (ok q, b) t t' b' h =
      let e = given (compare_sigs w q.0.0 q.1 b, q.1) (skip_me, t') b b' h in
      let answer : compare_sigs w q.0.0 q.1 b ≡ skip_me = ap (λ (x : Status × Task). x.0) e.0 in
      let left : q.1 ≡ t' = ap (λ (x : Status × Task). x.1) e.0 in
      (
        q.0,
        (
          rw (left, e.1),
          subst (λ (x : Task × Build). compare_sigs w q.0.0 x.0 x.1 ≡ skip_me) (rw (left, e.1))
              answer,
        ),
      )
  asked (err key_error, b) t t' b' h = cc
  asked (err os_error, b) t t' b' h = cc
  asked (err waf_error, b) t t' b' h = cc
  asked (err other_error, b) t t' b' h = cc

  answered :
      (ready : Bool) (t t' : Task) (b b' : Build)
      → ready_status w ready t b ≡ (ok (skip_me, t'), b')
      → (ready ≡ true)
        × ((sigs : Sigs) × ((signature w t b ≡ (ok (sigs, t'), b'))
              × (compare_sigs w sigs.0 t' b' ≡ skip_me)))
  unfolding ready_status
  answered true t t' b b' h = (refl, asked (signature w t b) t t' b' h)
  answered false t t' b b' h = cc

-- `runnable_status` skips a task exactly if all of `run_after` have run, its signature is computed, it is that of the last
-- run, and every output has it.
pub runnable_status-skip :
    (w : World) (run_after : List Bool) (t t' : Task) (b b' : Build)
    → (runnable_status w run_after t b ≡ (ok (skip_me, t'), b')) ↔ (
        (have_run run_after ≡ true)
        × ((sigs : Sigs) × ((signature w t b ≡ (ok (sigs, t'), b'))
              × (((old : Sigs) × ((lookup (unique_id w t') b'.task_sigs ≡ some old)
                      × (old.0 ≡ sigs.0)))
                  × All (λ x. node_sig (variant_of t' x) x.ident b' ≡ some sigs.0) t'.outputs))))
unfolding runnable_status
runnable_status-skip w run_after t t' b b' = (
  λ h.
      let a = answered w (have_run run_after) t t' b b' h in
      let sigs = a.1.0 in
      let k = compare_sigs-skip w sigs.0 t' b' a.1.1.1 in
      (
        a.0,
        (
          sigs,
          (
            a.1.1.0,
            ((k.0, (k.1.0, sym k.1.1.1)), (outputs_have_iff sigs.0 t' t'.outputs b').0 k.1.1.0),
          ),
        ),
      ),
  λ h.
      let sigs = h.1.0 in
      let old = h.1.1.1.0.0 in
      let e : old.0 ≡ sigs.0 = h.1.1.1.0.1.1 in
      subst (λ r. ready_status w r t b ≡ (ok (skip_me, t'), b')) (sym h.0)
        (ready_status-signed w t t' b b' sigs h.1.1.0
          ∙ ap (λ s. (ok (s, t'), b'))
              (compare_sigs-kept w sigs.0 t' b' old h.1.1.1.0.1.0 (
                  subst (λ s. All (λ x. node_sig (variant_of t' x) x.ident b' ≡ some s) t'.outputs)
                    (sym e) h.1.1.1.1)
                ∙ rw ((string_eq.decides sigs.0 old.0).1 (sym e)))),
)
