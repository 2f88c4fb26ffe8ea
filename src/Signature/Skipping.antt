-- ===== src/Signature/Skipping.antt =====
-- Task.py: when `runnable_status` skips a task.
use meguro.Base.{
  string_eq, nat_eq, ◌↔◌, List, [], ◌∷◌, Option, none, some, Bool, true, false, ◌&&◌, if◌then◌else◌,
  ◌==◌, ◌≡◌, refl, sym, ap, ◌∙◌, subst, lookup, insert, lookup-insert_self, All, arith,
}
use meguro.Base.Raise.{Result, ok, err, ◌>>=◌, ◌>>◌, return, bound, given}
use meguro.Signature.{
  Sig, Sigs, TaskNode, Variant, of_env, variant_eq, Build, Failure, M, node_sig, Task, variant_of,
  World, unique_id, signature, compute_signature,
}
use meguro.Signature.Status.{
  Status, skip_me, run_me, outputs_have, compare_sigs, ready_status, store_outputs, post_run,
  on_failure,
}
use meguro.Signature.Recorded.{store_outputs_lem}

-- What identifies a task from one build to the next.
pub data SameTask (t u : Task) : Type 0 where
  same_task :
      t.class_name ≡ u.class_name
      → t.variant ≡ u.variant
      → t.inputs ≡ u.inputs
      → t.outputs ≡ u.outputs
      → SameTask t u

same_task_refl : (t : Task) → SameTask t t
same_task_refl t = same_task refl refl refl refl

-- That every output has the signature is a fact about each.
pub outputs_have_iff :
    (sig : Sig) (t : Task) (nodes : List TaskNode) (b : Build)
    → (outputs_have sig t nodes b ≡ true)
      ↔ All (λ x. node_sig (variant_of t x) x.ident b ≡ some sig) nodes
unfolding outputs_have
outputs_have_iff sig t [] b = ground arith
outputs_have_iff sig t (x ∷ nodes) b =
    let ih = outputs_have_iff sig t nodes b in
    elim (node_sig (variant_of t x) x.ident b)
      as (λ o.
        (elim o [ none ↦ false | some s ↦ s == sig && outputs_have sig t nodes b ] ≡ true)
        ↔ ((o ≡ some sig) × All (λ y. node_sig (variant_of t y) y.ident b ≡ some sig) nodes)) [
          | none ↦ (λ e. cc, λ e. cc)
          | some s ↦ ground (arith, ih, string_eq.decides s sig)
        ]

pub kept-All :
    (v : Variant) (sig : Sig) (nodes : List TaskNode) (b : Build) (sigs : List (Sig × Sigs))
    → All (λ x. node_sig v x.ident b ≡ some sig) nodes
    → All (λ x. node_sig v x.ident (record b { task_sigs = sigs }) ≡ some sig) nodes
unfolding node_sig
kept-All v sig nodes b sigs h = h

chosen :
    (all same : Bool)
    → (same ≡ true → all ≡ true)
    → ◌≡◌ {A = Status}
        (if all then (if same then skip_me else run_me) else run_me)
        (if same then skip_me else run_me)
chosen true same h = refl
chosen false true h = let e = h refl in cc
chosen false false h = refl

module _ (w : World) where
  pub unique_id-same : (t u : Task) → SameTask t u → unique_id w t ≡ unique_id w u
  unfolding unique_id
  unique_id-same t u (same_task a b c d) = ap w.md5 (rw (a, b, c, d))

  -- A signature that was there, or is computed, leaves the rest of the task as it is.
  signed :
      (o : Option Sigs) (t t' : Task) (b b' : Build) (sigs : Sigs)
      → t.cache_sig ≡ o
      → ◌≡◌ {A = Result Failure (Sigs × Task) × Build}
          ((elim o as (λ _. M (Sigs × Task)) [
            | some kept ↦ return (kept, t)
            | none ↦
                (compute_signature w t >>= λ new. return (new, record t { cache_sig = some new }))
          ])
            b)
          (ok (sigs, t'), b')
      → SameTask t t' × (t'.cache_sig ≡ some sigs)
  signed none t t' b b' sigs e h =
      let step =
        bound (λ (new : Sigs). return (new, record t { cache_sig = some new })) (sigs, t') b'
          (compute_signature w t b) h in
      let new : Sigs = step.0 in
      let same =
        (given (new, record t { cache_sig = some new }) (sigs, t') step.1.0 b' step.1.1.1).0 in
      subst (λ (r : Sigs × Task). SameTask t r.1 × (r.1.cache_sig ≡ some r.0)) same
        (same_task refl refl refl refl, refl)
  signed (some kept) t t' b b' sigs e h =
      subst (λ (r : Sigs × Task). SameTask t r.1 × (r.1.cache_sig ≡ some r.0))
        (given (kept, t) (sigs, t') b b' h).0 (same_task_refl t, e)

  pub signature-same :
      (t t' : Task) (b b' : Build) (sigs : Sigs)
      → signature w t b ≡ (ok (sigs, t'), b')
      → SameTask t t' × (t'.cache_sig ≡ some sigs)
  unfolding signature
  signature-same t t' b b' sigs h = signed t.cache_sig t t' b b' sigs refl h

  compared :
      (new : Sig) (t : Task) (b : Build) (prev : Sigs) (o : Option Sigs)
      → o ≡ some prev
      → All (λ x. node_sig (variant_of t x) x.ident b ≡ some prev.0) t.outputs
      → (elim o [
        | none ↦ run_me
        | some old ↦
            if outputs_have new t t.outputs b
            then (if new == old.0 then skip_me else run_me)
            else run_me
      ])
        ≡ (if new == prev.0 then skip_me else run_me)
  compared new t b prev none e h = cc
  compared new t b prev (some old) e h =
      let same : prev ≡ old = cc in
      subst
        (λ (p : Sigs).
          (if outputs_have new t t.outputs b
            then (if new == old.0 then skip_me else run_me)
            else run_me)
          ≡ (if new == p.0 then skip_me else run_me))
        (sym same)
        (chosen (outputs_have new t t.outputs b) (new == old.0) λ e2.
          subst (λ s. outputs_have s t t.outputs b ≡ true)
            (ap (λ (p : Sigs). p.0) same ∙ sym ((string_eq.decides new old.0).0 e2))
            ((outputs_have_iff prev.0 t t.outputs b).1 h))

  -- Where each output has the signature that was kept.
  pub compare_sigs-kept :
      (new : Sig) (t : Task) (b : Build) (prev : Sigs)
      → lookup (unique_id w t) b.task_sigs ≡ some prev
      → All (λ x. node_sig (variant_of t x) x.ident b ≡ some prev.0) t.outputs
      → compare_sigs w new t b ≡ (if new == prev.0 then skip_me else run_me)
  unfolding compare_sigs
  compare_sigs-kept new t b prev e h =
      compared new t b prev (lookup (unique_id w t) b.task_sigs) e h

  pub ready_status-signed :
      (t t' : Task) (b b' : Build) (sigs : Sigs)
      → signature w t b ≡ (ok (sigs, t'), b')
      → ready_status w true t b ≡ (ok (compare_sigs w sigs.0 t' b', t'), b')
  unfolding ready_status
  ready_status-signed t t' b b' sigs h =
      ap
        (λ (r : Result Failure (Sigs × Task) × Build).
          elim r.0 as (λ _. Result Failure (Status × Task) × Build) [
            | ok q ↦ (ok (compare_sigs w q.0.0 q.1 r.1, q.1), r.1)
            | err e ↦ (on_failure e t, r.1)
          ])
        h

  module _ (exists : TaskNode → Bool) where
    pub post_run_parts :
        (t t' : Task) (b b' : Build)
        → post_run w exists t b ≡ (ok t', b')
        → (sigs : Sigs) × ((SameTask t t' × (t'.cache_sig ≡ some sigs))
            × (All (λ x. node_sig (of_env t.variant) x.ident b' ≡ some sigs.0) t.outputs
                × (lookup (unique_id w t) b'.task_sigs ≡ some sigs)))
    unfolding post_run
    post_run_parts t t' b b' h =
        let first =
          bound
            (λ (r : Sigs × Task).
              store_outputs w exists t r.0.0 t.outputs
              >> (λ c. (ok r.1, record c { task_sigs = insert (unique_id w t) r.0 c.task_sigs })))
            t' b' (signature w t b) h in
        let r : Sigs × Task = first.0 in
        let second =
          bound
            (λ _. (λ c. (ok r.1, record c { task_sigs = insert (unique_id w t) r.0 c.task_sigs })))
            t' b' (store_outputs w exists t r.0.0 t.outputs first.1.0) first.1.1.1 in
        let c : Build = second.1.0 in
        let last =
          given r.1 t' (record c { task_sigs = insert (unique_id w t) r.0 c.task_sigs }) b'
            second.1.1.1 in
        let wrote =
          store_outputs_lem w exists t r.0.0 t.outputs first.1.0 c second.0 second.1.1.0 in
        (
          r.0,
          (
            subst (λ u. SameTask t u × (u.cache_sig ≡ some r.0)) last.0
                (signature-same t r.1 b first.1.0 r.0 first.1.1.0),
            subst
                (λ d.
                  All (λ x. node_sig (of_env t.variant) x.ident d ≡ some r.0.0) t.outputs
                  × (lookup (unique_id w t) d.task_sigs ≡ some r.0))
                last.1
                (
                  kept-All (of_env t.variant) r.0.0 t.outputs c
                      (insert (unique_id w t) r.0 c.task_sigs) wrote.0.0,
                  lookup-insert_self (unique_id w t) r.0 c.task_sigs,
                ),
          ),
        )
