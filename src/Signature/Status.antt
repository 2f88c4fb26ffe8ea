-- ===== src/Signature/Status.antt =====
-- Task.py: `runnable_status` and `post_run`, up to the cache of files that builds share.
use meguro.Base.{
  string_eq, nat_eq, ℕ, List, [], ◌∷◌, none, some, Bool, true, false, not, ◌&&◌, if◌then◌else◌,
  ◌==◌, lookup, insert,
}
use meguro.Base.Raise.{Result, ok, err, ◌>>=◌, ◌>>◌, return}
use meguro.Signature.{
  Sig, TaskNode, Variant, of_env, variant_eq, Build, Failure, key_error, waf_error, M, node_sig,
  Task, variant_of, World, unique_id, signature,
}

pub data Status : Type 0 where
  ask_later skip_me run_me : Status

-- Whether every output has the signature; a missing one has not.
unfoldable pub outputs_have : Sig → Task → List TaskNode → Build → Bool
unfolding node_sig
outputs_have new_sig t [] b = true
outputs_have new_sig t (x ∷ nodes) b = elim (node_sig (variant_of t x) x.ident b) [
  | none ↦ false
  | some s ↦ s == new_sig && outputs_have new_sig t nodes b
]

-- `bld.node_sigs[variant][ident] = sig`
unfoldable pub store_sig : Variant → ℕ → Sig → M (Unit {0})
store_sig v ident sig b = elim (lookup v b.node_sigs) [
  | none ↦ (err key_error, b)
  | some sigs ↦ (ok tt, record b { node_sigs = insert v (insert ident sig sigs) b.node_sigs })
]

-- The loop over `run_after`.
unfoldable pub have_run : List Bool → Bool
have_run [] = true
have_run (hasrun ∷ l) = hasrun && have_run l

-- A KeyError of the signature means that the task must run; other exceptions go on.
abbrev pub on_failure : Failure → Task → Result Failure (Status × Task)
on_failure key_error t = ok (run_me, t)
on_failure e t = err e

module _ (w : World) where
  -- The comparison with what the last run left.
  unfoldable pub compare_sigs : Sig → Task → Build → Status
  unfolding outputs_have unique_id
  compare_sigs new_sig t b = elim (lookup (unique_id w t) b.task_sigs) [
    | none ↦ run_me
    | some prev ↦
        if outputs_have new_sig t t.outputs b
        then (if new_sig == prev.0 then skip_me else run_me)
        else run_me
  ]

  -- The answer, with the task as it is left, to whether all of `run_after` have run.
  unfoldable pub ready_status : Bool → Task → M (Status × Task)
  unfolding signature compare_sigs
  ready_status ready t b = if not ready then (ok (ask_later, t), b) else (elim (signature w t b).0 [
    | ok r ↦ (ok (compare_sigs r.0.0 r.1 (signature w t b).1, r.1), (signature w t b).1)
    | err e ↦ (on_failure e t, (signature w t b).1)
  ])

  -- A task of `run_after` is what its `hasrun` says.
  unfoldable pub runnable_status : List Bool → Task → M (Status × Task)
  unfolding have_run ready_status
  runnable_status run_after t = ready_status (have_run run_after) t

  module _ (exists : TaskNode → Bool) where
    -- The loop over the outputs: each must be there, and gets the signature.
    unfoldable pub store_outputs : Task → Sig → List TaskNode → M (Unit {0})
    unfolding store_sig
    store_outputs t sig [] = return tt
    store_outputs t sig (x ∷ nodes) = do
      (λ b. if exists x then (ok tt, b) else (err waf_error, b))
      store_sig (of_env t.variant) x.ident sig
      store_outputs t sig nodes

    -- `has_run` and `err_msg`, which are set where an output is missing, are left out.
    unfoldable pub post_run : Task → M Task
    unfolding signature store_outputs unique_id
    post_run t = do
      r ← signature w t
      store_outputs t r.0.0 t.outputs
      (λ b. (ok r.1, record b { task_sigs = insert (unique_id w t) r.0 b.task_sigs }))
