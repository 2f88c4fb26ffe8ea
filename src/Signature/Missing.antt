-- ===== src/Signature/Missing.antt =====
-- Task.py: `post_run` where an output is missing.
use meguro.Base.{
  string_eq, nat_eq, ℕ, List, [], ◌∷◌, ◌++◌, some, Bool, true, false, ◌&&◌, if◌then◌else◌, ◌==◌,
  ◌≡◌, refl, ap, ◌∙◌, lookup, insert, lookup-insert_self, All,
}
use meguro.Base.Raise.{ok, err, ◌>>◌, bind_ok, bind_err}
use meguro.Signature.{
  Sig, Sigs, TaskNode, Variant, of_env, variant_eq, Build, waf_error, M, node_sig, Task, World,
  unique_id, signature,
}
use meguro.Signature.Status.{store_sig, store_outputs, post_run}
use meguro.Signature.Recorded.{node_sig-store, written, kept}

-- The build with one more signature of a node.
abbrev put : Variant → ℕ → Sig → List (ℕ × Sig) → Build → Build
put v i sig sigs b = record b { node_sigs = insert v (insert i sig sigs) b.node_sigs }

module _ (w : World) (exists : TaskNode → Bool) (t : Task) (sig : Sig) where
  store_outputs-step :
      (x : TaskNode) (nodes : List TaskNode) (b : Build) (sigs : List (ℕ × Sig))
      → exists x ≡ true
      → lookup (of_env t.variant) b.node_sigs ≡ some sigs
      → store_outputs w exists t sig (x ∷ nodes) b
        ≡ store_outputs w exists t sig nodes (put (of_env t.variant) x.ident sig sigs b)
  unfolding store_outputs store_sig
  store_outputs-step x nodes b sigs e h =
      let check : M (Unit {0}) = λ c. if exists x then (ok tt, c) else (err waf_error, c) in
      let rest : M (Unit {0}) = store_outputs w exists t sig nodes in
      bind_ok check (λ _. store_sig (of_env t.variant) x.ident sig >> rest) b b tt (rw e)
      ∙ bind_ok (store_sig (of_env t.variant) x.ident sig) (λ _. rest) b
          (put (of_env t.variant) x.ident sig sigs b) tt (rw (store_sig, h))

  -- The loop ends at the first output that is missing.
  store_outputs-missing :
      (x : TaskNode) (front rest : List TaskNode) (b : Build) (sigs : List (ℕ × Sig))
      → lookup (of_env t.variant) b.node_sigs ≡ some sigs
      → All (λ y. exists y ≡ true) front
      → exists x ≡ false
      → (c : Build) × ((store_outputs w exists t sig (front ++ x ∷ rest) b ≡ (err waf_error, c))
          × ((c.task_sigs ≡ b.task_sigs)
              × (All (λ y. node_sig (of_env t.variant) y.ident c ≡ some sig) front
                  × ((j : ℕ)
                      → node_sig (of_env t.variant) j b ≡ some sig
                      → node_sig (of_env t.variant) j c ≡ some sig))))
  unfolding store_outputs
  store_outputs-missing x [] rest b sigs h f e = (b, (rw e, (refl, (tt, λ j k. k))))
  store_outputs-missing x (y ∷ front) rest b sigs h f e =
      let v : Variant = of_env t.variant in
      let b1 : Build = put v y.ident sig sigs b in
      let ih =
        store_outputs-missing x front rest b1 (insert y.ident sig sigs)
          (lookup-insert_self v (insert y.ident sig sigs) b.node_sigs) f.1 e in
      let at = λ (j : ℕ). node_sig-store v v y.ident j sig b sigs h in
      (
        ih.0,
        (
          store_outputs-step y (front ++ x ∷ rest) b sigs f.0 h ∙ ih.1.0,
          (
            ih.1.1.0,
            (
              (
                ih.1.1.1.1 y.ident (at y.ident ∙ written v y.ident sig (node_sig v y.ident b)),
                ih.1.1.1.0,
              ),
              λ j k. ih.1.1.1.1 j (at j ∙ kept (v == v && y.ident == j) sig (node_sig v j b) k),
            ),
          ),
        ),
      )

-- With a signature that is computed, and an environment whose variant has a table of signatures, let `x` be the first output
-- that does not exist: `post_run` raises a WafError, what is kept of the last runs stays as it was when the signature was computed,
-- and the outputs ahead of `x` have the new signature.
pub post_run-missing :
    (w : World) (exists : TaskNode → Bool) (t u : Task) (b c : Build) (new : Sigs)
    (table : List (ℕ × Sig)) (x : TaskNode) (front rest : List TaskNode)
    → signature w t b ≡ (ok (new, u), c)
    → lookup (of_env t.variant) c.node_sigs ≡ some table
    → t.outputs ≡ front ++ x ∷ rest
    → All (λ y. exists y ≡ true) front
    → exists x ≡ false
    → (b' : Build) × ((post_run w exists t b ≡ (err waf_error, b'))
        × ((b'.task_sigs ≡ c.task_sigs)
            × All (λ y. node_sig (of_env t.variant) y.ident b' ≡ some new.0) front))
unfolding post_run
post_run-missing w exists t u b c new table x front rest h k o f e =
    let stop = store_outputs-missing w exists t new.0 x front rest c table k f e in
    (
      stop.0,
      (
        bind_ok (signature w t)
              (λ (r : Sigs × Task).
                store_outputs w exists t r.0.0 t.outputs
                >> (λ d. (ok r.1, record d { task_sigs = insert (unique_id w t) r.0 d.task_sigs })))
              b c (new, u) h
            ∙ bind_err (store_outputs w exists t new.0 t.outputs)
                (λ _.
                  (λ d. (ok u, record d { task_sigs = insert (unique_id w t) new d.task_sigs })))
                c stop.0 waf_error (ap (λ l. store_outputs w exists t new.0 l c) o ∙ stop.1.0),
        (stop.1.1.0, stop.1.1.1.0),
      ),
    )
