-- ===== src/Signature/Recorded.antt =====
-- Task.py: what `post_run` keeps decides whether the task runs again.
use meguro.Base.{
  string_eq, nat_eq, ℕ, List, [], ◌∷◌, Option, none, some, Bool, true, false, ◌&&◌, if◌then◌else◌,
  ◌==◌, ◌≡◌, refl, sym, ap, ◌∙◌, subst, lookup, insert, lookup-insert, All, arith,
}
use meguro.Base.Raise.{Result, ok, err, ◌>>◌, bound}
use meguro.Signature.{
  Sig, TaskNode, Variant, of_env, variant_eq, Build, Failure, key_error, waf_error, M, node_sig,
  Task, World,
}
use meguro.Signature.Status.{store_sig, store_outputs}

pub node_sig-store :
    (v w : Variant) (i j : ℕ) (sig : Sig) (b : Build) (sigs : List (ℕ × Sig))
    → lookup v b.node_sigs ≡ some sigs
    → node_sig w j (record b { node_sigs = insert v (insert i sig sigs) b.node_sigs })
      ≡ (if v == w && i == j then some sig else node_sig w j b)
unfolding node_sig
node_sig-store v w i j sig b sigs h = ground (
  arith,
  h,
  lookup-insert v w (insert i sig sigs) b.node_sigs,
  lookup-insert i j sig sigs,
  variant_eq.decides v w,
)

stored :
    (v w : Variant) (i j : ℕ) (sig : Sig) (b b' : Build) (u : Unit {0})
    (o : Option (List (ℕ × Sig)))
    → lookup v b.node_sigs ≡ o
    → ◌≡◌ {A = Result Failure (Unit {0}) × Build}
        (elim o [
          | none ↦ (err key_error, b)
          | some sigs ↦ (ok tt, record b { node_sigs = insert v (insert i sig sigs) b.node_sigs })
        ])
        (ok u, b')
    → (node_sig w j b' ≡ (if v == w && i == j then some sig else node_sig w j b))
      × (b'.task_sigs ≡ b.task_sigs)
stored v w i j sig b b' u none e h = cc
stored v w i j sig b b' u (some sigs) e h =
    let same : record b { node_sigs = insert v (insert i sig sigs) b.node_sigs } ≡ b' =
      ap (λ (r : Result Failure (Unit {0}) × Build). r.1) h in
    subst
      (λ c.
        (node_sig w j c ≡ (if v == w && i == j then some sig else node_sig w j b))
        × (c.task_sigs ≡ b.task_sigs))
      same (node_sig-store v w i j sig b sigs e, refl)

store_sig_lem :
    (v w : Variant) (i j : ℕ) (sig : Sig) (b b' : Build) (u : Unit {0})
    → store_sig v i sig b ≡ (ok u, b')
    → (node_sig w j b' ≡ (if v == w && i == j then some sig else node_sig w j b))
      × (b'.task_sigs ≡ b.task_sigs)
unfolding store_sig
store_sig_lem v w i j sig b b' u h = stored v w i j sig b b' u (lookup v b.node_sigs) refl h

checked :
    (e : Bool) (b c : Build) (u : Unit {0})
    → ◌≡◌ {A = Result Failure (Unit {0}) × Build}
        (if e then (ok tt, b) else (err waf_error, b))
        (ok u, c)
    → (e ≡ true) × (c ≡ b)
checked true b c u h = (refl, ap (λ (r : Result Failure (Unit {0}) × Build). r.1) (sym h))
checked false b c u h = cc

-- A value that is written again, or not, stays.
pub kept :
    (c : Bool) (sig : Sig) (o : Option Sig) → o ≡ some sig → (if c then some sig else o) ≡ some sig
kept true sig o h = refl
kept false sig o h = h

pub written :
    (v : Variant) (i : ℕ) (sig : Sig) (o : Option Sig)
    → (if v == v && i == i then some sig else o) ≡ some sig
written v i sig o = ground (arith, variant_eq.decides v v)

module _ (w : World) (exists : TaskNode → Bool) where
  -- The loop over the outputs writes the signature, and nothing else.
  pub store_outputs_lem :
      (t : Task) (sig : Sig) (nodes : List TaskNode) (b b' : Build) (u : Unit {0})
      → store_outputs w exists t sig nodes b ≡ (ok u, b')
      → (All (λ x. node_sig (of_env t.variant) x.ident b' ≡ some sig) nodes
          × ((j : ℕ)
              → node_sig (of_env t.variant) j b ≡ some sig
              → node_sig (of_env t.variant) j b' ≡ some sig))
        × (b'.task_sigs ≡ b.task_sigs)
  unfolding store_outputs
  store_outputs_lem t sig [] b b' u h =
      let same : b ≡ b' = ap (λ (r : Result Failure (Unit {0}) × Build). r.1) h in
      (
        (tt, λ j e. subst (λ c. node_sig (of_env t.variant) j c ≡ some sig) same e),
        ap (λ c. c.task_sigs) (sym same),
      )
  store_outputs_lem t sig (x ∷ nodes) b b' u h =
      let check : M (Unit {0}) = λ c. if exists x then (ok tt, c) else (err waf_error, c) in
      let rest : M (Unit {0}) = store_outputs w exists t sig nodes in
      let v : Variant = of_env t.variant in
      let first = bound (λ _. store_sig v x.ident sig >> rest) u b' (check b) h in
      let same : first.1.0 ≡ b = (checked (exists x) b first.1.0 first.0 first.1.1.0).1 in
      let second = bound (λ _. rest) u b' (store_sig v x.ident sig first.1.0) first.1.1.1 in
      let ih = store_outputs_lem t sig nodes second.1.0 b' u second.1.1.1 in
      let at : (j : ℕ)
          → (node_sig v j second.1.0
              ≡ (if v == v && x.ident == j then some sig else node_sig v j first.1.0))
            × (second.1.0.task_sigs ≡ first.1.0.task_sigs) =
        λ j. store_sig_lem v v x.ident j sig first.1.0 second.1.0 second.0 second.1.1.0 in
      let keeps : (j : ℕ) → node_sig v j b ≡ some sig → node_sig v j second.1.0 ≡ some sig = λ j e.
        (at j).0
        ∙ kept (v == v && x.ident == j) sig (node_sig v j first.1.0) (ap (node_sig v j) same ∙ e) in
      let new : node_sig v x.ident second.1.0 ≡ some sig =
        (at x.ident).0 ∙ written v x.ident sig (node_sig v x.ident first.1.0) in
      (
        ((ih.0.1 x.ident new, ih.0.0), λ j e. ih.0.1 j (keeps j e)),
        ih.1 ∙ (at 0).1 ∙ ap (λ c. c.task_sigs) same,
      )
