-- ===== src/NodeTree/Scan.antt =====
-- Build.py: what `rescan` leaves alone.
use meguro.Base.{
  string_eq, nat_eq, ℕ, String, List, [], ◌∷◌, Option, none, some, Bool, true, false, not,
  if◌then◌else◌, ◌==◌, ◌≡◌, refl, sym, ap, ◌∙◌, subst, mem, lookup, insert, delete, lookup-insert,
  lookup-delete, lookup-insert_ne, Bool-cases, on_option, on_if, inl, inr,
}
use meguro.Base.Raise.{Result, ok, err, ◌>>◌, related}
use meguro.NodeTree.{
  Failure, waf_error, attribute_error, key_error, file, Tree, Context, is_kind, childs_of, child,
  keep_only, hash_source, hash_sources, remove_childs, listdir_bld, scan_variant, scan_variants,
  scan_folder, sub_path, contents,
}

-- From one state to another, only what is asked and kept of the disk has changed, and `childs` of a folder may have gone.
pub data Shrunk (n : ℕ) (t t' : Tree) : Type 0 where
  shrunk :
      t'.id_nodes ≡ t.id_nodes
      → t'.names ≡ t.names
      → t'.parents ≡ t.parents
      → t'.cache_scanned_folders ≡ t.cache_scanned_folders
      → ((m : ℕ) (s : String) (c : ℕ) → child m s t' ≡ some c → child m s t ≡ some c)
      → ((m : ℕ) → (n == m) ≡ false → lookup m t'.childs ≡ lookup m t.childs)
      → Shrunk n t t'

Shrunk-refl : (n : ℕ) (t : Tree) → Shrunk n t t
Shrunk-refl n t = shrunk refl refl refl refl (λ m s c h. h) λ m h. refl

pub Shrunk-trans : (n : ℕ) (t t1 t2 : Tree) → Shrunk n t t1 → Shrunk n t1 t2 → Shrunk n t t2
Shrunk-trans n t t1 t2 (shrunk a b c d e f) (shrunk a' b' c' d' e' f') =
    shrunk (a' ∙ a) (b' ∙ b) (c' ∙ c) (d' ∙ d) (λ m s x h. e m s x (e' m s x h))
      λ m h. f' m h ∙ f m h

-- Childs that are all among those of before.
Fewer : List (String × ℕ) → List (String × ℕ) → Type 0
Fewer c d = (s : String) (x : ℕ) → lookup s d ≡ some x → lookup s c ≡ some x

delete-Fewer : (s : String) (c : List (String × ℕ)) → Fewer c (delete s c)
unfolding Fewer
delete-Fewer s c r x h = absent (s == r) (lookup r c) x (sym (lookup-delete s r c) ∙ h)
  where
    absent : (e : Bool) (o : Option ℕ) (x : ℕ) → (if e then none else o) ≡ some x → o ≡ some x
    absent true o x h = cc
    absent false o x h = h

keep_only-Fewer : (n : ℕ) (c d : List (String × ℕ)) → Fewer d (keep_only n c d)
unfolding Fewer keep_only
keep_only-Fewer n [] d s x h = h
keep_only-Fewer n ((r, y) ∷ c) d s x h = elim (Bool-cases (y == n)) [
  | inl e ↦
      keep_only-Fewer n c d s x
        (subst (λ b. lookup s (keep_only n c (if b then d else delete r d)) ≡ some x) e h)
  | inr e ↦ delete-Fewer r d s x (
      keep_only-Fewer n c (delete r d) s x
        (subst (λ b. lookup s (keep_only n c (if b then d else delete r d)) ≡ some x) e h))
]

abbrev pub within : String → Option (List (String × ℕ)) → Option ℕ
within s o = elim o [ none ↦ none | some c ↦ lookup s c ]

Fewer-childs :
    (n : ℕ) (t : Tree) (c d : List (String × ℕ))
    → lookup n t.childs ≡ some c
    → Fewer c d
    → Shrunk n t (record t { childs = insert n d t.childs })
unfolding child Fewer
Fewer-childs n t c d h f =
    shrunk refl refl refl refl (λ m s x k. there m s x (n == m) refl k)
      λ m e. lookup-insert_ne n m d t.childs e
  where
    there :
        (m : ℕ) (s : String) (x : ℕ) (e : Bool)
        → (n == m) ≡ e
        → child m s (record t { childs = insert n d t.childs }) ≡ some x
        → child m s t ≡ some x
    there m s x true e k =
        let same : n ≡ m = (nat_eq.decides n m).0 e in
        let new : lookup m (insert n d t.childs) ≡ some d = lookup-insert n m d t.childs ∙ rw e in
        subst (λ j. child j s t ≡ some x) same
          (ap (within s) h ∙ f s x (sym (ap (within s) new) ∙ k))
    there m s x false e k = sym (ap (within s) (lookup-insert_ne n m d t.childs e)) ∙ k

-- The rest of the state is not looked at.
same_childs :
    (n : ℕ) (t t' : Tree)
    → t'.id_nodes ≡ t.id_nodes
    → t'.names ≡ t.names
    → t'.parents ≡ t.parents
    → t'.cache_scanned_folders ≡ t.cache_scanned_folders
    → t'.childs ≡ t.childs
    → Shrunk n t t'
unfolding child
same_childs n t t' a b c d e =
    shrunk a b c d (λ m s x h. ap (λ k. within s (lookup m k)) (sym e) ∙ h) λ m h. ap (lookup m) e

module _ (ctx : Context) (n : ℕ) where
  Now : Tree → Result Failure (Unit {0}) × Tree → Type 0
  Now t r = Shrunk n t r.1

  asks : (t : Tree) → Shrunk n t (childs_of n t).1
  asks t =
      on_option (λ (r : Result Failure (List (String × ℕ)) × Tree). Shrunk n t r.1)
        (lookup n t.childs) _ _ (Shrunk-refl n t) λ c _. Shrunk-refl n t

  hash_source-Shrunk :
      (lst : List String) (s : String) (x : ℕ) (t : Tree)
      → Shrunk n t (hash_source ctx n lst s x t).1
  unfolding hash_source Now
  hash_source-Shrunk lst s x t =
      on_if (Now t) (not (is_kind file x)) (ok tt, t) _ (λ _. Shrunk-refl n t)
        λ _.
          on_if (Now t) (mem s lst) _ _
            (λ _.
              on_option (Now t) (ctx.disk.h_file _) (err waf_error, t) _ (Shrunk-refl n t)
                λ h _. same_childs n t _ refl refl refl refl refl)
            λ _.
              on_option
                (λ k. Shrunk n t (record t { source_sigs = delete x t.source_sigs; childs = k }))
                (lookup n t.childs) t.childs _ (same_childs n t _ refl refl refl refl refl)
                λ c h.
                  Shrunk-trans n t (record t { childs = insert n (delete s c) t.childs }) _
                    (Fewer-childs n t c (delete s c) h (delete-Fewer s c))
                    (same_childs n _ _ refl refl refl refl refl)

  hash_sources-Shrunk :
      (lst : List String) (c : List (String × ℕ)) (t : Tree)
      → Shrunk n t (hash_sources ctx n lst c t).1
  unfolding hash_sources
  hash_sources-Shrunk lst [] t = Shrunk-refl n t
  hash_sources-Shrunk lst ((s, x) ∷ c) t =
      related (Shrunk n) (Shrunk-trans n) (hash_source ctx n lst s x)
        (λ _. hash_sources ctx n lst c) (hash_source-Shrunk lst s x)
        (λ _. hash_sources-Shrunk lst c) t

  remove_childs-Shrunk :
      (variant : String) (t : Tree) → Shrunk n t (remove_childs ctx n variant t).1
  unfolding remove_childs Now
  remove_childs-Shrunk variant t =
      on_option (Now t) (lookup variant t.variant_sigs) (err key_error, t) _ (Shrunk-refl n t)
        λ sigs _.
          on_option (Now t) (lookup n t.childs) (err attribute_error, t) _ (Shrunk-refl n t)
            λ c h.
              let fewer =
                Fewer-childs n t c (keep_only ctx.bldnode c c) h
                  (keep_only-Fewer ctx.bldnode c c) in
              Shrunk-trans n t (record t { childs = insert n (keep_only ctx.bldnode c c) t.childs })
                _ fewer (same_childs n _ _ refl refl refl refl refl)

  listdir_bld-Shrunk :
      (c : List (String × ℕ)) (lst : List String) (variant : String) (t : Tree)
      → Shrunk n t (listdir_bld c lst variant t).1
  unfolding listdir_bld Now
  listdir_bld-Shrunk c lst variant t =
      on_option (Now t) (lookup variant t.variant_sigs) (err key_error, t) _ (Shrunk-refl n t)
        λ sigs _. same_childs n t _ refl refl refl refl refl

  scan_variant-Shrunk :
      (variant : String) (c : List (String × ℕ)) (t : Tree)
      → Shrunk n t (scan_variant ctx n variant c t).1
  unfolding scan_variant Now
  scan_variant-Shrunk variant c t =
      on_option (Now t) (ctx.disk.listdir (sub_path ctx n variant t))
        (remove_childs ctx n variant t) (λ lst. listdir_bld c lst variant t)
        (remove_childs-Shrunk variant t) λ lst _. listdir_bld-Shrunk c lst variant t

  scan_variants-Shrunk : (l : List String) (t : Tree) → Shrunk n t (scan_variants ctx n l t).1
  unfolding scan_variants
  scan_variants-Shrunk [] t = Shrunk-refl n t
  scan_variants-Shrunk (variant ∷ l) t =
      related (Shrunk n) (Shrunk-trans n) (childs_of n)
        (λ c. scan_variant ctx n variant c >> scan_variants ctx n l) asks
        (λ c.
          related (Shrunk n) (Shrunk-trans n) (scan_variant ctx n variant c)
            (λ _. scan_variants ctx n l) (scan_variant-Shrunk variant c)
            λ _. scan_variants-Shrunk l)
        t

  pub scan_folder-Shrunk : (t : Tree) → Shrunk n t (scan_folder ctx n t).1
  unfolding scan_folder
  scan_folder-Shrunk t =
      Shrunk-trans n t
        (record t { cache_dir_contents = insert n (contents ctx n t) t.cache_dir_contents }) _
        (same_childs n t _ refl refl refl refl refl)
        (related (Shrunk n) (Shrunk-trans n) (childs_of n)
          (λ c. hash_sources ctx n (contents ctx n t) c >> scan_variants ctx n ctx.lst_variants)
          asks
          (λ c.
            related (Shrunk n) (Shrunk-trans n) (hash_sources ctx n (contents ctx n t) c)
              (λ _. scan_variants ctx n ctx.lst_variants) (hash_sources-Shrunk (contents ctx n t) c)
              λ _. scan_variants-Shrunk ctx.lst_variants)
          _)
