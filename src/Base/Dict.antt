-- ===== src/Base/Dict.antt =====
-- Python dictionaries as association lists.
use mathlib.Core.Path.{◌≡◌, refl, ◌∙◌}
use mathlib.Core.Bool.{false}
use mathlib.Core.Option.{Option, none, some}
use mathlib.Core.List.{List, [], ◌∷◌}
use native.Mathlib.Omega.{arith}
use meguro.Base.Tests.{Key, ◌==◌, beq_refl, if◌then◌else◌}

module _ {ℓ κ} {K : Type ℓ} {V : Type κ} ⦃key : Key K⦄ where
  -- `d.get(k)`, with the difference between a missing key and a stored `None` kept.
  unfoldable pub lookup : K → List (K × V) → Option V
  lookup k [] = none
  lookup k ((first, v) ∷ rest) = let later = lookup k rest in if first == k then some v else later

  -- `d[k] = v`
  unfoldable pub insert : K → V → List (K × V) → List (K × V)
  insert k v [] = (k, v) ∷ []
  insert k v ((first, w) ∷ rest) =
      let later = insert k v rest in if first == k then (k, v) ∷ rest else (first, w) ∷ later

  -- `del d[k]`; every entry of that key goes.
  unfoldable pub delete : K → List (K × V) → List (K × V)
  delete k [] = []
  delete k ((first, w) ∷ rest) =
      let later = delete k rest in if first == k then later else (first, w) ∷ later

  module _ (k j : K) where
    pub lookup-insert :
        (v : V) (d : List (K × V))
        → lookup j (insert k v d) ≡ (if k == j then some v else lookup j d)
    unfolding insert lookup
    lookup-insert v [] = refl
    lookup-insert v ((first, w) ∷ rest) =
        let ih = lookup-insert v rest in
        ground (arith, key.decides first j, key.decides first k, ih, key.decides k j)

    pub lookup-insert_ne :
        (v : V) (d : List (K × V)) → (k == j) ≡ false → lookup j (insert k v d) ≡ lookup j d
    lookup-insert_ne v d ne = lookup-insert v d ∙ rw ne

    pub lookup-delete :
        (d : List (K × V)) → lookup j (delete k d) ≡ (if k == j then none else lookup j d)
    unfolding delete lookup
    lookup-delete [] = ground arith
    lookup-delete ((first, w) ∷ rest) =
        let ih = lookup-delete rest in
        ground (arith, key.decides first j, key.decides first k, ih, key.decides k j)

  pub lookup-insert_self : (k : K) (v : V) (d : List (K × V)) → lookup k (insert k v d) ≡ some v
  lookup-insert_self k v d = lookup-insert k k v d ∙ rw (beq_refl k)
