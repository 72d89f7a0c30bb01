-- ===== src/Tests/Sets.antt =====
-- src/graph/union_find.c at concrete inputs.
use dsa_guide.Prelude.{ℕ, zero, suc, ◌<◌, ◌≡◌, refl, [], ◌∷◌, ◌==◌, Returns, arith}
use dsa_guide.Graph.UnionFind.{UnionFind, uf_union, uf_connected}
use dsa_guide.Graph.UnionFind.Roots.{up, Root, IsForest}
use dsa_guide.Graph.UnionFind.Find.{SameRoots, uf_connected-Root}
use dsa_guide.Graph.UnionFind.Union.{United, uf_union-United}

abbrev two_sets : UnionFind
two_sets = record { parent = 0 ∷ 1 ∷ []; rank = 0 ∷ 0 ∷ []; n = 2; num_components = 2 }

own : (z : ℕ) → z < 2 → (up (0 ∷ 1 ∷ []) z ≡ z) × (up (0 ∷ 0 ∷ []) z ≡ 0)
own zero q = (refl, refl)
own (suc zero) q = (refl, refl)
own (suc (suc z)) q = absurd (omega arith)

two_sets-IsForest : IsForest two_sets.parent two_sets.rank 0
two_sets-IsForest = record {
  same_length = refl;
  within = λ z q. omega (arith, (own z q).0);
  rises = λ z q ne. absurd (ne (own z q).0);
  limited = λ z q. omega (arith, (own z q).1);
}

uf_union-United_example :
    Returns
      (λ r.
        (rx ry : ℕ) × Root two_sets.parent 0 rx
        × Root two_sets.parent 1 ry
        × United 0 two_sets rx ry r)
      (uf_union 1 two_sets 0 1)
uf_union-United_example =
    uf_union-United 1 0 two_sets 0 1 two_sets-IsForest (omega arith) (omega arith) (omega arith)

uf_connected-Root_example :
    Returns
      (λ r.
        (rx ry : ℕ) × Root two_sets.parent 0 rx
        × Root two_sets.parent 1 ry
        × (r.0 ≡ (rx == ry))
        × SameRoots 0 two_sets r.1)
      (uf_connected 1 two_sets 0 1)
uf_connected-Root_example =
    uf_connected-Root 1 0 two_sets 0 1 two_sets-IsForest (omega arith) (omega arith) (omega arith)
