-- ===== src/Graph/UnionFind/Find.antt =====
-- `uf_find` returns the root, and its path compression changes no root.
use dsa_guide.Prelude.{
  ℕ, zero, suc, ◌+◌, ◌<◌, ◌≡◌, ◌≢◌, inl, inr, refl, sym, ◌∙◌, true, false, ◌==◌, ℕ_discrete,
  load-ok, store-ok, length, set, length-set, get_or-set_self, subst, Returns, returns,
  Returns-bind, arith,
}
use dsa_guide.Graph.UnionFind.{UnionFind, uf_find, uf_connected}
use dsa_guide.Graph.UnionFind.Roots.{
  up, Root, root, above, IsForest, Root-unique, Root-rank, Root-exists, Root-compressed,
  IsForest-compressed,
}

-- The table `after` has the roots and the ranks of `before`.
pub record SameRoots (limit : ℕ) (before after : UnionFind) : Type 0 where
  pub forest : IsForest after.parent after.rank limit
  pub ranks : after.rank ≡ before.rank
  pub length_kept : length after.parent ≡ length before.parent
  pub count_kept : after.num_components ≡ before.num_components
  pub kept : {z s : ℕ} → Root before.parent z s → Root after.parent z s

pub SameRoots-trans :
    {limit : ℕ} {a b c : UnionFind}
    → SameRoots limit a b
    → SameRoots limit b c
    → SameRoots limit a c
SameRoots-trans s t = record {
  forest = t.forest;
  ranks = t.ranks ∙ s.ranks;
  length_kept = t.length_kept ∙ s.length_kept;
  count_kept = t.count_kept ∙ s.count_kept;
  kept = λ r. t.kept (s.kept r);
}

-- The roots of `after` are those of `before`.
pub SameRoots-back :
    {limit : ℕ} {before after : UnionFind} {z s : ℕ}
    → IsForest before.parent before.rank limit
    → z < length before.parent
    → SameRoots limit before after
    → Root after.parent z s
    → Root before.parent z s
SameRoots-back {limit} {before} {z} f h same t =
    let (r, u) = Root-exists (limit + 1) z f h (omega arith) in
    subst (Root before.parent z) (Root-unique (same.kept u) t) u

pub record Found (limit : ℕ) (uf : UnionFind) (x : ℕ) (r : ℕ × UnionFind) : Type 0 where
  pub is_root : Root uf.parent x r.0
  pub same : SameRoots limit uf r.1

-- `x` gets the root that was found above it as its parent.
module _ (limit : ℕ) (uf : UnionFind) (x : ℕ) (r : ℕ × UnionFind)
    (f : IsForest uf.parent uf.rank limit) (h : x < length uf.parent) (no_root : up uf.parent x ≢ x)
    (found : Found limit uf (up uf.parent x) r) where
  abbrev compress : UnionFind
  compress = record (r.1) { parent = set (r.1).parent x r.0 }

  Root-of_x : Root uf.parent x r.0
  Root-of_x = above x no_root found.is_root

  -- It was no root, and still is none.
  no_root_left : up (r.1).parent x ≢ x
  no_root_left e =
      let same : r.0 ≡ x = Root-unique (found.same.kept Root-of_x) (root x e) in
      elim (Root-rank f (f.within x h) found.is_root) [
        | inl d ↦ no_root (d ∙ same)
        | inr l ↦
            let lower : up uf.rank (up uf.parent x) < up uf.rank x =
              subst (λ y. up uf.rank (up uf.parent x) < up uf.rank y) same l in
            omega (arith, lower, f.rises x h no_root)
      ]

  within_left : x < length (r.1).parent
  within_left = omega (arith, found.same.length_kept)

  compress-SameRoots : SameRoots limit uf compress
  compress-SameRoots = record {
    forest =
        IsForest-compressed found.same.forest within_left (found.same.kept Root-of_x) no_root_left;
    ranks = found.same.ranks;
    length_kept = length-set (r.1).parent x r.0 ∙ found.same.length_kept;
    count_kept = found.same.count_kept;
    kept = λ t.
        Root-compressed found.same.forest within_left (found.same.kept Root-of_x) no_root_left
          (found.same.kept t);
  }

pub uf_find-Found :
    (fuel limit : ℕ) (uf : UnionFind) (x : ℕ)
    → IsForest uf.parent uf.rank limit
    → x < length uf.parent
    → limit < fuel + up uf.rank x
    → Returns (Found limit uf x) (uf_find fuel uf x)
unfolding uf_find
uf_find-Found zero limit uf x f h enough = absurd (omega (arith, f.limited x h))
uf_find-Found (suc fuel) limit uf x f h enough = elim (ℕ_discrete (up uf.parent x) x) [
  | yes e ↦
      let test : (up uf.parent x == x) ≡ true = ground (arith, e) in
      rw (load-ok uf.parent x 0 h, test)
        (returns (record {
          is_root = subst (Root uf.parent x) (sym e) (root x e);
          same = record {
            forest = f;
            ranks = refl;
            length_kept = refl;
            count_kept = refl;
            kept = λ t. t;
          };
        }))
  | no ne ↦
      let test : (up uf.parent x == x) ≡ false = ground (arith, ne) in
      rw (load-ok uf.parent x 0 h, test)
        (Returns-bind
          (uf_find-Found fuel limit uf (up uf.parent x) f (f.within x h)
            (omega (arith, f.rises x h ne)))
          λ r found.
            let q = within_left limit uf x r f h ne found in
            rw
              (
                store-ok (r.1).parent x r.0 q,
                load-ok (set (r.1).parent x r.0) x 0
                    (omega (arith, q, length-set (r.1).parent x r.0)),
                get_or-set_self (r.1).parent x r.0 0 q,
              )
              (returns (record {
                is_root = Root-of_x limit uf x r f h ne found;
                same = compress-SameRoots limit uf x r f h ne found;
              })))
]

-- `uf_connected` of two elements returns whether they have the same root, and changes no root, if no
-- rank is past `limit` and `fuel` is greater.
pub uf_connected-Root :
    (fuel limit : ℕ) (uf : UnionFind) (x y : ℕ)
    → IsForest uf.parent uf.rank limit
    → x < length uf.parent
    → y < length uf.parent
    → limit < fuel
    → Returns
        (λ r.
          (rx ry : ℕ) × Root uf.parent x rx
          × Root uf.parent y ry
          × (r.0 ≡ (rx == ry))
          × SameRoots limit uf r.1)
        (uf_connected fuel uf x y)
unfolding uf_connected
uf_connected-Root fuel limit uf x y f hx hy enough =
    Returns-bind (uf_find-Found fuel limit uf x f hx (omega arith)) λ (rx, one) first.
      Returns-bind
        (uf_find-Found fuel limit one y first.same.forest (omega (arith, first.same.length_kept))
          (omega arith))
        λ (ry, two) second. returns (
          rx,
          ry,
          first.is_root,
          SameRoots-back f hy first.same second.is_root,
          refl,
          SameRoots-trans first.same second.same,
        )
