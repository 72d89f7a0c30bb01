-- ===== src/Graph/UnionFind/Create.antt =====
-- `uf_create`: every element is a set of its own.
use dsa_guide.Prelude.{
  ℕ, zero, suc, ◌+◌, ◌<◌, ◌≤◌, ◌≡◌, refl, sym, ap, ◌∙◌, List, ℕ_discrete, store-ok, length,
  replicate, length-replicate, set, length-set, get_or-set_self, get_or-set_ne, Returns, returns,
  Returns-bind, Returns-map, arith,
}
use dsa_guide.Graph.UnionFind.{create_loop, uf_create}
use dsa_guide.Graph.UnionFind.Roots.{up, Root, root, IsForest}

-- The first `i` elements are their own parents.
record OwnParents (size i : ℕ) (p : List ℕ) : Type 0 where
  pub sized : length p ≡ size
  pub own : (z : ℕ) → z < i → up p z ≡ z

create_loop-OwnParents :
    (k i size : ℕ) (p : List ℕ)
    → i + k ≤ size
    → OwnParents size i p
    → Returns (OwnParents size (i + k)) (create_loop k i p)
unfolding create_loop
create_loop-OwnParents zero i size p h o =
    returns (record { sized = o.sized; own = λ z q. o.own z (omega arith) })
create_loop-OwnParents (suc k) i size p h o = rw (store-ok p i i (omega (arith, o.sized))) (
    Returns-map
      (create_loop-OwnParents k (i + 1) size (set p i i) (omega arith) (record {
        sized = length-set p i i ∙ o.sized;
        own = λ z q. elim (ℕ_discrete i z) [
          | yes e ↦
              ap (up (set p i i)) (sym e) ∙ get_or-set_self p i i 0 (omega (arith, o.sized)) ∙ e
          | no ne ↦ get_or-set_ne p i z i 0 ne ∙ o.own z (omega (arith, ne))
        ];
      }))
      λ r d. record { sized = d.sized; own = λ z q. d.own z (omega arith) })

up-replicate : (n z : ℕ) → up (replicate n 0) z ≡ 0
up-replicate zero z = refl
up-replicate (suc n) zero = refl
up-replicate (suc n) (suc z) = up-replicate n z

-- `uf_create` on a block of `n` cells, whatever they hold, returns `n` sets of one element each, all of
-- rank 0.
pub uf_create-Root :
    (block : List ℕ) (n : ℕ)
    → length block ≡ n
    → Returns
        (λ uf.
          IsForest uf.parent uf.rank 0
          × (length uf.parent ≡ n)
          × (uf.num_components ≡ n)
          × ((z : ℕ) → z < n → Root uf.parent z z))
        (uf_create block n)
unfolding uf_create
uf_create-Root block n fits =
    Returns-bind
      (create_loop-OwnParents n 0 n block (omega arith)
        (record { sized = fits; own = λ z q. absurd (omega arith) }))
      λ p o. returns (
        record {
          same_length = length-replicate n 0 ∙ sym o.sized;
          within = λ z q. omega (arith, o.own z (omega (arith, o.sized)));
          rises = λ z q ne. absurd (ne (o.own z (omega (arith, o.sized))));
          limited = λ z q. omega (arith, up-replicate n z);
        },
        o.sized,
        refl,
        λ z q. root z (o.own z (omega arith)),
      )
