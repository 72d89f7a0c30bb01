-- ===== src/Graph/UnionFind/Union.antt =====
-- `uf_union` joins two sets, and leaves all others.
use dsa_guide.Prelude.{
  ℕ, ◌+◌, ◌-◌, ◌%◌, ◌^◌, ◌<◌, ◌≤◌, ◌≡◌, ◌≢◌, ◌⊎◌, inl, inr, refl, sym, ap, ◌∙◌, Bool, not, List,
  ltb, ◌==◌, if◌then◌else◌, Bool-cases, ℕ_discrete, load-ok, store-ok, length, set, length-set,
  get_or-set_self, get_or-set_ne, subst, Returns, returns, Returns-bind, Returns-map, arith,
}
use dsa_guide.Graph.UnionFind.{UnionFind, link, unite, uf_union}
use dsa_guide.Graph.UnionFind.Roots.{up, Root, root, above, IsForest, Root-fixed, Root-lt}
use dsa_guide.Graph.UnionFind.Find.{SameRoots, SameRoots-trans, SameRoots-back, uf_find-Found}

-- The ranks after `winner` got the root `loser` below it.
record Raised (rank rank' : List ℕ) (winner loser : ℕ) : Type 0 where
  pub same_length : length rank' ≡ length rank
  pub elsewhere : (y : ℕ) → y ≢ winner → up rank' y ≡ up rank y
  pub not_less : up rank winner ≤ up rank' winner
  pub at_most : up rank' winner ≤ up rank winner + 1
  pub over : up rank loser < up rank' winner

module _ {p rank : List ℕ} {limit winner loser : ℕ} (f : IsForest p rank limit)
    (hw : winner < length p) (hl : loser < length p) (fixed_winner : up p winner ≡ winner)
    (fixed_loser : up p loser ≡ loser) (apart : loser ≢ winner) where
  up-loser : up (set p loser winner) loser ≡ winner
  up-loser = get_or-set_self p loser winner 0 hl

  up-other : (z : ℕ) → loser ≢ z → up (set p loser winner) z ≡ up p z
  up-other z ne = get_or-set_ne p loser z winner 0 ne

  Root-winner : Root (set p loser winner) winner winner
  Root-winner = root winner (up-other winner apart ∙ fixed_winner)

  Root-loser : Root (set p loser winner) loser winner
  Root-loser =
      above loser (λ e. apart (sym e ∙ up-loser))
        (subst (λ y. Root (set p loser winner) y winner) (sym up-loser) Root-winner)

  -- The set of the loser goes over to the winner.
  Root-joined : {z s : ℕ} → Root p z s → s ≡ loser → Root (set p loser winner) z winner
  Root-joined (root z e) same =
      subst (λ y. Root (set p loser winner) y winner) (sym same) Root-loser
  Root-joined (above z ne t) same =
      let other : loser ≢ z = λ e. ne (subst (λ y. up p y ≡ y) e fixed_loser) in
      above z (λ e. ne (sym (up-other z other) ∙ e))
        (subst (λ y. Root (set p loser winner) y winner) (sym (up-other z other))
          (Root-joined t same))

  -- Every other set keeps its root.
  Root-kept : {z s : ℕ} → Root p z s → s ≢ loser → Root (set p loser winner) z s
  Root-kept (root z e) ne = root z (up-other z (λ d. ne (sym d)) ∙ e)
  Root-kept {s} (above z ne t) different =
      let other : loser ≢ z = λ e. ne (subst (λ y. up p y ≡ y) e fixed_loser) in
      above z (λ e. ne (sym (up-other z other) ∙ e))
        (subst (λ y. Root (set p loser winner) y s) (sym (up-other z other))
          (Root-kept t different))

  rank-le :
      {rank' : List ℕ}
      → Raised rank rank' winner loser
      → (y : ℕ) → (up rank y ≤ up rank' y) × (up rank' y ≤ up rank y + 1)
  rank-le {rank'} r y = elim (ℕ_discrete y winner) [
    | yes e ↦
        subst (λ w. (up rank w ≤ up rank' w) × (up rank' w ≤ up rank w + 1)) (sym e)
          (r.not_less, r.at_most)
    | no ne ↦ (omega (arith, r.elsewhere y ne), omega (arith, r.elsewhere y ne))
  ]

  IsForest-linked :
      {rank' : List ℕ}
      → Raised rank rank' winner loser
      → IsForest (set p loser winner) rank' (limit + 1)
  IsForest-linked {rank'} r = record {
    same_length = r.same_length ∙ f.same_length ∙ sym (length-set p loser winner);
    within = λ z q. elim (ℕ_discrete loser z) [
      | yes e ↦
          omega (arith, ap (up (set p loser winner)) (sym e), up-loser, length-set p loser winner)
      | no ne ↦ omega (
        arith,
        up-other z ne,
        f.within z (omega (arith, length-set p loser winner)),
        length-set p loser winner,
      )
    ];
    rises = λ z q leads. elim (ℕ_discrete loser z) [
      | yes e ↦
          subst (λ y. up rank' z < up rank' y)
            (sym (ap (up (set p loser winner)) (sym e) ∙ up-loser))
            (subst (λ y. up rank' y < up rank' winner) e
              (omega (arith, r.elsewhere loser apart, r.over)))
      | no ne ↦
          let below : up p z ≢ z = λ e. leads (up-other z ne ∙ e) in
          let not_winner : z ≢ winner = λ e. below (subst (λ y. up p y ≡ y) (sym e) fixed_winner) in
          subst (λ y. up rank' z < up rank' y) (sym (up-other z ne))
            (omega (
              arith,
              r.elsewhere z not_winner,
              f.rises z (omega (arith, length-set p loser winner)) below,
              (rank-le r (up p z)).0,
            ))
    ];
    limited = λ z q.
        omega (arith, f.limited z (omega (arith, length-set p loser winner)), (rank-le r z).1);
  }

-- Two sets with the roots `winner` and `loser` become one.
record Linked (limit : ℕ) (uf : UnionFind) (winner loser : ℕ) (r : UnionFind) : Type 0 where
  pub forest : IsForest r.parent r.rank (limit + 1)
  pub length_kept : length r.parent ≡ length uf.parent
  pub count : r.num_components ≡ (uf.num_components + 2 ^ 64 - 1) % 2 ^ 64
  pub joined : {z s : ℕ} → Root uf.parent z s → (s ≡ loser) ⊎ (s ≡ winner) → Root r.parent z winner
  pub others : {z s : ℕ} → Root uf.parent z s → s ≢ loser → Root r.parent z s

link-Linked :
    (limit : ℕ) (uf : UnionFind) (winner loser : ℕ)
    → IsForest uf.parent uf.rank limit
    → winner < length uf.parent
    → loser < length uf.parent
    → up uf.parent winner ≡ winner
    → up uf.parent loser ≡ loser
    → loser ≢ winner
    → up uf.rank loser ≤ up uf.rank winner
    → Returns (Linked limit uf winner loser) (link uf winner loser)
unfolding link
link-Linked limit uf winner loser f hw hl fw fl apart le =
    rw
      (
        store-ok uf.parent loser winner hl,
        load-ok uf.rank winner 0 (omega (arith, f.same_length)),
        load-ok uf.rank loser 0 (omega (arith, f.same_length)),
        store-ok uf.rank winner (up uf.rank winner + 1) (omega (arith, f.same_length)),
      )
      (elim (Bool-cases (up uf.rank winner == up uf.rank loser)) [
        | inl tie ↦ rw tie (
            returns (
              linked (set uf.rank winner (up uf.rank winner + 1)) (record {
                same_length = length-set uf.rank winner (up uf.rank winner + 1);
                elsewhere = λ y ne.
                    get_or-set_ne uf.rank winner y (up uf.rank winner + 1) 0 λ e. ne (sym e);
                not_less = omega (arith, at_winner);
                at_most = omega (arith, at_winner);
                over = omega (arith, at_winner, le);
              })))
        | inr greater ↦ rw greater (
            returns (
              linked uf.rank (record {
                same_length = refl;
                elsewhere = λ y ne. refl;
                not_less = omega arith;
                at_most = omega arith;
                over = ground (arith, greater, le);
              })))
      ])
  where
    at_winner : up (set uf.rank winner (up uf.rank winner + 1)) winner ≡ up uf.rank winner + 1
    at_winner =
        get_or-set_self uf.rank winner (up uf.rank winner + 1) 0 (omega (arith, f.same_length))

    linked :
        (rank' : List ℕ)
        → Raised uf.rank rank' winner loser
        → Linked limit uf winner loser (record uf {
          parent = set uf.parent loser winner;
          rank = rank';
          num_components = (uf.num_components + 2 ^ 64 - 1) % 2 ^ 64;
        })
    linked rank' r = record {
      forest = IsForest-linked f hw hl fw fl apart r;
      length_kept = length-set uf.parent loser winner;
      count = refl;
      joined = λ {z} t which. elim which [
        | inl e ↦ Root-joined f hw hl fw fl apart t e
        | inr e ↦
            subst (Root (set uf.parent loser winner) z) e
              (Root-kept f hw hl fw fl apart t λ d. apart (sym d ∙ e))
      ];
      others = λ t ne. Root-kept f hw hl fw fl apart t ne;
    }

-- What `uf_union` of two elements with the roots `rx` and `ry` returns: whether these are two sets, and
-- the table in which they are one, with the root `winner`; every other set is as it was.
pub record United (limit : ℕ) (uf : UnionFind) (rx ry : ℕ) (r : Bool × UnionFind) : Type 0 where
  pub answers : r.0 ≡ not (rx == ry)
  pub forest : IsForest (r.1).parent (r.1).rank (limit + 1)
  pub length_kept : length (r.1).parent ≡ length uf.parent
  pub count :
      (r.1).num_components
      ≡ (if rx == ry then uf.num_components else (uf.num_components + 2 ^ 64 - 1) % 2 ^ 64)
  pub winner : ℕ
  pub one_of : (winner ≡ rx) ⊎ (winner ≡ ry)
  pub joined : {z s : ℕ} → Root uf.parent z s → (s ≡ rx) ⊎ (s ≡ ry) → Root (r.1).parent z winner
  pub others : {z s : ℕ} → Root uf.parent z s → s ≢ rx → s ≢ ry → Root (r.1).parent z s

unite-United :
    (limit : ℕ) (uf : UnionFind) (rx ry : ℕ)
    → IsForest uf.parent uf.rank limit
    → rx < length uf.parent
    → ry < length uf.parent
    → up uf.parent rx ≡ rx
    → up uf.parent ry ≡ ry
    → Returns (United limit uf rx ry) (unite uf rx ry)
unfolding unite
unite-United limit uf rx ry f hx hy fx fy = elim (Bool-cases (rx == ry)) [
  | inl one ↦
      let same : rx ≡ ry = ground (arith, one) in
      rw one (
        returns (record {
          answers = rw one refl;
          forest = record {
            same_length = f.same_length;
            within = f.within;
            rises = f.rises;
            limited = λ z q. omega (arith, f.limited z q);
          };
          length_kept = refl;
          count = rw one refl;
          winner = rx;
          one_of = inl refl;
          joined = λ {z} t which. elim which [
            | inl e ↦ subst (Root uf.parent z) e t
            | inr e ↦ subst (Root uf.parent z) (e ∙ sym same) t
          ];
          others = λ t a b. t;
        }))
  | inr two ↦
      let apart : rx ≢ ry = λ e. absurd (ground (arith, two, e)) in
      rw
        (
          two,
          load-ok uf.rank rx 0 (omega (arith, f.same_length)),
          load-ok uf.rank ry 0 (omega (arith, f.same_length)),
        )
        (elim (Bool-cases (ltb (up uf.rank rx) (up uf.rank ry))) [
          | inl less ↦ rw less (
              Returns-bind (link-Linked limit uf ry rx f hy hx fy fx apart (ground (arith, less)))
                λ r d. returns (record {
                  answers = rw two refl;
                  forest = d.forest;
                  length_kept = d.length_kept;
                  count = rw two d.count;
                  winner = ry;
                  one_of = inr refl;
                  joined = d.joined;
                  others = λ t a b. d.others t a;
                }))
          | inr greater ↦ rw greater (
              Returns-bind
                (link-Linked limit uf rx ry f hx hy fx fy (λ e. apart (sym e))
                  (ground (arith, greater)))
                λ r d. returns (record {
                  answers = rw two refl;
                  forest = d.forest;
                  length_kept = d.length_kept;
                  count = rw two d.count;
                  winner = rx;
                  one_of = inl refl;
                  joined = λ t which. d.joined t (elim which [ inl e ↦ inr e | inr e ↦ inl e ]);
                  others = λ t a b. d.others t b;
                }))
        ])
]

United-SameRoots :
    (limit : ℕ) (before uf : UnionFind) (rx ry : ℕ) (r : Bool × UnionFind)
    → SameRoots limit before uf
    → United limit uf rx ry r
    → United limit before rx ry r
United-SameRoots limit before uf rx ry r same u = record {
  answers = u.answers;
  forest = u.forest;
  length_kept = u.length_kept ∙ same.length_kept;
  count = u.count ∙ ap (λ n. if rx == ry then n else (n + 2 ^ 64 - 1) % 2 ^ 64) same.count_kept;
  winner = u.winner;
  one_of = u.one_of;
  joined = λ t which. u.joined (same.kept t) which;
  others = λ t a b. u.others (same.kept t) a b;
}

-- `uf_union` of two elements returns, if no rank is past `limit` and `fuel` is greater. It finds the
-- roots of the two. If they are one, it answers false and no root changes. If they are not, it answers
-- true, one of them becomes the root of both sets, every other set keeps its root, and there is one
-- component less; ranks still rise towards the roots, and none is past `limit + 1`.
pub uf_union-United :
    (fuel limit : ℕ) (uf : UnionFind) (x y : ℕ)
    → IsForest uf.parent uf.rank limit
    → x < length uf.parent
    → y < length uf.parent
    → limit < fuel
    → Returns
        (λ r. (rx ry : ℕ) × Root uf.parent x rx × Root uf.parent y ry × United limit uf rx ry r)
        (uf_union fuel uf x y)
unfolding uf_union
uf_union-United fuel limit uf x y f hx hy enough =
    Returns-bind (uf_find-Found fuel limit uf x f hx (omega arith)) λ (rx, one) first.
      let hy' : y < length one.parent = omega (arith, first.same.length_kept) in
      Returns-bind (uf_find-Found fuel limit one y first.same.forest hy' (omega arith))
        λ (ry, two) second.
          let both = SameRoots-trans first.same second.same in
          let root_x = both.kept first.is_root in
          let root_y = second.same.kept second.is_root in
          let hx' : x < length two.parent = omega (arith, both.length_kept) in
          let hy'' : y < length two.parent = omega (arith, both.length_kept) in
          Returns-map
            (unite-United limit two rx ry both.forest (Root-lt both.forest hx' root_x)
              (Root-lt both.forest hy'' root_y) (Root-fixed root_x) (Root-fixed root_y))
            λ r u. (
              rx,
              ry,
              first.is_root,
              SameRoots-back f hy first.same second.is_root,
              United-SameRoots limit uf two rx ry r both u,
            )
