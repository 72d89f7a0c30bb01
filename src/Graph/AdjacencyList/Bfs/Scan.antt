-- ===== src/Graph/AdjacencyList/Bfs/Scan.antt =====
-- The loop of `graph_bfs` over the edges of one vertex.
use mathlib.Core.List.{append_assoc}
use dsa_guide.Prelude.{
  ℕ, ◌+◌, ◌<◌, ◌≡◌, ◌⊎◌, inl, inr, refl, sym, ◌∙◌, subst, true, false, List, [], ◌∷◌, ◌++◌,
  if◌then◌else◌, Bool-cases, lt→ltb, length, length-append, length-set, set, get_or, load-ok,
  store-ok, ok, Returns, returns, Returns-bind, Returns-map, arith,
}
use dsa_guide.Graph.AdjacencyList.{GEdge}
use dsa_guide.Graph.AdjacencyList.Walks.{Target}
use dsa_guide.Graph.AdjacencyList.Marks.{
  unseen, Marked, unseen-set, Marked-set, Marked-set_self, Marked-set_before, In, Distinct,
  In-append, In-append_left, In-append_right, Distinct-append_last,
}
use dsa_guide.Graph.AdjacencyList.Bfs.{Bfs, enqueue, scan}

-- All that the queue array holds.
abbrev pub queued : Bfs → List ℕ
queued s = s.order ++ s.pending

-- The flags are those of the vertices that the queue array holds, each once, and `back` counts them.
pub record IsState (n : ℕ) (s : Bfs) : Type 0 where
  pub size : length s.vis ≡ n
  pub room : unseen s.vis + s.back ≡ n
  pub listed : (v : ℕ) → Marked s.vis v → In v (queued s)
  pub marks : (v : ℕ) → In v (queued s) → Marked s.vis v
  pub distinct : Distinct (queued s)

-- From `s` to `s'`, flags are set for targets of `es` only, and then all of these are set.
pub record Scanned (n : ℕ) (es : List GEdge) (s s' : Bfs) : Type 0 where
  pub state : IsState n s'
  pub order_eq : s'.order ≡ s.order
  pub work_eq : unseen s'.vis + length s'.pending ≡ unseen s.vis + length s.pending
  pub grows : (v : ℕ) → Marked s.vis v → Marked s'.vis v
  pub targets : (v : ℕ) → Target v es → Marked s'.vis v
  pub new : (v : ℕ) → Marked s'.vis v → Marked s.vis v ⊎ Target v es

pub enqueue-Scanned :
    (n : ℕ) (s : Bfs) (e : GEdge)
    → IsState n s
    → e.to < n
    → get_or s.vis e.to false ≡ false
    → Returns (Scanned n (e ∷ []) s) (enqueue n s e.to)
unfolding enqueue
enqueue-Scanned n s e st inside clear =
    let v = e.to in
    let within : v < length s.vis = omega (arith, inside, st.size) in
    let fewer = unseen-set s.vis v within clear in
    let list_eq = append_assoc s.order s.pending (v ∷ []) in
    rw (store-ok s.vis v true within, lt→ltb s.back n (omega (arith, fewer, st.room)))
      (returns (record {
        state = record {
          size = length-set s.vis v true ∙ st.size;
          room = omega (arith, fewer, st.room);
          listed = λ w m. subst (In w) (list_eq) (elim (Marked-set s.vis v within w m) [
            | inl p ↦ In-append_right w (queued s) (v ∷ []) (inl (sym p))
            | inr p ↦ In-append_left w (queued s) (v ∷ []) (st.listed w p)
          ]);
          marks = λ w i. elim (In-append w (queued s) (v ∷ []) (subst (In w) (sym list_eq) i)) [
            | inl p ↦ Marked-set_before s.vis v within w (st.marks w p)
            | inr p ↦ elim p [
              | inl q ↦ subst (Marked (set s.vis v true)) q (Marked-set_self s.vis v within)
              | inr q ↦ absurd q
            ]
          ];
          distinct =
              subst Distinct list_eq
                (Distinct-append_last v (queued s) st.distinct λ i. cc (st.marks v i));
        };
        order_eq = refl;
        work_eq = omega (arith, fewer, length-append s.pending (v ∷ []));
        grows = Marked-set_before s.vis v within;
        targets = λ w t. elim t [
          | inl q ↦ subst (Marked (set s.vis v true)) q (Marked-set_self s.vis v within)
          | inr q ↦ absurd q
        ];
        new = λ w m. elim (Marked-set s.vis v within w m) [
          | inl p ↦ inr (inl (sym p))
          | inr p ↦ inl p
        ];
      }))

offer-Scanned :
    (n : ℕ) (s : Bfs) (e : GEdge)
    → IsState n s
    → e.to < n
    → Returns (Scanned n (e ∷ []) s) (if get_or s.vis e.to false then ok s else enqueue n s e.to)
offer-Scanned n s e st inside = elim (Bool-cases (get_or s.vis e.to false)) [
  | inl seen ↦ rw seen (
      returns (record {
        state = st;
        order_eq = refl;
        work_eq = refl;
        grows = λ v m. m;
        targets = λ v t. elim t [ inl q ↦ subst (Marked s.vis) q seen | inr q ↦ absurd q ];
        new = λ v m. inl m;
      }))
  | inr clear ↦ rw clear (enqueue-Scanned n s e st inside clear)
]

pub scan-Scanned :
    (n : ℕ) (es : List GEdge) (s : Bfs)
    → IsState n s
    → ((v : ℕ) → Target v es → v < n)
    → Returns (Scanned n es s) (scan n es s)
unfolding scan
scan-Scanned n [] s st inside = returns (record {
  state = st;
  order_eq = refl;
  work_eq = refl;
  grows = λ v m. m;
  targets = λ v t. absurd t;
  new = λ v m. inl m;
})
scan-Scanned n (e ∷ es) s st inside =
    rw (load-ok s.vis e.to false (omega (arith, inside e.to (inl refl), st.size))) (
      Returns-bind (offer-Scanned n s e st (inside e.to (inl refl))) λ m a.
        Returns-map (scan-Scanned n es m a.state λ v t. inside v (inr t)) λ s' b. record {
          state = b.state;
          order_eq = b.order_eq ∙ a.order_eq;
          work_eq = b.work_eq ∙ a.work_eq;
          grows = λ v k. b.grows v (a.grows v k);
          targets =
              λ v t. elim t [ inl q ↦ b.grows v (a.targets v (inl q)) | inr q ↦ b.targets v q ];
          new = λ v k. elim (b.new v k) [
            | inl q ↦ elim (a.new v q) [
              | inl r ↦ inl r
              | inr r ↦ elim r [ inl c ↦ inr (inl c) | inr c ↦ absurd c ]
            ]
            | inr q ↦ inr (inr q)
          ];
        })
