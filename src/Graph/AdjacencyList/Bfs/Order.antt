-- ===== src/Graph/AdjacencyList/Bfs/Order.antt =====
-- What `graph_bfs` visits.
use mathlib.Core.List.{append_assoc, append-nil}
use dsa_guide.Prelude.{
  pos, ℕ, zero, suc, ◌+◌, ◌<◌, ◌≡◌, inl, inr, refl, sym, ap, ◌∙◌, subst, false, List, [], ◌∷◌, ◌++◌,
  List-cases, length, length-replicate, replicate, load-ok, Returns, returns, Returns-bind, arith,
}
use dsa_guide.Graph.AdjacencyList.{GEdge, Graph}
use dsa_guide.Graph.AdjacencyList.Walks.{Target, edges, IsGraph, Reach, here, step, Visits}
use dsa_guide.Graph.AdjacencyList.Marks.{
  unseen, unseen-replicate, get_or-blank, Marked-blank, Marked, In, Distinct, In-append,
  In-append_right, Marked-lt,
}
use dsa_guide.Graph.AdjacencyList.Bfs.{Bfs, bfs_loop, graph_bfs}
use dsa_guide.Graph.AdjacencyList.Bfs.Scan.{queued, IsState, Scanned, enqueue-Scanned, scan-Scanned}

module _ (g : Graph) (graph : IsGraph g) (src : ℕ) where
  -- Between two rounds: what is taken out has all its targets flagged.
  record Inv (s : Bfs) : Type 0 where
    state : IsState g.n s
    source : Marked s.vis src
    sound : (v : ℕ) → Marked s.vis v → Reach g src v
    closed : (u v : ℕ) → In u s.order → Target v (edges g u) → Marked s.vis v

  finished : (s : Bfs) → Inv s → s.pending ≡ [] → Visits g src s.order
  finished s i e =
      let whole : queued s ≡ s.order = ap (λ t. s.order ++ t) e ∙ append-nil s.order in
      record {
        distinct = subst Distinct whole i.state.distinct;
        reached = λ v a. i.sound v (i.state.marks v (subst (In v) (sym whole) a));
        all = λ v r. subst (In v) whole (i.state.listed v (reach_marked r));
      }
    where
      reach_marked : {v : ℕ} → Reach g src v → Marked s.vis v
      reach_marked here = i.source
      reach_marked (step {u} {v} r t) =
          i.closed u v
            (subst (In u) (ap (λ t. s.order ++ t) e ∙ append-nil s.order)
              (i.state.listed u (reach_marked r)))
            t

  head_flag :
      (s : Bfs) (u : ℕ) (rest : List ℕ) → s.pending ≡ u ∷ rest → IsState g.n s → Marked s.vis u
  head_flag s u rest e st =
      st.marks u (In-append_right u s.order s.pending (subst (In u) (sym e) (inl refl)))

  -- One round takes `u` out and scans its edges.
  round-Inv :
      (s s' : Bfs) (u : ℕ) (rest : List ℕ)
      → s.pending ≡ u ∷ rest
      → Inv s
      → Scanned g.n (edges g u) (record s { pending = rest; order = s.order ++ u ∷ [] }) s'
      → Inv s'
  round-Inv s s' u rest e i sc = record {
    state = sc.state;
    source = sc.grows src i.source;
    sound = λ v m. elim (sc.new v m) [
      | inl k ↦ i.sound v k
      | inr t ↦ step (i.sound u (head_flag s u rest e i.state)) t
    ];
    closed = λ a v in_order t.
        elim (In-append a s.order (u ∷ []) (subst (In a) sc.order_eq in_order)) [
          | inl k ↦ sc.grows v (i.closed a v k t)
          | inr k ↦ elim k [
            | inl q ↦ sc.targets v (subst (λ x. Target v (edges g x)) (sym q) t)
            | inr q ↦ absurd q
          ]
        ];
  }

  moved-IsState :
      (s : Bfs) (u : ℕ) (rest : List ℕ)
      → s.pending ≡ u ∷ rest
      → IsState g.n s
      → IsState g.n (record s { pending = rest; order = s.order ++ u ∷ [] })
  moved-IsState s u rest e st =
      let same : queued s ≡ (s.order ++ u ∷ []) ++ rest =
        ap (λ t. s.order ++ t) e ∙ sym (append_assoc s.order (u ∷ []) rest) in
      record {
        size = st.size;
        room = st.room;
        listed = λ v m. subst (In v) same (st.listed v m);
        marks = λ v a. st.marks v (subst (In v) (sym same) a);
        distinct = subst Distinct same st.distinct;
      }

  bfs_loop-Visits :
      (fuel : ℕ) (s : Bfs)
      → Inv s
      → unseen s.vis + length s.pending < fuel
      → Returns (λ t. Visits g src t.order) (bfs_loop fuel g s)
  unfolding bfs_loop
  bfs_loop-Visits zero s i enough = absurd (omega arith)
  bfs_loop-Visits (suc fuel) s i enough = elim (List-cases s.pending) [
    | inl e ↦ rw (e, bfs_loop) (returns (finished s i e))
    | inr (u, rest, e) ↦
        rw (e, bfs_loop)
          (let moved : Bfs = record s { pending = rest; order = s.order ++ u ∷ [] } in
            let inside : u < length g.adj =
              omega (
                arith,
                graph.size,
                i.state.size,
                Marked-lt s.vis u (head_flag s u rest e i.state),
              ) in
            rw (load-ok g.adj u [] inside) (
              Returns-bind
                (scan-Scanned g.n (edges g u) moved (moved-IsState s u rest e i.state)
                  (graph.inside u))
                λ s' sc.
                  bfs_loop-Visits fuel s' (round-Inv s s' u rest e i sc)
                    (omega (arith, sc.work_eq, ap length e))))
  ]

-- From a vertex of a graph whose edges stay inside, `graph_bfs` returns: its loop ends within n + 1
-- rounds, and the queue is never written past its n cells. The order it returns has each vertex once,
-- and just those to which a walk from `src` leads.
pub graph_bfs-Visits :
    (g : Graph) (src : ℕ) → IsGraph g → src < g.n → Returns (Visits g src) (graph_bfs g src)
unfolding graph_bfs
graph_bfs-Visits g src graph inside =
    let e : GEdge = record { to = src; weight = pos 0 } in
    let blank : Bfs = record { vis = replicate g.n false; pending = []; back = 0; order = [] } in
    let clear = get_or-blank g.n in
    let start : IsState g.n blank = record {
      size = length-replicate g.n false;
      room = omega (arith, unseen-replicate g.n);
      listed = λ v m. absurd (Marked-blank g.n v m);
      marks = λ v a. absurd a;
      distinct = tt;
    } in
    Returns-bind (enqueue-Scanned g.n blank e start inside (clear src)) λ s sc.
      Returns-bind
        (bfs_loop-Visits g graph src (g.n + 1) s
          (record {
            state = sc.state;
            source = sc.targets src (inl refl);
            sound = λ v m. elim (sc.new v m) [
              | inl k ↦ absurd (Marked-blank g.n v k)
              | inr t ↦ elim t [ inl q ↦ subst (Reach g src) q here | inr q ↦ absurd q ]
            ];
            closed = λ u v a t. absurd (subst (In u) sc.order_eq a);
          })
          (omega (arith, sc.work_eq, unseen-replicate g.n)))
        λ t v. returns v
