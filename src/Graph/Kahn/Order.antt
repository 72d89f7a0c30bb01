-- ===== src/Graph/Kahn/Order.antt =====
-- The order that Kahn's algorithm makes.
use mathlib.Core.List.{append_assoc, append-nil}
use dsa_guide.Prelude.{
  ℕ, zero, suc, ◌+◌, ◌^◌, ◌<◌, ◌≡◌, ◌⊎◌, inl, inr, refl, sym, ◌∙◌, ap, subst, Bool, false, true,
  List, [], ◌∷◌, ◌++◌, List-cases, Bool-cases, length, length-append, length-replicate, length-set,
  replicate, set, get_or, load-ok, ok, Run, Returns, returns, Returns-bind, Returns-map, Returns-if,
  ℕ_discrete, arith, ℤ, pos, ◌==ℤ◌, if◌then◌else◌,
}
use dsa_guide.Graph.AdjacencyList.Marks.{
  unseen, unseen-replicate, unseen-none, unseen-all, Marked, Marked-set, Marked-set_self,
  Marked-set_before, Marked-blank, Marked-lt, In, Distinct, In-append, In-append_left,
  In-append_right,
}
use dsa_guide.Graph.Kahn.Degrees.{due, due-set, due-Marked, due-none, row-lt, Distinct-apart}
use dsa_guide.Graph.Kahn.Queue.{
  IsOrder, first, behind, queued, left, IsState, Queued, Ready, enqueue-Queued, lower_loop-Queued,
  pos-zero, pos-more,
}
use dsa_guide.Graph.Kahn.{Kahn, enqueue, start_loop, kahn_loop, kahn}

-- The order ends only where each vertex that is not in it has an edge from one that is not in it either.
pub record IsSort (n : ℕ) (rows : List (List ℕ)) (l : List ℕ) : Type 0 where
  pub order : IsOrder n rows l
  pub whole : (v : ℕ) → v < n → ((u : ℕ) → In v (get_or rows u []) → In u l) → In v l
  pub full : length l ≡ n → (v : ℕ) → v < n → In v l
  pub counted : ((v : ℕ) → v < n → In v l) → length l ≡ n

module _ (n : ℕ) (rows : List (List ℕ)) where
  -- One vertex of the first loop.
  offer-Queued :
      (done vis : List Bool) (s : Kahn) (i : ℕ)
      → IsState n rows done [] vis s
      → i < n
      → get_or vis i false ≡ false
      → Returns
          (λ s'.
            (q : Queued n rows done [] vis s s') × (left rows done [] i ≡ 0 → Marked q.flags i)
            × ((w : ℕ) → Marked q.flags w → (w ≡ i) ⊎ Marked vis w))
          (if get_or s.indeg i (pos 0) ==ℤ pos 0 then enqueue n s i else ok s)
  offer-Queued done vis s i st inside clear =
      let d_eq : get_or s.indeg i (pos 0) ≡ pos (left rows done [] i) = st.degrees i inside in
      Returns-if (get_or s.indeg i (pos 0) ==ℤ pos 0)
        (λ e.
          Returns-map
            (enqueue-Queued n rows done [] vis s i st inside clear
              (pos-zero _ (subst (λ d. (d ==ℤ pos 0) ≡ true) d_eq e)))
            λ s' p. (p.0, λ none. p.1, p.2))
        (λ e. returns (
          record { flags = vis; state = st; work_eq = refl; grows = λ w m. m },
          λ none. absurd (pos-more _ (subst (λ d. (d ==ℤ pos 0) ≡ false) d_eq e) none),
          λ w m. inr m,
        ))

  start_loop-Queued :
      (done : List Bool) (k i : ℕ) (vis : List Bool) (s : Kahn)
      → i + k ≡ n
      → IsState n rows done [] vis s
      → ((v : ℕ) → Marked vis v → v < i)
      → ((v : ℕ) → v < i → left rows done [] v ≡ 0 → Marked vis v)
      → Returns
          (λ s'. (q : Queued n rows done [] vis s s') × Ready n rows done [] q.flags)
          (start_loop n k i s)
  unfolding start_loop
  start_loop-Queued done zero i vis s e st below ready = returns (
    record { flags = vis; state = st; work_eq = refl; grows = λ w m. m },
    λ v inside none. ready v (omega (arith, e, inside)) none,
  )
  start_loop-Queued done (suc k) i vis s e st below ready =
      let within : i < length s.indeg = omega (arith, e, st.cells) in
      let clear : get_or vis i false ≡ false = elim (Bool-cases (get_or vis i false)) [
        | inl m ↦ absurd (omega (arith, below i m))
        | inr m ↦ m
      ] in
      rw (load-ok s.indeg i (pos 0) within) (
        Returns-bind (offer-Queued done vis s i st (omega (arith, e)) clear) λ m a.
          Returns-map
            (start_loop-Queued done k (i + 1) a.0.flags m (omega (arith, e)) a.0.state
              (λ v b. elim (a.2 v b) [
                | inl q ↦ omega (arith, q)
                | inr q ↦ omega (arith, below v q)
              ])
              (λ v h none. elim (ℕ_discrete i v) [
                | yes q ↦
                    subst (Marked a.0.flags) q
                      (a.1 (subst (λ x. left rows done [] x ≡ 0) (sym q) none))
                | no ne ↦ a.0.grows v (ready v (omega (arith, h, ne)) none)
              ]))
            λ s' b. (
              record {
                flags = b.0.flags;
                state = b.0.state;
                work_eq = b.0.work_eq ∙ a.0.work_eq;
                grows = λ w c. b.0.grows w (a.0.grows w c);
              },
              b.1,
            ))

  module _ (size : length rows ≡ n) (inside : (u v : ℕ) → In v (get_or rows u []) → v < n) where
    -- One vertex moves from the queue to the order.
    module _ (done vis : List Bool) (s : Kahn) (st : IsState n rows done [] vis s) (v : ℕ)
        (rest : List ℕ) (e : s.pending ≡ v ∷ rest) where
      queued_head : In v (queued s)
      queued_head = In-append_right v s.order s.pending (subst (In v) (sym e) (inl refl))

      taken_lt : v < n
      taken_lt = omega (arith, Marked-lt vis v (st.marks v queued_head), st.size)

      same : queued s ≡ (s.order ++ v ∷ []) ++ rest
      same = ap (λ t. s.order ++ t) e ∙ sym (append_assoc s.order (v ∷ []) rest)

      fresh : ¬ In v s.order
      fresh a = Distinct-apart v s.order s.pending st.distinct a (subst (In v) (sym e) (inl refl))

      not_done : get_or done v false ≡ false
      not_done = elim (Bool-cases (get_or done v false)) [
        | inl m ↦ absurd (fresh (st.taken v m))
        | inr m ↦ m
      ]

      left_eq : (w : ℕ) → left rows done [] w ≡ left rows (set done v true) (get_or rows v []) w
      left_eq w =
          omega (arith, due-set w rows done v (omega (arith, taken_lt, st.size_done)) not_done)

      move-IsState :
          IsState n rows
            (set done v true)
            (get_or rows v [])
            vis
            (record s { pending = rest; order = s.order ++ v ∷ [] })
      move-IsState =
          let within : v < length done = omega (arith, taken_lt, st.size_done) in
          record {
            cells = st.cells;
            size = st.size;
            size_done = length-set done v true ∙ st.size_done;
            degrees = λ w h. st.degrees w h ∙ ap pos (left_eq w);
            small = λ w h. omega (arith, left_eq w, st.small w h);
            room = st.room;
            held = omega (arith, length-append s.order (v ∷ []), ap length e, st.held);
            listed = λ w m. subst (In w) same (st.listed w m);
            marks = λ w a. st.marks w (subst (In w) (sym same) a);
            distinct = subst Distinct same st.distinct;
            free = λ w m. sym (left_eq w) ∙ st.free w m;
            taken = λ w m. elim (Marked-set done v within w m) [
              | inl p ↦ In-append_right w s.order (v ∷ []) (inl (sym p))
              | inr p ↦ In-append_left w s.order (v ∷ []) (st.taken w p)
            ];
            done_all = λ w a. elim (In-append w s.order (v ∷ []) a) [
              | inl p ↦ Marked-set_before done v within w (st.done_all w p)
              | inr p ↦ elim p [
                | inl q ↦ subst (Marked (set done v true)) q (Marked-set_self done v within)
                | inr q ↦ absurd q
              ]
            ];
            order = behind s.order v st.order taken_lt fresh λ u a. st.taken u (
                due-Marked v rows done u (omega (arith, row-lt v rows u a, size, st.size_done))
                  (omega (arith, st.free v (st.marks v queued_head))) a);
          }

    finished :
        (done vis : List Bool) (s : Kahn)
        → IsState n rows done [] vis s
        → Ready n rows done [] vis
        → s.pending ≡ []
        → IsSort n rows s.order
    finished done vis s st ready e =
        let all_out : queued s ≡ s.order = ap (λ t. s.order ++ t) e ∙ append-nil s.order in
        record {
          order = st.order;
          whole = λ v h preds. subst (In v) all_out (
              st.listed v (
                ready v h
                  (omega (arith, due-none v rows done (λ u a. st.done_all u (preds u a))))));
          full = λ c v h. subst (In v) all_out (
              st.listed v (
                unseen-none vis v (omega (arith, c, st.held, ap length e, st.room))
                  (omega (arith, h, st.size))));
          counted = λ all. omega (
            arith,
            unseen-all vis (λ v h.
                st.marks v (subst (In v) (sym all_out) (all v (omega (arith, h, st.size))))),
            st.held,
            ap length e,
            st.room,
          );
        }

    kahn_loop-IsSort :
        (next : ℕ → Run (List ℕ))
        → ((v : ℕ) → v < n → next v ≡ ok (get_or rows v []))
        → (fuel : ℕ) (done vis : List Bool) (s : Kahn) → IsState n rows done [] vis s
        → Ready n rows done [] vis
        → unseen vis + length s.pending < fuel
        → Returns (λ s'. IsSort n rows s'.order) (kahn_loop fuel n next s)
    unfolding kahn_loop
    kahn_loop-IsSort next reads zero done vis s st ready enough = absurd (omega arith)
    kahn_loop-IsSort next reads (suc fuel) done vis s st ready enough =
        elim (List-cases s.pending) [
          | inl e ↦ rw (e, kahn_loop) (returns (finished done vis s st ready e))
          | inr (v, rest, e) ↦
              rw (e, kahn_loop)
                (let here = taken_lt done vis s st v rest e in
                  rw (reads v here) (
                    Returns-bind
                      (lower_loop-Queued n rows (set done v true) (get_or rows v []) vis
                        (record s { pending = rest; order = s.order ++ v ∷ [] })
                        (move-IsState done vis s st v rest e)
                        (λ w h none. ready w h (left_eq done vis s st v rest e w ∙ none))
                        (inside v))
                      λ s' q.
                        kahn_loop-IsSort next reads fuel (set done v true) q.0.flags s' q.0.state
                          q.1 (omega (arith, q.0.work_eq, ap length e, enough))))
        ]

  pub kahn-IsSort :
      (next : ℕ → Run (List ℕ)) (indeg : List ℤ)
      → length rows ≡ n
      → ((u v : ℕ) → In v (get_or rows u []) → v < n)
      → ((v : ℕ) → v < n → next v ≡ ok (get_or rows v []))
      → length indeg ≡ n
      → ((v : ℕ) → v < n → get_or indeg v (pos 0) ≡ pos (due v rows (replicate n false)))
      → ((v : ℕ) → v < n → due v rows (replicate n false) < 2 ^ 31)
      → Returns (IsSort n rows) (kahn n next indeg)
  unfolding kahn
  kahn-IsSort next indeg size inside reads cells degrees few =
      let blank : List Bool = replicate n false in
      let none : (v : ℕ) → ¬ Marked blank v = Marked-blank n in
      let start : Kahn = record { indeg = indeg; pending = []; back = 0; order = [] } in
      let st : IsState n rows blank [] blank start = record {
        cells = cells;
        size = length-replicate n false;
        size_done = length-replicate n false;
        degrees = λ v h. degrees v h ∙ ap pos (omega arith);
        small = λ v h. omega (arith, few v h);
        room = omega (arith, unseen-replicate n);
        held = omega arith;
        listed = λ v m. absurd (none v m);
        marks = λ v a. absurd a;
        distinct = tt;
        free = λ v m. absurd (none v m);
        taken = λ v m. absurd (none v m);
        done_all = λ v a. absurd a;
        order = first;
      } in
      Returns-bind
        (start_loop-Queued blank n 0 blank start (omega arith) st (λ v m. absurd (none v m))
          (λ v h e. absurd (omega (arith, h))))
        λ s q.
          Returns-bind
            (kahn_loop-IsSort size inside next reads (n + 1) blank q.0.flags s q.0.state q.1
              (omega (arith, q.0.work_eq, unseen-replicate n)))
            λ s' sorted. returns sorted
