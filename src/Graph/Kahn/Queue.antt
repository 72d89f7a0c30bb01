-- ===== src/Graph/Kahn/Queue.antt =====
-- The queue of Kahn's algorithm, and the loop over the targets of a vertex.
use mathlib.Core.List.{append_assoc}
use dsa_guide.Prelude.{
  ℕ, suc, ◌+◌, ◌<◌, ◌≤◌, ◌≡◌, ◌⊎◌, inl, inr, refl, sym, ◌∙◌, ap, subst, Bool, true, false, List, [],
  ◌∷◌, ◌++◌, if◌then◌else◌, Bool-cases, lt→ltb, length, length-append, length-set, set, get_or,
  get_or-set_self, get_or-set_ne, load-ok, store-ok, ok, Returns, returns, Returns-bind,
  Returns-map, Returns-if, ℕ_discrete, arith, ℤ, pos, ◌-ℤ◌, as_int, as_int-pos, ◌^◌, ◌==ℤ◌,
}
use dsa_guide.Graph.AdjacencyList.Marks.{
  unseen, Marked, unseen-set, Marked-set, Marked-set_self, Marked-set_before, In, Distinct,
  In-append, In-append_left, In-append_right, Distinct-append_last,
}
use dsa_guide.Graph.Kahn.Degrees.{count, due}
use dsa_guide.Graph.Kahn.{Kahn, enqueue, lower_loop}

-- An order of some of the vertices below `n`: each of them once, behind all vertices with an edge to it.
pub data IsOrder (n : ℕ) (rows : List (List ℕ)) : List ℕ → Type 0 where
  first : IsOrder n rows []
  behind :
      (l : List ℕ) (v : ℕ)
      → IsOrder n rows l
      → v < n
      → ¬ In v l
      → ((u : ℕ) → In v (get_or rows u []) → In u l)
      → IsOrder n rows (l ++ v ∷ [])

abbrev pub queued : Kahn → List ℕ
queued s = s.order ++ s.pending

-- The edges into `v` that are left: from the vertices that are not done, and the `rest` of one that is.
abbrev pub left : List (List ℕ) → List Bool → List ℕ → ℕ → ℕ
left rows done rest v = due v rows done + count v rest

-- `vis` flags what was queued, and `done` what was taken out.
pub record IsState (n : ℕ) (rows : List (List ℕ)) (done : List Bool) (rest : List ℕ)
    (vis : List Bool) (s : Kahn) : Type 0 where
  pub cells : length s.indeg ≡ n
  pub size : length vis ≡ n
  pub size_done : length done ≡ n
  pub degrees : (v : ℕ) → v < n → get_or s.indeg v (pos 0) ≡ pos (left rows done rest v)
  pub small : (v : ℕ) → v < n → left rows done rest v < 2 ^ 31
  pub room : unseen vis + s.back ≡ n
  pub held : length s.order + length s.pending ≡ s.back
  pub listed : (v : ℕ) → Marked vis v → In v (queued s)
  pub marks : (v : ℕ) → In v (queued s) → Marked vis v
  pub distinct : Distinct (queued s)
  pub free : (v : ℕ) → Marked vis v → left rows done rest v ≡ 0
  pub taken : (v : ℕ) → Marked done v → In v s.order
  pub done_all : (v : ℕ) → In v s.order → Marked done v
  pub order : IsOrder n rows s.order

-- What else is queued from `s` to `s'`.
pub record Queued (n : ℕ) (rows : List (List ℕ)) (done : List Bool) (rest : List ℕ)
    (vis : List Bool) (s s' : Kahn) : Type 0 where
  pub flags : List Bool
  pub state : IsState n rows done rest flags s'
  pub work_eq : unseen flags + length s'.pending ≡ unseen vis + length s.pending
  pub grows : (v : ℕ) → Marked vis v → Marked flags v

module _ (n : ℕ) (rows : List (List ℕ)) (done : List Bool) where
  pub enqueue-Queued :
      (rest : List ℕ) (vis : List Bool) (s : Kahn) (v : ℕ)
      → IsState n rows done rest vis s
      → v < n
      → get_or vis v false ≡ false
      → left rows done rest v ≡ 0
      → Returns
          (λ s'.
            (q : Queued n rows done rest vis s s') × Marked q.flags v
            × ((w : ℕ) → Marked q.flags w → (w ≡ v) ⊎ Marked vis w))
          (enqueue n s v)
  unfolding enqueue
  enqueue-Queued rest vis s v st inside clear none =
      let within : v < length vis = omega (arith, inside, st.size) in
      let fewer = unseen-set vis v within clear in
      let list_eq = append_assoc s.order s.pending (v ∷ []) in
      let mark = Marked-set_self vis v within in
      rw (lt→ltb s.back n (omega (arith, fewer, st.room))) (
        returns (
          record {
            flags = set vis v true;
            state = record {
              cells = st.cells;
              size = length-set vis v true ∙ st.size;
              size_done = st.size_done;
              degrees = st.degrees;
              small = st.small;
              room = omega (arith, fewer, st.room);
              held = omega (arith, length-append s.pending (v ∷ []), st.held);
              listed = λ w m. subst (In w) (list_eq) (elim (Marked-set vis v within w m) [
                | inl p ↦ In-append_right w (queued s) (v ∷ []) (inl (sym p))
                | inr p ↦ In-append_left w (queued s) (v ∷ []) (st.listed w p)
              ]);
              marks = λ w i. elim (In-append w (queued s) (v ∷ []) (subst (In w) (sym list_eq) i)) [
                | inl p ↦ Marked-set_before vis v within w (st.marks w p)
                | inr p ↦ elim p [
                  | inl q ↦ subst (Marked (set vis v true)) q mark
                  | inr q ↦ absurd q
                ]
              ];
              distinct =
                  subst Distinct list_eq
                    (Distinct-append_last v (queued s) st.distinct λ i. cc (st.marks v i));
              free = λ w m. elim (Marked-set vis v within w m) [
                | inl p ↦ subst (λ x. left rows done rest x ≡ 0) (sym p) none
                | inr p ↦ st.free w p
              ];
              taken = st.taken;
              done_all = st.done_all;
              order = st.order;
            };
            work_eq = omega (arith, fewer, length-append s.pending (v ∷ []));
            grows = Marked-set_before vis v within;
          },
          mark,
          Marked-set vis v within,
        ))

count-same : (v : ℕ) (l : List ℕ) → count v (v ∷ l) ≡ suc (count v l)
count-same v l = ground arith

count-other : (v w : ℕ) (l : List ℕ) → ¬ (v ≡ w) → count w (v ∷ l) ≡ count w l
count-other v w l ne = ground (arith, ne)

count-less : (v w : ℕ) (l : List ℕ) → count w l ≤ count w (v ∷ l)
count-less v w l = ground arith

pos_pred : (k : ℕ) → pos (suc k) -ℤ pos 1 ≡ pos k
unfolding ◌-ℤ◌
pos_pred k = ground arith

pub pos-zero : (k : ℕ) → ((pos k ==ℤ pos 0) ≡ true) → k ≡ 0
pos-zero k h = ground (arith, h)

pub pos-more : (k : ℕ) → ((pos k ==ℤ pos 0) ≡ false) → ¬ (k ≡ 0)
pos-more k h e = ground (arith, h, e)

-- All vertices that have no edges left are queued.
abbrev pub Ready : ℕ → List (List ℕ) → List Bool → List ℕ → List Bool → Type 0
Ready n rows done rest vis = (v : ℕ) → v < n → left rows done rest v ≡ 0 → Marked vis v

module _ (n : ℕ) (rows : List (List ℕ)) (done : List Bool) where
  -- One target, before the test of its degree.
  module _ (v : ℕ) (vs : List ℕ) (vis : List Bool) (s : Kahn)
      (st : IsState n rows done (v ∷ vs) vis s) (inside : v < n) where
    abbrev low : ℤ
    low = get_or s.indeg v (pos 0) -ℤ pos 1

    low_eq : low ≡ pos (left rows done vs v)
    low_eq =
        let more : left rows done (v ∷ vs) v ≡ suc (left rows done vs v) =
          omega (arith, count-same v vs) in
        ap (λ d. d -ℤ pos 1) (st.degrees v inside)
        ∙ ap (λ d. pos d -ℤ pos 1) more
        ∙ pos_pred (left rows done vs v)

    lower-IsState : IsState n rows done vs vis (record s { indeg = set s.indeg v low })
    lower-IsState = record {
      cells = length-set s.indeg v low ∙ st.cells;
      size = st.size;
      size_done = st.size_done;
      degrees = λ w within. elim (ℕ_discrete v w) [
        | yes e ↦
            subst (λ x. get_or (set s.indeg v low) x (pos 0) ≡ pos (left rows done vs x)) e
              (get_or-set_self s.indeg v low (pos 0) (omega (arith, inside, st.cells)) ∙ low_eq)
        | no ne ↦
            get_or-set_ne s.indeg v w low (pos 0) ne
            ∙ st.degrees w within
            ∙ ap (λ c. pos (due w rows done + c)) (count-other v w vs ne)
      ];
      small = λ w within. omega (arith, count-less v w vs, st.small w within);
      room = st.room;
      held = st.held;
      listed = st.listed;
      marks = st.marks;
      distinct = st.distinct;
      free = λ w m. omega (arith, count-less v w vs, st.free w m);
      taken = st.taken;
      done_all = st.done_all;
      order = st.order;
    }

    low-ok : as_int low ≡ ok low
    low-ok =
        ap as_int low_eq
        ∙ as_int-pos (left rows done vs v) (omega (arith, count-less v v vs, st.small v inside))
        ∙ ap ok (sym low_eq)

    lower-clear : get_or vis v false ≡ false
    lower-clear = elim (Bool-cases (get_or vis v false)) [
      | inl m ↦ absurd (omega (arith, count-same v vs, st.free v m))
      | inr m ↦ m
    ]

    lower-Queued :
        Ready n rows done (v ∷ vs) vis
        → Returns
            (λ s'.
              (q : Queued n rows done vs vis (record s { indeg = set s.indeg v low }) s') × Ready n
                rows done vs q.flags)
            (if low ==ℤ pos 0
              then enqueue n (record s { indeg = set s.indeg v low }) v
              else ok (record s { indeg = set s.indeg v low }))
    lower-Queued ready =
        Returns-if (low ==ℤ pos 0)
          (λ e.
            Returns-map
              (enqueue-Queued n rows done vs vis _ v lower-IsState inside lower-clear
                (pos-zero _ (subst (λ d. (d ==ℤ pos 0) ≡ true) low_eq e)))
              λ s' p. (
                p.0,
                λ w within none. elim (ℕ_discrete v w) [
                  | yes same ↦ subst (Marked p.0.flags) same p.1
                  | no ne ↦
                      p.0.grows w (ready w within (omega (arith, none, count-other v w vs ne)))
                ],
              ))
          (λ e. returns (
            record { flags = vis; state = lower-IsState; work_eq = refl; grows = λ w m. m },
            λ w within none. elim (ℕ_discrete v w) [
              | yes same ↦ absurd (
                  pos-more _ (subst (λ d. (d ==ℤ pos 0) ≡ false) low_eq e)
                    (subst (λ x. left rows done vs x ≡ 0) (sym same) none))
              | no ne ↦ ready w within (omega (arith, none, count-other v w vs ne))
            ],
          ))

  pub lower_loop-Queued :
      (vs : List ℕ) (vis : List Bool) (s : Kahn)
      → IsState n rows done vs vis s
      → Ready n rows done vs vis
      → ((v : ℕ) → In v vs → v < n)
      → Returns
          (λ s'. (q : Queued n rows done [] vis s s') × Ready n rows done [] q.flags)
          (lower_loop n vs s)
  unfolding lower_loop
  lower_loop-Queued [] vis s st ready inside =
      returns (record { flags = vis; state = st; work_eq = refl; grows = λ w m. m }, ready)
  lower_loop-Queued (v ∷ vs) vis s st ready inside =
      let here = inside v (inl refl) in
      let within : v < length s.indeg = omega (arith, here, st.cells) in
      rw
        (
          load-ok s.indeg v (pos 0) within,
          low-ok v vs vis s st here,
          store-ok s.indeg v (low v vs vis s st here) within,
        )
        (Returns-bind (lower-Queued v vs vis s st here ready) λ m a.
          Returns-map (lower_loop-Queued vs a.0.flags m a.0.state a.1 (λ w i. inside w (inr i)))
            λ s' b. (
              record {
                flags = b.0.flags;
                state = b.0.state;
                work_eq = b.0.work_eq ∙ a.0.work_eq;
                grows = λ w k. b.0.grows w (a.0.grows w k);
              },
              b.1,
            ))
