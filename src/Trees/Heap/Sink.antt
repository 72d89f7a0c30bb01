-- ===== src/Trees/Heap/Sink.antt =====
-- `sift_down`: an entry sinks below all smaller keys.
use dsa_guide.Prelude.{
  ℕ, zero, suc, ◌+◌, ◌*◌, ◌%◌, ◌^◌, ◌<◌, ◌≤◌, ◌≡◌, inl, inr, refl, sym, true, false, List, ℤ, ltb_ℤ,
  ltb, ◌==◌, if◌then◌else◌, Bool-cases, ok, ◌>>=◌, load-ok, pos, subst, Returns, returns,
  Returns-map, arith,
}
use dsa_guide.Trees.Heap.{MinHeap, swap, smaller, sift_down}
use dsa_guide.Trees.Heap.Swaps.{cell}
use dsa_guide.Trees.Heap.Entries.{done}
use dsa_guide.Trees.Heap.Order.{child-above, Sinking, Sinking-stop, Sinking-down, pick, pick-Best}
use dsa_guide.Trees.Heap.Rise.{
  Fits, Under, swapped_entries, swap-swapped_entries, swapped_entries-Fits, Restored, Restored-one,
}

ltb-Under : (x y : ℤ) → ltb_ℤ x y ≡ true → Under x y
ltb-Under x y e = ground arith

not_ltb-Under : (x y : ℤ) → ltb_ℤ x y ≡ false → Under y x
not_ltb-Under x y e = ground arith

pub Under-refl : (x : ℤ) → Under x x
Under-refl x = omega arith

pub Under-trans : (x y z : ℤ) → Under x y → Under y z → Under x z
Under-trans x y z h k = omega arith

abbrev least_of : List ℤ → ℕ → ℕ → ℕ → ℕ
least_of = pick Under ltb_ℤ ltb-Under not_ltb-Under Under-refl Under-trans

smaller-least_of :
    (h : MinHeap) (best c : ℕ)
    → Fits h
    → best < h.size
    → smaller h best c ≡ ok (least_of h.keys h.size best c)
unfolding smaller
smaller-least_of h best c f k = elim (Bool-cases (ltb c h.size)) [
  | inl e ↦
      rw
        (
          e,
          load-ok h.keys c (pos 0) (ground (arith, f.keys_fit)),
          load-ok h.keys best (pos 0) (omega (arith, f.keys_fit)),
        )
        refl
  | inr e ↦ rw e refl
]

least_of-lt : (l : List ℤ) (n b c : ℕ) → b < n → least_of l n b c < n
least_of-lt l n b c k = elim (Bool-cases (ltb c n)) [
  | inl e ↦ elim (Bool-cases (ltb_ℤ (cell l c) (cell l b))) [
    | inl d ↦ rw (e, d) (ground arith)
    | inr d ↦ rw (e, d) k
  ]
  | inr e ↦ rw e k
]

abbrev least_child : List ℤ → ℕ → ℕ → ℕ
least_child l n i = least_of l n (least_of l n i (2 * i + 1)) (2 * i + 2)

sift_down-round :
    (fuel : ℕ) (h : MinHeap) (i : ℕ)
    → Fits h
    → h.size < 2 ^ 62
    → i < h.size
    → sift_down (suc fuel) h i ≡ (
        if least_child h.keys h.size i == i
        then ok h
        else swap h i (least_child h.keys h.size i) >>= λ after.
            sift_down fuel after (least_child h.keys h.size i))
unfolding sift_down
sift_down-round fuel h i f small q =
    let left : (2 * i + 1) % 2 ^ 64 ≡ 2 * i + 1 = omega arith in
    let right : (2 * i + 2) % 2 ^ 64 ≡ 2 * i + 2 = omega arith in
    rw
      (
        left,
        right,
        smaller-least_of h i (2 * i + 1) f q,
        smaller-least_of h (least_of h.keys h.size i (2 * i + 1)) (2 * i + 2) f
            (least_of-lt h.keys h.size i (2 * i + 1) q),
      )
      refl

pub sift_down-Restored :
    (fuel : ℕ) (h : MinHeap) (i : ℕ)
    → Fits h
    → h.size < 2 ^ 62
    → i < h.size
    → h.size ≤ i + fuel
    → Sinking Under h.keys h.size 0 i
    → Returns (Restored h) (sift_down fuel h i)
sift_down-Restored zero h i f small q enough s = absurd (omega arith)
sift_down-Restored (suc fuel) h i f small q enough s =
    let best_i = least_child h.keys h.size i in
    subst (Returns (Restored h)) (sym (sift_down-round fuel h i f small q))
      (elim (pick-Best Under ltb_ℤ ltb-Under not_ltb-Under Under-refl Under-trans h.keys h.size i) [
        | inl (here, below) ↦
            let stop : (best_i == i) ≡ true = ground (arith, here) in
            rw stop (
              returns (record {
                size = refl;
                capacity = refl;
                lengths = (refl, refl);
                together = done;
                ordered = Sinking-stop Under h.keys h.size 0 i s below;
              }))
        | inr (other, best) ↦
            let go : (best_i == i) ≡ false = ground (arith, other) in
            let further : i < best_i = child-above best_i i best.child in
            rw (go, swap-swapped_entries h i best_i f q best.within)
              (Returns-map
                (sift_down-Restored fuel (swapped_entries h i best_i) best_i
                  (swapped_entries-Fits h i best_i f) small best.within (omega (arith, further))
                  (Sinking-down Under h.keys h.size 0 i best_i f.keys_fit (omega arith) s best))
                λ r rest. Restored-one h r i best_i f q best.within rest)
      ])
