-- ===== src/Linear/Deque/Window.antt =====
-- `deque_sliding_window_max` of src/linear/queue.c. `stop` is `back + 1`.
use dsa_guide.Prelude.{
  ℕ, zero, suc, ◌+◌, ◌-◌, not, ◌&&◌, Option, none, some, List, [], ◌∷◌, ◌++◌, ltb, leb, ◌==◌,
  if◌then◌else◌, ℤ, pos, negsuc, leb_ℤ, length, Run, ok, undefined, ◌>>=◌, load, store,
}

pub record Window : Type 0 where
  pub dq : List ℕ
  pub front : ℕ
  pub stop : ℕ
  pub result : List ℤ

-- `while (front <= back && dq[front] < i - k + 1) front++;` with `m` indices between.
pub expire_loop : ℕ → ℕ → ℕ → List ℕ → ℕ → Run ℕ
expire_loop zero i k dq front = ok front
expire_loop (suc m) i k dq front = do
  index ← load dq front
  let rest = expire_loop m i k dq (front + 1)
  if ltb (index + k) (i + 1) then rest else ok front

-- `while (front <= back && arr[dq[back]] <= arr[i]) back--;` with `m` indices between.
pub dominated_loop : ℕ → List ℤ → ℤ → List ℕ → ℕ → Run ℕ
dominated_loop zero arr x dq stop = ok stop
dominated_loop (suc m) arr x dq stop = do
  index ← load dq (stop - 1)
  y ← load arr index
  let rest = dominated_loop m arr x dq (stop - 1)
  if leb_ℤ y x then rest else ok stop

-- The body of the loop; `result` has `n - k + 1` cells.
pub slide : List ℤ → ℕ → ℕ → Window → Run Window
slide arr k i s = do
  front ← expire_loop (s.stop - s.front) i k s.dq s.front
  x ← load arr i
  stop ← dominated_loop (s.stop - front) arr x s.dq s.stop
  dq ← store s.dq stop i
  let s1 : Window = record s { dq = dq; front = front; stop = stop + 1 }
  let record_max = (do
    index ← load dq front
    max ← load arr index
    if ltb (length s.result) (length arr + 1 - k)
        then ok (record s1 { result = s.result ++ max ∷ [] })
        else undefined)
  if leb k (i + 1) then record_max else ok s1

-- The loop from `i` on, with `m` values left.
pub window_loop : ℕ → ℕ → List ℤ → ℕ → Window → Run Window
window_loop zero i arr k s = ok s
window_loop (suc m) i arr k s = do s' ← slide arr k i s; window_loop m (i + 1) arr k s'

-- `dq` is what `malloc` returns for the indices; no value stands for the null pointer.
pub deque_sliding_window_max : List ℕ → List ℤ → ℤ → Run (Option (List ℤ))
deque_sliding_window_max dq arr (negsuc k) = ok none
deque_sliding_window_max dq arr (pos k) =
    if not (length arr == 0) && (not (k == 0) && leb k (length arr))
    then (do
      s ← window_loop (length arr) 0 arr k (record { dq = dq; front = 0; stop = 0; result = [] })
      ok (some s.result))
    else ok none
