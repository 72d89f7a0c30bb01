-- ===== src/Probabilistic/Bloom/Member.antt =====
-- A key that was added is found: `bloom_test` has no false negatives.
use Prim.Native.Nat.{bit_or}
use native.Mathlib.Nat.{mod-lt}
use dsa_guide.Prelude.{
  ℕ, zero, suc, ◌+◌, ◌*◌, ◌/◌, ◌%◌, ◌^◌, ◌<◌, ◌≤◌, ◌≡◌, refl, sym, ◌∙◌, true, List, [], ◌∷◌, Run,
  ok, ◌>>=◌, length, get_or, length-replicate, length-set, subst, Returns, returns, Returns-bind,
  Returns-map, arith,
}
use dsa_guide.Probabilistic.Bloom.{
  BloomFilter, hash_sum, bloom_hash, bloom_create, add_loop, bloom_add, test_loop, bloom_test,
}
use dsa_guide.Probabilistic.Bloom.Single.{
  IsOne, with_one, bit_set-with_one, bit_get-IsOne, with_one-IsOne, IsOne-kept,
}

abbrev pub at : List ℕ → ℕ → ℕ → ℕ
at bytes m k = hash_sum bytes k % m

pub bloom_hash-at : (bytes : List ℕ) (k m : ℕ) → 1 ≤ m → bloom_hash bytes k m ≡ ok (at bytes m k)
unfolding bloom_hash
bloom_hash-at bytes k m h = ground arith

-- The bits of the `n` hashes from the `k`-th on are 1.
Marks : ℕ → ℕ → List ℕ → ℕ → List ℕ → Type 0
Marks zero k bytes m bits = Unit
Marks (suc n) k bytes m bits = IsOne bits (at bytes m k) × Marks n (k + 1) bytes m bits

-- There are bytes for all bits.
record Fits (m : ℕ) (bits : List ℕ) : Type 0 where
  pub positive : 1 ≤ m
  pub bytes_fit : m ≤ 8 * length bits

at-lt : (bytes : List ℕ) (m k : ℕ) (bits : List ℕ) → Fits m bits → at bytes m k / 8 < length bits
at-lt bytes m k bits f = omega (arith, mod-lt (hash_sum bytes k) f.positive, f.bytes_fit)

-- Every bit that was 1 still is.
abbrev Grows : List ℕ → List ℕ → Type 0
Grows bits r = (j : ℕ) → IsOne bits j → IsOne r j

Marks-Grows :
    (n k : ℕ) (bytes : List ℕ) (m : ℕ) (bits r : List ℕ)
    → Grows bits r
    → Marks n k bytes m bits
    → Marks n k bytes m r
unfolding Marks
Marks-Grows zero k bytes m bits r g t = tt
Marks-Grows (suc n) k bytes m bits r g (one, t) =
    (g (at bytes m k) one, Marks-Grows n (k + 1) bytes m bits r g t)

-- The bits after the marks of a key are set.
record Marked (n k : ℕ) (bytes : List ℕ) (m : ℕ) (bits r : List ℕ) : Type 0 where
  pub fits : Fits m r
  pub grows : Grows bits r
  pub marks : Marks n k bytes m r

add_loop-Marked :
    (n k : ℕ) (bytes : List ℕ) (m : ℕ) (bits : List ℕ)
    → Fits m bits
    → Returns (Marked n k bytes m bits) (add_loop n k bytes m bits)
unfolding add_loop Marks
add_loop-Marked zero k bytes m bits f = returns (record { fits = f; grows = λ j e. e; marks = tt })
add_loop-Marked (suc n) k bytes m bits f =
    let i = at bytes m k in
    let h = at-lt bytes m k bits f in
    rw (bloom_hash-at bytes k m f.positive, bit_set-with_one bits i h)
      (Returns-map
        (add_loop-Marked n (k + 1) bytes m (with_one bits i) (record {
          positive = f.positive;
          bytes_fit = omega (
            arith,
            f.bytes_fit,
            length-set bits (i / 8) (bit_or (get_or bits (i / 8) 0) (2 ^ (i % 8)) % 2 ^ 8),
          );
        }))
        λ r d. record {
          fits = d.fits;
          grows = λ j e. d.grows j (IsOne-kept bits i h j e);
          marks = (d.grows i (with_one-IsOne bits i h), d.marks);
        })

test_loop-Marks :
    (n k : ℕ) (bytes : List ℕ) (m : ℕ) (bits : List ℕ)
    → Fits m bits
    → Marks n k bytes m bits
    → test_loop n k bytes m bits ≡ ok true
unfolding test_loop Marks
test_loop-Marks zero k bytes m bits f t = refl
test_loop-Marks (suc n) k bytes m bits f (one, t) =
    rw
      (
        bloom_hash-at bytes k m f.positive,
        bit_get-IsOne bits (at bytes m k) (at-lt bytes m k bits f) one,
        test_loop-Marks n (k + 1) bytes m bits f t,
      )
      refl

-- Additions one after the other.
abbrev pub adds : List (List ℕ) → BloomFilter → Run BloomFilter
adds [] bf = ok bf
adds (bytes ∷ keys) bf = bloom_add bf bytes >>= λ after. adds keys after

-- A filter of the same sizes, in which no bit is lost.
record Later (bf r : BloomFilter) : Type 0 where
  pub fits : Fits r.bit_count r.bits
  pub bit_count : r.bit_count ≡ bf.bit_count
  pub num_hashes : r.num_hashes ≡ bf.num_hashes
  pub grows : Grows bf.bits r.bits

bloom_add-Later :
    (bf : BloomFilter) (bytes : List ℕ)
    → Fits bf.bit_count bf.bits
    → Returns (λ r. Later bf r × Marks r.num_hashes 0 bytes r.bit_count r.bits) (bloom_add bf bytes)
unfolding bloom_add
bloom_add-Later bf bytes f =
    Returns-bind (add_loop-Marked bf.num_hashes 0 bytes bf.bit_count bf.bits f) λ r d.
      returns
        (record { fits = d.fits; bit_count = refl; num_hashes = refl; grows = d.grows }, d.marks)

adds-Later :
    (keys : List (List ℕ)) (bf : BloomFilter)
    → Fits bf.bit_count bf.bits
    → Returns (Later bf) (adds keys bf)
adds-Later [] bf f =
    returns (record { fits = f; bit_count = refl; num_hashes = refl; grows = λ j e. e })
adds-Later (bytes ∷ keys) bf f = Returns-bind (bloom_add-Later bf bytes f) λ after (one, marks).
    Returns-map (adds-Later keys after one.fits) λ r rest. record {
      fits = rest.fits;
      bit_count = rest.bit_count ∙ one.bit_count;
      num_hashes = rest.num_hashes ∙ one.num_hashes;
      grows = λ j e. rest.grows j (one.grows j e);
    }

-- The filter after some keys, then one key, then some more.
abbrev pub filled : ℕ → ℕ → List (List ℕ) → List ℕ → List (List ℕ) → Run BloomFilter
filled m k earlier bytes later =
    adds earlier (bloom_create m k) >>= λ bf. bloom_add bf bytes >>= λ added. adds later added

-- `bloom_test` answers true for every key that was added, whatever was added before and after it, on a
-- filter of at least one bit.
pub bloom_test-filled :
    (m k : ℕ) (earlier : List (List ℕ)) (bytes : List ℕ) (later : List (List ℕ))
    → 1 ≤ m
    → Returns (λ bf. bloom_test bf bytes ≡ ok true) (filled m k earlier bytes later)
unfolding bloom_create bloom_test
bloom_test-filled m k earlier bytes later positive =
    Returns-bind
      (adds-Later earlier (bloom_create m k) (record {
        positive = positive;
        bytes_fit = omega (arith, length-replicate {A = ℕ} ((m + 7) / 8) 0);
      }))
      λ bf one. Returns-bind (bloom_add-Later bf bytes one.fits) λ added (two, marks).
        Returns-map (adds-Later later added two.fits) λ r three.
          test_loop-Marks r.num_hashes 0 bytes r.bit_count r.bits three.fits (
            subst (λ n. Marks n 0 bytes r.bit_count r.bits) (sym three.num_hashes)
              (subst (λ c. Marks added.num_hashes 0 bytes c r.bits) (sym three.bit_count)
                (Marks-Grows added.num_hashes 0 bytes added.bit_count added.bits r.bits three.grows
                  marks)))
