-- ===== src/Lib.antt =====
-- A verification library for the data structures and algorithms of this C repository.
--
-- The program is a set of independent parts, one C file and header for each; they meet only where an
-- algorithm uses a structure (a search its queue or stack), and in the driver src/main.c.
--
-- How C is read:
--   * a call is a function into `Run` (Prelude/Outcome): a value; `aborted`, for an assertion that
--     fails; `undefined`, for an access outside a block or a signed overflow; and `out_of_fuel`, for
--     a loop whose rounds the model has used up;
--   * a struct is a record, and a call that writes through a pointer returns the new record beside
--     its result; an out parameter is an option or a second component of the result;
--   * a block of memory is a list, and what `malloc` returns is a parameter, with any values in it;
--     `free` and the destroy functions are left out, with all that only prints;
--   * `size_t` and the unsigned types are natural numbers reduced modulo the power of two where the
--     code may wrap; an `int` is an integer whose operations are checked to fit 32 bits (Prelude/Int).
--     An `int` that starts at 0 and only grows or is reduced modulo a capacity is a natural number, so
--     that the results on it are for structures of fewer than 2^31 elements.
--
-- The files:
--   * Prelude: Boolean tests, lists with native indices, integers, outcomes;
--   * Words: the bits of machine words, and the word operations on them;
--   * Linear/Fifo: the bounded first-in first-out buffer as a specification on lists, with the
--     interface that src/linear/queue.c and src/linear/ring_buffer.c fill;
--   * Linear/Circular: the cells of a circular block, which those two and the deque share;
--   * Linear/Queue and Linear/Deque: src/linear/queue.c, the queue and the double-ended queue, with
--     `queue_bfs` (Queue/Bfs) and `deque_sliding_window_max` (Deque/Window);
--   * Linear/RingBuffer: src/linear/ring_buffer.c, call by call; Linear/RingBuffer/Create is
--     `next_pow2` and `rb_create`; Linear/RingBuffer/Threads has the producer and the consumer as two
--     threads, each atomic access of which is a step, on a sequentially consistent memory;
--   * Linear/Stack: src/linear/stack.c, the stack calls and `stack_balanced_brackets`;
--   * Linear/Array: src/linear/array.c, the growing array (over a `realloc` that is a parameter),
--     binary search, the pair search and prefix sums;
--   * Bits: src/bits/bits.c and include/bits/bits.h on 32-bit words: single bits and fields
--     (Bits/Single), `bit_add` and `bit_sub` (Bits/Add), `bit_mul` (Bits/Multiply), `bit_div`
--     (Bits/Divide), Gray codes (Bits/Gray), `bit_parity` (Bits/Parity), the lowest one
--     (Bits/Lowest), alignment (Bits/Align), the single and the missing number (Bits/Puzzles), and
--     the folds, spreads and choices without a branch (Bits/Tricks);
--     `__builtin_clz` is a parameter;
--   * Bitmap: src/specialized/bitmap.c on blocks of 64-bit words: the calls on one bit
--     (Bitmap/Single), the word-wise operations (Bitmap/Pointwise) and `bm_find_first_set`
--     (Bitmap/First); `calloc` and `__builtin_ctzll` are parameters;
--   * Linear/LinkedList: src/linear/linked_list.c; a chain of nodes is the list of its values, but the
--     cycle test (LinkedList/Cycle) reads a store of nodes by address; LinkedList/Calls, /Search and
--     /Sort have the calls, the searches and the merge sort;
--   * Hash/Chained: the chaining table of src/hash/hash_table.c: one chain (Chained/Chain), the buckets
--     (Chained/Table), `ht_resize` (Chained/Resize) and the calls (Chained/Calls); the test of the load
--     factor is a parameter;
--   * Hash/Open: the open-addressing table of the same file: the walk over the slots (Open/Probe),
--     the walks for other keys (Open/Others) and `oaht_insert` (Open/Insert);
--   * Graph/AdjacencyList: src/graph/graph.c, the graph and its edges: flags and walks
--     (AdjacencyList/Marks, /Walks), `graph_bfs` (AdjacencyList/Bfs), `graph_dfs` and
--     `graph_connected_components` (AdjacencyList/Dfs), `graph_topological_sort` (AdjacencyList/Sort) and
--     `graph_has_cycle` (AdjacencyList/Cycle), `graph_bellman_ford` (AdjacencyList/Distances);
--   * Graph/Kahn: the loop that `graph_topological_sort` shares with `dag_topo_kahn`: the in-degrees
--     (Kahn/Degrees), the queue (Kahn/Queue) and the order (Kahn/Order);
--   * Graph/Dag: src/graph/dag.c;
--   * Graph/UnionFind: src/graph/union_find.c: roots and what changes them (UnionFind/Roots), `uf_create`,
--     `uf_find` and `uf_union`, in the files UnionFind/Create, /Find and /Union;
--   * Probabilistic/CountMin, Probabilistic/Bloom: the count-min sketch of src/probabilistic/count_min.c and
--     the plain filter of src/probabilistic/bloom_filter.c; a key is the list of its bytes, and the sizes,
--     which the code computes in floating point, are parameters; CountMin/Count has `cm_add` and
--     `cm_query`, CountMin/Merge has `cm_merge`, and Bloom/Member the calls of the filter;
--   * Probabilistic/CountingBloom, Probabilistic/HyperLogLog: the counting filter and the registers of
--     HyperLogLog of the same two files; `__builtin_clzll` is a parameter;
--   * Specialized/WaveletTree: src/specialized/wavelet_tree.c, over the bitmaps: what a node splits
--     (WaveletTree/Split), and `wt_rank`, `wt_select` and `wt_quantile` in files of their own;
--   * Specialized/LsmTree: src/specialized/lsm_tree.c: `lsm_put`, `lsm_delete` and `lsm_get`
--     (LsmTree/Writes), `lsm_compact` (LsmTree/Compact); the C library's `qsort` is a parameter;
--   * Trees/Trie: src/trees/trie.c, with the array of children as a function of the byte;
--   * Trees/Heap: src/trees/heap.c, the min-heap calls and `heapsort`: arrays under swaps (Heap/Swaps,
--     Heap/Entries), heap order (Heap/Order), the sifts (Heap/Rise, Heap/Sink, Heap/Down), the calls
--     (Heap/Calls), `heapsort` (Heap/Sort) and `bellman_ford` (Heap/BellmanFord);
--   * Trees/Interval: the interval tree of src/trees/segment_tree.c;
--   * Tests: the definitions and the results at concrete inputs.
--
-- Fuel: the loop of `next_pow2` has 65 rounds, one more than the bits of a `size_t`. The two searches
-- have one round more than the array has values, since each round drops at least one of them. The
-- loop of `bit_add` has 33 rounds, since each clears one more low bit of its carries, and that of
-- `bit_mul` as many, since each halves a word. `merge_sort_node` has one more than the length of the
-- chain, since both halves are shorter. A sift has as many rounds as the heap has entries, since each
-- goes further down or up. `uf_find` is given its rounds: ranks rise along the parent links, so that one
-- more than the greatest rank is enough. `ll_has_cycle` is given its rounds, and enough of them are n / 2 + 1 on a
-- chain that ends after n steps, and (tail + 1) * period on one that loops.
-- `graph_bfs` and `queue_bfs` have n + 1 rounds, since each vertex enters the queue once, and `dfs_r` n calls inside one
-- another, since each sets a flag; so have the depth-first walks of the topological sort and of the cycle
-- test, and Kahn's loop has n + 1 rounds, since its queue has n cells; `wt_build_r` halves its alphabet, and the binary search of `lsm_get` its
-- range.
-- `bit_each_subset` has one round more than the mask, since each subset is less than the one before.
-- All other loops are recursions on the length of what they run over.
--
-- Not modelled: the parts that compute in floating point (src/spatial, the sizing and the estimates in
-- src/probabilistic), what only prints or frees, and the components that PROJECT.json lists as not
-- modelled.
pub mod Prelude
pub mod Words
pub mod Bits
pub mod Bitmap
pub mod Linear
pub mod Hash
pub mod Graph
pub mod Probabilistic
pub mod Specialized
pub mod Trees
mod Tests
