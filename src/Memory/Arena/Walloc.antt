-- ===== src/Memory/Arena/Walloc.antt =====
-- `walloc` against first-fit allocation on the list of chunks.
use wpi_operating_systems.Base.{
  ℕ, zero, suc, ◌+◌, ◌-◌, ◌^◌, ◌≤◌, ◌<◌, ◌≡◌, ◌∙◌, ◌&&◌, Bool, true, false, Bool-cases, inl, inr,
  Option-cases, subst, Option, none, some, List, [], ◌∷◌, ◌==◌, leb, if◌then◌else◌, arith, length,
}
use wpi_operating_systems.Memory.Heap.{
  Ptr, null, node_size, node, Heap, write, Memory, with_heap, Run, ok, store, sub_size, add_size,
}
use wpi_operating_systems.Memory.Chain.{
  IsArena, Chunk, after, ptr, Chain, SameOutside, Chain-le, Chain-frame, relink, Chain-relink,
  relink-ne, relink_from_end, load-ok, modify-ok, set_bwd-ok,
}
use wpi_operating_systems.Memory.FirstFit.{carve, alloc, alloc_ptr}
use wpi_operating_systems.Memory.Arena.{err_out_of_memory, split, take_chunk, walloc_loop, walloc}

module _ (m : Memory) (e prev a n k : ℕ) (cs : List Chunk) where
  -- the heaps that `split` passes through
  abbrev split₁ : Heap
  split₁ = write m.heap (after a n) (node (k - n - 32) true (ptr e (after a k)) a)

  abbrev split₂ : Heap
  split₂ = relink split₁ e (after a k) cs (after a n)

  abbrev split₃ : Heap
  split₃ = write split₂ a (node n true (after a n) prev)

  module _ (head : m.heap a ≡ some (node k true (ptr e (after a k)) prev))
      (tail : Chain m.heap e a (after a k) cs) (pos : 0 < a) (small : e < 2 ^ 64)
      (room : n + 33 ≤ k) where
    tail₁ : Chain split₁ e a (after a k) cs
    unfolding write
    tail₁ = Chain-frame m.heap e split₁ a (after a k) cs (λ x p q. ground arith) tail

    kept : split₂ a ≡ some (node k true (ptr e (after a k)) prev)
    unfolding write
    kept = relink-ne split₁ e (after a k) cs (after a n) a (omega arith) ∙ ground arith

    words : sub_size (sub_size k n) node_size ≡ k - n - 32
    words = omega (arith, Chain-le m.heap e a (after a k) cs tail)

    split-ok : split a (node k true (ptr e (after a k)) prev) n m ≡ ok tt (with_heap m split₃)
    unfolding split store
    split-ok = rw (
      words,
      set_bwd-ok (with_heap m split₁) e a (after a k) cs (after a n) tail₁ (omega arith),
      modify-ok (with_heap m split₂) a (λ c. record c { fwd = after a n; size = n }) kept,
    )

    Chain-split :
        Chain
          (write split₃ a (node n false (after a n) prev))
          e
          prev
          a
          ((n, false) ∷ (k - n - node_size, true) ∷ cs)
    unfolding write
    Chain-split =
        let end_le = Chain-le m.heap e a (after a k) cs tail in
        let end_eq : after (after a n) (k - n - 32) ≡ after a k = omega arith in
        let inner : ptr e (after a n) ≡ after a n = ground arith in
        (
          rw inner (ground arith),
          (
            rw end_eq (
                ground
                  (arith, relink-ne split₁ e (after a k) cs (after a n) (after a n) (omega arith))),
            rw end_eq (
                Chain-frame split₂ e (write split₃ a (node n false (after a n) prev)) (after a n)
                  (after a k) cs (λ x p q. ground arith)
                  (Chain-relink split₁ e a (after a k) cs (after a n) tail₁)),
          ),
        )

  abbrev carve_heap : Heap
  carve_heap =
      if leb (n + 33) k
      then write split₃ a (node n false (after a n) prev)
      else write m.heap a (node k false (ptr e (after a k)) prev)

  module _ (head : m.heap a ≡ some (node k true (ptr e (after a k)) prev))
      (tail : Chain m.heap e a (after a k) cs) (pos : 0 < a) (small : e < 2 ^ 64)
      (fits : n ≤ k) where
    last : split₃ a ≡ some (node n true (after a n) prev)
    unfolding write
    last = ground arith

    take_chunk-ok :
        take_chunk a (node k true (ptr e (after a k)) prev) n m
        ≡ ok (a + node_size) (with_heap m carve_heap)
    unfolding take_chunk
    take_chunk-ok = elim (Bool-cases (leb (n + 33) k)) [
      | inl y ↦
          let guard : leb (add_size (add_size n node_size) 1) k ≡ true =
            ground (arith, Chain-le m.heap e a (after a k) cs tail) in
          rw (
            guard,
            y,
            split-ok head tail pos small (ground arith),
            modify-ok (with_heap m split₃) a (λ c. record c { is_free = false }) last,
          )
      | inr y ↦
          let guard : leb (add_size (add_size n node_size) 1) k ≡ false =
            ground (arith, Chain-le m.heap e a (after a k) cs tail) in
          rw (guard, y, modify-ok m a (λ c. record c { is_free = false }) head)
    ]

    Chain-carve : Chain carve_heap e prev a (carve n k cs)
    unfolding write
    Chain-carve = elim (Bool-cases (leb (n + 33) k)) [
      | inl y ↦ rw y (Chain-split head tail pos small (ground arith))
      | inr y ↦ rw y (
        ground arith,
        Chain-frame m.heap e (write m.heap a (node k false (ptr e (after a k)) prev)) a (after a k)
            cs (λ x p q. ground arith) tail,
      )
    ]

    carve_outside : SameOutside a e m.heap carve_heap
    unfolding write
    carve_outside =
        let end_le = Chain-le m.heap e a (after a k) cs tail in
        elim (Bool-cases (leb (n + 33) k)) [
          | inl y ↦
              let more : n + 33 ≤ k = ground arith in
              rw y (
                (λ x p.
                    ground (arith, relink-ne split₁ e (after a k) cs (after a n) x (omega arith))),
                (λ x p. ground (
                  arith,
                  relink_from_end split₁ e a (after a k) cs (after a n) x
                      (tail₁ head tail pos small more) p,
                )),
              )
          | inr y ↦ rw y (ground arith, ground arith)
        ]

abbrev out_of_memory : Memory → Memory
out_of_memory m = record m { statusno = err_out_of_memory }

module _ (n e : ℕ) (small : e < 2 ^ 64) where
  walloc_loop-none :
      (fuel : ℕ) (m : Memory) (prev a : Ptr) (cs : List Chunk)
      → Chain m.heap e prev a cs
      → 0 < a
      → length cs < fuel
      → alloc n cs ≡ none
      → walloc_loop fuel n (ptr e a) m ≡ ok null (out_of_memory m)
  unfolding walloc_loop alloc
  walloc_loop-none zero m prev a cs c pos enough no_fit = absurd (omega arith)
  walloc_loop-none (suc fuel) m prev a [] c pos enough no_fit = ground arith
  walloc_loop-none (suc fuel) m prev a ((k, f) ∷ cs) c pos enough no_fit = ground (
    arith,
    Chain-le m.heap e a (after a k) cs c.1,
    load-ok m a c.0,
    walloc_loop-none fuel m a (after a k) cs c.1,
  )

-- What a successful allocation leaves: the returned address, and a chain of the new chunks.
abbrev pub Allocates : Memory → Ptr → Ptr → Ptr → ℕ → List Chunk → List Chunk → Run Ptr → Type 0
Allocates m e prev a n cs cs' r =
    (h : Heap) × (r ≡ ok (alloc_ptr n a cs) (with_heap m h))
    × Chain h e prev a cs'
    × SameOutside a e m.heap h

module _ (n e : ℕ) (small : e < 2 ^ 64) where
  -- The loop passes over a chunk that does not fit.
  pass :
      (fuel : ℕ) (m : Memory) (prev a k : ℕ) (f : Bool) (cs r : List Chunk)
      → Chain m.heap e prev a ((k, f) ∷ cs)
      → 0 < a
      → (f && leb n k) ≡ false
      → Allocates m e a (after a k) n cs r (walloc_loop fuel n (ptr e (after a k)) m)
      → Allocates m e prev a n ((k, f) ∷ cs) ((k, f) ∷ r) (walloc_loop (suc fuel) n (ptr e a) m)
  unfolding walloc_loop alloc_ptr
  pass fuel m prev a k f cs r c pos miss (h, run, chain, out) = (
    h,
    ground (arith, Chain-le m.heap e a (after a k) cs c.1, load-ok m a c.0, run),
    (out.0 a (omega arith) ∙ c.0, chain),
    ((λ x p. out.0 x (omega arith)), out.1),
  )

  -- The loop stops at a chunk that fits.
  hit :
      (fuel : ℕ) (m : Memory) (prev a k : ℕ) (f : Bool) (cs : List Chunk)
      → Chain m.heap e prev a ((k, f) ∷ cs)
      → 0 < a
      → (f && leb n k) ≡ true
      → Allocates m e prev a n ((k, f) ∷ cs) (carve n k cs) (walloc_loop (suc fuel) n (ptr e a) m)
  unfolding walloc_loop alloc_ptr
  hit fuel m prev a k true cs c pos fits =
      let le : n ≤ k = ground arith in
      let there : (ptr e a == null) ≡ false =
        ground (arith, Chain-le m.heap e a (after a k) cs c.1) in
      let here : ptr e a ≡ a = ground (arith, Chain-le m.heap e a (after a k) cs c.1) in
      (
        carve_heap m e prev a n k cs,
        rw (here)
            (ground (arith, load-ok m a c.0, take_chunk-ok m e prev a n k cs c.0 c.1 pos small le)),
        Chain-carve m e prev a n k cs c.0 c.1 pos small le,
        carve_outside m e prev a n k cs c.0 c.1 pos small le,
      )
  hit fuel m prev a k false cs c pos fits = cc

  walloc_loop-some :
      (fuel : ℕ) (m : Memory) (prev a : Ptr) (cs cs' : List Chunk)
      → Chain m.heap e prev a cs
      → 0 < a
      → length cs < fuel
      → alloc n cs ≡ some cs'
      → Allocates m e prev a n cs cs' (walloc_loop fuel n (ptr e a) m)
  unfolding alloc
  walloc_loop-some zero m prev a cs cs' c pos enough fit = absurd (omega arith)
  walloc_loop-some (suc fuel) m prev a [] cs' c pos enough fit = cc
  walloc_loop-some (suc fuel) m prev a ((k, f) ∷ cs) cs' c pos enough fit =
      elim (Bool-cases (f && leb n k)) [
        | inl y ↦
            let same : carve n k cs ≡ cs' = ground arith in
            subst
              (λ t. Allocates m e prev a n ((k, f) ∷ cs) t (walloc_loop (suc fuel) n (ptr e a) m))
              same (hit fuel m prev a k f cs c pos y)
        | inr y ↦ elim (Option-cases (alloc n cs)) [
          | inl z ↦ absurd (ground arith)
          | inr (r, z) ↦
              let same : (k, f) ∷ r ≡ cs' = ground arith in
              subst
                (λ t. Allocates m e prev a n ((k, f) ∷ cs) t (walloc_loop (suc fuel) n (ptr e a) m))
                same
                (pass fuel m prev a k f cs r c pos y
                  (walloc_loop-some fuel m a (after a k) cs r c.1 (omega arith) (omega arith) z))
        ]
      ]

-- Where the allocation `r` should leave the chunks `out`.
abbrev pub Walloced : Memory → ℕ → List Chunk → Option (List Chunk) → Run Ptr → Type 0
Walloced m n cs none r = r ≡ ok null (out_of_memory m)
Walloced m n cs (some cs') r =
    (h : Heap) × (r ≡ ok (alloc_ptr n m.arena_start cs) (with_heap m h))
    × IsArena (with_heap m h) cs'
    × SameOutside m.arena_start (m.arena_start + m.arena_size) m.heap h

module _ (n : ℕ) (m : Memory) (cs : List Chunk) (v : IsArena m cs) where
  open v use {start_pos, size_pos, small, chain}

  abbrev arena_end : Ptr
  arena_end = m.arena_start + m.arena_size

  enough : length cs < m.arena_size + 1
  enough = omega (arith, Chain-le m.heap arena_end null m.arena_start cs chain)

  starts : walloc n m ≡ walloc_loop (m.arena_size + 1) n (ptr arena_end m.arena_start) m
  unfolding walloc
  starts = ground arith

-- `walloc` takes the first free chunk that is large enough and splits it when a header and a byte
-- are left: it never faults or runs out of fuel, returns the address that first-fit allocation on
-- the list of chunks gives, leaves an arena of exactly the chunks that it leaves, and changes no
-- header outside the arena. When no chunk fits it returns NULL with `ERR_OUT_OF_MEMORY` and changes
-- nothing else.
pub walloc-alloc :
    (n : ℕ) (m : Memory) (cs : List Chunk)
    → IsArena m cs
    → Walloced m n cs (alloc n cs) (walloc n m)
walloc-alloc n m cs v = rw (starts n m cs v) (elim (Option-cases (alloc n cs)) [
  | inl z ↦ rw z (
      walloc_loop-none n (m.arena_start + m.arena_size) v.small (m.arena_size + 1) m null
        m.arena_start cs v.chain v.start_pos (enough n m cs v) z)
  | inr (cs', z) ↦
      let (h, run, chain, out) =
        walloc_loop-some n (m.arena_start + m.arena_size) v.small (m.arena_size + 1) m null
          m.arena_start cs cs' v.chain v.start_pos (enough n m cs v) z in
      rw z (
        h,
        run,
        record { start_pos = v.start_pos; size_pos = v.size_pos; small = v.small; chain = chain },
        out,
      )
])
