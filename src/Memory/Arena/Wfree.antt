-- ===== src/Memory/Arena/Wfree.antt =====
-- `wfree` against release with coalescing on the list of chunks.
use wpi_operating_systems.Base.{
  ℕ, ◌+◌, ◌-◌, ◌*◌, ◌^◌, ◌≤◌, ◌<◌, ◌≡◌, refl, ◌≢◌, ◌∙◌, Bool, true, false, Bool-cases, inl, inr,
  some, List, [], ◌∷◌, ◌==◌, arith, length,
}
use wpi_operating_systems.Memory.Heap.{
  Ptr, null, node_size, Node, node, Heap, write, Memory, with_heap, Run, ok, store, set_bwd,
  add_size,
}
use wpi_operating_systems.Memory.Chain.{
  IsArena, Chunk, after, ptr, Chain, SameOutside, SameOutside-trans, SameOutside-mono, Chain-le,
  Chain-frame, relink, Chain-relink, relink-ne, relink_from_end, load-ok, modify-ok, set_bwd-ok,
}
use wpi_operating_systems.Memory.FirstFit.{join_size, join_rest, join, back, release, Live}
use wpi_operating_systems.Memory.Arena.{free_chunk, coalesce_next, coalesce_prev, wfree}

-- A run that leaves the chunks `cs` from `a` on, and all headers outside as they were.
abbrev Leaves : {A : Type 0} → Memory → Ptr → Ptr → Ptr → List Chunk → A → Run A → Type 0
Leaves m e prev a cs x r =
    (h : Heap) × (r ≡ ok x (with_heap m h)) × Chain h e prev a cs × SameOutside a e m.heap h

-- A chunk that takes in the one behind it: the header is rewritten, then the back link of the third.
module _ (m : Memory) (e prev a n k : ℕ) (f g : Bool) (cs : List Chunk)
    (c : Chain m.heap e prev a ((n, f) ∷ (k, g) ∷ cs)) (pos : 0 < a) (small : e < 2 ^ 64) where
  abbrev pub merged : Heap
  merged = write m.heap a (node (n + (node_size + k)) f (ptr e (after (after a n) k)) prev)

  abbrev pub merge_heap : Heap
  merge_heap = relink merged e (after (after a n) k) cs a

  pub third : Chain merged e (after a n) (after (after a n) k) cs
  unfolding write
  third =
      Chain-frame m.heap e merged (after a n) (after (after a n) k) cs (λ x p q. ground arith) c.1.1

  pub Chain-merge : Chain merge_heap e prev a ((n + (node_size + k), f) ∷ cs)
  unfolding write
  Chain-merge =
      let same : after a (n + (node_size + k)) ≡ after (after a n) k = omega arith in
      rw same (
        ground (arith, relink-ne merged e (after (after a n) k) cs a a (omega arith)),
        Chain-relink merged e (after a n) (after (after a n) k) cs a third,
      )

  pub merge_outside : SameOutside a e m.heap merge_heap
  unfolding write
  merge_outside =
      let end_le = Chain-le m.heap e (after a n) (after (after a n) k) cs c.1.1 in
      (
        (λ x p. ground (arith, relink-ne merged e (after (after a n) k) cs a x (omega arith))),
        (λ x p.
            ground
              (arith, relink_from_end merged e (after a n) (after (after a n) k) cs a x third p)),
      )

abbrev unchanged : (m : Memory) (a e : Ptr) → SameOutside a e m.heap m.heap
unchanged m a e = ((λ x p. refl), (λ x p. refl))

module _ (m : Memory) (e prev a n : ℕ) (small : e < 2 ^ 64) (pos : 0 < a) where
  coalesce_next-join :
      (cs : List Chunk)
      → Chain m.heap e prev a ((n, true) ∷ cs)
      → Leaves m e prev a (join n cs) tt (coalesce_next a m)
  unfolding coalesce_next store
  coalesce_next-join [] c = (m.heap, ground (arith, load-ok m a c.0), c, unchanged m a e)
  coalesce_next-join ((k, false) ∷ cs) c =
      (m.heap, ground (arith, load-ok m a c.0, load-ok m (after a n) c.1.0), c, unchanged m a e)
  coalesce_next-join ((k, true) ∷ cs) c = (
    merge_heap m e prev a n k true true cs c pos small,
    rw (load-ok m a c.0, inner, there, load-ok m (after a n) c.1.0, sizes, links) refl,
    Chain-merge m e prev a n k true true cs c pos small,
    merge_outside m e prev a n k true true cs c pos small,
  )
    where
      end_le : after (after a n) k + 32 * length cs ≤ e
      end_le = Chain-le m.heap e (after a n) (after (after a n) k) cs c.1.1

      inner : ptr e (after a n) ≡ after a n
      inner = ground (arith, end_le)

      there : (after a n == null) ≡ false
      there = ground arith

      sizes : add_size n (add_size node_size k) ≡ n + (node_size + k)
      sizes = omega (arith, end_le)

      links :
          set_bwd
            (ptr e (after (after a n) k))
            a
            (with_heap m (merged m e prev a n k true true cs c pos small))
          ≡ ok tt (with_heap m (merge_heap m e prev a n k true true cs c pos small))
      links =
          set_bwd-ok (with_heap m (merged m e prev a n k true true cs c pos small)) e (after a n)
            (after (after a n) k) cs a (third m e prev a n k true true cs c pos small) (omega arith)

module _ (m : Memory) (e prev a k n : ℕ) (small : e < 2 ^ 64) (pos : 0 < a) where
  coalesce_prev-back :
      (f : Bool) (cs : List Chunk)
      → Chain m.heap e prev a ((k, f) ∷ (n, true) ∷ cs)
      → Leaves m e prev a (back k f ((n, true) ∷ cs)) tt (coalesce_prev (after a k) m)
  unfolding coalesce_prev store
  coalesce_prev-back false cs c =
      (m.heap, ground (arith, load-ok m (after a k) c.1.0, load-ok m a c.0), c, unchanged m a e)
  coalesce_prev-back true cs c = (
    merge_heap m e prev a k n true true cs c pos small,
    rw (load-ok m (after a k) c.1.0, there, load-ok m a c.0, sizes, links) refl,
    Chain-merge m e prev a k n true true cs c pos small,
    merge_outside m e prev a k n true true cs c pos small,
  )
    where
      end_le : after (after a k) n + 32 * length cs ≤ e
      end_le = Chain-le m.heap e (after a k) (after (after a k) n) cs c.1.1

      there : (a == null) ≡ false
      there = ground arith

      sizes : add_size k (add_size node_size n) ≡ k + (node_size + n)
      sizes = omega (arith, end_le)

      links :
          set_bwd
            (ptr e (after (after a k) n))
            a
            (with_heap m (merged m e prev a k n true true cs c pos small))
          ≡ ok tt (with_heap m (merge_heap m e prev a k n true true cs c pos small))
      links =
          set_bwd-ok (with_heap m (merged m e prev a k n true true cs c pos small)) e (after a k)
            (after (after a k) n) cs a (third m e prev a k n true true cs c pos small) (omega arith)

abbrev freed : Node → Node
freed c = record c { is_free = true }

-- The heap and chain once the header of the first chunk is marked free.
module _ (m : Memory) (e prev a n : ℕ) (f : Bool) (cs : List Chunk)
    (c : Chain m.heap e prev a ((n, f) ∷ cs)) where
  abbrev marked : Memory
  marked = with_heap m (write m.heap a (node n true (ptr e (after a n)) prev))

  Chain-marked : Chain marked.heap e prev a ((n, true) ∷ cs)
  unfolding write
  Chain-marked =
      (ground arith, Chain-frame m.heap e marked.heap a (after a n) cs (λ x p q. ground arith) c.1)

  marked_outside : SameOutside a e m.heap marked.heap
  unfolding write
  marked_outside =
      let end_le = Chain-le m.heap e a (after a n) cs c.1 in
      ((λ x p. ground arith), (λ x p. ground arith))

-- Release of the first chunk of the arena, which has none before it.
free_chunk-first :
    (m : Memory) (e a n : ℕ) (f : Bool) (cs : List Chunk)
    → Chain m.heap e null a ((n, f) ∷ cs)
    → e < 2 ^ 64
    → 0 < a
    → Leaves m e null a (join n cs) tt (free_chunk a m)
unfolding free_chunk
free_chunk-first m e a n f cs c small pos =
    let (h, run, chain, out) =
      coalesce_next-join (marked m e null a n f cs c) e null a n small pos cs
        (Chain-marked m e null a n f cs c) in
    (
      h,
      rw (modify-ok m a freed c.0, run)
          (unfold coalesce_prev in ground (arith, load-ok (with_heap m h) a chain.0)),
      chain,
      SameOutside-trans a e m.heap (marked m e null a n f cs c).heap h
          (marked_outside m e null a n f cs c) out,
    )

-- Release of a chunk with another before it.
free_chunk-second :
    (m : Memory) (e prev a k n : ℕ) (g f : Bool) (cs : List Chunk)
    → Chain m.heap e prev a ((k, g) ∷ (n, f) ∷ cs)
    → e < 2 ^ 64
    → 0 < a
    → Leaves m e prev a (back k g (join n cs)) tt (free_chunk (after a k) m)
unfolding free_chunk
free_chunk-second m e prev a k n g f cs c small pos =
    let x : ℕ = after a k in
    let m₁ = marked m e a x n f cs c.1 in
    let out₁ = marked_outside m e a x n f cs c.1 in
    let (h, run, chain, out) =
      coalesce_next-join m₁ e a x n small (omega arith) cs (Chain-marked m e a x n f cs c.1) in
    let head : h a ≡ some (node k g (ptr e (after a k)) prev) =
      out.0 a (omega arith) ∙ out₁.0 a (omega arith) ∙ c.0 in
    let (h', run', chain', out') =
      coalesce_prev-back (with_heap m h) e prev a k (join_size n cs) small pos g (join_rest cs)
        (head, chain) in
    (
      h',
      rw (modify-ok m x freed c.1.0, run, run') refl,
      chain',
      SameOutside-trans a e m.heap h h'
          (SameOutside-mono a x e m.heap h (omega arith)
            (SameOutside-trans x e m.heap m₁.heap h out₁ out))
          out',
    )

module _ (e p : ℕ) (small : e < 2 ^ 64) where
  -- the chunk at the payload `p` is the first of `cs`
  second :
      (m : Memory) (prev a k : ℕ) (g : Bool) (cs : List Chunk)
      → Chain m.heap e prev a ((k, g) ∷ cs)
      → 0 < a
      → Live p (after a k) cs
      → p ≡ after a k + node_size
      → Leaves m e prev a (release p a ((k, g) ∷ cs)) tt (free_chunk (p - node_size) m)
  unfolding release
  second m prev a k g [] c pos live at = absurd live
  second m prev a k g ((n, f) ∷ cs) c pos live at =
      let here : p - node_size ≡ after a k = omega arith in
      let shape : release p a ((k, g) ∷ (n, f) ∷ cs) ≡ back k g (join n cs) = ground arith in
      rw (shape, here) (free_chunk-second m e prev a k n g f cs c small pos)

  free_chunk-release :
      (m : Memory) (prev a : ℕ) (cs : List Chunk)
      → Chain m.heap e prev a cs
      → 0 < a
      → Live p a cs
      → p ≢ a + node_size
      → Leaves m e prev a (release p a cs) tt (free_chunk (p - node_size) m)
  unfolding release
  free_chunk-release m prev a [] c pos live later = absurd live
  free_chunk-release m prev a ((k, g) ∷ cs) c pos (inl here) later = absurd (later here.0)
  free_chunk-release m prev a ((k, g) ∷ cs) c pos (inr live) later =
      elim (Bool-cases (p == after a k + node_size)) [
        | inl y ↦ second m prev a k g cs c pos live (ground arith)
        | inr y ↦
            let (h, run, chain, out) =
              free_chunk-release m a (after a k) cs c.1 (omega arith) live (ground arith) in
            let shape : release p a ((k, g) ∷ cs) ≡ (k, g) ∷ release p (after a k) cs =
              ground arith in
            rw shape (
              h,
              run,
              (out.0 a (omega arith) ∙ c.0, chain),
              SameOutside-mono a (after a k) e m.heap h (omega arith) out,
            )
      ]

  -- The same wherever the chunk stands in the whole arena.
  free_chunk-any :
      (m : Memory) (a : ℕ) (cs : List Chunk)
      → Chain m.heap e null a cs
      → 0 < a
      → Live p a cs
      → Leaves m e null a (release p a cs) tt (free_chunk (p - node_size) m)
  unfolding release
  free_chunk-any m a [] c pos live = absurd live
  free_chunk-any m a ((n, f) ∷ cs) c pos live = elim (Bool-cases (p == a + node_size)) [
    | inl y ↦
        let here : p - node_size ≡ a = ground arith in
        let shape : release p a ((n, f) ∷ cs) ≡ join n cs = ground arith in
        rw (shape, here) (free_chunk-first m e a n f cs c small pos)
    | inr y ↦ free_chunk-release m null a ((n, f) ∷ cs) c pos live (ground arith)
  ]

Live-bounds :
    (h : Heap) (e p prev a : Ptr) (cs : List Chunk)
    → Chain h e prev a cs
    → Live p a cs
    → (a + node_size ≤ p) × (p ≤ e)
Live-bounds h e p prev a [] c live = absurd live
Live-bounds h e p prev a ((n, f) ∷ cs) c (inl here) =
    (omega arith, omega (arith, Chain-le h e a (after a n) cs c.1))
Live-bounds h e p prev a ((n, f) ∷ cs) c (inr live) =
    omega (arith, Live-bounds h e p a (after a n) cs c.1 live)

-- `wfree` of the payload of an allocated chunk inside the arena marks the chunk free and joins it
-- with a free chunk behind it and a free chunk before it: it does not fault, leaves an arena of
-- exactly the chunks that `release` gives, and changes nothing outside the arena's headers.
pub wfree-release :
    (p : Ptr) (m : Memory) (cs : List Chunk)
    → IsArena m cs
    → Live p m.arena_start cs
    → p < m.arena_start + m.arena_size
    → (h : Heap) × (wfree p m ≡ ok tt (with_heap m h))
      × IsArena (with_heap m h) (release p m.arena_start cs)
      × SameOutside m.arena_start (m.arena_start + m.arena_size) m.heap h
unfolding wfree
wfree-release p m cs v live inside =
    let e : Ptr = m.arena_start + m.arena_size in
    let bounds = Live-bounds m.heap e p null m.arena_start cs v.chain live in
    let (h, run, chain, out) =
      free_chunk-any e p v.small m m.arena_start cs v.chain v.start_pos live in
    (
      h,
      ground (arith, run),
      record { start_pos = v.start_pos; size_pos = v.size_pos; small = v.small; chain = chain },
      out,
    )
