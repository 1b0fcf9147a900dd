-- ===== src/Memory/Arena/Wrealloc.antt =====
-- The in-place branch of `wrealloc`, which takes space from a free chunk behind the block.
use wpi_operating_systems.Base.{
  ℕ, ◌+◌, ◌-◌, ◌*◌, ◌^◌, ◌≤◌, ◌<◌, ◌≡◌, refl, ◌∙◌, ◌⊎◌, true, false, Bool-cases, inl, inr, subst,
  some, List, ◌∷◌, ◌==◌, leb, if◌then◌else◌, arith, length,
}
use wpi_operating_systems.Memory.Heap.{
  Ptr, null, node_size, node, Heap, write, Memory, with_heap, Run, ok, and_then, pure, load, store,
  sub_size,
}
use wpi_operating_systems.Memory.Chain.{
  Chunk, after, ptr, Chain, SameOutside, Chain-le, Chain-frame, relink, Chain-relink, relink-ne,
  relink_from_end, load-ok, modify-ok, set_bwd-ok,
}
use wpi_operating_systems.Memory.Arena.{
  clobbers, read_link, grow, resize, wrealloc, free_forward_space,
}
use wpi_operating_systems.Memory.Arena.Wfree.{merged, merge_heap, third, Chain-merge, merge_outside}

-- The chunks after a block of `n` bytes, with a free chunk of `k` bytes behind it, becomes one of
-- `size` bytes.
abbrev pub regrow : ℕ → ℕ → ℕ → List Chunk → List Chunk
regrow size n k cs =
    if leb (size + 33) (n + (node_size + k))
    then (size, false) ∷ (n + (node_size + k) - size - node_size, true) ∷ cs
    else (n + (node_size + k), false) ∷ cs

module _ (m : Memory) (e prev x n k size : ℕ) (cs : List Chunk)
    (c : Chain m.heap e prev x ((n, false) ∷ (k, true) ∷ cs)) (pos : 0 < x) (small : e < 2 ^ 64)
    (fits : size ≤ n + (node_size + k)) where
  abbrev third_at : Ptr
  third_at = after (after x n) k

  -- the heaps that the splitting branch passes through
  abbrev grow₁ : Heap
  grow₁ =
      write m.heap (after x size)
        (node (n + (node_size + k) - size - node_size) true (ptr e third_at) x)

  abbrev grow₂ : Heap
  grow₂ = write grow₁ x (node n false (after x size) prev)

  abbrev grow₃ : Heap
  grow₃ = relink grow₂ e third_at cs (after x size)

  abbrev grow₄ : Heap
  grow₄ = write grow₃ x (node size false (after x size) prev)

  end_le : third_at + 32 * length cs ≤ e
  end_le = Chain-le m.heap e (after x n) third_at cs c.1.1

  space :
      free_forward_space (node n false (after x n) prev) (node k true (ptr e third_at) x)
      ≡ n + (node_size + k)
  space = omega (arith, end_le)

  module _ (room : size + 33 ≤ n + (node_size + k)) where
    tail₂ : Chain grow₂ e (after x n) third_at cs
    unfolding write
    tail₂ = Chain-frame m.heap e grow₂ (after x n) third_at cs (λ y p q. ground arith) c.1.1

    kept₁ : grow₁ x ≡ some (node n false (ptr e (after x n)) prev)
    unfolding write
    kept₁ = ground (arith, c.0)

    kept₃ : grow₃ x ≡ some (node n false (after x size) prev)
    unfolding write
    kept₃ = relink-ne grow₂ e third_at cs (after x size) x (omega arith) ∙ ground arith

    grow-split :
        clobbers (after x size) (after x n) ≡ false
        → grow x
            (node n false (after x n) prev)
            (node k true (ptr e third_at) x)
            (n + (node_size + k))
            size
            m
          ≡ ok tt (with_heap m grow₄)
    unfolding grow read_link store
    grow-split clear =
        let guard : leb (node_size + 1) (sub_size (n + (node_size + k)) size) ≡ true =
          ground (arith, end_le) in
        let words : sub_size (sub_size (n + (node_size + k)) size) node_size
            ≡ n + (node_size + k) - size - node_size =
          omega (arith, end_le) in
        rw (
          guard,
          clear,
          words,
          modify-ok (with_heap m grow₁) x (λ n. record n { fwd = after x size }) kept₁,
          set_bwd-ok (with_heap m grow₂) e (after x n) third_at cs (after x size) tail₂
              (omega arith),
          modify-ok (with_heap m grow₃) x (λ n. record n { size = size }) kept₃,
        )

    Chain-grow :
        Chain grow₄ e prev x ((size, false) ∷ (n + (node_size + k) - size - node_size, true) ∷ cs)
    unfolding write
    Chain-grow =
        let end_eq : after (after x size) (n + (node_size + k) - size - node_size) ≡ third_at =
          omega arith in
        let inner : ptr e (after x size) ≡ after x size = ground (arith, end_le) in
        (
          rw inner (ground arith),
          (
            rw end_eq (
                ground (
                  arith,
                  relink-ne grow₂ e third_at cs (after x size) (after x size) (omega arith),
                )),
            rw end_eq (
                Chain-frame grow₃ e grow₄ (after x size) third_at cs (λ y p q. ground arith)
                  (Chain-relink grow₂ e (after x n) third_at cs (after x size) tail₂)),
          ),
        )

  grow-whole :
      (n + (node_size + k) < size + 33)
      → grow x
          (node n false (after x n) prev)
          (node k true (ptr e third_at) x)
          (n + (node_size + k))
          size
          m
        ≡ ok tt (with_heap m (merge_heap m e prev x n k false true cs c pos small))
  unfolding grow store
  grow-whole tight =
      let guard : leb (node_size + 1) (sub_size (n + (node_size + k)) size) ≡ false =
        ground (arith, end_le) in
      rw (
        guard,
        modify-ok m x (λ a. record a { size = n + (node_size + k); fwd = ptr e third_at }) c.0,
        set_bwd-ok (with_heap m (merged m e prev x n k false true cs c pos small)) e (after x n)
            third_at cs x (third m e prev x n k false true cs c pos small) (omega arith),
      )

  module _ (room : size + 33 ≤ n + (node_size + k)) where
    grow_outside : SameOutside x e m.heap grow₄
    unfolding write
    grow_outside = (
      (λ y p.
          ground (arith, relink-ne grow₂ e third_at cs (after x size) y (omega (arith, end_le)))),
      (λ y p. ground (
        arith,
        end_le,
        relink_from_end grow₂ e (after x n) third_at cs (after x size) y (tail₂ room) p,
      )),
    )

  there : ptr e (after x n) ≡ after x n
  there = ground (arith, end_le)

  -- `wrealloc` reaches the in-place branch.
  to_grow :
      0 < size
      → {r : Run (Unit {0})}
      → grow x
          (node n false (after x n) prev)
          (node k true (ptr e third_at) x)
          (n + (node_size + k))
          size
          m
        ≡ r
      → wrealloc (x + node_size) size m ≡ and_then r (λ _. pure (x + node_size))
  unfolding wrealloc resize
  to_grow some_size run =
      let back : x + node_size - node_size ≡ x = omega arith in
      let fits' : leb size (n + (node_size + k)) ≡ true = ground arith in
      let link : (after x n == null) ≡ false = ground arith in
      let first : load x m ≡ ok (node n false (after x n) prev) m =
        load-ok m x (subst (λ t. m.heap x ≡ some (node n false t prev)) there c.0) in
      let given : (x + node_size == null) ≡ false = ground arith in
      let asked : (size == 0) ≡ false = ground arith in
      rw (given, asked, back, first, link, load-ok m (after x n) c.1.0, space, fits', run) refl

-- `wrealloc` of a block of `n` bytes with a free chunk of `k` bytes behind it, to a size that the
-- two hold together and that is less than `n + 7` or more than `n + 23`, keeps the pointer, gives
-- the block its new size and puts the rest into a free chunk if it holds a header and a byte, or
-- else into the block. Headers before the block and behind the arena stay as they are.
pub wrealloc-regrow :
    (m : Memory) (e prev x n k size : ℕ) (cs : List Chunk)
    → Chain m.heap e prev x ((n, false) ∷ (k, true) ∷ cs)
    → 0 < x
    → e < 2 ^ 64
    → 0 < size
    → size ≤ n + (node_size + k)
    → (size < n + 7) ⊎ (n + 23 < size)
    → (h : Heap) × (wrealloc (x + node_size) size m ≡ ok (x + node_size) (with_heap m h))
      × Chain h e prev x (regrow size n k cs)
      × SameOutside x e m.heap h
wrealloc-regrow m e prev x n k size cs c pos small some_size fits apart =
    elim (Bool-cases (leb (size + 33) (n + (node_size + k)))) [
      | inl y ↦
          let room : size + 33 ≤ n + (node_size + k) = ground arith in
          let clear : clobbers (after x size) (after x n) ≡ false =
            unfold clobbers in ground arith in
          let run = grow-split m e prev x n k size cs c pos small fits room clear in
          rw y (
            grow₄ m e prev x n k size cs c pos small fits,
            to_grow m e prev x n k size cs c pos small fits some_size run,
            Chain-grow m e prev x n k size cs c pos small fits room,
            grow_outside m e prev x n k size cs c pos small fits room,
          )
      | inr y ↦
          let tight : n + (node_size + k) < size + 33 = ground arith in
          let run = grow-whole m e prev x n k size cs c pos small fits tight in
          rw y (
            merge_heap m e prev x n k false true cs c pos small,
            to_grow m e prev x n k size cs c pos small fits some_size run,
            Chain-merge m e prev x n k false true cs c pos small,
            merge_outside m e prev x n k false true cs c pos small,
          )
    ]
