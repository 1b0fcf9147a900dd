-- ===== src/Memory/Arena/RoundTrip.antt =====
-- `walloc` followed by `wfree`, and what a block that was handed out may rely on.
use wpi_operating_systems.Base.{
  ℕ, ◌+◌, ◌≤◌, ◌<◌, ◌≡◌, refl, inl, inr, sym, subst, Bool-cases, some, List, [], ◌∷◌, leb, arith,
}
use wpi_operating_systems.Memory.Heap.{Ptr, Heap, Memory, with_heap, ok, ◌>>=◌}
use wpi_operating_systems.Memory.Chain.{
  Chunk, after, Chain, Chain-le, IsArena, SameOutside, SameOutside-trans,
}
use wpi_operating_systems.Memory.FirstFit.{alloc, alloc_ptr, release, Live, IsCoalesced}
use wpi_operating_systems.Memory.FirstFit.Coalesced.{
  alloc_cases, release-alloc, alloc-IsCoalesced, release-IsCoalesced,
}
use wpi_operating_systems.Memory.Arena.{walloc, wfree}
use wpi_operating_systems.Memory.Arena.Walloc.{Walloced, walloc-alloc}
use wpi_operating_systems.Memory.Arena.Wfree.{wfree-release}

-- The payload that an allocation returns is allocated afterwards.
Live-alloc : (n a : ℕ) (cs cs' : List Chunk) → alloc n cs ≡ some cs' → Live (alloc_ptr n a cs) a cs'
unfolding alloc_ptr
Live-alloc n a [] cs' e = unfold alloc in cc
Live-alloc n a ((k, f) ∷ cs) cs' e = elim (alloc_cases n k f cs cs' e) [
  | inl (free, le, same) ↦ subst (Live _ a) same (elim (Bool-cases (leb (n + 33) k)) [
    | inl y ↦ rw y (inl (ground arith))
    | inr y ↦ rw y (inl (ground arith))
  ])
  | inr (miss, (r, z, same)) ↦
      let at : alloc_ptr n a ((k, f) ∷ cs) ≡ alloc_ptr n (after a k) cs = ground arith in
      subst (λ q. Live q a cs') (sym at)
        (subst (Live (alloc_ptr n (after a k) cs) a) same (inr (Live-alloc n (after a k) cs r z)))
]

-- The bytes that an allocation returns lie inside the arena.
alloc_in_arena :
    (n a e prev : ℕ) (h : Heap) (cs cs' : List Chunk)
    → Chain h e prev a cs
    → alloc n cs ≡ some cs'
    → alloc_ptr n a cs + n ≤ e
unfolding alloc_ptr
alloc_in_arena n a e prev h [] cs' c z = unfold alloc in cc
alloc_in_arena n a e prev h ((k, f) ∷ cs) cs' c z = elim (alloc_cases n k f cs cs' z) [
  | inl (free, le, same) ↦ ground (arith, Chain-le h e a (after a k) cs c.1)
  | inr (miss, (r, z', same)) ↦ rw miss (alloc_in_arena n (after a k) e a h cs r c.1 z')
]

-- Allocation of some bytes in an arena whose free chunks are apart, followed by the release of the
-- block, gives back the arena of the same chunks, with no other header changed, whenever a chunk
-- fits.
pub wfree-walloc :
    (n : ℕ) (m : Memory) (cs cs' : List Chunk)
    → IsArena m cs
    → IsCoalesced cs
    → alloc n cs ≡ some cs'
    → 0 < n
    → (h : Heap) × ((walloc n >>= wfree) m ≡ ok tt (with_heap m h))
      × IsArena (with_heap m h) cs
      × SameOutside m.arena_start (m.arena_start + m.arena_size) m.heap h
wfree-walloc n m cs cs' v apart fit some_bytes =
    let start = m.arena_start in
    let end : ℕ = m.arena_start + m.arena_size in
    let (h, run, v', out) =
      subst (λ t. Walloced m n cs t (walloc n m)) fit (walloc-alloc n m cs v) in
    let bound : alloc_ptr n m.arena_start cs + n ≤ end =
      alloc_in_arena n m.arena_start end 0 m.heap cs cs' v.chain fit in
    let (h', run', v'', out') =
      wfree-release (alloc_ptr n m.arena_start cs) (with_heap m h) cs' v'
        (Live-alloc n m.arena_start cs cs' fit) (omega arith) in
    (
      h',
      rw (run, run') refl,
      subst (IsArena (with_heap m h')) (release-alloc n m.arena_start cs cs' apart fit) v'',
      SameOutside-trans m.arena_start end m.heap h h' out out',
    )

-- An allocation that succeeds in an arena without two free neighbours leaves an arena without two
-- free neighbours.
pub IsCoalesced-walloc :
    (n : ℕ) (m : Memory) (cs cs' : List Chunk)
    → IsArena m cs
    → IsCoalesced cs
    → alloc n cs ≡ some cs'
    → (h : Heap) × (ds : List Chunk) × (walloc n m
        ≡ ok (alloc_ptr n m.arena_start cs) (with_heap m h))
      × IsArena (with_heap m h) ds
      × IsCoalesced ds
IsCoalesced-walloc n m cs cs' v apart fit =
    let (h, run, v', out) =
      subst (λ t. Walloced m n cs t (walloc n m)) fit (walloc-alloc n m cs v) in
    (h, cs', run, v', alloc-IsCoalesced n cs cs' apart fit)

-- The release of an allocated block inside an arena without two free neighbours leaves an arena
-- without two free neighbours.
pub IsCoalesced-wfree :
    (p : Ptr) (m : Memory) (cs : List Chunk)
    → IsArena m cs
    → IsCoalesced cs
    → Live p m.arena_start cs
    → p < m.arena_start + m.arena_size
    → (h : Heap) × (ds : List Chunk) × (wfree p m ≡ ok tt (with_heap m h))
      × IsArena (with_heap m h) ds
      × IsCoalesced ds
IsCoalesced-wfree p m cs v apart live inside =
    let (h, run, v', out) = wfree-release p m cs v live inside in
    (h, release p m.arena_start cs, run, v', release-IsCoalesced p m.arena_start cs live apart)
