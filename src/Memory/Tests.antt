-- ===== src/Memory/Tests.antt =====
-- The allocator at a small arena: a used block of 16 bytes at 4096 and a free chunk of 400 bytes.
use wpi_operating_systems.Base.{
  ◌*◌, ℕ, ◌+◌, ◌<◌, ◌≡◌, refl, true, false, none, some, inl, inr, List, [], ◌∷◌, ◌==◌,
  if◌then◌else◌, arith, pos, to_int32, ◌%◌, ◌^◌, ◌≤◌, ◌-◌,
}
use wpi_operating_systems.Memory.Heap.{null, Heap, node, Memory, with_heap, ok, ◌>>=◌}
use wpi_operating_systems.Memory.Chain.{Chunk, Chain, IsArena, SameOutside}
use wpi_operating_systems.Memory.FirstFit.{alloc, alloc_ptr, release, Live, IsCoalesced}
use wpi_operating_systems.Memory.Arena.{
  read_link, Sys, adjusted_size, init, walloc, wfree, wrealloc,
}
use wpi_operating_systems.Memory.Arena.Walloc.{Walloced, walloc-alloc}
use wpi_operating_systems.Memory.Arena.Wfree.{wfree-release}
use wpi_operating_systems.Memory.Arena.Wrealloc.{regrow, wrealloc-regrow}
use wpi_operating_systems.Memory.Arena.Startup.{Answers, init-IsArena}
use wpi_operating_systems.Memory.Arena.RoundTrip.{
  wfree-walloc, IsCoalesced-walloc, IsCoalesced-wfree,
}

abbrev headers : Heap
headers p =
    if p == 4096
    then some (node 16 false 4144 0)
    else if p == 4144
    then some (node 400 true 0 4096)
    else none

abbrev arena : Memory
arena = record {
  arena_start = 4096;
  arena_size = 480;
  statusno = pos 480;
  heap = headers;
  bytes = λ _. 0;
}

abbrev chunks : List Chunk
chunks = (16, false) ∷ (400, true) ∷ []

arena-IsArena : IsArena arena chunks
arena-IsArena = record {
  start_pos = omega arith;
  size_pos = omega arith;
  small = omega arith;
  chain = (refl, (refl, refl));
}

alloc_100 : alloc 100 chunks ≡ some ((16, false) ∷ (100, false) ∷ (268, true) ∷ [])
unfolding alloc
alloc_100 = refl

walloc-alloc_example : Walloced arena 100 chunks (alloc 100 chunks) (walloc 100 arena)
walloc-alloc_example = walloc-alloc 100 arena chunks arena-IsArena

used-Live : Live 4128 4096 chunks
used-Live = inl (refl, refl)

wfree-release_example :
    (h : Heap) × (wfree 4128 arena ≡ ok tt (with_heap arena h))
    × IsArena (with_heap arena h) (release 4128 4096 chunks)
    × SameOutside 4096 (4096 + 480) headers h
wfree-release_example = wfree-release 4128 arena chunks arena-IsArena used-Live (omega arith)

-- The whole arena is free again.
release_4128 : release 4128 4096 chunks ≡ (448, true) ∷ []
unfolding release
release_4128 = refl

chunks-IsCoalesced : IsCoalesced chunks
chunks-IsCoalesced = ((λ t. cc), ((λ t. refl), tt))

wfree-walloc_example :
    (h : Heap) × ((walloc 100 >>= wfree) arena ≡ ok tt (with_heap arena h))
    × IsArena (with_heap arena h) chunks
    × SameOutside 4096 (4096 + 480) headers h
wfree-walloc_example =
    wfree-walloc 100 arena chunks ((16, false) ∷ (100, false) ∷ (268, true) ∷ []) arena-IsArena
      chunks-IsCoalesced alloc_100 (omega arith)

IsCoalesced-walloc_example :
    (h : Heap) × (ds : List Chunk) × (walloc 100 arena
      ≡ ok (alloc_ptr 100 4096 chunks) (with_heap arena h))
    × IsArena (with_heap arena h) ds
    × IsCoalesced ds
IsCoalesced-walloc_example =
    IsCoalesced-walloc 100 arena chunks ((16, false) ∷ (100, false) ∷ (268, true) ∷ [])
      arena-IsArena chunks-IsCoalesced alloc_100

IsCoalesced-wfree_example :
    (h : Heap) × (ds : List Chunk) × (wfree 4128 arena ≡ ok tt (with_heap arena h))
    × IsArena (with_heap arena h) ds
    × IsCoalesced ds
IsCoalesced-wfree_example =
    IsCoalesced-wfree 4128 arena chunks arena-IsArena chunks-IsCoalesced used-Live (omega arith)

arena-Chain : Chain headers 4576 0 4096 chunks
arena-Chain = (refl, (refl, refl))

-- The used block grows to 100 bytes in place.
wrealloc-regrow_example :
    (h : Heap) × (wrealloc 4128 100 arena ≡ ok 4128 (with_heap arena h))
    × Chain h 4576 0 4096 (regrow 100 16 400 [])
    × SameOutside 4096 4576 headers h
wrealloc-regrow_example =
    wrealloc-regrow arena 4576 0 4096 16 400 100 [] arena-Chain (omega arith) (omega arith)
      (omega arith) (omega arith) (inr (omega arith))

-- A link that is null stays so where the block grows by 7 bytes: the byte that is written is 0.
link_stays : read_link 4151 377 4144 null ≡ null
unfolding read_link
link_stays = refl

-- Where it grows by 8, the link becomes 1.
link_changes : read_link 4152 376 4144 null ≡ 1
unfolding read_link
link_changes = refl

abbrev sys : Sys
sys = record { page_size = 4096; opens = true; mapping = some 65536; mapped = λ _. 0 }

sys-Answers : Answers sys 65536 5000
unfolding adjusted_size
sys-Answers = record {
  some_page = omega arith;
  page_small = omega arith;
  opened = refl;
  mapped = refl;
  start_pos = omega arith;
  addressable = omega arith;
}

init-IsArena_example :
    (m : Memory) × (init sys 5000 arena ≡ ok (to_int32 (m.arena_size % 2 ^ 32)) m)
    × IsArena m ((m.arena_size - 32, true) ∷ [])
    × (5000 ≤ m.arena_size)
    × (m.arena_size < 5000 + 4096)
    × (k : ℕ) × (m.arena_size ≡ k * 4096)
init-IsArena_example = init-IsArena sys 65536 5000 arena sys-Answers (omega arith) (omega arith)

largest-Answers : Answers sys 65536 0x7fff_ffff
unfolding adjusted_size
largest-Answers = record {
  some_page = omega arith;
  page_small = omega arith;
  opened = refl;
  mapped = refl;
  start_pos = omega arith;
  addressable = omega arith;
}
