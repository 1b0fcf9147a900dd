-- ===== src/Memory/FirstFit.antt =====
-- What goatmalloc.c promises, on the list of chunks: first-fit allocation with splitting, and
-- release with coalescing on both sides.
pub mod Coalesced
use mathlib.Core.Option
use wpi_operating_systems.Base.{
  ℕ, ◌+◌, ◌-◌, ◌≡◌, ◌⊎◌, Bool, true, false, Option, none, some, List, [], ◌∷◌, ◌&&◌, leb,
  if◌then◌else◌, ◌==◌,
}
use wpi_operating_systems.Memory.Heap.{Ptr, null, node_size}
use wpi_operating_systems.Memory.Chain.{Chunk, after}

-- The first chunk that is free and large enough, of `k` bytes, gives its first `n` bytes. A rest
-- that holds a header and a byte becomes a free chunk.
abbrev pub carve : ℕ → ℕ → List Chunk → List Chunk
carve n k cs =
    if leb (n + 33) k then (n, false) ∷ (k - n - node_size, true) ∷ cs else (k, false) ∷ cs

unfoldable pub alloc : ℕ → List Chunk → Option (List Chunk)
alloc n [] = none
alloc n ((k, f) ∷ cs) =
    if f && leb n k then some (carve n k cs) else Option.map (λ r. (k, f) ∷ r) (alloc n cs)

-- The address that the allocation returns, where the chunks start at `a`.
unfoldable pub alloc_ptr : ℕ → Ptr → List Chunk → Ptr
alloc_ptr n a [] = null
alloc_ptr n a ((k, f) ∷ cs) = if f && leb n k then a + node_size else alloc_ptr n (after a k) cs

-- The size of a released chunk of `n` bytes, and the chunks behind it, once a free chunk behind it
-- is taken in.
abbrev pub join_size : ℕ → List Chunk → ℕ
join_size n ((k, true) ∷ cs) = n + (node_size + k)
join_size n cs = n

abbrev pub join_rest : List Chunk → List Chunk
join_rest ((k, true) ∷ cs) = cs
join_rest cs = cs

abbrev pub join : ℕ → List Chunk → List Chunk
join n cs = (join_size n cs, true) ∷ join_rest cs

-- A chunk in front of a released one takes it in if it is free.
abbrev pub back : ℕ → Bool → List Chunk → List Chunk
back k true ((n, f) ∷ cs) = (k + (node_size + n), true) ∷ cs
back k f cs = (k, f) ∷ cs

-- Release of the chunk with its payload at `p`, where the chunks start at `a`.
unfoldable pub release : Ptr → Ptr → List Chunk → List Chunk
release p a [] = []
release p a ((n, f) ∷ cs) =
    let r = release p (after a n) cs in
    if p == a + node_size
    then join n cs
    else if p == after a n + node_size
    then back n f r
    else (n, f) ∷ r

-- `p` is the payload of an allocated chunk.
abbrev pub Live : Ptr → Ptr → List Chunk → Type 0
Live p a [] = ⊥
Live p a ((n, f) ∷ cs) = (p ≡ a + node_size) × (f ≡ false) ⊎ Live p (after a n) cs

abbrev pub head_free : List Chunk → Bool
head_free [] = false
head_free ((n, f) ∷ cs) = f

-- No two neighbours are both free.
abbrev pub IsCoalesced : List Chunk → Type 0
IsCoalesced [] = Unit {0}
IsCoalesced ((n, f) ∷ cs) = (f ≡ true → head_free cs ≡ false) × IsCoalesced cs
