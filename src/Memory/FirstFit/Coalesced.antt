-- ===== src/Memory/FirstFit/Coalesced.antt =====
-- Allocation and release keep free chunks apart, and release undoes allocation.
use wpi_operating_systems.Base.{
  ℕ, ◌+◌, ◌≤◌, ◌≡◌, refl, ◌≢◌, ◌⊎◌, inl, inr, subst, Bool, true, false, Bool-cases, Option-cases,
  some, List, [], ◌∷◌, ◌&&◌, leb, if◌then◌else◌, ◌==◌, arith, ==_iff,
}
use wpi_operating_systems.Memory.Heap.{Ptr, node_size}
use wpi_operating_systems.Memory.Chain.{Chunk, after}
use wpi_operating_systems.Memory.FirstFit.{
  carve, alloc, alloc_ptr, join, back, release, Live, head_free, IsCoalesced,
}

-- Either the first chunk is taken, or it is passed over.
pub alloc_cases :
    (n k : ℕ) (f : Bool) (cs cs' : List Chunk)
    → alloc n ((k, f) ∷ cs) ≡ some cs'
    → ((f ≡ true) × (n ≤ k) × (carve n k cs ≡ cs'))
      ⊎ (((f && leb n k) ≡ false) × ((r : List Chunk) × (alloc n cs ≡ some r) × ((k, f) ∷ r ≡ cs')))
unfolding alloc
alloc_cases n k f cs cs' e = elim (Bool-cases (f && leb n k)) [
  | inl y ↦ inl (ground arith, ground arith, ground arith)
  | inr y ↦ elim (Option-cases (alloc n cs)) [
    | inl z ↦ absurd (ground arith)
    | inr (r, z) ↦ inr (y, (r, z, ground arith))
  ]
]

module _ (n : ℕ) where
  -- Allocation makes no first chunk free that was not.
  head_free-alloc :
      (cs cs' : List Chunk) → alloc n cs ≡ some cs' → head_free cs' ≡ true → head_free cs ≡ true
  unfolding alloc
  head_free-alloc [] cs' e free = cc
  head_free-alloc ((k, f) ∷ cs) cs' e free = elim (Option-cases (alloc n cs)) [
    | inl z ↦ ground arith
    | inr (r, z) ↦ ground arith
  ]

  carve-IsCoalesced :
      (k : ℕ) (cs : List Chunk) → head_free cs ≡ false → IsCoalesced cs → IsCoalesced (carve n k cs)
  carve-IsCoalesced k cs h apart = ground arith

  -- Allocation keeps the free chunks apart.
  pub alloc-IsCoalesced :
      (cs cs' : List Chunk) → IsCoalesced cs → alloc n cs ≡ some cs' → IsCoalesced cs'
  unfolding alloc
  alloc-IsCoalesced [] cs' apart e = cc
  alloc-IsCoalesced ((k, f) ∷ cs) cs' apart e = elim (alloc_cases n k f cs cs' e) [
    | inl (free, le, same) ↦ subst IsCoalesced same (carve-IsCoalesced k cs (apart.0 free) apart.1)
    | inr (miss, (r, z, same)) ↦
        subst IsCoalesced same (
          (λ t. ground (arith, apart.0 t, head_free-alloc cs r z)),
          alloc-IsCoalesced cs r apart.1 z,
        )
  ]

-- The allocated payload lies behind the header.
alloc_ptr-le :
    (n a : ℕ) (cs cs' : List Chunk) → alloc n cs ≡ some cs' → a + node_size ≤ alloc_ptr n a cs
unfolding alloc alloc_ptr
alloc_ptr-le n a [] cs' e = cc
alloc_ptr-le n a ((k, f) ∷ cs) cs' e = elim (Option-cases (alloc n cs)) [
  | inl z ↦ ground arith
  | inr (r, z) ↦ ground (arith, alloc_ptr-le n (after a k) cs r z)
]

-- If the payload returned is that of the first chunk, the first chunk was free.
head_free_of_taken :
    (n b : ℕ) (cs r : List Chunk)
    → alloc n cs ≡ some r
    → alloc_ptr n b cs ≡ b + node_size
    → head_free cs ≡ true
unfolding alloc_ptr
head_free_of_taken n b [] r z at = unfold alloc in cc
head_free_of_taken n b ((k, f) ∷ cs) r z at = elim (alloc_cases n k f cs r z) [
  | inl (free, le, same) ↦ free
  | inr (miss, (r', z', same)) ↦ absurd (ground (arith, alloc_ptr-le n (after b k) cs r' z'))
]

-- The chunk that was carved takes its rest back.
release-carve :
    (n a k : ℕ) (cs : List Chunk)
    → head_free cs ≡ false
    → n ≤ k
    → release (a + node_size) a (carve n k cs) ≡ (k, true) ∷ cs
unfolding release
release-carve n a k [] h le = ground arith
release-carve n a k ((j, false) ∷ cs) h le = ground arith
release-carve n a k ((j, true) ∷ cs) h le = cc

-- Release behind a chunk that does not join leaves that chunk.
release_later :
    (p a k : ℕ) (f : Bool) (r cs : List Chunk)
    → p ≢ a + node_size
    → release p (after a k) r ≡ cs
    → (p ≡ after a k + node_size → f ≡ false)
    → release p a ((k, f) ∷ r) ≡ (k, f) ∷ cs
unfolding release
release_later p a k true r cs ne rest used = ground (arith, used)
release_later p a k false r cs ne rest used = ground arith

-- Release of a block that was just allocated restores the chunks, where free chunks are apart.
pub release-alloc :
    (n a : ℕ) (cs cs' : List Chunk)
    → IsCoalesced cs
    → alloc n cs ≡ some cs'
    → release (alloc_ptr n a cs) a cs' ≡ cs
release-alloc n a [] cs' apart e = unfold alloc in cc
release-alloc n a ((k, f) ∷ cs) cs' apart e = elim (alloc_cases n k f cs cs' e) [
  | inl (free, le, same) ↦
      let at : alloc_ptr n a ((k, f) ∷ cs) ≡ a + node_size = unfold alloc_ptr in ground arith in
      rw (← same, at, release-carve n a k cs (apart.0 free) le) (ground arith)
  | inr (miss, (r, z, same)) ↦
      let at : alloc_ptr n a ((k, f) ∷ cs) ≡ alloc_ptr n (after a k) cs =
        unfold alloc_ptr in ground arith in
      let below : after a k + node_size ≤ alloc_ptr n (after a k) cs =
        alloc_ptr-le n (after a k) cs r z in
      let ih : release (alloc_ptr n (after a k) cs) (after a k) r ≡ cs =
        release-alloc n (after a k) cs r apart.1 z in
      let used : alloc_ptr n (after a k) cs ≡ after a k + node_size → f ≡ false =
        λ q. ground (arith, apart.0, head_free_of_taken n (after a k) cs r z q) in
      rw (← same, at) (release_later _ a k f r cs (omega arith) ih used)
]

join-IsCoalesced : (n : ℕ) (cs : List Chunk) → IsCoalesced cs → IsCoalesced (join n cs)
join-IsCoalesced n [] apart = ((λ t. refl), tt)
join-IsCoalesced n ((k, false) ∷ cs) apart = ((λ t. refl), apart)
join-IsCoalesced n ((k, true) ∷ cs) apart = ((λ t. apart.0 refl), apart.1)

back-IsCoalesced :
    (k : ℕ) (f : Bool) (r : List Chunk)
    → head_free r ≡ true
    → IsCoalesced r
    → IsCoalesced (back k f r)
back-IsCoalesced k false r h apart = ((λ t. cc), apart)
back-IsCoalesced k true [] h apart = cc
back-IsCoalesced k true ((n, f) ∷ cs) h apart = ((λ t. apart.0 h), apart.1)

head_free-back : (k : ℕ) (f : Bool) (r : List Chunk) → head_free (back k f r) ≡ f
head_free-back k true [] = refl
head_free-back k true ((n, f) ∷ cs) = refl
head_free-back k false r = refl

module _ (p : Ptr) where
  head_free-release :
      (b : Ptr) (cs : List Chunk)
      → Live p b cs
      → head_free (release p b cs) ≡ (if p == b + node_size then true else head_free cs)
  unfolding release
  head_free-release b [] live = absurd live
  head_free-release b ((n, f) ∷ cs) live =
      ground (arith, head_free-back n f (release p (after b n) cs))

  -- Release of an allocated chunk keeps the free chunks apart.
  pub release-IsCoalesced :
      (a : Ptr) (cs : List Chunk) → Live p a cs → IsCoalesced cs → IsCoalesced (release p a cs)
  unfolding release
  release-IsCoalesced a [] live apart = absurd live
  release-IsCoalesced a ((n, f) ∷ cs) (inl here) apart =
      rw ((==_iff p (a + node_size)).1 here.0) (join-IsCoalesced n cs apart.1)
  release-IsCoalesced a ((n, f) ∷ cs) (inr live) apart =
      let ih : IsCoalesced (release p (after a n) cs) =
        release-IsCoalesced (after a n) cs live apart.1 in
      let head : head_free (release p (after a n) cs)
          ≡ (if p == after a n + node_size then true else head_free cs) =
        head_free-release (after a n) cs live in
      elim (Bool-cases (p == a + node_size)) [
        | inl y ↦ rw y (join-IsCoalesced n cs apart.1)
        | inr y ↦ elim (Bool-cases (p == after a n + node_size)) [
          | inl z ↦ rw (y, z) (back-IsCoalesced n f (release p (after a n) cs) (ground arith) ih)
          | inr z ↦ rw (y, z) ((λ t. ground (arith, apart.0 t)), ih)
        ]
      ]
