-- ===== src/Memory/Chain.antt =====
-- What the headers of an arena stand for: a list of chunks that lie one behind the other.
use wpi_operating_systems.Base.{
  ℕ, ◌+◌, ◌*◌, ◌^◌, ◌∙◌, ◌≤◌, ◌<◌, ◌≡◌, refl, ◌≢◌, Bool, some, List, [], ◌∷◌, ◌==◌, if◌then◌else◌,
  arith, length,
}
use wpi_operating_systems.Memory.Heap.{
  Ptr, null, node_size, Node, node, Heap, write, Memory, with_heap, ok, load, store, modify,
  set_bwd,
}

-- the payload size of a chunk, and whether it is free
abbrev pub Chunk : Type 0
Chunk = ℕ × Bool

-- the address behind a chunk at `a` with `n` payload bytes
abbrev pub after : Ptr → ℕ → Ptr
after a n = a + node_size + n

-- the link to a chunk at `b`; behind the last chunk lies the end `e` of the arena
abbrev pub ptr : Ptr → Ptr → Ptr
ptr e b = if b == e then null else b

-- From `a` to `e` lie the chunks `cs`, each header linked to its neighbours; `prev` is the address
-- of the chunk before.
abbrev pub Chain : Heap → Ptr → Ptr → Ptr → List Chunk → Type 0
Chain h e prev a [] = a ≡ e
Chain h e prev a ((n, f) ∷ cs) =
    (h a ≡ some (node n f (ptr e (after a n)) prev)) × Chain h e a (after a n) cs

-- `g` is `h` at the addresses before `a` and from `e` on.
abbrev pub SameOutside : Ptr → Ptr → Heap → Heap → Type 0
SameOutside a e h g = ((x : Ptr) → x < a → g x ≡ h x) × ((x : Ptr) → e ≤ x → g x ≡ h x)

pub SameOutside-trans :
    (a e : Ptr) (h g k : Heap) → SameOutside a e h g → SameOutside a e g k → SameOutside a e h k
SameOutside-trans a e h g k p q = ((λ x l. q.0 x l ∙ p.0 x l), (λ x l. q.1 x l ∙ p.1 x l))

-- A change from `b` on is a change from an earlier address on.
pub SameOutside-mono :
    (a b e : Ptr) (h g : Heap) → a ≤ b → SameOutside b e h g → SameOutside a e h g
SameOutside-mono a b e h g le p = ((λ x l. p.0 x (omega arith)), p.1)

module _ (h : Heap) (e : Ptr) where
  pub Chain-le : (prev a : Ptr) (cs : List Chunk) → Chain h e prev a cs → a + 32 * length cs ≤ e
  Chain-le prev a [] c = omega arith
  Chain-le prev a ((n, f) ∷ cs) c = omega (arith, Chain-le a (after a n) cs c.1)

  pub Chain-frame :
      (g : Heap) (prev a : Ptr) (cs : List Chunk)
      → ((x : Ptr) → a ≤ x → x < e → g x ≡ h x)
      → Chain h e prev a cs
      → Chain g e prev a cs
  Chain-frame g prev a [] same c = c
  Chain-frame g prev a ((n, f) ∷ cs) same c = (
    same a (omega arith) (omega (arith, Chain-le a (after a n) cs c.1)) ∙ c.0,
    Chain-frame g a (after a n) cs (λ x p q. same x (omega arith) q) c.1,
  )

-- The heap after the back link of the first of the chunks `cs` at `b` is set to `q`.
abbrev pub relink : Heap → Ptr → Ptr → List Chunk → Ptr → Heap
relink h e b [] q = h
relink h e b ((n, f) ∷ cs) q = write h b (node n f (ptr e (after b n)) q)

module _ (h : Heap) (e : Ptr) where
  pub Chain-relink :
      (prev b : Ptr) (cs : List Chunk) (q : Ptr)
      → Chain h e prev b cs
      → Chain (relink h e b cs q) e q b cs
  unfolding write
  Chain-relink prev b [] q c = c
  Chain-relink prev b ((n, f) ∷ cs) q c =
      (ground arith, Chain-frame h e _ b (after b n) cs (λ x p r. ground arith) c.1)

  pub relink-ne : (b : Ptr) (cs : List Chunk) (q x : Ptr) → x ≢ b → relink h e b cs q x ≡ h x
  unfolding write
  relink-ne b [] q x d = refl
  relink-ne b ((n, f) ∷ cs) q x d = ground arith

  pub relink_from_end :
      (prev b : Ptr) (cs : List Chunk) (q x : Ptr)
      → Chain h e prev b cs
      → e ≤ x
      → relink h e b cs q x ≡ h x
  relink_from_end prev b [] q x c le = refl
  relink_from_end prev b ((n, f) ∷ cs) q x c le =
      relink-ne b ((n, f) ∷ cs) q x (omega (arith, Chain-le h e b (after b n) cs c.1))

pub load-ok : (m : Memory) (p : Ptr) {n : Node} → m.heap p ≡ some n → load p m ≡ ok n m
unfolding load
load-ok m p e = ground arith

pub modify-ok :
    (m : Memory) (p : Ptr) (f : Node → Node) {n : Node}
    → m.heap p ≡ some n
    → modify p f m ≡ ok tt (with_heap m (write m.heap p (f n)))
unfolding modify store
modify-ok m p f e = rw (load-ok m p e)

pub set_bwd-ok :
    (m : Memory) (e prev b : Ptr) (cs : List Chunk) (q : Ptr)
    → Chain m.heap e prev b cs
    → 0 < b
    → set_bwd (ptr e b) q m ≡ ok tt (with_heap m (relink m.heap e b cs q))
unfolding set_bwd
set_bwd-ok m e prev b [] q c pos = ground arith
set_bwd-ok m e prev b ((n, f) ∷ cs) q c pos = ground (
  arith,
  Chain-le m.heap e b (after b n) cs c.1,
  modify-ok m b (λ (k : Node). record k { bwd = q }) c.0,
)

-- A memory whose arena consists of the chunks `cs`. The end of the arena is a `char *`.
pub record IsArena (m : Memory) (cs : List Chunk) : Type 0 where
  pub start_pos : 0 < m.arena_start
  pub size_pos : 0 < m.arena_size
  pub small : m.arena_start + m.arena_size < 2 ^ 64
  pub chain : Chain m.heap (m.arena_start + m.arena_size) null m.arena_start cs
