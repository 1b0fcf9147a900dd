-- ===== src/Memory/Heap.antt =====
-- The memory that goatmalloc.c works on: node headers at addresses, the payload bytes, the three
-- globals of the file, and the commands that read and write them.
-- A header is an entry of `heap`. Payload bytes are kept apart from the headers, so a header that
-- the allocator carves out of a free chunk does not show in that chunk's payload.
use wpi_operating_systems.Base.{
  ℕ, ◌+◌, ◌-◌, ◌%◌, ◌^◌, Bool, Option, none, some, ℤ, ◌==◌, if◌then◌else◌,
}

abbrev pub Ptr : Type 0
Ptr = ℕ

abbrev pub null : Ptr
null = 0

-- sizeof(node_t) on a 64-bit machine: an 8-byte size, a short padded to 8, two 8-byte pointers.
abbrev pub node_size : ℕ
node_size = 32

-- `node_t`
pub record Node : Type 0 where
  pub size : ℕ
  pub is_free : Bool
  pub fwd : Ptr
  pub bwd : Ptr

abbrev pub node : ℕ → Bool → Ptr → Ptr → Node
node n f p q = record { size = n; is_free = f; fwd = p; bwd = q }

abbrev pub Heap : Type 0
Heap = Ptr → Option Node

unfoldable pub write : Heap → Ptr → Node → Heap
write h p n a = if a == p then some n else h a

-- `_arena_start`, `_arena_size`, `statusno` and the memory.
pub record Memory : Type 0 where
  pub arena_start : Ptr
  pub arena_size : ℕ
  pub statusno : ℤ
  pub heap : Heap
  pub bytes : Ptr → ℕ

pub data Run {ℓ} (A : Type ℓ) : Type ℓ where
  ok : A → Memory → Run A
  fault : Run A
  out_of_fuel : Run A

abbrev pub Cmd : Type 0 → Type 0
Cmd A = Memory → Run A

abbrev pub pure : {A : Type 0} → A → Cmd A
pure a m = ok a m

module _ {A B : Type 0} where
  abbrev pub and_then : Run A → (A → Cmd B) → Run B
  and_then (ok a m) k = k a m
  and_then fault k = fault
  and_then out_of_fuel k = out_of_fuel

  infixl 5 ◌>>=◌ ◌>>◌
  abbrev pub ◌>>=◌ : Cmd A → (A → Cmd B) → Cmd B
  c >>= k = λ m. and_then (c m) k

  abbrev pub ◌>>◌ : Cmd A → Cmd B → Cmd B
  c >> d = c >>= λ _. d

-- size_t addition
abbrev pub add_size : ℕ → ℕ → ℕ
add_size a b = (a + b) % 2 ^ 64

-- size_t subtraction, which wraps
abbrev pub sub_size : ℕ → ℕ → ℕ
sub_size a b = (a + 2 ^ 64 - b) % 2 ^ 64

abbrev pub with_heap : Memory → Heap → Memory
with_heap m h = record m { heap = h }

-- `*p`, a fault at an address that holds no header
unfoldable pub load : Ptr → Cmd Node
load p m = elim (m.heap p) [ none ↦ fault | some n ↦ ok n m ]

-- `*p = n`
unfoldable pub store : Ptr → Node → Cmd (Unit {0})
store p n m = ok tt (with_heap m (write m.heap p n))

-- a read followed by a write of the same header
unfoldable pub modify : Ptr → (Node → Node) → Cmd (Unit {0})
unfolding load store
modify p f = do n ← load p; store p (f n)

-- `if (p) p->bwd = q`
unfoldable pub set_bwd : Ptr → Ptr → Cmd (Unit {0})
unfolding modify
set_bwd p q = if p == null then pure tt else modify p (λ n. record n { bwd = q })
