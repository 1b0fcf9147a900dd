-- ===== src/Memory/Arena.antt =====
-- The functions of goatmalloc.c. What the operating system answers is an argument of `init` and
-- `destroy`; messages are left out. The loop of `walloc` runs on fuel.
pub mod Walloc
pub mod Wfree
pub mod Wrealloc
pub mod Startup
pub mod RoundTrip
use wpi_operating_systems.Base.{
  ℕ, zero, suc, ◌+◌, ◌-◌, ◌*◌, ◌/◌, ◌%◌, ◌^◌, Bool, true, false, Option, none, some, ◌&&◌, ◌||◌, ℤ,
  pos, negsuc, to_int32, ltb, leb, ◌==◌, if◌then◌else◌,
}
use wpi_operating_systems.Memory.Heap.{
  Ptr, null, node_size, Node, node, write, Memory, ok, fault, Cmd, out_of_fuel, pure, ◌>>=◌, ◌>>◌,
  add_size, sub_size, load, store, modify, set_bwd,
}

abbrev pub err_out_of_memory : ℤ
err_out_of_memory = negsuc 0

abbrev pub err_bad_arguments : ℤ
err_bad_arguments = negsuc 1

abbrev pub err_syscall_failed : ℤ
err_syscall_failed = negsuc 2

abbrev pub err_uninitialized : ℤ
err_uninitialized = negsuc 4

abbrev pub max_arena_size : ℕ
max_arena_size = 0x7fff_ffff

-- `MAP_FAILED`
abbrev pub map_failed : Ptr
map_failed = 2 ^ 64 - 1

-- What the system calls of `init` return: the page size, whether `/dev/zero` opens, the mapping
-- (`none` for `MAP_FAILED`), and the bytes that are read from it.
pub record Sys : Type 0 where
  pub page_size : ℕ
  pub opens : Bool
  pub mapping : Option Ptr
  pub mapped : Ptr → ℕ

-- ((size + page_size - 1) / page_size) * page_size
unfoldable pub adjusted_size : ℕ → ℕ → ℕ
adjusted_size page size = sub_size (add_size size page) 1 / page * page % 2 ^ 64

with_status : Memory → ℤ → Memory
with_status m s = record m { statusno = s }

-- the header of the one free chunk, written at the start of the new mapping
unfoldable pub init_chunk : Sys → Ptr → ℕ → Memory → Memory
init_chunk sys start size m = record {
  arena_start = start;
  arena_size = size;
  statusno = to_int32 (size % 2 ^ 32);
  heap = write m.heap start (node (sub_size size node_size) true null null);
  bytes = sys.mapped;
}

-- The result is the status that `init` returns and stores in `statusno`.
init_map : Sys → ℕ → Memory → Memory
unfolding with_status init_chunk
init_map sys size m = elim sys.mapping [
  | none ↦ record m { arena_start = map_failed; statusno = err_syscall_failed }
  | some start ↦ init_chunk sys start size m
]

unfoldable pub init : Sys → ℕ → Cmd ℤ
unfolding with_status init_map adjusted_size
init sys size m =
    let m' : Memory =
      (if size == 0 || ltb max_arena_size size
        then with_status m err_bad_arguments
        else if sys.opens
        then init_map sys (adjusted_size sys.page_size size) m
        else with_status m err_syscall_failed) in
    ok m'.statusno m'

-- `unmaps` says whether `munmap` succeeds. After it no header can be read.
unfoldable pub destroy : Bool → Cmd ℤ
unfolding with_status
destroy unmaps m =
    let m' : Memory =
      (if m.arena_start == null
        then with_status m err_uninitialized
        else if unmaps
        then record m { arena_start = null; arena_size = 0; statusno = pos 0; heap = λ _. none }
        else with_status m err_syscall_failed) in
    ok m'.statusno m'

-- The split of a free chunk: a new free header behind the first `size` bytes.
split : Ptr → Node → ℕ → Cmd (Unit {0})
split current n size = do
  store (current + node_size + size)
      (node (sub_size (sub_size n.size size) node_size) true n.fwd current)
  set_bwd n.fwd (current + node_size + size)
  modify current (λ c. record c { fwd = current + node_size + size; size = size })

-- What `walloc` does with the chunk that fits.
take_chunk : Ptr → Node → ℕ → Cmd Ptr
unfolding split
take_chunk current n size = do
  if leb (add_size (add_size size node_size) 1) n.size then split current n size else pure tt
  modify current (λ c. record c { is_free = false })
  pure (current + node_size)

set_status : ℤ → Cmd (Unit {0})
unfolding with_status
set_status s m = ok tt (with_status m s)

walloc_loop : ℕ → ℕ → Ptr → Cmd Ptr
unfolding take_chunk set_status
walloc_loop zero size current = λ _. out_of_fuel
walloc_loop (suc fuel) size current =
    if current == null then (do set_status err_out_of_memory; pure null) else do
      n ← load current
      if n.is_free && leb size n.size
          then take_chunk current n size
          else walloc_loop fuel size n.fwd

-- The chunks of an arena number at most a 32nd of its size, so its size is fuel enough.
unfoldable pub walloc : ℕ → Cmd Ptr
unfolding walloc_loop set_status
walloc size m =
    if m.arena_start == null
    then (do set_status err_uninitialized; pure null) m
    else walloc_loop (m.arena_size + 1) size m.arena_start m

-- if the next chunk is free, group together
coalesce_next : Ptr → Cmd (Unit {0})
coalesce_next chunk = do
  c ← load chunk
  if c.fwd == null then pure tt else do
    f ← load c.fwd
    if f.is_free
        then (do
          store chunk (record c { size = add_size c.size (add_size node_size f.size); fwd = f.fwd })
          set_bwd f.fwd chunk)
        else pure tt

-- if the chunk behind is free
coalesce_prev : Ptr → Cmd (Unit {0})
coalesce_prev chunk = do
  c ← load chunk
  if c.bwd == null then pure tt else do
    b ← load c.bwd
    if b.is_free
        then (do
          store c.bwd (record b { size = add_size b.size (add_size node_size c.size); fwd = c.fwd })
          set_bwd c.fwd c.bwd)
        else pure tt

-- What `wfree` does with a header once the pointer is accepted.
free_chunk : Ptr → Cmd (Unit {0})
unfolding coalesce_next coalesce_prev
free_chunk chunk = do
  modify chunk (λ c. record c { is_free = true })
  coalesce_next chunk
  coalesce_prev chunk

unfoldable pub wfree : Ptr → Cmd (Unit {0})
unfolding free_chunk
wfree ptr m =
    if ptr == null || ltb ptr m.arena_start || leb (m.arena_start + m.arena_size) ptr
    then ok tt m
    else free_chunk (ptr - node_size) m

-- `memcpy` between payloads
unfoldable pub memcpy : Ptr → Ptr → ℕ → Cmd (Unit {0})
memcpy dst src n m = ok tt (record m {
  bytes = λ a. if leb dst a && ltb a (dst + n) then m.bytes (src + (a - dst)) else m.bytes a;
})

-- The 8 bytes of `new_free->size` or the 2 of `new_free->is_free`, which are written first, lie on
-- the 8 bytes of `next_chunk->fwd`, which is read next.
unfoldable pub clobbers : Ptr → Ptr → Bool
clobbers new_free next =
    (ltb new_free (next + 24) && ltb (next + 16) (new_free + 8))
    || (ltb (new_free + 8) (next + 24) && ltb (next + 16) (new_free + 10))

-- Byte `i` of the link at `next + 16` behind those writes, of `size` and of 1, little-endian.
unfoldable pub link_byte : Ptr → ℕ → Ptr → Ptr → ℕ → ℕ
link_byte new_free size next fwd i =
    let a = next + 16 + i in
    if leb new_free a && ltb a (new_free + 8)
    then size / 256 ^ (a - new_free) % 256
    else if leb (new_free + 8) a && ltb a (new_free + 10)
    then 1 / 256 ^ (a - (new_free + 8)) % 256
    else fwd / 256 ^ i % 256

-- The number that the first `n` bytes of that link stand for.
unfoldable pub link_bytes : Ptr → ℕ → Ptr → Ptr → ℕ → ℕ
unfolding link_byte
link_bytes new_free size next fwd zero = 0
link_bytes new_free size next fwd (suc n) =
    link_bytes new_free size next fwd n + link_byte new_free size next fwd n * 256 ^ n

-- `next_chunk->fwd` as it is read behind the writes of `new_free->size` and `new_free->is_free`.
unfoldable pub read_link : Ptr → ℕ → Ptr → Ptr → Ptr
unfolding clobbers link_bytes
read_link new_free size next fwd =
    if clobbers new_free next then link_bytes new_free size next fwd 8 else fwd

-- The next chunk is free and the two together hold `size` bytes.
grow : Ptr → Node → Node → ℕ → ℕ → Cmd (Unit {0})
unfolding read_link
grow current c next_chunk space size =
    if leb (node_size + 1) (sub_size space size)
    then (let rest_size = sub_size (sub_size space size) node_size in
        let fwd = read_link (current + node_size + size) rest_size c.fwd next_chunk.fwd in
        do
          store (current + node_size + size) (node rest_size true fwd current)
          modify current (λ n. record n { fwd = current + node_size + size })
          set_bwd fwd (current + node_size + size)
          modify current (λ n. record n { size = size }))
    else (do
      modify current (λ n. record n { size = space; fwd = next_chunk.fwd })
      set_bwd next_chunk.fwd current)

-- the copy section
move_chunk : Ptr → Ptr → ℕ → Cmd Ptr
unfolding walloc memcpy wfree
move_chunk ptr current size = do
  new_ptr ← walloc size
  if new_ptr == null then pure null else do
    c ← load current
    memcpy new_ptr ptr (if ltb c.size size then c.size else size)
    wfree ptr
    pure new_ptr

-- The space of a chunk together with the next.
abbrev free_forward_space : Node → Node → ℕ
free_forward_space c f = add_size (add_size c.size node_size) f.size

resize : Ptr → Ptr → ℕ → Cmd Ptr
unfolding grow move_chunk
resize ptr current size = do
  c ← load current
  if c.fwd == null then move_chunk ptr current size else do
    f ← load c.fwd
    if f.is_free && leb size (free_forward_space c f)
        then (do grow current c f (free_forward_space c f) size; pure ptr)
        else move_chunk ptr current size

unfoldable pub wrealloc : Ptr → ℕ → Cmd Ptr
unfolding walloc wfree resize
wrealloc ptr size =
    if ptr == null
    then walloc size
    else if size == 0
    then (do wfree ptr; walloc 0)
    else resize ptr (ptr - node_size) size
