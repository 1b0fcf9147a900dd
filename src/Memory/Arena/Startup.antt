-- ===== src/Memory/Arena/Startup.antt =====
-- `init` and `destroy`.
use native.Mathlib.Nat.{div-mul-le_self, lt-div-mul-add, le-div_iff_mul-le, div-lt_iff_lt-mul}
use wpi_operating_systems.Base.{
  ℕ, ◌+◌, ◌-◌, ◌*◌, ◌/◌, ◌%◌, ◌^◌, ◌≤◌, ◌<◌, ◌≡◌, refl, ◌∙◌, true, some, [], ◌∷◌, arith, negsuc,
  to_int32,
}
use wpi_operating_systems.Memory.Heap.{node_size, write, Memory, ok, add_size, sub_size}
use wpi_operating_systems.Memory.Chain.{IsArena}
use wpi_operating_systems.Memory.Arena.{
  Sys, max_arena_size, adjusted_size, init_chunk, init_map, init,
}

module _ (page size : ℕ) (some_page : 0 < page) (page_small : page ≤ 2 ^ 31) (some_size : 0 < size)
    (size_small : size ≤ max_arena_size) where
  -- Rounding up to pages.
  adjusted_size_lem : adjusted_size page size ≡ (size + page - 1) / page * page
  unfolding adjusted_size
  adjusted_size_lem =
      let words : sub_size (add_size size page) 1 ≡ size + page - 1 = omega arith in
      rw words (omega (arith, div-mul-le_self (size + page - 1) page))

  adjusted_size_bounds : (size ≤ adjusted_size page size) × (adjusted_size page size < size + page)
  adjusted_size_bounds = rw adjusted_size_lem (
    omega (arith, lt-div-mul-add {a = size + page - 1} {b = page} some_page),
    omega (arith, div-mul-le_self (size + page - 1) page),
  )

  page_le : page ≤ adjusted_size page size
  page_le = rw adjusted_size_lem (
      let q : 1 ≤ (size + page - 1) / page = (le-div_iff_mul-le some_page).1 (omega arith) in
      grind arith)

-- What the system calls of a successful `init` return.
pub record Answers (sys : Sys) (start size : ℕ) : Type 0 where
  pub some_page : node_size < sys.page_size
  pub page_small : sys.page_size ≤ 2 ^ 30
  pub opened : sys.opens ≡ true
  pub mapped : sys.mapping ≡ some start
  pub start_pos : 0 < start
  pub addressable : start + adjusted_size sys.page_size size < 2 ^ 64

module _ (sys : Sys) (start size : ℕ) (m : Memory) (a : Answers sys start size)
    (some_size : 0 < size) (size_small : size ≤ max_arena_size) where
  open a use {some_page, page_small, opened, mapped, start_pos, addressable}

  abbrev pages : ℕ
  pages = adjusted_size sys.page_size size

  run : init sys size m ≡ ok (to_int32 (pages % 2 ^ 32)) (init_chunk sys start pages m)
  unfolding init init_map init_chunk
  run = ground (arith, opened, mapped)

  -- `init` of a size in range maps whole pages, fewer than a page more than was asked for, as one
  -- free chunk, and returns the low 32 bits of the size of the arena as an `int`.
  pub init-IsArena :
      (m' : Memory) × (init sys size m ≡ ok (to_int32 (m'.arena_size % 2 ^ 32)) m')
      × IsArena m' ((m'.arena_size - node_size, true) ∷ [])
      × (size ≤ m'.arena_size)
      × (m'.arena_size < size + sys.page_size)
      × (k : ℕ) × (m'.arena_size ≡ k * sys.page_size)
  unfolding init_chunk write
  init-IsArena =
      let bounds =
        adjusted_size_bounds sys.page_size size (omega arith) (omega arith) some_size size_small in
      let le = page_le sys.page_size size (omega arith) (omega arith) some_size size_small in
      (
        init_chunk sys start pages m,
        run,
        record {
          start_pos = start_pos;
          size_pos = omega arith;
          small = addressable;
          chain = (ground arith, omega arith);
        },
        bounds.0,
        bounds.1,
        (size + sys.page_size - 1) / sys.page_size,
        adjusted_size_lem sys.page_size size (omega arith) (omega arith) some_size size_small,
      )

  -- A request in the last page below 2 ^ 31 is granted, with an arena of 2 ^ 31 bytes, but the
  -- value returned is the least `int`, which reads as an error.
  init_negative :
      (pages_of_int : ℕ)
      → pages_of_int * sys.page_size ≡ 2 ^ 31
      → 2 ^ 31 < size + sys.page_size
      → init sys size m ≡ ok (negsuc 0x7fff_ffff) (init_chunk sys start (2 ^ 31) m)
  init_negative j whole last =
      let pos_page : 0 < sys.page_size = omega arith in
      let q_ge : j ≤ (size + sys.page_size - 1) / sys.page_size =
        (le-div_iff_mul-le pos_page).1 (omega arith) in
      let q_lt : (size + sys.page_size - 1) / sys.page_size < j + 1 =
        (div-lt_iff_lt-mul pos_page).1 (omega arith) in
      let q : (size + sys.page_size - 1) / sys.page_size ≡ j = omega arith in
      let all : pages ≡ 2 ^ 31 =
        adjusted_size_lem sys.page_size size (omega arith) (omega arith) some_size size_small
        ∙ rw q whole in
      run ∙ rw all refl
