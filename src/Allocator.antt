-- ===== src/Allocator.antt =====
-- DelegateMQ/extras/allocator/Allocator.cpp and Allocator.h: fixed-size blocks from a pool or the
-- heap, with a list of the free ones that runs through the blocks themselves. An address is a
-- number, 0 is null, and `link` is what the first word of a block holds. `new char[]` gives the
-- address `fresh`, and no new_handler is installed. The build has no DMQ_ALLOCATOR_SAFEGUARDS.
pub mod Blocks
pub mod Pool
pub mod Supply
pub mod Buckets
use async_http.Prelude.{
  ℕ, zero, suc, ◌+◌, ◌-◌, ◌*◌, ◌%◌, ◌^◌, Bool, true, false, Option, none, some, List, [], ◌∷◌, ltb,
  ◌==◌, if◌then◌else◌, contains, erase_first,
}

pub data AllocatorMode : Type 0 where
  heap_blocks heap_pool static_pool : AllocatorMode

pub record Allocator : Type 0 where
  pub block_size : ℕ
  pub object_size : ℕ
  pub max_objects : ℕ
  pub allocator_mode : AllocatorMode
  pub head : ℕ
  pub pool : ℕ
  pub pool_index : ℕ
  pub block_cnt : ℕ
  pub blocks_in_use : ℕ
  pub allocations : ℕ
  pub deallocations : ℕ
  pub link : ℕ → ℕ

-- sizeof(long*)
abbrev pub pointer_size : ℕ
pointer_size = 8

abbrev pub null : ℕ
null = 0

-- The constructor. `memory` is the caller's, or null; `fresh` is what `new char[]` gives for a pool.
unfoldable pub new_allocator : ℕ → ℕ → ℕ → ℕ → (ℕ → ℕ) → Allocator
new_allocator size objects memory fresh link = record {
  block_size = (if ltb size pointer_size then pointer_size else size);
  object_size = size;
  max_objects = objects;
  allocator_mode =
      (if objects == 0 then heap_blocks else if memory == null then heap_pool else static_pool);
  head = null;
  pool = (if objects == 0 then null else if memory == null then fresh else memory);
  pool_index = 0;
  block_cnt = 0;
  blocks_in_use = 0;
  allocations = 0;
  deallocations = 0;
  link = link;
}

-- `pBlock->pNext = v`, and any write of a client to the first word of a block.
unfoldable pub write : ℕ → ℕ → Allocator → Allocator
write p v a = record a { link = λ q. if q == p then v else a.link q }

unfoldable pub push : ℕ → Allocator → Allocator
unfolding write
push p a = record (write p a.head a) { head = p }

-- The block, or null.
unfoldable pub pop : Allocator → ℕ × Allocator
pop a = if a.head == null then (null, a) else (a.head, record a { head = a.link a.head })

abbrev next32 : ℕ → ℕ
next32 n = (n + 1) % 2 ^ 32

unfoldable pub account_alloc : Bool → Allocator → Allocator
account_alloc new_block a = record a {
  block_cnt = (if new_block then next32 a.block_cnt else a.block_cnt);
  blocks_in_use = next32 a.blocks_in_use;
  allocations = next32 a.allocations;
}

-- A new block: of the pool, or of the heap; none if the pool is used up.
unfoldable pub new_block : ℕ → Allocator → Option (ℕ × Allocator)
new_block fresh a =
    if a.max_objects == 0
    then some (fresh, record a { block_cnt = next32 a.block_cnt })
    else if ltb a.pool_index a.max_objects
    then some (a.pool + a.pool_index * a.block_size, record a { pool_index = a.pool_index + 1 })
    else none

-- Allocate; `none` is BAD_ALLOC.
unfoldable pub allocate : ℕ → Allocator → Option (ℕ × Allocator)
unfolding pop new_block account_alloc
allocate fresh a =
    let r = pop a in
    if r.0 == null
    then elim (new_block fresh a) [ none ↦ none | some b ↦ some (b.0, account_alloc false b.1) ]
    else some (r.0, account_alloc false r.1)

unfoldable pub deallocate : ℕ → Allocator → Allocator
unfolding push
deallocate p a =
    let b = push p a in
    record b {
      blocks_in_use = (b.blocks_in_use + 2 ^ 32 - 1) % 2 ^ 32;
      deallocations = next32 b.deallocations;
    }

-- An allocator with the blocks that its clients hold, and what they do: a client gives back only a
-- block that it holds, and writes only to such a block. `refused` is a BAD_ALLOC.
pub record Use : Type 0 where
  pub allocator : Allocator
  pub held : List ℕ

pub data Event : Type 0 where
  allocated deallocated : ℕ → Event
  written : ℕ → ℕ → Event

unfoldable pub step : Event → Use → Use
unfolding allocate deallocate write
step (allocated fresh) u = elim (allocate fresh u.allocator) [
  | none ↦ u
  | some r ↦ record { allocator = r.1; held = r.0 ∷ u.held }
]
step (deallocated p) u =
    if contains p u.held
    then record { allocator = deallocate p u.allocator; held = erase_first p u.held }
    else u
step (written p v) u =
    if contains p u.held then record u { allocator = write p v u.allocator } else u

unfoldable pub run : List Event → Use → Use
unfolding step
run [] u = u
run (e ∷ es) u = run es (step e u)
