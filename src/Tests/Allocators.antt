-- ===== src/Tests/Allocators.antt =====
-- Runs of an allocator on a pool of two blocks, and of the table of allocators.
use async_http.Prelude.{
  ℕ, ◌+◌, ◌*◌, ◌≤◌, ◌≡◌, refl, false, max, Option, none, some, List, [], ◌∷◌, contains, arith,
}
use async_http.Allocator.{
  Allocator, Event, allocated, deallocated, written, Use, allocate, account_alloc, run,
  new_allocator,
}
use async_http.Allocator.Pool.{new_use}
use async_http.Allocator.Supply.{allocate_supplies}

abbrev no_links : ℕ → ℕ
no_links p = 0

-- Both blocks are taken, written to, and the first one is given back.
abbrev events : List Event
events = allocated 0 ∷ allocated 0 ∷ written 1000 77 ∷ deallocated 1000 ∷ []

abbrev with_one : Use
with_one = run events (new_use 24 2 1000 no_links)

handed_out : Option (ℕ × Allocator) → List ℕ
handed_out none = []
handed_out (some r) = r.0 ∷ []

gives_first : handed_out (allocate 0 with_one.allocator) ≡ 1000 ∷ []
unfolding run handed_out new_allocator
gives_first = refl

-- A pool of two objects of four bytes: its second block ends eight bytes past them.
small_objects :
    (run (allocated 0 ∷ allocated 0 ∷ []) (new_use 4 2 1000 no_links)).held ≡ 1008 ∷ 1000 ∷ []
unfolding run new_allocator
small_objects = refl

-- One block is taken; the next is the second.
abbrev second : Allocator
second =
    account_alloc false
      (record (run (allocated 0 ∷ []) (new_use 24 2 1000 no_links)).allocator { pool_index = 2 })

allocate_supplies_example :
    (contains 1024 (run (allocated 0 ∷ []) (new_use 24 2 1000 no_links)).held ≡ false)
    × (1000 ≤ 1024)
    × (1024 + max 24 8 ≤ 1000 + 2 * max 24 8)
unfolding run new_allocator
allocate_supplies_example =
    allocate_supplies 24 2 1000 no_links (omega arith) (omega arith) (allocated 0 ∷ []) 0 1024
      second refl
