-- ===== src/Allocator/Pool.antt =====
-- Allocator.cpp: an allocator on a pool of a fixed number of blocks.
use async_http.Prelude.{
  ℕ, ◌+◌, ◌*◌, ◌≤◌, ◌<◌, true, false, ◌||◌, some, List, [], ◌∷◌, ◌≡◌, inl, inr, ltb→lt, refl, sym,
  subst, ltb, Bool-cases, length, length-erase_first, contains, erase_first, arith,
}
use async_http.Prelude.Distinct.{contains-erase_first}
use async_http.Allocator.{
  Use, Event, allocated, deallocated, written, write, push, pop, account_alloc, new_allocator,
  new_block, allocate, deallocate, step, run,
}
use async_http.Allocator.Blocks.{
  IsValid, write-IsValid, deallocate-IsValid, allocate_free-IsValid, allocate_new-IsValid,
}

-- A pool: its blocks lie one after another, and all that were begun are free or held.
pub record IsPool (u : Use) (free : List ℕ) : Type 0 where
  pub sized : 0 < u.allocator.block_size
  pub placed : 0 < u.allocator.pool
  pub bounded : 0 < u.allocator.max_objects
  pub capacity : u.allocator.pool_index ≤ u.allocator.max_objects
  pub whole : length free + length u.held ≡ u.allocator.pool_index
  pub within :
      (p : ℕ)
      → (contains p free || contains p u.held) ≡ true
      → (u.allocator.pool ≤ p)
        × (p + u.allocator.block_size
            ≤ u.allocator.pool + u.allocator.pool_index * u.allocator.block_size)

-- A valid pool has some free list.
abbrev pub IsSoundPool : Use → Type 0
IsSoundPool u = (free : List ℕ) × IsValid u free × IsPool u free

pub next_place : (idx size : ℕ) → (idx + 1) * size ≡ idx * size + size
next_place idx size = grind arith

-- A block that goes from the one list to the other.
moved :
    (x q : ℕ) (free held : List ℕ)
    → (contains q free || contains q (x ∷ held)) ≡ true
    → (contains q (x ∷ free) || contains q held) ≡ true
moved x q free held h = ground (arith, h)

module _ (u : Use) where
  allocated_free-IsPool :
      (fresh x : ℕ) (free : List ℕ)
      → IsValid u (x ∷ free)
      → IsPool u (x ∷ free)
      → IsSoundPool (step (allocated fresh) u)
  unfolding step
  allocated_free-IsPool fresh x free w p =
      let r = allocate_free-IsValid fresh x u free w in
      let u' : Use = record { allocator = r.0; held = x ∷ u.held } in
      let e : step (allocated fresh) u ≡ u' = ground (arith, r.1) in
      subst IsSoundPool (sym e) (
        free,
        r.2,
        record {
          sized = omega (arith, r.4, p.sized);
          placed = omega (arith, r.6, p.placed);
          bounded = omega (arith, r.5, p.bounded);
          capacity = omega (arith, r.3, r.5, p.capacity);
          whole = omega (arith, p.whole, r.3);
          within = λ q h. ground (arith, p.within q (moved x q free u.held h), r.3, r.4, r.6);
        },
      )

  new_place :
      IsPool u []
      → u.allocator.pool_index < u.allocator.max_objects
      → let a = u.allocator in
        IsPool
          (record {
            allocator = account_alloc false (record a { pool_index = a.pool_index + 1 });
            held = (a.pool + a.pool_index * a.block_size) ∷ u.held;
          })
          []
  unfolding account_alloc
  new_place p room =
      let a = u.allocator in
      let next = next_place a.pool_index a.block_size in
      record {
        sized = p.sized;
        placed = p.placed;
        bounded = p.bounded;
        capacity = omega (arith, room);
        whole = omega (arith, p.whole);
        within = λ q h. elim (Bool-cases (contains q u.held)) [
          | inl before ↦ let old = p.within q before in (old.0, omega (arith, old.1, next))
          | inr begun ↦
              let here : a.pool + a.pool_index * a.block_size ≡ q = ground (arith, h, begun) in
              (omega (arith, here), omega (arith, here, next))
        ];
      }

  allocated_new-IsPool :
      (fresh : ℕ)
      → IsValid u []
      → IsPool u []
      → u.allocator.pool_index < u.allocator.max_objects
      → IsSoundPool (step (allocated fresh) u)
  unfolding step new_block
  allocated_new-IsPool fresh w p room =
      let a = u.allocator in
      let block : ℕ = a.pool + a.pool_index * a.block_size in
      let out : contains block u.held ≡ false = elim (Bool-cases (contains block u.held)) [
        | inl there ↦ absurd (omega (arith, (p.within block there).1, p.sized))
        | inr not_there ↦ not_there
      ] in
      let taken : new_block fresh a ≡ some (block, record a { pool_index = a.pool_index + 1 }) =
        ground (arith, p.bounded, room) in
      let r =
        allocate_new-IsValid fresh block (record a { pool_index = a.pool_index + 1 }) u taken
          (omega (arith, p.placed)) out w in
      let u' : Use = record {
        allocator = account_alloc false (record a { pool_index = a.pool_index + 1 });
        held = block ∷ u.held;
      } in
      let e : step (allocated fresh) u ≡ u' = ground (arith, r.0) in
      subst IsSoundPool (sym e) ([], r.1, new_place p room)

  allocated_none-IsPool :
      (fresh : ℕ)
      → IsValid u []
      → IsPool u []
      → u.allocator.max_objects ≤ u.allocator.pool_index
      → step (allocated fresh) u ≡ u
  unfolding step allocate pop new_block
  allocated_none-IsPool fresh w p full = ground (arith, w.chain, p.bounded, full)

  deallocated-IsPool :
      (q : ℕ) (free : List ℕ)
      → contains q u.held ≡ true
      → IsValid u free
      → IsPool u free
      → IsPool
          (record { allocator = deallocate q u.allocator; held = erase_first q u.held })
          (q ∷ free)
  unfolding deallocate push write
  deallocated-IsPool q free has w p = record {
    sized = p.sized;
    placed = p.placed;
    bounded = p.bounded;
    capacity = p.capacity;
    whole = omega (arith, p.whole, length-erase_first q u.held has);
    within =
        λ j h. p.within j (ground (arith, h, contains-erase_first q j u.held w.held_once, has));
  }

written-IsPool :
    (q v : ℕ) (u : Use) (free : List ℕ)
    → IsPool u free
    → IsPool (record u { allocator = write q v u.allocator }) free
unfolding write
written-IsPool q v u free p = record {
  sized = p.sized;
  placed = p.placed;
  bounded = p.bounded;
  capacity = p.capacity;
  whole = p.whole;
  within = p.within;
}

deallocated-IsSoundPool : (q : ℕ) (u : Use) → IsSoundPool u → IsSoundPool (step (deallocated q) u)
unfolding step
deallocated-IsSoundPool q u (free, w, p) = elim (Bool-cases (contains q u.held)) [
  | inl has ↦
      rw (step, has)
        (q ∷ free, deallocate-IsValid q u free has w, deallocated-IsPool u q free has w p)
  | inr not ↦ rw (step, not) (free, w, p)
]

written-IsSoundPool : (q v : ℕ) (u : Use) → IsSoundPool u → IsSoundPool (step (written q v) u)
unfolding step
written-IsSoundPool q v u (free, w, p) = elim (Bool-cases (contains q u.held)) [
  | inl has ↦ rw (step, has) (free, write-IsValid q v u free has w, written-IsPool q v u free p)
  | inr not ↦ rw (step, not) (free, w, p)
]

pub step-IsSoundPool : (e : Event) (u : Use) → IsSoundPool u → IsSoundPool (step e u)
step-IsSoundPool (allocated fresh) u ([], w, p) =
    elim (Bool-cases (ltb u.allocator.pool_index u.allocator.max_objects)) [
      | inl room ↦ allocated_new-IsPool u fresh w p (ltb→lt _ _ room)
      | inr full ↦
          subst IsSoundPool (sym (allocated_none-IsPool u fresh w p (ground (arith, full))))
            ([], w, p)
    ]
step-IsSoundPool (allocated fresh) u (x ∷ free, w, p) = allocated_free-IsPool u fresh x free w p
step-IsSoundPool (deallocated q) u v = deallocated-IsSoundPool q u v
step-IsSoundPool (written q x) u v = written-IsSoundPool q x u v

pub run-IsSoundPool : (es : List Event) (u : Use) → IsSoundPool u → IsSoundPool (run es u)
unfolding run
run-IsSoundPool [] u v = v
run-IsSoundPool (e ∷ es) u v = run-IsSoundPool es (step e u) (step-IsSoundPool e u v)

-- An allocator of `objects` blocks on the caller's memory, before its first use.
abbrev pub new_use : ℕ → ℕ → ℕ → (ℕ → ℕ) → Use
new_use size objects memory link = record {
  allocator = new_allocator size objects memory 0 link;
  held = [];
}

pub new_use-IsSoundPool :
    (size objects memory : ℕ) (link : ℕ → ℕ)
    → 0 < objects
    → 0 < memory
    → IsSoundPool (new_use size objects memory link)
unfolding new_allocator
new_use-IsSoundPool size objects memory link some_objects some_memory = (
  [],
  record {
    chain = refl;
    free_once = tt;
    held_once = tt;
    apart = λ p h. refl;
    real = refl;
    counted = refl;
  },
  record {
    sized = ground arith;
    placed = ground (arith, some_objects, some_memory);
    bounded = some_objects;
    capacity = omega arith;
    whole = refl;
    within = λ p h. absurd (let f : ⊥ = cc in f);
  },
)
