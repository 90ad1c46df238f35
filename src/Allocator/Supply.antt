-- ===== src/Allocator/Supply.antt =====
-- Allocator.cpp: which blocks a pool hands out, and when it has none left.
use async_http.Prelude.{
  ℕ, ◌+◌, ◌*◌, ◌%◌, ◌^◌, ◌≤◌, ◌<◌, true, false, ◌||◌, none, some, List, [], ◌∷◌, ◌≡◌, ◌↔◌, max,
  refl, sym, ap, ◌∙◌, subst, ==_refl, length, contains, arith,
}
use async_http.Allocator.{
  Allocator, Use, Event, allocated, deallocated, written, write, push, pop, account_alloc,
  new_allocator, new_block, allocate, deallocate, step, run,
}
use async_http.Allocator.Pool.{
  IsSoundPool, step-IsSoundPool, run-IsSoundPool, new_use, new_use-IsSoundPool,
}

-- What never changes of an allocator.
abbrev SameShape : Allocator → Allocator → Type 0
SameShape a b = (a.block_size ≡ b.block_size) × (a.max_objects ≡ b.max_objects) × (a.pool ≡ b.pool)

allocate-SameShape :
    (fresh p : ℕ) (a b : Allocator) → allocate fresh a ≡ some (p, b) → SameShape a b
unfolding allocate pop new_block account_alloc
allocate-SameShape fresh p a b e = ground (arith, e)

allocated-SameShape :
    (fresh : ℕ) (u : Use) → SameShape u.allocator (step (allocated fresh) u).allocator
unfolding step allocate pop new_block account_alloc
allocated-SameShape fresh u = ground arith

step-SameShape : (e : Event) (u : Use) → SameShape u.allocator (step e u).allocator
unfolding step deallocate push write
step-SameShape (allocated fresh) u = allocated-SameShape fresh u
step-SameShape (deallocated p) u = ground arith
step-SameShape (written p v) u = ground arith

run-SameShape : (es : List Event) (u : Use) → SameShape u.allocator (run es u).allocator
unfolding run
run-SameShape [] u = (refl, refl, refl)
run-SameShape (e ∷ es) u =
    let s = step-SameShape e u in
    let r = run-SameShape es (step e u) in (s.0 ∙ r.0, s.1 ∙ r.1, s.2 ∙ r.2)

times_mono : (m n size : ℕ) → m ≤ n → m * size ≤ n * size
times_mono m n size h = grind arith

step-allocated :
    (fresh p : ℕ) (u : Use) (a : Allocator)
    → allocate fresh u.allocator ≡ some (p, a)
    → step (allocated fresh) u ≡ record { allocator = a; held = p ∷ u.held }
unfolding step
step-allocated fresh p u a e = rw (step, e) refl

held_head : (p : ℕ) (free held : List ℕ) → (contains p free || contains p (p ∷ held)) ≡ true
held_head p free held = ground (arith, ==_refl p)

allocate_held :
    (fresh p : ℕ) (u : Use) (a : Allocator)
    → IsSoundPool u
    → allocate fresh u.allocator ≡ some (p, a)
    → (contains p u.held ≡ false)
      × (u.allocator.pool ≤ p)
      × (p + u.allocator.block_size
          ≤ u.allocator.pool + u.allocator.max_objects * u.allocator.block_size)
allocate_held fresh p u a v e =
    let u' : Use = record { allocator = a; held = p ∷ u.held } in
    let s : IsSoundPool u' =
      subst IsSoundPool (step-allocated fresh p u a e) (step-IsSoundPool (allocated fresh) u v) in
    let shape = allocate-SameShape fresh p u.allocator a e in
    let place = s.2.within p (held_head p s.0 u.held) in
    (
      s.1.held_once.0,
      omega (arith, place.0, shape.2),
      omega (
        arith,
        place.1,
        shape.0,
        shape.1,
        shape.2,
        times_mono a.pool_index u.allocator.max_objects a.block_size
            (omega (arith, s.2.capacity, shape.1)),
        ap (λ size. u.allocator.max_objects * size) shape.0,
      ),
    )

allocate-none :
    (fresh : ℕ) (u : Use)
    → IsSoundPool u
    → (allocate fresh u.allocator ≡ none) ↔ (length u.held ≡ u.allocator.max_objects)
unfolding allocate pop new_block
allocate-none fresh u ([], w, p) = (
  λ e. ground (arith, e, w.chain, p.whole, p.capacity, p.bounded),
  λ e. ground (arith, e, w.chain, p.whole, p.capacity, p.bounded),
)
allocate-none fresh u (x ∷ free, w, p) = (
  λ e. ground (arith, e, w.chain.0, w.chain.1),
  λ e. absurd (omega (arith, e, p.whole, p.capacity)),
)

module _ (size objects memory : ℕ) (link : ℕ → ℕ) (some_objects : 0 < objects)
    (some_memory : 0 < memory) (es : List Event) where
  abbrev pub used : Use
  used = run es (new_use size objects memory link)

  used-IsSoundPool : IsSoundPool used
  used-IsSoundPool =
      run-IsSoundPool es (new_use size objects memory link)
        (new_use-IsSoundPool size objects memory link some_objects some_memory)

  used_shape :
      (used.allocator.block_size ≡ max size 8)
      × (used.allocator.max_objects ≡ objects)
      × (used.allocator.pool ≡ memory)
  unfolding new_allocator
  used_shape =
      ground (arith, run-SameShape es (new_use size objects memory link), some_objects, some_memory)

  -- Whatever the clients of a pool do, a block that it hands out is held by none of them and lies
  -- inside the memory of the pool, which has room for that many blocks of the block size. Clients
  -- give back and write only to blocks that they hold.
  pub allocate_supplies :
      (fresh p : ℕ) (a : Allocator)
      → allocate fresh used.allocator ≡ some (p, a)
      → (contains p used.held ≡ false)
        × (memory ≤ p)
        × (p + max size 8 ≤ memory + objects * max size 8)
  allocate_supplies fresh p a e =
      let r = allocate_held fresh p used a used-IsSoundPool e in
      let shape = used_shape in
      (
        r.0,
        omega (arith, r.1, shape.2),
        omega (
          arith,
          r.2,
          shape.0,
          shape.2,
          ap (λ n. n * used.allocator.block_size) shape.1,
          ap (λ n. objects * n) shape.0,
        ),
      )

  -- Whatever the clients of a pool do, an allocation fails exactly if they hold as many blocks as
  -- the pool has, so that no block is lost; and the number of blocks in use is the number that they
  -- hold, as a uint32_t. Clients give back and write only to blocks that they hold.
  allocate_exhausted :
      (fresh : ℕ)
      → ((allocate fresh used.allocator ≡ none) ↔ (length used.held ≡ objects))
        × (used.allocator.blocks_in_use ≡ length used.held % 2 ^ 32)
  allocate_exhausted fresh =
      let r = allocate-none fresh used used-IsSoundPool in
      let shape = used_shape in
      ((λ e. r.0 e ∙ shape.1, λ e. r.1 (e ∙ sym shape.1)), used-IsSoundPool.1.counted)
