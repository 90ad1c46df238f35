-- ===== src/Allocator/Blocks.antt =====
-- Allocator.cpp: a block is given to one client at a time, and a pool's blocks are never lost.
use async_http.Prelude.{
  ℕ, ◌%◌, ◌^◌, true, false, some, List, [], ◌∷◌, ◌≡◌, ◌≢◌, refl, sym, ◌∙◌, subst, ◌==◌, ==_refl,
  if◌then◌else◌, length, length-erase_first, contains, erase_first, arith,
}
use async_http.Prelude.Distinct.{IsDistinct, contains-erase_first, erase_first-IsDistinct}
use async_http.Allocator.{
  Allocator, Use, write, push, pop, account_alloc, new_block, allocate, deallocate,
}

-- The free list from a block on, as the links give it.
abbrev pub IsChain : (ℕ → ℕ) → ℕ → List ℕ → Type 0
IsChain link p [] = p ≡ 0
IsChain link p (x ∷ xs) = (p ≡ x) × (x ≢ 0) × IsChain link (link x) xs

-- A write to a block that is not free leaves the free list.
IsChain-write :
    (link : ℕ → ℕ) (q v : ℕ) (p : ℕ) (xs : List ℕ)
    → contains q xs ≡ false
    → IsChain link p xs
    → IsChain (λ j. if j == q then v else link j) p xs
IsChain-write link q v p [] out c = c
IsChain-write link q v p (x ∷ xs) out c =
    let off : (x == q) ≡ false = ground (arith, out) in
    let rest : contains q xs ≡ false = ground (arith, out) in
    (c.0, c.1, rw off (IsChain-write link q v (link x) xs rest c.2))

-- Clients hold some blocks, and the others are free; a pool has given out no more.
pub record IsValid (u : Use) (free : List ℕ) : Type 0 where
  pub chain : IsChain u.allocator.link u.allocator.head free
  pub free_once : IsDistinct free
  pub held_once : IsDistinct u.held
  pub apart : (p : ℕ) → contains p free ≡ true → contains p u.held ≡ false
  pub real : contains 0 u.held ≡ false
  pub counted : u.allocator.blocks_in_use ≡ length u.held % 2 ^ 32

held_real : (p : ℕ) (held : List ℕ) → contains p held ≡ true → contains 0 held ≡ false → p ≢ 0
held_real p held has out e = ground (arith, subst (λ q. contains q held ≡ true) e has, out)

pub write-IsValid :
    (p v : ℕ) (u : Use) (free : List ℕ)
    → contains p u.held ≡ true
    → IsValid u free
    → IsValid (record u { allocator = write p v u.allocator }) free
unfolding write
write-IsValid p v u free has w =
    let out : contains p free ≡ false = ground (arith, w.apart p, has) in
    record {
      chain = IsChain-write u.allocator.link p v u.allocator.head free out w.chain;
      free_once = w.free_once;
      held_once = w.held_once;
      apart = w.apart;
      real = w.real;
      counted = w.counted;
    }

pub deallocate-IsValid :
    (p : ℕ) (u : Use) (free : List ℕ)
    → contains p u.held ≡ true
    → IsValid u free
    → IsValid
        (record { allocator = deallocate p u.allocator; held = erase_first p u.held })
        (p ∷ free)
unfolding deallocate push write
deallocate-IsValid p u free has w =
    let out : contains p free ≡ false = ground (arith, w.apart p, has) in
    record {
      chain = (
        refl,
        held_real p u.held has w.real,
        rw (==_refl p)
            (IsChain-write u.allocator.link p u.allocator.head u.allocator.head free out w.chain),
      );
      free_once = (out, w.free_once);
      held_once = erase_first-IsDistinct p u.held w.held_once;
      apart = λ q h. ground (arith, contains-erase_first p q u.held w.held_once, w.apart q, h);
      real = ground (arith, contains-erase_first p 0 u.held w.held_once, w.real);
      counted = omega (arith, length-erase_first p u.held has, w.counted);
    }

-- A block is handed out: the first free one, or one that no one has.
pub allocate_free-IsValid :
    (fresh x : ℕ) (u : Use) (free : List ℕ)
    → IsValid u (x ∷ free)
    → (a : Allocator) × (allocate fresh u.allocator ≡ some (x, a))
      × IsValid (record { allocator = a; held = x ∷ u.held }) free
      × (a.pool_index ≡ u.allocator.pool_index)
      × (a.block_size ≡ u.allocator.block_size)
      × (a.max_objects ≡ u.allocator.max_objects)
      × (a.pool ≡ u.allocator.pool)
unfolding allocate pop account_alloc
allocate_free-IsValid fresh x u free w =
    let a = u.allocator in
    let own : contains x u.held ≡ false = w.apart x (ground arith) in
    (
      account_alloc false (record a { head = a.link a.head }),
      ground (arith, w.chain.0, w.chain.1),
      record {
        chain = subst (λ h. IsChain a.link (a.link h) free) (sym w.chain.0) w.chain.2;
        free_once = w.free_once.1;
        held_once = (own, w.held_once);
        apart = λ q h. ground (arith, w.apart q, w.free_once.0, h);
        real = ground (arith, w.real, w.chain.1);
        counted = ground (arith, w.counted);
      },
      refl,
      refl,
      refl,
      refl,
    )

new_block_keeps :
    (fresh p : ℕ) (a' a : Allocator)
    → new_block fresh a ≡ some (p, a')
    → (a'.head ≡ a.head) × (a'.blocks_in_use ≡ a.blocks_in_use)
unfolding new_block
new_block_keeps fresh p a' a e = ground (arith, e)

pub allocate_new-IsValid :
    (fresh p : ℕ) (a' : Allocator) (u : Use)
    → new_block fresh u.allocator ≡ some (p, a')
    → p ≢ 0
    → contains p u.held ≡ false
    → IsValid u []
    → (allocate fresh u.allocator ≡ some (p, account_alloc false a'))
      × IsValid (record { allocator = account_alloc false a'; held = p ∷ u.held }) []
unfolding allocate pop account_alloc
allocate_new-IsValid fresh p a' u e real out w =
    let same = new_block_keeps fresh p a' u.allocator e in
    (
      ground (arith, w.chain, e),
      record {
        chain = same.0 ∙ w.chain;
        free_once = tt;
        held_once = (out, w.held_once);
        apart = λ q h. ground (arith, h);
        real = ground (arith, w.real, real);
        counted = ground (arith, same.1, w.counted);
      },
    )
