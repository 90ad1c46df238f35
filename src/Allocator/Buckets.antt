-- ===== src/Allocator/Buckets.antt =====
-- DelegateMQ/extras/allocator/xallocator.cpp without STATIC_POOLS and without safeguards, on a 64-bit
-- host: which allocator serves a request. An allocator of the table is known by its block size;
-- `max_allocators` is MAX_ALLOCATORS. Calls are one after another.
use Prim.Native.Nat.{bit_or}
use async_http.Prelude.Checks.{holds_below, holds_at}
use async_http.Prelude.{
  ℕ, zero, suc, ◌+◌, ◌-◌, ◌*◌, ◌/◌, ◌%◌, ◌^◌, ◌≤◌, ◌<◌, Bool, true, false, ◌&&◌, Option, none, some,
  List, [], ◌∷◌, ◌++◌, ◌≡◌, inl, inr, refl, sym, ap, subst, ltb, leb, ◌==◌, Option-cases,
  if◌then◌else◌, length, contains, arith,
}
use async_http.Prelude.Distinct.{IsDistinct}

-- BLOCK_HEADER_SIZE
abbrev pub block_header_size : ℕ
block_header_size = 16

-- `k |= (k >> i)`
abbrev smear : ℕ → ℕ → ℕ
smear i k = bit_or k (k / 2 ^ i)

-- nexthigher<size_t>
unfoldable pub nexthigher : ℕ → ℕ
nexthigher k =
    let low = (k + 2 ^ 64 - 1) % 2 ^ 64 in
    (smear 32 (smear 16 (smear 8 (smear 4 (smear 2 (smear 1 low))))) + 1) % 2 ^ 64

unfoldable pub bucket_size : ℕ → ℕ
unfolding nexthigher
bucket_size size = nexthigher ((size + block_header_size) % 2 ^ 64)

-- The allocator's place in `_allocators`.
unfoldable pub find_allocator : ℕ → List ℕ → Option ℕ
find_allocator size [] = none
find_allocator size (x ∷ table) =
    if x == size
    then some 0
    else elim (find_allocator size table) [ none ↦ none | some i ↦ some (i + 1) ]

unfoldable pub insert_allocator : ℕ → ℕ → List ℕ → Option (List ℕ)
insert_allocator max_allocators size table =
    if ltb (length table) max_allocators then some (table ++ (size ∷ [])) else none

-- xallocator_get_allocator: the place of the allocator, and the table; `none` is the failed assertion.
unfoldable pub get_allocator : ℕ → ℕ → List ℕ → Option (ℕ × List ℕ)
unfolding find_allocator insert_allocator bucket_size
get_allocator max_allocators size table = elim (find_allocator (bucket_size size) table) [
  | some i ↦ some (i, table)
  | none ↦ elim (insert_allocator max_allocators (bucket_size size) table) [
    | none ↦ none
    | some table' ↦ some (length table, table')
  ]
]

fits : ℕ → Bool
unfolding bucket_size
fits size =
    leb (size + block_header_size) (bucket_size size)
    && ltb (bucket_size size) (2 * (size + block_header_size))

fits_table : holds_below fits 4097 ≡ true
unfolding holds_below fits
fits_table = refl

bucket_fits :
    (size : ℕ) → size ≤ 4096 → (size + 16 ≤ bucket_size size) × (bucket_size size < 2 * (size + 16))
unfolding fits
bucket_fits size h =
    let t : fits size ≡ true = holds_at fits 4097 size fits_table (omega arith) in ground (arith, t)

-- The block size at a place.
abbrev pub size_at : ℕ → List ℕ → ℕ
size_at i [] = 0
size_at zero (x ∷ table) = x
size_at (suc i) (x ∷ table) = size_at i table

find_allocator-size_at :
    (size i : ℕ) (table : List ℕ)
    → find_allocator size table ≡ some i
    → (size_at i table ≡ size) × (i < length table)
unfolding find_allocator
find_allocator-size_at size i [] e = cc
find_allocator-size_at size zero (x ∷ table) e = ground (arith, e)
find_allocator-size_at size (suc i) (x ∷ table) e =
    ground (arith, e, find_allocator-size_at size i table)

find_allocator-none :
    (size : ℕ) (table : List ℕ) → find_allocator size table ≡ none → contains size table ≡ false
unfolding find_allocator
find_allocator-none size [] e = refl
find_allocator-none size (x ∷ table) e = ground (arith, e, find_allocator-none size table)

size_at-append :
    (i x : ℕ) (table : List ℕ) → i < length table → size_at i (table ++ (x ∷ [])) ≡ size_at i table
size_at-append i x [] h = absurd (omega arith)
size_at-append zero x (y ∷ table) h = refl
size_at-append (suc i) x (y ∷ table) h = size_at-append i x table (omega arith)

size_at_last : (x : ℕ) (table : List ℕ) → size_at (length table) (table ++ (x ∷ [])) ≡ x
size_at_last x [] = refl
size_at_last x (y ∷ table) = size_at_last x table

contains-append :
    (i x : ℕ) (table : List ℕ)
    → contains i table ≡ false
    → (x == i) ≡ false
    → contains i (table ++ (x ∷ [])) ≡ false
contains-append i x [] h e = ground (arith, e)
contains-append i x (y ∷ table) h e = ground (arith, h, e, contains-append i x table)

append-IsDistinct :
    (x : ℕ) (table : List ℕ)
    → contains x table ≡ false
    → IsDistinct table
    → IsDistinct (table ++ (x ∷ []))
append-IsDistinct x [] h d = (refl, tt)
append-IsDistinct x (y ∷ table) h d = (
  contains-append y x table d.0 (ground (arith, h)),
  append-IsDistinct x table (ground (arith, h)) d.1,
)

-- The block at a place takes a request with its header and wastes less than its half, no two blocks of
-- the table have one size, and the places that were taken before keep theirs.
abbrev pub Serves : ℕ → List ℕ → ℕ → List ℕ → Type 0
Serves size table i table' =
    (size + 16 ≤ size_at i table')
    × (size_at i table' < 2 * (size + 16))
    × IsDistinct table'
    × ((j : ℕ) → j < length table → size_at j table' ≡ size_at j table)

get_allocator_old :
    (max_allocators size i k : ℕ) (table table' : List ℕ)
    → find_allocator (bucket_size size) table ≡ some k
    → get_allocator max_allocators size table ≡ some (i, table')
    → (i ≡ k) × (table' ≡ table)
unfolding get_allocator
get_allocator_old max_allocators size i k table table' f e = ground (arith, f, e)

get_allocator_new :
    (max_allocators size i : ℕ) (table table' : List ℕ)
    → find_allocator (bucket_size size) table ≡ none
    → get_allocator max_allocators size table ≡ some (i, table')
    → (i ≡ length table) × (table' ≡ table ++ (bucket_size size ∷ []))
unfolding get_allocator insert_allocator
get_allocator_new max_allocators size i table table' f e = ground (arith, f, e)

new_bucket-Serves :
    (size : ℕ) (table : List ℕ)
    → size ≤ 4096
    → IsDistinct table
    → find_allocator (bucket_size size) table ≡ none
    → Serves size table (length table) (table ++ (bucket_size size ∷ []))
new_bucket-Serves size table small d f =
    let b = bucket_size size in
    let fit = bucket_fits size small in
    (
      omega (arith, fit, size_at_last b table),
      omega (arith, fit, size_at_last b table),
      append-IsDistinct b table (find_allocator-none b table f) d,
      λ j h. size_at-append j b table h,
    )

-- A request of at most 4096 bytes is served by an allocator whose blocks hold it with its header and
-- are less than twice as long, in a table where no two allocators have one block size.
pub get_allocator-Serves :
    (max_allocators size i : ℕ) (table table' : List ℕ)
    → size ≤ 4096
    → IsDistinct table
    → get_allocator max_allocators size table ≡ some (i, table')
    → Serves size table i table'
get_allocator-Serves max_allocators size i table table' small d e =
    elim (Option-cases (find_allocator (bucket_size size) table)) [
      | inl none_yet ↦
          let new = get_allocator_new max_allocators size i table table' none_yet e in
          subst (λ t. Serves size table i t) (sym new.1)
            (subst (λ k. Serves size table k (table ++ (bucket_size size ∷ []))) (sym new.0)
              (new_bucket-Serves size table small d none_yet))
      | inr k ↦
          let old = get_allocator_old max_allocators size i k.0 table table' k.1 e in
          let found = find_allocator-size_at (bucket_size size) k.0 table k.1 in
          let fit = bucket_fits size small in
          subst (λ t. Serves size table i t) (sym old.1)
            (
              omega (arith, fit, found.0, ap (λ n. size_at n table) old.0),
              omega (arith, fit, found.0, ap (λ n. size_at n table) old.0),
              d,
              λ j h. refl,
            )
    ]
