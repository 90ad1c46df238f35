-- ===== src/Wire/Port.antt =====
-- A byte stream of the system, a connected socket or a serial port, as the transports use it: a
-- parameter, with what the code relies on. `coming` is what arrives before a read times out or meets
-- the end, `sent` is what has been written. ReadExact of LinuxTcpTransport.h and SerialTransport.h
-- stands on it.
use async_http.Prelude.{
  ℕ, zero, suc, ◌-◌, ◌≤◌, ◌<◌, Bool, true, Option, none, some, List, [], ◌∷◌, ◌++◌, ◌≡◌, refl, ◌==◌,
  Bool-cases, ==_iff, inl, inr, if◌then◌else◌, length, length-append, ap, sym, ◌∙◌, subst, arith,
}
use async_http.Http.{Bytes}

pub record Port (S : Type 0) : Type 0 where
  pub read : ℕ → S → Bytes × S  -- no bytes if the call's result is not positive
  pub write : Bytes → S → Bool × S  -- whether all of the bytes were written
  pub coming : S → Bytes
  pub sent : S → Bytes
  -- A read of n bytes gives the next ones, at least one and at most n, if any is coming.
  pub reads_some : (n : ℕ) (s : S) → 0 < n → 0 < length (coming s) → 0 < length (read n s).0
  pub reads_most : (n : ℕ) (s : S) → length (read n s).0 ≤ n
  pub reads_next :
      (n : ℕ) (s : S)
      → 0 < n
      → 0 < length (coming s)
      → (read n s).0 ++ coming (read n s).1 ≡ coming s
  pub reads_none : (n : ℕ) (s : S) → length (coming s) ≡ 0 → (read n s).0 ≡ []
  -- A write leaves alone what is coming.
  pub writes_coming : (b : Bytes) (s : S) → coming (write b s).1 ≡ coming s
  pub writes_sent : (b : Bytes) (s : S) → (write b s).0 ≡ true → sent (write b s).1 ≡ sent s ++ b

abbrev after : Bytes → Option Bytes → Option Bytes
after b none = none
after b (some bs) = some (b ++ bs)

module _ {S : Type 0} (port : Port S) where
  -- The loop of ReadExact with what is left to read. A turn reads a byte at least, so `n` turns are
  -- enough.
  unfoldable pub read_loop : ℕ → ℕ → S → Option Bytes × S
  read_loop turns zero s = (some [], s)
  read_loop zero (suc n) s = (none, s)
  read_loop (suc turns) (suc n) s =
      let r = port.read (suc n) s in
      let rest = read_loop turns (suc n - length r.0) r.1 in
      if length r.0 == 0 then (none, r.1) else (after r.0 rest.0, rest.1)

  unfoldable pub read_exact : ℕ → S → Option Bytes × S
  unfolding read_loop
  read_exact n s = read_loop n n s

-- Two ways to split a stream, the first no later than the second.
append_split {ℓ} :
    {A : Type ℓ} (xs ys bs rest : List A)
    → xs ++ ys ≡ bs ++ rest
    → length xs ≤ length bs
    → (zs : List A) × (bs ≡ xs ++ zs) × (ys ≡ zs ++ rest)
append_split [] ys bs rest e l = (bs, refl, e)
append_split (x ∷ xs) ys [] rest e l = absurd (omega arith)
append_split (x ∷ xs) ys (b ∷ bs) rest e l =
    let r = append_split xs ys bs rest (let t : xs ++ ys ≡ bs ++ rest = cc in t) (omega arith) in
    (r.0, cc, r.2)

one_of :
    (xs ys : Bytes) (b : ℕ) (rest : Bytes)
    → xs ++ ys ≡ b ∷ rest
    → length xs ≤ 1
    → 0 < length xs
    → (xs ≡ b ∷ []) × (ys ≡ rest)
one_of [] ys b rest e l k = absurd (omega arith)
one_of (x ∷ []) ys b rest e l k = (cc, cc)
one_of (x ∷ y ∷ xs) ys b rest e l k = absurd (omega arith)

module _ {S : Type 0} (port : Port S) where
  read_loop_lem :
      (turns : ℕ) (s : S) (bs rest : Bytes)
      → length bs ≤ turns
      → port.coming s ≡ bs ++ rest
      → ((read_loop port turns (length bs) s).0 ≡ some bs)
        × (port.coming (read_loop port turns (length bs) s).1 ≡ rest)
  unfolding read_loop
  read_loop_lem turns s [] rest l e = (refl, e)
  read_loop_lem zero s (b ∷ bs) rest l e = absurd (omega arith)
  read_loop_lem (suc turns) s (b ∷ bs) rest l e =
      let r = port.read (length (b ∷ bs)) s in
      let some_come : 0 < length (port.coming s) =
        subst (λ x. 0 < length x) (sym e) (omega arith) in
      let some_read : 0 < length r.0 = port.reads_some _ s (omega arith) some_come in
      let split =
        append_split r.0 (port.coming r.1) (b ∷ bs) rest
          (port.reads_next _ s (omega arith) some_come ∙ e) (port.reads_most _ s) in
      let left : length (b ∷ bs) - length r.0 ≡ length split.0 =
        omega (arith, ap length split.1, length-append r.0 split.0) in
      let ih =
        read_loop_lem turns r.1 split.0 rest
          (omega (arith, ap length split.1, length-append r.0 split.0)) split.2 in
      ground (arith, left, ih.0, ih.1, split.1)

  read_loop_short :
      (turns n : ℕ) (s : S) → length (port.coming s) < n → (read_loop port turns n s).0 ≡ none
  unfolding read_loop
  read_loop_short turns zero s l = absurd (omega arith)
  read_loop_short zero (suc n) s l = refl
  read_loop_short (suc turns) (suc n) s l =
      let r = port.read (suc n) s in
      elim (Bool-cases (length (port.coming s) == 0)) [
        | inl over ↦
            ground (arith, port.reads_none (suc n) s ((==_iff (length (port.coming s)) 0).0 over))
        | inr more ↦
            let come : 0 < length (port.coming s) = ground arith in
            let sum =
              sym (length-append r.0 (port.coming r.1))
              ∙ ap length (port.reads_next (suc n) s (omega arith) come) in
            ground (
              arith,
              port.reads_some (suc n) s (omega arith) come,
              port.reads_most (suc n) s,
              sum,
              read_loop_short turns (suc n - length r.0) r.1
                  (omega (arith, sum, port.reads_some (suc n) s (omega arith) come)),
            )
      ]

  pub read_exact_next :
      (s : S) (bs rest : Bytes) (n : ℕ)
      → port.coming s ≡ bs ++ rest
      → length bs ≡ n
      → ((read_exact port n s).0 ≡ some bs) × (port.coming (read_exact port n s).1 ≡ rest)
  unfolding read_exact
  read_exact_next s bs rest n e l =
      subst
        (λ k. ((read_loop port k k s).0 ≡ some bs) × (port.coming (read_loop port k k s).1 ≡ rest))
        l (read_loop_lem (length bs) s bs rest (omega arith) e)

  pub read_exact_short :
      (n : ℕ) (s : S) → length (port.coming s) < n → (read_exact port n s).0 ≡ none
  unfolding read_exact
  read_exact_short n s = read_loop_short n n s

  pub read_one :
      (s : S) (b : ℕ) (rest : Bytes)
      → port.coming s ≡ b ∷ rest
      → ((port.read 1 s).0 ≡ b ∷ []) × (port.coming (port.read 1 s).1 ≡ rest)
  read_one s b rest e =
      let come : 0 < length (port.coming s) = subst (λ x. 0 < length x) (sym e) (omega arith) in
      one_of (port.read 1 s).0 (port.coming (port.read 1 s).1) b rest
        (port.reads_next 1 s (omega arith) come ∙ e) (port.reads_most 1 s)
        (port.reads_some 1 s (omega arith) come)

  -- A read sends nothing.
  abbrev pub IsQuiet : Type 0
  IsQuiet = (n : ℕ) (s : S) → port.sent (port.read n s).1 ≡ port.sent s

  read_loop-sent :
      IsQuiet → (turns n : ℕ) (s : S) → port.sent (read_loop port turns n s).1 ≡ port.sent s
  unfolding read_loop
  read_loop-sent quiet turns zero s = refl
  read_loop-sent quiet zero (suc n) s = refl
  read_loop-sent quiet (suc turns) (suc n) s =
      let r = port.read (suc n) s in
      ground (arith, quiet (suc n) s, read_loop-sent quiet turns (suc n - length r.0) r.1)

  pub read_exact-sent : IsQuiet → (n : ℕ) (s : S) → port.sent (read_exact port n s).1 ≡ port.sent s
  unfolding read_exact
  read_exact-sent quiet n s = read_loop-sent quiet n n s
