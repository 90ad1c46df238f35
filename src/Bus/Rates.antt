-- ===== src/Bus/Rates.antt =====
-- The rate limiter of DataBus.h, whose times are of 32 bits, against times that do not wrap.
use async_http.Prelude.{
  ℕ, ◌+◌, ◌-◌, ◌/◌, ◌%◌, ◌^◌, ◌≤◌, ◌<◌, none, some, List, [], ◌∷◌, ◌++◌, append-nil, append_assoc,
  ◌≡◌, inl, inr, sym, ap, ◌∙◌, subst, map, leb, ◌==◌, ==_refl, Bool-cases, if◌then◌else◌, arith,
}
use async_http.Bus.{Subscriber, delivered, Bus}
use async_http.Bus.Limiter.{now_rep, is_due, filter_invoke, limiter_invoke}

-- The messages of a series that a subscriber gets, who wants that many milliseconds between them: one
-- is kept if it comes that long after the last one that was, and dropped if it comes sooner.
pub data Paced {V : Type 0} (separation : ℕ) : ℕ → List (ℕ × V) → List V → Type 0 where
  over : (last : ℕ) → Paced separation last [] []
  kept :
      (last now : ℕ) (v : V) (rest : List (ℕ × V)) (out : List V)
      → last + separation ≤ now / 1000
      → Paced separation (now / 1000) rest out
      → Paced separation last ((now, v) ∷ rest) (v ∷ out)
  dropped :
      (last now : ℕ) (v : V) (rest : List (ℕ × V)) (out : List V)
      → now / 1000 < last + separation
      → Paced separation last rest out
      → Paced separation last ((now, v) ∷ rest) out

-- The clock does not go back, and its milliseconds fit into 32 bits.
abbrev pub IsClocked : {V : Type 0} → ℕ → List (ℕ × V) → Type 0
IsClocked last [] = Unit {0}
IsClocked last ((now, v) ∷ rest) =
    (last ≤ now / 1000) × (now / 1000 < 2 ^ 32) × IsClocked (now / 1000) rest

weaken :
    {V : Type 0} (last later : ℕ) (rest : List (ℕ × V))
    → last ≤ later
    → IsClocked later rest
    → IsClocked last rest
weaken last later [] h c = tt
weaken last later ((now, v) ∷ rest) h c = (omega (arith, h, c.0), c.1, c.2)

difference :
    (now last : ℕ)
    → last ≤ now
    → now < 2 ^ 32
    → (now % 2 ^ 32 + 2 ^ 32 - last) % 2 ^ 32 ≡ now - last
difference now last h fits = omega arith

is_due-late :
    (now last separation : ℕ)
    → last ≤ now / 1000
    → now / 1000 < 2 ^ 32
    → is_due (now_rep now) last separation ≡ leb separation (now / 1000 - last)
unfolding is_due
is_due-late now last separation h fits = ap (leb separation) (difference (now / 1000) last h fits)

module _ {V W : Type 0} where
  -- A series of messages, each at its time.
  unfoldable pub invoke_each : Subscriber V → List (ℕ × V) → Bus V W → Bus V W
  unfolding limiter_invoke
  invoke_each s [] b = b
  invoke_each s ((now, v) ∷ rest) b = invoke_each s rest (limiter_invoke now s v b)

  -- A subscriber with a rate limiter and no filter gets those messages of a series that its
  -- separation means, in order, and nothing else is done to the outside: one is kept if it comes at
  -- least so long after the last one that was kept, and dropped if it comes sooner. The last
  -- delivery is not in the future, the times do not go back, and their milliseconds and the
  -- separation fit into 32 bits.
  pub invoke_each-Paced :
      (s : Subscriber V) (number separation : ℕ) (messages : List (ℕ × V)) (b : Bus V W)
      → s.limiter ≡ some (number, separation)
      → s.predicate ≡ none
      → separation < 2 ^ 32
      → IsClocked (b.last_deliveries number) messages
      → (out : List V) × Paced separation (b.last_deliveries number) messages out
        × ((invoke_each s messages b).effects ≡ b.effects ++ map (delivered s.callback) out)
  unfolding invoke_each limiter_invoke filter_invoke is_due
  invoke_each-Paced s number separation [] b limited plain fits c =
      ([], over (b.last_deliveries number), sym (append-nil b.effects))
  invoke_each-Paced s number separation ((now, v) ∷ rest) b limited plain fits c =
      let last = b.last_deliveries number in
      let due = is_due (now_rep now) last separation in
      elim (Bool-cases due) [
        | inl on_time ↦
            let next : Bus V W = record b {
              last_deliveries = λ i. if i == number then now_rep now else b.last_deliveries i;
              effects = b.effects ++ (delivered s.callback v ∷ []);
            } in
            let e : limiter_invoke now s v b ≡ next = ground (arith, limited, plain, on_time) in
            let same_rep : now_rep now ≡ now / 1000 = omega (arith, c.1) in
            let marked : next.last_deliveries number ≡ now / 1000 =
              ground (arith, same_rep, ==_refl number) in
            let (out, paced, same) =
              invoke_each-Paced s number separation rest next limited plain fits
                (subst (λ l. IsClocked l rest) (sym marked) c.2) in
            (
              v ∷ out,
              kept last now v rest out
                  (ground (arith, on_time, is_due-late now last separation c.0 c.1, c.0))
                  (subst (λ l. Paced separation l rest out) marked paced),
              ap (λ x. (invoke_each s rest x).effects) e
                  ∙ same
                  ∙ append_assoc b.effects (delivered s.callback v ∷ [])
                      (map (delivered s.callback) out),
            )
        | inr early ↦
            let e : limiter_invoke now s v b ≡ b = ground (arith, limited, plain, early) in
            let soon : now / 1000 < last + separation =
              ground (arith, early, is_due-late now last separation c.0 c.1, c.0) in
            let (out, paced, same) =
              invoke_each-Paced s number separation rest b limited plain fits
                (weaken last (now / 1000) rest c.0 c.2) in
            (
              out,
              dropped last now v rest out soon paced,
              ap (λ x. (invoke_each s rest x).effects) e ∙ same,
            )
      ]
