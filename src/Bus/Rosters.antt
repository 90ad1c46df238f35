-- ===== src/Bus/Rosters.antt =====
-- The arrays of participants of DataBus.h against a list.
use async_http.Prelude.{
  ℕ, zero, suc, ◌+◌, ◌-◌, ◌≤◌, ◌<◌, true, false, Option, none, some, List, [], ◌∷◌, ◌++◌, ◌≡◌, inl,
  inr, refl, ap, ◌∙◌, ltb, ◌==◌, Bool-cases, Option-cases, if◌then◌else◌, length, length-append,
  erase_first, arith,
}
use async_http.Bus.{Roster}
use async_http.Bus.Slots.{
  holds, find_slot, shift_down, remove_participant, add_participant, entry, HoldsList,
}

entry-append :
    (ps : List ℕ) (p i : ℕ)
    → entry (ps ++ (p ∷ [])) i ≡ (if i == length ps then some p else entry ps i)
unfolding entry
entry-append [] p zero = refl
entry-append [] p (suc i) = ground arith
entry-append (q ∷ ps) p zero = ground arith
entry-append (q ∷ ps) p (suc i) = ground (arith, entry-append ps p i)

pub entry-beyond : (ps : List ℕ) (i : ℕ) → length ps ≤ i → entry ps i ≡ none
unfolding entry
entry-beyond [] i h = refl
entry-beyond (p ∷ ps) zero h = absurd (omega arith)
entry-beyond (p ∷ ps) (suc i) h = entry-beyond ps i (omega arith)

pub add_participant-HoldsList :
    (peer : ℕ) (r : Roster) (ps : List ℕ)
    → HoldsList r ps
    → HoldsList (add_participant peer r) (ps ++ (peer ∷ []))
unfolding add_participant
add_participant-HoldsList peer r ps v = record {
  counted = omega (arith, v.counted, length-append ps (peer ∷ []));
  slots = λ i. ground (arith, v.counted, v.slots i, entry-append ps peer i);
  connected = λ i. ground (arith, v.counted, v.connected i, entry-append ps peer i);
}

-- The place of the first entry of a participant.
index_of : ℕ → List ℕ → Option ℕ
index_of peer [] = none
index_of peer (p ∷ ps) =
    if p == peer then some 0 else elim (index_of peer ps) [ none ↦ none | some i ↦ some (suc i) ]

find_slot-index_of :
    (qs : List ℕ) (i peer : ℕ) (r : Roster)
    → ((k : ℕ) → r.participants (i + k) ≡ entry qs k)
    → find_slot (length qs) i peer r
      ≡ elim (index_of peer qs) [ none ↦ none | some k ↦ some (i + k) ]
unfolding find_slot holds index_of entry
find_slot-index_of [] i peer r h = refl
find_slot-index_of (q ∷ qs) i peer r h =
    let rest =
      find_slot-index_of qs (i + 1) peer r (λ k. ap r.participants (omega arith) ∙ h (suc k)) in
    let here : r.participants i ≡ some q = ap r.participants (omega arith) ∙ h 0 in
    elim (Option-cases (index_of peer qs)) [
      | inl absent ↦ ground (arith, rest, here, absent)
      | inr k ↦ ground (arith, rest, here, k.1)
    ]

index_of-lt : (peer : ℕ) (ps : List ℕ) (i : ℕ) → index_of peer ps ≡ some i → i < length ps
unfolding index_of
index_of-lt peer [] i h = absurd (let f : ⊥ = cc in f)
index_of-lt peer (p ∷ ps) i h = elim (Option-cases (index_of peer ps)) [
  | inl absent ↦ ground (arith, h, absent)
  | inr k ↦ ground (arith, h, k.1, index_of-lt peer ps k.0 k.1)
]

erase_first-absent : (peer : ℕ) (ps : List ℕ) → index_of peer ps ≡ none → erase_first peer ps ≡ ps
unfolding index_of
erase_first-absent peer [] h = refl
erase_first-absent peer (p ∷ ps) h = ground (arith, h, erase_first-absent peer ps)

entry-erase_first :
    (peer : ℕ) (ps : List ℕ) (i k : ℕ)
    → index_of peer ps ≡ some i
    → entry (erase_first peer ps) k ≡ (if ltb k i then entry ps k else entry ps (suc k))
unfolding index_of entry
entry-erase_first peer [] i k h = absurd (let f : ⊥ = cc in f)
entry-erase_first peer (p ∷ ps) i zero h = elim (Option-cases (index_of peer ps)) [
  | inl absent ↦ ground (arith, h, absent)
  | inr j ↦ ground (arith, h, j.1)
]
entry-erase_first peer (p ∷ ps) i (suc k) h = elim (Option-cases (index_of peer ps)) [
  | inl absent ↦ ground (arith, h, absent)
  | inr j ↦ ground (arith, h, j.1, entry-erase_first peer ps j.0 k j.1)
]

length-erase_at :
    (peer : ℕ) (ps : List ℕ) (i : ℕ)
    → index_of peer ps ≡ some i
    → length (erase_first peer ps) ≡ length ps - 1
unfolding index_of
length-erase_at peer [] i h = absurd (let f : ⊥ = cc in f)
length-erase_at peer (p ∷ ps) i h = elim (Option-cases (index_of peer ps)) [
  | inl absent ↦ ground (arith, h, absent)
  | inr j ↦ ground (arith, h, j.1, length-erase_at peer ps j.0 j.1, index_of-lt peer ps j.0 j.1)
]

-- What the loop leaves in a slot.
shifted : {A : Type 0} → ℕ → ℕ → (ℕ → Option A) → ℕ → Option A
shifted n j f k =
    if ltb k j
    then f k
    else if ltb k (j + n)
    then f (k + 1)
    else if k == j + n
    then (if n == 0 then f k else none)
    else f k

moved : {A : Type 0} → ℕ → (ℕ → Option A) → ℕ → Option A
moved j f i = if i == j + 1 then none else if i == j then f (j + 1) else f i

shifted-moved :
    {A : Type 0} (n j : ℕ) (f : ℕ → Option A) (k : ℕ)
    → shifted n (j + 1) (moved j f) k ≡ shifted (suc n) j f k
unfolding shifted moved
shifted-moved n j f k = elim (Bool-cases (ltb k j)) [
  | inl before ↦ ground (arith, before)
  | inr after ↦ elim (Bool-cases (k == j)) [
    | inl at ↦ ground (arith, at)
    | inr past ↦ elim (Bool-cases (k == j + 1)) [
      | inl next ↦ ground (arith, after, past, next)
      | inr far ↦ ground (arith, after, past, far)
    ]
  ]
]

shift_down-shifted :
    (n j : ℕ) (r : Roster) (k : ℕ)
    → ((shift_down n j r).participants k ≡ shifted n j r.participants k)
      × ((shift_down n j r).connections k ≡ shifted n j r.connections k)
unfolding shift_down shifted moved
shift_down-shifted zero j r k = (ground arith, ground arith)
shift_down-shifted (suc n) j r k =
    let next : Roster = record r {
      participants = moved j r.participants;
      connections = moved j r.connections;
    } in
    let rest = shift_down-shifted n (j + 1) next k in
    (rest.0 ∙ shifted-moved n j r.participants k, rest.1 ∙ shifted-moved n j r.connections k)

-- A slot after a removal, pointed to by the loop or connected by it.
removed_entry :
    (ps : List ℕ) (i k : ℕ) (f : ℕ → Option ℕ)
    → i < length ps
    → ((j : ℕ) → (j == i) ≡ false → f j ≡ entry ps j)
    → (if k == length ps - 1 then none else shifted (length ps - 1 - i) i f k)
      ≡ (if ltb k i then entry ps k else entry ps (suc k))
unfolding shifted
removed_entry ps i k f small h = elim (Bool-cases (ltb k i)) [
  | inl before ↦ ground (arith, before, small, h k)
  | inr after ↦
      let past : ltb (length ps) (suc (suc k)) ≡ true → entry ps (suc k) ≡ none =
        λ e. entry-beyond ps (suc k) (ground (arith, e)) in
      elim (Bool-cases (k == length ps - 1)) [
        | inl last ↦ ground (arith, after, last, past)
        | inr inner ↦ elim (Bool-cases (ltb k (length ps - 1))) [
          | inl early ↦ ground (arith, after, inner, early, small, h (k + 1))
          | inr late ↦ ground (arith, after, inner, late, small, past, h k, entry-beyond ps k)
        ]
      ]
]

removed_connection :
    (ps : List ℕ) (i k : ℕ) (f : ℕ → Option ℕ)
    → i < length ps
    → ((j : ℕ) → (j == i) ≡ false → f j ≡ entry ps j)
    → f i ≡ none
    → shifted (length ps - 1 - i) i f k ≡ (if ltb k i then entry ps k else entry ps (suc k))
unfolding shifted
removed_connection ps i k f small h off = elim (Bool-cases (k == length ps - 1)) [
  | inr inner ↦ let e = removed_entry ps i k f small h in ground (arith, inner, e)
  | inl last ↦ ground (arith, last, small, off, entry-beyond ps (suc k))
]

pub remove_participant-HoldsList :
    (peer : ℕ) (r : Roster) (ps : List ℕ)
    → HoldsList r ps
    → HoldsList (remove_participant peer r) (erase_first peer ps)
unfolding remove_participant
remove_participant-HoldsList peer r ps v =
    let found = find_slot-index_of ps 0 peer r (λ k. ap r.participants (omega arith) ∙ v.slots k) in
    elim (Option-cases (index_of peer ps)) [
      | inl absent ↦ record {
        counted = ground (arith, v.counted, found, absent, erase_first-absent peer ps absent);
        slots = λ k.
            ground (arith, v.counted, found, absent, v.slots k, erase_first-absent peer ps absent);
        connected = λ k.
            ground
              (arith, v.counted, found, absent, v.connected k, erase_first-absent peer ps absent);
      }
      | inr i ↦
          let small = index_of-lt peer ps i.0 i.1 in
          let off : ℕ → Option ℕ = λ j. if j == i.0 then none else r.connections j in
          let start : Roster = record r { connections = off } in
          record {
            counted = ground (arith, v.counted, found, i.1, length-erase_at peer ps i.0 i.1);
            slots = λ k.
                let e = removed_entry ps i.0 k r.participants small (λ j n. v.slots j) in
                let s = shift_down-shifted (length ps - 1 - i.0) i.0 start k in
                ground (arith, v.counted, found, i.1, e, s.0, entry-erase_first peer ps i.0 k i.1);
            connected = λ k.
                let e =
                  removed_connection ps i.0 k off small (λ j n. ground (arith, n, v.connected j))
                    (ground (arith)) in
                let s = shift_down-shifted (length ps - 1 - i.0) i.0 start k in
                ground (arith, v.counted, found, i.1, e, s.1, entry-erase_first peer ps i.0 k i.1);
          }
    ]
