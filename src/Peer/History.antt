-- ===== src/Peer/History.antt =====
-- The ring of Participant.h that finds duplicates, against the list of the messages that it let pass.
use async_http.Prelude.{
  ℕ, zero, suc, ◌+◌, ◌-◌, ◌%◌, ◌≤◌, ◌<◌, Bool, true, false, ◌&&◌, Option, none, some, List, [], ◌∷◌,
  ◌≡◌, inl, inr, refl, sym, ap, ◌∙◌, ltb, ◌==◌, ==_iff, ==_refl, Bool-cases, if◌then◌else◌, length,
  take, contains, arith,
}
use async_http.Peer.{SeqHistory, is_known, is_duplicate, new_history, history_size}

-- A series of messages, by their sequence numbers: which are taken for duplicates.
unfoldable pub duplicates : List ℕ → SeqHistory → List Bool
unfolding is_duplicate
duplicates [] h = []
duplicates (seq ∷ seqs) h = let r = is_duplicate seq h in r.0 ∷ duplicates seqs r.1

-- What it means: a duplicate is one of the eight last messages that were let pass, the newest first.
unfoldable pub repeats : List ℕ → List ℕ → List Bool
repeats [] passed = []
repeats (seq ∷ seqs) passed =
    let again = contains seq (take history_size passed) in
    again ∷ repeats seqs (if again then passed else seq ∷ passed)

-- The newest message that went to a place of the ring.
unfoldable latest : ℕ → List ℕ → Option ℕ
latest i [] = none
latest i (seq ∷ passed) = if length passed % 8 == i then some seq else latest i passed

unfoldable nth : ℕ → List ℕ → Option ℕ
nth k [] = none
nth zero (seq ∷ passed) = some seq
nth (suc k) (seq ∷ passed) = nth k passed

latest-nth :
    (k : ℕ) (l : List ℕ) → k < 8 → k < length l → latest ((length l - 1 - k) % 8) l ≡ nth k l
unfolding latest nth
latest-nth k [] small h = absurd (omega arith)
latest-nth zero (seq ∷ l) small h = ground arith
latest-nth (suc k) (seq ∷ l) small h =
    let e : (length l % 8 == (length l - suc k) % 8) ≡ false = ground arith in
    let f : length l - suc k ≡ length l - 1 - k = omega arith in
    ground (arith, e, f, latest-nth k l (omega arith) (omega arith))

latest-none : (i : ℕ) (l : List ℕ) → i < 8 → length l ≤ i → latest i l ≡ none
unfolding latest
latest-none i [] small h = refl
latest-none i (seq ∷ l) small h =
    let e : (length l % 8 == i) ≡ false = ground arith in
    ground (arith, e, latest-none i l small (omega arith))

-- How far back the message of a place is.
latest-back :
    (i : ℕ) (l : List ℕ) (seq : ℕ)
    → i < 8
    → latest i l ≡ some seq
    → nth ((length l + 7 - i) % 8) l ≡ some seq
latest-back i l seq small h = elim (Bool-cases (ltb i (length l))) [
  | inl early ↦
      let k = (length l + 7 - i) % 8 in
      let e : (length l - 1 - k) % 8 ≡ i = ground (arith, early) in
      sym (latest-nth k l (omega arith) (ground (arith, early))) ∙ ap (λ j. latest j l) e ∙ h
  | inr late ↦ absurd (let f : ⊥ = ground (arith, late, latest-none i l small) in f)
]

nth-contains :
    (k w : ℕ) (l : List ℕ) (seq : ℕ) → k < w → nth k l ≡ some seq → contains seq (take w l) ≡ true
unfolding nth
nth-contains k w [] seq small h = absurd (let f : ⊥ = cc in f)
nth-contains k zero l seq small h = absurd (omega arith)
nth-contains zero (suc w) (x ∷ l) seq small h = ground (arith, h, ==_refl seq)
nth-contains (suc k) (suc w) (x ∷ l) seq small h =
    ground (arith, nth-contains k w l seq (omega arith) h)

contains-nth :
    (w : ℕ) (l : List ℕ) (seq : ℕ)
    → contains seq (take w l) ≡ true
    → (k : ℕ) × (k < w) × (k < length l) × (nth k l ≡ some seq)
unfolding nth
contains-nth zero l seq h = absurd (let f : ⊥ = cc in f)
contains-nth (suc w) [] seq h = absurd (let f : ⊥ = cc in f)
contains-nth (suc w) (x ∷ l) seq h = elim (Bool-cases (x == seq)) [
  | inl e ↦ (0, omega arith, omega arith, ap some ((==_iff x seq).0 e))
  | inr e ↦
      let (k, small, inside, found) = contains-nth w l seq (ground (arith, h, e)) in
      (suc k, omega arith, omega arith, found)
]

-- What a place of the ring holds.
slot : ℕ → SeqHistory → Option ℕ
slot i h = if h.valid i then some (h.buffer i) else none

record Holds (h : SeqHistory) (passed : List ℕ) : Type 0 where
  at_head : h.head ≡ length passed % 8
  places : (i : ℕ) → i < 8 → slot i h ≡ latest i passed

is_known-slot :
    (n seq : ℕ) (h : SeqHistory)
    → is_known n seq h ≡ true
    → (i : ℕ) × (i < n) × (slot i h ≡ some seq)
unfolding is_known slot
is_known-slot zero seq h e = absurd (let f : ⊥ = cc in f)
is_known-slot (suc n) seq h e = elim (Bool-cases (h.valid n && (h.buffer n == seq))) [
  | inl here ↦ (n, omega arith, ground (arith, here))
  | inr there ↦
      let (i, small, found) = is_known-slot n seq h (ground (arith, e, there)) in
      (i, omega arith, found)
]

slot-is_known :
    (n i seq : ℕ) (h : SeqHistory) → i < n → slot i h ≡ some seq → is_known n seq h ≡ true
unfolding is_known slot
slot-is_known zero i seq h small e = absurd (omega arith)
slot-is_known (suc n) i seq h small e = elim (Bool-cases (i == n)) [
  | inl last ↦ ground (arith, e, last)
  | inr earlier ↦ ground (arith, slot-is_known n i seq h (ground (arith, earlier)) e)
]

is_known-contains :
    (seq : ℕ) (h : SeqHistory) (passed : List ℕ)
    → Holds h passed
    → is_known history_size seq h ≡ contains seq (take history_size passed)
is_known-contains seq h passed v = elim (Bool-cases (is_known history_size seq h)) [
  | inl known ↦
      let (i, small, found) = is_known-slot history_size seq h known in
      known
      ∙ sym (
          nth-contains ((length passed + 7 - i) % 8) 8 passed seq (omega arith)
            (latest-back i passed seq small (sym (v.places i small) ∙ found)))
  | inr unknown ↦ elim (Bool-cases (contains seq (take history_size passed))) [
    | inr out ↦ unknown ∙ sym out
    | inl there ↦
        let (k, small, inside, found) = contains-nth history_size passed seq there in
        let i = (length passed - 1 - k) % 8 in
        let known : is_known history_size seq h ≡ true =
          slot-is_known 8 i seq h (omega arith)
            (v.places i (omega arith) ∙ latest-nth k passed small inside ∙ found) in
        known ∙ sym there
  ]
]

record_passed : ℕ → SeqHistory → SeqHistory
record_passed seq h = record {
  buffer = λ i. if i == h.head then seq else h.buffer i;
  valid = λ i. if i == h.head then true else h.valid i;
  head = (h.head + 1) % history_size;
}

passed-Holds :
    (seq : ℕ) (h : SeqHistory) (passed : List ℕ)
    → Holds h passed
    → Holds (record_passed seq h) (seq ∷ passed)
unfolding record_passed slot latest
passed-Holds seq h passed v = record {
  at_head = omega (arith, v.at_head);
  places = λ i small. ground (arith, v.places i small, v.at_head);
}

duplicates-Holds :
    (seqs : List ℕ) (h : SeqHistory) (passed : List ℕ)
    → Holds h passed
    → duplicates seqs h ≡ repeats seqs passed
unfolding duplicates repeats is_duplicate record_passed
duplicates-Holds [] h passed v = refl
duplicates-Holds (seq ∷ seqs) h passed v =
    let same = is_known-contains seq h passed v in
    elim (Bool-cases (is_known history_size seq h)) [
      | inl known ↦ ground (arith, known, same, duplicates-Holds seqs h passed v)
      | inr new_one ↦ ground (
        arith,
        new_one,
        same,
        duplicates-Holds seqs (record_passed seq h) (seq ∷ passed) (passed-Holds seq h passed v),
      )
    ]

-- For any series of messages, the ring takes for duplicates exactly those whose sequence number is
-- among the last eight that it let pass.
pub duplicates-repeats : (seqs : List ℕ) → duplicates seqs new_history ≡ repeats seqs []
unfolding slot latest
duplicates-repeats seqs =
    duplicates-Holds seqs new_history [] (record { at_head = refl; places = λ i small. refl })
