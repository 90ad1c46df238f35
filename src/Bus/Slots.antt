-- ===== src/Bus/Slots.antt =====
-- The arrays of participants of DataBus.h hold a list: additions go to the end, and a removal takes the
-- first entry of a participant out and moves the later ones up.
use async_http.Prelude.{
  ℕ, zero, suc, ◌+◌, ◌-◌, Bool, false, Option, none, some, List, [], ◌∷◌, ◌≡◌, leb, ◌==◌,
  if◌then◌else◌, length,
}
use async_http.Bus.{Roster, max_participants}

abbrev put : {A : Type 0} → ℕ → A → (ℕ → A) → ℕ → A
put i a f j = if j == i then a else f j

-- Whether a slot holds a participant.
unfoldable pub holds : ℕ → Option ℕ → Bool
holds peer none = false
holds peer (some p) = p == peer

-- The index of the first slot with a participant, among the next `n` ones from `i` on.
unfoldable pub find_slot : ℕ → ℕ → ℕ → Roster → Option ℕ
unfolding holds
find_slot zero i peer r = none
find_slot (suc n) i peer r =
    let rest = find_slot n (i + 1) peer r in if holds peer (r.participants i) then some i else rest

-- The inner loop of RemoveParticipant: `n` turns, from `j` on. What was moved from is null.
unfoldable pub shift_down : ℕ → ℕ → Roster → Roster
shift_down zero j r = r
shift_down (suc n) j r = shift_down n (j + 1) (record r {
  participants = put (j + 1) none (put j (r.participants (j + 1)) r.participants);
  connections = put (j + 1) none (put j (r.connections (j + 1)) r.connections);
})

-- RemoveParticipant
unfoldable pub remove_participant : ℕ → Roster → Roster
unfolding find_slot shift_down
remove_participant peer r = elim (find_slot r.count 0 peer r) [
  | none ↦ r
  | some i ↦
      let s =
        shift_down (r.count - 1 - i) i (record r { connections = put i none r.connections }) in
      record s { participants = put (r.count - 1) none s.participants; count = r.count - 1 }
]

-- The end of AddParticipant, where there is room.
unfoldable pub add_participant : ℕ → Roster → Roster
add_participant peer r = record {
  participants = put r.count (some peer) r.participants;
  connections = put r.count (some peer) r.connections;
  count = r.count + 1;
}

unfoldable pub is_full : Roster → Bool
is_full r = leb max_participants r.count

-- The loop of Reset over the slots.
unfoldable pub reset_slots : ℕ → Roster → Roster
reset_slots zero r = record r { count = 0 }
reset_slots (suc n) r =
    reset_slots n (record r {
      participants = put n none r.participants;
      connections = put n none r.connections;
    })

-- SnapshotParticipantsLocked, from the slot `i` on.
unfoldable pub snapshot : ℕ → ℕ → Roster → List ℕ
snapshot zero i r = []
snapshot (suc n) i r =
    let rest = snapshot n (i + 1) r in
    elim (r.participants i) [ none ↦ rest | some peer ↦ peer ∷ rest ]

-- How many connections to a participant's error signal there are, among the first `n` slots.
unfoldable pub listeners : ℕ → ℕ → Roster → ℕ
unfolding holds
listeners zero peer r = 0
listeners (suc n) peer r =
    let rest = listeners n peer r in if holds peer (r.connections n) then suc rest else rest

-- The slots hold a list, connected to the same participants, and nothing beyond.
unfoldable pub entry : List ℕ → ℕ → Option ℕ
entry [] i = none
entry (p ∷ ps) zero = some p
entry (p ∷ ps) (suc i) = entry ps i

pub record HoldsList (r : Roster) (ps : List ℕ) : Type 0 where
  pub counted : r.count ≡ length ps
  pub slots : (i : ℕ) → r.participants i ≡ entry ps i
  pub connected : (i : ℕ) → r.connections i ≡ entry ps i

-- A change of the arrays: AddParticipant, which takes no more than there is room for,
-- RemoveParticipant, and the loop of Reset.
pub data Change : Type 0 where
  added removed : ℕ → Change
  cleared : Change

unfoldable pub change : Change → Roster → Roster
unfolding is_full add_participant remove_participant reset_slots
change (added peer) r = if is_full r then r else add_participant peer r
change (removed peer) r = remove_participant peer r
change cleared r = reset_slots r.count r

unfoldable pub change_all : List Change → Roster → Roster
unfolding change
change_all [] r = r
change_all (c ∷ cs) r = change_all cs (change c r)
