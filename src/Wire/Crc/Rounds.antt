-- ===== src/Wire/Crc/Rounds.antt =====
-- The two versions of Crc16CalcBlock agree.
use Prim.Native.Nat.{bit_and, bit_xor}
use async_http.Prelude.Checks.{holds_below, holds_at}
use async_http.Prelude.{
  ℕ, zero, suc, ◌+◌, ◌*◌, ◌/◌, ◌%◌, ◌^◌, ◌<◌, Bool, true, List, [], ◌∷◌, ◌++◌, ◌≡◌, refl, sym, ap,
  ◌∙◌, ◌==◌, ==_iff, ltb, ltb→lt, if◌then◌else◌, All, arith,
}
use async_http.Wire.Xor.{zero-xor, xor_comm, xor_assoc, xor_double, xor-mod, xor-div}
use async_http.Wire.Crc.{
  crcccitt_table, entry, table_step, crc16_calc_block, poly, bit_rounds, crc16_calc_block_by_bits,
}

-- What a round makes of `data ^ crc`.
round : ℕ → ℕ
round x = if bit_and x 0x8000 == 0 then x * 2 % 2 ^ 16 else bit_xor (x * 2 % 2 ^ 16) poly

rounds : ℕ → ℕ → ℕ
unfolding round
rounds zero x = x
rounds (suc i) x = rounds i (round x)

entry_matches : ℕ → ℕ → Bool
unfolding rounds entry
entry_matches high low =
    rounds 8 (high * 256 + low) == bit_xor (low * 256) (entry crcccitt_table high)

row : ℕ → Bool
unfolding holds_below entry_matches
row high = holds_below (entry_matches high) 256

table : holds_below row 256 ≡ true
unfolding holds_below row
table = refl

row_at : (high low : ℕ) → row high ≡ true → low < 256 → entry_matches high low ≡ true
unfolding row
row_at high low r q = holds_at (entry_matches high) 256 low r q

table_lem :
    (high low : ℕ)
    → high < 256
    → low < 256
    → rounds 8 (high * 256 + low) ≡ bit_xor (low * 256) (entry crcccitt_table high)
unfolding entry_matches
table_lem high low p q =
    (==_iff (rounds 8 (high * 256 + low)) (bit_xor (low * 256) (entry crcccitt_table high))).0
      (row_at high low (holds_at row 256 high table p) q)

-- How `data` moves on.
shifted : ℕ → ℕ → ℕ
shifted zero word = word
shifted (suc i) word = shifted i (word * 2 % 2 ^ 16)

xor-shift : (a b : ℕ) → bit_xor (a * 2 % 2 ^ 16) (b * 2 % 2 ^ 16) ≡ bit_xor a b * 2 % 2 ^ 16
xor-shift a b = sym (xor-mod 16 (a * 2) (b * 2)) ∙ ap (λ x. x % 2 ^ 16) (xor_double a b)

round-xor :
    (word crc : ℕ)
    → bit_xor (word * 2 % 2 ^ 16) (
        if bit_and (bit_xor word crc) 0x8000 == 0
        then crc * 2 % 2 ^ 16
        else bit_xor (crc * 2 % 2 ^ 16) poly)
      ≡ round (bit_xor word crc)
unfolding round
round-xor word crc = ground (
  arith,
  xor-shift word crc,
  sym (xor_assoc (word * 2 % 2 ^ 16) (crc * 2 % 2 ^ 16) poly),
  ap (λ x. bit_xor x poly) (xor-shift word crc),
)

bit_rounds-xor :
    (i word crc : ℕ)
    → bit_xor (shifted i word) (bit_rounds i word crc) ≡ rounds i (bit_xor word crc)
unfolding shifted bit_rounds rounds
bit_rounds-xor zero word crc = refl
bit_rounds-xor (suc i) word crc =
    bit_rounds-xor i (word * 2 % 2 ^ 16) _ ∙ ap (rounds i) (round-xor word crc)

shifted-out : (byte : ℕ) → byte < 256 → shifted 8 (byte * 2 ^ 8 % 2 ^ 16) ≡ 0
unfolding shifted
shifted-out byte h = omega arith

xor-lt : (k a b : ℕ) → a % 2 ^ k ≡ a → b % 2 ^ k ≡ b → bit_xor a b % 2 ^ k ≡ bit_xor a b
xor-lt k a b p q = xor-mod k a b ∙ ap (λ x. bit_xor x (b % 2 ^ k)) p ∙ ap (bit_xor a) q

-- The table's index, and the rest, in `data ^ crc`.
module _ (crc byte : ℕ) (word : crc < 2 ^ 16) (octet : byte < 256) where
  start : ℕ
  start = bit_xor (byte * 2 ^ 8 % 2 ^ 16) crc

  start_low : start % 2 ^ 8 ≡ crc % 2 ^ 8
  unfolding start
  start_low =
      xor-mod 8 (byte * 2 ^ 8 % 2 ^ 16) crc
      ∙ ap (λ x. bit_xor x (crc % 2 ^ 8))
          (let e : byte * 2 ^ 8 % 2 ^ 16 % 2 ^ 8 ≡ 0 = omega arith in e)
      ∙ zero-xor (crc % 2 ^ 8)

  start_high : start / 2 ^ 8 ≡ bit_xor (crc / 2 ^ 8) byte
  unfolding start
  start_high =
      xor-div 8 (byte * 2 ^ 8 % 2 ^ 16) crc
      ∙ ap (λ x. bit_xor x (crc / 2 ^ 8))
          (let e : byte * 2 ^ 8 % 2 ^ 16 / 2 ^ 8 ≡ byte = omega arith in e)
      ∙ xor_comm byte (crc / 2 ^ 8)

  start_high-lt : bit_xor (crc / 2 ^ 8) byte < 256
  start_high-lt = omega (arith, xor-lt 8 (crc / 2 ^ 8) byte (omega arith) (omega arith))

  table_step-rounds : table_step crc byte ≡ rounds 8 start
  unfolding table_step
  table_step-rounds =
      ap (λ x. bit_xor x (entry crcccitt_table (bit_xor (crc / 2 ^ 8) byte)))
        (let e : crc * 2 ^ 8 % 2 ^ 16 ≡ crc % 2 ^ 8 * 256 = omega arith in e)
      ∙ sym (table_lem (bit_xor (crc / 2 ^ 8) byte) (crc % 2 ^ 8) start_high-lt (omega arith))
      ∙ ap (rounds 8) (omega (arith, start_low, start_high))

  bits-rounds : bit_rounds 8 (byte * 2 ^ 8 % 2 ^ 16) crc ≡ rounds 8 start
  unfolding start
  bits-rounds =
      sym (zero-xor _)
      ∙ ap (λ x. bit_xor x (bit_rounds 8 (byte * 2 ^ 8 % 2 ^ 16) crc))
          (sym (shifted-out byte octet))
      ∙ bit_rounds-xor 8 (byte * 2 ^ 8 % 2 ^ 16) crc

  table_step-bits : table_step crc byte ≡ bit_rounds 8 (byte * 2 ^ 8 % 2 ^ 16) crc
  table_step-bits = table_step-rounds ∙ sym bits-rounds

entries_short : holds_below (λ i. ltb (entry crcccitt_table i) 65536) 256 ≡ true
unfolding holds_below entry
entries_short = refl

pub table_step-lt : (crc byte : ℕ) → crc < 2 ^ 16 → byte < 256 → table_step crc byte < 2 ^ 16
unfolding table_step
table_step-lt crc byte word octet =
    let i : ℕ = bit_xor (crc / 2 ^ 8) byte in
    let short : entry crcccitt_table i < 65536 = ltb→lt _ _ (
      holds_at (λ i. ltb (entry crcccitt_table i) 65536) 256 i entries_short
        (start_high-lt crc byte word octet)) in
    omega (
      arith,
      xor-lt 16 (crc * 2 ^ 8 % 2 ^ 16) (entry crcccitt_table i) (omega arith)
          (omega (arith, short)),
    )

-- The checksum by the table is the checksum by the loop over the bits, for every message of bytes
-- and every start value of 16 bits.
pub crc16_calc_block-by_bits :
    (msg : List ℕ) (crc : ℕ)
    → crc < 2 ^ 16
    → All (λ byte. byte < 256) msg
    → crc16_calc_block msg crc ≡ crc16_calc_block_by_bits msg crc
unfolding crc16_calc_block crc16_calc_block_by_bits
crc16_calc_block-by_bits [] crc word octets = refl
crc16_calc_block-by_bits (byte ∷ msg) crc word octets =
    crc16_calc_block-by_bits msg (table_step crc byte) (table_step-lt crc byte word octets.0)
      octets.1
    ∙ ap (crc16_calc_block_by_bits msg) (table_step-bits crc byte word octets.0)

-- A message in two parts.
pub crc16_calc_block-append :
    (xs ys : List ℕ) (crc : ℕ)
    → crc16_calc_block (xs ++ ys) crc ≡ crc16_calc_block ys (crc16_calc_block xs crc)
unfolding crc16_calc_block
crc16_calc_block-append [] ys crc = refl
crc16_calc_block-append (x ∷ xs) ys crc = crc16_calc_block-append xs ys (table_step crc x)

pub crc16_calc_block-lt :
    (msg : List ℕ) (crc : ℕ)
    → crc < 2 ^ 16
    → All (λ byte. byte < 256) msg
    → crc16_calc_block msg crc < 2 ^ 16
unfolding crc16_calc_block
crc16_calc_block-lt [] crc word octets = word
crc16_calc_block-lt (byte ∷ msg) crc word octets =
    crc16_calc_block-lt msg (table_step crc byte) (table_step-lt crc byte word octets.0) octets.1
