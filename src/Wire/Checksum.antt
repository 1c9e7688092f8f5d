-- ===== src/Wire/Checksum.antt =====
-- `rsvp_checksum` and `rsvp_checksum_verify` of src/pi/rsvp_builder.c, over the bytes of a message.
pub mod Sum
pub mod Detect
mod Tests
use rsvp_te.Prelude.{
  ℕ, zero, suc, ◌+◌, ◌-◌, ◌*◌, ◌/◌, ◌%◌, ◌^◌, ◌&&◌, Bool, false, List, [], ◌∷◌, ◌==◌, if◌then◌else◌,
}

-- The loop over 16-bit words and the odd byte after it; `sum` is a `uint32_t`.
unfoldable pub sum_words : ℕ → List ℕ → ℕ
sum_words sum [] = sum
sum_words sum (a ∷ []) = (sum + a * 256) % 2 ^ 32
sum_words sum (a ∷ b ∷ rest) = sum_words ((sum + (a * 256 + b)) % 2 ^ 32) rest

-- `while (sum >> 16) sum = (sum & 0xffff) + (sum >> 16);`
unfoldable pub fold_carry : ℕ → ℕ → ℕ
fold_carry zero sum = sum
fold_carry (suc fuel) sum =
    let rest = fold_carry fuel (sum % 2 ^ 16 + sum / 2 ^ 16) in
    if sum / 2 ^ 16 == 0 then sum else rest

-- `(uint16_t)(~sum)` after the folding, which takes at most two rounds.
unfoldable pub complement : ℕ → ℕ
complement sum = (2 ^ 32 - 1 - fold_carry 3 sum) % 2 ^ 16

-- The result as the two bytes that `htons` leaves in memory.
unfoldable pub rsvp_checksum : List ℕ → List ℕ
rsvp_checksum buf = let sum = complement (sum_words 0 buf) in sum / 256 % 256 ∷ sum % 256 ∷ []

-- True where the function returns 0, false where it returns -1. The checksum field is bytes 2 and 3.
unfoldable pub rsvp_checksum_verify : List ℕ → Bool
rsvp_checksum_verify (a ∷ b ∷ c ∷ d ∷ rest) =
    let computed = complement (sum_words (a * 256 + b) rest) in
    c == computed / 256 % 256 && d == computed % 256
rsvp_checksum_verify _ = false
