-- ===== src/Wire/Checksum/Tests.antt =====
-- The checksum of src/pi/rsvp_builder.c at concrete messages.
use rsvp_te.Prelude.{ℕ, ◌+◌, ◌-◌, ◌*◌, ◌/◌, ◌%◌, ◌≡◌, refl, ◌⊎◌, true, List, [], ◌∷◌, arith}
use rsvp_te.Wire.Checksum.{sum_words, fold_carry, complement, rsvp_checksum, rsvp_checksum_verify}
use rsvp_te.Wire.Checksum.Sum.{word_sum, ones_sum}
use rsvp_te.Wire.Checksum.Detect.{rsvp_checksum_ref, verify_detects}

-- A Hello header with no objects and its checksum.
abbrev hello_hdr : List ℕ
hello_hdr = 16 ∷ 20 ∷ 0 ∷ 0 ∷ 255 ∷ 0 ∷ 0 ∷ 8 ∷ []

hello_checksum : rsvp_checksum hello_hdr ≡ 240 ∷ 226 ∷ []
unfolding rsvp_checksum complement sum_words fold_carry
hello_checksum = refl

hello_accepted : rsvp_checksum_verify (16 ∷ 20 ∷ 240 ∷ 226 ∷ 255 ∷ 0 ∷ 0 ∷ 8 ∷ []) ≡ true
unfolding rsvp_checksum_verify complement sum_words fold_carry
hello_accepted = refl

rsvp_checksum_ref_example :
    let sum = 65535 - ones_sum (word_sum hello_hdr) in
    rsvp_checksum hello_hdr ≡ sum / 256 ∷ sum % 256 ∷ []
rsvp_checksum_ref_example = rsvp_checksum_ref hello_hdr (omega arith) (omega arith)

-- Reading a word 0 as 65535 is what the sum cannot notice.
verify_detects_example :
    ((◌≡◌ {A = ℕ} 0 255) × (◌≡◌ {A = ℕ} 0 255))
    ⊎ ((0 * 256 + 0 ≡ 0) × (255 * 256 + 255 ≡ 65535))
    ⊎ ((0 * 256 + 0 ≡ 65535) × (255 * 256 + 255 ≡ 0))
unfolding rsvp_checksum_verify complement sum_words fold_carry
verify_detects_example =
    verify_detects 16 20 239 235 0 0 255 255 [] [] (omega arith) (omega arith) (omega arith) refl
      refl refl
