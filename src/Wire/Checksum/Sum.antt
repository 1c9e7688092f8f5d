-- ===== src/Wire/Checksum/Sum.antt =====
-- The Internet checksum of src/pi/rsvp_builder.c against its definition over the integers.
use rsvp_te.Prelude.{
  ℕ, ◌+◌, ◌-◌, ◌*◌, ◌%◌, ◌^◌, ◌≤◌, ◌<◌, ◌≡◌, List, [], ◌∷◌, arith, ◌==◌, if◌then◌else◌, length,
  AllBytes,
}
use rsvp_te.Wire.Checksum.{sum_words, fold_carry, complement}

-- The sum of the big-endian words, an odd last byte being the high one, without any limit.
abbrev pub word_sum : List ℕ → ℕ
word_sum [] = 0
word_sum (a ∷ []) = a * 256
word_sum (a ∷ b ∷ rest) = a * 256 + b + word_sum rest

-- The one's complement sum: the value modulo 65535, where only 0 itself is 0.
abbrev pub ones_sum : ℕ → ℕ
ones_sum s = if s == 0 then 0 else (s - 1) % 65535 + 1

pub word_sum-le : (bs : List ℕ) → AllBytes bs → word_sum bs ≤ length bs * 65535
word_sum-le [] h = omega arith
word_sum-le (a ∷ []) h = omega arith
word_sum-le (a ∷ b ∷ rest) h = omega (arith, word_sum-le rest h.1.1)

-- The 32-bit accumulator does not wrap.
pub sum_words-eq :
    (s : ℕ) (bs : List ℕ)
    → AllBytes bs
    → s + length bs * 65535 < 2 ^ 32
    → sum_words s bs ≡ s + word_sum bs
unfolding sum_words
sum_words-eq s [] a h = omega arith
sum_words-eq s (x ∷ []) a h = omega arith
sum_words-eq s (x ∷ y ∷ rest) a h =
    let e : (s + (x * 256 + y)) % 2 ^ 32 ≡ s + (x * 256 + y) = omega arith in
    rw e (omega (arith, sum_words-eq (s + (x * 256 + y)) rest a.1.1 (omega arith)))

-- Three rounds of fuel are enough: the result has no carry left, and it is the one's complement sum.
pub fold_carry-ones_sum : (s : ℕ) → s < 2 ^ 32 → fold_carry 3 s ≡ ones_sum s
unfolding fold_carry
fold_carry-ones_sum s h = ground arith

pub complement_lem : (s : ℕ) → s < 2 ^ 32 → complement s ≡ 65535 - ones_sum s
unfolding complement
complement_lem s h = rw (fold_carry-ones_sum s h) (ground arith)
