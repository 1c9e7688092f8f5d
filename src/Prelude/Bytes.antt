-- ===== src/Prelude/Bytes.antt =====
-- Bytes and the bits of a byte. The native bit operations have no laws at variables, so those of
-- one byte are checked at every value.
use Prim.Native.Nat.{ℕ, zero, suc, ◌-◌, ◌/◌, ◌%◌, ◌^◌, ◌<◌, bit_and, bit_or}
use mathlib.Core.Path.{◌≡◌, refl}
use mathlib.Core.Bool.{Bool, true, false, ◌&&◌}
use mathlib.Core.List.{List, [], ◌∷◌, ◌++◌}
use native.Mathlib.Omega.{arith}
use rsvp_te.Prelude.Tests.{ltb, ◌==◌, if◌then◌else◌, ltb→lt}
use rsvp_te.Prelude.Lists.{get_or, set, replicate}

-- Every element is a byte.
abbrev pub AllBytes : List ℕ → Type 0
AllBytes [] = Unit {0}
AllBytes (b ∷ bs) = (b < 256) × AllBytes bs

pub AllBytes-set : (bs : List ℕ) (i v : ℕ) → v < 256 → AllBytes bs → AllBytes (set bs i v)
AllBytes-set [] i v h a = tt
AllBytes-set (b ∷ bs) zero v h a = (h, a.1)
AllBytes-set (b ∷ bs) (suc i) v h a = (a.0, AllBytes-set bs i v h a.1)

pub AllBytes-get_or : (bs : List ℕ) (i : ℕ) → AllBytes bs → get_or bs i 0 < 256
AllBytes-get_or [] i a = omega arith
AllBytes-get_or (b ∷ bs) zero a = a.0
AllBytes-get_or (b ∷ bs) (suc i) a = AllBytes-get_or bs i a.1

pub AllBytes-replicate : (n : ℕ) → AllBytes (replicate n 0)
AllBytes-replicate zero = tt
AllBytes-replicate (suc n) = (omega arith, AllBytes-replicate n)

pub AllBytes-append : (xs ys : List ℕ) → AllBytes xs → AllBytes ys → AllBytes (xs ++ ys)
AllBytes-append [] ys a b = b
AllBytes-append (x ∷ xs) ys a b = (a.0, AllBytes-append xs ys a.1 b)

-- `(b >> k) & 1`
abbrev pub test_bit : ℕ → ℕ → Bool
test_bit b k = b / 2 ^ k % 2 == 1

-- `b |= 1 << k` and `b &= ~(1 << k)` on a `uint8_t`
unfoldable pub set_bit : ℕ → ℕ → ℕ
set_bit b k = bit_or b (2 ^ k)

unfoldable pub clear_bit : ℕ → ℕ → ℕ
clear_bit b k = bit_and b (255 - 2 ^ k)

-- `p` holds at each of the first `left` numbers, tried from the greatest down.
holds_below : (ℕ → Bool) → ℕ → Bool
holds_below p zero = true
holds_below p (suc left) = if p left then holds_below p left else false

at_holds_below :
    (p : ℕ → Bool) (left : ℕ) {i : ℕ} → i < left → holds_below p left ≡ true → p i ≡ true
unfolding holds_below
at_holds_below p zero below checked = absurd (omega (arith, below))
at_holds_below p (suc left) {i} below checked = ground (arith, at_holds_below p left {i = i})

same : Bool → Bool → Bool
same true b = b
same false true = false
same false false = true

same_sound : (a b : Bool) → same a b ≡ true → a ≡ b
unfolding same
same_sound a b h = ground arith

abbrev bit_row : (ℕ → ℕ → ℕ) → Bool → ℕ → ℕ → ℕ → Bool
bit_row f v b k j = same (test_bit (f b k) j) (if k == j then v else test_bit b j)

abbrev bit_table : (ℕ → ℕ → ℕ) → Bool → Bool
bit_table f v =
    holds_below
      (λ b. holds_below (λ k. ltb (f b k) 256 && holds_below (λ j. bit_row f v b k j) 8) 8) 256

set_bit_table : bit_table set_bit true ≡ true
unfolding holds_below set_bit same
set_bit_table = refl

clear_bit_table : bit_table clear_bit false ≡ true
unfolding holds_below clear_bit same
clear_bit_table = refl

and_left : (a b : Bool) → a && b ≡ true → a ≡ true
and_left a b h = ground arith

and_right : (a b : Bool) → a && b ≡ true → b ≡ true
and_right a b h = ground arith

module _ (f : ℕ → ℕ → ℕ) (v : Bool) (table : bit_table f v ≡ true) where
  bit_rows :
      (b k : ℕ) → b < 256 → k < 8 → ltb (f b k) 256 && holds_below (λ j. bit_row f v b k j) 8 ≡ true
  bit_rows b k hb hk = at_holds_below _ 8 hk (at_holds_below _ 256 hb table)

  bit-lt : (b k : ℕ) → b < 256 → k < 8 → f b k < 256
  bit-lt b k hb hk = ltb→lt _ _ (and_left _ _ (bit_rows b k hb hk))

  bit-test :
      (b k j : ℕ)
      → b < 256
      → k < 8
      → j < 8
      → test_bit (f b k) j ≡ (if k == j then v else test_bit b j)
  bit-test b k j hb hk hj =
      same_sound _ _ (at_holds_below _ 8 hj (and_right _ _ (bit_rows b k hb hk)))

pub set_bit-lt : (b k : ℕ) → b < 256 → k < 8 → set_bit b k < 256
set_bit-lt = bit-lt set_bit true set_bit_table

pub clear_bit-lt : (b k : ℕ) → b < 256 → k < 8 → clear_bit b k < 256
clear_bit-lt = bit-lt clear_bit false clear_bit_table

-- Setting or clearing one bit of a byte leaves its other bits.
pub test_bit-set_bit :
    (b k j : ℕ)
    → b < 256
    → k < 8
    → j < 8
    → test_bit (set_bit b k) j ≡ (if k == j then true else test_bit b j)
test_bit-set_bit = bit-test set_bit true set_bit_table

pub test_bit-clear_bit :
    (b k j : ℕ)
    → b < 256
    → k < 8
    → j < 8
    → test_bit (clear_bit b k) j ≡ (if k == j then false else test_bit b j)
test_bit-clear_bit = bit-test clear_bit false clear_bit_table
