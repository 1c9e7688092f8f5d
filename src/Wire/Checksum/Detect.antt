-- ===== src/Wire/Checksum/Detect.antt =====
-- What `rsvp_checksum` and `rsvp_checksum_verify` of src/pi/rsvp_builder.c promise each other: a
-- message with its checksum is accepted, and one damaged word is noticed.
use rsvp_te.Prelude.{
  ℕ, ◌+◌, ◌-◌, ◌*◌, ◌/◌, ◌%◌, ◌^◌, ◌<◌, ◌≡◌, ◌↔◌, ◌⊎◌, inl, inr, true, List, [], ◌∷◌, ◌++◌, arith,
  length, AllBytes, length-append,
}
use rsvp_te.Wire.Checksum.{sum_words, complement, rsvp_checksum, rsvp_checksum_verify}
use rsvp_te.Wire.Checksum.Sum.{word_sum, ones_sum, word_sum-le, sum_words-eq, complement_lem}

complement-sum_words :
    (s : ℕ) (bs : List ℕ)
    → AllBytes bs
    → s + length bs * 65535 < 2 ^ 32
    → complement (sum_words s bs) ≡ 65535 - ones_sum (s + word_sum bs)
complement-sum_words s bs a h =
    rw (sum_words-eq s bs a h) (complement_lem (s + word_sum bs) (omega (arith, word_sum-le bs a)))

-- Over fewer than 2 ^ 16 bytes `rsvp_checksum` is the Internet checksum: the two bytes of 65535
-- less the one's complement sum of the words, though the code sums in 32 bits and folds.
pub rsvp_checksum_ref :
    (bs : List ℕ)
    → AllBytes bs
    → length bs < 2 ^ 16
    → let sum = 65535 - ones_sum (word_sum bs) in rsvp_checksum bs ≡ sum / 256 ∷ sum % 256 ∷ []
unfolding rsvp_checksum
rsvp_checksum_ref bs a h = rw (complement-sum_words 0 bs a (omega arith)) (ground arith)

-- `rsvp_checksum_verify` accepts a message of fewer than 2 ^ 16 bytes exactly when its checksum
-- field is 65535 less the one's complement sum of all its other words.
pub verify_iff :
    (a b c d : ℕ) (rest : List ℕ)
    → AllBytes (a ∷ b ∷ c ∷ d ∷ rest)
    → length (a ∷ b ∷ c ∷ d ∷ rest) < 2 ^ 16
    → (rsvp_checksum_verify (a ∷ b ∷ c ∷ d ∷ rest) ≡ true)
      ↔ (c * 256 + d ≡ 65535 - ones_sum (a * 256 + b + word_sum rest))
unfolding rsvp_checksum_verify
verify_iff a b c d rest h l =
    rw (complement-sum_words (a * 256 + b) rest h.1.1.1.1 (omega arith)) (ground arith)

-- What the sender does, a checksum over the message with a zero field, written into that field,
-- makes a message that the receiver accepts.
pub verify-checksum :
    (a b c d : ℕ) (rest : List ℕ)
    → a < 256
    → b < 256
    → rsvp_checksum (a ∷ b ∷ 0 ∷ 0 ∷ rest) ≡ c ∷ d ∷ []
    → rsvp_checksum_verify (a ∷ b ∷ c ∷ d ∷ rest) ≡ true
unfolding rsvp_checksum rsvp_checksum_verify sum_words
verify-checksum a b c d rest ha hb e =
    let s : ((0 + (a * 256 + b)) % 2 ^ 32 + (0 * 256 + 0)) % 2 ^ 32 ≡ a * 256 + b = omega arith in
    let e' = rw s at e in ground arith

word_sum-append :
    (pre rest : List ℕ) → length pre % 2 ≡ 0 → word_sum (pre ++ rest) ≡ word_sum pre + word_sum rest
word_sum-append [] rest e = omega arith
word_sum-append (x ∷ []) rest e = absurd (omega arith)
word_sum-append (x ∷ y ∷ pre) rest e = omega (arith, word_sum-append pre rest (omega arith))

ones_sum-cancel :
    (s w w' : ℕ)
    → w < 2 ^ 16
    → w' < 2 ^ 16
    → 65535 - ones_sum (s + w) ≡ 65535 - ones_sum (s + w')
    → (w ≡ w') ⊎ ((w ≡ 0) × (w' ≡ 65535)) ⊎ ((w ≡ 65535) × (w' ≡ 0))
ones_sum-cancel s w w' h h' e = ground arith

AllBytes-drop : (pre rest : List ℕ) → AllBytes (pre ++ rest) → AllBytes rest
AllBytes-drop [] rest h = h
AllBytes-drop (x ∷ pre) rest h = AllBytes-drop pre rest h.1

-- What the checksum field of an accepted message says of the word after `pre`.
field_of_word :
    (a b c d x y : ℕ) (pre post : List ℕ)
    → AllBytes (a ∷ b ∷ c ∷ d ∷ pre ++ x ∷ y ∷ post)
    → length (pre ++ x ∷ y ∷ post) + 4 < 2 ^ 16
    → length pre % 2 ≡ 0
    → rsvp_checksum_verify (a ∷ b ∷ c ∷ d ∷ pre ++ x ∷ y ∷ post) ≡ true
    → c * 256 + d ≡ 65535 - ones_sum (a * 256 + b + word_sum pre + word_sum post + (x * 256 + y))
field_of_word a b c d x y pre post h l even v =
    let field = (verify_iff a b c d (pre ++ x ∷ y ∷ post) h (omega arith)).0 v in
    let e : a * 256 + b + word_sum (pre ++ x ∷ y ∷ post)
        ≡ a * 256 + b + word_sum pre + word_sum post + (x * 256 + y) =
      omega (arith, word_sum-append pre (x ∷ y ∷ post) even) in
    rw e at field

-- Of two messages that `rsvp_checksum_verify` takes for right and that differ in one aligned 16-bit word past
-- the checksum field, one has 0 there and the other 65535: `rsvp_checksum_verify` notices any other change of
-- one word. The parser calls it unless the checksum field is 0.
pub verify_detects :
    (a b c d x y x' y' : ℕ) (pre post : List ℕ)
    → AllBytes (a ∷ b ∷ c ∷ d ∷ pre ++ x ∷ y ∷ post)
    → AllBytes (a ∷ b ∷ c ∷ d ∷ pre ++ x' ∷ y' ∷ post)
    → length (pre ++ x ∷ y ∷ post) + 4 < 2 ^ 16
    → length pre % 2 ≡ 0
    → rsvp_checksum_verify (a ∷ b ∷ c ∷ d ∷ pre ++ x ∷ y ∷ post) ≡ true
    → rsvp_checksum_verify (a ∷ b ∷ c ∷ d ∷ pre ++ x' ∷ y' ∷ post) ≡ true
    → ((x ≡ x') × (y ≡ y'))
      ⊎ ((x * 256 + y ≡ 0) × (x' * 256 + y' ≡ 65535))
      ⊎ ((x * 256 + y ≡ 65535) × (x' * 256 + y' ≡ 0))
verify_detects a b c d x y x' y' pre post h h' l even v v' =
    let bytes = AllBytes-drop pre (x ∷ y ∷ post) h.1.1.1.1 in
    let bytes' = AllBytes-drop pre (x' ∷ y' ∷ post) h'.1.1.1.1 in
    let field = field_of_word a b c d x y pre post h l even v in
    let field' =
      field_of_word a b c d x' y' pre post h'
        (omega (arith, length-append pre (x ∷ y ∷ post), length-append pre (x' ∷ y' ∷ post))) even
        v' in
    elim (ones_sum-cancel (a * 256 + b + word_sum pre + word_sum post) (x * 256 + y) (x' * 256 + y')
      (omega arith) (omega arith) (omega arith)) [
        | inl e ↦ inl (omega arith, omega arith)
        | inr r ↦ inr r
      ]
