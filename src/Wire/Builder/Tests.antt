-- ===== src/Wire/Builder/Tests.antt =====
-- src/pi/rsvp_builder.c at concrete inputs: a Hello in a buffer of 24 bytes.
use rsvp_te.Prelude.{ℕ, ◌+◌, ◌≡◌, refl, List, [], ◌∷◌, ◌++◌}
use rsvp_te.Wire.Checksum.{rsvp_checksum, complement, sum_words, fold_carry}
use rsvp_te.Wire.Builder.{Builder, rsvp_builder_init, rsvp_builder_add_obj, rsvp_builder_finalize}
use rsvp_te.Wire.Builder.Objects.{rsvp_builder_add_hello}

abbrev fresh : Builder
fresh = rsvp_builder_init (8 + 16) 20

abbrev instances : List ℕ
instances = 0 ∷ 0 ∷ 0 ∷ 7 ∷ 0 ∷ 0 ∷ 0 ∷ 9 ∷ []

built_hello :
    (rsvp_builder_finalize (rsvp_builder_add_hello fresh 7 9 1).1).1.buffer
    ≡ 16 ∷ 20 ∷ 218 ∷ 185 ∷ 255 ∷ 0 ∷ 0 ∷ 20 ∷ 0 ∷ 12 ∷ 22 ∷ 1 ∷ instances ++ (0 ∷ 0 ∷ 0 ∷ 0 ∷ [])
unfolding rsvp_builder_init rsvp_builder_add_hello rsvp_builder_add_obj rsvp_builder_finalize
    rsvp_checksum complement sum_words fold_carry
built_hello = refl
