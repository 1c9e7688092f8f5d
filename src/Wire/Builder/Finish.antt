-- ===== src/Wire/Builder/Finish.antt =====
-- The header of a message of src/pi/rsvp_builder.c: `rsvp_builder_init` and `rsvp_builder_finalize`.
use rsvp_te.Prelude.{
  ℕ, suc, ◌+◌, ◌/◌, ◌%◌, ◌^◌, ◌<◌, ◌≡◌, refl, true, List, [], ◌∷◌, ◌++◌, arith, length, take,
  replicate, length-append, take-prefix,
}
use rsvp_te.Wire.{be16}
use rsvp_te.Wire.Checksum.{rsvp_checksum, rsvp_checksum_verify, complement, sum_words}
use rsvp_te.Wire.Checksum.Detect.{verify-checksum}
use rsvp_te.Wire.Builder.{Builder, rsvp_builder_init, rsvp_builder_finalize}
use rsvp_te.Wire.Builder.Layout.{Holds}

-- The header before and after `rsvp_builder_finalize`; the checksum is bytes 2 and 3.
abbrev pub open_hdr : ℕ → List ℕ
open_hdr msg_type = 16 ∷ msg_type ∷ 0 ∷ 0 ∷ 255 ∷ 0 ∷ 0 ∷ 0 ∷ []

abbrev pub sized_hdr : ℕ → ℕ → ℕ → ℕ → List ℕ
sized_hdr msg_type c d len = 16 ∷ msg_type ∷ c ∷ d ∷ 255 ∷ 0 ∷ be16 len

-- `rsvp_builder_init` on a buffer of at least 8 bytes leaves the header and no objects.
pub init-Holds :
    (room msg_type : ℕ) → Holds (rsvp_builder_init (8 + room) msg_type) (open_hdr msg_type) [] room
unfolding rsvp_builder_init
init-Holds room msg_type =
    let e : 8 + room ≡ suc (suc (suc (suc (suc (suc (suc (suc room))))))) = omega arith in
    record { hdr_8 = refl; bytes = rw e; used = refl; total = refl }

-- The bytes of the message, of which the buffer starts with as many as the length field says.
pub take-message :
    {b : Builder} {hdr body : List ℕ} {room : ℕ}
    → Holds b hdr body room
    → take b.offset b.buffer ≡ hdr ++ body
take-message {b} {hdr} {body} {room} h = rw h.bytes (
    take-prefix (hdr ++ body) (replicate room 0) b.offset
      (omega (arith, length-append hdr body, h.used, h.hdr_8)))

-- `rsvp_builder_finalize` on a message of fewer than 2 ^ 16 bytes with a byte for its type: it
-- returns the message's length, fills in that length and a checksum that
-- `rsvp_checksum_verify` accepts, and leaves the objects as they are.
pub finalize_lem :
    {b : Builder} {msg_type room : ℕ} {body : List ℕ}
    → Holds b (open_hdr msg_type) body room
    → msg_type < 256
    → b.offset < 2 ^ 16
    → let (len, b') = rsvp_builder_finalize b in
      (len ≡ 8 + length body)
      × ((c : ℕ) × (d : ℕ) × (c < 256)
          × (d < 256)
          × Holds b' (sized_hdr msg_type c d len) body room
          × (rsvp_checksum_verify (sized_hdr msg_type c d len ++ body) ≡ true))
unfolding rsvp_builder_finalize rsvp_checksum
finalize_lem {b} {msg_type} {room} {body} h t s =
    let small : b.offset % 2 ^ 16 ≡ b.offset = omega arith in
    let c =
      complement (sum_words 0 (16 ∷ msg_type ∷ 0 ∷ 0 ∷ 255 ∷ 0 ∷ be16 b.offset ++ body))
      / 256
      % 256 in
    let d =
      complement (sum_words 0 (16 ∷ msg_type ∷ 0 ∷ 0 ∷ 255 ∷ 0 ∷ be16 b.offset ++ body)) % 256 in
    let taken : take b.offset
          (16 ∷ msg_type ∷ 0 ∷ 0 ∷ 255 ∷ 0 ∷ be16 b.offset ++ body ++ replicate room 0)
        ≡ 16 ∷ msg_type ∷ 0 ∷ 0 ∷ 255 ∷ 0 ∷ be16 b.offset ++ body =
      take-prefix (16 ∷ msg_type ∷ 0 ∷ 0 ∷ 255 ∷ 0 ∷ be16 b.offset ++ body) (replicate room 0)
        b.offset (omega (arith, h.used)) in
    (
      h.used,
      (
        c,
        d,
        omega arith,
        omega arith,
        record { hdr_8 = refl; bytes = rw (h.bytes, small, taken); used = h.used; total = h.total },
        verify-checksum 16 msg_type c d (255 ∷ 0 ∷ be16 b.offset ++ body) (omega arith) t refl,
      ),
    )
