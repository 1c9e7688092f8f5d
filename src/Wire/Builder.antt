-- ===== src/Wire/Builder.antt =====
-- src/pi/rsvp_builder.c: a message is built in a caller's buffer, object by object. The buffer is
-- a list of bytes; `memset`, `memcpy` and the stores through header pointers write into it in place.
pub mod Objects
pub mod Layout
pub mod Finish
mod Tests
use rsvp_te.Prelude.{
  ℕ, ◌+◌, ◌*◌, ◌/◌, ◌%◌, ◌^◌, Bool, true, false, List, [], ◌∷◌, ltb, if◌then◌else◌, length, take,
  replicate, write_at,
}
use rsvp_te.Wire.{be16, align, hdr_len, obj_hdr_len}
use rsvp_te.Wire.Checksum.{rsvp_checksum}

-- `struct rsvp_builder`; its `hdr` is the start of the buffer.
pub record Builder : Type 0 where
  pub buffer : List ℕ
  pub size : ℕ
  pub offset : ℕ

-- The caller's buffer has `size` bytes, all cleared. `ver_flags`, `msg_type` and `ttl` are bytes
-- 0, 1 and 4 of the header.
unfoldable pub rsvp_builder_init : ℕ → ℕ → Builder
rsvp_builder_init size msg_type = record {
  buffer =
      write_at (write_at (write_at (replicate size 0) 0 (16 ∷ [])) 1 (msg_type ∷ [])) 4 (255 ∷ []);
  size = size;
  offset = hdr_len;
}

-- The object header: the length without padding, the class and the C-Type.
abbrev pub obj_hdr : ℕ → ℕ → ℕ → List ℕ
obj_hdr len class_num c_type =
    len % 2 ^ 16 / 256 % 256 ∷ len % 2 ^ 16 % 256 ∷ class_num ∷ c_type ∷ []

-- True where the function returns 0, false where it returns -1.
unfoldable pub rsvp_builder_add_obj : Builder → ℕ → ℕ → List ℕ → Bool × Builder
rsvp_builder_add_obj b class_num c_type payload =
    let obj_total_len = obj_hdr_len + length payload in
    let aligned_len = align obj_total_len in
    if ltb b.size (b.offset + aligned_len) then (false, b) else (
      true,
      record b {
        buffer =
            write_at (write_at b.buffer b.offset (obj_hdr obj_total_len class_num c_type))
              (b.offset + obj_hdr_len) payload;
        offset = b.offset + aligned_len;
      },
    )

-- `hdr->length = htons(offset)`, a zero checksum, then the checksum of the whole message.
unfoldable pub rsvp_builder_finalize : Builder → ℕ × Builder
rsvp_builder_finalize b =
    let sized = write_at b.buffer 6 (be16 (b.offset % 2 ^ 16)) in
    let cleared = write_at sized 2 (0 ∷ 0 ∷ []) in
    (b.offset, record b { buffer = write_at cleared 2 (rsvp_checksum (take b.offset cleared)) })
