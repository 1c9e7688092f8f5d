-- ===== src/Wire/Builder/Layout.antt =====
-- Where `rsvp_builder_add_obj` of src/pi/rsvp_builder.c puts an object, and that it stays inside
-- the buffer.
use rsvp_te.Prelude.{
  ℕ, ◌+◌, ◌-◌, ◌≤◌, ◌<◌, ◌≡◌, refl, sym, ◌∙◌, true, false, List, ◌++◌, arith, ltb, length,
  replicate, write_at, length-append, length-replicate, write_at-append, overlay-replicate,
  replicate-add, append_assoc, Bool-cases, inl, inr, ◌⊎◌,
}
use rsvp_te.Wire.{align, obj_hdr_len}
use rsvp_te.Wire.Builder.{Builder, obj_hdr, rsvp_builder_add_obj}

-- The bytes that an object takes up on the wire, padding included.
abbrev pub padding : ℕ → ℕ
padding n = align (obj_hdr_len + n) - (obj_hdr_len + n)

unfoldable pub encode_obj : ℕ → ℕ → List ℕ → List ℕ
encode_obj class_num c_type payload =
    obj_hdr (obj_hdr_len + length payload) class_num c_type
    ++ payload
    ++ replicate (padding (length payload)) 0

-- The buffer holds a header of 8 bytes, then the objects `body`, then `room` zero bytes.
pub record Holds (b : Builder) (hdr body : List ℕ) (room : ℕ) : Type 0 where
  pub hdr_8 : length hdr ≡ 8
  pub bytes : b.buffer ≡ hdr ++ body ++ replicate room 0
  pub used : b.offset ≡ 8 + length body
  pub total : b.size ≡ 8 + length body + room

pub length-encode_obj :
    (class_num c_type : ℕ) (payload : List ℕ)
    → length (encode_obj class_num c_type payload) ≡ align (obj_hdr_len + length payload)
unfolding encode_obj
length-encode_obj class_num c_type payload = omega (
  arith,
  length-append (obj_hdr (obj_hdr_len + length payload) class_num c_type ++ payload)
      (replicate (padding (length payload)) 0),
  length-append (obj_hdr (obj_hdr_len + length payload) class_num c_type) payload,
  length-replicate {A = ℕ} (padding (length payload)) 0,
)

-- One write into cleared memory.
one_write :
    (pre one : List ℕ) (room off : ℕ)
    → length one ≤ room
    → off ≡ length pre
    → write_at (pre ++ replicate room 0) off one ≡ (pre ++ one) ++ replicate (room - length one) 0
one_write pre one room off h e =
    rw (e, write_at-append pre (replicate room 0) one, overlay-replicate one room 0 h)
      (sym (append_assoc pre one (replicate (room - length one) 0)))

-- The header and the payload written one after the other, with the padding split off the rest.
object_writes :
    (pre head payload : List ℕ) (room pad rest off : ℕ)
    → off ≡ length pre
    → room ≡ length head + length payload + pad + rest
    → write_at (write_at (pre ++ replicate room 0) off head) (off + length head) payload
      ≡ pre ++ (head ++ payload ++ replicate pad 0) ++ replicate rest 0
object_writes pre head payload room pad rest off e r =
    let left : room - length head - length payload ≡ pad + rest = omega arith in
    rw
      (
        one_write pre head room off (omega arith) e,
        one_write (pre ++ head) payload (room - length head) (off + length head) (omega arith)
            (omega (arith, length-append pre head)),
        left,
        replicate-add pad rest (let z : ℕ = 0 in z),
      )
      (simp append_assoc)

-- `rsvp_builder_add_obj` in a builder whose buffer is laid out like that: it reports failure
-- exactly when the padded object does not fit, and then changes nothing; otherwise the object, its
-- length field without the padding, is appended to those already there, and nothing else changes.
pub add_obj-Holds :
    {b : Builder} {hdr body : List ℕ} {room : ℕ} (class_num c_type : ℕ) (payload : List ℕ)
    → Holds b hdr body room
    → let (ok, b') = rsvp_builder_add_obj b class_num c_type payload in
      let len = align (obj_hdr_len + length payload) in
      ((ok ≡ false) × (room < len) × (b' ≡ b))
      ⊎ ((ok ≡ true)
          × (len ≤ room)
          × Holds b' hdr (body ++ encode_obj class_num c_type payload) (room - len))
unfolding rsvp_builder_add_obj encode_obj
add_obj-Holds {b} {hdr} {body} {room} class_num c_type payload h =
    elim (Bool-cases (ltb b.size (b.offset + align (obj_hdr_len + length payload)))) [
      | inl full ↦ rw full (inl (refl, ground arith, refl))
      | inr fits ↦ rw fits (
          inr (
            refl,
            ground arith,
            record {
              hdr_8 = h.hdr_8;
              bytes = rw h.bytes (
                  object_writes (hdr ++ body)
                    (obj_hdr (obj_hdr_len + length payload) class_num c_type) payload room
                    (padding (length payload)) (room - align (obj_hdr_len + length payload))
                    b.offset (omega (arith, length-append hdr body)) (ground arith)
                  ∙ simp append_assoc);
              used = omega (
                arith,
                h.used,
                length-append body (encode_obj class_num c_type payload),
                length-encode_obj class_num c_type payload,
              );
              total = ground (
                arith,
                length-append body (encode_obj class_num c_type payload),
                length-encode_obj class_num c_type payload,
              );
            },
          ))
    ]
