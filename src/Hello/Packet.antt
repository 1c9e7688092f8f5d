-- ===== src/Hello/Packet.antt =====
-- What `send_hello` of src/pi/rsvp_hello.c sends, as src/pi/rsvp_parser.c of the peer reads it.
use rsvp_te.Prelude.{
  ℕ, ◌*◌, ◌%◌, ◌^◌, ◌≤◌, ◌<◌, ◌≡◌, refl, some, List, [], ◌∷◌, ◌++◌, length, take, arith, ◌∙◌, ◌==◌,
  ◌||◌, true,
}
use rsvp_te.Wire.{be32, read8, read32, class_hello, msg_hello}
use rsvp_te.Wire.Builder.{rsvp_builder_init, rsvp_builder_add_obj}
use rsvp_te.Wire.Parser.{MessageInfo, ok}
use rsvp_te.Wire.Parser.Store.{store_object, store_hello}
use rsvp_te.Wire.Parser.Loop.{rsvp_parse_packet, has_mandatory}
use rsvp_te.Wire.Parser.Required.{start_info}
use rsvp_te.Wire.RoundTrip.{Obj, store_all, encode_all}
use rsvp_te.Wire.Builder.Layout.{encode_obj}
use rsvp_te.Wire.RoundTrip.Build.{build_message, add_all, parse-build_message}
use rsvp_te.Hello.{Neighbor, hello_message}

-- What the receiver knows of the Hello object.
pub record Read (packet : List ℕ) (c_type src_instance dst_instance : ℕ) : Type 0 where
  pub info : MessageInfo
  pub parsed : rsvp_parse_packet packet ≡ ok info
  pub obj : List ℕ
  pub hello_obj : info.hello_obj ≡ some obj
  pub hello_ctype : info.hello_ctype ≡ c_type
  pub src : read32 obj 0 ≡ src_instance
  pub dst : read32 obj 4 ≡ dst_instance

abbrev hello_objs : Neighbor → ℕ → List Obj
hello_objs n c_type =
    record {
      class_num = class_hello;
      c_type = c_type;
      payload = be32 n.src_instance ++ be32 n.dst_instance;
    }
    ∷ []

hello_message_eq :
    (n : Neighbor) (c_type : ℕ)
    → let (len, b) = build_message 128 msg_hello (hello_objs n c_type) in
      hello_message n c_type ≡ some (take len b.buffer)
unfolding hello_message build_message add_all rsvp_builder_add_obj rsvp_builder_init
hello_message_eq n c_type = refl

stored :
    (n : Neighbor) (c_type : ℕ) (packet : List ℕ)
    → (c_type == 1 || c_type == 2) ≡ true
    → store_all (hello_objs n c_type) (start_info packet)
      ≡ ok (record (start_info packet) {
        hello_obj = some (be32 n.src_instance ++ be32 n.dst_instance);
        hello_ctype = c_type;
      })
unfolding store_all store_object store_hello
stored n c_type packet e = rw e refl

-- The REQUEST or ACK that `send_hello` makes fits in its buffer, and a receiver that finds it behind
-- an IP header of at least 20 bytes reads the same C-Type and the same two 32-bit instances.
pub hello_message-Read :
    (n : Neighbor) (c_type : ℕ) (ip : List ℕ)
    → (c_type == 1 || c_type == 2) ≡ true
    → n.src_instance < 2 ^ 32
    → n.dst_instance < 2 ^ 32
    → length ip ≡ read8 ip 0 % 16 * 4
    → 20 ≤ length ip
    → (msg : List ℕ) × (hello_message n c_type ≡ some msg)
      × Read (ip ++ msg) c_type n.src_instance n.dst_instance
unfolding encode_all encode_obj has_mandatory
hello_message-Read n c_type ip request_or_ack hs hd e h20 =
    let (len, b) = build_message 128 msg_hello (hello_objs n c_type) in
    let parsed =
      parse-build_message 120 msg_hello (hello_objs n c_type) ip (omega arith) (omega arith)
        (omega arith) (omega arith) e h20 in
    (
      take len b.buffer,
      hello_message_eq n c_type,
      record {
        info = record (start_info (ip ++ take len b.buffer)) {
          hello_obj = some (be32 n.src_instance ++ be32 n.dst_instance);
          hello_ctype = c_type;
        };
        parsed = parsed ∙ rw (stored n c_type (ip ++ take len b.buffer) request_or_ack) refl;
        obj = be32 n.src_instance ++ be32 n.dst_instance;
        hello_obj = refl;
        hello_ctype = refl;
        src = omega arith;
        dst = omega arith;
      },
    )
