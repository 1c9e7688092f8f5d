-- ===== src/Wire/Parser/First.antt =====
-- Which objects of a packet name the path in src/pi/rsvp_parser.c: the first SESSION and the first
-- SENDER_TEMPLATE or FILTER_SPEC.
use rsvp_te.Prelude.{
  ℕ, zero, suc, ◌-◌, ◌<◌, ◌≡◌, refl, sym, ap, ◌∙◌, subst, Bool, true, false, List, ltb, leb, ◌==◌,
  ◌&&◌, ◌||◌, if◌then◌else◌, length, take, drop, length-drop, Option, none, some, arith,
  Option-cases, Bool-cases, inl, inr,
}
use rsvp_te.Wire.{
  read8, read16, align, obj_hdr_len, class_session, class_sender_template, class_filter_spec,
  class_session_attrib, class_hello,
}
use rsvp_te.Wire.Parser.{Result, ParseError, malformed_obj, ok, PathKey, MessageInfo, zero_key}
use rsvp_te.Wire.Parser.Store.{
  Slot, slot_of, put, integrity, store_object, store_plain, store_session, store_sender,
  store_sess_attr, store_hello, set_session, set_sender,
}
use rsvp_te.Wire.Parser.Ensures.{
  Ensures, on_ok, on_err, on_fuel, Ensures-ok, Ensures-if, Ensures-bind,
}
use rsvp_te.Wire.Parser.Loop.{
  has_mandatory, parse_objects, parse_message, rsvp_parse_packet, require,
}
use rsvp_te.Wire.Parser.Safety.{parse_packet-Ensures}
use rsvp_te.Wire.Parser.Required.{message_of, start_info, packet_cases}

-- The key that the SESSION and the SENDER_TEMPLATE spell, zero for one that is missing.
abbrev pub key_from : Option (List ℕ) → Option (List ℕ) → PathKey
key_from none none = zero_key
key_from none (some r) = set_sender zero_key r
key_from (some s) none = set_session zero_key s
key_from (some s) (some r) = set_sender (set_session zero_key s) r

abbrev pub Keyed : MessageInfo → Type 0
Keyed info = info.key ≡ key_from info.sess_v4 info.sender_v4

put-Keyed :
    (slot : Slot) (accepted : Bool) (obj : List ℕ) (info : MessageInfo)
    → Keyed info
    → Keyed (put slot accepted obj info)
unfolding put
put-Keyed integrity accepted obj info k = k
put-Keyed _ accepted obj info k = k

store_plain-Keyed :
    (info : MessageInfo) (c t : ℕ) (obj : List ℕ)
    → Keyed info
    → Ensures Keyed (store_plain info c t obj)
unfolding store_plain
store_plain-Keyed info c t obj k = elim (Option-cases (slot_of c)) [
  | inl e ↦ rw (e, store_plain) (Ensures-if (ltb c 128) (on_err _) (on_ok k))
  | inr (slot, e) ↦ rw (e, store_plain) (on_ok (put-Keyed slot _ obj info k))
]

store_session-Keyed :
    (info : MessageInfo) (t : ℕ) (obj : List ℕ) → Keyed info → Keyed (store_session info t obj)
unfolding store_session
store_session-Keyed info t obj k = ground arith

store_sender-Keyed :
    (info : MessageInfo) (t : ℕ) (obj : List ℕ) → Keyed info → Keyed (store_sender info t obj)
unfolding store_sender
store_sender-Keyed info t obj k = ground arith

store_hello-Keyed :
    (info : MessageInfo) (t : ℕ) (obj : List ℕ) → Keyed info → Keyed (store_hello info t obj)
unfolding store_hello
store_hello-Keyed info t obj k = ground arith

store_sess_attr-Keyed :
    (info : MessageInfo) (t : ℕ) (obj : List ℕ) → Keyed info → Keyed (store_sess_attr info t obj)
unfolding store_sess_attr
store_sess_attr-Keyed info t obj k = ground arith

store_object-Keyed :
    (info : MessageInfo) (c t : ℕ) (obj : List ℕ)
    → Keyed info
    → Ensures Keyed (store_object info c t obj)
unfolding store_object
store_object-Keyed info c t obj k =
    search
      (
        Ensures-if, on_ok, store_session-Keyed, store_sender-Keyed, store_sess_attr-Keyed,
        store_hello-Keyed, store_plain-Keyed,
      )
      depth 8

key_kept : (buffer : List ℕ) (info : MessageInfo) → rsvp_parse_packet buffer ≡ ok info → Keyed info
key_kept buffer info =
    Ensures-ok (parse_packet-Ensures Keyed store_object-Keyed buffer (λ _ _ _ _. refl))

-- A test on class, C-Type and payload.
abbrev Test : Type 0
Test = ℕ → ℕ → List ℕ → Bool

abbrev pub is_session : Test
is_session c t obj = c == class_session && (t == 7 && leb 12 (length obj))

abbrev pub is_sender : Test
is_sender c t obj =
    (c == class_sender_template || c == class_filter_spec)
    && ((t == 1 || t == 7) && leb 8 (length obj))

-- The payload of the first object that passes the test; each object has a header of 4 bytes that gives its
-- length, and is padded to a multiple of 4.
unfoldable pub first_object : Test → ℕ → List ℕ → Option (List ℕ)
first_object test zero rest = none
first_object test (suc fuel) rest =
    let later = first_object test fuel (drop (align (read16 rest 0)) rest) in
    let obj = take (read16 rest 0 - obj_hdr_len) (drop obj_hdr_len rest) in
    if ltb (length rest) obj_hdr_len
    then none
    else if test (read8 rest 2) (read8 rest 3) obj
    then some obj
    else later

-- The same in a message, with as many rounds as the walk over it can take.
abbrev pub first_in : Test → List ℕ → Option (List ℕ)
first_in test msg = first_object test (suc (length msg)) (drop 8 msg)

abbrev or_else : Option (List ℕ) → Option (List ℕ) → Option (List ℕ)
or_else none b = b
or_else (some a) b = some a

or_else-step :
    (a : Option (List ℕ)) (test : Bool) (obj : List ℕ) (later : Option (List ℕ))
    → or_else (or_else a (if test then some obj else none)) later
      ≡ or_else a (if test then some obj else later)
or_else-step none true obj later = refl
or_else-step none false obj later = refl
or_else-step (some a) test obj later = refl

or_else-none : (a : Option (List ℕ)) → or_else a none ≡ a
or_else-none none = refl
or_else-none (some a) = refl

-- The two slots after objects of which `s` and `r` are the first.
record Slots (info : MessageInfo) (s r : Option (List ℕ)) (info' : MessageInfo) : Type 0 where
  session : info'.sess_v4 ≡ or_else info.sess_v4 s
  sender : info'.sender_v4 ≡ or_else info.sender_v4 r

abbrev passed : Test → ℕ → ℕ → List ℕ → Option (List ℕ)
passed test c t obj = if test c t obj then some obj else none

store_session-Slots :
    (info : MessageInfo) (t : ℕ) (obj : List ℕ)
    → Slots info
        (if t == 7 && leb 12 (length obj) then some obj else none)
        none
        (store_session info t obj)
unfolding store_session
store_session-Slots info t obj = ground arith

store_sender-Slots :
    (info : MessageInfo) (t : ℕ) (obj : List ℕ)
    → Slots info none
        (if (t == 1 || t == 7) && leb 8 (length obj) then some obj else none)
        (store_sender info t obj)
unfolding store_sender
store_sender-Slots info t obj = ground arith

store_hello-Slots :
    (info : MessageInfo) (t : ℕ) (obj : List ℕ) → Slots info none none (store_hello info t obj)
unfolding store_hello
store_hello-Slots info t obj = ground arith

store_sess_attr-Slots :
    (info : MessageInfo) (t : ℕ) (obj : List ℕ) → Slots info none none (store_sess_attr info t obj)
unfolding store_sess_attr
store_sess_attr-Slots info t obj = ground arith

put-Slots :
    (slot : Slot) (accepted : Bool) (obj : List ℕ) (info : MessageInfo)
    → Slots info none none (put slot accepted obj info)
unfolding put
put-Slots integrity accepted obj info = record {
  session = sym (or_else-none info.sess_v4);
  sender = sym (or_else-none info.sender_v4);
}
put-Slots _ accepted obj info = record {
  session = sym (or_else-none info.sess_v4);
  sender = sym (or_else-none info.sender_v4);
}

unchanged : (info : MessageInfo) → Slots info none none info
unchanged info = record {
  session = sym (or_else-none info.sess_v4);
  sender = sym (or_else-none info.sender_v4);
}

store_plain-Slots :
    (info : MessageInfo) (c t : ℕ) (obj : List ℕ)
    → Ensures (Slots info none none) (store_plain info c t obj)
unfolding store_plain
store_plain-Slots info c t obj = elim (Option-cases (slot_of c)) [
  | inl e ↦ rw (e, store_plain) (Ensures-if (ltb c 128) (on_err _) (on_ok (unchanged info)))
  | inr (slot, e) ↦ rw (e, store_plain) (on_ok (put-Slots slot _ obj info))
]

store_object-Slots :
    (info : MessageInfo) (c t : ℕ) (obj : List ℕ)
    → Ensures
        (Slots info (passed is_session c t obj) (passed is_sender c t obj))
        (store_object info c t obj)
unfolding store_object
store_object-Slots info c t obj = elim (Bool-cases (c == class_session)) [
  | inl e ↦ let is_1 : c ≡ 1 = ground arith in rw is_1 (on_ok (store_session-Slots info t obj))
  | inr e ↦ elim (Bool-cases (c == class_sender_template)) [
    | inl f ↦ let is_11 : c ≡ 11 = ground arith in rw is_11 (on_ok (store_sender-Slots info t obj))
    | inr f ↦ elim (Bool-cases (c == class_filter_spec)) [
      | inl g ↦
          let is_10 : c ≡ 10 = ground arith in rw is_10 (on_ok (store_sender-Slots info t obj))
      | inr g ↦
          rw (e, f, g)
            (Ensures-if (c == class_session_attrib) (on_ok (store_sess_attr-Slots info t obj)) (
              Ensures-if (c == class_hello) (on_ok (store_hello-Slots info t obj))
                (store_plain-Slots info c t obj)))
    ]
  ]
]

Ensures-if_at :
    {A : Type 0} {P : A → Type 0} (b : Bool) {x y : Result A}
    → (b ≡ true → Ensures P x)
    → Ensures P y
    → Ensures P (if b then x else y)
Ensures-if_at true hx hy = hx refl
Ensures-if_at false hx hy = hy

Ensures-weaken :
    {A : Type 0} {P Q : A → Type 0} {r : Result A}
    → Ensures P r
    → ((a : A) → P a → Q a)
    → Ensures Q r
Ensures-weaken (on_ok {a = a} p) f = on_ok (f a p)
Ensures-weaken (on_err e) f = on_err e
Ensures-weaken on_fuel f = on_fuel

first_object-short :
    (test : Test) (fuel : ℕ) (rest : List ℕ)
    → length rest < obj_hdr_len
    → first_object test fuel rest ≡ none
unfolding first_object
first_object-short test zero rest h = refl
first_object-short test (suc fuel) rest h =
    let short : ltb (length rest) obj_hdr_len ≡ true = ground arith in rw short refl

first_object-over :
    (test : Test) (fuel : ℕ) (rest : List ℕ) (n : ℕ)
    → ltb (length rest) n ≡ true
    → first_object test fuel (drop n rest) ≡ none
first_object-over test fuel rest n h =
    first_object-short test fuel (drop n rest) (ground (arith, length-drop n rest))

-- One object more in front of those of which `s` and `r` are the first.
Slots-step :
    (info info' info'' : MessageInfo) (a b : Bool) (obj : List ℕ) (s r : Option (List ℕ))
    → Slots info (if a then some obj else none) (if b then some obj else none) info'
    → Slots info' s r info''
    → Slots info (if a then some obj else s) (if b then some obj else r) info''
Slots-step info info' info'' a b obj s r one later = record {
  session = later.session ∙ ap (λ o. or_else o s) one.session ∙ or_else-step info.sess_v4 a obj s;
  sender = later.sender ∙ ap (λ o. or_else o r) one.sender ∙ or_else-step info.sender_v4 b obj r;
}

Walked : ℕ → List ℕ → MessageInfo → MessageInfo → Type 0
Walked fuel rest info =
    Slots info (first_object is_session fuel rest) (first_object is_sender fuel rest)

-- The slots of the rest, where the walk stops.
stop-Slots :
    (info : MessageInfo) (s r : Option (List ℕ)) → s ≡ none → r ≡ none → Slots info s r info
stop-Slots info s r es er = rw (es, er) (unchanged info)

parse_objects-Walked :
    (fuel : ℕ) (rest : List ℕ) (info : MessageInfo)
    → Ensures (Walked fuel rest info) (parse_objects fuel rest info)
unfolding parse_objects first_object Walked
parse_objects-Walked zero rest info = on_fuel
parse_objects-Walked (suc fuel) rest info = elim (Bool-cases (ltb (length rest) obj_hdr_len)) [
  | inl short ↦ rw (short, parse_objects) (on_ok (unchanged info))
  | inr more ↦
      let n = align (read16 rest 0) in
      let obj = take (read16 rest 0 - obj_hdr_len) (drop obj_hdr_len rest) in
      let c = read8 rest 2 in
      let t = read8 rest 3 in
      rw (more, parse_objects)
        (Ensures-if (ltb (read16 rest 0) obj_hdr_len || ltb (length rest) (read16 rest 0))
          (on_err _)
          (Ensures-bind (store_object-Slots info c t obj) λ info' one. Ensures-if _ (on_err _) (
            Ensures-if_at (ltb (length rest) n)
              (λ over. on_ok (
                Slots-step info info' info' (is_session c t obj) (is_sender c t obj) obj _ _ one (
                  stop-Slots info' _ _ (first_object-over is_session fuel rest n over)
                    (first_object-over is_sender fuel rest n over))))
              (Ensures-weaken (parse_objects-Walked fuel (drop n rest) info') λ info'' later.
                Slots-step info info' info'' (is_session c t obj) (is_sender c t obj) obj _ _ one
                  later))))
]

abbrev FirstOf : List ℕ → MessageInfo → Type 0
FirstOf msg info =
    (info.sess_v4 ≡ first_in is_session msg) × (info.sender_v4 ≡ first_in is_sender msg)

require-FirstOf :
    (msg : List ℕ) (b : Bool) (e : ParseError) (info : MessageInfo)
    → FirstOf msg info
    → Ensures (FirstOf msg) (require b e info)
require-FirstOf msg true e info p = on_ok p
require-FirstOf msg false e info p = on_err e

parse_message-FirstOf :
    (msg : List ℕ) (info : MessageInfo)
    → info.sess_v4 ≡ none
    → info.sender_v4 ≡ none
    → Ensures (FirstOf msg) (parse_message msg info)
unfolding parse_message Walked
parse_message-FirstOf msg info no_session no_sender =
    let walked = parse_objects-Walked (suc (length msg)) (drop 8 msg) info in
    let checked = λ (parsed : MessageInfo) (w : Walked (suc (length msg)) (drop 8 msg) info parsed).
      require-FirstOf msg (has_mandatory (read8 msg 1) parsed) malformed_obj parsed (
        w.session ∙ ap (λ o. or_else o (first_in is_session msg)) no_session,
        w.sender ∙ ap (λ o. or_else o (first_in is_sender msg)) no_sender,
      ) in
    search (Ensures-if, on_err, Ensures-bind, walked, checked)

parse-FirstOf : (buffer : List ℕ) → Ensures (FirstOf (message_of buffer)) (rsvp_parse_packet buffer)
parse-FirstOf buffer = elim (packet_cases buffer) [
  | inl (e, failed) ↦ subst (Ensures (FirstOf (message_of buffer))) (sym failed) (on_err e)
  | inr (_, _, _, same) ↦
      subst (Ensures (FirstOf (message_of buffer))) (sym same)
        (parse_message-FirstOf (message_of buffer) (start_info buffer) refl refl)
]

-- In the result for an accepted packet the SESSION is the first object of the message with class 1, C-Type 7
-- and at least 12 bytes, the sender is the first with class 11 or 10, C-Type 1 or 7 and at least 8 bytes, and
-- the key is what these two spell, whatever other objects there are.
pub parse-Keyed :
    (buffer : List ℕ) (info : MessageInfo)
    → rsvp_parse_packet buffer ≡ ok info
    → let session = first_in is_session (message_of buffer) in
      let sender = first_in is_sender (message_of buffer) in
      (info.sess_v4 ≡ session) × (info.sender_v4 ≡ sender) × (info.key ≡ key_from session sender)
parse-Keyed buffer info e =
    let (session, sender) = Ensures-ok (parse-FirstOf buffer) e in
    (
      session,
      sender,
      key_kept buffer info e
          ∙ ap (λ o. key_from o info.sender_v4) session
          ∙ ap (key_from (first_in is_session (message_of buffer))) sender,
    )
