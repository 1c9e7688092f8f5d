-- ===== src/Wire/Parser/Ensures.antt =====
-- A postcondition for the results of src/pi/rsvp_parser.c, with a rule for each way they are made.
use rsvp_te.Prelude.{
  ℕ, zero, suc, ◌≡◌, Bool, true, false, List, if◌then◌else◌, length, ltb, ◌||◌, Bool-cases, inl,
  inr, subst,
}
use rsvp_te.Wire.{read16, align, obj_hdr_len}
use rsvp_te.Prelude.{drop}
use rsvp_te.Wire.Parser.{ParseError, Result, ok, err, out_of_fuel, ◌>>=◌, MessageInfo}
use rsvp_te.Wire.Parser.Store.{store_object}
use rsvp_te.Wire.Parser.Loop.{parse_objects}

-- Every successful result has the property.
pub data Ensures {A : Type 0} (P : A → Type 0) : Result A → Type 0 where
  on_ok : {a : A} → P a → Ensures P (ok a)
  on_err : (e : ParseError) → Ensures P (err e)
  on_fuel : Ensures P out_of_fuel

abbrev pub HoldsIfOk : {A : Type 0} → (A → Type 0) → Result A → Type 0
HoldsIfOk P (ok a) = P a
HoldsIfOk P (err e) = Unit {0}
HoldsIfOk P out_of_fuel = Unit {0}

read_off : {A : Type 0} {P : A → Type 0} {r : Result A} → Ensures P r → HoldsIfOk P r
read_off (on_ok p) = p
read_off (on_err e) = tt
read_off on_fuel = tt

-- What a postcondition says of a result that is known.
pub Ensures-ok : {A : Type 0} {P : A → Type 0} {r : Result A} {a : A} → Ensures P r → r ≡ ok a → P a
Ensures-ok {P = P} h e = read_off (subst (Ensures P) e h)

module _ {A : Type 0} {P : A → Type 0} where
  pub Ensures-if :
      (b : Bool) {x y : Result A} → Ensures P x → Ensures P y → Ensures P (if b then x else y)
  Ensures-if true hx hy = hx
  Ensures-if false hx hy = hy

  pub Ensures-bind :
      {B : Type 0} {Q : B → Type 0} {m : Result B} {f : B → Result A}
      → Ensures Q m
      → ((b : B) → Q b → Ensures P (f b))
      → Ensures P (m >>= f)
  Ensures-bind (on_ok {a = b} q) k = k b q
  Ensures-bind (on_err e) k = on_err e
  Ensures-bind on_fuel k = on_fuel

-- An invariant of one `store_object` holds after the loop.
module _ (P : MessageInfo → Type 0)
    (keep : (info : MessageInfo) (c t : ℕ) (obj : List ℕ)
      → P info
      → Ensures P (store_object info c t obj)) where
  pub parse_objects-Ensures :
      (fuel : ℕ) (rest : List ℕ) (info : MessageInfo)
      → P info
      → Ensures P (parse_objects fuel rest info)
  unfolding parse_objects
  parse_objects-Ensures zero rest info p = on_fuel
  parse_objects-Ensures (suc fuel) rest info p = elim (Bool-cases (ltb (length rest) obj_hdr_len)) [
    | inl short ↦ rw (short, parse_objects) (on_ok p)
    | inr more ↦
        rw (more, parse_objects)
          (Ensures-if (ltb (read16 rest 0) obj_hdr_len || ltb (length rest) (read16 rest 0))
            (on_err _)
            (Ensures-bind (keep info _ _ _ p) λ info' p'. Ensures-if _ (on_err _) (
              Ensures-if _ (on_ok p')
                (parse_objects-Ensures fuel (drop (align (read16 rest 0)) rest) info' p'))))
  ]
