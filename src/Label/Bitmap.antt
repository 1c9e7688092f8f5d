-- ===== src/Label/Bitmap.antt =====
-- The bitmap of src/pi/label_mgr.c as a set of labels: what the two updates do to every test.
use rsvp_te.Prelude.{
  ℕ, ◌/◌, ◌%◌, ◌<◌, ◌≡◌, Bool, Option, none, some, List, arith, ◌==◌, if◌then◌else◌, Bool-cases,
  inl, inr, get_or, length, get_or-set_self, get_or-set_ne, AllBytes, AllBytes-set, AllBytes-get_or,
  test_bit,
}
use rsvp_te.Label.{bit_at, update_bit}

-- A bitmap of `n` bytes.
abbrev pub IsBitmap : ℕ → Option (List ℕ) → Type 0
IsBitmap n none = ⊥
IsBitmap n (some bm) = (length bm ≡ n) × AllBytes bm

module _ (f : ℕ → ℕ → ℕ) (v : Bool) (f-lt : (b k : ℕ) → b < 256 → k < 8 → f b k < 256)
    (f-test : (b k j : ℕ)
      → b < 256
      → k < 8
      → j < 8
      → test_bit (f b k) j ≡ (if k == j then v else test_bit b j)) where
  pub update_bit-AllBytes : (bm : List ℕ) (i : ℕ) → AllBytes bm → AllBytes (update_bit f bm i)
  update_bit-AllBytes bm i a =
      AllBytes-set bm (i / 8) _ (f-lt _ _ (AllBytes-get_or bm (i / 8) a) (omega arith)) a

  same_byte :
      (bm : List ℕ) (i j : ℕ)
      → AllBytes bm
      → i / 8 < length bm
      → i / 8 ≡ j / 8
      → bit_at (update_bit f bm i) j ≡ (if i == j then v else bit_at bm j)
  same_byte bm i j a h e =
      rw (← e, get_or-set_self bm (i / 8) (f (get_or bm (i / 8) 0) (i % 8)) 0 h)
        (ground (
          arith,
          f-test (get_or bm (i / 8) 0) (i % 8) (j % 8) (AllBytes-get_or bm (i / 8) a) (omega arith)
              (omega arith),
        ))

  -- Updating bit `i` changes the answer at `i` and nowhere else.
  pub bit_at-update_bit :
      (bm : List ℕ) (i j : ℕ)
      → AllBytes bm
      → i / 8 < length bm
      → bit_at (update_bit f bm i) j ≡ (if i == j then v else bit_at bm j)
  bit_at-update_bit bm i j a h = elim (Bool-cases (i / 8 == j / 8)) [
    | inl e ↦ same_byte bm i j a h (ground arith)
    | inr e ↦
        rw (get_or-set_ne bm (i / 8) (j / 8) (f (get_or bm (i / 8) 0) (i % 8)) 0 (ground arith))
          (ground arith)
  ]
