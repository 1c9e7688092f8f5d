-- ===== src/Wheel/Moves.antt =====
-- wheel_timer/wheel_timer.c: where one timer is after a cascade.
use rsvp_te.Prelude.{
  ℕ, ◌≡◌, refl, ap, ◌∙◌, Bool, true, false, ◌&&◌, ◌||◌, List, [], ◌∷◌, ◌++◌, ◌==◌, if◌then◌else◌,
  contains, arith, inl, inr, Bool-cases,
}
use rsvp_te.Wheel.{Wheel, slot_of, internal_add_timer, add_all, emptied, cascade}

-- The timer is pending, in the list `tvk[i]` and in no other.
pub record In (w : Wheel) (n k i : ℕ) : Type 0 where
  pub pending : (w.node n).pending ≡ true
  pub placed : (k' i' : ℕ) → contains n (w.tv k' i') ≡ (k == k' && i == i')
  pub not_due : contains n w.expired_list ≡ false

pub contains-append :
    (n : ℕ) (xs ys : List ℕ) → contains n (xs ++ ys) ≡ (contains n xs || contains n ys)
contains-append n [] ys = refl
contains-append n (x ∷ xs) ys = ground (arith, contains-append n xs ys)

expires-internal_add_timer :
    (w : Wheel) (m n : ℕ) → ((internal_add_timer w m).node n).expires ≡ (w.node n).expires
unfolding internal_add_timer
expires-internal_add_timer w m n = ground arith

pending-internal_add_timer :
    (w : Wheel) (m n : ℕ)
    → ((internal_add_timer w m).node n).pending ≡ ((w.node n).pending || m == n)
unfolding internal_add_timer
pending-internal_add_timer w m n = ground arith

contains-appended :
    (n m : ℕ) (b : Bool) (l : List ℕ)
    → contains n (if b then l ++ (m ∷ []) else l) ≡ (contains n l || (m == n && b))
contains-appended n m b l = ground (arith, contains-append n l (m ∷ []))

-- Only the slot of the node itself counts.
own_slot : (m n : ℕ) (f : ℕ → Bool) (l : Bool) → (l || (m == n && f m)) ≡ (l || (m == n && f n))
own_slot m n f l = elim (Bool-cases (m == n)) [
  | inl e ↦ let m≡n : m ≡ n = ground arith in ap (λ (p : ℕ). l || (m == n && f p)) m≡n
  | inr e ↦ rw e
]

-- The slot that `internal_add_timer` chooses for the node is `tvk[i]`.
abbrev pub chosen : Wheel → ℕ → ℕ → ℕ → Bool
chosen w k i n =
    (slot_of w.jiffies (w.node n).expires).0 == k && (slot_of w.jiffies (w.node n).expires).1 == i

pub jiffies-internal_add_timer : (w : Wheel) (m : ℕ) → (internal_add_timer w m).jiffies ≡ w.jiffies
unfolding internal_add_timer
jiffies-internal_add_timer w m = refl

expired_list-internal_add_timer :
    (w : Wheel) (m : ℕ) → (internal_add_timer w m).expired_list ≡ w.expired_list
unfolding internal_add_timer
expired_list-internal_add_timer w m = refl

chosen-internal_add_timer :
    (w : Wheel) (m n k i : ℕ) → chosen (internal_add_timer w m) k i n ≡ chosen w k i n
chosen-internal_add_timer w m n k i =
    rw (jiffies-internal_add_timer w m, expires-internal_add_timer w m n)

regroup : (a b c d : Bool) → ((a || (b && d)) || (c && d)) ≡ (a || ((b || c) && d))
regroup a b c d = ground arith

pub contains-internal_add_timer :
    (w : Wheel) (m n k i : ℕ)
    → contains n ((internal_add_timer w m).tv k i)
      ≡ (contains n (w.tv k i) || (m == n && chosen w k i n))
unfolding internal_add_timer
contains-internal_add_timer w m n k i =
    contains-appended n m (chosen w k i m) (w.tv k i)
    ∙ own_slot m n (chosen w k i) (contains n (w.tv k i))

pub contains-add_all :
    (w : Wheel) (ns : List ℕ) (n k i : ℕ)
    → contains n ((add_all w ns).tv k i)
      ≡ (contains n (w.tv k i) || (contains n ns && chosen w k i n))
unfolding add_all
contains-add_all w [] n k i = ground arith
contains-add_all w (m ∷ ns) n k i =
    contains-add_all (internal_add_timer w m) ns n k i
    ∙ rw (contains-internal_add_timer w m n k i, chosen-internal_add_timer w m n k i)
        (regroup (contains n (w.tv k i)) (m == n) (contains n ns) (chosen w k i n))

expires-add_all :
    (w : Wheel) (ns : List ℕ) (n : ℕ) → ((add_all w ns).node n).expires ≡ (w.node n).expires
unfolding add_all
expires-add_all w [] n = refl
expires-add_all w (m ∷ ns) n =
    expires-add_all (internal_add_timer w m) ns n ∙ expires-internal_add_timer w m n

pub pending-add_all :
    (w : Wheel) (ns : List ℕ) (n : ℕ)
    → ((add_all w ns).node n).pending ≡ ((w.node n).pending || contains n ns)
unfolding add_all
pending-add_all w [] n = ground arith
pending-add_all w (m ∷ ns) n =
    ground (arith, pending-add_all (internal_add_timer w m) ns n, pending-internal_add_timer w m n)

jiffies-add_all : (w : Wheel) (ns : List ℕ) → (add_all w ns).jiffies ≡ w.jiffies
unfolding add_all
jiffies-add_all w [] = refl
jiffies-add_all w (m ∷ ns) =
    jiffies-add_all (internal_add_timer w m) ns ∙ jiffies-internal_add_timer w m

pub expired_list-add_all : (w : Wheel) (ns : List ℕ) → (add_all w ns).expired_list ≡ w.expired_list
unfolding add_all
expired_list-add_all w [] = refl
expired_list-add_all w (m ∷ ns) =
    expired_list-add_all (internal_add_timer w m) ns ∙ expired_list-internal_add_timer w m

emptied_others :
    (n k i k' i' a b : ℕ) (l : List ℕ)
    → (k' == k && i' == i) ≡ false
    → contains n l ≡ (k' == a && i' == b)
    → (contains n (if k == a && i == b then [] else l) || false) ≡ (k' == a && i' == b)
emptied_others n k i k' i' a b l other h = ground arith

own_list : (n k i : ℕ) (l : List ℕ) → contains n l ≡ (k == k && i == i) → contains n l ≡ true
own_list n k i l h = ground arith

emptied_own :
    (n k i a b : ℕ) (c : Bool) (l : List ℕ)
    → contains n l ≡ (k == a && i == b)
    → (contains n (if k == a && i == b then [] else l) || (true && c)) ≡ c
emptied_own n k i a b c l h = ground arith

module _ (w : Wheel) (k i n : ℕ) where
  pub jiffies-cascade : (cascade w k i).jiffies ≡ w.jiffies
  unfolding cascade
  jiffies-cascade = jiffies-add_all (emptied w k i) (w.tv k i)

  pub expires-cascade : ((cascade w k i).node n).expires ≡ (w.node n).expires
  unfolding cascade
  expires-cascade = expires-add_all (emptied w k i) (w.tv k i) n

  -- A timer of another list stays.
  pub cascade-stays :
      (k' i' : ℕ) → (k' == k && i' == i) ≡ false → In w n k' i' → In (cascade w k i) n k' i'
  unfolding cascade emptied
  cascade-stays k' i' other at = record {
    pending = pending-add_all (emptied w k i) (w.tv k i) n ∙ rw at.pending;
    placed = λ a b.
        contains-add_all (emptied w k i) (w.tv k i) n a b
        ∙ rw (at.placed k i, other)
            (emptied_others n k i k' i' a b (w.tv a b) other (at.placed a b));
    not_due = ap (contains n) (expired_list-add_all (emptied w k i) (w.tv k i)) ∙ at.not_due;
  }

  -- A timer of the list goes to the slot that `internal_add_timer` chooses.
  pub cascade-moves :
      In w n k i
      → In
          (cascade w k i)
          n
          (slot_of w.jiffies (w.node n).expires).0
          (slot_of w.jiffies (w.node n).expires).1
  unfolding cascade emptied
  cascade-moves at = record {
    pending = pending-add_all (emptied w k i) (w.tv k i) n ∙ rw at.pending;
    placed = λ a b.
        contains-add_all (emptied w k i) (w.tv k i) n a b
        ∙ rw (own_list n k i (w.tv k i) (at.placed k i))
            (emptied_own n k i a b (chosen w a b n) (w.tv a b) (at.placed a b));
    not_due = ap (contains n) (expired_list-add_all (emptied w k i) (w.tv k i)) ∙ at.not_due;
  }
