-- ===== src/Timers/Registry.antt =====
-- The registry of active timers of src/pi/rsvp_timers.c.
use rsvp_te.Prelude.{
  ℕ, ◌≡◌, refl, Bool, true, false, ◌||◌, List, [], ◌∷◌, ◌==◌, arith, inl, inr, Bool-cases,
}
use rsvp_te.Timers.{
  Entry, free_slot, entry, register_active_timer, unregister_active_timer,
  is_timer_active_and_matches,
}

-- The timer has an entry.
abbrev pub registered : ℕ → List Entry → Bool
registered timer [] = false
registered timer (free_slot ∷ es) = registered timer es
registered timer (entry t s ∷ es) = t == timer || registered timer es

abbrev pub has_room : List Entry → Bool
has_room [] = false
has_room (free_slot ∷ es) = true
has_room (entry t s ∷ es) = has_room es

-- No timer has two entries.
abbrev pub Once : List Entry → Type 0
Once [] = Unit {0}
Once (free_slot ∷ es) = Once es
Once (entry t s ∷ es) = (registered t es ≡ false) × Once es

pub matches-unregistered :
    (timer seq : ℕ) (es : List Entry)
    → registered timer es ≡ false
    → is_timer_active_and_matches timer seq es ≡ false
unfolding is_timer_active_and_matches
matches-unregistered timer seq [] r = refl
matches-unregistered timer seq (free_slot ∷ es) r = matches-unregistered timer seq es r
matches-unregistered timer seq (entry t s ∷ es) r =
    ground (arith, matches-unregistered timer seq es)

-- A new entry of a timer that has none is the one that decides.
pub matches-register :
    (timer seq seq' : ℕ) (es : List Entry)
    → registered timer es ≡ false
    → has_room es ≡ true
    → is_timer_active_and_matches timer seq' (register_active_timer timer seq es) ≡ (seq == seq')
unfolding is_timer_active_and_matches register_active_timer
matches-register timer seq seq' [] r h = ground arith
matches-register timer seq seq' (free_slot ∷ es) r h = ground arith
matches-register timer seq seq' (entry t s ∷ es) r h =
    ground (arith, matches-register timer seq seq' es)

unregister-registered :
    (timer other : ℕ) (es : List Entry)
    → registered other es ≡ false
    → registered other (unregister_active_timer timer es) ≡ false
unfolding unregister_active_timer
unregister-registered timer other [] r = refl
unregister-registered timer other (free_slot ∷ es) r = unregister-registered timer other es r
unregister-registered timer other (entry t s ∷ es) r =
    ground (arith, unregister-registered timer other es)

-- A timer with one entry has none after it was unregistered.
pub unregister-Once :
    (timer : ℕ) (es : List Entry)
    → Once es
    → registered timer (unregister_active_timer timer es) ≡ false
unfolding unregister_active_timer
unregister-Once timer [] o = refl
unregister-Once timer (free_slot ∷ es) o = unregister-Once timer es o
unregister-Once timer (entry t s ∷ es) o = elim (Bool-cases (t == timer)) [
  | inl here ↦ let t≡timer : t ≡ timer = ground arith in ground (arith, o.0)
  | inr later ↦ ground (arith, unregister-Once timer es o.1)
]
