-- ===== src/Prelude/Sets.antt =====
-- Lists of numbers as sets: identifiers and addresses.
use Prim.Native.Nat.{ℕ}
use mathlib.Core.Path.{◌≡◌}
use mathlib.Core.Bool.{Bool, false, ◌||◌}
use mathlib.Core.List.{List, [], ◌∷◌}
use rsvp_te.Prelude.Tests.{◌==◌}

abbrev pub contains : ℕ → List ℕ → Bool
contains l [] = false
contains l (x ∷ xs) = x == l || contains l xs

abbrev pub Distinct : List ℕ → Type 0
Distinct [] = Unit {0}
Distinct (x ∷ xs) = (contains x xs ≡ false) × Distinct xs
