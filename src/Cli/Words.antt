-- ===== src/Cli/Words.antt =====
-- The words of the commands of src/pi/rsvp_cli.c, as the codes of their characters.
use rsvp_te.Prelude.{ℕ, List, [], ◌∷◌}

-- "interface "
abbrev pub word_interface : List ℕ
word_interface = 105 ∷ 110 ∷ 116 ∷ 101 ∷ 114 ∷ 102 ∷ 97 ∷ 99 ∷ 101 ∷ 32 ∷ []

-- "rsvp frr revert "
abbrev pub word_frr_revert : List ℕ
word_frr_revert =
    114 ∷ 115 ∷ 118 ∷ 112 ∷ 32 ∷ 102 ∷ 114 ∷ 114 ∷ 32 ∷ 114 ∷ 101 ∷ 118 ∷ 101 ∷ 114 ∷ 116 ∷ 32 ∷ []

-- "rsvp mbb "
abbrev pub word_mbb : List ℕ
word_mbb = 114 ∷ 115 ∷ 118 ∷ 112 ∷ 32 ∷ 109 ∷ 98 ∷ 98 ∷ 32 ∷ []

-- "delete tunnel "
abbrev pub word_delete : List ℕ
word_delete = 100 ∷ 101 ∷ 108 ∷ 101 ∷ 116 ∷ 101 ∷ 32 ∷ 116 ∷ 117 ∷ 110 ∷ 110 ∷ 101 ∷ 108 ∷ 32 ∷ []

-- "setup tunnel "
abbrev pub word_setup : List ℕ
word_setup = 115 ∷ 101 ∷ 116 ∷ 117 ∷ 112 ∷ 32 ∷ 116 ∷ 117 ∷ 110 ∷ 110 ∷ 101 ∷ 108 ∷ 32 ∷ []

-- "rsvp"
abbrev pub word_rsvp : List ℕ
word_rsvp = 114 ∷ 115 ∷ 118 ∷ 112 ∷ []

-- "enable"
abbrev pub word_enable : List ℕ
word_enable = 101 ∷ 110 ∷ 97 ∷ 98 ∷ 108 ∷ 101 ∷ []

-- "disable"
abbrev pub word_disable : List ℕ
word_disable = 100 ∷ 105 ∷ 115 ∷ 97 ∷ 98 ∷ 108 ∷ 101 ∷ []

-- "neighbor"
abbrev pub word_neighbor : List ℕ
word_neighbor = 110 ∷ 101 ∷ 105 ∷ 103 ∷ 104 ∷ 98 ∷ 111 ∷ 114 ∷ []

-- "bandwidth"
abbrev pub word_bandwidth : List ℕ
word_bandwidth = 98 ∷ 97 ∷ 110 ∷ 100 ∷ 119 ∷ 105 ∷ 100 ∷ 116 ∷ 104 ∷ []

-- "reservable-bandwidth"
abbrev pub word_reservable : List ℕ
word_reservable =
    114 ∷ 101 ∷ 115 ∷ 101 ∷ 114 ∷ 118 ∷ 97 ∷ 98 ∷ 108 ∷ 101 ∷ 45 ∷ 98 ∷ 97 ∷ 110 ∷ 100 ∷ 119 ∷ 105
    ∷ 100 ∷ 116 ∷ 104 ∷ []

-- "hello-interval"
abbrev pub word_interval : List ℕ
word_interval = 104 ∷ 101 ∷ 108 ∷ 108 ∷ 111 ∷ 45 ∷ 105 ∷ 110 ∷ 116 ∷ 101 ∷ 114 ∷ 118 ∷ 97 ∷ 108 ∷ []
