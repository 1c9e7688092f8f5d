-- ===== src/Machine/Switched.antt =====
-- `rsvp_frr_trigger` of src/pi/rsvp_state_machine.c for one LSP.
use rsvp_te.Prelude.{
  ℕ, ◌≡◌, refl, sym, ap, ◌∙◌, true, false, Bool, List, [], ◌∷◌, ◌++◌, append-nil, append_assoc,
  Option, none, some, ◌==◌, arith,
}
use rsvp_te.Label.{LabelMgr}
use rsvp_te.StateDb.{Db}
use rsvp_te.StateDb.Blocks.{Psb, Rsb}
use rsvp_te.Machine.{Hal, Machine, Event, mpls_install, alter, alter_psb, emit, given}
use rsvp_te.Machine.Checks.{resolve_path_next_hop}
use rsvp_te.Machine.Sending.{follow, send_path_via, send_path_downstream}
use rsvp_te.Machine.Frr.{rsb_of, endangered, install, switch_over, trigger_one}

-- The LSP at `p` is switched over or not as `active` says, the events are those of `out` and then others,
-- the label manager is `labels`.
record Told (p : ℕ) (active : Bool) (out : List Event) (labels : LabelMgr) (m : Machine)
    : Type 0 where
  psb : Psb
  at_p : m.db.psbs.heap p ≡ some psb
  is_active : psb.frr_active ≡ active
  rest : List Event
  events : m.out ≡ out ++ rest
  kept : m.labels ≡ labels

module _ (hal : Hal) (m : Machine) (p : ℕ) (psb : Psb) (at_p : m.db.psbs.heap p ≡ some psb) where
  altered-at : (f : Psb → Psb) → (alter_psb m p f).db.psbs.heap p ≡ some (f psb)
  unfolding alter_psb alter
  altered-at f = let self : (p == p) ≡ true = ground arith in rw (self, at_p) refl

  send_path_via-Told :
      (q : Psb) (ip_dest : ℕ) (out : Option ℕ)
      → Told p psb.frr_active m.out m.labels (send_path_via hal m p q ip_dest out)
  unfolding send_path_via alter_psb
  send_path_via-Told q ip_dest none = record {
    psb = record psb { ero = q.ero };
    at_p = altered-at (λ x. record x { ero = q.ero });
    is_active = refl;
    rest = [];
    events = sym (append-nil m.out);
    kept = refl;
  }
  send_path_via-Told q ip_dest (some i) = record {
    psb = record psb { ero = q.ero; ifindex_out = i };
    at_p = altered-at (λ x. record x { ero = q.ero; ifindex_out = i });
    is_active = refl;
    rest = _;
    events = refl;
    kept = refl;
  }

  send_path_downstream-Told : Told p psb.frr_active m.out m.labels (send_path_downstream hal m p)
  unfolding send_path_downstream given
  send_path_downstream-Told =
      let next = resolve_path_next_hop hal psb in rw at_p (send_path_via-Told next.0 next.1 next.2)

-- When the link that an LSP leaves by fails, the LSP is to be protected and not switched over yet, its bypass
-- tunnel has a reservation with a label, and it has a reservation itself: its forwarding entry now sends what
-- comes in with the same label into the bypass tunnel, before any message is sent, the PSB is marked as
-- switched over, and no label is taken or given back.
pub trigger_one_switches :
    (hal : Hal) (failed : ℕ) (m : Machine) (p : ℕ) (psb bp : Psb) (rsb brsb : Rsb)
    → m.db.psbs.heap p ≡ some psb
    → follow m.db.psbs.heap psb.bypass_psb ≡ some bp
    → endangered failed psb ≡ true
    → rsb_of m.db bp.key ≡ some brsb
    → (brsb.label_out == 0) ≡ false
    → rsb_of m.db psb.key ≡ some rsb
    → let after = trigger_one hal failed m p in
      let entry =
        mpls_install rsb.label_in brsb.label_out brsb.next_hop_lih brsb.next_hop_addr
          psb.key.dest_addr in
      (q : Psb) × (rest : List Event) × (after.db.psbs.heap p ≡ some q)
      × (q.frr_active ≡ true)
      × (after.out ≡ m.out ++ entry ∷ rest)
      × (after.labels ≡ m.labels)
unfolding trigger_one given switch_over alter_psb
trigger_one_switches hal failed m p psb bp rsb brsb at_p at_b danger via up has =
    let entry =
      mpls_install rsb.label_in brsb.label_out brsb.next_hop_lih brsb.next_hop_addr
        psb.key.dest_addr in
    let f = λ (q : Psb). record q { frr_active = true; ifindex_out = bp.ifindex_out } in
    let x = alter_psb (emit m entry) p f in
    let told =
      send_path_downstream-Told hal x p (f psb) (altered-at hal (emit m entry) p psb at_p f) in
    rw (at_p, at_b, danger, via, up, has)
      (
        told.psb,
        told.rest,
        told.at_p,
        told.is_active,
        told.events ∙ append_assoc m.out (entry ∷ []) told.rest,
        told.kept,
      )

install_db :
    (m : Machine) (rsb : Option Rsb) (dest : ℕ) (via : Rsb) → (install m rsb dest via).db ≡ m.db
install_db m none dest via = refl
install_db m (some rsb) dest via = refl

-- With or without a reservation of its own the LSP is marked as switched over.
pub trigger_one_active :
    (hal : Hal) (failed : ℕ) (m : Machine) (p : ℕ) (psb bp : Psb) (brsb : Rsb)
    → m.db.psbs.heap p ≡ some psb
    → follow m.db.psbs.heap psb.bypass_psb ≡ some bp
    → endangered failed psb ≡ true
    → rsb_of m.db bp.key ≡ some brsb
    → (brsb.label_out == 0) ≡ false
    → (q : Psb) × ((trigger_one hal failed m p).db.psbs.heap p ≡ some q) × (q.frr_active ≡ true)
unfolding trigger_one given switch_over
trigger_one_active hal failed m p psb bp brsb at_p at_b danger via up =
    let y = install m (rsb_of m.db psb.key) psb.key.dest_addr brsb in
    let f = λ (q : Psb). record q { frr_active = true; ifindex_out = bp.ifindex_out } in
    let there =
      ap (λ (d : Db). d.psbs.heap p) (install_db m (rsb_of m.db psb.key) psb.key.dest_addr brsb)
      ∙ at_p in
    let told =
      send_path_downstream-Told hal (alter_psb y p f) p (f psb) (altered-at hal y p psb there f) in
    rw (at_p, at_b, danger, via, up) (told.psb, told.at_p, told.is_active)
