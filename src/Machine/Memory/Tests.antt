-- ===== src/Machine/Memory/Tests.antt =====
-- The memory of src/pi/rsvp_state_machine.c at concrete inputs: an egress that receives a PATH message.
use rsvp_te.Prelude.{
  ◌++◌, arith, false, ℕ, ◌≡◌, refl, true, Bool, List, [], ◌∷◌, Option, none, some, if◌then◌else◌,
  Option-cases, inl, inr, ap, sym, ◌∙◌,
}
use rsvp_te.Label.{
  label_is_allocated, label_mgr_alloc, label_mgr_init, search_free, candidate, take_label,
}
use rsvp_te.Wire.Parser.{is_some}
use rsvp_te.Machine.Shutdown.{rsvp_state_machine_shutdown}
use rsvp_te.StateDb.{
  rsvp_psb_find_by_bucket, Timer, rsvp_psb_find, rsvp_psb_create, rsvp_rsb_find, rsvp_rsb_create,
}
use rsvp_te.StateDb.Key.{rsvp_key_hash, same_key}
use rsvp_te.StateDb.Blocks.{Psb, Rsb, new_psb}
use rsvp_te.StateDb.Buckets.{find, walk, insert}
use rsvp_te.StateDb.Valid.{is_live}
use rsvp_te.Machine.{
  Event, mpls_install, Machine, Hal, given, alter, alter_psb, alter_rsb, start_timer, restart_timer,
}
use rsvp_te.Machine.Checks.{rsvp_validate_path_message}
use rsvp_te.Machine.Sending.{ensure_label, send_resv_of, send_resv_upstream}
use rsvp_te.Machine.PathMsg.{
  update_psb, path_timers, path_at_egress, path_role, accept_path, handle_path_message,
}
use rsvp_te.Machine.Handle.{handle_type, rsvp_handle_message}
use rsvp_te.Machine.Cleanup.{rsb_refresh_timer_cb}
use rsvp_te.Machine.Runs.{Input, timer_expires, respond, run, started}
use rsvp_te.Machine.Tests.{egress, key, path}
use rsvp_te.Wire.Parser.{PathKey}
use rsvp_te.StateDb
use rsvp_te.StateDb.{Db}
use rsvp_te.StateDb.Blocks.{FrrMode, new_rsb}
use rsvp_te.Machine.Switched.{trigger_one_switches}
use rsvp_te.Machine.Frr.{rsb_of, trigger_one, rsvp_frr_trigger}
use rsvp_te.Machine.Failover.{rsvp_frr_trigger_switches}
use rsvp_te.Machine.Memory.Bare.{alter_rsb-Kept, Kept-Steady}
use rsvp_te.Machine.Memory.Steps.{psb_create-MemoryOk, rsb_create-MemoryOk}
use rsvp_te.Machine.Memory.Safety.{started-MemoryOk}
use rsvp_te.Machine.Memory.{bare, MemoryOk, Kept-MemoryOk, Fresh}
use rsvp_te.Machine.Memory.Safety.{
  AllFresh, InTime, CallbacksLive, run_timers_live, run_psbs_linked, run_shutdown_empties,
}

-- One block of each kind can be had, while it is not in use.
abbrev once : Option ℕ → Bool → Option ℕ
once a taken = if taken then none else a

abbrev careful : Hal
careful = record egress {
  new_psb = λ db. once (some 100) (is_some (db.psbs.heap 100));
  new_rsb = λ db. once (some 300) (is_some (db.rsbs.heap 300));
  new_bsb = λ db. once (some 500) (is_some (db.bsbs.heap 500));
}

once_free {ℓ} :
    {A : Type ℓ} (heap : ℕ → Option A) (a p : ℕ)
    → once (some a) (is_some (heap a)) ≡ some p
    → heap p ≡ none
once_free heap a p e = elim (Option-cases (heap a)) [
  | inl free ↦ let same : a ≡ p = cc (rw free at e) in ap heap (sym same) ∙ free
  | inr (x, used) ↦ absurd (cc (rw used at e))
]

careful-Fresh : Fresh careful
careful-Fresh = record {
  psb = λ db p e. once_free db.psbs.heap 100 p e;
  rsb = λ db p e. once_free db.rsbs.heap 300 p e;
  bsb = λ db p e. once_free db.bsbs.heap 500 p e;
}

abbrev one_path : List (Hal × Input)
one_path = (careful, Input.message path) ∷ []

abbrev one_path-Fresh : AllFresh one_path
one_path-Fresh = (careful-Fresh, tt)

-- The PSB of the message.
abbrev held : Psb
unfolding run respond rsvp_handle_message handle_type handle_path_message rsvp_validate_path_message
    accept_path update_psb path_timers path_role path_at_egress start_timer restart_timer
    send_resv_upstream send_resv_of ensure_label given alter alter_psb alter_rsb rsvp_psb_find
    rsvp_psb_create rsvp_rsb_find rsvp_rsb_create insert find walk rsvp_key_hash same_key
    label_mgr_alloc label_mgr_init search_free label_is_allocated candidate take_label
held = elim ((run (started 16 20) one_path).db.psbs.heap 100) [
  | none ↦ new_psb key
  | some psb ↦ psb
]

at_100 : (run (started 16 20) one_path).db.psbs.heap 100 ≡ some held
unfolding run respond rsvp_handle_message handle_type handle_path_message rsvp_validate_path_message
    accept_path update_psb path_timers path_role path_at_egress start_timer restart_timer
    send_resv_upstream send_resv_of ensure_label given alter alter_psb alter_rsb rsvp_psb_find
    rsvp_psb_create rsvp_rsb_find rsvp_rsb_create insert find walk rsvp_key_hash same_key
    label_mgr_alloc label_mgr_init search_free label_is_allocated candidate take_label
at_100 = refl

held_to : held.associated_rsb ≡ some 300
unfolding run respond rsvp_handle_message handle_type handle_path_message rsvp_validate_path_message
    accept_path update_psb path_timers path_role path_at_egress start_timer restart_timer
    send_resv_upstream send_resv_of ensure_label given alter alter_psb alter_rsb rsvp_psb_find
    rsvp_psb_create rsvp_rsb_find rsvp_rsb_create insert find walk rsvp_key_hash same_key
    label_mgr_alloc label_mgr_init search_free label_is_allocated candidate take_label
held_to = refl

cleanup_runs : (run (started 16 20) one_path).db.running (Timer.psb_cleanup 100) ≡ true
unfolding run respond rsvp_handle_message handle_type handle_path_message rsvp_validate_path_message
    accept_path update_psb path_timers path_role path_at_egress start_timer restart_timer
    send_resv_upstream send_resv_of ensure_label given alter alter_psb alter_rsb rsvp_psb_find
    rsvp_psb_create rsvp_rsb_find rsvp_rsb_create insert find walk rsvp_key_hash same_key
    label_mgr_alloc label_mgr_init search_free label_is_allocated candidate take_label
cleanup_runs = refl

-- The RSB that the PATH made at the egress is refreshed.
abbrev path_and_refresh : List (Hal × Input)
path_and_refresh =
    (careful, Input.message path) ∷ (careful, Input.expiry (Timer.rsb_refresh 300)) ∷ []

abbrev path_and_refresh-Fresh : AllFresh path_and_refresh
path_and_refresh-Fresh = (careful-Fresh, (careful-Fresh, tt))

refresh-InTime : InTime (started 16 20) path_and_refresh
unfolding run respond rsvp_handle_message handle_type handle_path_message rsvp_validate_path_message
    accept_path update_psb path_timers path_role path_at_egress start_timer restart_timer
    send_resv_upstream send_resv_of ensure_label given alter alter_psb alter_rsb rsvp_psb_find
    rsvp_psb_create rsvp_rsb_find rsvp_rsb_create insert find walk rsvp_key_hash same_key
    label_mgr_alloc label_mgr_init search_free label_is_allocated candidate take_label
refresh-InTime = (tt, (refl, tt))

still_runs : (run (started 16 20) path_and_refresh).db.running (Timer.psb_cleanup 100) ≡ true
unfolding run respond rsvp_handle_message handle_type handle_path_message rsvp_validate_path_message
    accept_path update_psb path_timers path_role path_at_egress start_timer restart_timer
    send_resv_upstream send_resv_of ensure_label given alter alter_psb alter_rsb rsvp_psb_find
    rsvp_psb_create rsvp_rsb_find rsvp_rsb_create insert find walk rsvp_key_hash same_key
    label_mgr_alloc label_mgr_init search_free label_is_allocated candidate take_label timer_expires
    rsb_refresh_timer_cb
still_runs = refl

run_timers_live_example :
    CallbacksLive (started 16 20) path_and_refresh
    × (is_live (run (started 16 20) path_and_refresh).db (Timer.psb_cleanup 100) ≡ true)
run_timers_live_example =
    run_timers_live 16 20 path_and_refresh path_and_refresh-Fresh (Timer.psb_cleanup 100)
      refresh-InTime still_runs

run_psbs_linked_example :
    (rsb : Rsb) × ((run (started 16 20) one_path).db.rsbs.heap 300 ≡ some rsb)
    × (rsb.associated_psb ≡ some 100)
    × (rsb.key ≡ held.key)
run_psbs_linked_example = run_psbs_linked 16 20 one_path one_path-Fresh 100 300 held at_100 held_to

run_shutdown_empties_example :
    let end = rsvp_state_machine_shutdown careful (run (started 16 20) path_and_refresh) in
    CallbacksLive (started 16 20) path_and_refresh
    × (rsvp_psb_find_by_bucket end.db 7 ≡ none)
    × (end.db.psbs.heap 100 ≡ none)
    × (end.db.running (Timer.psb_refresh 100) ≡ false)
    × (end.db.running (Timer.psb_cleanup 100) ≡ false)
run_shutdown_empties_example =
    run_shutdown_empties 16 20 path_and_refresh path_and_refresh-Fresh careful 7 100 refresh-InTime
      (omega arith)

-- An LSP at 100 that leaves by the interface 4, and its bypass tunnel at 101 with an RSB.
abbrev bypass_key : PathKey
bypass_key = record key { tunnel_id = 2 }

abbrev three_blocks : Db
three_blocks =
    (rsvp_rsb_create
      (rsvp_psb_create (rsvp_psb_create StateDb.at_start key (some 100)).1 bypass_key (some 101)).1
      bypass_key (some 300)).1

three_blocks-MemoryOk : MemoryOk three_blocks
unfolding rsvp_psb_create insert
three_blocks-MemoryOk =
    let one = psb_create-MemoryOk StateDb.at_start (started-MemoryOk 16 20) key 100 refl in
    let two = psb_create-MemoryOk _ one bypass_key 101 refl in
    rsb_create-MemoryOk _ two bypass_key 300 refl

abbrev reserve_bypass : Rsb → Rsb
reserve_bypass rsb = record rsb { label_out = 42 }

abbrev ask_protection : Psb → Psb
ask_protection psb = record psb {
  frr_mode = FrrMode.facility;
  bypass_psb = some 101;
  ifindex_out = 4;
}

abbrev protected : Machine
protected =
    alter_psb (alter_rsb (record (started 16 20) { db = three_blocks }) 300 reserve_bypass) 100
      ask_protection

protected-MemoryOk : MemoryOk protected.db
protected-MemoryOk =
    Kept-MemoryOk three_blocks protected
      ((Kept-Steady (bare three_blocks)).alter_psb _ 100 ask_protection (λ psb. refl)
        (alter_rsb-Kept (record (started 16 20) { db = three_blocks }) 300 reserve_bypass
          (λ rsb. refl) (record { same = refl })))
      three_blocks-MemoryOk

protected_at :
    (protected.db.psbs.heap 100 ≡ some (ask_protection (new_psb key)))
    × (protected.db.psbs.heap 101 ≡ some (new_psb bypass_key))
    × (rsb_of protected.db bypass_key ≡ some (reserve_bypass (new_rsb bypass_key)))
unfolding alter_psb alter_rsb alter rsvp_psb_create rsvp_rsb_create rsvp_rsb_find insert find walk
    rsvp_key_hash same_key
protected_at = (refl, refl, refl)

rsvp_frr_trigger_switches_example :
    (q : Psb) × ((rsvp_frr_trigger careful protected 4).db.psbs.heap 100 ≡ some q)
    × (q.frr_active ≡ true)
rsvp_frr_trigger_switches_example =
    rsvp_frr_trigger_switches careful 4 protected 100 101 (ask_protection (new_psb key))
      (new_psb bypass_key) (reserve_bypass (new_rsb bypass_key)) protected-MemoryOk protected_at.0
      refl protected_at.1 refl protected_at.2 refl

-- The same, with an RSB of the LSP itself.
abbrev labelled_rsb : Rsb → Rsb
labelled_rsb rsb = record rsb { label_in = 17 }

abbrev carrying : Machine
carrying =
    alter_psb
      (alter_rsb
        (alter_rsb (record (started 16 20) { db = (rsvp_rsb_create three_blocks key (some 301)).1 })
          300 reserve_bypass)
        301 labelled_rsb)
      100 ask_protection

carrying_at :
    (carrying.db.psbs.heap 100 ≡ some (ask_protection (new_psb key)))
    × (carrying.db.psbs.heap 101 ≡ some (new_psb bypass_key))
    × (rsb_of carrying.db bypass_key ≡ some (reserve_bypass (new_rsb bypass_key)))
    × (rsb_of carrying.db key ≡ some (labelled_rsb (new_rsb key)))
unfolding alter_psb alter_rsb alter rsvp_psb_create rsvp_rsb_create rsvp_rsb_find insert find walk
    rsvp_key_hash same_key
carrying_at = (refl, refl, refl, refl)

trigger_one_switches_example :
    let after = trigger_one careful 4 carrying 100 in
    let entry = mpls_install 17 42 0 0 0x0a00_0002 in
    (q : Psb) × (rest : List Event) × (after.db.psbs.heap 100 ≡ some q)
    × (q.frr_active ≡ true)
    × (after.out ≡ carrying.out ++ entry ∷ rest)
    × (after.labels ≡ carrying.labels)
trigger_one_switches_example =
    trigger_one_switches careful 4 carrying 100 (ask_protection (new_psb key)) (new_psb bypass_key)
      (labelled_rsb (new_rsb key)) (reserve_bypass (new_rsb bypass_key)) carrying_at.0 carrying_at.1
      refl carrying_at.2 refl carrying_at.3
