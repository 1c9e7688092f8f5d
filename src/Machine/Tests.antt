-- ===== src/Machine/Tests.antt =====
-- src/pi/rsvp_state_machine.c at concrete inputs: an egress that receives a PATH message.
use rsvp_te.Prelude.{
  ℕ, ◌+◌, ◌*◌, ◌≤◌, ◌≡◌, refl, true, false, List, [], ◌∷◌, some, leb, ◌==◌, if◌then◌else◌, arith,
  length,
}
use rsvp_te.Label.{
  label_is_allocated, label_mgr_alloc, label_mgr_init, search_free, candidate, take_label,
}
use rsvp_te.Wire.{read16}
use rsvp_te.Wire.Builder.Objects.{wire_tspec}
use rsvp_te.Wire.Parser.{MessageInfo, PathKey, zero_key, zero_info}
use rsvp_te.StateDb.{rsvp_psb_find, rsvp_psb_create, rsvp_rsb_find, rsvp_rsb_create}
use rsvp_te.StateDb.Key.{rsvp_key_hash, same_key}
use rsvp_te.StateDb.Blocks.{Rsb, new_psb, new_rsb}
use rsvp_te.StateDb.Buckets.{find, walk, insert}
use rsvp_te.Machine.{Hal, given, alter, alter_psb, alter_rsb, start_timer, restart_timer}
use rsvp_te.Machine.Checks.{rsvp_validate_path_message, tspec_copy_and_ntoh}
use rsvp_te.Machine.Sending.{ensure_label, send_resv_of, send_resv_upstream}
use rsvp_te.Machine.PathMsg.{
  update_psb, path_timers, path_at_egress, path_role, accept_path, handle_path_message,
}
use rsvp_te.Machine.Cleanup.{rsvp_rsb_cleanup}
use rsvp_te.Machine.Handle.{handle_type, rsvp_handle_message}
use rsvp_te.Machine.Runs.{
  Input, respond, run, started, started-LabelsOk, run-LabelsOk, run_unique_labels,
}
use rsvp_te.Machine.Effects.{forwarded_lengths, update_psb_routes, cleanup_releases}

-- The node has the address 10.0.0.2; `calloc` gives the block 100 for a PSB, 300 for an RSB and 500 for a BSB.
abbrev pub egress : Hal
egress = record {
  egress_if = λ dest. some 4;
  local_addr = λ i. some 0x0a00_0002;
  is_local_addr = λ a. a == 0x0a00_0002;
  timer_start_ok = λ tm. true;
  timer_reset_ok = λ tm. true;
  new_psb = λ db. some 100;
  new_rsb = λ db. some 300;
  new_bsb = λ db. some 500;
  strdup_ok = true;
  float_ge = λ a b. leb b a;
  float_to_uint32 = λ f. f;
  float_of_uint32 = λ n. n;
}

abbrev pub key : PathKey
key = record zero_key {
  dest_addr = 0x0a00_0002;
  tunnel_id = 1;
  source_addr = 0x0a00_0001;
  lsp_id = 1;
}

-- A TSpec with the service length 6 and the parameter length 5.
abbrev spec : List ℕ
spec = 0 ∷ 0 ∷ 0 ∷ 7 ∷ 5 ∷ 0 ∷ 0 ∷ 6 ∷ 127 ∷ 0 ∷ 0 ∷ 5 ∷ 1 ∷ 2 ∷ 3 ∷ 4 ∷ 5 ∷ 6 ∷ 7 ∷ 8 ∷ []

-- A route with one hop.
abbrev route : List ℕ
route = 1 ∷ 8 ∷ 10 ∷ 0 ∷ 0 ∷ 2 ∷ 32 ∷ 0 ∷ []

abbrev pub path : MessageInfo
path = record zero_info {
  common_hdr = some (16 ∷ 1 ∷ 0 ∷ 0 ∷ 64 ∷ 0 ∷ 0 ∷ 0 ∷ []);
  key = key;
  hop_v4 = some (10 ∷ 0 ∷ 0 ∷ 1 ∷ 0 ∷ 0 ∷ 0 ∷ 4 ∷ []);
  sender_v4 = some [];
  label_req = some [];
  ero = some route;
}

abbrev one_path : List (Hal × Input)
one_path = (egress, Input.message path) ∷ []

-- The RSB of the egress has the first label.
abbrev pub reserved : Rsb
reserved = record (new_rsb key) { label_in = 16; refresh_ms = 30000; associated_psb = some 100 }

at_300 : (run (started 16 20) one_path).db.rsbs.heap 300 ≡ some reserved
unfolding run respond rsvp_handle_message handle_type handle_path_message rsvp_validate_path_message
    accept_path update_psb path_timers path_role path_at_egress start_timer restart_timer
    send_resv_upstream send_resv_of ensure_label given alter alter_psb alter_rsb rsvp_psb_find
    rsvp_psb_create rsvp_rsb_find rsvp_rsb_create insert find walk rsvp_key_hash same_key
    label_mgr_alloc label_mgr_init search_free label_is_allocated candidate take_label
at_300 = refl

run_unique_labels_example :
    (◌≡◌ {A = ℕ} 300 300) × (label_is_allocated (run (started 16 20) one_path).labels 16 ≡ true)
run_unique_labels_example =
    run_unique_labels 16 20 one_path 300 300 reserved reserved (omega arith) (omega arith)
      (omega arith) at_300 at_300 (λ e. omega arith) refl

cleanup_releases_example :
    label_is_allocated (rsvp_rsb_cleanup egress (run (started 16 20) one_path) 300 true).labels 17
    ≡ (if 16 == 17 then false else label_is_allocated (run (started 16 20) one_path).labels 17)
cleanup_releases_example =
    cleanup_releases egress (run (started 16 20) one_path) 300 17 true reserved
      (run-LabelsOk (started 16 20) one_path
        (started-LabelsOk 16 20 (omega arith) (omega arith) (omega arith))).owned.valid
      at_300 (λ e. omega arith)

forwarded_lengths_example :
    (read16 (wire_tspec (tspec_copy_and_ntoh spec)) 6 ≡ 6 * 256 + 0)
    × (read16 (wire_tspec (tspec_copy_and_ntoh spec)) 10 ≡ 5 * 256 + 0)
forwarded_lengths_example = forwarded_lengths spec (ground arith)

update_psb_routes_example :
    (length (update_psb egress path (new_psb key)).ero ≤ 32)
    × (length (update_psb egress path (new_psb key)).rro ≤ 32)
update_psb_routes_example = update_psb_routes egress path (new_psb key) (omega arith) (omega arith)
