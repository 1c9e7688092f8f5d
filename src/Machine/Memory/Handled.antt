-- ===== src/Machine/Memory/Handled.antt =====
-- The memory of src/pi/rsvp_state_machine.c under the error messages, the commands, the expiry of timers and
-- the dispatch on the type.
use rsvp_te.Prelude.{
  ℕ, ◌≡◌, refl, sym, ap, subst, true, List, Option, none, some, inl, inr, ◌==◌, ◌||◌, arith,
  Option-cases,
}
use rsvp_te.Wire.Parser.{MessageInfo, PathKey, is_some}
use rsvp_te.StateDb.{Db, Timer, bsb_key, rsvp_psb_find, rsvp_bsb_find, rsvp_bsb_create}
use rsvp_te.StateDb.Key.{rsvp_key_hash, same_key}
use rsvp_te.StateDb.Blocks.{Psb, Rsb}
use rsvp_te.StateDb.Buckets.{find, insert}
use rsvp_te.StateDb.Contract.{walk-some}
use rsvp_te.StateDb.Valid.{is_live}
use rsvp_te.Machine.{Hal, Machine, alter_bsb}
use rsvp_te.Machine.Checks.{tspec_copy_and_ntoh}
use rsvp_te.Machine.Sending.{follow}
use rsvp_te.Machine.Errors.{
  block, find_or_create_bsb, note_blockade, pass_path_err, pass_resv_err, handle_path_err,
  handle_resv_err,
}
use rsvp_te.Machine.Handle.{pass_hello, rsvp_handle_message}
use rsvp_te.Machine.Steady.{given_keeps, branch_keeps}
use rsvp_te.Machine.Sent.{propagate_resv_err-Steady}
use rsvp_te.Machine.Memory.{bare, bare_bsb, option_map, MemoryOk, Fresh, Kept, Kept-MemoryOk}
use rsvp_te.Machine.Memory.Bare.{alter_bsb-Kept, Kept-Steady}
use rsvp_te.Machine.Memory.Running.{start_timer-MemoryOk}
use rsvp_te.Machine.Memory.Steps.{bsb_create-MemoryOk}
use rsvp_te.Machine.Memory.Torn.{handle_path_tear-MemoryOk, handle_resv_tear-MemoryOk}
use rsvp_te.Machine.Memory.PathSteps.{handle_path_message-MemoryOk}
use rsvp_te.Machine.Memory.ResvSteps.{handle_resv_message-MemoryOk}

-- A timer of a block, after a step that leaves the blocks what they are.
is_live-Kept :
    (d : Db) (m : Machine) (tm : Timer)
    → Kept d m
    → is_live d tm ≡ true
    → is_live (bare m.db) tm ≡ true
is_live-Kept d m tm k live = subst (λ x. is_live x tm ≡ true) (sym k.same) live

found_bsb :
    (db : Db) (key : PathKey) (b : ℕ)
    → rsvp_bsb_find db key ≡ some b
    → is_live (bare db) (Timer.bsb_blockade b) ≡ true
unfolding rsvp_bsb_find find
found_bsb db key b e =
    let (bsb, at_b, hit) =
      walk-some (λ a. same_key (bsb_key a) key) db.bsbs.heap (db.bsbs.buckets (rsvp_key_hash key)) b
        e in
    ap (λ o. is_some (option_map bare_bsb o)) at_b

module _ (hal : Hal) (info : MessageInfo) where
  pass_path_err-MemoryOk :
      (m : Machine) (psb : Option Psb) → MemoryOk m.db → MemoryOk (pass_path_err hal m info psb).db
  pass_path_err-MemoryOk m none ok = ok
  pass_path_err-MemoryOk m (some psb) ok =
      branch_keeps (λ x. MemoryOk x.db) (psb.is_ingress || psb.prev_hop_addr == 0) _ _ ok ok

  block-MemoryOk :
      (m : Machine) (b : ℕ) (o : List ℕ)
      → is_live (bare m.db) (Timer.bsb_blockade b) ≡ true
      → MemoryOk m.db
      → MemoryOk (block hal m b o).db
  unfolding block
  block-MemoryOk m b o live ok =
      let k : Kept (bare m.db)
          (alter_bsb m b (λ bsb. record bsb { flowspec_qb = tspec_copy_and_ntoh o })) =
        alter_bsb-Kept m b _ (λ bsb. refl) (record { same = refl }) in
      let noted = Kept-MemoryOk m.db _ k ok in
      branch_keeps (λ x. MemoryOk x.db) _ _ _ noted
        (start_timer-MemoryOk hal _ (Timer.bsb_blockade b)
          (is_live-Kept (bare m.db) _ (Timer.bsb_blockade b) k live) noted)

  created_bsb :
      (m : Machine) (key : PathKey) (b : ℕ)
      → is_live (bare (rsvp_bsb_create m.db key (some b)).1) (Timer.bsb_blockade b) ≡ true
  unfolding rsvp_bsb_create insert
  created_bsb m key b = let self : (b == b) ≡ true = ground arith in rw self refl

  find_or_create_bsb-MemoryOk :
      (m : Machine) (b : Option ℕ) (o : List ℕ)
      → Fresh hal
      → rsvp_bsb_find m.db info.key ≡ b
      → MemoryOk m.db
      → MemoryOk (find_or_create_bsb hal m info b o).db
  unfolding rsvp_bsb_create
  find_or_create_bsb-MemoryOk m none o fresh e ok = elim (Option-cases (hal.new_bsb m.db)) [
    | inl full ↦ rw full ok
    | inr (b, got) ↦ rw got (
        block-MemoryOk (record m { db = (rsvp_bsb_create m.db info.key (some b)).1 }) b o
          (created_bsb m info.key b)
          (bsb_create-MemoryOk m.db ok info.key b (fresh.bsb m.db b got)))
  ]
  find_or_create_bsb-MemoryOk m (some b) o fresh e ok =
      block-MemoryOk m b o (found_bsb m.db info.key b e) ok

  note_blockade-MemoryOk :
      (m : Machine) (spec flowspec : Option (List ℕ))
      → Fresh hal
      → MemoryOk m.db
      → MemoryOk (note_blockade hal m info spec flowspec).db
  unfolding note_blockade
  note_blockade-MemoryOk m none flowspec fresh ok = ok
  note_blockade-MemoryOk m (some spec) none fresh ok = ok
  note_blockade-MemoryOk m (some spec) (some o) fresh ok =
      branch_keeps (λ x. MemoryOk x.db) _ _ _
        (find_or_create_bsb-MemoryOk m (rsvp_bsb_find m.db info.key) o fresh refl ok) ok

  pass_resv_err-MemoryOk :
      (m : Machine) (rsb : Option Rsb) → MemoryOk m.db → MemoryOk (pass_resv_err hal m info rsb).db
  pass_resv_err-MemoryOk m none ok = ok
  pass_resv_err-MemoryOk m (some rsb) ok =
      Kept-MemoryOk m.db _
        (branch_keeps (Kept (bare m.db)) (hal.is_local_addr info.key.dest_addr) _ _
          (record { same = refl })
          (propagate_resv_err-Steady (Kept-Steady (bare m.db)) hal m (record { same = refl }) rsb
            info.error_spec))
        ok

  handle_path_err-MemoryOk :
      (m : Machine) → MemoryOk m.db → MemoryOk (handle_path_err hal m info).db
  unfolding handle_path_err
  handle_path_err-MemoryOk m ok =
      pass_path_err-MemoryOk m (follow m.db.psbs.heap (rsvp_psb_find m.db info.key)) ok

  handle_resv_err-MemoryOk :
      (m : Machine) → Fresh hal → MemoryOk m.db → MemoryOk (handle_resv_err hal m info).db
  unfolding handle_resv_err
  handle_resv_err-MemoryOk m fresh ok =
      pass_resv_err-MemoryOk _ _ (note_blockade-MemoryOk m info.error_spec info.flowspec fresh ok)

  pass_hello-MemoryOk :
      (m : Machine) (o : Option (List ℕ)) → MemoryOk m.db → MemoryOk (pass_hello m info o).db
  pass_hello-MemoryOk m none ok = ok
  pass_hello-MemoryOk m (some o) ok = ok

  pub rsvp_handle_message-MemoryOk :
      (m : Machine) → Fresh hal → MemoryOk m.db → MemoryOk (rsvp_handle_message hal m info).db
  unfolding rsvp_handle_message
  rsvp_handle_message-MemoryOk m fresh ok =
      given_keeps (λ x. MemoryOk x.db) info.common_hdr m _ ok
        (λ hdr.
          branch_keeps (λ x. MemoryOk x.db) _ _ _ (handle_path_message-MemoryOk hal m info fresh ok)
            (branch_keeps (λ x. MemoryOk x.db) _ _ _
              (handle_resv_message-MemoryOk hal m info fresh ok)
              (branch_keeps (λ x. MemoryOk x.db) _ _ _ (handle_path_tear-MemoryOk hal m info ok)
                (branch_keeps (λ x. MemoryOk x.db) _ _ _ (handle_resv_tear-MemoryOk hal m info ok)
                  (branch_keeps (λ x. MemoryOk x.db) _ _ _ (handle_path_err-MemoryOk m ok)
                    (branch_keeps (λ x. MemoryOk x.db) _ _ _ (handle_resv_err-MemoryOk m fresh ok)
                      (branch_keeps (λ x. MemoryOk x.db) _ _ m
                        (pass_hello-MemoryOk m info.hello_obj ok) ok)))))))
