-- ===== src/Machine/Memory/Emptied.antt =====
-- `rsvp_state_machine_shutdown` of src/pi/rsvp_state_machine.c: what is left in memory.
use rsvp_te.Prelude.{
  ℕ, ◌+◌, ◌<◌, ◌≡◌, refl, sym, ap, ◌∙◌, subst, true, false, Bool, List, ◌∷◌, not, ◌==◌, Option,
  none, some, arith, length, ltb, if◌then◌else◌,
}
use rsvp_te.Label.{label_mgr_free}
use rsvp_te.StateDb.{Db, Timer, psb_key, rsvp_psb_find_by_bucket, rsvp_rsb_delete, stop}
use rsvp_te.StateDb.Blocks.{Psb, Rsb}
use rsvp_te.StateDb.Buckets.{update}
use rsvp_te.StateDb.Contract.{headed}
use rsvp_te.StateDb.Drain.{drain_empties, over_buckets_reaches}
use rsvp_te.StateDb.Heads.{
  EmptyBelow, EmptyBelow-update, EmptyBelow-suc, update_at, psb_delete_head, rsb_delete_chains,
  none_left, finds,
}
use rsvp_te.Machine.{
  Hal, Machine, given, alter, alter_psb, alter_rsb, emit, stop_timer, mpls_remove,
}
use rsvp_te.Machine.Sending.{propagate_path_tear, ensure_label, follow}
use rsvp_te.Machine.Cleanup.{
  dest_of, ingress_of, release_forwarding, rsb_cleanup_resources, unlink_psb, rsvp_rsb_cleanup,
  cleanup_associated, rsvp_psb_cleanup,
}
use rsvp_te.Machine.Shutdown.{shut_bucket, rsvp_state_machine_shutdown}
use rsvp_te.Machine.Steady.{bare_psb, Steady, given_keeps, branch_keeps}
use rsvp_te.Machine.Sent.{propagate_path_tear-Steady, propagate_resv_tear-Steady}
use rsvp_te.Machine.Memory.{bare, MemoryOk, Kept, Kept-MemoryOk}
use rsvp_te.Machine.Memory.Bare.{bare-psb_delete, Kept-Steady}
use rsvp_te.Machine.Memory.Steps.{behind_bare}
use rsvp_te.Machine.Memory.Running.{stop-MemoryOk}
use rsvp_te.Machine.Memory.Torn.{rsvp_psb_cleanup-MemoryOk, cleanup_associated-MemoryOk}

-- The chains of PSBs are `c`.
record Chains (c : ℕ → List ℕ) (m : Machine) : Type 0 where
  same : m.db.psbs.buckets ≡ c

alter_rsb-Chains :
    {c : ℕ → List ℕ} (m : Machine) (r : ℕ) (f : Rsb → Rsb) → Chains c m → Chains c (alter_rsb m r f)
unfolding alter_rsb
alter_rsb-Chains m r f k = record { same = k.same }

Chains-Steady : (c : ℕ → List ℕ) → Steady (Chains c)
unfolding alter_psb alter ensure_label
Chains-Steady c = record {
  emit = λ m e k. record { same = k.same };
  alter_psb = λ m p f keeps k. record { same = k.same };
  take_label = λ m r k.
      given_keeps (Chains c) (m.db.rsbs.heap r) m _ k (λ rsb.
        branch_keeps (Chains c) _ _ _ (alter_rsb-Chains _ r _ (record { same = k.same })) k);
}

release_forwarding-Chains :
    {c : ℕ → List ℕ} (m : Machine) (r : ℕ) (rsb : Rsb) (psb : Option Psb)
    → Chains c m
    → Chains c (release_forwarding m r rsb psb)
unfolding release_forwarding
release_forwarding-Chains {c} m r rsb psb k =
    let removed = record (emit m (mpls_remove rsb.label_in (dest_of psb))) {
      labels = label_mgr_free m.labels rsb.label_in;
    } in
    branch_keeps (Chains c) (not (rsb.label_in == 0)) _ _
      (alter_rsb-Chains removed r (λ x. record x { label_in = 0 }) (record { same = k.same }))
      (branch_keeps (Chains c) (ingress_of psb) (emit m (mpls_remove 0 (dest_of psb))) m
        (record { same = k.same }) k)

rsb_cleanup_resources-Chains :
    {c : ℕ → List ℕ} (m : Machine) (r : ℕ) → Chains c m → Chains c (rsb_cleanup_resources m r)
unfolding rsb_cleanup_resources stop_timer
rsb_cleanup_resources-Chains {c} m r k = given_keeps (Chains c) (m.db.rsbs.heap r) m _ k (λ rsb.
    record {
      same = (release_forwarding-Chains m r rsb (follow m.db.psbs.heap rsb.associated_psb) k).same;
    })

unlink_delete-Chains :
    {c : ℕ → List ℕ} (m : Machine) (r : ℕ) (to : Option ℕ)
    → Chains c m
    → Chains c (record m { db = rsvp_rsb_delete (unlink_psb m to).db r })
unfolding alter_psb alter
unlink_delete-Chains m r none k = record { same = (rsb_delete_chains m.db r).0 ∙ k.same }
unlink_delete-Chains m r (some p) k = record {
  same = (rsb_delete_chains (unlink_psb m (some p)).db r).0 ∙ k.same;
}

rsvp_rsb_cleanup-Chains :
    {c : ℕ → List ℕ} (hal : Hal) (m : Machine) (r : ℕ) (propagate : Bool)
    → Chains c m
    → Chains c (rsvp_rsb_cleanup hal m r propagate)
unfolding rsvp_rsb_cleanup
rsvp_rsb_cleanup-Chains {c} hal m r propagate k =
    given_keeps (Chains c) (m.db.rsbs.heap r) m _ k (λ rsb.
      let told =
        branch_keeps (Chains c) _ _ m (propagate_resv_tear-Steady (Chains-Steady c) hal m k rsb)
          k in
      record {
        same =
            (unlink_delete-Chains _ r rsb.associated_psb
              (rsb_cleanup_resources-Chains _ r told)).same;
      })

cleanup_associated-Chains :
    {c : ℕ → List ℕ} (hal : Hal) (m : Machine) (r : Option ℕ)
    → Chains c m
    → Chains c (cleanup_associated hal m r)
cleanup_associated-Chains hal m none k = k
cleanup_associated-Chains hal m (some r) k = rsvp_rsb_cleanup-Chains hal m r false k

module _ (hal : Hal) where
  -- The first PSB of a chain is cleaned up.
  psb_cleanup_head :
      (m : Machine) (h p : ℕ) (ps : List ℕ)
      → MemoryOk m.db
      → m.db.psbs.buckets h ≡ p ∷ ps
      → (rsvp_psb_cleanup hal m p true).db.psbs.buckets ≡ update m.db.psbs.buckets h ps
  unfolding rsvp_psb_cleanup stop_timer given
  psb_cleanup_head m h p ps ok e =
      let (b, at_b, _) = headed psb_key ok.valid.psbs_hold h p ps e in
      let (psb, at_p, _) = behind_bare bare_psb (m.db.psbs.heap p) b at_b in
      let c = m.db.psbs.buckets in
      let told =
        if not (hal.is_local_addr psb.key.dest_addr) then propagate_path_tear hal m p else m in
      let k =
        branch_keeps (Kept (bare m.db)) (not (hal.is_local_addr psb.key.dest_addr)) _ m
          (propagate_path_tear-Steady (Kept-Steady (bare m.db)) hal m p (record { same = refl }))
          (record { same = refl }) in
      let k' =
        branch_keeps (Chains c) (not (hal.is_local_addr psb.key.dest_addr)) _ m
          (propagate_path_tear-Steady (Chains-Steady c) hal m p (record { same = refl }))
          (record { same = refl }) in
      let freed = cleanup_associated hal told psb.associated_rsb in
      let chains = cleanup_associated-Chains hal told psb.associated_rsb k' in
      let x = stop (Timer.psb_cleanup p) (stop (Timer.psb_refresh p) freed.db) in
      let fine = stop-MemoryOk (Timer.psb_cleanup p) _ (
        stop-MemoryOk (Timer.psb_refresh p) freed.db (
          cleanup_associated-MemoryOk hal told psb.associated_rsb
            (Kept-MemoryOk m.db told k ok))) in
      rw at_p (
        ap (λ (d : Db). d.psbs.buckets) (bare-psb_delete x p)
        ∙ psb_delete_head (bare x) fine.valid h p ps (ap (λ (f : ℕ → List ℕ). f h) chains.same ∙ e)
        ∙ ap (λ (f : ℕ → List ℕ). update f h ps) chains.same)

  -- The loop on the bucket `i` ends with its chain empty.
  shut_bucket_empties :
      (i : ℕ) (m : Machine)
      → i < 1024
      → MemoryOk m.db × EmptyBelow i m.db.psbs.buckets
      → MemoryOk (shut_bucket hal i m).db × EmptyBelow (i + 1) (shut_bucket hal i m).db.psbs.buckets
  unfolding shut_bucket rsvp_psb_find_by_bucket
  shut_bucket_empties i m lt ok =
      let inside : ltb i 1024 ≡ true = ground arith in
      let ((fine, empty), e) =
        drain_empties (λ x. MemoryOk x.db × EmptyBelow i x.db.psbs.buckets)
          (λ x. x.db.psbs.buckets i) (λ x. rsvp_psb_find_by_bucket x.db i)
          (λ x p. rsvp_psb_cleanup hal x p true)
          (λ x e. rw inside (none_left (x.db.psbs.buckets i) e))
          (λ x p ps e. rw inside (finds (x.db.psbs.buckets i) p ps e))
          (λ x p ps k e.
            let f = psb_cleanup_head x i p ps k.0 e in
            (
              (
                rsvp_psb_cleanup-MemoryOk hal x p true k.0,
                subst (EmptyBelow i) (sym f)
                    (EmptyBelow-update i i x.db.psbs.buckets ps (omega arith) k.1),
              ),
              ap (λ (c : ℕ → List ℕ). c i) f ∙ update_at x.db.psbs.buckets i ps,
            ))
          (length (m.db.psbs.buckets i)) (m.db.psbs.buckets i) m refl (omega arith) ok in
      (fine, EmptyBelow-suc i _ e empty)

  pub rsvp_state_machine_shutdown-EmptyBelow :
      (m : Machine)
      → MemoryOk m.db
      → MemoryOk (rsvp_state_machine_shutdown hal m).db
        × EmptyBelow 1024 (rsvp_state_machine_shutdown hal m).db.psbs.buckets
  unfolding rsvp_state_machine_shutdown
  rsvp_state_machine_shutdown-EmptyBelow m ok =
      over_buckets_reaches (λ i x. MemoryOk x.db × EmptyBelow i x.db.psbs.buckets) (shut_bucket hal)
        1024 shut_bucket_empties 1024 0 m (omega arith) (ok, λ j lt. absurd (omega arith))
