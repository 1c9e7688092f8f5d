-- ===== src/Machine/Memory/Torn.antt =====
-- The memory of src/pi/rsvp_state_machine.c when state is torn down.
use rsvp_te.Prelude.{
  ℕ, ◌≡◌, refl, sym, ap, ◌∙◌, subst, Bool, true, false, Option, none, some, inl, inr, ◌==◌,
  if◌then◌else◌, arith, Bool-cases, Option-cases,
}
use mathlib.Core.Path.{fun_ext}
use rsvp_te.Label.{label_mgr_free}
use rsvp_te.Wire.Parser.{MessageInfo}
use rsvp_te.StateDb.{
  Db, Timer, rsb_key, rsvp_psb_find, rsvp_rsb_find, rsvp_rsb_delete, free_rsb, clear_rsb,
}
use rsvp_te.StateDb.Blocks.{Psb, Rsb}
use rsvp_te.StateDb.Buckets.{Table, cut_back, remove}
use rsvp_te.StateDb.Contract.{chained}
use rsvp_te.StateDb.Valid.{IsValid, rsb_delete-IsValid}
use rsvp_te.Machine.{Hal, Machine, mpls_remove, emit, alter, alter_psb, stop_timer}
use rsvp_te.Machine.Sending.{follow}
use rsvp_te.Machine.Steady.{bare_psb, given_keeps, given_at_keeps, branch_keeps}
use rsvp_te.Machine.Sent.{propagate_path_tear-Steady, propagate_resv_tear-Steady}
use rsvp_te.Machine.Cleanup.{
  dest_of, release_forwarding, rsb_cleanup_resources, unlink_psb, rsvp_rsb_cleanup,
  cleanup_associated, rsvp_psb_cleanup, delete_bsb, cleanup_psb, cleanup_rsb, handle_path_tear,
  handle_resv_tear, rsvp_teardown_path,
}
use rsvp_te.Machine.Memory.{bare, bare_rsb, option_map, Agree, MemoryOk, Kept, Kept-MemoryOk}
use rsvp_te.Machine.Memory.Bare.{bare-rsb_delete, alter_rsb-Kept, Kept-Steady}
use rsvp_te.Machine.Memory.Agreeing.{rsb_delete-Agree}
use rsvp_te.Machine.Memory.Running.{stop-MemoryOk}
use rsvp_te.Machine.Memory.Steps.{rsb_delete-MemoryOk, psb_delete-MemoryOk, bsb_delete-MemoryOk}

-- The pointer back is NULL already when the deletion comes to it.
abbrev parted : Db → ℕ → Db
parted db p = record db { psbs = alter db.psbs p clear_rsb }

cut_twice :
    (t : Table Psb) (p : ℕ)
    → cut_back clear_rsb (some p) (alter t p clear_rsb).heap ≡ cut_back clear_rsb (some p) t.heap
unfolding alter
cut_twice t p =
    let self : (p == p) ≡ true = ground arith in
    elim (Option-cases (t.heap p)) [
      | inl free ↦
          rw (self, free, cut_back)
            (fun_ext (λ q. elim (Bool-cases (p == q)) [
              | inl hit ↦
                  let p≡q : p ≡ q = ground arith in
                  let there : t.heap q ≡ none = ap t.heap (sym p≡q) ∙ free in rw (hit, there) refl
              | inr miss ↦ rw miss refl
            ]))
      | inr (a, at_p) ↦
          rw (self, at_p, cut_back)
            (fun_ext
              (λ q. elim (Bool-cases (p == q)) [ inl hit ↦ rw hit refl | inr miss ↦ rw miss refl ]))
    ]

rsb_delete-parted :
    (db : Db) (p r : ℕ) (rsb : Rsb)
    → IsValid db
    → db.rsbs.heap r ≡ some rsb
    → rsb.associated_psb ≡ some p
    → rsvp_rsb_delete (parted db p) r ≡ rsvp_rsb_delete db r
unfolding rsvp_rsb_delete free_rsb alter remove
rsb_delete-parted db p r rsb v at_r to =
    rw (at_r, rsvp_rsb_delete, chained rsb_key v.rsbs_hold r rsb at_r, to)
      (λ i. record (free_rsb db r rsb) { psbs = record db.psbs { heap = cut_twice db.psbs p i } })

bare_cleared :
    (o : Option Psb) (hit : Bool)
    → option_map bare_psb (if hit then elim o [ none ↦ none | some a ↦ some (clear_rsb a) ] else o)
      ≡ (if hit
          then elim (option_map bare_psb o) [ none ↦ none | some a ↦ some (clear_rsb a) ]
          else option_map bare_psb o)
bare_cleared none true = refl
bare_cleared none false = refl
bare_cleared (some a) true = refl
bare_cleared (some a) false = refl

bare-parted : (m : Machine) (p : ℕ) → bare (unlink_psb m (some p)).db ≡ parted (bare m.db) p
unfolding alter_psb alter
bare-parted m p = λ i. record (bare m.db) {
  psbs = record m.db.psbs { heap = fun_ext (λ q. bare_cleared (m.db.psbs.heap q) (p == q)) i };
}

part-MemoryOk :
    (m : Machine) (p r : ℕ) (b : Rsb)
    → MemoryOk m.db
    → (bare m.db).rsbs.heap r ≡ some b
    → b.associated_psb ≡ some p
    → MemoryOk (rsvp_rsb_delete (unlink_psb m (some p)).db r)
part-MemoryOk m p r b ok at_r to =
    let e =
      bare-rsb_delete (unlink_psb m (some p)).db r
      ∙ (ap (λ d. rsvp_rsb_delete d r) (bare-parted m p)
          ∙ rsb_delete-parted (bare m.db) p r b ok.valid at_r to) in
    record {
      valid = subst IsValid (sym e) (rsb_delete-IsValid (bare m.db) r ok.valid);
      agree = subst Agree (sym e) (rsb_delete-Agree (bare m.db) ok.agree r);
    }

-- An RSB, which another machine has as well, is unlinked and deleted.
pub unlink_delete-MemoryOk :
    (m : Machine) (r : ℕ) (to : Option ℕ) (b : Rsb)
    → MemoryOk m.db
    → (bare m.db).rsbs.heap r ≡ some b
    → b.associated_psb ≡ to
    → MemoryOk (rsvp_rsb_delete (unlink_psb m to).db r)
unlink_delete-MemoryOk m r none b ok at_r to = rsb_delete-MemoryOk m.db ok r
unlink_delete-MemoryOk m r (some p) b ok at_r to = part-MemoryOk m p r b ok at_r to

release_forwarding-Kept :
    {d : Db} (m : Machine) (r : ℕ) (rsb : Rsb) (psb : Option Psb)
    → Kept d m
    → Kept d (release_forwarding m r rsb psb)
unfolding release_forwarding
release_forwarding-Kept {d} m r rsb psb k =
    let removed = record (emit m (mpls_remove rsb.label_in (dest_of psb))) {
      labels = label_mgr_free m.labels rsb.label_in;
    } in
    branch_keeps (Kept d) _ _ _
      (alter_rsb-Kept removed r (λ x. record x { label_in = 0 }) (λ x. refl)
        (record { same = k.same }))
      (branch_keeps (Kept d) _ _ _ (record { same = k.same }) k)

-- Timers of an RSB are stopped, and its label is given back.
record Released (d : Db) (m : Machine) : Type 0 where
  ok : MemoryOk m.db
  rsbs : (bare m.db).rsbs ≡ d.rsbs

rsb_cleanup_resources-Released :
    (d : Db) (m : Machine) (r : ℕ)
    → MemoryOk d
    → Kept (bare d) m
    → Released (bare d) (rsb_cleanup_resources m r)
unfolding rsb_cleanup_resources stop_timer
rsb_cleanup_resources-Released d m r ok k =
    given_keeps (Released (bare d)) (m.db.rsbs.heap r) m _
      (record { ok = Kept-MemoryOk d m k ok; rsbs = ap (λ (x : Db). x.rsbs) k.same })
      (λ rsb.
        let k' = release_forwarding-Kept m r rsb (follow m.db.psbs.heap rsb.associated_psb) k in
        record {
          ok =
              stop-MemoryOk (Timer.rsb_cleanup r) _
                (stop-MemoryOk (Timer.rsb_refresh r) _ (Kept-MemoryOk d _ k' ok));
          rsbs = ap (λ (x : Db). x.rsbs) k'.same;
        })

pub rsvp_rsb_cleanup-MemoryOk :
    (hal : Hal) (m : Machine) (r : ℕ) (propagate : Bool)
    → MemoryOk m.db
    → MemoryOk (rsvp_rsb_cleanup hal m r propagate).db
unfolding rsvp_rsb_cleanup
rsvp_rsb_cleanup-MemoryOk hal m r propagate ok =
    given_at_keeps (λ x. MemoryOk x.db) (m.db.rsbs.heap r) m _ ok
      (λ rsb e.
        let k : Kept (bare m.db) m = record { same = refl } in
        let told =
          branch_keeps (Kept (bare m.db)) _ _ m
            (propagate_resv_tear-Steady (Kept-Steady (bare m.db)) hal m k rsb) k in
        let freed = rsb_cleanup_resources-Released m.db _ r ok told in
        unlink_delete-MemoryOk (rsb_cleanup_resources _ r) r rsb.associated_psb (bare_rsb rsb)
          freed.ok (ap (λ (t : Table Rsb). t.heap r) freed.rsbs ∙ ap (option_map bare_rsb) e) refl)

pub cleanup_associated-MemoryOk :
    (hal : Hal) (m : Machine) (r : Option ℕ)
    → MemoryOk m.db
    → MemoryOk (cleanup_associated hal m r).db
cleanup_associated-MemoryOk hal m none ok = ok
cleanup_associated-MemoryOk hal m (some r) ok = rsvp_rsb_cleanup-MemoryOk hal m r false ok

pub rsvp_psb_cleanup-MemoryOk :
    (hal : Hal) (m : Machine) (p : ℕ) (propagate : Bool)
    → MemoryOk m.db
    → MemoryOk (rsvp_psb_cleanup hal m p propagate).db
unfolding rsvp_psb_cleanup stop_timer
rsvp_psb_cleanup-MemoryOk hal m p propagate ok =
    given_keeps (λ x. MemoryOk x.db) (m.db.psbs.heap p) m _ ok
      (λ psb.
        let k : Kept (bare m.db) m = record { same = refl } in
        let told =
          branch_keeps (Kept (bare m.db)) _ _ m
            (propagate_path_tear-Steady (Kept-Steady (bare m.db)) hal m p k) k in
        psb_delete-MemoryOk _
          (stop-MemoryOk (Timer.psb_cleanup p) _ (
            stop-MemoryOk (Timer.psb_refresh p) _ (
              cleanup_associated-MemoryOk hal _ psb.associated_rsb (Kept-MemoryOk m.db _ told ok))))
          p)

module _ (hal : Hal) (m : Machine) (ok : MemoryOk m.db) where
  delete_bsb-MemoryOk : (b : Option ℕ) → MemoryOk (delete_bsb m b).db
  unfolding stop_timer
  delete_bsb-MemoryOk none = ok
  delete_bsb-MemoryOk (some b) =
      bsb_delete-MemoryOk _ (stop-MemoryOk (Timer.bsb_blockade b) m.db ok) b

  pub cleanup_psb-MemoryOk : (p : Option ℕ) → MemoryOk (cleanup_psb hal m p).db
  cleanup_psb-MemoryOk none = ok
  cleanup_psb-MemoryOk (some p) = rsvp_psb_cleanup-MemoryOk hal m p true ok

  cleanup_rsb-MemoryOk : (r : Option ℕ) → MemoryOk (cleanup_rsb hal m r).db
  cleanup_rsb-MemoryOk none = ok
  cleanup_rsb-MemoryOk (some r) = rsvp_rsb_cleanup-MemoryOk hal m r true ok

  pub rsvp_teardown_path-MemoryOk : (t l : ℕ) → MemoryOk (rsvp_teardown_path hal m t l).db
  unfolding rsvp_teardown_path
  rsvp_teardown_path-MemoryOk t l = cleanup_psb-MemoryOk _

pub handle_path_tear-MemoryOk :
    (hal : Hal) (m : Machine) (info : MessageInfo)
    → MemoryOk m.db
    → MemoryOk (handle_path_tear hal m info).db
unfolding handle_path_tear
handle_path_tear-MemoryOk hal m info ok =
    delete_bsb-MemoryOk hal _ (cleanup_psb-MemoryOk hal m ok (rsvp_psb_find m.db info.key)) _

pub handle_resv_tear-MemoryOk :
    (hal : Hal) (m : Machine) (info : MessageInfo)
    → MemoryOk m.db
    → MemoryOk (handle_resv_tear hal m info).db
unfolding handle_resv_tear
handle_resv_tear-MemoryOk hal m info ok =
    delete_bsb-MemoryOk hal _ (cleanup_rsb-MemoryOk hal m ok (rsvp_rsb_find m.db info.key)) _
