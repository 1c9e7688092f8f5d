-- ===== src/Machine/Memory/PathSteps.antt =====
-- The memory of src/pi/rsvp_state_machine.c when a PATH message comes.
use rsvp_te.Prelude.{
  ℕ, ◌≡◌, refl, ap, ◌∙◌, Bool, true, false, Option, none, some, inl, inr, ◌==◌, arith, Option-cases,
}
use rsvp_te.Wire.Parser.{MessageInfo, PathKey, is_some}
use rsvp_te.StateDb.{Db, Timer, rsvp_psb_find, rsvp_psb_create, rsvp_rsb_find, rsvp_rsb_create}
use rsvp_te.StateDb.Blocks.{Psb, Rsb, new_psb, new_rsb}
use rsvp_te.StateDb.Buckets.{Table, insert}
use rsvp_te.StateDb.Valid.{is_live}
use rsvp_te.Machine.{Hal, Machine, alter_psb, alter_rsb, start_timer}
use rsvp_te.Machine.Checks.{routing_problem, rsvp_validate_path_message, resolve_path_next_hop}
use rsvp_te.Machine.Steady.{given_keeps, branch_keeps}
use rsvp_te.Machine.Sent.{
  send_path_err-Steady, send_path_downstream-Steady, send_resv_upstream-Steady,
}
use rsvp_te.Machine.Rerouting.{rsvp_frr_auto_associate-Steady}
use rsvp_te.Machine.PathMsg.{
  update_psb, path_timers, refresh_of, first_resv, path_at_egress, path_at_transit, path_role,
  accept_path, default_refresh_ms, accept_new_path, find_or_create_path, after_path_check,
  handle_path_message,
}
use rsvp_te.Machine.Memory.{bare, MemoryOk, Fresh, Kept, Kept-MemoryOk}
use rsvp_te.Machine.Memory.Bare.{alter_rsb-Kept, Kept-Steady}
use rsvp_te.Machine.Memory.Steps.{
  psb_create-MemoryOk, rsb_create-MemoryOk, psb_delete-MemoryOk, found_psb, unlinked_psb,
}
use rsvp_te.Machine.Memory.Running.{start_timer-MemoryOk}
use rsvp_te.Machine.Memory.Joined.{link-MemoryOk, link-live}
use rsvp_te.Machine.Memory.Timed.{Blocks, Kept-Blocks, start_timer-Blocks, restart_timer-Blocks}
use rsvp_te.Machine.Memory.PathFields.{update_psb_bare}

-- A PSB that stands at `p`, linked or not.
abbrev pub StandsAt : Db → ℕ → PathKey → Type 0
StandsAt d p key =
    (o : Option ℕ) × (d.psbs.heap p ≡ some (record (new_psb key) { associated_rsb = o }))

path_timers-Blocks :
    (hal : Hal) (d : Db) (m : Machine) (p : ℕ)
    → is_live d (Timer.psb_cleanup p) ≡ true
    → Blocks d m
    → Blocks d (path_timers hal m p)
unfolding path_timers
path_timers-Blocks hal d m p live b =
    let cleaned = restart_timer-Blocks hal d (Timer.psb_cleanup p) live m b in
    branch_keeps (Blocks d) _ _ _ cleaned
      (start_timer-Blocks hal d (Timer.psb_refresh p) live _ cleaned)

module _ (hal : Hal) where
  first_resv-MemoryOk :
      (m : Machine) (p r : ℕ) (key : PathKey)
      → MemoryOk m.db
      → (bare m.db).psbs.heap p ≡ some (new_psb key)
      → (bare m.db).rsbs.heap r ≡ some (new_rsb key)
      → MemoryOk (first_resv hal m p (some r)).db
  first_resv-MemoryOk m p r key ok at_p at_r =
      let refresh = refresh_of (m.db.psbs.heap p) in
      let f = λ (rsb : Rsb). record rsb { associated_psb = some p; refresh_ms = refresh } in
      let g = λ (psb : Psb). record psb { associated_rsb = some r } in
      let x = alter_psb (alter_rsb m r f) p g in
      let linked = link-MemoryOk m p r key f g (λ rsb. refl) (λ psb. refl) at_p at_r ok in
      let live = link-live m p r key f g (λ rsb. refl) (λ psb. refl) at_p at_r in
      let started = start_timer-MemoryOk hal x (Timer.rsb_refresh r) live linked in
      let y = start_timer hal x (Timer.rsb_refresh r) in
      Kept-MemoryOk y.db _
        (send_resv_upstream-Steady (Kept-Steady (bare y.db)) hal y r (record { same = refl }))
        started

  created_rsb :
      (m : Machine) (p : ℕ) (key : PathKey) (r : ℕ)
      → MemoryOk m.db
      → m.db.rsbs.heap r ≡ none
      → (bare m.db).psbs.heap p ≡ some (new_psb key)
      → MemoryOk
          (first_resv hal (record m { db = (rsvp_rsb_create m.db key (some r)).1 }) p (some r)).db
  unfolding rsvp_rsb_create insert
  created_rsb m p key r ok unused at_p =
      let self : (r == r) ≡ true = ground arith in
      first_resv-MemoryOk (record m { db = (rsvp_rsb_create m.db key (some r)).1 }) p r key
        (rsb_create-MemoryOk m.db ok key r unused) at_p (rw self refl)

  path_at_egress-MemoryOk :
      (m : Machine) (info : MessageInfo) (p : ℕ) (r : Option ℕ)
      → Fresh hal
      → MemoryOk m.db
      → StandsAt (bare m.db) p info.key
      → rsvp_rsb_find m.db info.key ≡ r
      → MemoryOk (path_at_egress hal m info p r).db
  unfolding path_at_egress rsvp_rsb_create
  path_at_egress-MemoryOk m info p (some r) fresh ok (o, at_p) e =
      Kept-MemoryOk m.db _
        (alter_rsb-Kept m r (λ rsb. record rsb { refresh_ms = refresh_of (m.db.psbs.heap p) })
          (λ rsb. refl) (record { same = refl }))
        ok
  path_at_egress-MemoryOk m info p none fresh ok (o, at_p) e =
      elim (Option-cases (hal.new_rsb m.db)) [
        | inl full ↦ rw full ok
        | inr (r, got) ↦ rw got (
            created_rsb m p info.key r ok (fresh.rsb m.db r got)
              (unlinked_psb m.db info.key p o ok at_p e))
      ]

  path_at_transit-MemoryOk :
      (d : Db) (m : Machine) (info : MessageInfo) (p : ℕ) (is_new : Bool) (out : Option ℕ)
      → MemoryOk d
      → Kept (bare d) m
      → MemoryOk (path_at_transit hal m info p is_new out).db
  unfolding path_at_transit
  path_at_transit-MemoryOk d m info p is_new none ok k =
      let told =
        Kept-MemoryOk d _ (send_path_err-Steady (Kept-Steady (bare d)) hal m k info routing_problem)
          ok in
      branch_keeps (λ x. MemoryOk x.db) is_new _ _ (psb_delete-MemoryOk _ told p) told
  path_at_transit-MemoryOk d m info p is_new (some i) ok k =
      let forwarded = send_path_downstream-Steady (Kept-Steady (bare d)) hal m k p in
      Kept-MemoryOk d _
        (branch_keeps (Kept (bare d)) _ _ _
          (rsvp_frr_auto_associate-Steady (Kept-Steady (bare d)) _ p forwarded) forwarded)
        ok

  path_role-MemoryOk :
      (m : Machine) (info : MessageInfo) (p : ℕ) (is_new : Bool)
      → Fresh hal
      → MemoryOk m.db
      → StandsAt (bare m.db) p info.key
      → MemoryOk (path_role hal m info p is_new).db
  unfolding path_role
  path_role-MemoryOk m info p is_new fresh ok stands =
      branch_keeps (λ x. MemoryOk x.db) _ _ _
        (path_at_egress-MemoryOk m info p (rsvp_rsb_find m.db info.key) fresh ok stands refl)
        (branch_keeps (λ x. MemoryOk x.db) _ _ _ ok
          (given_keeps (λ x. MemoryOk x.db) (m.db.psbs.heap p) m _ ok
            (λ psb.
              path_at_transit-MemoryOk m.db _ info p is_new (resolve_path_next_hop hal psb).2 ok
                ((Kept-Steady (bare m.db)).alter_psb m p _ (λ q. refl) (record { same = refl })))))

  pub accept_path-MemoryOk :
      (m : Machine) (info : MessageInfo) (p : ℕ) (is_new : Bool)
      → Fresh hal
      → MemoryOk m.db
      → StandsAt (bare m.db) p info.key
      → MemoryOk (accept_path hal m info p is_new).db
  unfolding accept_path
  accept_path-MemoryOk m info p is_new fresh ok (o, at_p) =
      let k : Kept (bare m.db) m = record { same = refl } in
      let updated =
        (Kept-Steady (bare m.db)).alter_psb m p (update_psb hal info) (update_psb_bare hal info)
          k in
      let timed =
        path_timers-Blocks hal (bare m.db) _ p (ap is_some at_p) (Kept-Blocks m.db _ updated ok) in
      path_role-MemoryOk _ info p is_new fresh timed.ok
        (o, ap (λ (t : Table Psb). t.heap p) timed.psbs ∙ at_p)

  accept_new_path-MemoryOk :
      (m : Machine) (info : MessageInfo) (p : ℕ)
      → Fresh hal
      → MemoryOk m.db
      → (bare m.db).psbs.heap p ≡ some (new_psb info.key)
      → MemoryOk (accept_new_path hal m info (some p)).db
  accept_new_path-MemoryOk m info p fresh ok at_p =
      let k : Kept (bare m.db) m = record { same = refl } in
      let set =
        (Kept-Steady (bare m.db)).alter_psb m p
          (λ psb. record psb { refresh_ms = default_refresh_ms }) (λ psb. refl) k in
      accept_path-MemoryOk _ info p true fresh (Kept-MemoryOk m.db _ set ok)
        (none, ap (λ (x : Db). x.psbs.heap p) set.same ∙ at_p)

  created_psb :
      (m : Machine) (info : MessageInfo) (p : ℕ)
      → Fresh hal
      → MemoryOk m.db
      → m.db.psbs.heap p ≡ none
      → MemoryOk
          (accept_new_path hal
            (record m { db = (rsvp_psb_create m.db info.key (some p)).1 })
            info
            (some p)).db
  unfolding rsvp_psb_create insert
  created_psb m info p fresh ok unused =
      let self : (p == p) ≡ true = ground arith in
      accept_new_path-MemoryOk (record m { db = (rsvp_psb_create m.db info.key (some p)).1 }) info p
        fresh (psb_create-MemoryOk m.db ok info.key p unused) (rw self refl)

  find_or_create_path-MemoryOk :
      (m : Machine) (info : MessageInfo) (p : Option ℕ)
      → Fresh hal
      → MemoryOk m.db
      → rsvp_psb_find m.db info.key ≡ p
      → MemoryOk (find_or_create_path hal m info p).db
  unfolding rsvp_psb_create
  find_or_create_path-MemoryOk m info (some p) fresh ok e =
      accept_path-MemoryOk m info p false fresh ok (found_psb m.db info.key p e)
  find_or_create_path-MemoryOk m info none fresh ok e = elim (Option-cases (hal.new_psb m.db)) [
    | inl full ↦ rw full ok
    | inr (p, got) ↦ rw got (created_psb m info p fresh ok (fresh.psb m.db p got))
  ]

  after_path_check-MemoryOk :
      (m : Machine) (info : MessageInfo) (p : Option ℕ) (error : Option ℕ)
      → Fresh hal
      → MemoryOk m.db
      → rsvp_psb_find m.db info.key ≡ p
      → MemoryOk (after_path_check hal m info p error).db
  after_path_check-MemoryOk m info p (some code) fresh ok e =
      Kept-MemoryOk m.db _
        (send_path_err-Steady (Kept-Steady (bare m.db)) hal m (record { same = refl }) info code) ok
  after_path_check-MemoryOk m info p none fresh ok e =
      find_or_create_path-MemoryOk m info p fresh ok e

  pub handle_path_message-MemoryOk :
      (m : Machine) (info : MessageInfo)
      → Fresh hal
      → MemoryOk m.db
      → MemoryOk (handle_path_message hal m info).db
  unfolding handle_path_message
  handle_path_message-MemoryOk m info fresh ok =
      after_path_check-MemoryOk m info (rsvp_psb_find m.db info.key)
        (rsvp_validate_path_message info (rsvp_psb_find m.db info.key)) fresh ok refl
