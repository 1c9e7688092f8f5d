-- ===== src/Machine/Effects.antt =====
-- What single operations of src/pi/rsvp_state_machine.c do.
use rsvp_te.Prelude.{
  ℕ, zero, suc, ◌+◌, ◌-◌, ◌*◌, ◌≤◌, ◌≡◌, ◌≢◌, refl, ◌∙◌, Bool, false, List, [], ◌∷◌, Option, none,
  some, ◌==◌, if◌then◌else◌, arith, length, drop, length-drop, AllBytes, AllBytes-get_or,
}
use rsvp_te.Label.{label_is_allocated, label_mgr_free}
use rsvp_te.Label.Inv.{IsValid}
use rsvp_te.Label.Alloc.{free_lem}
use rsvp_te.Wire.{read8, read16}
use rsvp_te.Wire.Builder.Objects.{wire_tspec}
use rsvp_te.Wire.Parser.{MessageInfo}
use rsvp_te.StateDb.Blocks.{Psb, Rsb}
use rsvp_te.Machine.{Hal, Machine, given, emit, alter_rsb, alter_psb, stop_timer}
use rsvp_te.Machine.Checks.{tspec_copy_and_ntoh, read_route}
use rsvp_te.Machine.Steady.{given_keeps, branch_keeps}
use rsvp_te.Machine.Sending.{propagate_resv_tear, follow}
use rsvp_te.Machine.Cleanup.{
  rsb_cleanup_resources, release_forwarding, unlink_psb, rsvp_rsb_cleanup,
}
use rsvp_te.Machine.PathMsg.{
  take_time_values, take_ttl, take_tspec, take_sess_attr, take_hop, take_ero, take_rro,
  take_fast_reroute, take_lsp_name, update_psb, max_ero_hops,
}

-- A route that is read has at most the hops that there is room for.
read_route-le : (fuel room : ℕ) (bs : List ℕ) → length (read_route fuel room bs) ≤ room
unfolding read_route
read_route-le zero room bs = omega arith
read_route-le (suc fuel) room bs = ground (
  arith,
  read_route-le fuel (room - 1) (drop (read8 bs 1) bs),
  read_route-le fuel room (drop (read8 bs 1) bs),
)

-- The two branches of a round that goes on.
read_rounds :
    (f g room : ℕ) (bs : List ℕ)
    → ((room' : ℕ)
        → length (drop (read8 bs 1) bs) ≤ f
        → length (drop (read8 bs 1) bs) ≤ g
        → read_route f room' (drop (read8 bs 1) bs) ≡ read_route g room' (drop (read8 bs 1) bs))
    → length bs ≤ suc f
    → length bs ≤ suc g
    → read_route (suc f) room bs ≡ read_route (suc g) room bs
unfolding read_route
read_rounds f g room bs ih h h' =
    let shorter = length-drop (read8 bs 1) bs in ground (arith, ih room, ih (room - 1))

-- More rounds than there are bytes change nothing.
read_route_enough :
    (fuel more room : ℕ) (bs : List ℕ)
    → length bs ≤ fuel
    → length bs ≤ more
    → read_route fuel room bs ≡ read_route more room bs
unfolding read_route
read_route_enough zero zero room bs h h' = refl
read_route_enough zero (suc g) room bs h h' = ground arith
read_route_enough (suc f) zero room bs h h' = ground arith
read_route_enough (suc f) (suc g) room bs h h' =
    read_rounds f g room bs (λ r a b. read_route_enough f g r (drop (read8 bs 1) bs) a b) h h'

-- A PATH message with a TSpec of bytes, passed on with its TSpec: the service length and the parameter length
-- have their two bytes exchanged.
pub forwarded_lengths :
    (bs : List ℕ)
    → AllBytes bs
    → let passed_on = wire_tspec (tspec_copy_and_ntoh bs) in
      (read16 passed_on 6 ≡ read8 bs 7 * 256 + read8 bs 6)
      × (read16 passed_on 10 ≡ read8 bs 11 * 256 + read8 bs 10)
unfolding wire_tspec tspec_copy_and_ntoh
forwarded_lengths bs a =
    let b6 = AllBytes-get_or bs 6 a in
    let b7 = AllBytes-get_or bs 7 a in
    let b10 = AllBytes-get_or bs 10 a in
    let b11 = AllBytes-get_or bs 11 a in (omega arith, omega arith)

-- No object of the message makes a route too long.
abbrev Fits : Psb → Type 0
Fits psb = (length psb.ero ≤ 32) × (length psb.rro ≤ 32)

take_time_values-Fits : (o : Option (List ℕ)) (psb : Psb) → Fits psb → Fits (take_time_values o psb)
take_time_values-Fits none psb fits = fits
take_time_values-Fits (some o) psb fits = fits

take_ttl-Fits : (o : Option (List ℕ)) (psb : Psb) → Fits psb → Fits (take_ttl o psb)
take_ttl-Fits none psb fits = fits
take_ttl-Fits (some o) psb fits = fits

take_tspec-Fits : (o : Option (List ℕ)) (psb : Psb) → Fits psb → Fits (take_tspec o psb)
take_tspec-Fits none psb fits = fits
take_tspec-Fits (some o) psb fits = fits

take_sess_attr-Fits : (o : Option (List ℕ)) (psb : Psb) → Fits psb → Fits (take_sess_attr o psb)
take_sess_attr-Fits none psb fits = fits
take_sess_attr-Fits (some o) psb fits = fits

take_hop-Fits : (o : Option (List ℕ)) (psb : Psb) → Fits psb → Fits (take_hop o psb)
take_hop-Fits none psb fits = fits
take_hop-Fits (some o) psb fits = fits

take_ero-Fits : (o : Option (List ℕ)) (psb : Psb) → Fits psb → Fits (take_ero o psb)
take_ero-Fits none psb fits = fits
take_ero-Fits (some o) psb fits = ground (arith, read_route-le (length o) max_ero_hops o)

take_rro-Fits : (o : Option (List ℕ)) (psb : Psb) → Fits psb → Fits (take_rro o psb)
take_rro-Fits none psb fits = fits
take_rro-Fits (some o) psb fits = ground (arith, read_route-le (length o) max_ero_hops o)

take_fast_reroute-Fits :
    (hal : Hal) (o : Option (List ℕ)) (psb : Psb) → Fits psb → Fits (take_fast_reroute hal o psb)
take_fast_reroute-Fits hal none psb fits = fits
take_fast_reroute-Fits hal (some o) psb fits = ground arith

take_lsp_name-Fits :
    (hal : Hal) (name : List ℕ) (psb : Psb) → Fits psb → Fits (take_lsp_name hal name psb)
take_lsp_name-Fits hal [] psb fits = fits
take_lsp_name-Fits hal (c ∷ cs) psb fits = fits

-- A PATH message leaves at most `MAX_ERO_HOPS` hops in each of the two routes of its PSB.
pub update_psb_routes :
    (hal : Hal) (info : MessageInfo) (psb : Psb)
    → length psb.ero ≤ 32
    → length psb.rro ≤ 32
    → (length (update_psb hal info psb).ero ≤ 32) × (length (update_psb hal info psb).rro ≤ 32)
unfolding update_psb
update_psb_routes hal info psb e r = take_hop-Fits info.hop_v4 _ (
    take_lsp_name-Fits hal info.lsp_name _ (
      take_fast_reroute-Fits hal info.fast_reroute _ (
        take_sess_attr-Fits info.sess_attr _ (
          take_tspec-Fits info.tspec _ (
            take_rro-Fits info.rro _ (
              take_ero-Fits info.ero _ (
                take_ttl-Fits info.common_hdr _
                  (take_time_values-Fits info.time_values psb (e, r)))))))))

resources_labels :
    (m : Machine) (r : ℕ) (rsb : Rsb)
    → m.db.rsbs.heap r ≡ some rsb
    → rsb.label_in ≢ 0
    → (rsb_cleanup_resources m r).labels ≡ label_mgr_free m.labels rsb.label_in
unfolding rsb_cleanup_resources release_forwarding given stop_timer alter_rsb
resources_labels m r rsb e has = rw e (ground arith)

labels-unlink_psb : (m : Machine) (p : Option ℕ) → (unlink_psb m p).labels ≡ m.labels
unfolding alter_psb
labels-unlink_psb m none = refl
labels-unlink_psb m (some p) = refl

labels-rsvp_rsb_cleanup :
    (hal : Hal) (m : Machine) (r : ℕ) (propagate : Bool) (rsb : Rsb)
    → m.db.rsbs.heap r ≡ some rsb
    → rsb.label_in ≢ 0
    → (rsvp_rsb_cleanup hal m r propagate).labels ≡ label_mgr_free m.labels rsb.label_in
unfolding rsvp_rsb_cleanup given propagate_resv_tear
labels-rsvp_rsb_cleanup hal m r propagate rsb e has =
    let P : Machine → Type 0 =
      λ x. (rsb_cleanup_resources x r).labels ≡ label_mgr_free m.labels rsb.label_in in
    let plain = resources_labels m r rsb e has in
    let told =
      given_keeps P (follow m.db.psbs.heap rsb.associated_psb) m _ plain
        (λ psb. branch_keeps P _ _ _ plain (resources_labels (emit m _) r rsb e has)) in
    rw e (labels-unlink_psb _ rsb.associated_psb ∙ branch_keeps P _ _ _ told plain)

-- When an RSB with an incoming label is torn down, by a ResvTear or a PathTear, a timer or a command, its label is free
-- again at the label manager, and every other label is out or free as it was.
pub cleanup_releases :
    (hal : Hal) (m : Machine) (r j : ℕ) (propagate : Bool) (rsb : Rsb)
    → IsValid m.labels
    → m.db.rsbs.heap r ≡ some rsb
    → rsb.label_in ≢ 0
    → label_is_allocated (rsvp_rsb_cleanup hal m r propagate).labels j
      ≡ (if rsb.label_in == j then false else label_is_allocated m.labels j)
cleanup_releases hal m r j propagate rsb v e has =
    rw (labels-rsvp_rsb_cleanup hal m r propagate rsb e has) (free_lem m.labels rsb.label_in j v)
