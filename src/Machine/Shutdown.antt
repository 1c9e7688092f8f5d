-- ===== src/Machine/Shutdown.antt =====
-- `rsvp_state_machine_shutdown` of src/pi/rsvp_state_machine.c.
use rsvp_te.Prelude.{ℕ, true, length}
use rsvp_te.StateDb.{rsvp_psb_find_by_bucket}
use rsvp_te.StateDb.Drain.{drain, over_buckets}
use rsvp_te.Machine.{Hal, Machine}
use rsvp_te.Machine.Cleanup.{rsvp_psb_cleanup}

-- The loop on one bucket, with as many rounds as its chain has PSBs.
unfoldable pub shut_bucket : Hal → ℕ → Machine → Machine
shut_bucket hal bucket m =
    drain (λ x. rsvp_psb_find_by_bucket x.db bucket) (λ x p. rsvp_psb_cleanup hal x p true)
      (length (m.db.psbs.buckets bucket)) m

unfoldable pub rsvp_state_machine_shutdown : Hal → Machine → Machine
rsvp_state_machine_shutdown hal m = over_buckets (shut_bucket hal) 1024 0 m
