-- ===== src/Machine/Memory/Safety.antt =====
-- The memory of src/pi/rsvp_state_machine.c over whole runs: dangling timers and pointers, lost blocks.
use rsvp_te.Prelude.{
  ◌<◌, false, inl, inr, Bool-cases, ℕ, ◌≡◌, refl, sym, ap, ◌∙◌, true, List, [], ◌∷◌, Option, none,
  some, contains, arith,
}
use rsvp_te.Wire.Parser.{is_some}
use rsvp_te.StateDb
use rsvp_te.StateDb.Drained.{empty_none}
use rsvp_te.Machine.Shutdown.{rsvp_state_machine_shutdown}
use rsvp_te.Machine.Memory.Emptied.{rsvp_state_machine_shutdown-EmptyBelow}
use rsvp_te.StateDb.{rsvp_psb_find_by_bucket, Db, Timer, psb_key, rsb_key}
use rsvp_te.StateDb.Key.{rsvp_key_hash}
use rsvp_te.StateDb.Blocks.{Psb, Rsb}
use rsvp_te.StateDb.Contract.{chained}
use rsvp_te.StateDb.Valid.{is_live, start-IsValid}
use rsvp_te.Machine.{Hal, Machine}
use rsvp_te.Machine.Commands.{
  ingress_key, block_at, rsvp_initiate_path_with_ero, rsvp_initiate_bypass_tunnel, rsvp_mbb_start,
}
use rsvp_te.Machine.Frr.{rsvp_frr_enable_protection}
use rsvp_te.Machine.Steady.{bare_psb}
use rsvp_te.Machine.Rerouting.{rsvp_frr_trigger-Steady, rsvp_frr_revert-Steady, protect-Steady}
use rsvp_te.Machine.Runs.{
  Input, message, expiry, link_down, link_up, teardown, initiate, bypass, mbb, protection,
  timer_expires, respond, run, started,
}
use rsvp_te.Machine.Memory.{bare, bare_rsb, bare_bsb, option_map, MemoryOk, Fresh, Kept-MemoryOk}
use rsvp_te.Machine.Memory.Bare.{Kept-Steady}
use rsvp_te.Machine.Memory.Steps.{behind_bare}
use rsvp_te.Machine.Memory.Torn.{rsvp_teardown_path-MemoryOk}
use rsvp_te.Machine.Memory.Handled.{rsvp_handle_message-MemoryOk}
use rsvp_te.Machine.Memory.Launched.{
  initiate_on-MemoryOk, bypass_on-MemoryOk, mbb_from-MemoryOk, psb_cleanup_timer_cb-MemoryOk,
  rsb_cleanup_timer_cb-MemoryOk, bsb_cleanup_timer_cb-MemoryOk, psb_refresh_timer_cb-MemoryOk,
  rsb_refresh_timer_cb-MemoryOk,
}

-- What must hold of the timer, when the input is the expiry of one.
abbrev pub AtExpiry : (Timer → Type 0) → Input → Type 0
AtExpiry P (message info) = Unit
AtExpiry P (expiry tm) = P tm
AtExpiry P (link_down i) = Unit
AtExpiry P (link_up i) = Unit
AtExpiry P (teardown t l) = Unit
AtExpiry P (initiate src dest t l name ero frr) = Unit
AtExpiry P (bypass src dest t l name ero i) = Unit
AtExpiry P (mbb t old new ero) = Unit
AtExpiry P (protection t l mode b) = Unit

-- Each timer that expires in the run is running when it does.
abbrev pub InTime : Machine → List (Hal × Input) → Type 0
InTime m [] = Unit
InTime m (i ∷ is) = AtExpiry (λ tm. m.db.running tm ≡ true) i.1 × InTime (respond i.0 m i.1) is

-- Each callback in the run is given a block that exists.
abbrev pub CallbacksLive : Machine → List (Hal × Input) → Type 0
CallbacksLive m [] = Unit
CallbacksLive m (i ∷ is) =
    AtExpiry (λ tm. is_live m.db tm ≡ true) i.1 × CallbacksLive (respond i.0 m i.1) is

-- Each environment of the run allocates blocks that are not in use.
abbrev pub AllFresh : List (Hal × Input) → Type 0
AllFresh [] = Unit
AllFresh (i ∷ is) = Fresh i.0 × AllFresh is

timer_expires-MemoryOk :
    (hal : Hal) (m : Machine) (tm : Timer) → MemoryOk m.db → MemoryOk (timer_expires hal m tm).db
unfolding timer_expires
timer_expires-MemoryOk hal m (Timer.psb_refresh p) ok = psb_refresh_timer_cb-MemoryOk hal m ok p
timer_expires-MemoryOk hal m (Timer.psb_cleanup p) ok = psb_cleanup_timer_cb-MemoryOk hal m ok p
timer_expires-MemoryOk hal m (Timer.rsb_refresh r) ok = rsb_refresh_timer_cb-MemoryOk hal m ok r
timer_expires-MemoryOk hal m (Timer.rsb_cleanup r) ok = rsb_cleanup_timer_cb-MemoryOk hal m ok r
timer_expires-MemoryOk hal m (Timer.bsb_blockade b) ok = bsb_cleanup_timer_cb-MemoryOk hal m ok b

respond-MemoryOk :
    (hal : Hal) (m : Machine) (i : Input)
    → Fresh hal
    → MemoryOk m.db
    → MemoryOk (respond hal m i).db
unfolding respond rsvp_initiate_path_with_ero rsvp_initiate_bypass_tunnel rsvp_mbb_start
    rsvp_frr_enable_protection
respond-MemoryOk hal m (message info) fresh ok = rsvp_handle_message-MemoryOk hal info m fresh ok
respond-MemoryOk hal m (expiry tm) fresh ok = timer_expires-MemoryOk hal m tm ok
respond-MemoryOk hal m (link_down i) fresh ok =
    Kept-MemoryOk m.db _
      (rsvp_frr_trigger-Steady (Kept-Steady (bare m.db)) hal m i (record { same = refl })) ok
respond-MemoryOk hal m (link_up i) fresh ok =
    Kept-MemoryOk m.db _
      (rsvp_frr_revert-Steady (Kept-Steady (bare m.db)) hal m i (record { same = refl })) ok
respond-MemoryOk hal m (teardown t l) fresh ok = rsvp_teardown_path-MemoryOk hal m ok t l
respond-MemoryOk hal m (initiate src dest t l name ero frr) fresh ok =
    initiate_on-MemoryOk hal m (ingress_key src dest t l)
      (StateDb.rsvp_psb_find m.db (ingress_key src dest t l)) name ero frr fresh ok
respond-MemoryOk hal m (bypass src dest t l name ero i) fresh ok =
    bypass_on-MemoryOk hal m (ingress_key src dest t l)
      (StateDb.rsvp_psb_find m.db (ingress_key src dest t l)) name ero i fresh ok
respond-MemoryOk hal m (mbb t old new ero) fresh ok =
    mbb_from-MemoryOk hal m (block_at m (StateDb.rsvp_psb_find_by_id m.db t old)) old new ero fresh
      ok
respond-MemoryOk hal m (protection t l mode b) fresh ok =
    Kept-MemoryOk m.db _
      (protect-Steady (Kept-Steady (bare m.db)) m (StateDb.rsvp_psb_find_by_id m.db t l) _ mode b
        (record { same = refl }))
      ok

pub run-MemoryOk :
    (m : Machine) (is : List (Hal × Input)) → AllFresh is → MemoryOk m.db → MemoryOk (run m is).db
unfolding run
run-MemoryOk m [] fresh ok = ok
run-MemoryOk m (i ∷ is) fresh ok =
    run-MemoryOk (respond i.0 m i.1) is fresh.1 (respond-MemoryOk i.0 m i.1 fresh.0 ok)

pub started-MemoryOk : (lo hi : ℕ) → MemoryOk (started lo hi).db
started-MemoryOk lo hi = record {
  valid = start-IsValid;
  agree = λ p r psb rsb at_p to at_r. absurd (ground arith);
}

is_some_bare {ℓ} : {A : Type ℓ} (f : A → A) (o : Option A) → is_some (option_map f o) ≡ is_some o
is_some_bare f none = refl
is_some_bare f (some a) = refl

is_live-bare : (db : Db) (tm : Timer) → is_live (bare db) tm ≡ is_live db tm
is_live-bare db (Timer.psb_refresh p) = is_some_bare bare_psb (db.psbs.heap p)
is_live-bare db (Timer.psb_cleanup p) = is_some_bare bare_psb (db.psbs.heap p)
is_live-bare db (Timer.rsb_refresh r) = is_some_bare bare_rsb (db.rsbs.heap r)
is_live-bare db (Timer.rsb_cleanup r) = is_some_bare bare_rsb (db.rsbs.heap r)
is_live-bare db (Timer.bsb_blockade b) = is_some_bare bare_bsb (db.bsbs.heap b)

unused_behind {ℓ} : {A : Type ℓ} (f : A → A) (o : Option A) → option_map f o ≡ none → o ≡ none
unused_behind f none e = refl
unused_behind f (some a) e = cc

not_running :
    (db : Db) (tm : Timer)
    → (db.running tm ≡ true → is_live (bare db) tm ≡ true)
    → is_live (bare db) tm ≡ false
    → db.running tm ≡ false
not_running db tm live dead = elim (Bool-cases (db.running tm)) [
  | inl runs ↦ runs ∙ (sym (live runs) ∙ dead)
  | inr e ↦ e
]

running_live : (db : Db) (tm : Timer) → MemoryOk db → db.running tm ≡ true → is_live db tm ≡ true
running_live db tm ok runs = sym (is_live-bare db tm) ∙ ok.valid.live tm runs

expiry_live :
    (db : Db) (i : Input)
    → MemoryOk db
    → AtExpiry (λ tm. db.running tm ≡ true) i
    → AtExpiry (λ tm. is_live db tm ≡ true) i
expiry_live db (message info) ok runs = tt
expiry_live db (expiry tm) ok runs = running_live db tm ok runs
expiry_live db (link_down i) ok runs = tt
expiry_live db (link_up i) ok runs = tt
expiry_live db (teardown t l) ok runs = tt
expiry_live db (initiate src dest t l name ero frr) ok runs = tt
expiry_live db (bypass src dest t l name ero i) ok runs = tt
expiry_live db (mbb t old new ero) ok runs = tt
expiry_live db (protection t l mode b) ok runs = tt

InTime-CallbacksLive :
    (m : Machine) (is : List (Hal × Input))
    → AllFresh is
    → MemoryOk m.db
    → InTime m is
    → CallbacksLive m is
InTime-CallbacksLive m [] fresh ok late = tt
InTime-CallbacksLive m (i ∷ is) fresh ok late = (
  expiry_live m.db i.1 ok late.0,
  InTime-CallbacksLive (respond i.0 m i.1) is fresh.1 (respond-MemoryOk i.0 m i.1 fresh.0 ok)
      late.1,
)

module _ (lo hi : ℕ) (is : List (Hal × Input)) (fresh : AllFresh is) where
  over : MemoryOk (run (started lo hi) is).db
  over = run-MemoryOk (started lo hi) is fresh (started-MemoryOk lo hi)

  -- In any sequence of messages, expiries of timers that run, link events and commands, whose allocations
  -- return memory that is not in use, each timer callback is called while the block that its timer is
  -- embedded in exists, and afterwards the block that a running timer is embedded in exists.
  pub run_timers_live :
      (tm : Timer)
      → InTime (started lo hi) is
      → (run (started lo hi) is).db.running tm ≡ true
      → CallbacksLive (started lo hi) is × (is_live (run (started lo hi) is).db tm ≡ true)
  run_timers_live tm in_time runs = (
    InTime-CallbacksLive (started lo hi) is fresh (started-MemoryOk lo hi) in_time,
    running_live (run (started lo hi) is).db tm over runs,
  )

  -- After any sequence of messages, timer expiries, link events and commands, whose allocations return
  -- memory that is not in use, the RSB that a PSB points to exists, has the key of the PSB and points back.
  pub run_psbs_linked :
      (p r : ℕ) (psb : Psb)
      → (run (started lo hi) is).db.psbs.heap p ≡ some psb
      → psb.associated_rsb ≡ some r
      → (rsb : Rsb) × ((run (started lo hi) is).db.rsbs.heap r ≡ some rsb)
        × (rsb.associated_psb ≡ some p)
        × (rsb.key ≡ psb.key)
  run_psbs_linked p r psb at_p to =
      let at_p' = ap (option_map bare_psb) at_p in
      let (b, at_r, answer) = over.valid.to_rsb p r (bare_psb psb) at_p' to in
      let (rsb, here, is_bare) =
        behind_bare bare_rsb ((run (started lo hi) is).db.rsbs.heap r) b at_r in
      (
        rsb,
        here,
        ap (λ (x : Rsb). x.associated_psb) is_bare ∙ answer,
        ap (λ (x : Rsb). x.key) is_bare ∙ over.agree p r (bare_psb psb) b at_p' to at_r,
      )

  -- After any sequence of messages, timer expiries, link events and commands, whose allocations return
  -- memory that is not in use, a PSB and an RSB that exist are in the chain of the bucket of their keys.
  pub run_blocks_chained :
      (p r : ℕ) (psb : Psb) (rsb : Rsb)
      → (run (started lo hi) is).db.psbs.heap p ≡ some psb
      → (run (started lo hi) is).db.rsbs.heap r ≡ some rsb
      → (contains p ((run (started lo hi) is).db.psbs.buckets (rsvp_key_hash psb.key)) ≡ true)
        × (contains r ((run (started lo hi) is).db.rsbs.buckets (rsvp_key_hash rsb.key)) ≡ true)
  run_blocks_chained p r psb rsb at_p at_r = (
    chained psb_key over.valid.psbs_hold p (bare_psb psb) (ap (option_map bare_psb) at_p),
    chained rsb_key over.valid.rsbs_hold r (bare_rsb rsb) (ap (option_map bare_rsb) at_r),
  )

  -- After any sequence of messages, expiries of timers that run, link events and commands, whose
  -- allocations return memory that is not in use, no timer callback has been given a freed block, and
  -- `rsvp_state_machine_shutdown` ends, each of its loops when the bucket has no PSB left: no PSB exists then,
  -- and no timer of a PSB runs.
  pub run_shutdown_empties :
      (hal : Hal) (i p : ℕ)
      → InTime (started lo hi) is
      → i < 1024
      → let end = rsvp_state_machine_shutdown hal (run (started lo hi) is) in
        CallbacksLive (started lo hi) is
        × (rsvp_psb_find_by_bucket end.db i ≡ none)
        × (end.db.psbs.heap p ≡ none)
        × (end.db.running (Timer.psb_refresh p) ≡ false)
        × (end.db.running (Timer.psb_cleanup p) ≡ false)
  unfolding rsvp_psb_find_by_bucket
  run_shutdown_empties hal i p in_time lt =
      let end = rsvp_state_machine_shutdown hal (run (started lo hi) is) in
      let (ok, empty) = rsvp_state_machine_shutdown-EmptyBelow hal (run (started lo hi) is) over in
      let gone =
        empty_none psb_key (bare end.db).psbs (chained psb_key ok.valid.psbs_hold) empty p in
      let free = unused_behind bare_psb (end.db.psbs.heap p) gone in
      (
        InTime-CallbacksLive (started lo hi) is fresh (started-MemoryOk lo hi) in_time,
        rw (empty i lt) (ground arith),
        free,
        not_running end.db (Timer.psb_refresh p) (ok.valid.live (Timer.psb_refresh p))
            (ap is_some gone),
        not_running end.db (Timer.psb_cleanup p) (ok.valid.live (Timer.psb_cleanup p))
            (ap is_some gone),
      )
