-- ===== src/Machine/Failover.antt =====
-- `rsvp_frr_trigger` of src/pi/rsvp_state_machine.c over all LSPs.
use rsvp_te.Prelude.{
  ℕ, zero, suc, ◌+◌, ◌<◌, ◌≤◌, ◌≡◌, refl, sym, ap, ◌∙◌, subst, true, false, List, [], ◌∷◌, Option,
  none, some, ◌==◌, inl, inr, ◌⊎◌, arith, contains, Bool-cases,
}
use rsvp_te.StateDb.{psb_key, rsb_key, rsvp_rsb_find}
use rsvp_te.StateDb.Key.{rsvp_key_hash, hash-lt}
use rsvp_te.StateDb.Contract.{chained}
use rsvp_te.Machine.Memory.{MemoryOk, option_map}
use rsvp_te.StateDb.Blocks.{Psb, Rsb}
use rsvp_te.StateDb.Buckets.{Table, find}
use rsvp_te.Wire.Parser.{PathKey}
use rsvp_te.Machine.Switched.{trigger_one_active}
use rsvp_te.Machine.{Hal, Machine, Event, alter, alter_psb, emit}
use rsvp_te.Machine.Checks.{resolve_path_next_hop}
use rsvp_te.Machine.Sending.{follow, send_path_via, send_path_downstream}
use rsvp_te.Machine.Frr.{
  rsb_of, endangered, install, switch_over, switch_to, trigger_one, each, each_bucket,
  rsvp_frr_trigger,
}
use rsvp_te.Machine.Steady.{bare_psb, given_keeps, branch_keeps}

-- A step changes the PSB at `q` only, keeps its key, and does not switch it back.
record Only (q : ℕ) (m m' : Machine) : Type 0 where
  others : (j : ℕ) → (q == j) ≡ false → m'.db.psbs.heap j ≡ m.db.psbs.heap j
  itself :
      (a : Psb)
      → m.db.psbs.heap q ≡ some a
      → (a' : Psb) × (m'.db.psbs.heap q ≡ some a')
        × (a'.key ≡ a.key)
        × ((a.frr_active ≡ true) → a'.frr_active ≡ true)
  chains : m'.db.psbs.buckets ≡ m.db.psbs.buckets
  rsbs : m'.db.rsbs ≡ m.db.rsbs

same-Only : (q : ℕ) (m : Machine) → Only q m m
same-Only q m = record {
  others = λ j e. refl;
  itself = λ a e. (a, e, refl, λ h. h);
  chains = refl;
  rsbs = refl;
}

emit-Only : (q : ℕ) (m m' : Machine) (e : Event) → Only q m m' → Only q m (emit m' e)
emit-Only q m m' e k = record {
  others = k.others;
  itself = k.itself;
  chains = k.chains;
  rsbs = k.rsbs;
}

altered_at :
    (m : Machine) (q : ℕ) (f : Psb → Psb) (a : Psb)
    → m.db.psbs.heap q ≡ some a
    → (alter_psb m q f).db.psbs.heap q ≡ some (f a)
unfolding alter_psb alter
altered_at m q f a e = let self : (q == q) ≡ true = ground arith in rw (self, e) refl

alter_psb-Only :
    (q : ℕ) (m m' : Machine) (f : Psb → Psb)
    → ((a : Psb) → (f a).key ≡ a.key)
    → ((a : Psb) → (a.frr_active ≡ true) → (f a).frr_active ≡ true)
    → Only q m m'
    → Only q m (alter_psb m' q f)
unfolding alter_psb alter
alter_psb-Only q m m' f keeps stays k = record {
  others = λ j e. rw e (k.others j e);
  itself = λ a e.
      let (a', e', key', active') = k.itself a e in
      (f a', altered_at m' q f a' e', keeps a' ∙ key', λ h. stays a' (active' h));
  chains = k.chains;
  rsbs = k.rsbs;
}

module _ (hal : Hal) (q : ℕ) (m : Machine) where
  send_path_via-Only :
      (m' : Machine) (psb : Psb) (ip_dest : ℕ) (out : Option ℕ)
      → Only q m m'
      → Only q m (send_path_via hal m' q psb ip_dest out)
  unfolding send_path_via
  send_path_via-Only m' psb ip_dest none k = alter_psb-Only q m m' _ (λ a. refl) (λ a h. h) k
  send_path_via-Only m' psb ip_dest (some i) k =
      emit-Only q m _ _ (alter_psb-Only q m m' _ (λ a. refl) (λ a h. h) k)

  send_path_downstream-Only :
      (m' : Machine) → Only q m m' → Only q m (send_path_downstream hal m' q)
  unfolding send_path_downstream
  send_path_downstream-Only m' k = given_keeps (Only q m) (m'.db.psbs.heap q) m' _ k (λ psb.
      let next = resolve_path_next_hop hal psb in send_path_via-Only m' next.0 next.1 next.2 k)

  install-Only :
      (m' : Machine) (rsb : Option Rsb) (dest : ℕ) (via : Rsb)
      → Only q m m'
      → Only q m (install m' rsb dest via)
  install-Only m' none dest via k = k
  install-Only m' (some rsb) dest via k = emit-Only q m m' _ k

  switch_to-Only : (psb bp : Psb) (brsb : Option Rsb) → Only q m (switch_to hal m q psb bp brsb)
  unfolding switch_over
  switch_to-Only psb bp none = same-Only q m
  switch_to-Only psb bp (some brsb) =
      branch_keeps (Only q m) (brsb.label_out == 0) m _ (same-Only q m) (
        send_path_downstream-Only _ (
          alter_psb-Only q m (install m (rsb_of m.db psb.key) psb.key.dest_addr brsb) _ (λ a. refl)
            (λ a h. refl)
            (install-Only m (rsb_of m.db psb.key) psb.key.dest_addr brsb (same-Only q m))))

  trigger_one-Only : (failed : ℕ) → Only q m (trigger_one hal failed m q)
  unfolding trigger_one
  trigger_one-Only failed = given_keeps (Only q m) (m.db.psbs.heap q) m _ (same-Only q m) (λ psb.
      given_keeps (Only q m) _ m _ (same-Only q m) (λ bp.
        branch_keeps (Only q m) (endangered failed psb) _ m
          (switch_to-Only psb bp (rsb_of m.db bp.key)) (same-Only q m)))

-- The LSP has been switched over.
record Done (p : ℕ) (m : Machine) : Type 0 where
  psb : Psb
  at_p : m.db.psbs.heap p ≡ some psb
  is_active : psb.frr_active ≡ true

-- The LSP is as it was, and so is what its bypass tunnel needs.
record Waiting (p b : ℕ) (psb bp : Psb) (rsbs : Table Rsb) (m : Machine) : Type 0 where
  at_p : m.db.psbs.heap p ≡ some psb
  bypass : Psb
  at_b : m.db.psbs.heap b ≡ some bypass
  same_key : bypass.key ≡ bp.key
  same_rsbs : m.db.rsbs ≡ rsbs

rsb_of_table :
    (m : Machine) (rsbs : Table Rsb) (key : PathKey)
    → m.db.rsbs ≡ rsbs
    → rsb_of m.db key ≡ follow rsbs.heap (find rsb_key rsbs key)
unfolding rsvp_rsb_find
rsb_of_table m rsbs key e = ap (λ (t : Table Rsb). follow t.heap (find rsb_key t key)) e

module _ (hal : Hal) (failed p b : ℕ) (psb bp : Psb) (brsb : Rsb) (rsbs : Table Rsb)
    (to_b : psb.bypass_psb ≡ some b) (danger : endangered failed psb ≡ true)
    (via : follow rsbs.heap (find rsb_key rsbs bp.key) ≡ some brsb)
    (up : (brsb.label_out == 0) ≡ false) where
  Done-step : (m : Machine) (q : ℕ) → Done p m → Done p (trigger_one hal failed m q)
  Done-step m q d = elim (Bool-cases (q == p)) [
    | inl here ↦
        let q≡p : q ≡ p = ground arith in
        let (a', e, _, stays) =
          (trigger_one-Only hal q m failed).itself d.psb (ap m.db.psbs.heap q≡p ∙ d.at_p) in
        record {
          psb = a';
          at_p = subst (λ j. (trigger_one hal failed m q).db.psbs.heap j ≡ some a') q≡p e;
          is_active = stays d.is_active;
        }
    | inr other ↦ record {
      psb = d.psb;
      at_p = (trigger_one-Only hal q m failed).others p other ∙ d.at_p;
      is_active = d.is_active;
    }
  ]

  visit : (m : Machine) → Waiting p b psb bp rsbs m → Done p (trigger_one hal failed m p)
  visit m w =
      let (q, at_p, active) =
        trigger_one_active hal failed m p psb w.bypass brsb w.at_p
          (ap (follow m.db.psbs.heap) to_b ∙ w.at_b) danger
          (rsb_of_table m rsbs w.bypass.key w.same_rsbs
            ∙ (ap (λ k. follow rsbs.heap (find rsb_key rsbs k)) w.same_key ∙ via))
          up in
      record { psb = q; at_p = at_p; is_active = active }

  Waiting-step :
      (m : Machine) (q : ℕ)
      → (q == p) ≡ false
      → Waiting p b psb bp rsbs m
      → Waiting p b psb bp rsbs (trigger_one hal failed m q)
  Waiting-step m q other w =
      let only = trigger_one-Only hal q m failed in
      let at_p' = only.others p other ∙ w.at_p in
      elim (Bool-cases (q == b)) [
        | inl is_b ↦
            let q≡b : q ≡ b = ground arith in
            let (a', e, key, _) = only.itself w.bypass (ap m.db.psbs.heap q≡b ∙ w.at_b) in
            record {
              at_p = at_p';
              bypass = a';
              at_b = subst (λ j. (trigger_one hal failed m q).db.psbs.heap j ≡ some a') q≡b e;
              same_key = key ∙ w.same_key;
              same_rsbs = only.rsbs ∙ w.same_rsbs;
            }
        | inr not_b ↦ record {
          at_p = at_p';
          bypass = w.bypass;
          at_b = only.others b not_b ∙ w.at_b;
          same_key = w.same_key;
          same_rsbs = only.rsbs ∙ w.same_rsbs;
        }
      ]

  each-Done : (m : Machine) (ps : List ℕ) → Done p m → Done p (each (trigger_one hal failed) m ps)
  unfolding each
  each-Done m [] d = d
  each-Done m (q ∷ ps) d = each-Done (trigger_one hal failed m q) ps (Done-step m q d)

  each-chains :
      (m : Machine) (ps : List ℕ)
      → (each (trigger_one hal failed) m ps).db.psbs.buckets ≡ m.db.psbs.buckets
  unfolding each
  each-chains m [] = refl
  each-chains m (q ∷ ps) =
      each-chains (trigger_one hal failed m q) ps ∙ (trigger_one-Only hal q m failed).chains

  -- The LSP is in the chain, or it waits still.
  each-visits :
      (m : Machine) (ps : List ℕ)
      → Waiting p b psb bp rsbs m
      → Done p (each (trigger_one hal failed) m ps)
        ⊎ (Waiting p b psb bp rsbs (each (trigger_one hal failed) m ps) × (contains p ps ≡ false))
  unfolding each
  each-visits m [] w = inr (w, refl)
  each-visits m (q ∷ ps) w = elim (Bool-cases (q == p)) [
    | inl here ↦
        let q≡p : q ≡ p = ground arith in
        let first : Done p (trigger_one hal failed m q) =
          subst (λ j. Done p (trigger_one hal failed m j)) (sym q≡p) (visit m w) in
        inl (each-Done (trigger_one hal failed m q) ps first)
    | inr other ↦ elim (each-visits (trigger_one hal failed m q) ps (Waiting-step m q other w)) [
      | inl d ↦ inl d
      | inr (w', absent) ↦ inr (w', rw (other, absent) refl)
    ]
  ]

  each_bucket-Done :
      (left i : ℕ) (m : Machine) → Done p m → Done p (each_bucket (trigger_one hal failed) left i m)
  unfolding each_bucket
  each_bucket-Done zero i m d = d
  each_bucket-Done (suc left) i m d =
      each_bucket-Done left (i + 1) _ (each-Done m (m.db.psbs.buckets i) d)

  each_bucket-visits :
      (left i h : ℕ) (m : Machine)
      → i ≤ h
      → h < i + left
      → contains p (m.db.psbs.buckets h) ≡ true
      → Waiting p b psb bp rsbs m
      → Done p (each_bucket (trigger_one hal failed) left i m)
  unfolding each_bucket
  each_bucket-visits zero i h m lo hi listed w = absurd (omega arith)
  each_bucket-visits (suc left) i h m lo hi listed w =
      let ps = m.db.psbs.buckets i in
      let x = each (trigger_one hal failed) m ps in
      elim (each-visits m ps w) [
        | inl d ↦ each_bucket-Done left (i + 1) x d
        | inr (w', absent) ↦ elim (Bool-cases (i == h)) [
          | inl here ↦
              let i≡h : i ≡ h = ground arith in
              absurd (cc (ap (λ j. contains p (m.db.psbs.buckets j)) i≡h))
          | inr later ↦
              each_bucket-visits left (i + 1) h x (ground arith) (omega arith)
                (ap (λ (c : ℕ → List ℕ). contains p (c h)) (each-chains m ps) ∙ listed) w'
        ]
      ]

-- When a link fails, every PSB that leaves by it, is to be protected and not switched over yet, and whose bypass
-- tunnel has a reservation with a label, is marked as switched over when `rsvp_frr_trigger` is through, whatever
-- it did to the PSBs that it came to before and after; the memory is as runs of the daemon keep it.
pub rsvp_frr_trigger_switches :
    (hal : Hal) (failed : ℕ) (m : Machine) (p b : ℕ) (psb bp : Psb) (brsb : Rsb)
    → MemoryOk m.db
    → m.db.psbs.heap p ≡ some psb
    → psb.bypass_psb ≡ some b
    → m.db.psbs.heap b ≡ some bp
    → endangered failed psb ≡ true
    → rsb_of m.db bp.key ≡ some brsb
    → (brsb.label_out == 0) ≡ false
    → (q : Psb) × ((rsvp_frr_trigger hal m failed).db.psbs.heap p ≡ some q) × (q.frr_active ≡ true)
unfolding rsvp_frr_trigger
rsvp_frr_trigger_switches hal failed m p b psb bp brsb ok at_p to_b at_b danger via up =
    let listed =
      chained psb_key ok.valid.psbs_hold p (bare_psb psb) (ap (option_map bare_psb) at_p) in
    let via' = sym (rsb_of_table m m.db.rsbs bp.key refl) ∙ via in
    let done =
      each_bucket-visits hal failed p b psb bp brsb m.db.rsbs to_b danger via' up 1024 0
        (rsvp_key_hash psb.key) m (omega arith) (hash-lt psb.key) listed
        (record { at_p = at_p; bypass = bp; at_b = at_b; same_key = refl; same_rsbs = refl }) in
    (done.psb, done.at_p, done.is_active)
