-- ===== src/StateDb/Lookup.antt =====
-- What the callers of src/pi/rsvp_state_db.c rely on: which block a search finds after blocks were
-- created and deleted.
use rsvp_te.Prelude.{
  List, [], ◌∷◌, contains, Option-cases, inl, inr, ℕ, ◌≡◌, Bool, true, false, none, some, ◌==◌,
  ◌&&◌, arith,
}
use rsvp_te.Wire.Parser.{PathKey}
use rsvp_te.StateDb.{
  Db, at_start, psb_key, rsvp_psb_find, rsvp_psb_find_by_id, rsvp_psb_create, rsvp_psb_delete,
  free_psb,
}
use rsvp_te.StateDb.Key.{same_key, rsvp_key_hash, hash-lt, hash_size}
use rsvp_te.StateDb.Blocks.{Psb, new_psb}
use rsvp_te.StateDb.Refine.{
  addresses, Holds, Stored-none, empty_table-Holds, first_with, without_entry,
}
use rsvp_te.StateDb.Contract.{
  find-Holds, insert-Holds, remove-Holds, chained, scan-some, scan-none, walk-some, walk-none,
}
use rsvp_te.StateDb.Valid.{IsValid}

-- A call that makes a PSB with a key at an address, or deletes the one at an address.
pub data Call : Type 0 where
  create : PathKey → ℕ → Call
  delete : ℕ → Call

unfoldable pub call : Db → Call → Db
call db (create key p) = (rsvp_psb_create db key (some p)).1
call db (delete p) = rsvp_psb_delete db p

unfoldable pub run : Db → List Call → Db
unfolding call
run db [] = db
run db (c ∷ cs) = run (call db c) cs

-- The PSBs that are there, newest first, as the calls alone tell.
abbrev pub note : List (ℕ × Psb) → Call → List (ℕ × Psb)
note l (create key p) = (p, new_psb key) ∷ l
note l (delete p) = without_entry p l

abbrev pub log : List (ℕ × Psb) → List Call → List (ℕ × Psb)
log l [] = l
log l (c ∷ cs) = log (note l c) cs

-- `calloc` returns no address that a PSB has, and only a PSB that is there is deleted.
abbrev pub Allowed : List (ℕ × Psb) → Call → Type 0
Allowed l (create key p) = contains p (addresses l) ≡ false
Allowed l (delete p) = contains p (addresses l) ≡ true

abbrev pub AllAllowed : List (ℕ × Psb) → List Call → Type 0
AllAllowed l [] = Unit
AllAllowed l (c ∷ cs) = Allowed l c × AllAllowed (note l c) cs

call-Holds :
    (db : Db) (l : List (ℕ × Psb)) (c : Call)
    → Allowed l c
    → Holds psb_key db.psbs l
    → Holds psb_key (call db c).psbs (note l c)
unfolding call rsvp_psb_create rsvp_psb_delete free_psb
call-Holds db l (create key p) unused h = insert-Holds psb_key h p (new_psb key) (h.free p unused)
call-Holds db l (delete p) listed h = elim (Option-cases (db.psbs.heap p)) [
  | inl free ↦ absurd (cc (listed, Stored-none db.psbs.heap l p h.stored free))
  | inr (psb, e) ↦
      rw (e, rsvp_psb_delete, chained psb_key h p psb e) (remove-Holds psb_key h p psb e)
]

run-Holds :
    (db : Db) (l : List (ℕ × Psb)) (cs : List Call)
    → AllAllowed l cs
    → Holds psb_key db.psbs l
    → Holds psb_key (run db cs).psbs (log l cs)
unfolding run
run-Holds db l [] allowed h = h
run-Holds db l (c ∷ cs) allowed h =
    run-Holds (call db c) (note l c) cs allowed.1 (call-Holds db l c allowed.0 h)

-- After any sequence of creations of PSBs, at addresses that no PSB has, and of deletions of PSBs that are
-- there, a search by key finds what a search through the list of the PSBs that were created and not deleted,
-- newest first, finds: the newest with that key.
pub psb_find_newest :
    (calls : List Call) (key : PathKey)
    → AllAllowed [] calls
    → rsvp_psb_find (run at_start calls) key
      ≡ first_with (λ psb. same_key psb.key key) (log [] calls)
unfolding rsvp_psb_find
psb_find_newest calls key allowed =
    find-Holds psb_key (run-Holds at_start [] calls allowed (empty_table-Holds psb_key)) key

-- `rsvp_psb_find_by_id` in a valid database: a PSB that it returns exists and has the two
-- identifiers, and it returns none only if no PSB that exists has them.
pub psb_find_by_id_lem :
    (db : Db) (tunnel_id lsp_id : ℕ)
    → IsValid db
    → ((p : ℕ)
        → rsvp_psb_find_by_id db tunnel_id lsp_id ≡ some p
        → (psb : Psb) × (db.psbs.heap p ≡ some psb)
          × (psb.key.tunnel_id ≡ tunnel_id)
          × (psb.key.lsp_id ≡ lsp_id))
      × (rsvp_psb_find_by_id db tunnel_id lsp_id ≡ none
          → (p : ℕ) (psb : Psb) → db.psbs.heap p ≡ some psb
          → (psb.key.tunnel_id == tunnel_id && psb.key.lsp_id == lsp_id) ≡ false)
unfolding rsvp_psb_find_by_id
psb_find_by_id_lem db tunnel_id lsp_id v =
    let test : Psb → Bool = λ psb. psb.key.tunnel_id == tunnel_id && psb.key.lsp_id == lsp_id in
    (
      λ p e.
          let (h, w) = scan-some test db.psbs hash_size 0 p e in
          let (psb, at_p, hit) = walk-some test db.psbs.heap (db.psbs.buckets h) p w in
          (psb, at_p, ground arith, ground arith),
      λ e p psb at_p.
          walk-none test db.psbs.heap (db.psbs.buckets (rsvp_key_hash psb.key)) p psb
            (scan-none test db.psbs hash_size 0 (rsvp_key_hash psb.key) e (omega arith)
              (omega (arith, hash-lt psb.key)))
            (chained psb_key v.psbs_hold p psb at_p) at_p,
    )
