-- ===== src/StateDb.antt =====
-- src/pi/rsvp_state_db.c: the soft state of the daemon. A pointer to a state block is its address in
-- the heap of its table; a function that is given a pointer to no block, which C leaves undefined,
-- changes nothing.
pub mod Key
pub mod Buckets
pub mod Blocks
pub mod Refine
pub mod Contract
pub mod Links
pub mod Valid
pub mod Lookup
pub mod Blockade
pub mod Drain
pub mod Heads
pub mod Drained
mod Tests
use rsvp_te.Prelude.{
  ℕ, Bool, true, false, Option, none, some, ◌==◌, ◌&&◌, not, ltb, List, [], ◌∷◌, if◌then◌else◌,
  contains, length,
}
use rsvp_te.Wire.Parser.{PathKey}
use rsvp_te.StateDb.Key.{hash_size, rsvp_key_hash}
use rsvp_te.StateDb.Buckets.{Table, empty_table, scan, find, insert, remove, cut_back}
use rsvp_te.StateDb.Drain.{drain, over_buckets}
use rsvp_te.StateDb.Blocks.{Psb, Rsb, Bsb, new_psb, new_rsb, new_bsb}

-- The timers that are embedded in the blocks.
pub data Timer : Type 0 where
  psb_refresh psb_cleanup rsb_refresh rsb_cleanup bsb_blockade : ℕ → Timer

abbrev pub same_timer : Timer → Timer → Bool
same_timer (psb_refresh p) (psb_refresh q) = p == q
same_timer (psb_cleanup p) (psb_cleanup q) = p == q
same_timer (rsb_refresh p) (rsb_refresh q) = p == q
same_timer (rsb_cleanup p) (rsb_cleanup q) = p == q
same_timer (bsb_blockade p) (bsb_blockade q) = p == q
same_timer _ _ = false

-- The three tables, and the timers that run.
pub record Db : Type 0 where
  pub psbs : Table Psb
  pub rsbs : Table Rsb
  pub bsbs : Table Bsb
  pub running : Timer → Bool

-- `rsvp_timer_stop`
abbrev pub stop : Timer → Db → Db
stop tm db = record db { running = λ u. if same_timer tm u then false else db.running u }

abbrev pub at_start : Db
at_start = record {
  psbs = empty_table;
  rsbs = empty_table;
  bsbs = empty_table;
  running = λ u. false;
}

abbrev pub psb_key : Psb → PathKey
psb_key psb = psb.key

abbrev pub rsb_key : Rsb → PathKey
rsb_key rsb = rsb.key

abbrev pub bsb_key : Bsb → PathKey
bsb_key bsb = bsb.key

unfoldable pub rsvp_psb_find : Db → PathKey → Option ℕ
rsvp_psb_find db key = find psb_key db.psbs key

unfoldable pub rsvp_rsb_find : Db → PathKey → Option ℕ
rsvp_rsb_find db key = find rsb_key db.rsbs key

unfoldable pub rsvp_bsb_find : Db → PathKey → Option ℕ
rsvp_bsb_find db key = find bsb_key db.bsbs key

-- The head of a bucket's chain; a negative `bucket` is not a number here.
abbrev pub head_of : List ℕ → Option ℕ
head_of [] = none
head_of (p ∷ ps) = some p

unfoldable pub rsvp_psb_find_by_bucket : Db → ℕ → Option ℕ
rsvp_psb_find_by_bucket db bucket =
    if ltb bucket hash_size then head_of (db.psbs.buckets bucket) else none

unfoldable pub rsvp_psb_find_by_id : Db → ℕ → ℕ → Option ℕ
rsvp_psb_find_by_id db tunnel_id lsp_id =
    scan (λ psb. psb.key.tunnel_id == tunnel_id && psb.key.lsp_id == lsp_id) db.psbs hash_size 0

-- `mem` is what `calloc` returned.
unfoldable pub rsvp_psb_create : Db → PathKey → Option ℕ → Option ℕ × Db
rsvp_psb_create db key none = (none, db)
rsvp_psb_create db key (some p) =
    (some p, record db { psbs = insert psb_key db.psbs p (new_psb key) })

unfoldable pub rsvp_rsb_create : Db → PathKey → Option ℕ → Option ℕ × Db
rsvp_rsb_create db key none = (none, db)
rsvp_rsb_create db key (some p) =
    (some p, record db { rsbs = insert rsb_key db.rsbs p (new_rsb key) })

unfoldable pub rsvp_bsb_create : Db → PathKey → Option ℕ → Option ℕ × Db
rsvp_bsb_create db key none = (none, db)
rsvp_bsb_create db key (some p) =
    (some p, record db { bsbs = insert bsb_key db.bsbs p (new_bsb key) })

-- `psb->associated_rsb->associated_psb = NULL`, and the reverse.
abbrev pub clear_psb : Rsb → Rsb
clear_psb rsb = record rsb { associated_psb = none }

abbrev pub clear_rsb : Psb → Psb
clear_rsb psb = record psb { associated_rsb = none }

-- What the deletion of a block does once the walk over its chain has found it.
unfoldable pub free_psb : Db → ℕ → Psb → Db
free_psb db p psb = record (stop (Timer.psb_cleanup p) (stop (Timer.psb_refresh p) db)) {
  psbs = remove psb_key db.psbs p psb;
  rsbs = record db.rsbs { heap = cut_back clear_psb psb.associated_rsb db.rsbs.heap };
}

unfoldable pub free_rsb : Db → ℕ → Rsb → Db
free_rsb db r rsb = record (stop (Timer.rsb_cleanup r) (stop (Timer.rsb_refresh r) db)) {
  rsbs = remove rsb_key db.rsbs r rsb;
  psbs = record db.psbs { heap = cut_back clear_rsb rsb.associated_psb db.psbs.heap };
}

unfoldable pub free_bsb : Db → ℕ → Bsb → Db
free_bsb db b bsb = record (stop (Timer.bsb_blockade b) db) { bsbs = remove bsb_key db.bsbs b bsb }

-- A block that is in no chain is neither stopped nor freed.
unfoldable pub rsvp_psb_delete : Db → ℕ → Db
rsvp_psb_delete db p = elim (db.psbs.heap p) [
  | none ↦ db
  | some psb ↦
      if contains p (db.psbs.buckets (rsvp_key_hash psb.key)) then free_psb db p psb else db
]

unfoldable pub rsvp_rsb_delete : Db → ℕ → Db
rsvp_rsb_delete db r = elim (db.rsbs.heap r) [
  | none ↦ db
  | some rsb ↦
      if contains r (db.rsbs.buckets (rsvp_key_hash rsb.key)) then free_rsb db r rsb else db
]

unfoldable pub rsvp_bsb_delete : Db → ℕ → Db
rsvp_bsb_delete db b = elim (db.bsbs.heap b) [
  | none ↦ db
  | some bsb ↦
      if contains b (db.bsbs.buckets (rsvp_key_hash bsb.key)) then free_bsb db b bsb else db
]

-- The three loops of `rsvp_state_db_cleanup` on bucket `i`. A loop has as many rounds as the chain has blocks.
unfoldable pub clean_psbs : ℕ → Db → Db
clean_psbs i db =
    drain (λ d. head_of (d.psbs.buckets i)) rsvp_psb_delete (length (db.psbs.buckets i)) db

unfoldable pub clean_rsbs : ℕ → Db → Db
clean_rsbs i db =
    drain (λ d. head_of (d.rsbs.buckets i)) rsvp_rsb_delete (length (db.rsbs.buckets i)) db

unfoldable pub clean_bsbs : ℕ → Db → Db
clean_bsbs i db =
    drain (λ d. head_of (d.bsbs.buckets i)) rsvp_bsb_delete (length (db.bsbs.buckets i)) db

unfoldable pub rsvp_state_db_cleanup : Db → Db
rsvp_state_db_cleanup db =
    over_buckets (λ i d. clean_bsbs i (clean_rsbs i (clean_psbs i d))) hash_size 0 db
