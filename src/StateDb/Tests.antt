-- ===== src/StateDb/Tests.antt =====
-- src/pi/rsvp_state_db.c at concrete inputs: two PSBs, of which the second has an RSB.
use rsvp_te.Prelude.{List, ◌∷◌, some, ◌≡◌, refl, [], arith, false, none, some}
use rsvp_te.Wire.Parser.{PathKey, zero_key}
use rsvp_te.StateDb.Drained.{rsvp_state_db_cleanup_empties}
use rsvp_te.StateDb.{
  Timer, rsvp_state_db_cleanup, Db, at_start, rsvp_psb_create, rsvp_rsb_create, rsvp_psb_find,
}
use rsvp_te.StateDb.Key.{rsvp_key_hash, same_key}
use rsvp_te.StateDb.Blocks.{new_psb}
use rsvp_te.StateDb.Buckets.{find, walk, insert}
use rsvp_te.StateDb.Valid.{IsValid, start-IsValid, psb_create-IsValid, rsb_create-IsValid}
use rsvp_te.StateDb.Lookup.{Call, run, psb_find_newest}

abbrev key_a : PathKey
key_a = record zero_key {
  dest_addr = 0x0a00_0002;
  tunnel_id = 1;
  source_addr = 0x0a00_0001;
  lsp_id = 1;
}

abbrev key_b : PathKey
key_b = record key_a { lsp_id = 2 }

abbrev one_psb : Db
one_psb = (rsvp_psb_create at_start key_a (some 100)).1

abbrev two_psbs : Db
two_psbs = (rsvp_psb_create one_psb key_b (some 200)).1

one_psb-IsValid : IsValid one_psb
one_psb-IsValid = psb_create-IsValid at_start key_a 100 start-IsValid refl

at_200 : one_psb.psbs.heap 200 ≡ none
unfolding rsvp_psb_create insert
at_200 = refl

two_psbs-IsValid : IsValid two_psbs
two_psbs-IsValid = psb_create-IsValid one_psb key_b 200 one_psb-IsValid at_200

at_100 : two_psbs.psbs.heap 100 ≡ some (new_psb key_a)
unfolding rsvp_psb_create insert
at_100 = refl

finds_first : rsvp_psb_find two_psbs key_a ≡ some 100
unfolding rsvp_psb_create insert rsvp_psb_find find walk rsvp_key_hash same_key
finds_first = refl

-- Two PSBs with one key, of which the newer is deleted, and one with another key.
abbrev calls : List Call
calls = Call.create key_a 100 ∷ Call.create key_a 200 ∷ Call.create key_b 300 ∷ Call.delete 200 ∷ []

psb_find_newest_example : rsvp_psb_find (run at_start calls) key_a ≡ some 100
unfolding same_key
psb_find_newest_example = psb_find_newest calls key_a (refl, (refl, (refl, (refl, tt))))

abbrev with_rsb : Db
with_rsb = (rsvp_rsb_create two_psbs key_b (some 300)).1

at_300 : two_psbs.rsbs.heap 300 ≡ none
unfolding rsvp_psb_create
at_300 = refl

with_rsb-IsValid : IsValid with_rsb
with_rsb-IsValid = rsb_create-IsValid two_psbs key_b 300 two_psbs-IsValid at_300

rsvp_state_db_cleanup_empties_example :
    ((rsvp_state_db_cleanup with_rsb).psbs.buckets 7 ≡ [])
    × ((rsvp_state_db_cleanup with_rsb).rsbs.buckets 7 ≡ [])
    × ((rsvp_state_db_cleanup with_rsb).bsbs.buckets 7 ≡ [])
    × ((rsvp_state_db_cleanup with_rsb).psbs.heap 100 ≡ none)
    × ((rsvp_state_db_cleanup with_rsb).rsbs.heap 100 ≡ none)
    × ((rsvp_state_db_cleanup with_rsb).bsbs.heap 100 ≡ none)
    × ((rsvp_state_db_cleanup with_rsb).running (Timer.rsb_cleanup 300) ≡ false)
rsvp_state_db_cleanup_empties_example =
    rsvp_state_db_cleanup_empties with_rsb 7 100 (Timer.rsb_cleanup 300) with_rsb-IsValid
      (omega arith)
