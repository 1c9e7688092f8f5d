-- ===== src/Machine/Memory/ResvFields.antt =====
-- What the objects of a RESV message leave alone in an RSB of src/pi/rsvp_state_machine.c.
use rsvp_te.Prelude.{ℕ, ◌≡◌, refl, ◌∙◌, List, Option, none, some}
use rsvp_te.Wire.Parser.{MessageInfo}
use rsvp_te.StateDb.Blocks.{Rsb}
use rsvp_te.Machine.ResvMsg.{
  resv_time_values, resv_flowspec, resv_style, update_rsb, resv_ttl, resv_hop, take_label_and_hop,
}
use rsvp_te.Machine.Memory.{bare_rsb}

-- No object of the message touches the key or the PSB.
abbrev KeepsRsb : (Rsb → Rsb) → Type 0
KeepsRsb f = (rsb : Rsb) → bare_rsb (f rsb) ≡ bare_rsb rsb

resv_time_values_bare : (o : Option (List ℕ)) → KeepsRsb (resv_time_values o)
resv_time_values_bare none rsb = refl
resv_time_values_bare (some o) rsb = refl

resv_flowspec_bare : (o : Option (List ℕ)) → KeepsRsb (resv_flowspec o)
resv_flowspec_bare none rsb = refl
resv_flowspec_bare (some o) rsb = refl

resv_style_bare : (o : Option (List ℕ)) → KeepsRsb (resv_style o)
resv_style_bare none rsb = refl
resv_style_bare (some o) rsb = refl

resv_ttl_bare : (o : Option (List ℕ)) → KeepsRsb (resv_ttl o)
resv_ttl_bare none rsb = refl
resv_ttl_bare (some o) rsb = refl

resv_hop_bare : (o : Option (List ℕ)) → KeepsRsb (resv_hop o)
resv_hop_bare none rsb = refl
resv_hop_bare (some o) rsb = refl

pub update_rsb_bare : (info : MessageInfo) → KeepsRsb (update_rsb info)
unfolding update_rsb
update_rsb_bare info rsb =
    resv_style_bare info.style _
    ∙ (resv_flowspec_bare info.flowspec _ ∙ resv_time_values_bare info.time_values rsb)

pub take_label_and_hop_bare :
    (info : MessageInfo) (label : ℕ) → KeepsRsb (take_label_and_hop info label)
unfolding take_label_and_hop
take_label_and_hop_bare info label rsb =
    resv_hop_bare info.hop_v4 _ ∙ resv_ttl_bare info.common_hdr rsb
