-- ===== src/Machine/Memory/PathFields.antt =====
-- What the objects of a PATH message leave alone in a PSB of src/pi/rsvp_state_machine.c.
use rsvp_te.Prelude.{
  ℕ, ◌≡◌, refl, ◌∙◌, Bool, true, false, List, [], ◌∷◌, Option, none, some, inl, inr, ◌==◌, ltb, ◌/◌,
  ◌%◌, if◌then◌else◌, Bool-cases, length,
}
use rsvp_te.Wire.{read8}
use rsvp_te.Wire.Parser.{MessageInfo}
use rsvp_te.StateDb.Blocks.{Psb}
use rsvp_te.Machine.{Hal}
use rsvp_te.Machine.Steady.{bare_psb, KeepsPsb}
use rsvp_te.Machine.PathMsg.{
  take_time_values, take_ttl, take_ero, take_rro, take_tspec, take_sess_attr, take_fast_reroute,
  take_lsp_name, take_hop, update_psb,
}

-- No object of the message touches the key or the RSB.
take_time_values_bare : (o : Option (List ℕ)) → KeepsPsb (take_time_values o)
take_time_values_bare none psb = refl
take_time_values_bare (some o) psb = refl

take_ttl_bare : (o : Option (List ℕ)) → KeepsPsb (take_ttl o)
take_ttl_bare none psb = refl
take_ttl_bare (some o) psb = refl

take_ero_bare : (o : Option (List ℕ)) → KeepsPsb (take_ero o)
take_ero_bare none psb = refl
take_ero_bare (some o) psb = elim (Bool-cases (ltb 0 (length o))) [
  | inl e ↦ rw e refl
  | inr e ↦ rw e refl
]

take_rro_bare : (o : Option (List ℕ)) → KeepsPsb (take_rro o)
take_rro_bare none psb = refl
take_rro_bare (some o) psb = elim (Bool-cases (ltb 0 (length o))) [
  | inl e ↦ rw e refl
  | inr e ↦ rw e refl
]

take_tspec_bare : (o : Option (List ℕ)) → KeepsPsb (take_tspec o)
take_tspec_bare none psb = refl
take_tspec_bare (some o) psb = refl

take_sess_attr_bare : (o : Option (List ℕ)) → KeepsPsb (take_sess_attr o)
take_sess_attr_bare none psb = refl
take_sess_attr_bare (some o) psb = refl

pick_bare :
    (b : Bool) (x y z : Psb) → bare_psb x ≡ z → bare_psb y ≡ z → bare_psb (if b then x else y) ≡ z
pick_bare true x y z e f = e
pick_bare false x y z e f = f

take_fast_reroute_bare : (hal : Hal) (o : Option (List ℕ)) → KeepsPsb (take_fast_reroute hal o)
take_fast_reroute_bare hal none psb = refl
take_fast_reroute_bare hal (some o) psb =
    pick_bare psb.is_bypass_tunnel _ _ _ refl (
      pick_bare (read8 o 3 / 2 % 2 == 1) _ _ _ refl
        (pick_bare (read8 o 3 % 2 == 1) _ _ _ refl refl))

take_lsp_name_bare : (hal : Hal) (name : List ℕ) → KeepsPsb (take_lsp_name hal name)
take_lsp_name_bare hal [] psb = refl
take_lsp_name_bare hal (c ∷ cs) psb = refl

take_hop_bare : (o : Option (List ℕ)) → KeepsPsb (take_hop o)
take_hop_bare none psb = refl
take_hop_bare (some o) psb = refl

pub update_psb_bare : (hal : Hal) (info : MessageInfo) → KeepsPsb (update_psb hal info)
unfolding update_psb
update_psb_bare hal info psb =
    take_hop_bare info.hop_v4 _
    ∙ (take_lsp_name_bare hal info.lsp_name _
        ∙ (take_fast_reroute_bare hal info.fast_reroute _
            ∙ (take_sess_attr_bare info.sess_attr _
                ∙ (take_tspec_bare info.tspec _
                    ∙ (take_rro_bare info.rro _
                        ∙ (take_ero_bare info.ero _
                            ∙ (take_ttl_bare info.common_hdr _
                                ∙ take_time_values_bare info.time_values psb)))))))
