-- ===== src/Machine/Handle.antt =====
-- `rsvp_handle_message` of src/pi/rsvp_state_machine.c.
use rsvp_te.Prelude.{ℕ, List, Option, none, some, ◌==◌, if◌then◌else◌}
use rsvp_te.Wire.{
  read8, read32, msg_path, msg_resv, msg_patherr, msg_resverr, msg_pathtear, msg_resvtear,
  msg_hello,
}
use rsvp_te.Wire.Parser.{MessageInfo}
use rsvp_te.Machine.{given, Hal, Machine, hello_recv, emit}
use rsvp_te.Machine.PathMsg.{handle_path_message}
use rsvp_te.Machine.ResvMsg.{handle_resv_message}
use rsvp_te.Machine.Cleanup.{handle_path_tear, handle_resv_tear}
use rsvp_te.Machine.Errors.{handle_path_err, handle_resv_err}

abbrev pub pass_hello : Machine → MessageInfo → Option (List ℕ) → Machine
pass_hello m info none = m
pass_hello m info (some o) =
    emit m (hello_recv info.src_ip (read32 o 0) (read32 o 4) info.hello_ctype)

-- The `switch` on the type; ResvConf and Srefresh are only logged, as any other type is.
unfoldable pub handle_type : Hal → Machine → MessageInfo → ℕ → Machine
handle_type hal m info msg_type =
    if msg_type == msg_path
    then handle_path_message hal m info
    else if msg_type == msg_resv
    then handle_resv_message hal m info
    else if msg_type == msg_pathtear
    then handle_path_tear hal m info
    else if msg_type == msg_resvtear
    then handle_resv_tear hal m info
    else if msg_type == msg_patherr
    then handle_path_err hal m info
    else if msg_type == msg_resverr
    then handle_resv_err hal m info
    else if msg_type == msg_hello
    then pass_hello m info info.hello_obj
    else m

unfoldable pub rsvp_handle_message : Hal → Machine → MessageInfo → Machine
unfolding handle_type
rsvp_handle_message hal m info =
    given info.common_hdr m (λ hdr. handle_type hal m info (read8 hdr 1))
