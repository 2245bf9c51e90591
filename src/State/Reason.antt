-- ===== src/State/Reason.antt =====
-- The reason that sstp/sstp-state.c gives for the end of a call, with the texts of
-- `sstp_attr_status_str` in sstp/sstp-packet.c as constructors.
use sstp_client_i_os.Base.{
  ℕ, ◌+◌, ◌*◌, ◌≡◌, ◌∷◌, refl, arith, true, some, ◌==◌, if◌then◌else◌, okay,
}
use sstp_client_i_os.Packet.{msg_connect_nak}
use sstp_client_i_os.Packet.Format.{Holds}
use sstp_client_i_os.State.{Env, Ctx, receive}
use sstp_client_i_os.State.Handlers.{handle_ctrl}
use sstp_client_i_os.State.Sending.{IsReady}
use sstp_client_i_os.State.Closing.{message, nak_disconnects}

pub data Reason : Type 0 where
  duplicate unrecognized invalid_length value_notsup attr_notsup attr_missing info_nosup : Reason
  -- "Unknown Status Attribute"
  unknown_status : Reason
  -- "Reason was not known"
  not_known : Reason

pub attr_status_str : ℕ → Reason
attr_status_str status =
    if status == 0x01
    then duplicate
    else if status == 0x02
    then unrecognized
    else if status == 0x03
    then invalid_length
    else if status == 0x04
    then value_notsup
    else if status == 0x09
    then attr_notsup
    else if status == 0x0a
    then attr_missing
    else if status == 0x0b
    then info_nosup
    else unknown_status

unfoldable pub state_reason : Ctx → Reason
unfolding attr_status_str
state_reason ctx = if ctx.state == 0 then not_known else attr_status_str ctx.status

-- `sstp_state_resume_recv`
abbrev pub resume_recv : Ctx → Ctx
resume_recv ctx = record ctx { trace = receive ∷ ctx.trace }

module _ (env : Env) (ctx : Ctx) (a b c d e f g h : ℕ) where
  -- The status of a refused connect request is kept, but as the call was never established no reason
  -- is given for it.
  pub nak_reason :
      Holds ctx.rx_buf (message env ctx msg_connect_nak a b c d e f g h)
      → IsReady ctx.tx_buf
      → ctx.state ≡ 0
      → (ctx' : Ctx) × (handle_ctrl env msg_connect_nak ctx ≡ some (okay, ctx'))
        × (ctx'.status ≡ (e * 256 + f) * 65536 + (g * 256 + h))
        × (state_reason ctx' ≡ not_known)
  unfolding state_reason
  nak_reason holds r fresh =
      let (tx, done, ready) = nak_disconnects env ctx a b c d e f g h holds r in
      let none_yet : (ctx.state == 0) ≡ true = ground arith in (_, done, refl, rw none_yet)
