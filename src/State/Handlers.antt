-- ===== src/State/Handlers.antt =====
-- sstp/sstp-state.c: what the state machine does with a packet that has been received. The buffer is
-- `rx_buf` in every call.
use sstp_client_i_os.Base.{map}
use sstp_client_i_os.Base.{ℕ, ◌+◌, ◌-◌, ◌*◌, ◌^◌, Option, none, some, List, [], ◌∷◌}
use sstp_client_i_os.Base.{
  Status, okay, fail, inprog, timeout, if◌then◌else◌, ◌==◌, ◌>>=◌, slt, get_or,
}
use sstp_client_i_os.Base.{get_elem?, read_bytes, read16}
use sstp_client_i_os.Buff.{Buff, buff_reset}
use sstp_client_i_os.Packet.{Attrs}
use sstp_client_i_os.Packet.{
  pkt_parse, pkt_type, pkt_data, pkt_data_len, attr_data, attr_len, Parsed,
}
use sstp_client_i_os.Packet.{unknown, data_packet, ctrl, attr_crypto_bind_req, attr_status_info}
use sstp_client_i_os.Packet.{msg_connect_ack, msg_connect_nak, msg_abort, msg_disconnect}
use sstp_client_i_os.Packet.{msg_disconnect_ack, echo_request, echo_reply}
use sstp_client_i_os.State.{Env, Ctx, forwarded, receive, Step, then_do}
use sstp_client_i_os.State.{call_abort, call_connect, call_disconnect}
use sstp_client_i_os.State.Calls.{call_state, send_echo_request, send_echo_reply, send_disconnect}
use sstp_client_i_os.State.Calls.{send_disconnect_ack}

-- The attribute of that type; `none` is NULL.
abbrev pub attr_of : Parsed → ℕ → Option ℕ
attr_of parsed type = get_or parsed.attrs type none

unfoldable pub store_request : ℕ → Ctx → Option Ctx
store_request attr ctx = do
  proto ← get_elem? ctx.rx_buf.bytes (attr_data attr + 3)
  nounce ← read_bytes ctx.rx_buf.bytes (attr_data attr + 4) 32
  some (record ctx { proto = proto; nounce = nounce })

unfoldable pub store_status : ℕ → Ctx → Option Ctx
store_status attr ctx = do
  high ← read16 ctx.rx_buf.bytes (attr_data attr + 4)
  low ← read16 ctx.rx_buf.bytes (attr_data attr + 6)
  some (record ctx { status = high * 65536 + low })

module _ (env : Env) where
  -- The local array `attrs`, which is not initialised.
  abbrev pub local_attrs : Ctx → Attrs
  local_attrs ctx = map (env.stale ctx.trace) (0 ∷ 1 ∷ 2 ∷ 3 ∷ 4 ∷ [])

  -- `sstp_pkt_parse` of `rx_buf` into that array.
  unfoldable pub parse_rx : Ctx → Option (Parsed × Ctx)
  parse_rx ctx = do
    parsed ← pkt_parse ctx.rx_buf (local_attrs ctx)
    some (parsed, record ctx { rx_buf = record (ctx.rx_buf) { off = parsed.off } })

  -- `sstp_state_connect_nak`; NAK, ABORT and DISCONNECT come here.
  unfoldable pub connect_nak : Ctx → Step
  unfolding parse_rx store_status
  connect_nak ctx = do
    (parsed, ctx) ← parse_rx ctx
    let use_attr = λ (attr : ℕ). (do
      len ← attr_len ctx.rx_buf.bytes attr
      let store = store_status attr ctx >>= λ ctx. some (okay, ctx)
      if slt len 4 then some (fail, ctx) else store)
    let found : Step = elim (attr_of parsed attr_status_info) [
      | none ↦ some (fail, ctx)
      | some attr ↦ use_attr attr
    ]
    elim (parsed.status) [ okay ↦ found | _ ↦ some (fail, ctx) ]

  -- The end `done:` of `sstp_state_connect_ack`, where `status` is SSTP_FAIL.
  abbrev pub ack_failed : Ctx → Step
  ack_failed ctx = then_do (call_state env call_abort ctx) λ ctx. some (fail, ctx)

  -- `sstp_state_connect_ack`
  unfoldable pub connect_ack : Ctx → Step
  unfolding parse_rx store_request
  connect_ack ctx = do
    (parsed, ctx) ← parse_rx ctx
    let use_attr = λ (attr : ℕ). (do
      len ← attr_len ctx.rx_buf.bytes attr
      let store = store_request attr ctx >>= call_state env call_connect
      if len == 36 then store else ack_failed ctx)
    let found : Step = elim (attr_of parsed attr_crypto_bind_req) [
      | none ↦ ack_failed ctx
      | some attr ↦ use_attr attr
    ]
    elim (parsed.status) [ okay ↦ found | _ ↦ ack_failed ctx ]

  abbrev pub finish_okay : Step → Step
  finish_okay step = then_do step λ ctx. some (okay, ctx)

  -- The cases of `sstp_state_handle_ctrl` that read the status first.
  unfoldable pub on_nak : Ctx → Step
  unfolding connect_nak send_disconnect
  on_nak ctx = do
    (ret, ctx) ← connect_nak ctx
    elim ret [ okay ↦ finish_okay (send_disconnect env ctx) | _ ↦ some (okay, ctx) ]

  unfoldable pub on_abort : Ctx → Step
  unfolding connect_nak
  on_abort ctx = do
    (ret, ctx) ← connect_nak ctx
    elim ret [ okay ↦ finish_okay (call_state env call_abort ctx) | _ ↦ some (okay, ctx) ]

  unfoldable pub on_disconnect : Ctx → Step
  unfolding connect_nak send_disconnect_ack
  on_disconnect ctx = do
    (ret, ctx) ← connect_nak ctx
    let acked : Step = elim ret [ okay ↦ send_disconnect_ack env ctx | _ ↦ some (okay, ctx) ]
    then_do acked λ ctx. finish_okay (call_state env call_disconnect ctx)

  -- `sstp_state_handle_ctrl`
  unfoldable pub handle_ctrl : ℕ → Ctx → Step
  unfolding on_nak on_abort on_disconnect connect_ack send_echo_reply
  handle_ctrl type ctx =
      if type == msg_connect_ack
      then connect_ack ctx
      else if type == msg_connect_nak
      then on_nak ctx
      else if type == msg_abort
      then on_abort ctx
      else if type == msg_disconnect
      then on_disconnect ctx
      else if type == msg_disconnect_ack
      then finish_okay (call_state env call_disconnect ctx)
      else if type == echo_request
      then finish_okay (send_echo_reply env ctx)
      else if type == echo_reply
      then some (okay, record ctx { echo = 0 })
      else some (okay, ctx)

  -- `sstp_state_handle_data`: `forward_cb` is handed a pointer and a length, here the bytes there.
  unfoldable pub handle_data : Ctx → Step
  handle_data ctx = do
    start ← pkt_data ctx.rx_buf
    size ← pkt_data_len ctx.rx_buf
    let hand_over = λ (bytes : List ℕ).
        some (env.forward ctx.trace bytes, record ctx { trace = forwarded bytes ∷ ctx.trace })
    elim start [ none ↦ hand_over [] | some at ↦ read_bytes ctx.rx_buf.bytes at size >>= hand_over ]

  -- `sstp_state_handle_packet`
  unfoldable pub handle_packet : Ctx → Step
  unfolding handle_data handle_ctrl
  handle_packet ctx = do
    kind ← pkt_type ctx.rx_buf
    elim kind [
      | data_packet ↦ finish_okay (handle_data ctx)
      | ctrl type ↦ handle_ctrl type ctx
      | unknown ↦ some (okay, ctx)
    ]

  -- The end of `sstp_state_recv`.
  abbrev pub rearm : Status → Ctx → Ctx
  rearm ret ctx =
      let reset = record ctx { rx_buf = buff_reset ctx.rx_buf } in
      let armed = record reset { trace = receive ∷ reset.trace } in
      elim ret [ inprog ↦ reset | _ ↦ armed ]

  -- The case SSTP_TIMEOUT of `sstp_state_recv`; the counter is an int.
  unfoldable pub on_timeout : Ctx → Option Ctx
  unfolding send_echo_request buff_reset
  on_timeout ctx =
      let give_up = call_state env call_abort ctx >>= λ r. some (r.1) in
      let ask = send_echo_request env ctx >>= λ r. some (rearm okay r.1) in
      if slt 4 ctx.echo then give_up else ask

  -- `sstp_state_recv`. SSTP_FAIL is handed to `state_cb` as it stands, the int -1.
  unfoldable pub state_recv : Ctx → Status → Option Ctx
  unfolding on_timeout handle_packet buff_reset
  state_recv ctx timeout = on_timeout ctx
  state_recv ctx okay = handle_packet ctx >>= λ r. some (rearm r.0 r.1)
  state_recv ctx inprog = some ctx
  state_recv ctx fail = call_state env (2 ^ 32 - 1) ctx >>= λ r. some (r.1)
  state_recv ctx _ = some (rearm okay ctx)

  -- The events of a run, one after the other: what `sstp_state_recv` is called with, and the bytes
  -- that have arrived in `rx_buf` by then.
  unfoldable pub run : Ctx → List (Status × Buff) → Option Ctx
  run ctx [] = some ctx
  run ctx ((status, rx) ∷ events) =
      state_recv (record ctx { rx_buf = rx }) status >>= λ ctx. run ctx events
