-- ===== src/State/Closing.antt =====
-- How a peer ends a call, in sstp/sstp-state.c: the packets with a status attribute.
use sstp_client_i_os.Base.{ℕ, ◌+◌, ◌*◌, ◌≡◌, ap, arith, [], ◌∷◌, some}
use sstp_client_i_os.Base.{okay, read16}
use sstp_client_i_os.Buff.{Buff}
use sstp_client_i_os.Packet.{
  msg_disconnect, msg_disconnect_ack, msg_connect_nak, msg_abort, attr_status_info,
}
use sstp_client_i_os.Packet.Format.{Attr, Message, Holds, encode}
use sstp_client_i_os.Packet.Parse.{pkt_parse-Holds, first_attr}
use sstp_client_i_os.State.{Env, Ctx, sent, called, call_abort, call_disconnect}
use sstp_client_i_os.State.Calls.{send_disconnect, send_disconnect_ack}
use sstp_client_i_os.State.Handlers.{
  local_attrs, connect_nak, parse_rx, store_status, handle_ctrl, on_nak, on_abort, on_disconnect,
}
use sstp_client_i_os.State.Sending.{IsReady, bare, send_bare}

module _ (env : Env) (ctx : Ctx) (type a b c d e f g h : ℕ) where
  -- A packet of that type with a status attribute: four bytes of reserved space and attribute, then
  -- the status in four bytes; and the number that the status stands for.
  abbrev pub message : Message
  message = record {
    type = type;
    attrs = record { type = attr_status_info; payload = a ∷ b ∷ c ∷ d ∷ e ∷ f ∷ g ∷ h ∷ [] } ∷ [];
  }

  abbrev pub code : ℕ
  code = (e * 256 + f) * 65536 + (g * 256 + h)

  -- The context with the status, and `off` of the receive buffer behind the parser.
  abbrev pub noted : Ctx
  noted = record ctx { status = code; rx_buf = record (ctx.rx_buf) { off = 12 } }

  status_read : Holds ctx.rx_buf message → connect_nak env ctx ≡ some (okay, noted)
  unfolding connect_nak parse_rx store_status
  status_read holds =
      let info : Attr = record {
        type = attr_status_info;
        payload = a ∷ b ∷ c ∷ d ∷ e ∷ f ∷ g ∷ h ∷ [];
      } in
      let (tail, same, len) = first_attr ctx.rx_buf type info [] holds in
      let bytes = ap (λ (b : Buff). b.bytes) same in
      let (parsed, size, payload_read) =
        pkt_parse-Holds ctx.rx_buf type info (local_attrs env ctx) holds (omega arith) (omega arith)
          (omega arith) in
      let high : read16 ctx.rx_buf.bytes 16 ≡ some (e * 256 + f) = ap (λ t. read16 t 16) bytes in
      let low : read16 ctx.rx_buf.bytes 18 ≡ some (g * 256 + h) = ap (λ t. read16 t 18) bytes in
      rw parsed (rw size (rw high (rw low)))

module _ (env : Env) (ctx : Ctx) (a b c d e f g h : ℕ) where
  -- A disconnect with a status is noted, acknowledged with one packet, and reported to the layer
  -- above as a disconnect.
  pub disconnect_acknowledged :
      Holds ctx.rx_buf (message env ctx msg_disconnect a b c d e f g h)
      → IsReady ctx.tx_buf
      → (tx : Buff) × (handle_ctrl env msg_disconnect ctx
          ≡ some (
            okay,
            record (noted env ctx msg_disconnect a b c d e f g h) {
              tx_buf = tx;
              trace = called call_disconnect ∷ sent (encode (bare msg_disconnect_ack)) ∷ ctx.trace;
            },
          ))
        × IsReady tx
  unfolding handle_ctrl on_disconnect send_disconnect_ack
  disconnect_acknowledged holds r =
      let seen = status_read env ctx msg_disconnect a b c d e f g h holds in
      let (begun, status, tx, made, done, ready) =
        send_bare env msg_disconnect_ack (noted env ctx msg_disconnect a b c d e f g h) r
          (λ e. omega (arith, e)) in
      (tx, rw seen (rw made (rw done)), ready)

  -- A refusal of the connect request is noted and answered by a disconnect; the layer above is not
  -- told.
  pub nak_disconnects :
      Holds ctx.rx_buf (message env ctx msg_connect_nak a b c d e f g h)
      → IsReady ctx.tx_buf
      → (tx : Buff) × (handle_ctrl env msg_connect_nak ctx
          ≡ some (
            okay,
            record (noted env ctx msg_connect_nak a b c d e f g h) {
              tx_buf = tx;
              trace = sent (encode (bare msg_disconnect)) ∷ ctx.trace;
            },
          ))
        × IsReady tx
  unfolding handle_ctrl on_nak send_disconnect
  nak_disconnects holds r =
      let seen = status_read env ctx msg_connect_nak a b c d e f g h holds in
      let (begun, status, tx, made, done, ready) =
        send_bare env msg_disconnect (noted env ctx msg_connect_nak a b c d e f g h) r
          (λ e. omega (arith, e)) in
      (tx, rw seen (rw made (rw done)), ready)

  -- An abort with a status is noted and reported to the layer above as an abort, and nothing is sent.
  pub abort_reported :
      Holds ctx.rx_buf (message env ctx msg_abort a b c d e f g h)
      → handle_ctrl env msg_abort ctx
        ≡ some (
          okay,
          record (noted env ctx msg_abort a b c d e f g h) {
            trace = called call_abort ∷ ctx.trace;
          },
        )
  unfolding handle_ctrl on_abort
  abort_reported holds = rw (status_read env ctx msg_abort a b c d e f g h holds)
