-- ===== src/Pppd.antt =====
-- sstp/sstp-pppd.c: the program pppd of the command line client, behind a pseudo terminal. What pppd
-- writes is cut into HDLC frames, and each frame is sent to the server as a data packet.
-- The integers of the two buffers are below 2 ^ 31. `sstp_stream_send` and what `notify` does to the
-- stream are arguments; Pppd/Stream.antt puts the sender of Stream/Send.antt there. A result `none`
-- is an access outside of an array.
pub mod Process
pub mod Pending
pub mod Frames
pub mod Forwarded
pub mod Ends
pub mod Forward
pub mod Drain
pub mod Down
pub mod Watch
pub mod Tls
pub mod Examples
pub mod Launch
use sstp_client_i_os.Base.{
  ℕ, zero, suc, ◌+◌, ◌-◌, ◌*◌, ◌%◌, ◌^◌, bit_and, Bool, true, false, not, ◌&&◌, ◌||◌, Option, none,
}
use sstp_client_i_os.Base.{
  some, List, [], ◌∷◌, ◌++◌, length, take, drop, get_elem?, get_or, ltb, slt, ◌==◌, if◌then◌else◌,
}
use sstp_client_i_os.Base.{◌>>=◌, read16, read_bytes, write_bytes, is, Status, okay, fail, inprog}
use sstp_client_i_os.Base.{overflow}
use sstp_client_i_os.Buff.{Buff, buff_reset}
use sstp_client_i_os.Buff.Laws.{contents}
use sstp_client_i_os.Packet.{msg_data, pkt_init, pkt_data, pkt_update}
use sstp_client_i_os.Hdlc.{Decoded, Encoded, frame_decode, frame_encode}
use sstp_client_i_os.Ppp.{Chap, ppp_down, ppp_up, ppp_auth, ppp_start}
use sstp_client_i_os.Ppp.Requests.{proto_chap, proto_ipcp}
use sstp_client_i_os.Ppp.Handlers.{chap_response, chap_failure, mschap_value_len}

abbrev pub proto_pap : ℕ
proto_pap = 0xc023

abbrev pub proto_eap : ℕ
proto_eap = 0xc227

abbrev pub eap_response : ℕ
eap_response = 2

abbrev pub eapt_tls : ℕ
eapt_tls = 13

abbrev pub eapt_mschapv2 : ℕ
eapt_mschapv2 = 26

-- A function that returned, or that ended the process by `sstp_die`.
pub data Exit {ℓ} (A : Type ℓ) : Type ℓ where
  returned : A → Exit A
  died : Exit A

-- `struct sstp_pppd`, with `reading` for the event `ev_recv`. The last three are what was done so
-- far: the calls of `notify`, the packets handed to `sstp_stream_send`, and the bytes written to
-- pppd.
pub record Pppd (Stream : Type 0) : Type 0 where
  pub rx_buf : Buff
  pub tx_buf : Buff
  pub stream : Stream
  pub reading : Bool
  pub chap : Chap
  pub has_notify : Bool
  pub ip_up : Bool
  pub auth_done : Bool
  pub auth_check : Bool
  pub del_file : Bool
  pub t_end : ℕ
  pub t_start : ℕ
  pub sent_bytes : ℕ
  pub recv_bytes : ℕ
  pub first : Bool
  pub told : List ℕ
  pub handed : List (List ℕ)
  pub tty : List ℕ

-- The bytes of a `sstp_chap_st`.
unfoldable pub chap_of : List ℕ → Chap
chap_of bytes = record {
  challenge = take 16 bytes;
  response = take 8 (drop 16 bytes);
  nt_response = take 24 (drop 24 bytes);
  flags = get_or bytes 48 0;
}

-- The place behind the address and the control byte, if they are there.
unfoldable pub skip_hdlc : List ℕ → ℕ → Option ℕ
skip_hdlc mem at = do
  a ← get_elem? mem at
  let second = (do b ← get_elem? mem (at + 1); some (if b == 0x03 then at + 2 else at))
  if a == 0xff then second else some at

-- The protocol, which may be compressed to a byte, and the place behind it.
unfoldable pub protocol : List ℕ → ℕ → Option (ℕ × ℕ)
protocol mem at = do
  a ← get_elem? mem at
  let whole = (do b ← get_elem? mem (at + 1); some (a * 256 + b, at + 2))
  if bit_and a 0x01 == 0 then whole else some (a, at + 1)

-- Where the payload of a packet is; a control packet has none, and NULL is not to be read.
unfoldable pub payload_at : Buff → Option ℕ
unfolding pkt_data
payload_at tx = do place ← pkt_data tx; place

module _ {Stream : Type 0} where
  abbrev pub record_recv : Pppd Stream → ℕ → Pppd Stream
  record_recv ctx len = record ctx { recv_bytes = (ctx.recv_bytes + len) % 2 ^ 64 }

  abbrev pub record_sent : Pppd Stream → ℕ → Pppd Stream
  record_sent ctx len = record ctx { sent_bytes = (ctx.sent_bytes + len) % 2 ^ 64 }

  -- The file is deleted, or a warning is logged.
  abbrev pub deltmp : Pppd Stream → Pppd Stream
  deltmp ctx = record ctx { del_file = false }

  -- `len` bytes of the server for pppd; `written` is what `write` answers, with 0 for a negative
  -- number.
  unfoldable pub pppd_send : Pppd Stream → List ℕ → ℕ → Status × Pppd Stream
  pppd_send ctx buf written =
      let frame = frame_encode buf (2 * length buf + 4) in
      let counted = record_recv ctx (length buf) in
      let out = record counted { tty = ctx.tty ++ take written frame.frame } in
      if is (frame.status) okay
      then (if written == frame.flen then (okay, out) else (fail, out))
      else (fail, ctx)

module _ {Stream : Type 0} (notify : Chap → ℕ → Stream → Stream) where
  -- `if (ctx->notify) ctx->notify(ctx->arg, event)`
  unfoldable pub tell : ℕ → Pppd Stream → Pppd Stream
  tell event ctx =
      let told = record ctx {
        told = ctx.told ++ event ∷ [];
        stream = notify ctx.chap event ctx.stream;
      } in
      if ctx.has_notify then told else ctx

  -- The response at `at` is kept, and the owner may make the keys of it.
  unfoldable pub snoop : Pppd Stream → List ℕ → ℕ → Option (Pppd Stream)
  unfolding tell chap_of
  snoop ctx mem at = do
    bytes ← read_bytes mem at mschap_value_len
    some (record (tell ppp_auth (record ctx { chap = chap_of bytes })) { auth_done = true })

  -- A CHAP packet, its header at `hdr`.
  unfoldable pub on_chap : Pppd Stream → List ℕ → ℕ → Option (Pppd Stream)
  unfolding snoop
  on_chap ctx mem hdr = do
    code ← get_elem? mem hdr
    let sized = (do size ← get_elem? mem (hdr + 4); some (size == mschap_value_len))
    response ← if code == chap_response then sized else some false
    let other = if code == chap_failure then some ctx else some (deltmp ctx)
    if response then snoop ctx mem (hdr + 5) else other

  -- An EAP packet.
  unfoldable pub on_eap : Pppd Stream → List ℕ → ℕ → Option (Exit (Pppd Stream))
  unfolding snoop
  on_eap ctx mem hdr = do
    code ← get_elem? mem hdr
    let kept = (do ctx ← snoop ctx mem (hdr + 10); some (returned ctx))
    let sized = (do
      size ← get_elem? mem (hdr + 9)
      if size == mschap_value_len then kept else some (returned ctx))
    let login = (do
      op ← get_elem? mem (hdr + 5)
      if op == chap_response then sized else some (returned ctx))
    let typed = (do
      type ← get_elem? mem (hdr + 4)
      let other = if type == eapt_tls then some died else some (returned ctx)
      if type == eapt_mschapv2 then login else other)
    if code == eap_response then typed else some (returned ctx)

  unfoldable pub check_auth : Pppd Stream → Buff → Option (Exit (Pppd Stream))
  unfolding payload_at skip_hdlc protocol on_chap on_eap
  check_auth ctx tx = do
    begin ← payload_at tx
    at ← skip_hdlc tx.bytes begin
    (proto, hdr) ← protocol tx.bytes at
    let chap = (do ctx ← on_chap ctx tx.bytes hdr; some (returned ctx))
    let pap = some (returned (record (deltmp ctx) { auth_done = true }))
    let other = if proto == proto_pap then pap else some (returned ctx)
    let not_chap = if proto == proto_eap then on_eap ctx tx.bytes hdr else other
    if proto == proto_chap then chap else not_chap

  unfoldable pub ipup : Pppd Stream → Buff → Option (Pppd Stream)
  unfolding payload_at skip_hdlc tell
  ipup ctx tx = do
    begin ← payload_at tx
    at ← skip_hdlc tx.bytes begin
    proto ← read16 tx.bytes at
    some (if proto == proto_ipcp then record (tell ppp_up ctx) { ip_up = true } else ctx)

  -- What the client looks for in the packets of pppd while there is no plugin.
  unfoldable pub watch : Pppd Stream → Option (Exit (Pppd Stream))
  unfolding check_auth ipup
  watch ctx = do
    checked ←
        if ctx.auth_check && not ctx.auth_done
        then check_auth ctx ctx.tx_buf
        else some (returned ctx)
    let up = λ (c : Pppd Stream). (do c ← ipup c c.tx_buf; some (returned c))
    let next = λ (c : Pppd Stream).
        if c.auth_check && (c.auth_done && not c.ip_up) then up c else some (returned c)
    elim checked [ returned c ↦ next c | died ↦ some died ]
