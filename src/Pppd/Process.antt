-- ===== src/Pppd/Process.antt =====
-- The way from pppd to the server in sstp/sstp-pppd.c: the loop over the frames that were read, what
-- goes on when the stream could send again, and the event that pppd wrote something.
use sstp_client_i_os.Base.{
  ℕ, zero, suc, ◌+◌, ◌-◌, ◌%◌, ◌^◌, true, false, ◌||◌, Option, none, some, List, [], ◌∷◌, ◌++◌,
}
use sstp_client_i_os.Base.{
  length, drop, ltb, slt, ◌==◌, if◌then◌else◌, ◌>>=◌, read_bytes, write_bytes, is, Status, okay,
  fail, inprog, overflow,
}
use sstp_client_i_os.Buff.{Buff, buff_reset}
use sstp_client_i_os.Buff.Laws.{contents}
use sstp_client_i_os.Packet.{msg_data, pkt_init, pkt_update}
use sstp_client_i_os.Hdlc.{Decoded, frame_decode}
use sstp_client_i_os.Ppp.{Chap, ppp_down, ppp_start}
use sstp_client_i_os.Pppd.{Pppd, Exit, returned, died, tell, watch, record_sent}

-- What `read` answers.
pub data Input : Type 0 where
  got : List ℕ → Input
  error : Input

module _ {Stream : Type 0} where
  -- A frame is read into the packet that was begun.
  unfoldable pub read_frame : Pppd Stream → Option (Decoded × Pppd Stream)
  read_frame ctx = do
    let rx = ctx.rx_buf
    let tx = ctx.tx_buf
    d ← frame_decode (drop rx.off rx.bytes) (rx.len - rx.off) (tx.max - tx.len)
    bytes ← write_bytes tx.bytes tx.len d.frame
    some (d, record ctx { tx_buf = record tx { bytes = bytes } })

  -- More is needed: the rest is moved to the start of the buffer.
  unfoldable pub keep_rest : Pppd Stream → ℕ → Option (Pppd Stream)
  keep_rest ctx off = do
    let rx = ctx.rx_buf
    rest ← read_bytes rx.bytes rx.off (rx.len - rx.off)
    bytes ← write_bytes rx.bytes 0 rest
    some (record ctx { rx_buf = record rx { len = off; off = 0; bytes = bytes } })

  abbrev pub advance : Pppd Stream → ℕ → Pppd Stream
  advance ctx n = record ctx { rx_buf = record (ctx.rx_buf) { off = ctx.rx_buf.off + n } }

  -- `if (rx->off == rx->len) sstp_buff_reset(rx)`
  unfoldable pub start_over : Pppd Stream → Pppd Stream
  start_over ctx =
      let rx = ctx.rx_buf in if rx.off == rx.len then record ctx { rx_buf = buff_reset rx } else ctx

  -- What `ppp_send_complete` does with the result of `ppp_process_data`; `buf`, the buffer of the
  -- operation that is complete, is `tx_buf`.
  abbrev pub completed : Status → Pppd Stream → Pppd Stream
  completed status ctx =
      if is status okay then record (record_sent ctx ctx.tx_buf.len) { reading = true } else ctx

  -- The event `ev_recv` comes once.
  abbrev pub fired : Pppd Stream → Pppd Stream
  fired ctx = record ctx { reading = false }

  -- `rx->len += read(...)`, where an error is -1.
  unfoldable pub receive : Pppd Stream → Input → Option (Pppd Stream)
  receive ctx (got new) = do
    let rx = ctx.rx_buf
    mem ← write_bytes rx.bytes rx.len new
    some (record ctx { rx_buf = record rx { len = rx.len + length new; bytes = mem } })
  receive ctx error =
      let rx = ctx.rx_buf in
      some (record ctx { rx_buf = record rx { len = (rx.len + 2 ^ 32 - 1) % 2 ^ 32 } })

  abbrev pub resumed : Status → Pppd Stream → Pppd Stream
  resumed status ctx = if is status okay then record ctx { reading = true } else ctx

module _ {Stream : Type 0} (notify : Chap → ℕ → Stream → Stream)
    (stream_send : Stream → Buff → Option (Status × Stream)) where
  abbrev Result : Type 0
  Result = Option (Exit (Status × Pppd Stream))

  -- The packet is handed to the stream, and `again` goes on behind it.
  unfoldable pub hand_over : (Pppd Stream → Result) → Pppd Stream → Result
  hand_over again ctx = do
    let tx = ctx.tx_buf
    (status, stream) ← stream_send ctx.stream tx
    let sent = record ctx { stream = stream; handed = ctx.handed ++ contents tx ∷ [] }
    if is status okay then again (record_sent sent tx.len) else some (returned (inprog, sent))

  -- A frame with the right checksum.
  unfoldable pub forward : (Pppd Stream → Result) → Decoded → Pppd Stream → Result
  unfolding hand_over
  forward again d ctx = do
    let tx = ctx.tx_buf
    tx ← pkt_update (record tx { len = tx.len + d.size })
    watched ← watch notify (advance (record ctx { tx_buf = tx }) d.length)
    elim watched [ returned c ↦ hand_over again c | died ↦ some died ]

  -- A frame that is not complete is kept, and one with a wrong checksum is left out.
  unfoldable pub not_decoded : (Pppd Stream → Result) → Decoded → Pppd Stream → Result
  not_decoded again d ctx =
      let rx = ctx.rx_buf in
      let kept = (do c ← keep_rest ctx d.length; some (returned (okay, c))) in
      if is (d.status) overflow || rx.len == rx.off + d.length
      then kept
      else again (advance ctx d.length)

  -- A round of the loop.
  unfoldable pub frame_round : (Pppd Stream → Result) → Pppd Stream → Result
  unfolding forward not_decoded
  frame_round again ctx = do
    (status, tx) ← pkt_init ctx.tx_buf msg_data
    let begun = record ctx { tx_buf = tx }
    let body = (do
      (d, c) ← read_frame begun
      if is (d.status) okay then forward again d c else not_decoded again d c)
    if is status okay then body else some (returned (fail, begun))

  -- Each round that goes on takes a byte or more.
  unfoldable pub process_loop : ℕ → Pppd Stream → Result
  process_loop zero ctx = none
  process_loop (suc fuel) ctx =
      let rx = ctx.rx_buf in
      let again = λ (c : Pppd Stream). process_loop fuel c in
      if ltb rx.off rx.len then frame_round again ctx else some (returned (okay, start_over ctx))

  unfoldable pub process_data : Pppd Stream → Result
  unfolding process_loop
  process_data ctx =
      process_loop (suc ctx.rx_buf.len) (record ctx { tx_buf = buff_reset ctx.tx_buf })

  -- `ppp_send_complete`; its status is only logged.
  unfoldable pub send_complete : Pppd Stream → Option (Exit (Pppd Stream))
  unfolding process_data
  send_complete ctx = do
    result ← process_data ctx
    some (elim result [ returned (status, ctx) ↦ returned (completed status ctx) | died ↦ died ])

  -- `if (ctx->first)`; `notify` is called there without a test.
  unfoldable pub started : Pppd Stream → Option (Pppd Stream)
  started ctx =
      let told = record (tell notify ppp_start ctx) { first = false } in
      if ctx.first then (if ctx.has_notify then some told else none) else some ctx

  unfoldable pub pppd_recv : Pppd Stream → Input → Option (Exit (Pppd Stream))
  unfolding process_data started receive
  pppd_recv ctx input = do
    begun ← started (fired ctx)
    filled ← receive begun input
    let down = some (returned (tell notify ppp_down filled))
    let process = (do
      result ← process_data filled
      some (elim result [ returned (status, ctx) ↦ returned (resumed status ctx) | died ↦ died ]))
    if slt 0 filled.rx_buf.len then process else down
