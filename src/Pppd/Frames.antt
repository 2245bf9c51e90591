-- ===== src/Pppd/Frames.antt =====
-- What a round of the loop of `ppp_process_data` in sstp/sstp-pppd.c does with the first frame that
-- waits.
use sstp_client_i_os.Base.{ℕ, ◌+◌, ◌-◌, ◌≡◌, refl, sym, ap, ◌∙◌, arith, false, some, List}
use sstp_client_i_os.Base.{
  ◌∷◌, ◌++◌, length, length-append, drop, okay, Status, Option, length-drop,
}
use sstp_client_i_os.Buff.{Buff}
use sstp_client_i_os.Buff.Laws.{contents}
use sstp_client_i_os.Packet.{pkt_update}
use sstp_client_i_os.Packet.Data.{
  data_packet_of, data_begun, data_filled, pkt_init-data, write_bytes-data, pkt_update-data,
}
use sstp_client_i_os.Hdlc.{checksum}
use sstp_client_i_os.Hdlc.Stuffing.{length-checksum}
use sstp_client_i_os.Ppp.{Chap}
use sstp_client_i_os.Pppd.{Pppd, Exit, returned, watch}
use sstp_client_i_os.Pppd.Process.{read_frame, advance, hand_over, forward, frame_round}
use sstp_client_i_os.Pppd.Pending.{Pending, HasRoom, IsPacket, behind_frame, decode-Pending}

module _ {Stream : Type 0} where
  -- The frame stands in the packet that was begun, and its length was added.
  abbrev filled : Pppd Stream → List ℕ → Pppd Stream
  filled ctx p = record ctx {
    tx_buf = record (ctx.tx_buf) {
      len = 4;
      off = 0;
      bytes = data_filled ctx.tx_buf.bytes p (checksum p);
    };
  }

  pub read_frame_lem :
      (ctx : Pppd Stream) (k room : ℕ) (p : List ℕ) (ps : List (List ℕ)) (stale : List ℕ)
      → Pending ctx.rx_buf k (p ∷ ps) stale
      → IsPacket room p
      → HasRoom ctx.tx_buf room
      → read_frame (record ctx {
        tx_buf = record (ctx.tx_buf) { len = 4; off = 0; bytes = data_begun ctx.tx_buf.bytes };
      })
        ≡ some (
          record {
            status = okay;
            length = behind_frame k p;
            frame = p ++ checksum p;
            size = length p;
          },
          filled ctx p,
        )
  unfolding read_frame
  read_frame_lem ctx k room p ps stale h fits space =
      let tx : Buff = ctx.tx_buf in
      let decoded =
        decode-Pending ctx.rx_buf k room p ps stale h fits (tx.max - 4) (omega (arith, space.space))
          (omega (arith, space.valid.int)) in
      let written = write_bytes-data tx.bytes p (checksum p) (
        omega (
          arith,
          length-append p (checksum p),
          length-checksum p,
          fits.2,
          space.space,
          space.valid.sized,
        )) in
      rw decoded (rw written refl)

  -- The packet that is handed to the stream.
  pub packet :
      (ctx : Pppd Stream) (room : ℕ) (p : List ℕ)
      → IsPacket room p
      → HasRoom ctx.tx_buf room
      → (tx : Buff) × (pkt_update (record ((filled ctx p).tx_buf) { len = 4 + length p }) ≡ some tx)
        × (contents tx ≡ data_packet_of p)
        × HasRoom tx room
        × (tx.off ≡ 0)
  packet ctx room p fits space =
      let before : Buff = record ((filled ctx p).tx_buf) { len = 4 + length p } in
      let (tx, updated, text, same, size) =
        pkt_update-data before ctx.tx_buf.bytes p (checksum p) refl refl in
      let body : List ℕ = p ++ checksum p in
      let rest : List ℕ = drop (length body) (drop 4 ctx.tx_buf.bytes) in
      let sizes = length-append p (checksum p) in
      let long : length before.bytes ≡ length ctx.tx_buf.bytes = omega (
        arith,
        length-append body rest,
        length-drop (length body) (drop 4 ctx.tx_buf.bytes),
        length-drop 4 ctx.tx_buf.bytes,
        sizes,
        length-checksum p,
        fits.2,
        space.space,
        space.valid.sized,
      ) in
      let len = ap (λ (b : Buff). b.len) same in
      let max = ap (λ (b : Buff). b.max) same in
      (
        tx,
        updated,
        text,
        record {
          valid = record {
            sized = size ∙ long ∙ space.valid.sized ∙ sym max;
            within = omega (arith, len, max, fits.2, space.space);
            int = omega (arith, max, space.valid.int);
          };
          space = omega (arith, max, space.space);
        },
        ap (λ (b : Buff). b.off) same,
      )

  pub watch_off :
      (notify : Chap → ℕ → Stream → Stream) (ctx : Pppd Stream)
      → ctx.auth_check ≡ false
      → watch notify ctx ≡ some (returned ctx)
  unfolding watch
  watch_off notify ctx e = ground (arith, e)

module _ {Stream : Type 0} (notify : Chap → ℕ → Stream → Stream)
    (stream_send : Stream → Buff → Option (Status × Stream)) where
  -- The context with the packet of `p` made, and its frame taken from the receive buffer.
  abbrev pub taken : Pppd Stream → ℕ → List ℕ → Buff → Pppd Stream
  taken ctx k p tx = advance (record ctx { tx_buf = tx }) (behind_frame k p)

  -- A round of the loop makes a data packet of the first frame, and hands it over.
  pub frame_round_lem :
      (again : Pppd Stream → Option (Exit (Status × Pppd Stream))) (ctx : Pppd Stream) (k room : ℕ)
      (p : List ℕ) (ps : List (List ℕ)) (stale : List ℕ)
      → Pending ctx.rx_buf k (p ∷ ps) stale
      → IsPacket room p
      → HasRoom ctx.tx_buf room
      → ctx.auth_check ≡ false
      → (tx : Buff) × (contents tx ≡ data_packet_of p)
        × HasRoom tx room
        × (tx.off ≡ 0)
        × (frame_round notify stream_send again ctx
            ≡ hand_over notify stream_send again (taken ctx k p tx))
  unfolding frame_round forward
  frame_round_lem again ctx k room p ps stale h fits space off =
      let begun = pkt_init-data ctx.tx_buf space.valid (omega (arith, space.space)) in
      let read = read_frame_lem ctx k room p ps stale h fits space in
      let (tx, updated, text, ready, fresh) = packet ctx room p fits space in
      (
        tx,
        text,
        ready,
        fresh,
        rw begun (rw read (rw updated (rw (watch_off notify (taken ctx k p tx) off) refl))),
      )
