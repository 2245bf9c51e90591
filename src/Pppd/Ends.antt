-- ===== src/Pppd/Ends.antt =====
-- How a run of the loop of `ppp_process_data` in sstp/sstp-pppd.c ends, and what is left then.
use sstp_client_i_os.Base.{ℕ, ◌+◌, ◌-◌, ◌≤◌, ◌≡◌, inl, refl, sym, ap, ◌∙◌, arith, false}
use sstp_client_i_os.Base.{
  true, some, Option, List, [], ◌∷◌, ◌++◌, append-nil, length, drop, length-drop, read_bytes,
  Status, okay, ltb, ◌==◌,
}
use sstp_client_i_os.Buff.{Buff, buff_reset}
use sstp_client_i_os.Packet.Data.{pkt_init-data}
use sstp_client_i_os.Base.{ap₂, overflow, le→leb, take, be16, write_bytes-behind}
use sstp_client_i_os.Packet.{proto_ver}
use sstp_client_i_os.Hdlc.{frame_decode}
use sstp_client_i_os.Hdlc.{hdlc_flag}
use sstp_client_i_os.Base.{length-append}
use sstp_client_i_os.Hdlc.Line.{framed, frame_decode-flag}
use sstp_client_i_os.Ppp.{Chap}
use sstp_client_i_os.Pppd.{Pppd, Exit, returned}
use sstp_client_i_os.Pppd.Process.{read_frame, keep_rest, start_over, not_decoded, frame_round}
use sstp_client_i_os.Pppd.Pending.{lines, Pending, HasRoom}
use sstp_client_i_os.Pppd.Forwarded.{IsPlain, Answered, Forwarded}

pub length-le-lines : (ps : List (List ℕ)) → length ps ≤ length (lines ps)
unfolding lines
length-le-lines [] = omega arith
length-le-lines (p ∷ ps) = omega (arith, length-append (framed p) (lines ps), length-le-lines ps)

pub Pending-more :
    (rx : Buff) (k : ℕ) (p : List ℕ) (ps : List (List ℕ)) (stale : List ℕ)
    → Pending rx k (p ∷ ps) stale
    → ltb rx.off rx.len ≡ true
unfolding lines
Pending-more rx k p ps stale h =
    let long = length-append (framed p) (lines ps) in ground (arith, h.size, long)

module _ {Stream : Type 0} (stream_send : Stream → Buff → Option (Status × Stream)) where
  -- With nothing left at all, the buffer is used from its start.
  pub nothing_left :
      (ctx : Pppd Stream) (room : ℕ) (stale : List ℕ)
      → Pending ctx.rx_buf 0 [] stale
      → HasRoom ctx.tx_buf room
      → ctx.auth_check ≡ false
      → (ltb ctx.rx_buf.off ctx.rx_buf.len ≡ false)
        × Forwarded stream_send room [] ctx okay (start_over ctx)
  unfolding start_over buff_reset lines Answered
  nothing_left ctx room stale h space off =
      let rx : Buff = ctx.rx_buf in
      let same : (rx.off == rx.len) ≡ true = ground (arith, h.size) in
      (
        ground (arith, h.size),
        rw same (record {
          gone = [];
          rest = [];
          split = refl;
          handed = sym (append-nil ctx.handed);
          answered = (refl, refl);
          ended = inl (refl, refl);
          flags = 0;
          few = omega arith;
          stale = rx.bytes;
          left = record { text = refl; size = omega arith };
          plain = λ e. cc;
          space = space;
          off = off;
          reads = refl;
        }),
      )

module _ {Stream : Type 0} (notify : Chap → ℕ → Stream → Stream)
    (stream_send : Stream → Buff → Option (Status × Stream)) where
  -- With nothing left but the closing flag of the last frame, that is kept for the next frame.
  pub last_flag :
      (again : Pppd Stream → Option (Exit (Status × Pppd Stream))) (ctx : Pppd Stream) (room : ℕ)
      (stale : List ℕ)
      → Pending ctx.rx_buf 1 [] stale
      → IsPlain stale
      → HasRoom ctx.tx_buf room
      → ctx.auth_check ≡ false
      → (after : Pppd Stream) × (frame_round notify stream_send again ctx
          ≡ some (returned (okay, after)))
        × Forwarded stream_send room [] ctx okay after
  unfolding frame_round not_decoded read_frame keep_rest lines Answered
  last_flag again ctx room [] h plain space off = elim plain [ ]
  last_flag again ctx room (b ∷ more) h plain space off =
      let rx : Buff = ctx.rx_buf in
      let tx : Buff = ctx.tx_buf in
      let one : rx.len - rx.off ≡ 1 = omega (arith, h.size) in
      let inside : rx.off + 1 ≤ length rx.bytes =
        omega (arith, ap length h.text, length-drop rx.off rx.bytes) in
      let begun = pkt_init-data tx space.valid (omega (arith, space.space)) in
      let size : ℕ = tx.max - 4 in
      let decoded : frame_decode (drop rx.off rx.bytes) (rx.len - rx.off) size
          ≡ some (record { status = overflow; length = 1; frame = b ∷ []; size = size }) =
        ap₂ (λ t n. frame_decode t n size) h.text one
        ∙ frame_decode-flag b more size plain.0 plain.1 (omega (arith, space.space)) in
      let room_left = length-drop 4 tx.bytes in
      let written =
        write_bytes-behind (proto_ver ∷ 0 ∷ be16 4) (drop 4 tx.bytes) (b ∷ []) 4 refl
          (omega (arith, room_left, space.space, space.valid.sized)) in
      let rest : read_bytes rx.bytes rx.off (rx.len - rx.off) ≡ some (hdlc_flag ∷ []) =
        ap (read_bytes rx.bytes rx.off) one
        ∙ rw (le→leb _ _ inside) (ap (λ t. some (take 1 t)) h.text) in
      let moved = write_bytes-behind [] rx.bytes (hdlc_flag ∷ []) 0 refl (omega (arith, inside)) in
      let mem : List ℕ = proto_ver ∷ 0 ∷ (be16 4 ++ (b ∷ drop 1 (drop 4 tx.bytes))) in
      let after : Pppd Stream = record ctx {
        rx_buf = record rx { len = 1; off = 0; bytes = hdlc_flag ∷ drop 1 rx.bytes };
        tx_buf = record tx { len = 4; off = 0; bytes = mem };
      } in
      (
        after,
        rw begun (rw decoded (rw written (rw rest (rw moved refl)))),
        record {
          gone = [];
          rest = [];
          split = refl;
          handed = sym (append-nil ctx.handed);
          answered = (refl, refl);
          ended = inl (refl, refl);
          flags = 1;
          few = omega arith;
          stale = drop 1 rx.bytes;
          left = record { text = refl; size = omega arith };
          plain = λ e. cc;
          space = record {
            valid = record {
              sized = omega (
                arith,
                room_left,
                length-drop 1 (drop 4 tx.bytes),
                space.space,
                space.valid.sized,
              );
              within = omega (arith, space.space);
              int = space.valid.int;
            };
            space = space.space;
          };
          off = off;
          reads = refl;
        },
      )
