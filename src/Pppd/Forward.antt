-- ===== src/Pppd/Forward.antt =====
-- `ppp_process_data` of sstp/sstp-pppd.c cuts what pppd wrote into its packets and hands them to the
-- stream one by one, while the stream takes them.
use sstp_client_i_os.Base.{ℕ, zero, suc, ◌≤◌, ◌<◌, ◌≡◌, inl, inr, ◌≢◌, refl, ap, ◌∙◌, arith, false}
use sstp_client_i_os.Base.{
  true, some, Option, List, [], ◌∷◌, ◌++◌, length, All, Bool-cases, is, Status, okay, inprog, ltb,
}
use sstp_client_i_os.Buff.{Buff, buff_reset}
use sstp_client_i_os.Buff.Laws.{IsValid, contents}
use sstp_client_i_os.Packet.Data.{data_packet_of}
use sstp_client_i_os.Ppp.{Chap}
use sstp_client_i_os.Pppd.{Pppd, returned, record_sent}
use sstp_client_i_os.Pppd.Process.{start_over, hand_over, process_loop, process_data}
use sstp_client_i_os.Pppd.Pending.{Pending, Pending-next, HasRoom, IsPacket}
use sstp_client_i_os.Pppd.Frames.{taken, frame_round_lem}
use sstp_client_i_os.Pppd.Forwarded.{IsPlain, Answered, Forwarded, Forwarded-cons, Forwarded-tx_buf}
use sstp_client_i_os.Pppd.Ends.{length-le-lines, last_flag, nothing_left, Pending-more}

is_okay-eq : (s : Status) → is s okay ≡ true → s ≡ okay
is_okay-eq s e = ground arith

is_okay-no : (s : Status) → is s okay ≡ false → s ≢ okay
is_okay-no s e = ground arith

module _ {Stream : Type 0} (notify : Chap → ℕ → Stream → Stream)
    (stream_send : Stream → Buff → Option (Status × Stream)) where
  module _
      (answers : (s : Stream) (tx : Buff)
        → IsValid tx
        → tx.off ≡ 0
        → (r : Status × Stream) × (stream_send s tx ≡ some r)) where
    loop_forwards :
        (fuel : ℕ) (ctx : Pppd Stream) (k room : ℕ) (ps : List (List ℕ)) (stale : List ℕ)
        → length ps < fuel
        → k ≤ 1
        → Pending ctx.rx_buf k ps stale
        → All (IsPacket room) ps
        → IsPlain stale
        → HasRoom ctx.tx_buf room
        → ctx.auth_check ≡ false
        → (status : Status) × (after : Pppd Stream) × (process_loop notify stream_send fuel ctx
            ≡ some (returned (status, after)))
          × Forwarded stream_send room ps ctx status after
    unfolding process_loop hand_over Answered
    loop_forwards zero ctx k room ps stale enough few h fits plain space off = absurd (omega arith)
    loop_forwards (suc fuel) ctx zero room [] stale enough few h fits plain space off =
        let (empty, done) = nothing_left stream_send ctx room stale h space off in
        (okay, start_over ctx, rw empty refl, done)
    loop_forwards (suc fuel) ctx (suc zero) room [] stale enough few h fits plain space off =
        let again = process_loop notify stream_send fuel in
        let (after, ran, done) =
          last_flag notify stream_send again ctx room stale h plain space off in
        let more : ltb ctx.rx_buf.off ctx.rx_buf.len ≡ true = ground (arith, h.size) in
        (okay, after, rw more ran, done)
    loop_forwards (suc fuel) ctx (suc (suc k)) room [] stale enough few h fits plain space off =
        absurd (omega arith)
    loop_forwards (suc fuel) ctx k room (p ∷ ps) stale enough few h fits plain space off =
        let again = process_loop notify stream_send fuel in
        let (tx, text, ready, fresh, ran) =
          frame_round_lem notify stream_send again ctx k room p ps stale h fits.0 space off in
        let ((status, stream), answer) = answers ctx.stream tx ready.valid fresh in
        let sent : Pppd Stream = record (taken notify stream_send ctx k p tx) {
          stream = stream;
          handed = ctx.handed ++ contents tx ∷ [];
        } in
        let one : sent.handed ≡ ctx.handed ++ data_packet_of p ∷ [] =
          ap (λ t. ctx.handed ++ t ∷ []) text in
        let left = Pending-next ctx.rx_buf k p ps stale h in
        let more = Pending-more ctx.rx_buf k p ps stale h in
        elim (Bool-cases (is status okay)) [
          | inl took ↦
              let (status', after, later, done) =
                loop_forwards fuel (record_sent sent tx.len) 1 room ps stale (omega arith)
                  (omega arith) left fits.1 plain ready off in
              (
                status',
                after,
                rw more (ran ∙ rw answer (rw took later)),
                Forwarded-cons stream_send room p ps ctx (record_sent sent tx.len) tx status status'
                    after text answer (is_okay-eq status took) one refl done,
              )
          | inr waits ↦ (
            inprog,
            sent,
            rw more (ran ∙ rw answer (rw waits refl)),
            record {
              gone = p ∷ [];
              rest = ps;
              split = refl;
              handed = one;
              answered = (
                tx,
                text,
                status,
                stream,
                answer,
                inr (is_okay-no status waits, refl, refl, refl),
              );
              ended = inr (refl, λ e. cc);
              flags = 1;
              few = omega arith;
              stale = stale;
              left = left;
              plain = λ e. plain;
              space = ready;
              off = off;
              reads = refl;
            },
          )
        ]

    -- `ppp_process_data` of sstp/sstp-pppd.c hands the packets whose frames wait in the receive
    -- buffer to the stream, each as a data packet with the bytes of the frame's payload: all of them
    -- in their order when it returns okay, and then the stream answered each by okay; and the first
    -- of them, one at least, when it returns "in progress", and then the stream answered each of
    -- them but the last by okay and the last by something else; it ends with no other result. Each
    -- packet is given to the stream in the state that the packet before it left. The frames of the
    -- others, and nothing else, are then what waits. The payloads are of two bytes or more and fit the buffer, the byte
    -- behind what was read is neither a flag nor an escape, no authentication is watched for, and
    -- the stream answers.
    pub process_data_forwards :
        (ctx : Pppd Stream) (k room : ℕ) (ps : List (List ℕ)) (stale : List ℕ)
        → k ≤ 1
        → Pending ctx.rx_buf k ps stale
        → All (IsPacket room) ps
        → IsPlain stale
        → HasRoom ctx.tx_buf room
        → ctx.auth_check ≡ false
        → (status : Status) × (after : Pppd Stream) × (process_data notify stream_send ctx
            ≡ some (returned (status, after)))
          × Forwarded stream_send room ps ctx status after
    unfolding process_data buff_reset
    process_data_forwards ctx k room ps stale few h fits plain space off =
        let tx : Buff = ctx.tx_buf in
        let reset : Pppd Stream = record ctx { tx_buf = record tx { len = 0; off = 0 } } in
        let ready : HasRoom reset.tx_buf room = record {
          valid = record { sized = space.valid.sized; within = omega arith; int = space.valid.int };
          space = space.space;
        } in
        let enough : length ps < suc ctx.rx_buf.len = omega (arith, length-le-lines ps, h.size) in
        let (status, after, ran, done) =
          loop_forwards (suc ctx.rx_buf.len) reset k room ps stale enough few h fits plain ready
            off in
        (
          status,
          after,
          ran,
          Forwarded-tx_buf stream_send room ps ctx (buff_reset tx) status after done,
        )
