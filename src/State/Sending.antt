-- ===== src/State/Sending.antt =====
-- The packets that sstp/sstp-state.c hands to `sstp_stream_send`.
use sstp_client_i_os.Base.{ℕ, ◌+◌, ◌-◌, ◌≤◌, ◌≡◌, ◌≢◌, refl, ap, ◌∙◌}
use sstp_client_i_os.Base.{arith, [], ◌∷◌, length, some, le→leb, sub_zero}
use sstp_client_i_os.Base.{Status, okay, read_bytes}
use sstp_client_i_os.Buff.{Buff}
use sstp_client_i_os.Buff.Laws.{IsValid, contents}
use sstp_client_i_os.Packet.{msg_data}
use sstp_client_i_os.Packet.Format.{Message, Holds, encode}
use sstp_client_i_os.Packet.Begin.{pkt_init-Holds}
use sstp_client_i_os.State.{Env, Ctx, sent}
use sstp_client_i_os.State.Calls.{init_tx, stream_send}

-- The transmit buffer takes any packet that the machine sends.
pub record IsReady (buf : Buff) : Type 0 where
  pub valid : IsValid buf
  pub room : 128 ≤ buf.max

-- The packet without attributes of that type.
abbrev pub bare : ℕ → Message
bare type = record { type = type; attrs = [] }

pub read_all : (buf : Buff) → IsValid buf → read_bytes buf.bytes 0 buf.len ≡ some (contents buf)
read_all buf v = rw (le→leb (0 + buf.len) (length buf.bytes) (omega (arith, v.sized, v.within)))

module _ (env : Env) where
  -- `sstp_stream_send` sends what the buffer holds.
  pub stream_send_lem :
      (ctx : Ctx)
      → IsReady ctx.tx_buf
      → ctx.tx_buf.off ≡ 0
      → (status : Status) × (buf : Buff) × (stream_send env ctx
          ≡ some
              (status, record ctx { tx_buf = buf; trace = sent (contents ctx.tx_buf) ∷ ctx.trace }))
        × IsReady buf
        × (status ≡ (env.send ctx.trace ctx.tx_buf).0)
  unfolding stream_send
  stream_send_lem ctx r at =
      let (status, off) = env.send ctx.trace ctx.tx_buf in
      let whole = read_all ctx.tx_buf r.valid in
      let part : read_bytes ctx.tx_buf.bytes ctx.tx_buf.off (ctx.tx_buf.len - ctx.tx_buf.off)
          ≡ some (contents ctx.tx_buf) =
        ap (λ i. read_bytes ctx.tx_buf.bytes i (ctx.tx_buf.len - i)) at
        ∙ ap (read_bytes ctx.tx_buf.bytes 0) (sub_zero ctx.tx_buf.len)
        ∙ whole in
      (
        status,
        record (ctx.tx_buf) { off = off },
        rw part,
        record {
          valid = record { sized = r.valid.sized; within = r.valid.within; int = r.valid.int };
          room = r.room;
        },
        refl,
      )

  pub init_bare :
      (type : ℕ) (ctx : Ctx)
      → IsReady ctx.tx_buf
      → type ≢ msg_data
      → (begun : Buff) × (init_tx env type ctx ≡ some (okay, record ctx { tx_buf = begun }))
        × Holds begun (bare type)
        × (begun.max ≡ ctx.tx_buf.max)
        × (begun.off ≡ 0)
  unfolding init_tx
  init_bare type ctx r control =
      let (begun, made, holds, size, at) =
        pkt_init-Holds ctx.tx_buf type r.valid (omega (arith, r.room)) control in
      (begun, rw made, holds, size, at)

  -- A packet without attributes is begun in `tx_buf` and sent.
  pub send_bare :
      (type : ℕ) (ctx : Ctx)
      → IsReady ctx.tx_buf
      → type ≢ msg_data
      → (begun : Buff) × (status : Status) × (buf : Buff) × (init_tx env type ctx
          ≡ some (okay, record ctx { tx_buf = begun }))
        × (stream_send env (record ctx { tx_buf = begun })
            ≡ some (
              status,
              record ctx { tx_buf = buf; trace = sent (encode (bare type)) ∷ ctx.trace },
            ))
        × IsReady buf
  send_bare type ctx r control =
      let (begun, made, holds, size, at) = init_bare type ctx r control in
      let ready : IsReady begun = record {
        valid = holds.valid;
        room = omega (arith, r.room, size);
      } in
      let (status, buf, done, ready', same) =
        stream_send_lem (record ctx { tx_buf = begun }) ready at in
      (
        begun,
        status,
        buf,
        made,
        done
            ∙ ap (λ t. some (status, record ctx { tx_buf = buf; trace = sent t ∷ ctx.trace }))
                holds.text,
        ready',
      )
