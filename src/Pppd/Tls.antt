-- ===== src/Pppd/Tls.antt =====
-- The stream of sstp/sstp-pppd.c is the sender of sstp/sstp-stream.c, whose queue is
-- Stream/Send.antt.
use sstp_client_i_os.Base.{
  ℕ, suc, ◌≡◌, refl, arith, some, none, List, Option, Option-cases, inl, inr, Status, inprog,
}
use sstp_client_i_os.Buff.{Buff}
use sstp_client_i_os.Buff.Laws.{IsValid}
use sstp_client_i_os.Stream.{Wait, ev_write}
use sstp_client_i_os.Stream.Send.{
  Write, Operation, Sender, stream_send, write_loop, operation_add_write,
}
use sstp_client_i_os.Stream.Sending.{Documented, stream_send_keeps}

-- The number that stands for `ppp_send_complete` and its argument.
abbrev pub pppd_owner : ℕ
pppd_owner = 1

module _ {Ssl : Type 0} (ssl_write : Ssl → List ℕ → Write × Ssl) where
  -- The call of `sstp_stream_send` in `ppp_process_data`.
  unfoldable pub send_packet : Sender Ssl → Buff → Option (Status × Sender Ssl)
  unfolding stream_send
  send_packet ctx tx =
      stream_send ssl_write ctx (record { buf = tx; owner = pppd_owner; timeout = 1 })

  waiting :
      (s : Sender Ssl) (op : Operation) (pending : Option Wait) (event : Wait)
      → pending ≡ some event
      → (elim pending as (λ x. Option (Status × Sender Ssl)) [
        | some e ↦ some (inprog, operation_add_write s op ev_write)
        | none ↦ write_loop ssl_write (suc op.buf.len) s op
      ])
        ≡ some (inprog, operation_add_write s op ev_write)
  waiting s op none event e = absurd (ground arith)
  waiting s op (some w) event e = refl

  behind_others :
      (s : Sender Ssl) (op : Operation) (event : Wait)
      → s.ev_send ≡ some event
      → stream_send ssl_write s op ≡ some (inprog, operation_add_write s op ev_write)
  unfolding stream_send
  behind_others s op event e = waiting s op (s.ev_send) event e

  -- It answers, as far as SSL_write does what it promises.
  pub send_packet-answers :
      (sent : Ssl → List ℕ)
      → ((ssl : Ssl) (text : List ℕ) → Documented sent ssl text (ssl_write ssl text))
      → (s : Sender Ssl) (tx : Buff) → IsValid tx
      → tx.off ≡ 0
      → (r : Status × Sender Ssl) × (send_packet s tx ≡ some r)
  unfolding send_packet
  send_packet-answers sent documented s tx v fresh =
      let op : Operation = record { buf = tx; owner = pppd_owner; timeout = 1 } in
      elim (Option-cases s.ev_send) [
        | inl free ↦
            let (status, after, known, ended) =
              stream_send_keeps ssl_write sent documented s op free (omega (arith, fresh))
                (omega (arith, v.within, v.sized)) in
            ((status, after), known)
        | inr (event, pending) ↦
            ((inprog, operation_add_write s op ev_write), behind_others s op event pending)
      ]
