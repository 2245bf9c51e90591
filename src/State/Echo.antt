-- ===== src/State/Echo.antt =====
-- The keep-alive of sstp/sstp-state.c: echo requests on time-outs, and when the call is given up.
use sstp_client_i_os.Base.{ℕ, zero, suc, ◌+◌, ◌%◌, ◌^◌, ◌≤◌, ◌<◌, ◌≡◌, refl, ap, ◌∙◌}
use sstp_client_i_os.Base.{arith, List, [], ◌∷◌, ◌++◌, length, map, some, true, false, slt, ◌>>=◌}
use sstp_client_i_os.Base.{Status, okay, timeout, Option-cases, inl, inr}
use sstp_client_i_os.Buff.{Buff, buff_reset}
use sstp_client_i_os.Packet.{echo_request, echo_reply}
use sstp_client_i_os.Packet.Format.{Holds, encode}
use sstp_client_i_os.Packet.Parse.{pkt_readers}
use sstp_client_i_os.State.{Env, Ctx, Action, sent, called, receive, call_abort}
use sstp_client_i_os.State.Calls.{send_echo_request}
use sstp_client_i_os.State.Handlers.{on_timeout, state_recv, run, handle_packet, handle_ctrl}
use sstp_client_i_os.State.Sending.{IsReady, bare, send_bare}

-- What a time-out adds to the trace while the counter is not used up.
abbrev pub probe : List Action → List Action
probe trace = receive ∷ sent (encode (bare echo_request)) ∷ trace

abbrev pub probes : ℕ → List Action → List Action
probes zero trace = trace
probes (suc n) trace = probes n (probe trace)

-- The time-outs of a peer that sends nothing, over any contents of the receive buffer.
abbrev pub silence : List Buff → List (Status × Buff)
silence = map (λ rx. (timeout, rx))

module _ (env : Env) where
  echo_request_sent :
      (ctx : Ctx)
      → IsReady ctx.tx_buf
      → (status : Status) × (buf : Buff) × (send_echo_request env ctx
          ≡ some (
            status,
            record ctx {
              tx_buf = buf;
              echo = (ctx.echo + 1) % 2 ^ 32;
              trace = sent (encode (bare echo_request)) ∷ ctx.trace;
            },
          ))
        × IsReady buf
  unfolding send_echo_request
  echo_request_sent ctx r =
      let (begun, status, buf, made, done, ready) =
        send_bare env echo_request ctx r (λ e. omega (arith, e)) in
      (status, buf, rw made (rw done), ready)

  -- One time-out while the counter is not used up.
  timeout_probe :
      (ctx : Ctx)
      → IsReady ctx.tx_buf
      → ctx.echo ≤ 4
      → (tx : Buff) × (rx : Buff) × (state_recv env ctx timeout
          ≡ some (record ctx {
            tx_buf = tx;
            rx_buf = rx;
            echo = ctx.echo + 1;
            trace = probe ctx.trace;
          }))
        × IsReady tx
  unfolding state_recv on_timeout
  timeout_probe ctx r few =
      let (status, tx, done, ready) = echo_request_sent ctx r in
      let go_on : slt 4 ctx.echo ≡ false = ground arith in
      let up : (ctx.echo + 1) % 2 ^ 32 ≡ ctx.echo + 1 = omega arith in
      (tx, buff_reset ctx.rx_buf, rw go_on (rw done (rw up)), ready)

  -- Each time-out in a silence sends one echo request and waits again, as long as the counter stays
  -- at four or below; the counter is the number of requests since it was last cleared.
  pub silence-probes :
      (rxs : List Buff) (ctx : Ctx)
      → IsReady ctx.tx_buf
      → ctx.echo + length rxs ≤ 5
      → (tx : Buff) × (rx : Buff) × (run env ctx (silence rxs)
          ≡ some (record ctx {
            tx_buf = tx;
            rx_buf = rx;
            echo = ctx.echo + length rxs;
            trace = probes (length rxs) ctx.trace;
          }))
        × IsReady tx
  unfolding run
  silence-probes [] ctx r few =
      (ctx.tx_buf, ctx.rx_buf, ap (λ n. some (record ctx { echo = n })) (omega arith), r)
  silence-probes (b ∷ rxs) ctx r few =
      let (tx, rx, step, ready) = timeout_probe (record ctx { rx_buf = b }) r (omega arith) in
      let next : Ctx = record ctx {
        tx_buf = tx;
        rx_buf = rx;
        echo = ctx.echo + 1;
        trace = probe ctx.trace;
      } in
      let (tx', rx', rest, ready') = silence-probes rxs next ready (omega arith) in
      let sum : ctx.echo + 1 + length rxs ≡ ctx.echo + suc (length rxs) = omega arith in
      (tx', rx', rw step (rest ∙ rw sum), ready')

  run-append :
      (ctx : Ctx) (xs ys : List (Status × Buff))
      → run env ctx (xs ++ ys) ≡ (run env ctx xs >>= λ ctx'. run env ctx' ys)
  unfolding run
  run-append ctx [] ys = refl
  run-append ctx ((status, rx) ∷ xs) ys =
      elim (Option-cases (state_recv env (record ctx { rx_buf = rx }) status)) [
        | inl fault ↦ rw fault
        | inr (ctx', step) ↦ rw step (run-append ctx' xs ys)
      ]

  -- The time-out that finds the counter above four ends the call: the layer above is told to abort,
  -- nothing is sent, and no further packet is waited for.
  timeout_gives_up :
      (ctx : Ctx)
      → 4 < ctx.echo
      → ctx.echo < 2 ^ 31
      → state_recv env ctx timeout ≡ some (record ctx { trace = called call_abort ∷ ctx.trace })
  unfolding state_recv on_timeout
  timeout_gives_up ctx many int = let over : slt 4 ctx.echo ≡ true = ground arith in rw over

  -- A peer that falls silent is asked until five requests are out, and the next time-out aborts the
  -- call: nothing else is sent, and the machine does not wait again.
  pub silence_aborts :
      (rxs : List Buff) (last : Buff) (ctx : Ctx)
      → IsReady ctx.tx_buf
      → ctx.echo + length rxs ≡ 5
      → (tx : Buff) × (run env ctx (silence rxs ++ (timeout, last) ∷ [])
          ≡ some (record ctx {
            tx_buf = tx;
            rx_buf = last;
            echo = 5;
            trace = called call_abort ∷ probes (length rxs) ctx.trace;
          }))
  unfolding run
  silence_aborts rxs last ctx r count =
      let (tx, rx, asked, ready) = silence-probes rxs ctx r (omega arith) in
      let done : Ctx = record ctx {
        tx_buf = tx;
        rx_buf = last;
        echo = ctx.echo + length rxs;
        trace = probes (length rxs) ctx.trace;
      } in
      (
        tx,
        run-append ctx (silence rxs) ((timeout, last) ∷ [])
            ∙ rw asked (rw (timeout_gives_up done (omega arith) (omega arith)) (rw count)),
      )

  -- An echo reply clears the counter and has no other effect on the call: the machine waits again.
  pub reply_clears :
      (ctx : Ctx)
      → Holds ctx.rx_buf (bare echo_reply)
      → ctx.rx_buf.max < 2 ^ 16
      → state_recv env ctx okay
        ≡ some
            (record ctx { rx_buf = buff_reset ctx.rx_buf; echo = 0; trace = receive ∷ ctx.trace })
  unfolding state_recv handle_packet handle_ctrl
  reply_clears ctx h fits = rw ((pkt_readers ctx.rx_buf (bare echo_reply) h (omega arith) fits).0)
