-- ===== src/Stream/Sending.antt =====
-- `sstp_stream_send` of sstp/sstp-stream.c against what SSL_write promises, and the order of its
-- queue.
use sstp_client_i_os.Base.{
  ℕ, zero, suc, ◌+◌, ◌-◌, ◌<◌, ◌≤◌, ◌≡◌, refl, sym, ap, ◌∙◌, arith, ◌⊎◌, inl, inr,
}
use sstp_client_i_os.Base.{
  Option, none, some, List, [], ◌∷◌, ◌++◌, append_assoc, length, take, drop, ltb, if◌then◌else◌,
  ltb→lt, ltb→le, take-append-drop, take_all, length-take, length-drop, drop-drop,
}
use sstp_client_i_os.Base.{
  Status, okay, fail, inprog, Returns, Returns-some, Returns-value, if_each,
}
use sstp_client_i_os.Buff.{Buff}
use sstp_client_i_os.Stream.{Wait, ev_read, ev_write}
use sstp_client_i_os.Stream.Send.{
  Write, took, wants_read, wants_write, failed, Operation, Sender, unsent, operation_add_write,
  write_loop, stream_send, send_cont,
}

module _ {Ssl : Type 0} (sent : Ssl → List ℕ) where
  -- What SSL_write promises of an answer, with `sent` what the connection has taken so far: it takes
  -- one byte or more from the front of the text, or nothing.
  abbrev pub Documented : Ssl → List ℕ → Write × Ssl → Type 0
  Documented ssl text (took n, after) =
      (0 < n) × (n ≤ length text) × (sent after ≡ sent ssl ++ take n text)
  Documented ssl text (_, after) = sent after ≡ sent ssl

  -- How a call ends, with the queue before it and the bytes that were to be taken in the end: they
  -- are; or the call failed; or the rest is at the end of the queue.
  abbrev pub Ended : List Operation → List ℕ → Status × Sender Ssl → Type 0
  Ended queue whole (status, ctx) =
      ((status ≡ okay) × (ctx.send ≡ queue) × (sent ctx.ssl ≡ whole))
      ⊎ (((status ≡ fail) × (ctx.send ≡ queue))
          ⊎ ((status ≡ inprog)
              × ((rest : Operation) × (ctx.send ≡ queue ++ rest ∷ [])
                  × (sent ctx.ssl ++ unsent rest.buf ≡ whole))))

module _ {Ssl : Type 0} where
  pending_or_not :
      (pending : Option Wait) (event : Wait) (queued : Sender Ssl)
      → ((elim pending as (λ x. Sender Ssl) [
        | some e ↦ queued
        | none ↦ record queued { ev_send = some event }
      ]).send
          ≡ queued.send)
        × ((elim pending as (λ x. Sender Ssl) [
          | some e ↦ queued
          | none ↦ record queued { ev_send = some event }
        ]).ssl
            ≡ queued.ssl)
  pending_or_not (some e) event queued = (refl, refl)
  pending_or_not none event queued = (refl, refl)

  operation_add_write_lem :
      (ctx : Sender Ssl) (op : Operation) (event : Wait)
      → ((operation_add_write ctx op event).send ≡ ctx.send ++ op ∷ [])
        × ((operation_add_write ctx op event).ssl ≡ ctx.ssl)
  unfolding operation_add_write
  operation_add_write_lem ctx op event =
      pending_or_not ctx.ev_send event (record ctx { send = ctx.send ++ op ∷ [] })

module _ {Ssl : Type 0} (ssl_write : Ssl → List ℕ → Write × Ssl) (sent : Ssl → List ℕ)
    (documented : (ssl : Ssl) (text : List ℕ) → Documented sent ssl text (ssl_write ssl text)) where
  queued :
      (ctx : Sender Ssl) (op : Operation) (event : Wait) (whole : List ℕ)
      → sent ctx.ssl ++ unsent op.buf ≡ whole
      → Ended sent ctx.send whole (inprog, operation_add_write ctx op event)
  queued ctx op event whole e =
      let (queue, ssl) = operation_add_write_lem ctx op event in
      inr (inr (refl, (op, queue, ap (λ t. sent t ++ unsent op.buf) ssl ∙ e)))

  length-unsent :
      (buf : Buff) → buf.len ≤ length buf.bytes → length (unsent buf) ≡ buf.len - buf.off
  length-unsent buf h =
      omega (arith, length-drop buf.off (take buf.len buf.bytes), length-take buf.len buf.bytes, h)

  round_lem :
      (more : Sender Ssl → Operation → Option (Status × Sender Ssl)) (ctx : Sender Ssl)
      (op : Operation) (whole : List ℕ) (answer : Write × Ssl)
      → op.buf.len ≤ length op.buf.bytes
      → sent ctx.ssl ++ unsent op.buf ≡ whole
      → Documented sent ctx.ssl (unsent op.buf) answer
      → ((after : Ssl) (n : ℕ)
          → 0 < n
          → op.buf.off + n < op.buf.len
          → sent after ++ drop n (unsent op.buf) ≡ whole
          → Returns (Ended sent ctx.send whole) (
              more
                (record ctx { ssl = after })
                (record op { buf = record (op.buf) { off = op.buf.off + n } })))
      → Returns (Ended sent ctx.send whole) (elim (answer.0) [
        | took n ↦
            if ltb (op.buf.off + n) op.buf.len
            then more
                (record ctx { ssl = answer.1 })
                (record op { buf = record (op.buf) { off = op.buf.off + n } })
            else some (okay, record ctx { ssl = answer.1 })
        | wants_read ↦ some (inprog, operation_add_write (record ctx { ssl = answer.1 }) op ev_read)
        | wants_write ↦
            some (inprog, operation_add_write (record ctx { ssl = answer.1 }) op ev_write)
        | failed ↦ some (fail, record ctx { ssl = answer.1 })
      ])
  unfolding Returns
  round_lem more ctx op whole (took n, after) inside e (some_bytes, few, order) going =
      let text : List ℕ = unsent op.buf in
      let so_far : sent after ++ drop n text ≡ whole =
        ap (λ t. t ++ drop n text) order
        ∙ append_assoc (sent ctx.ssl) (take n text) (drop n text)
        ∙ ap (λ t. sent ctx.ssl ++ t) (take-append-drop n text)
        ∙ e in
      if_each (Returns (Ended sent ctx.send whole)) (ltb (op.buf.off + n) op.buf.len) _
        (some (okay, record ctx { ssl = after }))
        (λ left. going after n some_bytes (ltb→lt _ _ left) so_far)
        λ full.
          let all : take n text ≡ text =
            take_all text n (omega (arith, length-unsent op.buf inside, ltb→le _ _ full)) in
          Returns-some (Ended sent ctx.send whole) (okay, record ctx { ssl = after })
            (inl (refl, refl, order ∙ ap (λ t. sent ctx.ssl ++ t) all ∙ e))
  round_lem more ctx op whole (wants_read, after) inside e same going =
      queued (record ctx { ssl = after }) op ev_read whole (ap (λ t. t ++ unsent op.buf) same ∙ e)
  round_lem more ctx op whole (wants_write, after) inside e same going =
      queued (record ctx { ssl = after }) op ev_write whole (ap (λ t. t ++ unsent op.buf) same ∙ e)
  round_lem more ctx op whole (failed, after) inside e same going = inr (inl (refl, refl))

  by_event :
      (ctx : Sender Ssl) (op : Operation)
      → ctx.ev_send ≡ none
      → stream_send ssl_write ctx op ≡ write_loop ssl_write (suc op.buf.len) ctx op
  unfolding stream_send
  by_event ctx op free =
      ap
        (λ (t : Option Wait). elim t as (λ x. Option (Status × Sender Ssl)) [
          | some pending ↦ some (inprog, operation_add_write ctx op ev_write)
          | none ↦ write_loop ssl_write (suc op.buf.len) ctx op
        ])
        free

  write_loop_lem :
      (fuel : ℕ) (ctx : Sender Ssl) (op : Operation) (whole : List ℕ)
      → op.buf.off ≤ op.buf.len
      → op.buf.len ≤ length op.buf.bytes
      → sent ctx.ssl ++ unsent op.buf ≡ whole
      → op.buf.len < fuel + op.buf.off
      → Returns (Ended sent ctx.send whole) (write_loop ssl_write fuel ctx op)
  unfolding write_loop
  write_loop_lem zero ctx op whole below inside e enough = absurd (omega (arith, below, enough))
  write_loop_lem (suc fuel) ctx op whole below inside e enough =
      let text : List ℕ = unsent op.buf in
      round_lem (write_loop ssl_write fuel) ctx op whole (ssl_write ctx.ssl text) inside e
        (documented ctx.ssl text)
        λ after n some_bytes left so_far.
          let next : Operation = record op { buf = record (op.buf) { off = op.buf.off + n } } in
          let rest : unsent next.buf ≡ drop n text =
            sym (drop-drop n op.buf.off (take op.buf.len op.buf.bytes)) in
          write_loop_lem fuel (record ctx { ssl = after }) next whole (omega (arith, left)) inside
            (ap (λ t. sent after ++ t) rest ∙ so_far) (omega (arith, enough, some_bytes))

  -- With no event pending, `sstp_stream_send` ends; no byte of the buffer is lost, repeated or
  -- moved: it returns okay when the connection took all of them, and in progress when those that it
  -- did not take are what is left of an operation at the end of the queue. The queue is unchanged
  -- otherwise.
  pub stream_send_keeps :
      (ctx : Sender Ssl) (op : Operation)
      → ctx.ev_send ≡ none
      → op.buf.off ≤ op.buf.len
      → op.buf.len ≤ length op.buf.bytes
      → (status : Status) × (after : Sender Ssl) × (stream_send ssl_write ctx op
          ≡ some (status, after))
        × (((status ≡ okay)
              × (after.send ≡ ctx.send)
              × (sent after.ssl ≡ sent ctx.ssl ++ unsent op.buf))
            ⊎ (((status ≡ fail) × (after.send ≡ ctx.send))
                ⊎ ((status ≡ inprog)
                    × ((rest : Operation) × (after.send ≡ ctx.send ++ rest ∷ [])
                        × (sent after.ssl ++ unsent rest.buf ≡ sent ctx.ssl ++ unsent op.buf)))))
  unfolding stream_send
  stream_send_keeps ctx op free below inside =
      let whole : List ℕ = sent ctx.ssl ++ unsent op.buf in
      let ran =
        write_loop_lem (suc op.buf.len) ctx op whole below inside refl (omega (arith, below)) in
      let ((status, after), known, ended) =
        Returns-value (Ended sent ctx.send whole) (write_loop ssl_write (suc op.buf.len) ctx op)
          ran in
      (status, after, by_event ctx op free ∙ known, ended)

module _ {Ssl : Type 0} (ssl_write : Ssl → List ℕ → Write × Ssl) where
  refused :
      (fuel : ℕ) (ssl after : Ssl) (op : Operation) (rest : List Operation)
      → ssl_write ssl (unsent op.buf) ≡ (wants_write, after)
      → write_loop ssl_write (suc fuel) (record { ssl = ssl; send = rest; ev_send = none }) op
        ≡ some (inprog, record { ssl = after; send = rest ++ op ∷ []; ev_send = some ev_write })
  unfolding write_loop operation_add_write
  refused fuel ssl after op rest full =
      rw (write_loop, full)
        (ap
          (λ (t : Write × Ssl).
            some (inprog, record { ssl = t.1; send = rest ++ op ∷ []; ev_send = some ev_write }))
          full)

  -- When the connection does not take a packet that waited, `sstp_send_cont` puts it behind all the
  -- others that wait: the next attempt is made with another packet, before this one is through.
  pub send_cont_reorders :
      (complete : Sender Ssl → Operation → Status → Option (Sender Ssl)) (fuel : ℕ)
      (ssl after : Ssl)
      → (op : Operation) (rest : List Operation)
      → ssl_write ssl (unsent op.buf) ≡ (wants_write, after)
      → send_cont ssl_write complete
          (suc fuel)
          (record { ssl = ssl; send = op ∷ rest; ev_send = none })
        ≡ some (record { ssl = after; send = rest ++ op ∷ []; ev_send = some ev_write })
  unfolding send_cont stream_send
  send_cont_reorders complete fuel ssl after op rest full =
      rw (refused op.buf.len ssl after op rest full) refl
