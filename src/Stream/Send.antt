-- ===== src/Stream/Send.antt =====
-- The send queue of sstp/sstp-stream.c. OpenSSL's SSL_write is a parameter: it is given the state of
-- the connection and the bytes. The cache of free operations has no counterpart.
use sstp_client_i_os.Base.{
  ℕ, zero, suc, ◌+◌, Option, none, some, List, [], ◌∷◌, ◌++◌, take, drop, ltb, if◌then◌else◌, ◌>>=◌,
}
use sstp_client_i_os.Base.{Status, okay, fail, inprog}
use sstp_client_i_os.Buff.{Buff}
use sstp_client_i_os.Stream.{Wait, ev_read, ev_write}

-- What SSL_write and SSL_get_error answer: the number of bytes taken, SSL_ERROR_WANT_READ,
-- SSL_ERROR_WANT_WRITE, or any other error.
pub data Write : Type 0 where
  took : ℕ → Write
  wants_read wants_write failed : Write

-- `sstp_operation_st`, with `owner` for the function `complete` and its argument
pub record Operation : Type 0 where
  pub buf : Buff
  pub owner : ℕ
  pub timeout : ℕ

-- The part of `sstp_stream_st` for sending: the connection, the list `send`, and the event that
-- `ev_send` waits for.
pub record Sender (Ssl : Type 0) : Type 0 where
  pub ssl : Ssl
  pub send : List Operation
  pub ev_send : Option Wait

-- The bytes from `off` to `len`.
abbrev pub unsent : Buff → List ℕ
unsent buf = drop buf.off (take buf.len buf.bytes)

abbrev pub operation_append : List Operation → Operation → List Operation
operation_append head item = head ++ item ∷ []

module _ {Ssl : Type 0} where
  -- `sstp_operation_add_write`; an event that is pending stays.
  unfoldable pub operation_add_write : Sender Ssl → Operation → Wait → Sender Ssl
  operation_add_write ctx op event =
      let queued = record ctx { send = operation_append ctx.send op } in
      elim (ctx.ev_send) [ some pending ↦ queued | none ↦ record queued { ev_send = some event } ]

module _ {Ssl : Type 0} (ssl_write : Ssl → List ℕ → Write × Ssl) where
  -- The loop of `sstp_stream_send`. Each round that goes on sends a byte or more.
  unfoldable pub write_loop : ℕ → Sender Ssl → Operation → Option (Status × Sender Ssl)
  unfolding operation_add_write
  write_loop zero ctx op = none
  write_loop (suc fuel) ctx op =
      let (answer, ssl) = ssl_write ctx.ssl (unsent op.buf) in
      let ctx = record ctx { ssl = ssl } in
      let further = λ (n : ℕ). record op { buf = record (op.buf) { off = op.buf.off + n } } in
      let more = λ (n : ℕ). write_loop fuel ctx (further n) in
      elim answer [
        | took n ↦ if ltb (op.buf.off + n) op.buf.len then more n else some (okay, ctx)
        | wants_read ↦ some (inprog, operation_add_write ctx op ev_read)
        | wants_write ↦ some (inprog, operation_add_write ctx op ev_write)
        | failed ↦ some (fail, ctx)
      ]

  -- `sstp_stream_send`; there are more rounds than bytes.
  unfoldable pub stream_send : Sender Ssl → Operation → Option (Status × Sender Ssl)
  unfolding write_loop
  stream_send ctx op = elim (ctx.ev_send) [
    | some pending ↦ some (inprog, operation_add_write ctx op ev_write)
    | none ↦ write_loop (suc op.buf.len) ctx op
  ]

  module _ (complete : Sender Ssl → Operation → Status → Option (Sender Ssl)) where
    -- `sstp_send_cont`, which the event loop calls when the event came; the fuel is the number of
    -- operations that it can get through. `complete` is what the callback does to the stream.
    unfoldable pub send_cont : ℕ → Sender Ssl → Option (Sender Ssl)
    unfolding stream_send
    send_cont zero ctx = some ctx
    send_cont (suc fuel) ctx =
        let retry = λ (op : Operation) (rest : List Operation). (do
          (status, ctx) ← stream_send (record ctx { send = rest }) op
          let next = complete ctx op status >>= send_cont fuel
          elim status [ inprog ↦ some ctx | _ ↦ next ]) in
        elim (ctx.send) [ [] ↦ some ctx | op ∷ rest ↦ retry op rest ]
