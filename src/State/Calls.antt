-- ===== src/State/Calls.antt =====
-- sstp/sstp-state.c: the packets that the state machine sends, and its entry points
-- `sstp_state_start` and `sstp_state_accept`.
use sstp_client_i_os.Base.{ℕ, ◌+◌, ◌-◌, ◌%◌, ◌^◌, bit_and, bit_or, some, List, [], ◌∷◌, ◌++◌}
use sstp_client_i_os.Base.{Status, okay, fail, notimpl, if◌then◌else◌, ◌==◌, ◌>>=◌, be16, replicate}
use sstp_client_i_os.Base.{read_bytes, write_bytes}
use sstp_client_i_os.Cmac.{
  Cmac, hash_sha1, hash_sha256, cmac_init, cmac_send_key, cmac_recv_key, cmac_result,
}
use sstp_client_i_os.Packet.{pkt_init, pkt_attr, msg_connect_req, msg_connected, msg_disconnect}
use sstp_client_i_os.Packet.{msg_disconnect_ack, echo_request, echo_reply, attr_encap_proto}
use sstp_client_i_os.Packet.{attr_crypto_bind}
use sstp_client_i_os.State.{Env, Ctx, sent, called, Step, then_if_okay}
use sstp_client_i_os.State.{call_abort, call_established, mode_client, st_established}

module _ (env : Env) where
  -- A call of `state_cb`, and its result.
  abbrev pub call_state : ℕ → Ctx → Step
  call_state transition ctx =
      some (env.notify ctx.trace transition, record ctx { trace = called transition ∷ ctx.trace })

  -- `sstp_stream_send` of `tx_buf`: the bytes from `off` on are sent.
  unfoldable pub stream_send : Ctx → Step
  stream_send ctx = do
    bytes ← read_bytes ctx.tx_buf.bytes ctx.tx_buf.off (ctx.tx_buf.len - ctx.tx_buf.off)
    let (status, off) = env.send ctx.trace ctx.tx_buf
    some (
      status,
      record ctx { tx_buf = record (ctx.tx_buf) { off = off }; trace = sent bytes ∷ ctx.trace },
    )

  unfoldable pub init_tx : ℕ → Ctx → Step
  init_tx type ctx = do
    (status, buf) ← pkt_init ctx.tx_buf type
    some (status, record ctx { tx_buf = buf })

  unfoldable pub attr_tx : ℕ → List ℕ → Ctx → Step
  attr_tx type payload ctx = do
    (status, buf) ← pkt_attr ctx.tx_buf type payload
    some (status, record ctx { tx_buf = buf })

  -- `sstp_state_echo_request`: the counter goes up whatever the result of the send.
  unfoldable pub send_echo_request : Ctx → Step
  unfolding init_tx stream_send
  send_echo_request ctx = then_if_okay (init_tx echo_request ctx) λ ctx. do
    (status, ctx) ← stream_send ctx
    some (status, record ctx { echo = (ctx.echo + 1) % 2 ^ 32 })

  unfoldable pub send_echo_reply : Ctx → Step
  unfolding init_tx stream_send
  send_echo_reply ctx = then_if_okay (init_tx echo_reply ctx) stream_send

  unfoldable pub send_disconnect : Ctx → Step
  unfolding init_tx stream_send
  send_disconnect ctx = then_if_okay (init_tx msg_disconnect ctx) stream_send

  unfoldable pub send_disconnect_ack : Ctx → Step
  unfolding init_tx stream_send
  send_disconnect_ack ctx = then_if_okay (init_tx msg_disconnect_ack ctx) stream_send

  -- `if (SSTP_OKAY != status) state_cb(SSTP_CALL_ABORT)`, the end of several functions.
  abbrev pub abort_unless_okay : Status × Ctx → Step
  abort_unless_okay (okay, ctx) = some (okay, ctx)
  abort_unless_okay (status, ctx) = call_state call_abort ctx >>= λ r. some (status, r.1)

  -- `sstp_state_send_complete`
  unfoldable pub send_complete : Ctx → Status → Step
  send_complete ctx status = abort_unless_okay (status, ctx)

  -- `sstp_state_send_request`. Until the send, `status` is SSTP_FAIL.
  unfoldable pub send_request : Ctx → Step
  unfolding init_tx attr_tx stream_send
  send_request ctx = do
    (ret, ctx) ← init_tx msg_connect_req ctx
    let body = (do
      (ret, ctx) ← attr_tx attr_encap_proto (be16 1) ctx
      let send = stream_send ctx >>= abort_unless_okay
      elim ret [ okay ↦ send | _ ↦ abort_unless_okay (fail, ctx) ])
    elim ret [ okay ↦ body | _ ↦ abort_unless_okay (fail, ctx) ]

  abbrev pub hash_type : ℕ → ℕ
  hash_type proto = if bit_and proto hash_sha256 == 0 then hash_sha1 else hash_sha256

  -- The array `data` of `sstp_state_send_connect` when the attribute is added.
  abbrev pub bind_data : Ctx → List ℕ
  bind_data ctx =
      (0 ∷ 0 ∷ 0 ∷ hash_type ctx.proto ∷ [])
      ++ (ctx.nounce ++ ((env.cert_hash ctx.proto).1 ++ replicate 32 0))

  -- What `sstp_state_send_connect` does with the result of the send.
  unfoldable pub after_send : Status × Ctx → Step
  after_send (status, ctx) =
      let established = record ctx { trace = called call_established ∷ ctx.trace } in
      let ctx' : Ctx = elim status [ okay ↦ established | _ ↦ ctx ] in
      abort_unless_okay (status, record ctx' { state = bit_or ctx'.state st_established })

  -- The context of the compound MAC with the keys of the call.
  unfoldable pub keyed : Cmac → Ctx → Cmac
  unfolding cmac_send_key cmac_recv_key
  keyed cmac ctx =
      cmac_recv_key (cmac_send_key cmac ctx.mppe_send_key ctx.mppe_key_len) ctx.mppe_recv_key
        ctx.mppe_key_len

  -- The end of `sstp_state_send_connect`, from the compound MAC on. The result of `sstp_cmac_init`
  -- is dropped: without memory the calls behind it go through NULL.
  unfoldable pub seal_and_send : Ctx → Step
  unfolding stream_send after_send cmac_result
  seal_and_send ctx = do
    cmac ← (cmac_init (env.memory ctx.trace) (hash_type ctx.proto)).1
    message ← read_bytes ctx.tx_buf.bytes 0 ctx.tx_buf.len
    bytes ← write_bytes ctx.tx_buf.bytes 80 (cmac_result env.hmac (keyed cmac ctx) message)
    stream_send (record ctx { tx_buf = record (ctx.tx_buf) { bytes = bytes } }) >>= after_send

  -- `sstp_state_send_connect`. Until the send, `status` is SSTP_FAIL.
  unfoldable pub send_connect : Ctx → Step
  unfolding init_tx attr_tx seal_and_send
  send_connect ctx = do
    let data_ = bind_data ctx
    let build = (do
      (ret, ctx) ← init_tx msg_connected ctx
      let add = (do
        (ret, ctx) ← attr_tx attr_crypto_bind data_ ctx
        elim ret [ okay ↦ seal_and_send ctx | _ ↦ abort_unless_okay (fail, ctx) ])
      elim ret [ okay ↦ add | _ ↦ abort_unless_okay (fail, ctx) ])
    elim ((env.cert_hash ctx.proto).0) [ okay ↦ build | _ ↦ abort_unless_okay (fail, ctx) ]

  unfoldable pub state_start : Ctx → Step
  unfolding send_request
  state_start ctx = if ctx.mode == mode_client then send_request ctx else some (notimpl, ctx)

  unfoldable pub state_accept : Ctx → Step
  unfolding send_connect
  state_accept ctx = if ctx.mode == mode_client then send_connect ctx else some (notimpl, ctx)
