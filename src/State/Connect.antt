-- ===== src/State/Connect.antt =====
-- The handshake of sstp/sstp-state.c: the connect request, and its acknowledgement.
use sstp_client_i_os.Base.{ℕ, ◌+◌, ◌^◌, ◌≤◌, ◌<◌, ◌≡◌, ◌≢◌, refl, sym, ap, ◌∙◌}
use sstp_client_i_os.Base.{arith, List, [], ◌∷◌, length, length-append, some, true, false}
use sstp_client_i_os.Base.{Status, okay, fail, be16, leb, le→leb, get_elem?, read_bytes, ◌==◌}
use sstp_client_i_os.Base.{take-append}
use sstp_client_i_os.Buff.{Buff}
use sstp_client_i_os.Buff.Laws.{contents}
use sstp_client_i_os.Packet.{
  msg_connect_req, msg_connect_ack, attr_encap_proto, attr_crypto_bind_req,
}
use sstp_client_i_os.Packet.Format.{Attr, Message, Holds, encode, with_attr, size_of, encode_attrs}
use sstp_client_i_os.Packet.Build.{pkt_attr-Holds}
use sstp_client_i_os.Packet.Parse.{pkt_parse-Holds, first_attr, first_array}
use sstp_client_i_os.State.{Env, Ctx, Action, sent, called, call_abort, call_connect, mode_client}
use sstp_client_i_os.State.Calls.{attr_tx, send_request, state_start, abort_unless_okay}
use sstp_client_i_os.State.Handlers.{local_attrs, connect_ack, parse_rx, store_request}
use sstp_client_i_os.State.Sending.{IsReady, bare, init_bare, stream_send_lem}

-- SSTP_MSG_CONNECT_REQ with the encapsulated protocol PPP.
abbrev pub request : Message
request = with_attr (bare msg_connect_req) attr_encap_proto (be16 1)

-- The trace behind a function that aborts unless its result is okay.
abbrev pub settled : Status → List Action → List Action
settled okay trace = trace
settled _ trace = called call_abort ∷ trace

module _ (env : Env) where
  pub attr_lem :
      (ctx : Ctx) (m : Message) (kind : ℕ) (payload : List ℕ)
      → Holds ctx.tx_buf m
      → (size_of m + length payload + 4 ≤ ctx.tx_buf.max)
      → length payload + 4 < 2 ^ 15
      → length m.attrs + 1 < 2 ^ 16
      → (buf : Buff) × (attr_tx env kind payload ctx ≡ some (okay, record ctx { tx_buf = buf }))
        × Holds buf (with_attr m kind payload)
        × (buf.max ≡ ctx.tx_buf.max)
        × (buf.off ≡ ctx.tx_buf.off)
  unfolding attr_tx
  attr_lem ctx m kind payload h room short many =
      let (buf, made, holds, max, off) =
        pkt_attr-Holds ctx.tx_buf m kind payload h (room, short, many) in
      (buf, rw made, holds, max, off)

  pub abort_settled :
      (status : Status) (ctx : Ctx)
      → abort_unless_okay env (status, ctx)
        ≡ some (status, record ctx { trace = settled status ctx.trace })
  abort_settled okay ctx = refl
  abort_settled _ ctx = refl

  -- `sstp_state_start` of a client sends one packet, the connect request, with the answer of
  -- `sstp_stream_send` for its result; on any other result than okay, a pending write included, it
  -- tells the layer above to abort.
  pub state_start_sends :
      (ctx : Ctx)
      → IsReady ctx.tx_buf
      → ctx.mode ≡ mode_client
      → (status : Status) × (packet : Buff) × (buf : Buff) × (state_start env ctx
          ≡ some (
            status,
            record ctx { tx_buf = buf; trace = settled status (sent (encode request) ∷ ctx.trace) },
          ))
        × (contents packet ≡ encode request)
        × (status ≡ (env.send ctx.trace packet).0)
        × IsReady buf
  unfolding state_start send_request
  state_start_sends ctx r client =
      let (begun, made, holds, max, at) =
        init_bare env msg_connect_req ctx r (λ e. omega (arith, e)) in
      let (packet, added, holds', max', at') =
        attr_lem (record ctx { tx_buf = begun }) (bare msg_connect_req) attr_encap_proto (be16 1)
          holds (unfold encode_attrs in omega (arith, max, r.room)) (omega arith) (omega arith) in
      let ready : IsReady packet = record {
        valid = holds'.valid;
        room = omega (arith, max, max', r.room);
      } in
      let (status, buf, done, ready', same) =
        stream_send_lem env (record ctx { tx_buf = packet }) ready (at' ∙ at) in
      let is_client : (ctx.mode == mode_client) ≡ true = ground arith in
      let end : Ctx = record ctx { tx_buf = buf; trace = sent (contents packet) ∷ ctx.trace } in
      (
        status,
        packet,
        buf,
        rw is_client (
            rw made (
              rw added (
                rw done (
                  abort_settled status end
                  ∙ ap
                      (λ t. some (
                        status,
                        record ctx { tx_buf = buf; trace = settled status (sent t ∷ ctx.trace) },
                      ))
                      holds'.text)))),
        holds'.text,
        same,
        ready',
      )

-- SSTP_MSG_CONNECT_ACK with one attribute, the crypto binding request.
abbrev pub acknowledgement : List ℕ → Message
acknowledgement payload = record {
  type = msg_connect_ack;
  attrs = record { type = attr_crypto_bind_req; payload = payload } ∷ [];
}

-- The context with `off` of the receive buffer moved by the parser.
abbrev parsed_to : Ctx → ℕ → Ctx
parsed_to ctx off = record ctx { rx_buf = record (ctx.rx_buf) { off = off } }

module _ (env : Env) (ctx : Ctx) where
  -- What `store_request` takes from a request of 36 bytes.
  stored :
      (a b c d : ℕ) (nounce : List ℕ)
      → length nounce ≡ 32
      → Holds ctx.rx_buf (acknowledgement (a ∷ b ∷ c ∷ d ∷ nounce))
      → (get_elem? ctx.rx_buf.bytes 15 ≡ some d) × (read_bytes ctx.rx_buf.bytes 16 32 ≡ some nounce)
  stored a b c d nounce size h =
      let request : Attr = record {
        type = attr_crypto_bind_req;
        payload = a ∷ b ∷ c ∷ d ∷ nounce;
      } in
      let (tail, same, len) = first_attr ctx.rx_buf msg_connect_ack request [] h in
      let bytes = ap (λ (b : Buff). b.bytes) same in
      let arr : List ℕ = first_array ctx.rx_buf msg_connect_ack 1 request tail in
      let inside : leb (16 + 32) (length arr) ≡ true =
        le→leb (16 + 32) (length arr) (omega (arith, length-append nounce tail)) in
      (
        ap (λ t. get_elem? t 15) bytes,
        ap (λ t. read_bytes t 16 32) bytes
            ∙ rw inside (ap some (take-append 32 nounce tail (sym size))),
      )

  -- An acknowledgement with a crypto binding request of 36 bytes is accepted: the hash protocols and
  -- the nonce are kept, and the layer above is told to connect, whose answer is the result.
  pub connect_ack_accepts :
      (a b c d : ℕ) (nounce : List ℕ)
      → length nounce ≡ 32
      → Holds ctx.rx_buf (acknowledgement (a ∷ b ∷ c ∷ d ∷ nounce))
      → connect_ack env ctx
        ≡ some (
          env.notify ctx.trace call_connect,
          record (parsed_to ctx 40) {
            proto = d;
            nounce = nounce;
            trace = called call_connect ∷ ctx.trace;
          },
        )
  unfolding connect_ack parse_rx store_request
  connect_ack_accepts a b c d nounce size h =
      let request : Attr = record {
        type = attr_crypto_bind_req;
        payload = a ∷ b ∷ c ∷ d ∷ nounce;
      } in
      let total : length (a ∷ b ∷ c ∷ d ∷ nounce) ≡ 36 = omega arith in
      let (parsed, size', payload_read) =
        pkt_parse-Holds ctx.rx_buf msg_connect_ack request (local_attrs env ctx) h (omega arith)
          (omega arith) (omega arith) in
      let end : length (a ∷ b ∷ c ∷ d ∷ nounce) + 4 ≡ 40 = omega arith in
      let (proto, text) = stored a b c d nounce size h in
      rw parsed (rw (size' ∙ ap some total) (rw proto (rw text (rw end))))

  -- Any other length of the crypto binding request is refused: nothing is kept, and the layer above
  -- is told to abort.
  pub connect_ack_rejects :
      (payload : List ℕ)
      → Holds ctx.rx_buf (acknowledgement payload)
      → 2 ≤ length payload
      → length payload + 4 < 2 ^ 15
      → length payload ≢ 36
      → connect_ack env ctx
        ≡ some (
          fail,
          record (parsed_to ctx (length payload + 4)) { trace = called call_abort ∷ ctx.trace },
        )
  unfolding connect_ack parse_rx
  connect_ack_rejects payload h two short other =
      let request : Attr = record { type = attr_crypto_bind_req; payload = payload } in
      let (parsed, size', payload_read) =
        pkt_parse-Holds ctx.rx_buf msg_connect_ack request (local_attrs env ctx) h (omega arith) two
          short in
      let wrong : (length payload == 36) ≡ false = ground arith in rw parsed (rw size' (rw wrong))
