-- ===== src/State/Accept.antt =====
-- The crypto binding of sstp/sstp-state.c: the packet that `sstp_state_accept` sends.
use sstp_client_i_os.Base.{◌-◌, ◌≤◌, append-replicate, length-replicate}
use sstp_client_i_os.Base.{ℕ, ◌≤◌, ◌≡◌, refl, sym, ap, ◌∙◌}
use sstp_client_i_os.Base.{arith, List, [], ◌∷◌, ◌++◌, length, length-append, some}
use sstp_client_i_os.Base.{Status, okay, true, ◌==◌}
use sstp_client_i_os.Base.{replicate, bit_or}
use sstp_client_i_os.Buff.{Buff}
use sstp_client_i_os.Buff.Laws.{contents}
use sstp_client_i_os.Cmac.{Cmac, cmac_init, cmac_result}
use sstp_client_i_os.Packet.{msg_connected, attr_crypto_bind}
use sstp_client_i_os.Packet.Format.{Holds, encode, encode_attrs}
use sstp_client_i_os.State.{
  Env, Ctx, Action, sent, called, call_abort, call_established, mode_client,
}
use sstp_client_i_os.State.{st_established}
use sstp_client_i_os.State.Calls.{keyed}
use sstp_client_i_os.State.Calls.{attr_tx, send_connect, state_accept, seal_and_send}
use sstp_client_i_os.State.Calls.{hash_type, bind_data, after_send}
use sstp_client_i_os.State.Sending.{IsReady, bare, init_bare, stream_send_lem, read_all}
use sstp_client_i_os.State.Connect.{attr_lem}
use sstp_client_i_os.State.Binding.{binding, connected_message, mac_written}

-- The trace behind `sstp_state_send_connect` once the packet is out.
abbrev pub announced : Status → List Action → List Action
announced okay trace = called call_established ∷ trace
announced _ trace = called call_abort ∷ trace

-- The compound MAC that a context calls for: over the packet with zeros in the place of the MAC.
abbrev pub mac_of : Env → Ctx → Cmac → List ℕ → List ℕ
mac_of env ctx cmac hash =
    cmac_result env.hmac (keyed env cmac ctx)
      (encode (connected_message (hash_type env ctx.proto) ctx.nounce hash (replicate 32 0)))

-- The MAC in its field of 32 bytes: behind one that is shorter the zeros stay.
abbrev pub padded : List ℕ → List ℕ
padded mac = mac ++ replicate (32 - length mac) 0

after_send_lem :
    (env : Env) (status : Status) (ctx : Ctx)
    → after_send env (status, ctx)
      ≡ some (
        status,
        record ctx { state = bit_or ctx.state st_established; trace = announced status ctx.trace },
      )
unfolding after_send
after_send_lem env okay ctx = refl
after_send_lem env _ ctx = refl

module _ (env : Env) (ctx : Ctx) (cmac : Cmac) (hash : List ℕ) where
  seal_lem :
      (buf : Buff)
      → length ctx.nounce ≡ 32
      → length hash ≡ 32
      → (cmac_init (env.memory ctx.trace) (hash_type env ctx.proto)).1 ≡ some cmac
      → length (mac_of env ctx cmac hash) ≤ 32
      → Holds buf (connected_message (hash_type env ctx.proto) ctx.nounce hash (replicate 32 0))
      → 128 ≤ buf.max
      → buf.off ≡ 0
      → (status : Status) × (packet : Buff) × (tx : Buff) × (seal_and_send env
            (record ctx { tx_buf = buf })
          ≡ some (
            status,
            record ctx {
              state = bit_or ctx.state st_established;
              tx_buf = tx;
              trace = announced status (sent (contents packet) ∷ ctx.trace);
            },
          ))
        × (contents packet
            ≡ encode (
                connected_message
                  (hash_type env ctx.proto)
                  ctx.nounce
                  hash
                  (padded (mac_of env ctx cmac hash))))
        × (status ≡ (env.send ctx.trace packet).0)
        × IsReady tx
  unfolding seal_and_send
  seal_lem buf size_n size_h made size_m h room at =
      let mac : List ℕ = mac_of env ctx cmac hash in
      let n : ℕ = length mac in
      let zeros : replicate n 0 ++ replicate (32 - n) 0 ≡ replicate 32 0 =
        append-replicate n (32 - n) 32 0 (omega (arith, size_m)) in
      let (bytes, written, sized, text) =
        mac_written (hash_type env ctx.proto) ctx.nounce hash size_n size_h buf (replicate n 0)
          (replicate (32 - n) 0) mac (rw zeros h) (ap length zeros) (sym (length-replicate n 0)) in
      let keys : keyed env cmac (record ctx { tx_buf = buf }) ≡ keyed env cmac ctx =
        unfold keyed in refl in
      let packet : Buff = record buf { bytes = bytes } in
      let ready : IsReady packet = record {
        valid = record { sized = sized; within = h.valid.within; int = h.valid.int };
        room = room;
      } in
      let (status, tx, done, ready', same) =
        stream_send_lem env (record ctx { tx_buf = packet }) ready at in
      let message = read_all buf h.valid ∙ ap some h.text in
      let end : Ctx = record ctx { tx_buf = tx; trace = sent (contents packet) ∷ ctx.trace } in
      (
        status,
        packet,
        tx,
        rw made (rw message (rw keys (rw written (rw done (after_send_lem env status end))))),
        text,
        same,
        ready',
      )

  -- `sstp_state_accept` of a client, with the hash of the certificate, a nonce of 32 bytes, memory
  -- for the context of the MAC, and a MAC of 32 bytes at most, sends one packet: the crypto binding,
  -- with the MAC over that packet with zeros in the MAC's place, and zeros behind a shorter MAC. The
  -- layer above is told that the call is established if the send is done, and to abort if it fails
  -- or is still pending; either way the context is marked as established.
  pub state_accept_binds :
      IsReady ctx.tx_buf
      → ctx.mode ≡ mode_client
      → env.cert_hash ctx.proto ≡ (okay, hash)
      → length ctx.nounce ≡ 32
      → length hash ≡ 32
      → (cmac_init (env.memory ctx.trace) (hash_type env ctx.proto)).1 ≡ some cmac
      → length (mac_of env ctx cmac hash) ≤ 32
      → (status : Status) × (packet : Buff) × (tx : Buff) × (state_accept env ctx
          ≡ some (
            status,
            record ctx {
              state = bit_or ctx.state st_established;
              tx_buf = tx;
              trace = announced status (sent (contents packet) ∷ ctx.trace);
            },
          ))
        × (contents packet
            ≡ encode (
                connected_message
                  (hash_type env ctx.proto)
                  ctx.nounce
                  hash
                  (padded (mac_of env ctx cmac hash))))
        × (status ≡ (env.send ctx.trace packet).0)
        × IsReady tx
  unfolding state_accept send_connect
  state_accept_binds r client cert size_n size_h memory size_m =
      let is_client : (ctx.mode == mode_client) ≡ true = ground arith in
      let (begun, made, holds, max, at) =
        init_bare env msg_connected ctx r (λ e. omega (arith, e)) in
      let data_ : List ℕ = binding (hash_type env ctx.proto) ctx.nounce hash (replicate 32 0) in
      let long : length data_ ≡ 100 = omega (
        arith,
        length-append ctx.nounce (hash ++ replicate 32 0),
        length-append hash (replicate 32 0),
        size_n,
        size_h,
      ) in
      let (full, added, holds', max', at') =
        attr_lem env (record ctx { tx_buf = begun }) (bare msg_connected) attr_crypto_bind data_
          holds (unfold encode_attrs in omega (arith, long, max, r.room)) (omega (arith, long))
          (omega arith) in
      let (status, packet, tx, sealed, text, same, ready) =
        seal_lem full size_n size_h memory size_m holds' (omega (arith, max, max', r.room))
          (at' ∙ at) in
      let status_ok : (env.cert_hash ctx.proto).0 ≡ okay = ap (λ (c : Status × List ℕ). c.0) cert in
      let added' : attr_tx env attr_crypto_bind (bind_data env ctx) (record ctx { tx_buf = begun })
          ≡ some (okay, record ctx { tx_buf = full }) =
        ap
          (λ (c : Status × List ℕ).
            attr_tx env attr_crypto_bind
              ((0 ∷ 0 ∷ 0 ∷ hash_type env ctx.proto ∷ [])
                ++ (ctx.nounce ++ (c.1 ++ replicate 32 0)))
              (record ctx { tx_buf = begun }))
          cert
        ∙ added in
      (
        status,
        packet,
        tx,
        rw is_client (rw (status_ok, send_connect) (rw made (rw added' sealed))),
        text,
        same,
        ready,
      )
