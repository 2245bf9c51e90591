-- ===== src/State/Examples.antt =====
-- sstp/sstp-state.c at concrete inputs: a world in which every call succeeds, and one in which
-- every write is left pending.
use sstp_client_i_os.Base.{if◌then◌else◌}
use sstp_client_i_os.Base.{
  ◌≡◌, refl, arith, some, none, true, [], ◌∷◌, ◌++◌, ℕ, okay, timeout, Status, replicate, bit_or,
}
use sstp_client_i_os.Buff.{Buff}
use sstp_client_i_os.Buff.Laws.{contents}
use sstp_client_i_os.Cmac.{Cmac, cmk_seed, hash_sha256, cmac_result}
use sstp_client_i_os.Packet.{echo_reply}
use sstp_client_i_os.Packet.Format.{Holds, encode, encode_attrs, encode_attr}
use sstp_client_i_os.State.{
  Env, Ctx, sent, called, call_abort, call_connect, mode_client, st_established,
}
use sstp_client_i_os.State.Calls.{keyed, state_accept, hash_type}
use sstp_client_i_os.State.Handlers.{run, connect_ack}
use sstp_client_i_os.State.Sending.{IsReady, bare}
use sstp_client_i_os.State.Echo.{probes, silence, silence_aborts}
use sstp_client_i_os.State.Connect.{acknowledgement, connect_ack_accepts}
use sstp_client_i_os.State.Binding.{connected_message}
use sstp_client_i_os.State.Accept.{padded, announced, mac_of, state_accept_binds}

abbrev pub world : Status → Env
world status = record {
  send = λ trace buf. (status, buf.len);
  notify = λ trace state. okay;
  forward = λ trace bytes. okay;
  cert_hash = λ proto. (okay, replicate 32 9);
  memory = λ trace. true;
  hmac = λ sha256 key message. replicate (if sha256 then 32 else 20) 7;
  stale = λ trace i. none;
}

abbrev pub blank : ℕ → Buff
blank n = record { len = 0; max = n; off = 0; bytes = replicate n 0 }

abbrev pub client : Buff → ℕ → Ctx
client rx echo = record {
  state = 0;
  mode = mode_client;
  tx_buf = blank 128;
  rx_buf = rx;
  proto = 2;
  status = 0;
  echo = echo;
  nounce = replicate 32 5;
  mppe_send_key = replicate 32 1;
  mppe_recv_key = replicate 32 2;
  mppe_key_len = 16;
  trace = [];
}

abbrev pub idle : Ctx
idle = client (blank 16) 0

pub blank-IsReady : IsReady (blank 128)
blank-IsReady = record {
  valid = record { sized = refl; within = omega arith; int = omega arith };
  room = omega arith;
}

-- The context of the MAC, over SHA-256.
abbrev pub mac_ctx : Cmac
mac_ctx = record {
  send_key = replicate 32 0;
  recv_key = replicate 32 0;
  key_len = 0;
  seed = cmk_seed ++ 0 ∷ 0 ∷ 0 ∷ [];
  slen = 29;
  flag = hash_sha256;
}

state_accept_binds_example :
    (status : Status) × (packet : Buff) × (tx : Buff) × (state_accept (world okay) idle
      ≡ some (
        status,
        record idle {
          state = bit_or 0 st_established;
          tx_buf = tx;
          trace = announced status (sent (contents packet) ∷ []);
        },
      ))
    × (contents packet
        ≡ encode (
            connected_message
              (hash_type (world okay) 2)
              (replicate 32 5)
              (replicate 32 9)
              (padded (mac_of (world okay) idle mac_ctx (replicate 32 9)))))
    × (status ≡ okay)
    × IsReady tx
unfolding cmac_result keyed
state_accept_binds_example =
    state_accept_binds (world okay) idle mac_ctx (replicate 32 9) blank-IsReady refl refl refl refl
      refl (omega arith)

silence_aborts_example :
    (tx : Buff) × (run
        (world okay)
        (client (blank 16) 3)
        (silence (blank 16 ∷ blank 16 ∷ []) ++ (timeout, blank 16) ∷ [])
      ≡ some (record (client (blank 16) 3) {
        tx_buf = tx;
        rx_buf = blank 16;
        echo = 5;
        trace = called call_abort ∷ probes 2 [];
      }))
silence_aborts_example =
    silence_aborts (world okay) (blank 16 ∷ blank 16 ∷ []) (blank 16) (client (blank 16) 3)
      blank-IsReady (omega arith)

-- An echo reply as it comes in.
abbrev reply : Buff
reply = record {
  len = 8;
  max = 16;
  off = 0;
  bytes = (0x10 ∷ 1 ∷ 0 ∷ 8 ∷ 0 ∷ 9 ∷ 0 ∷ 0 ∷ []) ++ replicate 8 0;
}

reply-Holds : Holds reply (bare echo_reply)
unfolding encode encode_attrs
reply-Holds = record {
  valid = record { sized = refl; within = omega arith; int = omega arith };
  text = refl;
}

-- Acknowledgements with a crypto binding request of 36 bytes, and with one of 4.
abbrev ack : Buff
ack = record {
  len = 48;
  max = 48;
  off = 0;
  bytes =
      (0x10 ∷ 1 ∷ 0 ∷ 48 ∷ 0 ∷ 2 ∷ 0 ∷ 1 ∷ 0 ∷ 4 ∷ 0 ∷ 40 ∷ 0 ∷ 0 ∷ 0 ∷ 3 ∷ []) ++ replicate 32 6;
}

ack-Holds : Holds ack (acknowledgement (0 ∷ 0 ∷ 0 ∷ 3 ∷ replicate 32 6))
unfolding encode encode_attrs encode_attr
ack-Holds = record {
  valid = record { sized = refl; within = omega arith; int = omega arith };
  text = refl;
}

abbrev short_ack : Buff
short_ack = record {
  len = 16;
  max = 16;
  off = 0;
  bytes = 0x10 ∷ 1 ∷ 0 ∷ 16 ∷ 0 ∷ 2 ∷ 0 ∷ 1 ∷ 0 ∷ 4 ∷ 0 ∷ 8 ∷ 0 ∷ 0 ∷ 0 ∷ 3 ∷ [];
}

short_ack-Holds : Holds short_ack (acknowledgement (0 ∷ 0 ∷ 0 ∷ 3 ∷ []))
unfolding encode encode_attrs encode_attr
short_ack-Holds = record {
  valid = record { sized = refl; within = omega arith; int = omega arith };
  text = refl;
}

connect_ack_accepts_example :
    connect_ack (world okay) (client ack 0)
    ≡ some (
      okay,
      record (client ack 0) {
        rx_buf = record ack { off = 40 };
        proto = 3;
        nounce = replicate 32 6;
        trace = called call_connect ∷ [];
      },
    )
connect_ack_accepts_example =
    connect_ack_accepts (world okay) (client ack 0) 0 0 0 3 (replicate 32 6) refl ack-Holds
