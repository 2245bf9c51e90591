-- ===== src/Ios/Examples.antt =====
-- Sessions of sstp/sstp-ios.c at work.
use sstp_client_i_os.Base.{
  codes, zero, suc, ◌+◌, ◌≤◌, IsByte, ℕ, ◌≡◌, refl, arith, true, false, none, some, List, [], ◌∷◌,
  length, replicate, Status, okay, inprog, connected, if◌then◌else◌, All, ◌==◌,
}
use sstp_client_i_os.State.Examples as Machine
use sstp_client_i_os.Ppp.{Peer, ppp_start, ppp_up, ppp_auth, ppp_auth_fail}
use sstp_client_i_os.Ppp.Entry.{pppd_create}
use sstp_client_i_os.Ppp.Examples as Link
use sstp_client_i_os.Url.{Libc}
use sstp_client_i_os.Buff.{Buff}
use sstp_client_i_os.Buff.Laws.{contents}
use sstp_client_i_os.Cmac.{cmac_result}
use sstp_client_i_os.Packet.Format.{encode}
use sstp_client_i_os.State.Calls.{keyed, hash_type}
use sstp_client_i_os.State.Binding.{connected_message}
use sstp_client_i_os.State.Accept.{padded, mac_of}
use sstp_client_i_os.Ios.{Session, returned, session_create, tls_pinned, tls_system}
use sstp_client_i_os.Ios.Link.{Parts, pppd_cb}
use sstp_client_i_os.Ios.Pin.{verify_callback, print_hex}
use sstp_client_i_os.Ios.Trust.{Trust}
use sstp_client_i_os.Ios.Connect.{Answers, http_done, control}
use sstp_client_i_os.Ios.Inject.{inject, header}
use sstp_client_i_os.Ios.Queue.{Step, put, poll, run, queue, frames, run-queue}
use sstp_client_i_os.Ios.Race.{inject_between}
use sstp_client_i_os.Ios.Run.{Callback, tls_result, http_result, ppp_event}
use sstp_client_i_os.Ios.Keys.{send_key, recv_key, keyed_with, auth_keys}
use sstp_client_i_os.Ios.Ready.{outcome, bound, up_binds}
use sstp_client_i_os.Ios.Pinned.{bad_cert, http_done_pinned}
use sstp_client_i_os.Ios.Start.{Params, Resources, session_start_ex}
use sstp_client_i_os.Ios.Started.{Begins, session_start_ex-Begins}
use sstp_client_i_os.Ios.Lifetime.{IsReported, run_if_started, session-IsReported}

abbrev parts : Parts ℕ
parts = record {
  env = Machine.world okay;
  world = Link.world;
  pppd_memory = true;
  magic = 0x01020304;
  blank = 0;
}

-- A C library that knows no addresses, and reads every port as 443.
abbrev libc : Libc
libc = record {
  inet_pton_6 = λ text. false;
  inet_pton_4 = λ text. false;
  strtol = λ text. some 443;
}

abbrev resources : Resources
resources = record {
  libc = libc;
  ca_memory = true;
  url_memory = true;
  event_base = true;
  inject_pair = true;
  stop_pair = true;
  events = true;
  release = true;
  ssl_ctx = true;
  load_custom_ca = λ pem. true;
  lookup = λ host port. true;
  stream_create = okay;
  stream_connect = inprog;
}

abbrev params : ℕ → Params
params mode = record {
  server = some (codes "vpn");
  username = some (codes "me");
  password = some (codes "pw");
  server_host = [];
  server_port = [];
  tls_mode = mode;
  ca_pem = [];
  pin_sha256_hex = print_hex (replicate 32 0xab);
}

abbrev new : Session ℕ
new = session_create true true true true

-- The certificate 1 signs the leaf 0.
abbrev trust : Trust ℕ
trust = record {
  ssl = true;
  leaf = some 0;
  chain = some (some 0 ∷ none ∷ some 1 ∷ []);
  memory = true;
  der = λ cert. some (cert ∷ cert ∷ []);
  same = λ a b. a == b;
  evaluate = λ ders. none;
}

abbrev answers : Answers ℕ
answers = record {
  verify_result = 0;
  error_string = λ code. [];
  trust = trust;
  http_create = okay;
  http_handshake = inprog;
  verify_cert = okay;
  cert_hash = some (replicate 32 0xab);
  memory = true;
  memory_tx = true;
  memory_rx = true;
}

abbrev script : List (Callback ℕ ℕ)
script =
    tls_result answers connected
    ∷ http_result answers okay
    ∷ ppp_event ppp_start
    ∷ ppp_event ppp_auth_fail
    ∷ ppp_event ppp_up
    ∷ []

session-IsReported_example : IsReported (
    run_if_started parts script
      (session_start_ex resources (params tls_system) (session_create true true true true)))
session-IsReported_example =
    session-IsReported parts script resources (params tls_system) true true true

session_start_ex-Begins_example : Begins (session_start_ex resources (params tls_system) new)
unfolding session_create
session_start_ex-Begins_example =
    session_start_ex-Begins resources (params tls_system) new refl refl refl tt

abbrev peer : Peer ℕ
peer = pppd_create 0 true 0x01020304

-- A session in the loop, with a state machine and a peer.
abbrev joined : Session ℕ
joined = record new {
  escape_set = true;
  password = codes "pw";
  state = some Machine.idle;
  pppd = some peer;
}

auth_keys_example :
    pppd_cb parts ppp_auth joined
    ≡ returned okay (
        keyed_with parts joined Machine.idle peer
          (send_key parts joined Machine.idle peer)
          (recv_key parts joined Machine.idle peer))
unfolding pppd_create
auth_keys_example = auth_keys parts joined Machine.idle peer refl refl (omega arith) refl

up_binds_example :
    (status : Status) × (packet : Buff) × (tx : Buff) × (pppd_cb parts ppp_up joined
      ≡ outcome parts joined Machine.idle peer Machine.mac_ctx (replicate 32 9) status (
          bound parts joined Machine.idle peer Machine.mac_ctx
            (replicate 32 9)
            status
            tx
            (contents packet)))
    × (status ≡ okay)
    × (contents packet
        ≡ encode (
            connected_message
              (hash_type (Machine.world okay) 2)
              (replicate 32 5)
              (replicate 32 9)
              (padded (mac_of (Machine.world okay) Machine.idle Machine.mac_ctx (replicate 32 9)))))
unfolding cmac_result keyed
up_binds_example =
    up_binds parts joined Machine.idle peer Machine.mac_ctx (replicate 32 9) Machine.blank-IsReady
      refl refl refl refl refl (omega arith) refl refl refl

-- Two packets, of which one is empty, and a packet of three bytes.
abbrev steps : List Step
steps =
    put 4000 (0x45 ∷ 0x00 ∷ [])
    ∷ put 4000 []
    ∷ poll
    ∷ put 4000 (0x45 ∷ 0x01 ∷ 0x02 ∷ [])
    ∷ poll
    ∷ []

steps_delivered : queue steps [] [] ≡ ((0x45 ∷ 0x00 ∷ []) ∷ (0x45 ∷ 0x01 ∷ 0x02 ∷ []) ∷ [], [])
unfolding queue
steps_delivered = refl

run-queue_example :
    run steps [] (frames []) ≡ ((queue steps [] []).0, frames ((queue steps [] []).1))
run-queue_example =
    run-queue steps [] [] (omega arith, (omega arith, (tt, (omega arith, (tt, tt))))) tt

inject_between_example :
    (inject 6 (header 2) ≡ ([], []))
    × All (λ found. length found + 4 ≤ 2) ((inject 3 (0x45 ∷ 0x00 ∷ [])).0)
inject_between_example = inject_between (0x45 ∷ 0x00 ∷ []) 5 3 (omega arith, omega arith)

all_bytes : (n : ℕ) → All IsByte (replicate n 0xab)
all_bytes zero = tt
all_bytes (suc n) = (omega arith, all_bytes n)

abbrev pinned_session : Session ℕ
pinned_session = record joined { tls_mode = tls_pinned; pin = b'a' ∷ b'b' ∷ [] }

http_done_pinned_example : http_done answers parts okay pinned_session ≡ (
    if verify_callback pinned_session true 0 (some (some (replicate 32 0xab)))
    then control answers parts pinned_session
    else bad_cert answers parts (codes "Server certificate pin mismatch") pinned_session)
http_done_pinned_example =
    http_done_pinned answers parts pinned_session (replicate 32 0xab) (all_bytes 32) refl b'a'
      (b'b' ∷ []) true refl refl refl
