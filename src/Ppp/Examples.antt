-- ===== src/Ppp/Examples.antt =====
-- sstp/ios-pppd.c at concrete inputs, with a stream that takes the first packet at once and the
-- others later, and with functions that only move bytes for the hashes and the ciphers.
use sstp_client_i_os.Base.{
  ℕ, suc, ◌≤◌, ◌≡◌, refl, arith, true, false, none, some, inl, inr, ◌⊎◌, List, [], ◌∷◌, ◌++◌, map,
  length, replicate, Status, okay, inprog, All,
}
use sstp_client_i_os.Buff.{Buff}
use sstp_client_i_os.Ppp.{World, Peer, Event, notified, ppp_up}
use sstp_client_i_os.Ppp.Requests.{ipcp_options}
use sstp_client_i_os.Ppp.Options.{option_loop}
use sstp_client_i_os.Ppp.Entry.{pppd_create, pppd_send}
use sstp_client_i_os.Ppp.Item.{packet_of, IsFrame}
use sstp_client_i_os.Ppp.Fifo.{Op, enqueue, complete, handed_of, frames_of, run, run-frames_of}
use sstp_client_i_os.Base.{◌+◌}
use sstp_client_i_os.Ppp.Drain.{run_delivers}
use sstp_client_i_os.Ppp.Safe.{ups}
use sstp_client_i_os.Ppp.Runs.{Call, login, receive, transmit, written, calls, calls-ups}
use sstp_client_i_os.Ppp.Address.{
  Opt, use_all, option_loop-written, option_loop-length, local_option-ipcp_options,
}
use sstp_client_i_os.Ppp.Address as Address
use sstp_client_i_os.Ppp.Open.{reject, acknowledge, pppd_send_unauthenticated}

abbrev pub first_only : List Event → Buff → Status
first_only [] item = okay
first_only (e ∷ es) item = inprog

abbrev pub world : World ℕ
world = record {
  send = first_only;
  memory = λ trace n. true;
  notify = λ trace event. none;
  rand = λ trace. replicate 16 7;
  set_key = length;
  rc4 = λ k text. (text, suc k);
  sha1 = λ text. replicate 20 1;
  md4 = λ text. replicate 16 2;
  odd_parity = λ key. key;
  des = λ key block. block;
}

abbrev new : Peer ℕ
new = pppd_create 0 true 0x01020304

abbrev ops : List Op
ops = enqueue (1 ∷ 2 ∷ []) ∷ enqueue (3 ∷ []) ∷ enqueue (4 ∷ []) ∷ complete ∷ []

ops_fit : All IsFrame (frames_of ops)
unfolding frames_of
ops_fit =
    ((omega arith, omega arith), ((omega arith, omega arith), ((omega arith, omega arith), tt)))

first_later :
    (trace : List Event) (item : Buff)
    → (first_only trace item ≡ okay) ⊎ (first_only trace item ≡ inprog)
first_later [] item = inl refl
first_later (e ∷ es) item = inr refl

run-frames_of_example :
    (q : Peer ℕ) × (run world ops new ≡ some q)
    × (handed_of q.trace ++ q.tx_queue
        ≡ (handed_of new.trace ++ new.tx_queue) ++ map packet_of (frames_of ops))
run-frames_of_example = run-frames_of world (λ trace n. refl) ops new ops_fit

run_delivers_example :
    (q : Peer ℕ) × (run world ops new ≡ some q)
    × ((q.tx_busy ≡ true)
        ⊎ (handed_of q.trace
            ≡ (handed_of new.trace ++ new.tx_queue) ++ map packet_of (frames_of ops)))
    × (after : Peer ℕ) × (run world (replicate (length q.tx_queue + 2) complete) q ≡ some after)
    × (after.tx_queue ≡ [])
    × (handed_of after.trace
        ≡ (handed_of new.trace ++ new.tx_queue) ++ map packet_of (frames_of ops))
unfolding pppd_create
run_delivers_example = run_delivers world first_later (λ trace n. refl) ops new 2 ops_fit refl

abbrev script : List Call
script =
    login (0x75 ∷ []) (0x70 ∷ [])
    ∷ receive (reject 1)
    ∷ receive (acknowledge 2 (ipcp_options 0x0a000001 0 0))
    ∷ transmit (0x45 ∷ [])
    ∷ written
    ∷ []

calls-ups_example :
    (q : Peer ℕ) × (calls world script new ≡ some q)
    × (ups q.trace ≤ 1)
    × ((ups q.trace ≡ 0) ⊎ ((q.ip_configured ≡ true) × (q.ccp_done ≡ true)))
calls-ups_example =
    calls-ups world 0 true 0x01020304 script (tt, (omega arith, (omega arith, (tt, (tt, tt)))))

-- The options are collected, the last one first.
abbrev collect : List ℕ → ℕ → List ℕ → List ℕ
collect seen type value = type ∷ (value ++ seen)

abbrev options : List Opt
options = record { type = 3; value = 10 ∷ 0 ∷ 0 ∷ 1 ∷ [] } ∷ record { type = 9; value = [] } ∷ []

written_short : length (Address.written options) ≤ 8
unfolding Address.written
written_short = omega arith

option_loop-written_example :
    option_loop collect 8 (Address.written options) [] ≡ use_all collect options []
option_loop-written_example =
    option_loop-written collect options 8 [] (omega arith, (omega arith, tt)) written_short

pppd_send_unauthenticated_example :
    (q : Peer ℕ) × (r : Peer ℕ) × (pppd_send world new (reject 1) ≡ some (okay, q))
    × (pppd_send world q (acknowledge 2 (ipcp_options 0x0a000001 8 9)) ≡ some (okay, r))
    × (r.trace ≡ notified ppp_up ∷ [])
    × (r.auth_done ≡ false)
    × (r.mppe.enabled ≡ false)
unfolding pppd_create
pppd_send_unauthenticated_example =
    pppd_send_unauthenticated world new refl refl refl refl refl 1 2 0x0a000001 8 9 (omega arith)
      (omega arith) (omega arith) (omega arith)

option_loop-length_example :
    option_loop collect 99 (9 ∷ 3 ∷ 7 ∷ 9 ∷ []) [] ≡ option_loop collect 4 (9 ∷ 3 ∷ 7 ∷ 9 ∷ []) []
option_loop-length_example = option_loop-length collect 99 (9 ∷ 3 ∷ 7 ∷ 9 ∷ []) [] (omega arith)
