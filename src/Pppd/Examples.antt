-- ===== src/Pppd/Examples.antt =====
-- sstp/sstp-pppd.c at concrete inputs.
use sstp_client_i_os.Base.{
  ℕ, zero, suc, ◌<◌, ◌≤◌, Bool, ◌≡◌, refl, arith, true, false, none, some, Option, List, [], ◌∷◌,
  ◌++◌, map, length, replicate, Status, okay, fail, inprog, codes, ◌==◌, if◌then◌else◌,
}
use sstp_client_i_os.Base.{take, write_bytes}
use sstp_client_i_os.Buff.{Buff, buff_reset, buff_space}
use sstp_client_i_os.Buff.Laws.{IsValid}
use sstp_client_i_os.Packet.{pkt_init, pkt_update}
use sstp_client_i_os.Packet.Data.{data_packet_of}
use sstp_client_i_os.Hdlc.{must_escape, frame_encode, frame_check, fcs_step, frame_decode, checksum}
use sstp_client_i_os.Hdlc.Line.{framed}
use sstp_client_i_os.Hdlc.Stuffing.{stuff, stuffed, before_last}
use sstp_client_i_os.Ppp.{Chap, ppp_start}
use sstp_client_i_os.Pppd.{Pppd, Exit, returned, died, chap_of, pppd_send, record_recv, tell, watch}
use sstp_client_i_os.Pppd.Process.{process_data, pppd_recv, got, frame_round, read_frame, keep_rest}
use sstp_client_i_os.Pppd.Pending.{lines, Pending, HasRoom}
use sstp_client_i_os.Pppd.Forwarded.{Forwarded}
use sstp_client_i_os.Pppd.Forward.{process_data_forwards}
use sstp_client_i_os.Stream.Send.{Write, took, wants_write, Sender}
use sstp_client_i_os.Stream.Sending.{Documented}
use sstp_client_i_os.Base.{ap, sym, take_all}
use sstp_client_i_os.Pppd.Tls.{send_packet, send_packet-answers}
use sstp_client_i_os.Pppd.Drain.{completions, completions_drain}
use sstp_client_i_os.Pppd.Down.{pppd_send_lem}
use sstp_client_i_os.Pppd.Watch.{response, array_of}
use sstp_client_i_os.Pppd.Launch.{
  Options, System, start, with_password, run_with, secret_file, closed, listening,
}

-- A stream that takes one packet, and then one only later.
abbrev alternating : ℕ → Buff → Option (Status × ℕ)
alternating zero tx = some (inprog, 1)
alternating (suc n) tx = some (okay, n)

abbrev alternating-answers :
    (s : ℕ) (tx : Buff) → IsValid tx → tx.off ≡ 0 → (r : Status × ℕ) × (alternating s tx ≡ some r)
alternating-answers zero tx v fresh = ((inprog, 1), refl)
alternating-answers (suc n) tx v fresh = ((okay, n), refl)

abbrev deaf : Chap → ℕ → ℕ → ℕ
deaf chap event stream = stream

abbrev tx : Buff
tx = record { len = 0; max = 96; off = 0; bytes = replicate 96 0 }

abbrev helper_of : {Stream : Type 0} → Stream → Buff → Buff → Pppd Stream
helper_of stream rx out = record {
  rx_buf = rx;
  tx_buf = out;
  stream = stream;
  reading = false;
  chap = chap_of [];
  has_notify = true;
  ip_up = false;
  auth_done = false;
  auth_check = false;
  del_file = false;
  t_end = 0;
  t_start = 0;
  sent_bytes = 0;
  recv_bytes = 0;
  first = true;
  told = [];
  handed = [];
  tty = [];
}

abbrev helper : Buff → Buff → Pppd ℕ
helper rx out = helper_of 1 rx out

-- Two packets, and their frames in the receive buffer.
abbrev two : List (List ℕ)
two = (0xc0 ∷ 0x21 ∷ 1 ∷ []) ∷ (0x80 ∷ 0x21 ∷ 0x7e ∷ []) ∷ []

abbrev waiting : Buff
waiting = record {
  len = length (lines two);
  max = 64;
  off = 0;
  bytes = lines two ++ replicate 30 0;
}

waiting-Pending : Pending waiting 0 two (replicate 30 0)
waiting-Pending = record { text = refl; size = omega arith }

tx-HasRoom : HasRoom tx 3
tx-HasRoom = record {
  valid = record { sized = refl; within = omega arith; int = omega arith };
  space = omega arith;
}

-- A connection that takes whatever it is given, and keeps it.
abbrev take_all_of : List ℕ → List ℕ → Write × List ℕ
take_all_of ssl [] = (wants_write, ssl)
take_all_of ssl (b ∷ bs) = (took (length (b ∷ bs)), ssl ++ b ∷ bs)

take_all_of-Documented :
    (ssl text : List ℕ) → Documented {Ssl = List ℕ} (λ s. s) ssl text (take_all_of ssl text)
take_all_of-Documented ssl [] = refl
take_all_of-Documented ssl (b ∷ bs) =
    (omega arith, omega arith, ap (λ t. ssl ++ b ∷ t) (sym (take_all bs (length bs) (omega arith))))

abbrev connection : Pppd (Sender (List ℕ))
connection = helper_of (record { ssl = []; send = []; ev_send = none }) waiting tx

process_data_forwards_example :
    (status : Status) × (after : Pppd (Sender (List ℕ))) × (process_data
        (λ chap event stream. stream)
        (send_packet take_all_of)
        connection
      ≡ some (returned (status, after)))
    × Forwarded (send_packet take_all_of) 3 two connection status after
process_data_forwards_example =
    process_data_forwards (λ chap event stream. stream) (send_packet take_all_of)
      (send_packet-answers take_all_of (λ s. s) take_all_of-Documented) connection 0 3 two
      (replicate 30 0) (omega arith) waiting-Pending (omega arith) (omega arith) tx-HasRoom refl

completions_drain_example :
    (after : Pppd ℕ) × (completions deaf alternating 3 (helper waiting tx) ≡ some (returned after))
    × (after.reading ≡ true)
    × (after.handed ≡ map data_packet_of two)
completions_drain_example =
    completions_drain deaf alternating alternating-answers 3 (helper waiting tx) 0 3 two
      (replicate 30 0) (omega arith) refl (omega arith) waiting-Pending (omega arith) (omega arith)
      tx-HasRoom refl

-- Three characters that are escaped are dropped, although their frame has just the 10 bytes of the
-- array.
same_size : length (framed (1 ∷ 2 ∷ 3 ∷ [])) ≡ 10
unfolding stuff stuffed must_escape frame_check fcs_step checksum
same_size = refl

pppd_send_lem_example :
    (length (stuff (before_last (1 ∷ 2 ∷ 3 ∷ []))) ≤ 6
      → pppd_send (helper waiting tx) (1 ∷ 2 ∷ 3 ∷ []) 9 ≡ (
        if 9 == length (framed (1 ∷ 2 ∷ 3 ∷ [])) then okay else fail,
        record (record_recv (helper waiting tx) 3) { tty = take 9 (framed (1 ∷ 2 ∷ 3 ∷ [])) },
      ))
    × (6 < length (stuff (before_last (1 ∷ 2 ∷ 3 ∷ [])))
        → pppd_send (helper waiting tx) (1 ∷ 2 ∷ 3 ∷ []) 9 ≡ (fail, helper waiting tx))
pppd_send_lem_example = pppd_send_lem (helper waiting tx) (1 ∷ 2 ∷ 3 ∷ []) 9

dropped : pppd_send (helper waiting tx) (1 ∷ 2 ∷ 3 ∷ []) 9 ≡ (fail, helper waiting tx)
unfolding pppd_send frame_encode frame_check fcs_step
dropped = refl

-- A response in a packet that was made of a frame of pppd.
abbrev login : Buff
login = record {
  len = 64;
  max = 64;
  off = 0;
  bytes = array_of true 0 64 (response 7 0 54 (replicate 49 5) (0x61 ∷ 0x62 ∷ []));
}

abbrev watching : Pppd ℕ
watching = record (helper waiting login) { auth_check = true }

abbrev request : Buff
request = record {
  len = 8;
  max = 8;
  off = 0;
  bytes = array_of false 0 8 (0x80 ∷ 0x21 ∷ 1 ∷ 1 ∷ []);
}

abbrev logged_in : Pppd ℕ
logged_in = record (helper waiting request) { auth_check = true; auth_done = true }

abbrev options : Options
options = record {
  nolaunch = false;
  noplugin = false;
  user = some (codes "joe");
  password = some (codes "secret");
  pppdargv = codes "noauth" ∷ [];
}

abbrev system : System
system = record {
  task_new = okay;
  ttydev = codes "/dev/pts/3";
  mkstemp = some (codes "/tmp/sstp-pppd.x");
  write = length;
  task_start = λ args. okay;
  time = 1000;
}

abbrev command_line : List (List ℕ)
command_line =
    codes "/usr/sbin/pppd"
    ∷ codes "/dev/pts/3"
    ∷ codes "38400"
    ∷ codes "user"
    ∷ codes "joe"
    ∷ codes "file"
    ∷ codes "/tmp/sstp-pppd.x"
    ∷ codes "plugin"
    ∷ codes "sstp-pppd-plugin.so"
    ∷ codes "sstp-sock"
    ∷ codes "/tmp/sock"
    ∷ codes "noauth"
    ∷ []

-- pppd is run and watched, whether the file has the whole password or a part of it.
with_file :
    start options system (codes "/tmp/sock") (helper waiting tx)
    ≡ some (
      inprog,
      listening system (record (helper waiting tx) { auth_check = true; del_file = true }),
      record { file = some (codes "password \"secret\"\n"); args = some command_line },
    )
unfolding start with_password run_with secret_file closed
with_file = refl

abbrev full_disk : System
full_disk = record system { write = λ text. 3 }

with_part :
    start options full_disk (codes "/tmp/sock") (helper waiting tx)
    ≡ some (
      inprog,
      listening full_disk (record (helper waiting tx) { auth_check = true; del_file = true }),
      record { file = some (codes "pas"); args = some command_line },
    )
unfolding start with_password run_with secret_file closed
with_part = refl

-- Is pppd read, what the owner was told, and what was handed over?
abbrev shown : Option (Exit (Pppd ℕ)) → Option (Bool × List ℕ × List (List ℕ))
shown none = none
shown (some died) = none
shown (some (returned c)) = some (c.reading, c.told, c.handed)

-- The two frames are read at once, and the stream takes the first of them.
two_frames :
    shown (pppd_recv deaf alternating (helper tx tx) (got (lines two)))
    ≡ some (false, ppp_start ∷ [], map data_packet_of two)
unfolding pppd_recv lines stuff stuffed must_escape frame_decode frame_check fcs_step frame_round
    read_frame tell watch pkt_init pkt_update buff_reset buff_space write_bytes checksum
two_frames = refl

-- When pppd is gone, but a part of a frame waits, `read` answers nothing, and it is read on and on.
end_of_file :
    shown (
      pppd_recv deaf alternating
        (record (helper (record tx { len = 2; bytes = 0x7e ∷ 0xff ∷ replicate 94 0 }) tx) {
          first = false;
        })
        (got []))
    ≡ some (true, [], [])
unfolding pppd_recv frame_decode frame_round read_frame keep_rest pkt_init buff_reset buff_space
    write_bytes
end_of_file = refl
