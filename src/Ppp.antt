-- ===== src/Ppp.antt =====
-- sstp/ios-pppd.c: the PPP peer that runs inside of the tunnel. The structure, what the peer asks of
-- the parts around it, and the queue of packets for the stream.
pub mod Requests
pub mod Options
pub mod Handlers
pub mod Entry
pub mod Item
pub mod Fifo
pub mod Drain
pub mod Safe
pub mod LinkUp
pub mod Lengths
pub mod Handled
pub mod Dispatch
pub mod Runs
pub mod Address
pub mod Open
pub mod Examples
use sstp_client_i_os.Base.{
  ℕ, ◌+◌, ◌-◌, ◌%◌, ◌^◌, Bool, true, false, Option, none, some, List, [], ◌∷◌, ◌++◌,
}
use sstp_client_i_os.Base.{
  Status, okay, fail, inprog, length, if◌then◌else◌, ◌==◌, ◌>>=◌, write_bytes,
}
use sstp_client_i_os.Buff.{Buff, buff_create}
use sstp_client_i_os.Packet.{pkt_init, pkt_update, msg_data}
use sstp_client_i_os.Mppe.{Mppe, ppp_frame}

-- `sstp_pppd_event_t`
abbrev pub ppp_down : ℕ
ppp_down = 1

abbrev pub ppp_up : ℕ
ppp_up = 2

abbrev pub ppp_auth : ℕ
ppp_auth = 3

abbrev pub ppp_start : ℕ
ppp_start = 4

abbrev pub ppp_auth_fail : ℕ
ppp_auth_fail = 5

-- What the peer does to the parts around it.
pub data Event : Type 0 where
  -- a buffer handed to `sstp_stream_send`
  handed : Buff → Event
  -- a call of `notify`
  notified : ℕ → Event
  -- an IP packet handed to `ip_handler`
  delivered : List ℕ → Event

-- The parts around the peer. An answer may depend on what was done before, the latest first.
pub record World (Rc4 : Type 0) : Type 0 where
  -- `sstp_stream_send`
  pub send : List Event → Buff → Status
  -- the first or the second `calloc` of a packet
  pub memory : List Event → ℕ → Bool
  -- `notify`: the send and receive keys it gives to `sstp_pppd_set_mppe_keys`, if it calls that
  pub notify : List Event → ℕ → Option (List ℕ × List ℕ)
  -- the 16 bytes of `RAND_bytes`
  pub rand : List Event → List ℕ
  -- RC4, the hashes, and DES of the OpenSSL library
  pub set_key : List ℕ → Rc4
  pub rc4 : Rc4 → List ℕ → List ℕ × Rc4
  pub sha1 : List ℕ → List ℕ
  pub md4 : List ℕ → List ℕ
  pub odd_parity : List ℕ → List ℕ
  pub des : List ℕ → List ℕ → List ℕ

-- `sstp_chap_st`
pub record Chap : Type 0 where
  pub challenge : List ℕ
  pub response : List ℕ
  pub nt_response : List ℕ
  pub flags : ℕ

-- `struct sstp_pppd`, with `tx_head` and what hangs on it as a list, and the events so far.
pub record Peer (Rc4 : Type 0) : Type 0 where
  pub chap : Chap
  pub has_notify : Bool
  pub username : List ℕ
  pub password : List ℕ
  pub lcp_id : ℕ
  pub chap_id : ℕ
  pub ipcp_id : ℕ
  pub ccp_id : ℕ
  pub magic : ℕ
  pub lcp_opened : Bool
  pub auth_done : Bool
  pub ip_configured : Bool
  pub ccp_done : Bool
  pub up_notified : Bool
  pub tx_busy : Bool
  pub local_ip : ℕ
  pub peer_ip : ℕ
  pub dns1 : ℕ
  pub dns2 : ℕ
  pub mppe : Mppe Rc4
  pub tx_queue : List Buff
  pub tx_inflight : Option Buff
  pub sent_bytes : ℕ
  pub trace : List Event

-- The packet that `ppp_enqueue_raw` makes of a frame, in a buffer that was just created.
unfoldable pub fill_packet : Buff → List ℕ → Option (Status × Buff)
fill_packet buf frame = do
  (status, buf) ← pkt_init buf msg_data
  let fill = (do
    bytes ← write_bytes buf.bytes buf.len frame
    buf ← pkt_update (record buf { len = (buf.len + length frame) % 2 ^ 32; bytes = bytes })
    some (okay, buf))
  elim status [ okay ↦ fill | _ ↦ some (fail, buf) ]

module _ {Rc4 : Type 0} (world : World Rc4) where
  -- `ppp_flush_start` of a queue, once the stream is not busy. It goes on as long as the stream takes
  -- the packets at once; a packet that fails is dropped, and the rest stays.
  unfoldable pub flush : List Buff → Peer Rc4 → Peer Rc4
  flush [] p = record p { tx_queue = [] }
  flush (item ∷ rest) p =
      let asked = record p { tx_queue = rest; trace = handed item ∷ p.trace } in
      let more = flush rest asked in
      elim (world.send p.trace item) [
        | okay ↦ more
        | inprog ↦ record asked { tx_inflight = some item; tx_busy = true }
        | _ ↦ asked
      ]

  unfoldable pub flush_start : Peer Rc4 → Peer Rc4
  unfolding flush
  flush_start p = if p.tx_busy then p else flush p.tx_queue p

  -- `ppp_send_complete`, whatever the result of the write
  unfoldable pub send_complete : Peer Rc4 → Peer Rc4
  unfolding flush_start
  send_complete p = flush_start (record p { tx_inflight = none; tx_busy = false })

  -- `ppp_enqueue_raw` of a packet that is ready.
  unfoldable pub append_item : Peer Rc4 → ℕ → Buff → Peer Rc4
  unfolding flush_start
  append_item p flen item =
      flush_start (record p {
        tx_queue = p.tx_queue ++ item ∷ [];
        sent_bytes = (p.sent_bytes + flen) % 2 ^ 64;
      })

  unfoldable pub enqueue_raw : Peer Rc4 → List ℕ → Option (Status × Peer Rc4)
  unfolding fill_packet append_item
  enqueue_raw p frame =
      let queue = λ (buf : Buff). (do
        (status, item) ← fill_packet buf frame
        elim status [
          | okay ↦ some (okay, append_item p (length frame) item)
          | _ ↦ some (fail, p)
        ]) in
      let create : Option (Status × Peer Rc4) =
        elim ((buff_create (world.memory p.trace 1) (length frame + 64)).1) [
          | none ↦ some (fail, p)
          | some buf ↦ queue buf
        ] in
      if length frame == 0
      then some (fail, p)
      else (if world.memory p.trace 0 then create else some (fail, p))

  unfoldable pub send_frame : Peer Rc4 → ℕ → List ℕ → Option (Status × Peer Rc4)
  unfolding enqueue_raw
  send_frame p proto payload = elim (ppp_frame proto payload) [
    | none ↦ some (fail, p)
    | some frame ↦ enqueue_raw p frame
  ]

  -- A call of `ppp_send_frame` whose result is dropped.
  abbrev pub tell : Peer Rc4 → ℕ → List ℕ → Option (Peer Rc4)
  tell p proto payload = send_frame p proto payload >>= λ r. some (r.1)

  -- `sstp_pppd_set_mppe_keys`, if it is called
  abbrev pub set_mppe_keys : Peer Rc4 → Option (List ℕ × List ℕ) → Peer Rc4
  set_mppe_keys p none = p
  set_mppe_keys p (some (skey, rkey)) = record p {
    mppe = record (p.mppe) {
      send_half = record (p.mppe.send_half) { master = skey };
      recv_half = record (p.mppe.recv_half) { master = rkey };
      keys_set = true;
    };
  }

  -- `if (ctx->notify) ctx->notify(ctx->arg, event)`
  unfoldable pub notify : Peer Rc4 → ℕ → Peer Rc4
  notify p event =
      let called = record p { trace = notified event ∷ p.trace } in
      if p.has_notify then set_mppe_keys called (world.notify p.trace event) else p
