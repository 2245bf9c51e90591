-- ===== src/Ppp/Entry.antt =====
-- The functions of sstp/ios-pppd.c that the client calls.
use sstp_client_i_os.Base.{ℕ, Bool, false, Option, none, some, List, [], ◌∷◌}
use sstp_client_i_os.Base.{Status, okay, fail, length, take, replicate, if◌then◌else◌, ◌==◌, ◌>>=◌}
use sstp_client_i_os.Mppe.{Mppe, Half}
use sstp_client_i_os.Mppe as Mppe
use sstp_client_i_os.Ppp.{World, Peer, ppp_start, enqueue_raw, notify}
use sstp_client_i_os.Ppp.Requests.{send_lcp_confreq}
use sstp_client_i_os.Ppp.Handlers.{ppp_dispatch}

-- `struct sstp_session_st`: `established`, and the bytes received and sent
pub record Session : Type 0 where
  pub established : ℕ
  pub rx_bytes : ℕ
  pub tx_bytes : ℕ

module _ {Rc4 : Type 0} where
  -- `sstp_pppd_create` with memory at hand, with the random `magic`, and what RC4's state is when it
  -- is all zero.
  unfoldable pub pppd_create : Rc4 → Bool → ℕ → Peer Rc4
  pppd_create blank has_notify magic =
      let half : Half Rc4 = record {
        master = replicate 16 0;
        session = replicate 16 0;
        key = blank;
        ccount = 0;
      } in
      record {
        chap = record {
          challenge = replicate 16 0;
          response = replicate 8 0;
          nt_response = replicate 24 0;
          flags = 0;
        };
        has_notify = has_notify;
        username = [];
        password = [];
        lcp_id = 0;
        chap_id = 0;
        ipcp_id = 0;
        ccp_id = 0;
        magic = magic;
        lcp_opened = false;
        auth_done = false;
        ip_configured = false;
        ccp_done = false;
        up_notified = false;
        tx_busy = false;
        local_ip = 0;
        peer_ip = 0;
        dns1 = 0;
        dns2 = 0;
        mppe = record {
          send_half = half;
          recv_half = half;
          enabled = false;
          keys_set = false;
          handler = false;
          recv_bytes = 0;
        };
        tx_queue = [];
        tx_inflight = none;
        sent_bytes = 0;
        trace = [];
      }

  -- `sstp_pppd_set_ip_handler`: whether there is a handler
  unfoldable pub set_ip_handler : Peer Rc4 → Bool → Peer Rc4
  set_ip_handler p there = record p { mppe = record (p.mppe) { handler = there } }

  -- `sstp_pppd_session_details`, with the seconds since the start, or up to the end.
  unfoldable pub session_details : Peer Rc4 → ℕ → Session
  session_details p seconds = record {
    established = seconds;
    rx_bytes = p.mppe.recv_bytes;
    tx_bytes = p.sent_bytes;
  }

  -- The addresses that `sstp_pppd_get_ipv4` writes as text: local, peer, and two name servers.
  unfoldable pub get_ipv4 : Peer Rc4 → List ℕ
  get_ipv4 p =
      p.local_ip
      ∷ (if p.peer_ip == 0 then p.local_ip else p.peer_ip)
      ∷ (if p.dns1 == 0 then 0x08080808 else p.dns1)
      ∷ (if p.dns2 == 0 then 0x08080404 else p.dns2)
      ∷ []

module _ {Rc4 : Type 0} (world : World Rc4) where
  -- `sstp_pppd_start` with options that are given: the names are cut to 255 characters.
  unfoldable pub pppd_start : Peer Rc4 → List ℕ → List ℕ → Option (Peer Rc4)
  unfolding notify send_lcp_confreq
  pppd_start p user password =
      send_lcp_confreq world (
        notify world (record p { username = take 255 user; password = take 255 password })
          ppp_start)

  -- `sstp_pppd_send_ip` of a packet that is given.
  unfoldable pub pppd_send_ip : Peer Rc4 → List ℕ → Option (Status × Peer Rc4)
  unfolding enqueue_raw Mppe.send_ip
  pppd_send_ip p ip =
      let (frame, mppe) = Mppe.send_ip world.set_key world.rc4 world.sha1 p.mppe ip in
      let q = record p { mppe = mppe } in
      elim frame [ none ↦ some (fail, q) | some f ↦ enqueue_raw world q f ]

  -- `sstp_pppd_send`: a frame from the server; a result `none` is an access outside of an array.
  unfoldable pub pppd_send : Peer Rc4 → List ℕ → Option (Status × Peer Rc4)
  unfolding ppp_dispatch
  pppd_send p frame =
      let dispatched = (do q ← ppp_dispatch world p frame; some (okay, q)) in
      if length frame == 0 then some (fail, p) else dispatched
