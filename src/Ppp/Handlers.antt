-- ===== src/Ppp/Handlers.antt =====
-- sstp/ios-pppd.c: what the peer does with a packet, and its entry points. A packet is the list of
-- its bytes; `none` is an access outside of an array.
use sstp_client_i_os.Base.{
  ℕ, ◌+◌, ◌%◌, ◌^◌, true, false, not, ◌||◌, ◌&&◌, Option, none, some, List, [], ◌∷◌, ◌++◌,
}
use sstp_client_i_os.Base.{length, take, replicate, be16, if◌then◌else◌, ltb, ◌==◌, ◌>>=◌}
use sstp_client_i_os.Mppe.{
  Mppe, get_be16, proto_ip, proto_mppe, mppe_init_keys, handle_mppe, ppp_header,
}
use sstp_client_i_os.Mschap.{generate_nt_response}
use sstp_client_i_os.Ppp.{
  World, Peer, delivered, ppp_down, ppp_auth, ppp_auth_fail, send_frame, tell, notify,
}
use sstp_client_i_os.Ppp.Requests.{
  proto_lcp, proto_chap, proto_ipcp, proto_ccp, fsm_confreq, fsm_confack, fsm_confnak, fsm_confrej,
  fsm_termreq, fsm_termack, fsm_echoreq, fsm_echorep, is_set, send_lcp_confreq, send_ipcp_confreq,
  send_ccp_confreq, maybe_notify_up, ccp_finished,
}
use sstp_client_i_os.Ppp.Options.{
  answer, local_option, option_loop, packet_len, peer_option, read_options, with_magic,
}

-- CHAP_*
abbrev pub chap_challenge : ℕ
chap_challenge = 1

abbrev pub chap_response : ℕ
chap_response = 2

abbrev pub chap_success : ℕ
chap_success = 3

abbrev pub chap_failure : ℕ
chap_failure = 4

abbrev pub mschap_value_len : ℕ
mschap_value_len = 49

module _ {Rc4 : Type 0} (world : World Rc4) where
  -- The case FSM_CONFREQ of `handle_lcp`; the array `ack` has 256 bytes.
  unfoldable pub lcp_confreq : Peer Rc4 → ℕ → List ℕ → Option (Peer Rc4)
  unfolding send_frame send_lcp_confreq
  lcp_confreq p plen rest =
      let reply = (do
        p ← tell world p proto_lcp (answer plen fsm_confack rest)
        if p.lcp_opened then some p else send_lcp_confreq world p) in
      if ltb 256 plen then some p else reply

  unfoldable pub handle_lcp : Peer Rc4 → List ℕ → Option (Peer Rc4)
  unfolding lcp_confreq notify
  handle_lcp p (code ∷ id ∷ h ∷ l ∷ body) =
      let rest = id ∷ h ∷ l ∷ body in
      let plen = packet_len (get_be16 h l) (length (code ∷ rest)) in
      let terminate = (do
        p ← tell world p proto_lcp (fsm_termack ∷ id ∷ 0 ∷ 4 ∷ [])
        some (notify world p ppp_down)) in
      let echo = tell world p proto_lcp (with_magic plen p.magic (answer plen fsm_echorep rest)) in
      if code == fsm_confreq
      then lcp_confreq p plen rest
      else if code == fsm_confack
      then some (record p { lcp_opened = true })
      else if code == fsm_confnak || code == fsm_confrej
      then send_lcp_confreq world p
      else if code == fsm_termreq
      then terminate
      else if code == fsm_echoreq
      then (if ltb 64 plen then some p else echo)
      else some p
  handle_lcp p _ = some p

  -- `handle_chap` of a challenge: `challenge` and what stands behind it.
  unfoldable pub chap_respond : Peer Rc4 → ℕ → List ℕ → Option (Peer Rc4)
  unfolding send_frame notify generate_nt_response
  chap_respond p id auth_challenge = do
    let peer_challenge = world.rand p.trace
    let nt_response =
        generate_nt_response world.md4 world.sha1 world.odd_parity world.des auth_challenge
          peer_challenge p.username p.password
    let value = take 16 peer_challenge ++ (replicate 8 0 ++ (take 24 nt_response ++ 0 ∷ []))
    let kept = record p {
      chap_id = id;
      chap = record {
        challenge = take 16 peer_challenge;
        response = replicate 8 0;
        nt_response = take 24 nt_response;
        flags = 0;
      };
    }
    let name = take 200 p.username
    let resp =
        chap_response ∷ id ∷ (be16 (5 + 49 + length name) ++ (mschap_value_len ∷ (value ++ name)))
    p ← tell world kept proto_chap resp
    some (notify world p ppp_auth)

  unfoldable pub handle_chap : Peer Rc4 → List ℕ → Option (Peer Rc4)
  unfolding chap_respond send_ccp_confreq
  handle_chap p (code ∷ id ∷ h ∷ l ∷ vsize ∷ body) =
      let short = ltb vsize 16 || ltb (length body) vsize in
      if code == chap_challenge
      then (if short then some p else chap_respond p id body)
      else if code == chap_success
      then send_ccp_confreq world (record p { auth_done = true })
      else if code == chap_failure
      then some (notify world p ppp_auth_fail)
      else some p
  handle_chap p _ = some p

  -- The start of `handle_ipcp`: a peer that leaves CCP out.
  unfoldable pub skip_ccp : Peer Rc4 → Option (Peer Rc4)
  unfolding ccp_finished
  skip_ccp p =
      if not p.ccp_done && p.auth_done
      then ccp_finished world (record p { mppe = record (p.mppe) { enabled = false } })
      else some p

  -- The case FSM_CONFACK of `handle_ipcp` behind its loop.
  unfoldable pub configured : Peer Rc4 → Peer Rc4
  unfolding maybe_notify_up
  configured p =
      if is_set p.local_ip then maybe_notify_up world (record p { ip_configured = true }) else p

  -- The switch of `handle_ipcp`; the array `ack` has 128 bytes.
  unfoldable pub ipcp_switch : Peer Rc4 → ℕ → ℕ → List ℕ → Option (Peer Rc4)
  unfolding send_frame send_ipcp_confreq configured option_loop
  ipcp_switch p code plen rest =
      let buf = code ∷ rest in
      let seen = read_options peer_option plen buf p in
      let taken = read_options local_option plen buf p in
      let ack = tell world seen proto_ipcp (answer plen fsm_confack rest) in
      if code == fsm_confreq
      then (if ltb 128 plen then some seen else ack)
      else if code == fsm_confack
      then some (configured taken)
      else if code == fsm_confnak
      then send_ipcp_confreq world taken
      else some p

  unfoldable pub handle_ipcp : Peer Rc4 → List ℕ → Option (Peer Rc4)
  unfolding skip_ccp ipcp_switch
  handle_ipcp p (code ∷ id ∷ h ∷ l ∷ body) = do
    let rest = id ∷ h ∷ l ∷ body
    p ← skip_ccp p
    ipcp_switch p code (packet_len (get_be16 h l) (length (code ∷ rest))) rest
  handle_ipcp p _ = some p

  -- `mppe_init_keys`
  unfoldable pub init_keys : Peer Rc4 → Peer Rc4
  unfolding mppe_init_keys
  init_keys p = record p { mppe = mppe_init_keys world.set_key world.rc4 world.sha1 p.mppe }

  -- `handle_ccp`; the array `ack` has 64 bytes.
  unfoldable pub handle_ccp : Peer Rc4 → List ℕ → Option (Peer Rc4)
  unfolding send_frame init_keys ccp_finished
  handle_ccp p (code ∷ id ∷ h ∷ l ∷ body) =
      let rest = id ∷ h ∷ l ∷ body in
      let plen = packet_len (get_be16 h l) (length (code ∷ rest)) in
      let accept = (do
        p ← tell world p proto_ccp (answer plen fsm_confack rest)
        ccp_finished world (init_keys p)) in
      if code == fsm_confreq
      then (if ltb 64 plen then some p else accept)
      else if code == fsm_confack
      then ccp_finished world (init_keys p)
      else if code == fsm_confrej || code == fsm_confnak
      then ccp_finished world (record p { mppe = record (p.mppe) { enabled = false } })
      else some p
  handle_ccp p _ = some p

  -- A packet handed to `ip_handler`, if one is.
  abbrev pub hand_over : Peer Rc4 → Option (List ℕ) × Mppe Rc4 → Peer Rc4
  hand_over p (none, mppe) = record p { mppe = mppe }
  hand_over p (some ip, mppe) = record p { mppe = mppe; trace = delivered ip ∷ p.trace }

  -- The case PPP_PROTO_IP of `ppp_dispatch`: a packet that is not encrypted.
  abbrev pub plain_ip : Peer Rc4 → List ℕ → Peer Rc4
  plain_ip p ip =
      let given = if p.mppe.handler then delivered ip ∷ p.trace else p.trace in
      record p {
        mppe = record (p.mppe) { recv_bytes = (p.mppe.recv_bytes + length ip) % 2 ^ 64 };
        trace = given;
      }

  -- The switch of `ppp_dispatch`.
  unfoldable pub dispatch_proto : Peer Rc4 → ℕ → List ℕ → Option (Peer Rc4)
  unfolding handle_lcp handle_chap handle_ipcp handle_ccp handle_mppe
  dispatch_proto p proto body =
      let decrypted = (do
        r ← handle_mppe world.set_key world.rc4 world.sha1 p.mppe body
        some (hand_over p r)) in
      if proto == proto_lcp
      then handle_lcp p body
      else if proto == proto_chap
      then handle_chap p body
      else if proto == proto_ipcp
      then handle_ipcp p body
      else if proto == proto_ccp
      then handle_ccp p body
      else if proto == proto_mppe
      then decrypted
      else if proto == proto_ip
      then some (plain_ip p body)
      else some p

  unfoldable pub ppp_dispatch : Peer Rc4 → List ℕ → Option (Peer Rc4)
  unfolding dispatch_proto ppp_header
  ppp_dispatch p frame = elim (ppp_header frame) [
    | none ↦ some p
    | some (proto, body) ↦ dispatch_proto p proto body
  ]
