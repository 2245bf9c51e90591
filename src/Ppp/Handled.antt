-- ===== src/Ppp/Handled.antt =====
-- The handlers of sstp/ios-pppd.c: no access outside of an array, and a true report of the link.
use sstp_client_i_os.Base.{ℕ, ◌≡◌, refl, arith, Bool, true, false, not, ◌||◌, ◌&&◌, some}
use sstp_client_i_os.Base.{
  List, [], ◌∷◌, length, take, drop, ◌==◌, ltb, ◌>>=◌, if_both, Returns, Returns-some, Returns-if,
  Returns-bind,
}
use sstp_client_i_os.Mppe.{get_be16, Mppe}
use sstp_client_i_os.Ppp.{Chap, World, Peer, ppp_down, ppp_auth, ppp_auth_fail, tell, notify}
use sstp_client_i_os.Ppp.Requests.{
  ccp_finished, proto_chap, proto_lcp, proto_ccp, fsm_termack, fsm_confack, fsm_confreq,
  fsm_confnak, fsm_confrej, fsm_termreq, fsm_echoreq, fsm_echorep, is_set,
}
use sstp_client_i_os.Ppp.Options.{
  packet_len, with_magic, peer_option, local_option, read_options, answer,
}
use sstp_client_i_os.Ppp.Handlers.{
  handle_lcp, chap_respond, handle_chap, skip_ccp, configured, ipcp_switch, handle_ipcp, init_keys,
  handle_ccp,
}
use sstp_client_i_os.Ppp.Safe.{IsTrue, tell-IsTrue, notify-IsTrue, maybe_notify_up-IsTrue}
use sstp_client_i_os.Ppp.LinkUp.{
  send_lcp_confreq-IsTrue, send_ipcp_confreq-IsTrue, send_ccp_confreq-IsTrue, ccp_finished-IsTrue,
  option_loop-IsTrue, peer_option-IsTrue, local_option-IsTrue, lcp_confreq-IsTrue,
}

with_address :
    (up ip ccp : Bool) → (not up || (ip && ccp)) ≡ true → (not up || (true && ccp)) ≡ true
with_address up ip ccp h = ground arith

module _ {Rc4 : Type 0} (world : World Rc4) where
  -- A packet is sent, and then something is reported.
  tell-notify :
      (p : Peer Rc4) (proto : ℕ) (payload : List ℕ) (event : ℕ)
      → (event == 2) ≡ false
      → IsTrue p
      → Returns IsTrue (tell world p proto payload >>= λ q. some (notify world q event))
  tell-notify p proto payload event other h =
      Returns-bind IsTrue IsTrue (tell world p proto payload) _
        (tell-IsTrue world p proto payload h)
        λ q kept. Returns-some IsTrue _ (notify-IsTrue world q event other kept)

  -- The report does not depend on these fields.
  opened : (p : Peer Rc4) → IsTrue p → IsTrue (record p { lcp_opened = true })
  unfolding IsTrue
  opened p h = h

  authenticated : (p : Peer Rc4) → IsTrue p → IsTrue (record p { auth_done = true })
  unfolding IsTrue
  authenticated p h = h

  pub crypted : (p : Peer Rc4) (mppe : Mppe Rc4) → IsTrue p → IsTrue (record p { mppe = mppe })
  unfolding IsTrue
  crypted p mppe h = h

  challenged :
      (p : Peer Rc4) (id : ℕ) (chap : Chap)
      → IsTrue p
      → IsTrue (record p { chap_id = id; chap = chap })
  unfolding IsTrue
  challenged p id chap h = h

  with_ip : (p : Peer Rc4) → IsTrue p → IsTrue (record p { ip_configured = true })
  unfolding IsTrue
  with_ip p h = (h.0, with_address p.up_notified p.ip_configured p.ccp_done h.1)

  pub named :
      (p : Peer Rc4) (user password : List ℕ)
      → IsTrue p
      → IsTrue (record p { username = take 255 user; password = take 255 password })
  unfolding IsTrue
  named p user password h = h

  pub handle_lcp-IsTrue :
      (p : Peer Rc4) (body : List ℕ) → IsTrue p → Returns IsTrue (handle_lcp world p body)
  unfolding handle_lcp
  handle_lcp-IsTrue p (code ∷ id ∷ h ∷ l ∷ body) kept =
      let rest : List ℕ = id ∷ h ∷ l ∷ body in
      let plen : ℕ = packet_len (get_be16 h l) (length (code ∷ rest)) in
      let echo : List ℕ = with_magic plen p.magic (answer plen fsm_echorep rest) in
      let terminated : List ℕ = fsm_termack ∷ id ∷ 0 ∷ 4 ∷ [] in
      Returns-if IsTrue (code == fsm_confreq) _ _ (lcp_confreq-IsTrue world p plen rest kept) (
        Returns-if IsTrue (code == fsm_confack) _ _ (Returns-some IsTrue _ (opened p kept)) (
          Returns-if IsTrue (code == fsm_confnak || code == fsm_confrej) _ _
            (send_lcp_confreq-IsTrue world p kept)
            (Returns-if IsTrue (code == fsm_termreq) _ _
              (tell-notify p proto_lcp terminated ppp_down refl kept)
              (Returns-if IsTrue (code == fsm_echoreq) _ _
                (Returns-if IsTrue (ltb 64 plen) _ _ (Returns-some IsTrue p kept)
                  (tell-IsTrue world p proto_lcp echo kept))
                (Returns-some IsTrue p kept)))))
  handle_lcp-IsTrue p _ kept = Returns-some IsTrue p kept

  chap_respond-IsTrue :
      (p : Peer Rc4) (id : ℕ) (auth : List ℕ)
      → IsTrue p
      → Returns IsTrue (chap_respond world p id auth)
  unfolding chap_respond
  chap_respond-IsTrue p id auth kept =
      tell-notify _ proto_chap _ ppp_auth refl (challenged p id _ kept)

  pub handle_chap-IsTrue :
      (p : Peer Rc4) (body : List ℕ) → IsTrue p → Returns IsTrue (handle_chap world p body)
  unfolding handle_chap
  handle_chap-IsTrue p (code ∷ id ∷ h ∷ l ∷ vsize ∷ body) kept =
      Returns-if IsTrue _ _ _
        (Returns-if IsTrue _ _ _ (Returns-some IsTrue p kept) (chap_respond-IsTrue p id body kept))
        (Returns-if IsTrue _ _ _ (send_ccp_confreq-IsTrue world _ (authenticated p kept)) (
          Returns-if IsTrue _ _ _
            (Returns-some IsTrue _ (notify-IsTrue world p ppp_auth_fail refl kept))
            (Returns-some IsTrue p kept)))
  handle_chap-IsTrue p _ kept = Returns-some IsTrue p kept

  without_mppe :
      (p : Peer Rc4)
      → IsTrue p
      → Returns IsTrue
          (ccp_finished world (record p { mppe = record (p.mppe) { enabled = false } }))
  without_mppe p kept =
      ccp_finished-IsTrue world _ (crypted p (record (p.mppe) { enabled = false }) kept)

  skip_ccp-IsTrue : (p : Peer Rc4) → IsTrue p → Returns IsTrue (skip_ccp world p)
  unfolding skip_ccp
  skip_ccp-IsTrue p kept =
      Returns-if IsTrue _ _ _ (without_mppe p kept) (Returns-some IsTrue p kept)

  configured-IsTrue : (p : Peer Rc4) → IsTrue p → IsTrue (configured world p)
  unfolding configured
  configured-IsTrue p kept =
      if_both IsTrue (is_set p.local_ip) _ p
        (maybe_notify_up-IsTrue world (record p { ip_configured = true }) (with_ip p kept)) kept

  used :
      (use_option : Peer Rc4 → ℕ → List ℕ → Peer Rc4)
      → ((p : Peer Rc4) (type : ℕ) (value : List ℕ) → IsTrue p → IsTrue (use_option p type value))
      → (plen : ℕ) (buf : List ℕ) (p : Peer Rc4) → IsTrue p
      → IsTrue (read_options use_option plen buf p)
  used f each plen buf p kept =
      let rest : List ℕ = drop 4 (take plen buf) in
      option_loop-IsTrue world f each (length rest) rest p kept

  ipcp_switch-IsTrue :
      (p : Peer Rc4) (code plen : ℕ) (rest : List ℕ)
      → IsTrue p
      → Returns IsTrue (ipcp_switch world p code plen rest)
  unfolding ipcp_switch
  ipcp_switch-IsTrue p code plen rest kept =
      let seen : IsTrue (read_options peer_option plen (code ∷ rest) p) =
        used peer_option (peer_option-IsTrue world) plen (code ∷ rest) p kept in
      let taken : IsTrue (read_options local_option plen (code ∷ rest) p) =
        used local_option (local_option-IsTrue world) plen (code ∷ rest) p kept in
      Returns-if IsTrue _ _ _
        (Returns-if IsTrue _ _ _ (Returns-some IsTrue _ seen) (tell-IsTrue world _ _ _ seen))
        (Returns-if IsTrue _ _ _ (Returns-some IsTrue _ (configured-IsTrue _ taken)) (
          Returns-if IsTrue _ _ _ (send_ipcp_confreq-IsTrue world _ taken)
            (Returns-some IsTrue p kept)))

  pub handle_ipcp-IsTrue :
      (p : Peer Rc4) (body : List ℕ) → IsTrue p → Returns IsTrue (handle_ipcp world p body)
  unfolding handle_ipcp
  handle_ipcp-IsTrue p (code ∷ id ∷ h ∷ l ∷ body) kept =
      Returns-bind IsTrue IsTrue (skip_ccp world p) _ (skip_ccp-IsTrue p kept)
        λ q still. ipcp_switch-IsTrue q code _ _ still
  handle_ipcp-IsTrue p _ kept = Returns-some IsTrue p kept

  init_keys-IsTrue : (p : Peer Rc4) → IsTrue p → IsTrue (init_keys world p)
  unfolding init_keys
  init_keys-IsTrue p kept = crypted p _ kept

  pub handle_ccp-IsTrue :
      (p : Peer Rc4) (body : List ℕ) → IsTrue p → Returns IsTrue (handle_ccp world p body)
  unfolding handle_ccp
  handle_ccp-IsTrue p (code ∷ id ∷ h ∷ l ∷ body) kept =
      Returns-if IsTrue _ _ _
        (Returns-if IsTrue _ _ _ (Returns-some IsTrue p kept) (
          Returns-bind IsTrue IsTrue _ _ (tell-IsTrue world p proto_ccp _ kept)
            λ q still. ccp_finished-IsTrue world _ (init_keys-IsTrue q still)))
        (Returns-if IsTrue _ _ _ (ccp_finished-IsTrue world _ (init_keys-IsTrue p kept))
          (Returns-if IsTrue _ _ _ (without_mppe p kept) (Returns-some IsTrue p kept)))
  handle_ccp-IsTrue p _ kept = Returns-some IsTrue p kept
