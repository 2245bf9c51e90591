-- ===== src/Ppp/LinkUp.antt =====
-- The handlers of sstp/ios-pppd.c keep the report of the link true, and do not fault.
use sstp_client_i_os.Base.{ℕ, zero, suc, ◌+◌, ◌%◌, ◌≡◌, arith, Bool, true, not, ◌||◌, ◌&&◌, some}
use sstp_client_i_os.Base.{
  List, [], ◌∷◌, length, ltb, if_both, Returns, Returns-some, Returns-if, Returns-bind,
}
use sstp_client_i_os.Ppp.{World, Peer, tell}
use sstp_client_i_os.Ppp.Requests.{
  send_lcp_confreq, send_ipcp_confreq, send_ccp_confreq, maybe_notify_up, ccp_finished, proto_lcp,
  fsm_confack,
}
use sstp_client_i_os.Ppp.Options.{get_be32, option_loop, peer_option, local_option, answer}
use sstp_client_i_os.Ppp.Handlers.{lcp_confreq}
use sstp_client_i_os.Ppp.Safe.{IsTrue, tell-IsTrue, maybe_notify_up-IsTrue}

still_ready : (up ip ccp : Bool) → (not up || (ip && ccp)) ≡ true → (not up || (ip && true)) ≡ true
still_ready up ip ccp h = ground arith

module _ {Rc4 : Type 0} (world : World Rc4) where
  pub send_lcp_confreq-IsTrue :
      (p : Peer Rc4) → IsTrue p → Returns IsTrue (send_lcp_confreq world p)
  unfolding send_lcp_confreq IsTrue
  send_lcp_confreq-IsTrue p h = tell-IsTrue world (record p { lcp_id = (p.lcp_id + 1) % 256 }) _ _ h

  pub send_ipcp_confreq-IsTrue :
      (p : Peer Rc4) → IsTrue p → Returns IsTrue (send_ipcp_confreq world p)
  unfolding send_ipcp_confreq IsTrue
  send_ipcp_confreq-IsTrue p h =
      tell-IsTrue world (record p { ipcp_id = (p.ipcp_id + 1) % 256 }) _ _ h

  pub send_ccp_confreq-IsTrue :
      (p : Peer Rc4) → IsTrue p → Returns IsTrue (send_ccp_confreq world p)
  unfolding send_ccp_confreq IsTrue
  send_ccp_confreq-IsTrue p h = tell-IsTrue world (record p { ccp_id = (p.ccp_id + 1) % 256 }) _ _ h

  up_if_ready : (p : Peer Rc4) → IsTrue p → Returns IsTrue (some (maybe_notify_up world p))
  unfolding Returns
  up_if_ready p h = maybe_notify_up-IsTrue world p h

  finished_IsTrue : (p : Peer Rc4) → IsTrue p → IsTrue (record p { ccp_done = true })
  unfolding IsTrue
  finished_IsTrue p h = (h.0, still_ready p.up_notified p.ip_configured p.ccp_done h.1)

  pub ccp_finished-IsTrue : (p : Peer Rc4) → IsTrue p → Returns IsTrue (ccp_finished world p)
  unfolding ccp_finished
  ccp_finished-IsTrue p h =
      let finished : Peer Rc4 = record p { ccp_done = true } in
      let kept : IsTrue finished = finished_IsTrue p h in
      Returns-if IsTrue p.ccp_done _ _ (up_if_ready p h) (
        Returns-if IsTrue p.auth_done _ _
          (Returns-bind IsTrue IsTrue (send_ipcp_confreq world finished) _
            (send_ipcp_confreq-IsTrue finished kept) up_if_ready)
          (up_if_ready finished kept))

  pub option_loop-IsTrue :
      (use_option : Peer Rc4 → ℕ → List ℕ → Peer Rc4)
      → ((p : Peer Rc4) (type : ℕ) (value : List ℕ) → IsTrue p → IsTrue (use_option p type value))
      → (fuel : ℕ) (rest : List ℕ) (p : Peer Rc4) → IsTrue p
      → IsTrue (option_loop use_option fuel rest p)
  unfolding option_loop
  option_loop-IsTrue f kept zero rest p h = h
  option_loop-IsTrue f kept (suc fuel) [] p h = h
  option_loop-IsTrue f kept (suc fuel) (b ∷ []) p h = h
  option_loop-IsTrue f kept (suc fuel) (type ∷ olen ∷ body) p h =
      if_both IsTrue (ltb olen 2 || ltb (2 + length body) olen) p _ h
        (option_loop-IsTrue f kept fuel _ _ (kept p type _ h))

  -- The addresses that the options carry do not matter here.
  addressed :
      (p : Peer Rc4) (local_ip peer_ip dns1 dns2 : ℕ)
      → IsTrue p
      → IsTrue (record p { local_ip = local_ip; peer_ip = peer_ip; dns1 = dns1; dns2 = dns2 })
  unfolding IsTrue
  addressed p local_ip peer_ip dns1 dns2 h = h

  pub peer_option-IsTrue :
      (p : Peer Rc4) (type : ℕ) (value : List ℕ) → IsTrue p → IsTrue (peer_option p type value)
  peer_option-IsTrue p type value h =
      if_both IsTrue _ _ p (addressed p p.local_ip (get_be32 value) p.dns1 p.dns2 h) h

  pub local_option-IsTrue :
      (p : Peer Rc4) (type : ℕ) (value : List ℕ) → IsTrue p → IsTrue (local_option p type value)
  local_option-IsTrue p type value h =
      let v : ℕ = get_be32 value in
      if_both IsTrue _ _ _ (addressed p v p.peer_ip p.dns1 p.dns2 h) (
        if_both IsTrue _ _ _ (addressed p p.local_ip p.peer_ip v p.dns2 h)
          (if_both IsTrue _ _ p (addressed p p.local_ip p.peer_ip p.dns1 v h) h))

  pub lcp_confreq-IsTrue :
      (p : Peer Rc4) (plen : ℕ) (rest : List ℕ)
      → IsTrue p
      → Returns IsTrue (lcp_confreq world p plen rest)
  unfolding lcp_confreq
  lcp_confreq-IsTrue p plen rest h =
      Returns-if IsTrue (ltb 256 plen) _ _ (Returns-some IsTrue p h) (
        Returns-bind IsTrue IsTrue (tell world p proto_lcp (answer plen fsm_confack rest)) _
          (tell-IsTrue world p proto_lcp (answer plen fsm_confack rest) h)
          λ q kept.
            Returns-if IsTrue q.lcp_opened _ _ (Returns-some IsTrue q kept)
              (send_lcp_confreq-IsTrue q kept))
