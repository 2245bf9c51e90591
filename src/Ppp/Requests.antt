-- ===== src/Ppp/Requests.antt =====
-- sstp/ios-pppd.c: the requests that the peer sends, and when the link is reported.
use sstp_client_i_os.Base.{
  ℕ, ◌+◌, ◌/◌, ◌%◌, ◌^◌, Bool, true, not, ◌||◌, Option, some, List, [], ◌∷◌, ◌++◌,
}
use sstp_client_i_os.Base.{length, be16, if◌then◌else◌, ◌==◌, ◌>>=◌}
use sstp_client_i_os.Mppe.{ppp_mru}
use sstp_client_i_os.Ppp.{World, Peer, ppp_up, send_frame, tell, notify}

abbrev pub proto_lcp : ℕ
proto_lcp = 0xc021

abbrev pub proto_chap : ℕ
proto_chap = 0xc223

abbrev pub proto_ipcp : ℕ
proto_ipcp = 0x8021

abbrev pub proto_ccp : ℕ
proto_ccp = 0x80fd

abbrev pub fsm_confreq : ℕ
fsm_confreq = 1

abbrev pub fsm_confack : ℕ
fsm_confack = 2

abbrev pub fsm_confnak : ℕ
fsm_confnak = 3

abbrev pub fsm_confrej : ℕ
fsm_confrej = 4

abbrev pub fsm_termreq : ℕ
fsm_termreq = 5

abbrev pub fsm_termack : ℕ
fsm_termack = 6

abbrev pub fsm_echoreq : ℕ
fsm_echoreq = 9

abbrev pub fsm_echorep : ℕ
fsm_echorep = 10

abbrev pub ci_mru : ℕ
ci_mru = 1

abbrev pub ci_addr : ℕ
ci_addr = 3

abbrev pub ci_magic : ℕ
ci_magic = 5

abbrev pub ci_mppc : ℕ
ci_mppc = 18

abbrev pub ci_ms_dns1 : ℕ
ci_ms_dns1 = 129

abbrev pub ci_ms_dns2 : ℕ
ci_ms_dns2 = 131

-- `put_be32`
abbrev pub be32 : ℕ → List ℕ
be32 v = v / 2 ^ 24 % 256 ∷ v / 2 ^ 16 % 256 ∷ v / 2 ^ 8 % 256 ∷ v % 256 ∷ []

-- What `put_opt` adds; `val` is at most 253 bytes long.
abbrev pub put_opt : ℕ → List ℕ → List ℕ
put_opt type val = type ∷ (2 + length val) % 256 ∷ val

-- A configure request with those options, as the three functions below put it together.
abbrev pub confreq : ℕ → List ℕ → List ℕ
confreq id options = fsm_confreq ∷ id ∷ (be16 (4 + length options) ++ options)

abbrev pub lcp_options : ℕ → List ℕ
lcp_options magic = put_opt ci_mru (be16 ppp_mru) ++ put_opt ci_magic (be32 magic)

abbrev pub ipcp_options : ℕ → ℕ → ℕ → List ℕ
ipcp_options addr d1 d2 =
    put_opt ci_addr (be32 addr) ++ (put_opt ci_ms_dns1 (be32 d1) ++ put_opt ci_ms_dns2 (be32 d2))

-- Stateless (H) + 128-bit (S)
abbrev pub ccp_options : List ℕ
ccp_options = put_opt ci_mppc (0x01 ∷ 0x00 ∷ 0x00 ∷ 0x40 ∷ [])

-- The flag for a number that is not 0.
abbrev pub is_set : ℕ → Bool
is_set n = not (n == 0)

module _ {Rc4 : Type 0} (world : World Rc4) where
  unfoldable pub send_lcp_confreq : Peer Rc4 → Option (Peer Rc4)
  unfolding send_frame
  send_lcp_confreq p =
      let id = (p.lcp_id + 1) % 256 in
      tell world (record p { lcp_id = id }) proto_lcp (confreq id (lcp_options p.magic))

  unfoldable pub send_ipcp_confreq : Peer Rc4 → Option (Peer Rc4)
  unfolding send_frame
  send_ipcp_confreq p =
      let id = (p.ipcp_id + 1) % 256 in
      tell world (record p { ipcp_id = id }) proto_ipcp
        (confreq id (ipcp_options p.local_ip p.dns1 p.dns2))

  unfoldable pub send_ccp_confreq : Peer Rc4 → Option (Peer Rc4)
  unfolding send_frame
  send_ccp_confreq p =
      let id = (p.ccp_id + 1) % 256 in
      tell world (record p { ccp_id = id }) proto_ccp (confreq id ccp_options)

  unfoldable pub maybe_notify_up : Peer Rc4 → Peer Rc4
  unfolding notify
  maybe_notify_up p =
      if p.up_notified
      then p
      else (if not p.ip_configured || p.local_ip == 0
          then p
          else (if p.ccp_done then notify world (record p { up_notified = true }) ppp_up else p))

  unfoldable pub ccp_finished : Peer Rc4 → Option (Peer Rc4)
  unfolding maybe_notify_up send_ipcp_confreq
  ccp_finished p =
      let finished = record p { ccp_done = true } in
      let request = (do q ← send_ipcp_confreq finished; some (maybe_notify_up q)) in
      if p.ccp_done
      then some (maybe_notify_up p)
      else (if p.auth_done then request else some (maybe_notify_up finished))
