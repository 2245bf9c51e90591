-- ===== src/Ppp/Dispatch.antt =====
-- `ppp_dispatch` of sstp/ios-pppd.c and the other entry points: no access outside of an array, and a
-- true report of the link.
use sstp_client_i_os.Base.{ℕ, ◌+◌, ◌≤◌, ◌≡◌, refl, arith, false, Option, none, some, inl, inr}
use sstp_client_i_os.Base.{
  List, ◌∷◌, length, fail, ◌==◌, ltb, ◌>>=◌, Bool-cases, Returns, Returns-some, Returns-if,
}
use sstp_client_i_os.Mppe.{
  Half, coherency, mppe_rekey, split_proto, proto_ip, proto_mppe, get_be16, Mppe, ppp_mru,
  ppp_header, handle_mppe, ppp_frame,
}
use sstp_client_i_os.Mppe as Mppe
use sstp_client_i_os.Ppp.{World, Peer, ppp_start, enqueue_raw}
use sstp_client_i_os.Ppp.Requests.{proto_chap, proto_lcp, proto_ipcp, proto_ccp}
use sstp_client_i_os.Ppp.Handlers.{hand_over, plain_ip, dispatch_proto, ppp_dispatch}
use sstp_client_i_os.Ppp.Entry.{pppd_start, pppd_send_ip}
use sstp_client_i_os.Ppp.Safe.{IsTrue, StillTrue, ups, enqueue_raw-IsTrue, notify-IsTrue}
use sstp_client_i_os.Ppp.LinkUp.{send_lcp_confreq-IsTrue}
use sstp_client_i_os.Ppp.Lengths.{AtMost, Short, ShortFirst, header_AtMost, send_ip_Short}
use sstp_client_i_os.Ppp.Handled.{
  crypted, handle_ccp-IsTrue, handle_chap-IsTrue, handle_ipcp-IsTrue, handle_lcp-IsTrue, named,
}

module _ {Rc4 : Type 0} (world : World Rc4) where
  -- The end of the handler of an encrypted packet.
  hand_over-IsTrue :
      (p : Peer Rc4) (r : Option (List ℕ) × Mppe Rc4) → IsTrue p → IsTrue (hand_over world p r)
  unfolding IsTrue ups
  hand_over-IsTrue p (none, mppe) kept = kept
  hand_over-IsTrue p (some ip, mppe) kept = kept

  plain_ip-IsTrue : (p : Peer Rc4) (ip : List ℕ) → IsTrue p → IsTrue (plain_ip world p ip)
  unfolding IsTrue ups
  plain_ip-IsTrue p ip kept = elim (Bool-cases p.mppe.handler) [
    | inl there ↦ rw there kept
    | inr alone ↦ rw alone kept
  ]

  -- `handle_mppe` of a body that fits into its array.
  decrypted :
      (p : Peer Rc4) (body : List ℕ)
      → length body ≤ 1418
      → IsTrue p
      → Returns IsTrue (
          handle_mppe world.set_key world.rc4 world.sha1 p.mppe body >>= λ r.
          some (hand_over world p r))
  unfolding handle_mppe Returns IsTrue
  decrypted p (b0 ∷ b1 ∷ b2 ∷ rest) fits kept =
      let room : ltb (ppp_mru + 16) (length (b2 ∷ rest)) ≡ false = ground (arith, fits) in
      elim (Bool-cases p.mppe.enabled) [
        | inl on ↦ rw (handle_mppe, on, room) (hand_over-IsTrue p _ kept)
        | inr off ↦ rw (handle_mppe, off) (hand_over-IsTrue p (none, p.mppe) kept)
      ]
  decrypted p _ fits kept = hand_over-IsTrue p (none, p.mppe) kept

  dispatch_proto-IsTrue :
      (p : Peer Rc4) (proto : ℕ) (body : List ℕ)
      → length body ≤ 1418
      → IsTrue p
      → Returns IsTrue (dispatch_proto world p proto body)
  unfolding dispatch_proto
  dispatch_proto-IsTrue p proto body fits kept =
      Returns-if IsTrue (proto == proto_lcp) _ _ (handle_lcp-IsTrue world p body kept) (
        Returns-if IsTrue (proto == proto_chap) _ _ (handle_chap-IsTrue world p body kept) (
          Returns-if IsTrue (proto == proto_ipcp) _ _ (handle_ipcp-IsTrue world p body kept) (
            Returns-if IsTrue (proto == proto_ccp) _ _ (handle_ccp-IsTrue world p body kept) (
              Returns-if IsTrue (proto == proto_mppe) _ _ (decrypted p body fits kept) (
                Returns-if IsTrue (proto == proto_ip) _ _
                  (Returns-some IsTrue _ (plain_ip-IsTrue p body kept))
                  (Returns-some IsTrue p kept))))))

  found :
      (header : Option (ℕ × List ℕ)) (p : Peer Rc4)
      → AtMost 1418 header
      → IsTrue p
      → Returns IsTrue
          (elim header [ none ↦ some p | some (proto, body) ↦ dispatch_proto world p proto body ])
  unfolding AtMost
  found none p fits kept = Returns-some IsTrue p kept
  found (some (proto, body)) p fits kept = dispatch_proto-IsTrue p proto body fits kept

  -- A frame of at most 1419 bytes, whatever they are, makes `ppp_dispatch` access nothing outside of
  -- an array, and keeps the report of the link true.
  pub ppp_dispatch-IsTrue :
      (p : Peer Rc4) (frame : List ℕ)
      → length frame ≤ 1419
      → IsTrue p
      → Returns IsTrue (ppp_dispatch world p frame)
  unfolding ppp_dispatch ppp_header
  ppp_dispatch-IsTrue p frame fits kept = found (ppp_header frame) p (header_AtMost frame fits) kept

  pub pppd_start-IsTrue :
      (p : Peer Rc4) (user password : List ℕ)
      → IsTrue p
      → Returns IsTrue (pppd_start world p user password)
  unfolding pppd_start
  pppd_start-IsTrue p user password kept =
      send_lcp_confreq-IsTrue world _
        (notify-IsTrue world _ ppp_start refl (named world p user password kept))

  queued :
      (frame : Option (List ℕ)) (q : Peer Rc4)
      → Short frame
      → IsTrue q
      → Returns
          (StillTrue world)
          (elim frame [ none ↦ some (fail, q) | some f ↦ enqueue_raw world q f ])
  unfolding Short
  queued none q short kept = Returns-some (StillTrue world) (fail, q) kept
  queued (some f) q short kept = enqueue_raw-IsTrue world q f (omega (arith, short)) kept

  pub pppd_send_ip-IsTrue :
      (p : Peer Rc4) (ip : List ℕ) → IsTrue p → Returns (StillTrue world) (pppd_send_ip world p ip)
  unfolding pppd_send_ip ShortFirst
  pppd_send_ip-IsTrue p ip kept =
      let sent : Option (List ℕ) × Mppe Rc4 =
        Mppe.send_ip world.set_key world.rc4 world.sha1 p.mppe ip in
      queued sent.0 (record p { mppe = sent.1 })
        (send_ip_Short world.set_key world.rc4 world.sha1 p.mppe ip) (crypted world p sent.1 kept)
