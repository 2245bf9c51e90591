-- ===== src/Ppp/Safe.antt =====
-- The report of the link by sstp/ios-pppd.c, and what keeps it true: the queue, the requests and the
-- other reports.
use sstp_client_i_os.Base.{
  ℕ, suc, ◌+◌, ◌%◌, ◌^◌, ◌<◌, ◌≡◌, refl, ap, ◌∙◌, arith, Bool, true, false, not, ◌||◌, ◌&&◌, Option,
  none, some, inl, inr,
}
use sstp_client_i_os.Base.{
  List, [], ◌∷◌, ◌++◌, length, be16, Status, okay, fail, inprog, ◌==◌, ltb, if◌then◌else◌, if_both,
  if_each, Bool-cases, Returns, Returns-some, Returns-bind,
}
use sstp_client_i_os.Buff.{Buff, buff_create}
use sstp_client_i_os.Mppe.{ppp_frame, ppp_mru}
use sstp_client_i_os.Ppp.Requests.{maybe_notify_up}
use sstp_client_i_os.Ppp.{
  Event, handed, notified, delivered, World, Peer, ppp_up, flush, flush_start, send_complete,
  append_item, enqueue_raw, send_frame, tell, set_mppe_keys, notify,
}
use sstp_client_i_os.Ppp.Item.{packet_of, fill_packet_lem}

-- How often the peer said that the link is up.
unfoldable pub ups : List Event → ℕ
ups [] = 0
ups (notified event ∷ trace) = if event == ppp_up then suc (ups trace) else ups trace
ups (handed _ ∷ trace) = ups trace
ups (delivered _ ∷ trace) = ups trace

abbrev pub bit : Bool → ℕ
bit true = 1
bit false = 0

module _ {Rc4 : Type 0} where
  -- The link was said to be up once if `up_notified` is set and there is someone to tell, and else
  -- never; and `up_notified` is only set when IPCP and CCP are done.
  unfoldable pub IsTrue : Peer Rc4 → Type 0
  unfolding ups
  IsTrue p =
      (ups p.trace ≡ bit (p.up_notified && p.has_notify))
      × ((not p.up_notified || (p.ip_configured && p.ccp_done)) ≡ true)

module _ {Rc4 : Type 0} (world : World Rc4) where
  flush-answer :
      (s : Status) (item : Buff) (rest : List Buff) (p more : Peer Rc4)
      → IsTrue p
      → IsTrue more
      → IsTrue (elim s [
        | okay ↦ more
        | inprog ↦ record p {
          tx_queue = rest;
          trace = handed item ∷ p.trace;
          tx_inflight = some item;
          tx_busy = true;
        }
        | _ ↦ record p { tx_queue = rest; trace = handed item ∷ p.trace }
      ])
  unfolding ups IsTrue
  flush-answer okay item rest p more h k = k
  flush-answer inprog item rest p more h k = h
  flush-answer _ item rest p more h k = h

  flush-IsTrue : (queue : List Buff) (p : Peer Rc4) → IsTrue p → IsTrue (flush world queue p)
  unfolding flush ups IsTrue
  flush-IsTrue [] p h = h
  flush-IsTrue (item ∷ rest) p h =
      let asked : Peer Rc4 = record p { tx_queue = rest; trace = handed item ∷ p.trace } in
      flush-answer (world.send p.trace item) item rest p (flush world rest asked) h
        (flush-IsTrue rest asked h)

  flush_start-IsTrue : (p : Peer Rc4) → IsTrue p → IsTrue (flush_start world p)
  unfolding flush_start
  flush_start-IsTrue p h =
      if_both IsTrue p.tx_busy p (flush world p.tx_queue p) h (flush-IsTrue p.tx_queue p h)

  -- The end of a write keeps the report true.
  pub send_complete-IsTrue : (p : Peer Rc4) → IsTrue p → IsTrue (send_complete world p)
  unfolding send_complete IsTrue
  send_complete-IsTrue p h = flush_start-IsTrue (record p { tx_inflight = none; tx_busy = false }) h

  append_item-IsTrue :
      (p : Peer Rc4) (n : ℕ) (item : Buff) → IsTrue p → IsTrue (append_item world p n item)
  unfolding append_item IsTrue
  append_item-IsTrue p n item h =
      let q : Peer Rc4 = record p {
        tx_queue = p.tx_queue ++ item ∷ [];
        sent_bytes = (p.sent_bytes + n) % 2 ^ 64;
      } in
      flush_start-IsTrue q h

  -- `IsTrue` of the state in a result.
  abbrev pub StillTrue : Status × Peer Rc4 → Type 0
  StillTrue r = IsTrue r.1

  pub enqueue_raw-IsTrue :
      (p : Peer Rc4) (frame : List ℕ)
      → length frame < 2 ^ 30
      → IsTrue p
      → Returns StillTrue (enqueue_raw world p frame)
  unfolding enqueue_raw buff_create Returns
  enqueue_raw-IsTrue p frame short h = if_both (Returns StillTrue) (length frame == 0) _ _ h (
      if_both (Returns StillTrue) (world.memory p.trace 0) _ _
        (elim (Bool-cases (world.memory p.trace 1)) [
          | inl there ↦
              rw (there, fill_packet_lem frame short)
                (append_item-IsTrue p (length frame) (packet_of frame) h)
          | inr out ↦ rw out h
        ])
        h)

  pub send_frame-IsTrue :
      (p : Peer Rc4) (proto : ℕ) (payload : List ℕ)
      → IsTrue p
      → Returns StillTrue (send_frame world p proto payload)
  unfolding send_frame ppp_frame
  send_frame-IsTrue p proto payload h = elim (Bool-cases (ltb ppp_mru (length payload))) [
    | inl long ↦ rw (send_frame, long) (Returns-some StillTrue (fail, p) h)
    | inr fits ↦
        let frame : List ℕ = 0xff ∷ 0x03 ∷ (be16 proto ++ payload) in
        rw (send_frame, fits) (enqueue_raw-IsTrue p frame (ground (arith, fits)) h)
  ]

  pub tell-IsTrue :
      (p : Peer Rc4) (proto : ℕ) (payload : List ℕ)
      → IsTrue p
      → Returns IsTrue (tell world p proto payload)
  tell-IsTrue p proto payload h =
      Returns-bind StillTrue IsTrue (send_frame world p proto payload) (λ r. some (r.1))
        (send_frame-IsTrue p proto payload h) (λ r kept. Returns-some IsTrue (r.1) kept)

  keys-IsTrue :
      (p : Peer Rc4) (keys : Option (List ℕ × List ℕ))
      → IsTrue p
      → IsTrue (set_mppe_keys world p keys)
  unfolding IsTrue
  keys-IsTrue p none h = h
  keys-IsTrue p (some (skey, rkey)) h = h

  -- A report of anything else than the link being up.
  pub notify-IsTrue :
      (p : Peer Rc4) (event : ℕ)
      → (event == ppp_up) ≡ false
      → IsTrue p
      → IsTrue (notify world p event)
  unfolding notify ups IsTrue
  notify-IsTrue p event other h =
      let called : Peer Rc4 = record p { trace = notified event ∷ p.trace } in
      let kept : IsTrue called = rw (ups, other) h in
      if_both IsTrue p.has_notify _ p (keys-IsTrue called (world.notify p.trace event) kept) h

  -- The report that the link is up.
  up-IsTrue :
      (p : Peer Rc4)
      → p.up_notified ≡ false
      → p.ip_configured ≡ true
      → p.ccp_done ≡ true
      → IsTrue p
      → IsTrue (notify world (record p { up_notified = true }) ppp_up)
  unfolding notify ups IsTrue
  up-IsTrue p never ip ccp h =
      let noted : Peer Rc4 = record p { up_notified = true } in
      let called : Peer Rc4 = record noted { trace = notified ppp_up ∷ p.trace } in
      let none_yet : ups p.trace ≡ 0 = h.0 ∙ rw never refl in
      let ready : (p.ip_configured && p.ccp_done) ≡ true = rw (ip, ccp) refl in
      if_each IsTrue p.has_notify _ noted
        (λ told.
          keys-IsTrue called (world.notify p.trace ppp_up) (ap suc none_yet ∙ rw told refl, ready))
        (λ alone. (none_yet ∙ rw alone refl, ready))

  pub maybe_notify_up-IsTrue : (p : Peer Rc4) → IsTrue p → IsTrue (maybe_notify_up world p)
  unfolding maybe_notify_up
  maybe_notify_up-IsTrue p h =
      if_each IsTrue p.up_notified p _ (λ _. h)
        λ never.
          if_each IsTrue (not p.ip_configured || p.local_ip == 0) p _ (λ _. h)
            λ ip.
              if_each IsTrue p.ccp_done _ p (λ ccp. up-IsTrue p never (ground (arith, ip)) ccp h)
                (λ _. h)
