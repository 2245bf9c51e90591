-- ===== src/Ppp/Runs.antt =====
-- Any run of the PPP peer of sstp/ios-pppd.c: what the client and the stream call, in any order.
use sstp_client_i_os.Base.{
  ℕ, ◌≤◌, ◌≡◌, refl, arith, Bool, true, false, not, ◌||◌, ◌&&◌, Option, some, inl, inr, ◌⊎◌,
}
use sstp_client_i_os.Base.{
  List, [], ◌∷◌, length, Status, okay, fail, ◌==◌, ◌>>=◌, All, Returns, Returns-value, Returns-some,
  Returns-if, Returns-bind,
}
use sstp_client_i_os.Ppp.{World, Peer, send_complete}
use sstp_client_i_os.Ppp.Handlers.{ppp_dispatch}
use sstp_client_i_os.Ppp.Entry.{pppd_create, set_ip_handler, pppd_start, pppd_send, pppd_send_ip}
use sstp_client_i_os.Ppp.Safe.{IsTrue, StillTrue, ups, bit, send_complete-IsTrue}
use sstp_client_i_os.Ppp.Dispatch.{ppp_dispatch-IsTrue, pppd_start-IsTrue, pppd_send_ip-IsTrue}

-- A call of the peer.
pub data Call : Type 0 where
  -- `sstp_pppd_set_ip_handler`
  handle_ip : Bool → Call
  -- `sstp_pppd_start`
  login : List ℕ → List ℕ → Call
  -- `sstp_pppd_send`, with a frame from the server
  receive : List ℕ → Call
  -- `sstp_pppd_send_ip`, with a packet from this device
  transmit : List ℕ → Call
  -- the end of a write
  written : Call

-- A frame from the server that fits into the arrays of the handlers.
abbrev pub Fits : Call → Type 0
Fits (receive frame) = length frame ≤ 1419
Fits _ = Unit

-- What is known of the number of reports, for each value of the flags.
bit_le : (n : ℕ) (b : Bool) → n ≡ bit b → n ≤ 1
bit_le n true e = omega (arith, e)
bit_le n false e = omega (arith, e)

reported :
    (n : ℕ) (up told ip ccp : Bool)
    → n ≡ bit (up && told)
    → (not up || (ip && ccp)) ≡ true
    → (n ≤ 1) × ((n ≡ 0) ⊎ ((ip ≡ true) × (ccp ≡ true)))
reported n false told ip ccp e h = (omega (arith, e), inl e)
reported n true told true true e h = (bit_le n told e, inr (refl, refl))
reported n true told true false e h = absurd (ground arith)
reported n true told false ccp e h = absurd (ground arith)

module _ {Rc4 : Type 0} (world : World Rc4) where
  -- The state behind a call, whose result is dropped.
  unfoldable pub call : Call → Peer Rc4 → Option (Peer Rc4)
  unfolding set_ip_handler pppd_start pppd_send pppd_send_ip send_complete
  call (handle_ip there) p = some (set_ip_handler p there)
  call (login user password) p = pppd_start world p user password
  call (receive frame) p = pppd_send world p frame >>= λ r. some (r.1)
  call (transmit ip) p = pppd_send_ip world p ip >>= λ r. some (r.1)
  call written p = some (send_complete world p)

  unfoldable pub calls : List Call → Peer Rc4 → Option (Peer Rc4)
  unfolding call
  calls [] p = some p
  calls (c ∷ cs) p = do q ← call c p; calls cs q

  pppd_send-IsTrue :
      (p : Peer Rc4) (frame : List ℕ)
      → length frame ≤ 1419
      → IsTrue p
      → Returns (StillTrue world) (pppd_send world p frame)
  unfolding pppd_send
  pppd_send-IsTrue p frame fits kept =
      Returns-if (StillTrue world) (length frame == 0) _ _
        (Returns-some (StillTrue world) (fail, p) kept)
        (Returns-bind IsTrue (StillTrue world) (ppp_dispatch world p frame) _
          (ppp_dispatch-IsTrue world p frame fits kept)
          λ q still. Returns-some (StillTrue world) (okay, q) still)

  dropped :
      (o : Option (Status × Peer Rc4))
      → Returns (StillTrue world) o
      → Returns IsTrue (o >>= λ r. some (r.1))
  dropped o kept =
      Returns-bind (StillTrue world) IsTrue o (λ r. some (r.1)) kept
        λ r still. Returns-some IsTrue (r.1) still

  handler_set : (p : Peer Rc4) (there : Bool) → IsTrue p → IsTrue (set_ip_handler p there)
  unfolding set_ip_handler IsTrue
  handler_set p there kept = kept

  call-IsTrue : (c : Call) (p : Peer Rc4) → Fits c → IsTrue p → Returns IsTrue (call c p)
  unfolding call
  call-IsTrue (handle_ip there) p fits kept = Returns-some IsTrue _ (handler_set p there kept)
  call-IsTrue (login user password) p fits kept = pppd_start-IsTrue world p user password kept
  call-IsTrue (receive frame) p fits kept = dropped _ (pppd_send-IsTrue p frame fits kept)
  call-IsTrue (transmit ip) p fits kept = dropped _ (pppd_send_ip-IsTrue world p ip kept)
  call-IsTrue written p fits kept = Returns-some IsTrue _ (send_complete-IsTrue world p kept)

  calls-IsTrue :
      (cs : List Call) (p : Peer Rc4) → All Fits cs → IsTrue p → Returns IsTrue (calls cs p)
  unfolding calls
  calls-IsTrue [] p fits kept = Returns-some IsTrue p kept
  calls-IsTrue (c ∷ cs) p fits kept =
      Returns-bind IsTrue IsTrue (call c p) (calls cs) (call-IsTrue c p fits.0 kept)
        λ q still. calls-IsTrue cs q fits.1 still

  pppd_create-IsTrue :
      (blank : Rc4) (has_notify : Bool) (magic : ℕ) → IsTrue (pppd_create blank has_notify magic)
  unfolding pppd_create IsTrue ups
  pppd_create-IsTrue blank has_notify magic = (refl, refl)

  -- From a new peer, after any calls in any order, with any frames from the server of at most 1419
  -- bytes and for every behaviour of the stream, of memory and of the layer above: no call accesses
  -- anything outside of an array; the link was said to be up at most once; and it was said only after
  -- IPCP and CCP were done.
  pub calls-ups :
      (blank : Rc4) (has_notify : Bool) (magic : ℕ) (cs : List Call)
      → All Fits cs
      → (q : Peer Rc4) × (calls cs (pppd_create blank has_notify magic) ≡ some q)
        × (ups q.trace ≤ 1)
        × ((ups q.trace ≡ 0) ⊎ ((q.ip_configured ≡ true) × (q.ccp_done ≡ true)))
  unfolding IsTrue
  calls-ups blank has_notify magic cs fits =
      let new : Peer Rc4 = pppd_create blank has_notify magic in
      let (q, ran, kept) =
        Returns-value IsTrue (calls cs new)
          (calls-IsTrue cs new fits (pppd_create-IsTrue blank has_notify magic)) in
      let (most, when) =
        reported (ups q.trace) q.up_notified q.has_notify q.ip_configured q.ccp_done kept.0
          kept.1 in
      (q, ran, most, when)
