-- ===== src/Ios/Reports.antt =====
-- All reports of a run of the session of sstp/sstp-ios.c, in any order of events.
use sstp_client_i_os.Base.{
  ℕ, ◌≡◌, refl, true, false, Option, none, some, List, [], ◌∷◌, okay, All, ◌⊎◌, inl, inr, if_both,
}
use sstp_client_i_os.Ppp.{World, Peer}
use sstp_client_i_os.Ios.{Session, Flow, fault, escaped, returned, ip_handler, stop_cb, packeted}
use sstp_client_i_os.Ios.Link.{Parts}
use sstp_client_i_os.Ios.Inject.{inject_cb, send_each, send_all, sent_on}
use sstp_client_i_os.Ios.Run.{
  Callback, tls_result, http_result, ppp_event, call_event, arrived, readable, stopped, worked,
  callback, dispatch, landed, session_run,
}
use sstp_client_i_os.Ios.Contract.{
  Progress, Running, IsRunning, IsFailed, Ends, returned-Ends, bind-Ends, report-IsRunning,
}
use sstp_client_i_os.Ios.Outcomes.{if-Ends, pppd_cb-Ends, state_cb-Ends}
use sstp_client_i_os.Ios.Handshakes.{tls_connected-Ends, http_done-Ends}

module _ {Rc4 : Type 0} where
  ip_handler-IsRunning : (ip : List ℕ) (s : Session Rc4) → IsRunning s → IsRunning (ip_handler ip s)
  unfolding ip_handler
  ip_handler-IsRunning [] s r = r
  ip_handler-IsRunning (b ∷ bs) s r = report-IsRunning s.on_packet (packeted (b ∷ bs)) s tt r

  stop_cb-IsRunning : (s : Session Rc4) → IsRunning s → IsRunning (stop_cb s)
  unfolding stop_cb
  stop_cb-IsRunning s r = r

  -- What a run leaves: reports of progress only, or a failure behind them.
  unfoldable pub Settled : Option (Session Rc4) → Type 0
  Settled none = Unit
  Settled (some s) =
      (s.escape_set ≡ false) × (((s.failed ≡ false) × All Progress s.reports) ⊎ IsFailed s)

  landed-Settled : (x : Flow (Session Rc4)) → Ends x → Settled (landed x)
  unfolding Settled Ends
  landed-Settled fault e = tt
  landed-Settled (escaped s) e = (refl, inr e)
  landed-Settled (returned status s) e = (refl, inl (e.whole, e.progress))

  module _ (world : World Rc4) where
    sent_on-Ends :
        (s : Session Rc4) (o : Option (Peer Rc4)) → IsRunning s → Ends (sent_on world s o)
    unfolding sent_on Ends
    sent_on-Ends s none r = tt
    sent_on-Ends s (some p) r = r

    send_all-Ends :
        (s : Session Rc4) (packets : List (List ℕ)) (o : Option (Peer Rc4))
        → IsRunning s
        → Ends (send_all world s packets o)
    unfolding send_all
    send_all-Ends s packets none r = returned-Ends okay s r
    send_all-Ends s packets (some p) r = sent_on-Ends s (send_each world packets p) r

    inject_cb-Ends : (pair : List ℕ) (s : Session Rc4) → IsRunning s → Ends (inject_cb world pair s)
    unfolding inject_cb
    inject_cb-Ends pair s r = send_all-Ends s _ s.pppd r

module _ {Cert Rc4 : Type 0} (parts : Parts Rc4) where
  callback-Ends :
      (c : Callback Cert Rc4) (s : Session Rc4) → IsRunning s → Ends (callback parts c s)
  unfolding callback
  callback-Ends (tls_result answers status) s r = tls_connected-Ends answers status s r
  callback-Ends (http_result answers status) s r = http_done-Ends answers parts status s r
  callback-Ends (ppp_event event) s r = pppd_cb-Ends parts event s r
  callback-Ends (call_event event) s r = state_cb-Ends parts event s r
  callback-Ends (arrived ip) s r = returned-Ends okay _ (ip_handler-IsRunning ip s r)
  callback-Ends (readable pair) s r = inject_cb-Ends parts.world pair s r
  callback-Ends stopped s r = returned-Ends okay (stop_cb s) (stop_cb-IsRunning s r)
  callback-Ends (worked ctx p) s r = returned-Ends okay _ r

  dispatch-Ends :
      (cs : List (Callback Cert Rc4)) (s : Session Rc4) → IsRunning s → Ends (dispatch parts cs s)
  unfolding dispatch
  dispatch-Ends [] s r = returned-Ends okay s r
  dispatch-Ends (c ∷ cs) s r =
      if-Ends _ _ _ (returned-Ends okay s r)
        (bind-Ends _ _ (callback-Ends c s r) λ status s r. dispatch-Ends cs s r)

  -- The reports of a run of the loop of events, from a session that has not failed: whatever happens
  -- in whatever order, and whatever the parts around it answer, every stage that is reported is one
  -- of the contract; and at most one failure is reported, with a code and a stage of the contract,
  -- behind which nothing is reported. The session then keeps that code and stage as its last error;
  -- a run without a failure leaves no error.
  pub session_run-Settled :
      (cs : List (Callback Cert Rc4)) (s : Session Rc4)
      → s.on_fail ≡ true
      → s.escape_set ≡ false
      → s.failed ≡ false
      → All Progress s.reports
      → Settled (session_run parts cs s)
  unfolding session_run
  session_run-Settled cs s listens outside whole progress =
      let running : Running true s.on_fail s.failed s.reports = record {
        escapes = refl;
        listens = listens;
        whole = whole;
        progress = progress;
      } in
      if_both Settled s.ev_base _ (some s)
        (landed-Settled _
          (dispatch-Ends cs (record s { escape_set = true; breaking = false }) running))
        (unfold Settled in (outside, inl (whole, progress)))
