-- ===== src/Ios/Run.antt =====
-- sstp/sstp-ios.c: `sstp_ios_session_run`, the loop of events with what it calls, in any order.
use sstp_client_i_os.Base.{
  ℕ, true, false, Option, none, some, List, [], ◌∷◌, Status, okay, if◌then◌else◌,
}
use sstp_client_i_os.State.{Ctx}
use sstp_client_i_os.Ppp.{Peer}
use sstp_client_i_os.Ios.{Session, Flow, fault, escaped, returned, ◌>=>◌, ip_handler, stop_cb}
use sstp_client_i_os.Ios.Link.{Parts, pppd_cb, state_cb}
use sstp_client_i_os.Ios.Connect.{Answers, tls_connected, http_done}
use sstp_client_i_os.Ios.Inject.{inject_cb}

-- What the loop of events does next.
pub data Callback (Cert Rc4 : Type 0) : Type 0 where
  -- `ios_connected` and `ios_http_done`, with the status, and what the parts answer meanwhile
  tls_result : Answers Cert → Status → Callback Cert Rc4
  http_result : Answers Cert → Status → Callback Cert Rc4
  -- `ios_pppd_cb` and `ios_state_cb`
  ppp_event : ℕ → Callback Cert Rc4
  call_event : ℕ → Callback Cert Rc4
  -- `ios_ip_handler`, with the packet
  arrived : List ℕ → Callback Cert Rc4
  -- `ios_inject_cb`, with the bytes that it finds
  readable : List ℕ → Callback Cert Rc4
  -- `ios_stop_cb`
  stopped : Callback Cert Rc4
  -- the state machine and the peer at work, which leave these
  worked : Option Ctx → Option (Peer Rc4) → Callback Cert Rc4

-- The session behind the loop.
abbrev pub landed : {Rc4 : Type 0} → Flow (Session Rc4) → Option (Session Rc4)
landed fault = none
landed (escaped s) = some (record s { escape_set = false })
landed (returned status s) = some (record s { escape_set = false })

module _ {Cert Rc4 : Type 0} (parts : Parts Rc4) where
  unfoldable pub callback : Callback Cert Rc4 → Session Rc4 → Flow (Session Rc4)
  callback (tls_result answers status) s = tls_connected answers status s
  callback (http_result answers status) s = http_done answers parts status s
  callback (ppp_event event) s = pppd_cb parts event s
  callback (call_event event) s = state_cb parts event s
  callback (arrived ip) s = returned okay (ip_handler ip s)
  callback (readable pair) s = inject_cb parts.world pair s
  callback stopped s = returned okay (stop_cb s)
  callback (worked ctx p) s = returned okay (record s { state = ctx; pppd = p })

  -- `event_base_dispatch`, which ends behind a callback that called `event_base_loopbreak`.
  unfoldable pub dispatch : List (Callback Cert Rc4) → Session Rc4 → Flow (Session Rc4)
  dispatch [] s = returned okay s
  dispatch (c ∷ cs) s =
      if s.breaking then returned okay s else (callback c s >=> λ status s. dispatch cs s)

  -- `sstp_ios_session_run`; `none` is an access outside of an array. The library takes back an
  -- earlier `event_base_loopbreak` when the loop begins.
  unfoldable pub session_run : List (Callback Cert Rc4) → Session Rc4 → Option (Session Rc4)
  session_run cs s =
      if s.ev_base
      then landed (dispatch cs (record s { escape_set = true; breaking = false }))
      else some s
