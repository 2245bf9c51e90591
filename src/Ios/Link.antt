-- ===== src/Ios/Link.antt =====
-- sstp/sstp-ios.c: what the session does when the PPP peer or the state machine of the call report to
-- it, `ios_pppd_cb` and `ios_state_cb`.
use sstp_client_i_os.Base.{
  codes, ℕ, Bool, true, false, Option, none, some, List, [], ◌∷◌, Status, okay, fail, is, length,
  ltb, if◌then◌else◌, ◌==◌, ◌&&◌,
}
use sstp_client_i_os.State.{
  Env, Ctx, Action, called, mppe_keys, Step, call_abort, call_connect, call_established,
}
use sstp_client_i_os.State.Calls.{state_accept}
use sstp_client_i_os.State.Reason.{state_reason, resume_recv}
use sstp_client_i_os.Mschap.{chap_mppe_get}
use sstp_client_i_os.Ppp.{
  World, Peer, set_mppe_keys, ppp_start, ppp_down, ppp_auth_fail, ppp_up, ppp_auth,
}
use sstp_client_i_os.Ppp.Entry.{pppd_create, pppd_start, set_ip_handler, get_ipv4}
use sstp_client_i_os.Ios.{
  said, because, readied, Session, Flow, fault, returned, ◌>=>◌, report, set_stage, fail_ex,
}
use sstp_client_i_os.Ios.Errors.{
  err_network_lost, err_auth_rejected, err_crypto_binding, err_mppe_failed, err_internal,
  err_sstp_control, stage_ppp_lcp, stage_ppp_auth, stage_ppp_ipcp, stage_ppp_mppe,
  stage_sstp_control, stage_applying_settings,
}

-- The parts around the session: those of the state machine and of the peer, whether
-- `sstp_pppd_create` has memory, its random number, and what RC4's state is when it is all zero.
pub record Parts (Rc4 : Type 0) : Type 0 where
  pub env : Env
  pub world : World Rc4
  pub pppd_memory : Bool
  pub magic : ℕ
  pub blank : Rc4

abbrev pub last_is_abort : List Action → Bool
last_is_abort [] = false
last_is_abort (called what ∷ rest) = what == call_abort
last_is_abort (_ ∷ rest) = false

-- Whether the state machine called `state_cb` with SSTP_CALL_ABORT last; `before` is its trace so
-- far.
abbrev pub aborts : List Action → List Action → Bool
aborts before after = ltb (length before) (length after) && last_is_abort after

module _ {Rc4 : Type 0} where
  -- The session of a state machine that may be absent, where a call goes through NULL.
  unfoldable pub with_state :
      Session Rc4 → (Ctx → Flow (Session Rc4)) → Option Ctx → Flow (Session Rc4)
  with_state s f none = fault
  with_state s f (some ctx) = f ctx

  unfoldable pub with_pppd :
      Session Rc4 → (Peer Rc4 → Flow (Session Rc4)) → Option (Peer Rc4) → Flow (Session Rc4)
  with_pppd s f none = fault
  with_pppd s f (some p) = f p

  -- `ios_state_cb` for SSTP_CALL_ABORT, and for every state that has no case of its own. The time
  -- that `sstp_pppd_stop` notes is not kept, and `sstp_state_reason` always has a text.
  unfoldable pub call_aborted : Session Rc4 → Flow (Session Rc4)
  call_aborted s =
      with_state s
        (λ ctx. fail_ex err_sstp_control stage_sstp_control (some (because (state_reason ctx))) s)
        s.state

  -- The session behind a call of the state machine that began with the trace `before`.
  unfoldable pub land : Session Rc4 → List Action → Step → Flow (Session Rc4)
  land s before none = fault
  land s before (some (status, ctx)) =
      let moved = record s { state = some ctx } in
      if aborts before ctx.trace
      then (call_aborted moved >=> λ ret s. returned status s)
      else returned status moved

  -- A call of the state machine in which `state_cb` is told to abort last, if at all.
  unfoldable pub run_machine : (Ctx → Step) → Session Rc4 → Flow (Session Rc4)
  run_machine op s = with_state s (λ ctx. land s ctx.trace (op ctx)) s.state

  -- The reports of SSTP_PPP_UP.
  unfoldable pub told_ready : Session Rc4 → Peer Rc4 → Session Rc4
  told_ready s p =
      let shown = set_stage stage_applying_settings (record s { ready = true }) in
      report shown.on_ready (readied (get_ipv4 p)) shown

  -- The end of SSTP_PPP_UP, with the result of `sstp_state_accept`.
  unfoldable pub after_accept : Status → Session Rc4 → Flow (Session Rc4)
  after_accept status s =
      if is fail status
      then fail_ex err_crypto_binding stage_sstp_control
          (some (said (codes "SSTP crypto binding failed"))) s
      else with_pppd s (λ p. returned okay (told_ready s p)) s.pppd

module _ {Rc4 : Type 0} (parts : Parts Rc4) where
  -- The end of SSTP_PPP_AUTH, with what `sstp_chap_mppe_get` gives.
  unfoldable pub after_mppe_get :
      Peer Rc4 → Option (List ℕ × List ℕ) → Session Rc4 → Flow (Session Rc4)
  after_mppe_get p none s =
      fail_ex err_mppe_failed stage_ppp_mppe (some (said (codes "Could not derive MPPE keys"))) s
  after_mppe_get p (some (skey, rkey)) s =
      let shown = set_stage stage_ppp_mppe s in
      with_state shown
        (λ ctx. returned okay (record shown {
          state = some ((mppe_keys ctx skey rkey 16).1);
          pppd = some (set_mppe_keys parts.world p (some (skey, rkey)));
        }))
        shown.state

  -- `ios_pppd_cb`
  unfoldable pub pppd_cb : ℕ → Session Rc4 → Flow (Session Rc4)
  pppd_cb event s =
      let start =
        (let shown = set_stage stage_ppp_lcp s in
          with_state shown (λ ctx. returned okay (record shown { state = some (resume_recv ctx) }))
            shown.state) in
      let up = run_machine (state_accept parts.env) (set_stage stage_ppp_ipcp s) >=> after_accept in
      let auth =
        with_pppd s
          (λ p.
            after_mppe_get p
              (chap_mppe_get parts.world.md4 parts.world.sha1 p.chap.nt_response s.password false)
              (set_stage stage_ppp_auth s))
          s.pppd in
      if event == ppp_start
      then start
      else if event == ppp_down
      then fail_ex err_network_lost stage_ppp_lcp (some (said (codes "PPP connection terminated")))
          s
      else if event == ppp_auth_fail
      then fail_ex err_auth_rejected stage_ppp_auth
          (some (said (codes "Authentication rejected by server"))) s
      else if event == ppp_up
      then up
      else if event == ppp_auth
      then auth
      else returned okay s

  unfoldable pub keep_peer : Session Rc4 → Option (Peer Rc4) → Flow (Session Rc4)
  keep_peer s none = fault
  keep_peer s (some p) = returned okay (record s { pppd = some p })

  -- `sstp_pppd_start` of the peer that was made: it first calls back with SSTP_PPP_START.
  unfoldable pub start_peer : Session Rc4 → Flow (Session Rc4)
  start_peer s = pppd_cb ppp_start s >=> λ ret s.
      with_pppd s (λ p. keep_peer s (pppd_start parts.world p s.user s.password)) s.pppd

  -- `ios_state_cb`. The state machine forwards frames to the peer from here on, which Ppp.Entry has.
  unfoldable pub state_cb : ℕ → Session Rc4 → Flow (Session Rc4)
  state_cb event s =
      let shown = set_stage stage_ppp_lcp s in
      let refuse =
        fail_ex err_internal stage_ppp_lcp (some (said (codes "Could not create PPP context")))
          shown
        >=> λ ret s. returned fail s in
      let made = set_ip_handler (pppd_create parts.blank true parts.magic) true in
      let connect =
        (if parts.pppd_memory then start_peer (record shown { pppd = some made }) else refuse) in
      if event == call_connect
      then connect
      else if event == call_established
      then returned okay s
      else call_aborted s
