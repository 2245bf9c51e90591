-- ===== src/Ios/Outcomes.antt =====
-- How the functions of sstp/sstp-ios.c end in the loop of events, one by one.
use sstp_client_i_os.Base.{
  ℕ, refl, Bool, true, Option, none, some, List, Status, okay, fail, if◌then◌else◌, if_both,
}
use sstp_client_i_os.State.{Ctx, Action, Step}
use sstp_client_i_os.Ppp.{Peer, ppp_start}
use sstp_client_i_os.State.Reason.{resume_recv}
use sstp_client_i_os.Ppp.Entry.{get_ipv4}
use sstp_client_i_os.Ios.{Session, Flow, returned, ◌>=>◌, set_stage, readied}
use sstp_client_i_os.Ios.Errors.{
  stage_ppp_lcp, stage_ppp_auth, stage_ppp_ipcp, stage_ppp_mppe, stage_applying_settings,
  stage_sstp_control, error_code_valid, stage_valid, err_sstp_control, err_crypto_binding,
  err_mppe_failed, err_network_lost, err_auth_rejected, err_internal,
}
use sstp_client_i_os.Ios.Link.{
  Parts, with_state, with_pppd, aborts, call_aborted, land, run_machine, told_ready, after_accept,
  after_mppe_get, pppd_cb, keep_peer, start_peer, state_cb,
}
use sstp_client_i_os.Ios.Contract.{
  IsRunning, Ends, returned-Ends, bind-Ends, report-IsRunning, set_stage-IsRunning, fail_ex-Ends,
}

module _ {Rc4 : Type 0} where
  pub if-Ends : (b : Bool) (x y : Flow (Session Rc4)) → Ends x → Ends y → Ends (if b then x else y)
  if-Ends b x y hx hy = if_both Ends b x y hx hy

  with_state-Ends :
      (s : Session Rc4) (f : Ctx → Flow (Session Rc4)) (o : Option Ctx)
      → ((ctx : Ctx) → Ends (f ctx))
      → Ends (with_state s f o)
  unfolding with_state Ends
  with_state-Ends s f none h = tt
  with_state-Ends s f (some ctx) h = h ctx

  with_pppd-Ends :
      (s : Session Rc4) (f : Peer Rc4 → Flow (Session Rc4)) (o : Option (Peer Rc4))
      → ((p : Peer Rc4) → Ends (f p))
      → Ends (with_pppd s f o)
  unfolding with_pppd Ends
  with_pppd-Ends s f none h = tt
  with_pppd-Ends s f (some p) h = h p

  call_aborted-Ends : (s : Session Rc4) → IsRunning s → Ends (call_aborted s)
  unfolding call_aborted error_code_valid stage_valid
  call_aborted-Ends s r =
      with_state-Ends s _ s.state
        λ ctx. fail_ex-Ends err_sstp_control stage_sstp_control _ s refl refl r

  land-Ends :
      (s : Session Rc4) (before : List Action) (step : Step)
      → IsRunning s
      → Ends (land s before step)
  unfolding land Ends
  land-Ends s before none r = tt
  land-Ends s before (some (status, ctx)) r =
      let moved = record s { state = some ctx } in
      if-Ends (aborts before ctx.trace) (call_aborted moved >=> λ ret s. returned status s)
        (returned status moved)
        (bind-Ends (call_aborted moved) _ (call_aborted-Ends moved r)
          λ ret s r'. returned-Ends status s r')
        (returned-Ends status moved r)

  pub run_machine-Ends : (op : Ctx → Step) (s : Session Rc4) → IsRunning s → Ends (run_machine op s)
  unfolding run_machine
  run_machine-Ends op s r = with_state-Ends s _ s.state λ ctx. land-Ends s ctx.trace (op ctx) r

  -- The report that the session is ready.
  ready-Ends :
      (s : Session Rc4) (p : Peer Rc4) → IsRunning s → Ends (returned okay (told_ready s p))
  unfolding told_ready stage_valid
  ready-Ends s p r = returned-Ends okay (told_ready s p) (
      let shown = set_stage stage_applying_settings (record s { ready = true }) in
      report-IsRunning shown.on_ready (readied (get_ipv4 p)) shown tt
        (set_stage-IsRunning stage_applying_settings (record s { ready = true }) refl r))

  after_accept-Ends :
      (status : Status) (s : Session Rc4) → IsRunning s → Ends (after_accept status s)
  unfolding after_accept error_code_valid stage_valid
  after_accept-Ends status s r =
      if-Ends _ _ _ (fail_ex-Ends err_crypto_binding stage_sstp_control _ s refl refl r)
        (with_pppd-Ends s _ s.pppd λ p. ready-Ends s p r)

module _ {Rc4 : Type 0} (parts : Parts Rc4) where
  after_mppe_get-Ends :
      (p : Peer Rc4) (keys : Option (List ℕ × List ℕ)) (s : Session Rc4)
      → IsRunning s
      → Ends (after_mppe_get parts p keys s)
  unfolding after_mppe_get error_code_valid stage_valid
  after_mppe_get-Ends p none s r = fail_ex-Ends err_mppe_failed stage_ppp_mppe _ s refl refl r
  after_mppe_get-Ends p (some (skey, rkey)) s r =
      let shown = set_stage stage_ppp_mppe s in
      let r' : IsRunning shown = set_stage-IsRunning stage_ppp_mppe s refl r in
      with_state-Ends shown _ shown.state λ ctx. returned-Ends okay _ r'

  start-Ends :
      (s : Session Rc4)
      → IsRunning s
      → Ends (
          with_state s (λ ctx. returned okay (record s { state = some (resume_recv ctx) })) s.state)
  start-Ends s r = with_state-Ends s _ s.state λ ctx. returned-Ends okay _ r

  pub pppd_cb-Ends : (event : ℕ) (s : Session Rc4) → IsRunning s → Ends (pppd_cb parts event s)
  unfolding pppd_cb error_code_valid stage_valid
  pppd_cb-Ends event s r =
      if-Ends _ _ _ (start-Ends _ (set_stage-IsRunning stage_ppp_lcp s refl r)) (
        if-Ends _ _ _ (fail_ex-Ends err_network_lost stage_ppp_lcp _ s refl refl r) (
          if-Ends _ _ _ (fail_ex-Ends err_auth_rejected stage_ppp_auth _ s refl refl r) (
            if-Ends _ _ _
              (bind-Ends _ _ (run_machine-Ends _ _ (set_stage-IsRunning stage_ppp_ipcp s refl r))
                after_accept-Ends)
              (if-Ends _ _ _
                (with_pppd-Ends s _ s.pppd
                  λ p. after_mppe_get-Ends p _ _ (set_stage-IsRunning stage_ppp_auth s refl r))
                (returned-Ends okay s r)))))

  keep_peer-Ends :
      (s : Session Rc4) (o : Option (Peer Rc4)) → IsRunning s → Ends (keep_peer parts s o)
  unfolding keep_peer Ends
  keep_peer-Ends s none r = tt
  keep_peer-Ends s (some p) r = r

  start_peer-Ends : (s : Session Rc4) → IsRunning s → Ends (start_peer parts s)
  unfolding start_peer
  start_peer-Ends s r =
      bind-Ends _ _ (pppd_cb-Ends ppp_start s r)
        λ status s r. with_pppd-Ends s _ s.pppd λ p. keep_peer-Ends s _ r

  pub state_cb-Ends : (event : ℕ) (s : Session Rc4) → IsRunning s → Ends (state_cb parts event s)
  unfolding state_cb error_code_valid stage_valid
  state_cb-Ends event s r =
      let r' : IsRunning (set_stage stage_ppp_lcp s) = set_stage-IsRunning stage_ppp_lcp s refl r in
      if-Ends _ _ _
        (if-Ends _ _ _ (start_peer-Ends _ r') (
          bind-Ends _ _ (fail_ex-Ends err_internal stage_ppp_lcp _ _ refl refl r')
            λ status s r. returned-Ends fail s r))
        (if-Ends _ _ _ (returned-Ends okay s r) (call_aborted-Ends s r))
