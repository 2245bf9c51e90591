-- ===== src/Ios/Handshakes.antt =====
-- How the functions of sstp/sstp-ios.c that follow the two handshakes end in the loop of events.
use sstp_client_i_os.Base.{codes, ℕ, refl, Option, none, some, List, Status, okay, fail}
use sstp_client_i_os.State.{Created, null, partial, whole}
use sstp_client_i_os.Ios.{Session, set_stage, said}
use sstp_client_i_os.Ios.Errors.{
  error_code_valid, stage_valid, err_http_upgrade, err_tls_cert, err_sstp_control, err_tcp_timeout,
  err_tls_handshake, err_internal, stage_http_upgrade, stage_tcp_tls, stage_sstp_control,
}
use sstp_client_i_os.Ios.Link.{Parts}
use sstp_client_i_os.Ios.Trust.{
  Trust, refuse, decide, evaluate_ders, evaluate_chain, evaluate_leaf, evaluate_system_trust,
}
use sstp_client_i_os.Ios.Connect.{
  Answers, after_start, start_call, control, check_pin, after_verify, http_done, not_connected,
  after_handshake, after_create, upgrade, secured, tls_connected,
}
use sstp_client_i_os.Ios.Contract.{
  IsRunning, Ends, returned-Ends, bind-Ends, set_stage-IsRunning, fail_ex-Ends,
}
use sstp_client_i_os.Ios.Outcomes.{if-Ends, run_machine-Ends}

module _ {Rc4 : Type 0} where
  after_start-Ends : (status : Status) (s : Session Rc4) → IsRunning s → Ends (after_start status s)
  unfolding after_start error_code_valid stage_valid
  after_start-Ends status s r =
      if-Ends _ _ _ (fail_ex-Ends err_sstp_control stage_sstp_control _ s refl refl r)
        (returned-Ends okay s r)

  cert_refused : (msg : List ℕ) (s : Session Rc4) → IsRunning s → Ends (refuse err_tls_cert msg s)
  unfolding refuse error_code_valid stage_valid
  cert_refused msg s r =
      bind-Ends _ _ (fail_ex-Ends err_tls_cert stage_tcp_tls _ s refl refl r)
        λ status s r. returned-Ends fail s r

  memory_refused : (msg : List ℕ) (s : Session Rc4) → IsRunning s → Ends (refuse err_internal msg s)
  unfolding refuse error_code_valid stage_valid
  memory_refused msg s r =
      bind-Ends _ _ (fail_ex-Ends err_internal stage_tcp_tls _ s refl refl r)
        λ status s r. returned-Ends fail s r

  decide-Ends : (o : Option (List ℕ)) (s : Session Rc4) → IsRunning s → Ends (decide o s)
  unfolding decide
  decide-Ends none s r = returned-Ends okay s r
  decide-Ends (some msg) s r = cert_refused _ s r

module _ {Cert Rc4 : Type 0} (trust : Trust Cert) where
  evaluate_ders-Ends :
      (o : Option (List (List ℕ))) (s : Session Rc4) → IsRunning s → Ends (evaluate_ders trust o s)
  unfolding evaluate_ders
  evaluate_ders-Ends none s r = cert_refused _ s r
  evaluate_ders-Ends (some ders) s r = decide-Ends _ s r

  evaluate_chain-Ends :
      (leaf : Cert) (o : Option (List ℕ)) (s : Session Rc4)
      → IsRunning s
      → Ends (evaluate_chain trust leaf o s)
  unfolding evaluate_chain
  evaluate_chain-Ends leaf none s r = cert_refused _ s r
  evaluate_chain-Ends leaf (some bytes) s r = evaluate_ders-Ends _ s r

  evaluate_leaf-Ends :
      (leaf : Option Cert) (s : Session Rc4) → IsRunning s → Ends (evaluate_leaf trust leaf s)
  unfolding evaluate_leaf
  evaluate_leaf-Ends none s r = cert_refused _ s r
  evaluate_leaf-Ends (some leaf) s r =
      if-Ends _ _ _ (evaluate_chain-Ends leaf _ s r) (memory_refused _ s r)

  pub evaluate_system_trust-Ends :
      (s : Session Rc4) → IsRunning s → Ends (evaluate_system_trust trust s)
  unfolding evaluate_system_trust
  evaluate_system_trust-Ends s r = if-Ends _ _ _ (evaluate_leaf-Ends _ s r) (cert_refused _ s r)

module _ {Cert Rc4 : Type 0} (answers : Answers Cert) (parts : Parts Rc4) where
  start_call-Ends :
      (made : Created) (s : Session Rc4) → IsRunning s → Ends (start_call answers parts made s)
  unfolding start_call Ends
  start_call-Ends null s r = tt
  start_call-Ends (partial tx) s r = tt
  start_call-Ends (whole ctx) s r =
      bind-Ends _ _ (run_machine-Ends _ (record s { state = some ctx }) r) after_start-Ends

  control-Ends : (s : Session Rc4) → IsRunning s → Ends (control answers parts s)
  unfolding control error_code_valid stage_valid
  control-Ends s r =
      let r' : IsRunning (set_stage stage_sstp_control s) =
        set_stage-IsRunning stage_sstp_control s refl r in
      if-Ends _ _ _ (start_call-Ends _ _ r')
        (fail_ex-Ends err_sstp_control stage_sstp_control _ _ refl refl r')

  check_pin-Ends :
      (o : Option (List ℕ)) (s : Session Rc4) → IsRunning s → Ends (check_pin answers parts o s)
  unfolding check_pin error_code_valid stage_valid
  check_pin-Ends none s r = fail_ex-Ends err_tls_cert stage_tcp_tls _ s refl refl r
  check_pin-Ends (some digest) s r =
      if-Ends _ _ _ (control-Ends s r) (fail_ex-Ends err_tls_cert stage_tcp_tls _ s refl refl r)

  after_verify-Ends :
      (status : Status) (s : Session Rc4) → IsRunning s → Ends (after_verify answers parts status s)
  unfolding after_verify error_code_valid stage_valid
  after_verify-Ends status s r =
      if-Ends _ _ _ (if-Ends _ _ _ (check_pin-Ends _ s r) (control-Ends s r))
        (fail_ex-Ends err_tls_cert stage_tcp_tls _ s refl refl r)

  pub http_done-Ends :
      (status : Status) (s : Session Rc4) → IsRunning s → Ends (http_done answers parts status s)
  unfolding http_done error_code_valid stage_valid
  http_done-Ends status s r =
      if-Ends _ _ _ (if-Ends _ _ _ (control-Ends s r) (after_verify-Ends _ s r)) (
        if-Ends _ _ _ (fail_ex-Ends err_http_upgrade stage_http_upgrade _ s refl refl r)
          (fail_ex-Ends err_http_upgrade stage_http_upgrade _ s refl refl r))

module _ {Cert Rc4 : Type 0} (answers : Answers Cert) where
  after_handshake-Ends :
      (status : Status) (s : Session Rc4) → IsRunning s → Ends (after_handshake answers status s)
  unfolding after_handshake error_code_valid stage_valid
  after_handshake-Ends status s r =
      if-Ends _ _ _ (returned-Ends okay s r)
        (fail_ex-Ends err_http_upgrade stage_http_upgrade _ s refl refl r)

  not_connected-Ends : (s : Session Rc4) → IsRunning s → Ends (not_connected answers s)
  unfolding not_connected error_code_valid stage_valid
  not_connected-Ends s r =
      let handshake =
        fail_ex-Ends err_tls_handshake stage_tcp_tls
          (some (said (codes "Could not complete TLS handshake with SSTP server"))) s refl refl r in
      if-Ends _ _ _ handshake
        (if-Ends _ _ _ (fail_ex-Ends err_tls_cert stage_tcp_tls _ s refl refl r) handshake)

  after_create-Ends :
      (status : Status) (s : Session Rc4) → IsRunning s → Ends (after_create answers status s)
  unfolding after_create error_code_valid stage_valid
  after_create-Ends status s r =
      if-Ends _ _ _ (after_handshake-Ends _ s r)
        (fail_ex-Ends err_http_upgrade stage_http_upgrade _ s refl refl r)

  upgrade-Ends : (status : Status) (s : Session Rc4) → IsRunning s → Ends (upgrade answers status s)
  unfolding upgrade stage_valid
  upgrade-Ends status s r =
      if-Ends _ _ _ (after_create-Ends _ _ (set_stage-IsRunning stage_http_upgrade s refl r))
        (returned-Ends okay s r)

  secured-Ends : (s : Session Rc4) → IsRunning s → Ends (secured answers s)
  unfolding secured
  secured-Ends s r =
      if-Ends _ _ _ (bind-Ends _ _ (evaluate_system_trust-Ends answers.trust s r) upgrade-Ends)
        (upgrade-Ends okay s r)

  pub tls_connected-Ends :
      (status : Status) (s : Session Rc4) → IsRunning s → Ends (tls_connected answers status s)
  unfolding tls_connected error_code_valid stage_valid
  tls_connected-Ends status s r =
      if-Ends _ _ _ (fail_ex-Ends err_tcp_timeout stage_tcp_tls _ s refl refl r)
        (if-Ends _ _ _ (secured-Ends s r) (not_connected-Ends s r))
