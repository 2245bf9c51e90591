-- ===== src/Ios/Connect.antt =====
-- sstp/sstp-ios.c: what follows the TLS handshake, `ios_connected`, and the HTTP handshake,
-- `ios_http_done`.
use sstp_client_i_os.Base.{
  codes, ℕ, Bool, true, false, ◌&&◌, ◌||◌, not, Option, none, some, List, [], ◌∷◌, ◌++◌, Status,
  okay, fail, inprog, connected, timeout, is, take, if◌then◌else◌, ◌==◌,
}
use sstp_client_i_os.State.{Created, whole, null, partial, state_create, mode_client}
use sstp_client_i_os.State.Calls.{state_start}
use sstp_client_i_os.Ios.{
  said, Session, Flow, fault, returned, ◌>=>◌, set_stage, fail_ex, tls_system, tls_pinned,
  tls_insecure_debug,
}
use sstp_client_i_os.Ios.Errors.{
  err_http_upgrade, err_tls_cert, err_sstp_control, err_tcp_timeout, err_tls_handshake,
  stage_http_upgrade, stage_tcp_tls, stage_sstp_control,
}
use sstp_client_i_os.Ios.Link.{Parts, run_machine}
use sstp_client_i_os.Ios.Pin.{print_hex, case_same}
use sstp_client_i_os.Ios.Trust.{Trust, evaluate_system_trust}

-- What the parts around the session answer.
pub record Answers (Cert : Type 0) : Type 0 where
  -- `sstp_stream_verify_result`, and `X509_verify_cert_error_string`
  pub verify_result : ℕ
  pub error_string : ℕ → List ℕ
  pub trust : Trust Cert
  pub http_create : Status
  pub http_handshake : Status
  -- `sstp_verify_cert` of the chain and the name
  pub verify_cert : Status
  -- the SHA-256 digest of the server's certificate, if `sstp_get_cert_hash` gives one
  pub cert_hash : Option (List ℕ)
  -- whether the three allocations of `sstp_state_create` find memory
  pub memory : Bool
  pub memory_tx : Bool
  pub memory_rx : Bool

-- X509_V_OK and X509_V_ERR_INVALID_CALL
abbrev pub v_ok : ℕ
v_ok = 0

abbrev pub v_err_invalid_call : ℕ
v_err_invalid_call = 69

-- Whether the first character of a string is not its end.
abbrev pub given : List ℕ → Bool
given [] = false
given (c ∷ cs) = true

module _ {Rc4 : Type 0} where
  -- The end of `ios_http_done`, with the result of `sstp_state_start`.
  unfoldable pub after_start : Status → Session Rc4 → Flow (Session Rc4)
  after_start status s =
      if is fail status
      then fail_ex err_sstp_control stage_sstp_control
          (some (said (codes "Could not start SSTP state machine"))) s
      else returned okay s

module _ {Cert Rc4 : Type 0} (answers : Answers Cert) (parts : Parts Rc4) where
  -- `sstp_state_start` of what `sstp_state_create` made. Without memory it goes through NULL.
  unfoldable pub start_call : Created → Session Rc4 → Flow (Session Rc4)
  start_call null s = fault
  start_call (partial tx) s = fault
  start_call (whole ctx) s =
      run_machine (state_start parts.env) (record s { state = some ctx }) >=> after_start

  -- From the stage "sstp_control" on.
  unfoldable pub control : Session Rc4 → Flow (Session Rc4)
  control s =
      let shown = set_stage stage_sstp_control s in
      let (status, made) =
        state_create answers.memory answers.memory_tx answers.memory_rx mode_client in
      if is okay status
      then start_call made shown
      else fail_ex err_sstp_control stage_sstp_control
          (some (said (codes "Could not create SSTP state machine"))) shown

  -- The comparison with the pin, of the digest that is there.
  unfoldable pub check_pin : Option (List ℕ) → Session Rc4 → Flow (Session Rc4)
  check_pin none s =
      fail_ex err_tls_cert stage_tcp_tls
        (some (said (codes "Could not hash server certificate for pin check"))) s
  check_pin (some digest) s =
      if case_same (print_hex digest) s.pin
      then control s
      else fail_ex err_tls_cert stage_tcp_tls
          (some (said (codes "Server certificate pin mismatch"))) s

  -- What follows `sstp_verify_cert`.
  unfoldable pub after_verify : Status → Session Rc4 → Flow (Session Rc4)
  after_verify status s =
      let go_on =
        (if (s.tls_mode == tls_pinned) && given s.pin
          then check_pin answers.cert_hash s
          else control s) in
      if is okay status
      then go_on
      else fail_ex err_tls_cert stage_tcp_tls
          (some (said (codes "Server certificate verification failed (chain or hostname)"))) s

  -- `ios_http_done`
  unfoldable pub http_done : Status → Session Rc4 → Flow (Session Rc4)
  http_done status s =
      let trusted = (s.tls_mode == tls_system) || (s.tls_mode == tls_insecure_debug) in
      if is okay status
      then (if trusted then control s else after_verify answers.verify_cert s)
      else if is timeout status
      then fail_ex err_http_upgrade stage_http_upgrade
          (some (said (codes "HTTP SSTP upgrade timed out"))) s
      else fail_ex err_http_upgrade stage_http_upgrade
          (some (said (codes "HTTP handshake with SSTP server failed"))) s

module _ {Cert Rc4 : Type 0} (answers : Answers Cert) where
  -- A TLS handshake that failed.
  unfoldable pub not_connected : Session Rc4 → Flow (Session Rc4)
  not_connected s =
      let vr = answers.verify_result in
      let handshake =
        fail_ex err_tls_handshake stage_tcp_tls
          (some (said (codes "Could not complete TLS handshake with SSTP server"))) s in
      let text = codes "Server certificate verification failed: " ++ answers.error_string vr in
      if s.tls_mode == tls_system
      then handshake
      else if not (vr == v_ok) && not (vr == v_err_invalid_call)
      then fail_ex err_tls_cert stage_tcp_tls (some (said (take 191 text))) s
      else handshake

  -- The end of `ios_connected`, with the result of `sstp_http_handshake`.
  unfoldable pub after_handshake : Status → Session Rc4 → Flow (Session Rc4)
  after_handshake status s =
      if is okay status || is inprog status
      then returned okay s
      else fail_ex err_http_upgrade stage_http_upgrade
          (some (said (codes "Could not start HTTP handshake"))) s

  -- What follows `sstp_http_create`.
  unfoldable pub after_create : Status → Session Rc4 → Flow (Session Rc4)
  after_create status s =
      if is okay status
      then after_handshake answers.http_handshake s
      else fail_ex err_http_upgrade stage_http_upgrade
          (some (said (codes "Could not create HTTP context"))) s

  -- What follows the evaluation of the certificates.
  unfoldable pub upgrade : Status → Session Rc4 → Flow (Session Rc4)
  upgrade status s =
      if is okay status
      then after_create answers.http_create (set_stage stage_http_upgrade s)
      else returned okay s

  -- A TLS handshake that succeeded.
  unfoldable pub secured : Session Rc4 → Flow (Session Rc4)
  secured s =
      if s.tls_mode == tls_system
      then (evaluate_system_trust answers.trust s >=> upgrade)
      else upgrade okay s

  -- `ios_connected`
  unfoldable pub tls_connected : Status → Session Rc4 → Flow (Session Rc4)
  tls_connected status s =
      if is timeout status
      then fail_ex err_tcp_timeout stage_tcp_tls (some (said (codes "TCP/TLS connect timed out"))) s
      else if is connected status
      then secured s
      else not_connected s
