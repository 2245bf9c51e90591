-- ===== src/Ios/Pinned.antt =====
-- What a certificate must pass before the session of sstp/sstp-ios.c starts the call.
use sstp_client_i_os.Base.{
  codes, ℕ, ◌≡◌, ap, sym, ◌∙◌, Bool, true, false, ◌&&◌, ◌||◌, Option, some, List, ◌∷◌, length, okay,
  is, if◌then◌else◌, ◌==◌, All, IsByte, arith,
}
use sstp_client_i_os.Ios.{Session, Flow, fail_ex, said, tls_pinned, tls_system, tls_insecure_debug}
use sstp_client_i_os.Ios.Errors.{err_tls_cert, stage_tcp_tls}
use sstp_client_i_os.Ios.Link.{Parts}
use sstp_client_i_os.Ios.Pin.{pin_matches, verify_callback}
use sstp_client_i_os.Ios.PinChecks.{case_same-pin_matches}
use sstp_client_i_os.Ios.Trust.{}
use sstp_client_i_os.Ios.Connect.{Answers, given, control, check_pin, after_verify, http_done}

untrusted :
    (mode : ℕ) → mode ≡ tls_pinned → ((mode == tls_system) || (mode == tls_insecure_debug)) ≡ false
untrusted mode e = ground arith

is_pinned :
    (mode : ℕ) (pin : List ℕ) (c : ℕ) (cs : List ℕ)
    → mode ≡ tls_pinned
    → pin ≡ c ∷ cs
    → ((mode == tls_pinned) && given pin) ≡ true
is_pinned mode pin c cs e has = ap (λ p. (mode == tls_pinned) && given p) has ∙ ground arith

module _ {Rc4 : Type 0} where
  verify_pinned :
      (s : Session Rc4) (preverify : Bool) (digest : Option (List ℕ))
      → s.tls_mode ≡ tls_pinned
      → verify_callback s preverify 0 (some digest) ≡ pin_matches digest s.pin
  unfolding verify_callback
  verify_pinned s preverify digest mode = ground arith

module _ {Cert Rc4 : Type 0} (answers : Answers Cert) (parts : Parts Rc4) where
  -- A failure with "tls_cert".
  abbrev pub bad_cert : List ℕ → Session Rc4 → Flow (Session Rc4)
  bad_cert msg s = fail_ex err_tls_cert stage_tcp_tls (some (said msg)) s

  module _ (s : Session Rc4) (digest : List ℕ) (bytes : All IsByte digest)
      (long : length digest ≡ 32) where
    -- In pinned mode with a pin, for a server whose certificate has this digest: behind a successful
    -- HTTP handshake the call is started exactly if the chain and the name verify and the callback of
    -- the TLS handshake accepts the leaf; otherwise the session fails with "tls_cert".
    pub http_done_pinned :
        (c : ℕ) (cs : List ℕ) (preverify : Bool)
        → s.pin ≡ c ∷ cs
        → s.tls_mode ≡ tls_pinned
        → answers.cert_hash ≡ some digest
        → http_done answers parts okay s ≡ (
            if is okay answers.verify_cert
            then (if verify_callback s preverify 0 (some (some digest))
                then control answers parts s
                else bad_cert (codes "Server certificate pin mismatch") s)
            else bad_cert (codes "Server certificate verification failed (chain or hostname)") s)
    unfolding http_done after_verify check_pin
    http_done_pinned c cs preverify has_pin mode has_hash =
        let vc : Bool = is okay answers.verify_cert in
        let go : Flow (Session Rc4) = control answers parts s in
        let bad : Flow (Session Rc4) =
          bad_cert (codes "Server certificate verification failed (chain or hostname)") s in
        let other : Flow (Session Rc4) = bad_cert (codes "Server certificate pin mismatch") s in
        ap (λ b. if b then go else after_verify answers parts answers.verify_cert s)
          (untrusted s.tls_mode mode)
        ∙ ap
            (λ b.
              if vc then (if b then check_pin answers parts answers.cert_hash s else go) else bad)
            (is_pinned s.tls_mode s.pin c cs mode has_pin)
        ∙ ap (λ o. if vc then check_pin answers parts o s else bad) has_hash
        ∙ ap (λ b. if vc then (if b then go else other) else bad)
            (case_same-pin_matches digest bytes long s.pin
              ∙ sym (verify_pinned s preverify (some digest) mode))
