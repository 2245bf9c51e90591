-- ===== src/Ios/Trust.antt =====
-- sstp/sstp-ios.c: `ios_evaluate_system_trust`, which hands the certificates of the server to iOS. A
-- certificate is a value of `Cert`; what OpenSSL and SecTrust say of it are parameters.
use sstp_client_i_os.Base.{
  codes, ℕ, Bool, Option, none, some, List, [], ◌∷◌, ◌++◌, okay, fail, if◌then◌else◌,
}
use sstp_client_i_os.Ios.{said, Session, Flow, returned, ◌>=>◌, fail_ex}
use sstp_client_i_os.Ios.Errors.{err_tls_cert, err_internal, stage_tcp_tls}

-- What the connection and the two libraries answer.
pub record Trust (Cert : Type 0) : Type 0 where
  -- whether there is an SSL session
  pub ssl : Bool
  -- `SSL_get_peer_certificate`, and `SSL_get_peer_cert_chain` with its NULL entries
  pub leaf : Option Cert
  pub chain : Option (List (Option Cert))
  -- whether `calloc` finds memory for the two arrays
  pub memory : Bool
  -- `ios_x509_to_der`, where `none` is -1
  pub der : Cert → Option (List ℕ)
  -- `X509_cmp(a, b) == 0`
  pub same : Cert → Cert → Bool
  -- `sstp_ios_sec_trust_evaluate` of the encoded certificates: `none` is 0, and else the text that it
  -- writes
  pub evaluate : List (List ℕ) → Option (List ℕ)

module _ {Cert : Type 0} (trust : Trust Cert) where
  -- The loop over the chain: the encoded certificates behind those so far, or a failure to encode.
  unfoldable pub add_chain : Cert → List (Option Cert) → List (List ℕ) → Option (List (List ℕ))
  add_chain leaf [] ders = some ders
  add_chain leaf (none ∷ rest) ders = add_chain leaf rest ders
  add_chain leaf (some cert ∷ rest) ders =
      let skipped = add_chain leaf rest ders in
      let added : Option (List (List ℕ)) = elim (trust.der cert) [
        | none ↦ none
        | some bytes ↦ add_chain leaf rest (ders ++ bytes ∷ [])
      ] in
      if trust.same cert leaf then skipped else added

-- The text of a refusal.
abbrev pub or_rejected : List ℕ → List ℕ
or_rejected [] = codes "iOS system trust rejected server certificate"
or_rejected (c ∷ cs) = c ∷ cs

abbrev pub or_empty {ℓ} : {A : Type ℓ} → Option (List A) → List A
or_empty none = []
or_empty (some xs) = xs

module _ {Rc4 : Type 0} where
  -- A failure of `ios_evaluate_system_trust`, and its result -1.
  unfoldable pub refuse : List ℕ → List ℕ → Session Rc4 → Flow (Session Rc4)
  refuse code msg s = fail_ex code stage_tcp_tls (some (said msg)) s >=> λ ret s. returned fail s

  -- What `sstp_ios_sec_trust_evaluate` decides.
  unfoldable pub decide : Option (List ℕ) → Session Rc4 → Flow (Session Rc4)
  decide none s = returned okay s
  decide (some msg) s = refuse err_tls_cert (or_rejected msg) s

module _ {Cert Rc4 : Type 0} (trust : Trust Cert) where
  -- From the encoded chain on.
  unfoldable pub evaluate_ders : Option (List (List ℕ)) → Session Rc4 → Flow (Session Rc4)
  evaluate_ders none s = refuse err_tls_cert (codes "Could not encode intermediate certificate") s
  evaluate_ders (some ders) s = decide (trust.evaluate ders) s

  -- From the encoded leaf on.
  unfoldable pub evaluate_chain : Cert → Option (List ℕ) → Session Rc4 → Flow (Session Rc4)
  evaluate_chain leaf none s = refuse err_tls_cert (codes "Could not encode peer certificate") s
  evaluate_chain leaf (some bytes) s =
      evaluate_ders (add_chain trust leaf (or_empty trust.chain) (bytes ∷ [])) s

  -- From the certificate of the server on.
  unfoldable pub evaluate_leaf : Option Cert → Session Rc4 → Flow (Session Rc4)
  evaluate_leaf none s = refuse err_tls_cert (codes "Server did not present a certificate") s
  evaluate_leaf (some leaf) s =
      if trust.memory
      then evaluate_chain leaf (trust.der leaf) s
      else refuse err_internal (codes "Out of memory building certificate chain") s

  -- `ios_evaluate_system_trust`, with `okay` for 0 and `fail` for -1.
  unfoldable pub evaluate_system_trust : Session Rc4 → Flow (Session Rc4)
  evaluate_system_trust s =
      if trust.ssl
      then evaluate_leaf trust.leaf s
      else refuse err_tls_cert (codes "No SSL session for system trust evaluation") s
