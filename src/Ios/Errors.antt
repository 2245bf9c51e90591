-- ===== src/Ios/Errors.antt =====
-- sstp/sstp-ios-error.h and sstp/sstp-ios-error.c: the stages and the error codes that the engine
-- shares with the tunnel and the application. A string is the list of its characters, and `none` is
-- NULL.
use sstp_client_i_os.Base.{
  codes, ℕ, Bool, true, false, ◌&&◌, ◌||◌, Option, none, some, List, [], ◌∷◌, ◌==◌,
}

-- `strcmp(a, b) == 0`
unfoldable pub str_same : List ℕ → List ℕ → Bool
str_same [] [] = true
str_same [] (d ∷ ds) = false
str_same (c ∷ cs) [] = false
str_same (c ∷ cs) (d ∷ ds) = (c == d) && str_same cs ds

-- The stages of the life of a session.
abbrev pub stage_idle : List ℕ
stage_idle = codes "idle"

abbrev pub stage_resolving : List ℕ
stage_resolving = codes "resolving"

abbrev pub stage_tcp_tls : List ℕ
stage_tcp_tls = codes "tcp_tls"

abbrev pub stage_http_upgrade : List ℕ
stage_http_upgrade = codes "http_upgrade"

abbrev pub stage_sstp_control : List ℕ
stage_sstp_control = codes "sstp_control"

abbrev pub stage_ppp_lcp : List ℕ
stage_ppp_lcp = codes "ppp_lcp"

abbrev pub stage_ppp_auth : List ℕ
stage_ppp_auth = codes "ppp_auth"

abbrev pub stage_ppp_ipcp : List ℕ
stage_ppp_ipcp = codes "ppp_ipcp"

abbrev pub stage_ppp_mppe : List ℕ
stage_ppp_mppe = codes "ppp_mppe"

abbrev pub stage_applying_settings : List ℕ
stage_applying_settings = codes "applying_settings"

abbrev pub stage_connected : List ℕ
stage_connected = codes "connected"

abbrev pub stage_disconnecting : List ℕ
stage_disconnecting = codes "disconnecting"

abbrev pub stage_reconnecting : List ℕ
stage_reconnecting = codes "reconnecting"

abbrev pub stage_error : List ℕ
stage_error = codes "error"

-- The error codes.
abbrev pub err_dns_resolve : List ℕ
err_dns_resolve = codes "dns_resolve"

abbrev pub err_tcp_timeout : List ℕ
err_tcp_timeout = codes "tcp_timeout"

abbrev pub err_tls_handshake : List ℕ
err_tls_handshake = codes "tls_handshake"

abbrev pub err_tls_cert : List ℕ
err_tls_cert = codes "tls_cert"

abbrev pub err_http_upgrade : List ℕ
err_http_upgrade = codes "http_upgrade"

abbrev pub err_sstp_control : List ℕ
err_sstp_control = codes "sstp_control"

abbrev pub err_auth_rejected : List ℕ
err_auth_rejected = codes "auth_rejected"

abbrev pub err_ipcp_failed : List ℕ
err_ipcp_failed = codes "ipcp_failed"

abbrev pub err_crypto_binding : List ℕ
err_crypto_binding = codes "crypto_binding"

abbrev pub err_mppe_failed : List ℕ
err_mppe_failed = codes "mppe_failed"

abbrev pub err_network_lost : List ℕ
err_network_lost = codes "network_lost"

abbrev pub err_missing_credentials : List ℕ
err_missing_credentials = codes "missing_credentials"

abbrev pub err_cancelled : List ℕ
err_cancelled = codes "cancelled"

abbrev pub err_internal : List ℕ
err_internal = codes "internal"

-- The loop over a table of strings.
unfoldable pub listed : List ℕ → List (List ℕ) → Bool
unfolding str_same
listed word [] = false
listed word (known ∷ rest) = str_same word known || listed word rest

-- `sstp_ios_error_is_fatal`
unfoldable pub error_is_fatal : Option (List ℕ) → Bool
unfolding listed
error_is_fatal none = false
error_is_fatal (some []) = false
error_is_fatal (some (c ∷ cs)) = listed (c ∷ cs) (
    err_auth_rejected ∷ err_missing_credentials ∷ err_tls_cert ∷ err_cancelled ∷ err_crypto_binding
    ∷ [])

-- `sstp_ios_error_code_valid`
unfoldable pub error_code_valid : Option (List ℕ) → Bool
unfolding listed
error_code_valid none = false
error_code_valid (some word) = listed word (
    err_dns_resolve ∷ err_tcp_timeout ∷ err_tls_handshake ∷ err_tls_cert ∷ err_http_upgrade
    ∷ err_sstp_control ∷ err_auth_rejected ∷ err_ipcp_failed ∷ err_crypto_binding ∷ err_mppe_failed
    ∷ err_network_lost ∷ err_missing_credentials ∷ err_cancelled ∷ err_internal ∷ [])

-- `sstp_ios_stage_valid`
unfoldable pub stage_valid : Option (List ℕ) → Bool
unfolding listed
stage_valid none = false
stage_valid (some word) = listed word (
    stage_idle ∷ stage_resolving ∷ stage_tcp_tls ∷ stage_http_upgrade ∷ stage_sstp_control
    ∷ stage_ppp_lcp ∷ stage_ppp_auth ∷ stage_ppp_ipcp ∷ stage_ppp_mppe ∷ stage_applying_settings
    ∷ stage_connected ∷ stage_disconnecting ∷ stage_reconnecting ∷ stage_error ∷ [])
