-- ===== src/Ios/Start.antt =====
-- sstp/sstp-ios.c: `sstp_ios_session_start_ex` and `ios_init_ssl`. Of a string that may be NULL or
-- empty, the code asks for both at once: it is empty here.
use sstp_client_i_os.Base.{
  codes, ℕ, Bool, true, false, ◌||◌, ◌&&◌, not, Option, none, some, List, [], ◌∷◌, ◌++◌, Status,
  okay, fail, inprog, is, map, take, if◌then◌else◌, ◌==◌, ◌>>=◌,
}
use sstp_client_i_os.Url.{Libc, url_parse}
use sstp_client_i_os.Ios.{
  said, Session, Flow, returned, ◌>=>◌, set_stage, fail_ex, tls_custom_ca, tls_pinned,
  tls_insecure_debug, tls_system,
}
use sstp_client_i_os.Ios.Errors.{
  err_internal, err_tls_handshake, err_dns_resolve, err_tcp_timeout, stage_idle, stage_tcp_tls,
  stage_resolving,
}
use sstp_client_i_os.Ios.Pin.{to_lower}
use sstp_client_i_os.Ios.Connect.{given}

-- `sstp_ios_start_params_t`; the first three may be NULL.
pub record Params : Type 0 where
  pub server : Option (List ℕ)
  pub username : Option (List ℕ)
  pub password : Option (List ℕ)
  pub server_host : List ℕ
  pub server_port : List ℕ
  pub tls_mode : ℕ
  pub ca_pem : List ℕ
  pub pin_sha256_hex : List ℕ

-- What the parts around the session answer.
pub record Resources : Type 0 where
  pub libc : Libc
  -- whether there is memory for the certificate of the CA, and for a URL
  pub ca_memory : Bool
  pub url_memory : Bool
  -- `event_base_new`, the two pairs of sockets, and their events
  pub event_base : Bool
  pub inject_pair : Bool
  pub stop_pair : Bool
  pub events : Bool
  -- whether this is a release build
  pub release : Bool
  -- `SSL_CTX_new`, and `ios_load_custom_ca`
  pub ssl_ctx : Bool
  pub load_custom_ca : List ℕ → Bool
  -- `ios_lookup` of a host and a port
  pub lookup : List ℕ → List ℕ → Bool
  pub stream_create : Status
  pub stream_connect : Status

-- The text of the URL: "https://%s:%s/" or "https://%s/", cut to 511 characters.
unfoldable pub url_text : List ℕ → List ℕ → List ℕ → List ℕ
url_text server host port =
    let both = host ++ b':' ∷ (port ++ b'/' ∷ []) in
    let one = (if given host then host else server) ++ b'/' ∷ [] in
    take 511 (codes "https://" ++ (if given host && given port then both else one))

-- The host and the port to connect to; without memory for the fallback there are none.
unfoldable pub endpoint : Resources → List ℕ → Params → Option (List ℕ × List ℕ)
endpoint resources server params =
    let host = (if given params.server_host then params.server_host else server) in
    let port = (if given params.server_port then params.server_port else codes "443") in
    let url = url_parse resources.libc (url_text server params.server_host params.server_port) in
    elim url as (λ o. Option (List ℕ × List ℕ)) [
      | none ↦ if resources.url_memory then some (host, port) else none
      | some u ↦ some (u.host, elim u.port as (λ o. List ℕ) [ none ↦ codes "443" | some p ↦ p ])
    ]

module _ {Rc4 : Type 0} where
  -- The session when its fields have been cleared, with the mode of TLS.
  unfoldable pub reset : Params → Session Rc4 → Session Rc4
  reset params s = record s {
    failed = false;
    ready = false;
    fail_code = [];
    fail_msg = none;
    tls_mode = params.tls_mode;
    pin = [];
    ev_base = false;
    breaking = false;
    user = [];
    password = [];
    state = none;
    pppd = none;
  }

  -- The pin in lower case, and the options of the client.
  unfoldable pub fill : Params → List ℕ → List ℕ → Session Rc4 → Session Rc4
  fill params user password s = record s {
    pin = map to_lower (take 64 params.pin_sha256_hex);
    user = user;
    password = password;
  }

  -- A failure of `sstp_ios_session_start_ex`, and its result -1.
  unfoldable pub give_up : List ℕ → List ℕ → List ℕ → Session Rc4 → Flow (Session Rc4)
  give_up code name msg s = fail_ex code name (some (said msg)) s >=> λ ret s. returned fail s

module _ {Rc4 : Type 0} (resources : Resources) where
  -- `ios_init_ssl`, with the certificate of the CA
  unfoldable pub init_ssl : List ℕ → Session Rc4 → Status
  init_ssl ca_pem s =
      let mode = s.tls_mode in
      let custom = (if resources.load_custom_ca ca_pem then okay else fail) in
      if not resources.ssl_ctx || ((mode == tls_insecure_debug) && resources.release)
      then fail
      else if mode == tls_insecure_debug
      then okay
      else if mode == tls_custom_ca
      then custom
      else if (mode == tls_pinned) && not (given s.pin)
      then fail
      else okay

  -- From the stage "tcp_tls" on.
  unfoldable pub start_stream : Session Rc4 → Flow (Session Rc4)
  start_stream s =
      let connecting = is okay resources.stream_connect || is inprog resources.stream_connect in
      if is okay resources.stream_create
      then (if connecting
          then returned okay s
          else give_up err_tcp_timeout stage_tcp_tls (codes "Could not start TCP/TLS connect") s)
      else give_up err_tls_handshake stage_tcp_tls (codes "Could not create SSL stream") s

  -- From the stage "resolving" on.
  unfoldable pub resolve : List ℕ → List ℕ → Session Rc4 → Flow (Session Rc4)
  resolve host port s =
      if resources.lookup host port
      then start_stream (set_stage stage_tcp_tls s)
      else give_up err_dns_resolve stage_resolving (codes "Could not resolve SSTP server") s

  -- From `ios_init_ssl` on.
  unfoldable pub secure : List ℕ → List ℕ → List ℕ → Session Rc4 → Flow (Session Rc4)
  secure ca_pem host port s =
      if is okay (init_ssl ca_pem s)
      then resolve host port (set_stage stage_resolving s)
      else give_up err_tls_handshake stage_tcp_tls (codes "Could not initialize SSL") s

  -- From `event_base_new` on.
  unfoldable pub prepare : List ℕ → List ℕ → List ℕ → Session Rc4 → Flow (Session Rc4)
  prepare ca_pem host port s =
      let s' = record s { ev_base = true } in
      if not resources.event_base
      then give_up err_internal stage_idle (codes "Could not create event base") s
      else if not resources.inject_pair
      then give_up err_internal stage_idle (codes "Could not create inject pipe") s'
      else if not resources.stop_pair
      then give_up err_internal stage_idle (codes "Could not create stop pipe") s'
      else if not resources.events
      then give_up err_internal stage_idle (codes "Could not create inject/stop events") s'
      else secure ca_pem host port s'

  -- From the URL on.
  unfoldable pub start_at : Params → Option (List ℕ × List ℕ) → Session Rc4 → Flow (Session Rc4)
  start_at params none s = returned fail s
  start_at params (some (host, port)) s = prepare params.ca_pem host port s

  -- What follows the check of the parameters.
  unfoldable pub begun :
      Params → Session Rc4 → Option (List ℕ × List ℕ × List ℕ) → Flow (Session Rc4)
  begun params s none = returned fail s
  begun params s (some (server, username, password)) =
      let r = reset params s in
      if given params.ca_pem && not resources.ca_memory
      then returned fail r
      else start_at params (endpoint resources server params) (fill params username password r)

  -- `sstp_ios_session_start_ex`, with `okay` for 0 and `fail` for -1.
  unfoldable pub session_start_ex : Params → Session Rc4 → Flow (Session Rc4)
  session_start_ex params s =
      let begin : Option (List ℕ × List ℕ × List ℕ) = (do
        server ← params.server
        username ← params.username
        password ← params.password
        some (server, username, password)) in
      begun params s begin

  -- `sstp_ios_session_start`
  unfoldable pub session_start : List ℕ → List ℕ → List ℕ → Session Rc4 → Flow (Session Rc4)
  session_start server username password s =
      session_start_ex
        record {
          server = some server;
          username = some username;
          password = some password;
          server_host = [];
          server_port = [];
          tls_mode = tls_system;
          ca_pem = [];
          pin_sha256_hex = [];
        }
        s
