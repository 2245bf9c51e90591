-- ===== src/Http/Proxy.antt =====
-- The rest of sstp/sstp-http.c: the request to a proxy and its response, and what the handshake does
-- when its request was sent. The base64 encoder of OpenSSL is a parameter: what EVP_EncodeUpdate and
-- EVP_EncodeFinal give for a sequence of pieces.
use sstp_client_i_os.Base.{ℕ, Bool, false, ◌&&◌}
use sstp_client_i_os.Base.{
  Option, none, some, List, [], ◌∷◌, ◌++◌, length, take, ltb, ◌==◌, if◌then◌else◌, ◌>>=◌, codes, is,
  Status, okay, fail, inprog, notimpl, authenticate,
}
use sstp_client_i_os.Buff.{Buff, buff_reset, buff_create, buff_print}
use sstp_client_i_os.Http.{Header, hello, http_get, http_get_header, print_then, crlf, lower}

-- `struct sstp_http`; `client` is the mode SSTP_MODE_CLIENT.
pub record Context : Type 0 where
  pub server : List ℕ
  pub buf : Buff
  pub client : Bool
  pub credentials : Option (List ℕ × List ℕ)
  pub uuid : List ℕ

-- `sstp_http_create`: `calloc` of the context and of the buffer answers by `memory`, and `guid` is
-- what `sstp_get_guid` stores.
unfoldable pub create : Bool → Bool → List ℕ → Bool → List ℕ → Status × Option Context
unfolding buff_create
create memory for_buffer server client guid =
    let with_buffer = λ (buf : Buff).
      let http : Context = record {
        server = server;
        buf = buf;
        client = client;
        credentials = none;
        uuid = guid;
      } in
      http in
    let made : Status × Option Context = elim ((buff_create for_buffer 8192).1) [
      | none ↦ (fail, none)
      | some buf ↦ (okay, some (with_buffer buf))
    ] in
    if memory then made else (fail, none)

abbrev pub setcreds : Context → List ℕ → List ℕ → Context
setcreds http user pass = record http { credentials = some (user, pass) }

-- `strncpy` into 64 bytes, which ends a longer text by no zero.
abbrev pub setuuid : Context → List ℕ → Context
setuuid http uuid = record http { uuid = take 64 uuid }

-- What comes of an event: the layer above is told, or the response is waited for.
pub data Next : Type 0 where
  done : Status → Next
  receiving : Next

-- `sstp_http_send_complete` and `sstp_http_send_proxy_complete`
abbrev pub when_sent : Status → Next
when_sent result = if is result okay then receiving else done fail

-- The end of `sstp_http_send_hello`, with the result of `sstp_stream_send`.
abbrev pub after_send : Status → Status × Option Next
after_send ret = if is ret okay then (inprog, some (when_sent okay)) else (ret, none)

-- `sstp_http_handshake`
unfoldable pub handshake : (Buff → Status) → Context → Option (Status × Buff × Option Next)
unfolding hello
handshake send http =
    let opened = (do
      (status, buf) ← hello http.server http.uuid http.buf
      let (ret, next) = after_send (send buf)
      some (if is status okay then (ret, buf, next) else (status, buf, none))) in
    if http.client then opened else some (notimpl, http.buf, none)

-- SSTP_HTTP_PROXY_CONNECT_FMT. It has two places for texts: the server and the agent.
abbrev pub connect_text : List ℕ → List ℕ → List ℕ
connect_text server agent =
    codes "CONNECT "
    ++ (server
        ++ (codes ":443 HTTP/1.1\r\nSSTPVERSION: 1.0\r\nConnection: keep-alive\r\nUser-Agent: "
            ++ (agent ++ crlf)))

-- `sstp_proxy_basicauth`: the encoder writes a zero, too, into the 255 bytes of `out`; `buf` has 512.
unfoldable pub basicauth : (List (List ℕ) → List ℕ) → List ℕ → List ℕ → Option (List ℕ)
basicauth evp user pass =
    let out = evp (user ∷ codes ":" ∷ pass ∷ []) in
    if ltb (length out) 255 then some (take 511 (codes "Basic " ++ out)) else none

-- SSTP_HTTP_PROXY_AUTH_FMT
abbrev pub auth_field : List ℕ
auth_field = codes "Proxy-Authorization: "

-- `if (http->user && http->pass)`
unfoldable pub credentials_line :
    (List (List ℕ) → List ℕ) → Option (List ℕ × List ℕ) → Buff → Option (Status × Buff)
unfolding basicauth buff_print
credentials_line evp none buf = some (okay, buf)
credentials_line evp (some (user, pass)) buf = do
  auth ← basicauth evp user pass
  buff_print buf (auth_field ++ auth)

-- `sstp_http_proxy` up to the call of `sstp_stream_send_plain`, which is made when the result is
-- okay. The format is given the server only: `absent` is the text that is found where the agent
-- would be, if the read of the argument that is missing, which C leaves undefined, finds one at all.
unfoldable pub proxy : (List (List ℕ) → List ℕ) → Option (List ℕ) → Context → Option (Status × Buff)
unfolding credentials_line buff_print buff_reset
proxy evp absent http = do
  agent ← absent
  print_then (buff_print (buff_reset http.buf) (connect_text http.server agent))
      λ buf. print_then (credentials_line evp http.credentials buf) λ buf. buff_print buf crlf

-- The end of `sstp_http_proxy`, with the result of `sstp_stream_send_plain`.
abbrev pub after_send_plain : Status → Status × Option Next
after_send_plain ret = if is ret okay then (okay, some receiving) else (ret, none)

-- `strncasecmp` of a text and "Basic" over five characters, whether it is 0
abbrev pub is_basic : List ℕ → Bool
is_basic (a ∷ b ∷ c ∷ d ∷ e ∷ rest) =
    (lower a == b'b')
    && ((lower b == b'a') && ((lower c == b's') && ((lower d == b'i') && (lower e == b'c'))))
is_basic _ = false

module _ (sscanf : List ℕ → List (List ℕ)) (strtoul : List ℕ → ℕ × Bool) where
  -- `case 407`, where the header is read without a test for NULL
  unfoldable pub wants_login : List Header → Option Status
  unfolding http_get_header
  wants_login headers = do
    entry ← http_get_header (codes "Proxy-Authenticate") headers
    some (if is_basic entry.value then authenticate else fail)

  -- `switch (code)`
  unfoldable pub by_code : ℕ → List Header → Option Status
  unfolding wants_login
  by_code code headers =
      let other = if code == 407 then wants_login headers else some fail in
      if code == 200 then some okay else other

  -- `sstp_recv_proxy_complete`: what is handed to `done_cb`; `bytes` is the array of the buffer.
  unfoldable pub recv_proxy_complete : Status → List ℕ → Option Status
  unfolding http_get by_code
  recv_proxy_complete status bytes =
      let answered : Option Status = (do
        result ← http_get sscanf strtoul bytes 15
        elim result [ none ↦ some okay | some (code, headers) ↦ by_code code headers ]) in
      if is status okay then answered else some status
