-- ===== src/Http/Examples.antt =====
-- sstp/sstp-http.c and sstp_http_get at concrete inputs.
use sstp_client_i_os.Base.{
  Status, ℕ, ◌≡◌, refl, arith, Bool, false, Option, some, List, [], ◌∷◌, ◌++◌, replicate, okay,
  drop,
}
use sstp_client_i_os.Buff.{Buff}
use sstp_client_i_os.Buff.Laws.{IsValid, contents}
use sstp_client_i_os.Http.{Header, hello, newline, c_string}
use sstp_client_i_os.Base.{none, true, codes}
use sstp_client_i_os.Base.{write_bytes}
use sstp_client_i_os.Buff.{buff_print, buff_reset}
use sstp_client_i_os.Http.{same_name, get_entry}
use sstp_client_i_os.Http.Proxy.{Context, proxy, credentials_line, basicauth, recv_proxy_complete}
use sstp_client_i_os.Http.Request.{hello_text}

abbrev buffer : Buff
buffer = record { len = 0; max = 200; off = 0; bytes = replicate 200 0 }

buffer-IsValid : IsValid buffer
buffer-IsValid = record { sized = refl; within = omega arith; int = omega arith }

hello_text_example :
    (r : Status × Buff) × (hello (0x68 ∷ []) (0x31 ∷ 0x32 ∷ []) buffer ≡ some r)
    × (r.0 ≡ okay)
    × (contents (r.1)
        ≡ codes
            "SSTP_DUPLEX_POST /sra_{BA195980-CD49-458b-9E23-C84EE0ADCD75}/ HTTP/1.1\r\nHost: h\r\nContent-Length: 18446744073709551615\r\nSSTPCORRELATIONID: 12\r\n\r\n")
    × ((r.1).off ≡ 0)
hello_text_example = hello_text (0x68 ∷ []) (0x31 ∷ 0x32 ∷ []) buffer buffer-IsValid (omega arith)

-- A line "H 200", a header "A: b", and an empty line.
abbrev response : List ℕ
response =
    0x48 ∷ 0x20 ∷ 0x32 ∷ 0x30 ∷ 0x30 ∷ 0x0d ∷ 0x0a ∷ 0x41 ∷ 0x3a ∷ 0x20 ∷ 0x62 ∷ 0x0d ∷ 0x0a ∷ 0x0d
    ∷ 0x0a ∷ 0 ∷ []

abbrev header : Header
header = record { name = 0x41 ∷ []; value = 0x62 ∷ [] }

abbrev scan : List ℕ → List (List ℕ)
scan text = header.name ∷ header.value ∷ []

abbrev number : List ℕ → ℕ × Bool
number text = (200, false)

first_line : newline (c_string response) ≡ some (drop 6 (c_string response))
unfolding newline c_string
first_line = refl

-- An encoder that puts the pieces together, and a line end behind them.
abbrev plain : List (List ℕ) → List ℕ
plain [] = 0x0a ∷ []
plain (piece ∷ pieces) = piece ++ plain pieces

abbrev to_proxy : Context
to_proxy = record {
  server = codes "vpn.example";
  buf = record { len = 7; max = 400; off = 3; bytes = replicate 400 1 };
  client = true;
  credentials = some (codes "joe", codes "pw");
  uuid = [];
}

abbrev text_of : Option (Status × Buff) → Option (Status × List ℕ)
text_of none = none
text_of (some (status, buf)) = some (status, contents buf)

-- The request with the agent that the format wants, and the fault where none is found.
to_proxy_asked :
    text_of (proxy plain (some (codes "?")) to_proxy)
    ≡ some (
      okay,
      codes
          "CONNECT vpn.example:443 HTTP/1.1\r\nSSTPVERSION: 1.0\r\nConnection: keep-alive\r\nUser-Agent: ?\r\nProxy-Authorization: Basic joe:pw\n\r\n",
    )
unfolding proxy credentials_line basicauth buff_print buff_reset write_bytes
to_proxy_asked = refl

no_agent : proxy plain none to_proxy ≡ none
unfolding proxy
no_agent = refl

-- A response that is no line at all counts as a connection.
garbled : recv_proxy_complete scan number okay (0x48 ∷ 0 ∷ []) ≡ some okay
unfolding recv_proxy_complete c_string newline
garbled = refl

-- The proxy asks for a login, but not in its first field: a header that is not there is read.
no_login : recv_proxy_complete scan (λ text. (407, false)) okay response ≡ none
unfolding recv_proxy_complete c_string newline same_name
no_login = refl

-- A value of 128 characters is one too many for its array.
long_value :
    recv_proxy_complete (λ text. (0x41 ∷ []) ∷ replicate 128 0x62 ∷ []) number okay response ≡ none
unfolding recv_proxy_complete c_string newline get_entry
long_value = refl
