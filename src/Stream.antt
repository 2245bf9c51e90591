-- ===== src/Stream.antt =====
-- sstp/sstp-stream.c: what is read from the TLS connection. OpenSSL's SSL_read is a parameter, which
-- takes the state of the connection and the number of bytes that are asked for; a negative number is
-- 0 here. The integers of the buffer are below 2 ^ 31. A result `none` is an access outside of an
-- array.
pub mod Send
pub mod Receive
pub mod Http
pub mod Short
pub mod Sending
pub mod Examples
use sstp_client_i_os.Base.{
  ℕ, zero, suc, ◌+◌, ◌-◌, ◌^◌, Bool, true, false, not, ◌&&◌, Option, none, some,
}
use sstp_client_i_os.Base.{
  List, length, get_or, leb, ltb, ◌==◌, if◌then◌else◌, ◌>>=◌, write_bytes, Status, okay, fail,
  inprog,
}
use sstp_client_i_os.Buff.{Buff, buff_reset}
use sstp_client_i_os.Packet.{pkt_len}

-- What SSL_read and SSL_get_error answer: bytes, SSL_ERROR_WANT_READ, SSL_ERROR_WANT_WRITE, or any
-- other error.
pub data Read : Type 0 where
  got : List ℕ → Read
  want_read want_write broken : Read

-- The event that `sstp_operation_add_read` waits for.
pub data Wait : Type 0 where
  ev_read ev_write : Wait

-- What a function that receives leaves behind: its result, the buffer, the connection, and the event
-- that was added, if one was.
pub record Received (Ssl : Type 0) : Type 0 where
  pub status : Status
  pub buf : Buff
  pub ssl : Ssl
  pub armed : Option Wait

-- `sstp_http_header_complete`
unfoldable pub http_header_complete : Buff → Bool
http_header_complete buf =
    let at = λ (k : ℕ). get_or buf.bytes (buf.off - k) 0 in
    let crlf = (at 4 == 0x0d) && ((at 3 == 0x0a) && ((at 2 == 0x0d) && (at 1 == 0x0a))) in
    let newlines = (at 2 == 0x0a) && (at 1 == 0x0a) in
    if leb 4 buf.off && crlf then true else (leb 2 buf.off && newlines)

module _ {Ssl : Type 0} (ssl_read : Ssl → ℕ → Read × Ssl) where
  -- The bytes that SSL_read stores at `buf->off`.
  abbrev pub read_into : Buff → List ℕ → Option Buff
  read_into buf bytes = do
    mem ← write_bytes buf.bytes buf.off bytes
    some (record buf { off = buf.off + length bytes; bytes = mem })

  -- The number of bytes that `sstp_stream_recv_sstp` wants to have: the header, then the packet.
  abbrev pub wanted : Buff → Option ℕ
  wanted buf = if ltb buf.off 4 then some 4 else pkt_len buf

  abbrev pub leave : Status → Buff → Ssl → Option Wait → Received Ssl
  leave status buf ssl armed = record { status = status; buf = buf; ssl = ssl; armed = armed }

  -- The end of a round of `sstp_stream_recv_sstp`, with `more` for what comes next.
  abbrev pub after_read : (Buff → Option (Received Ssl)) → Ssl → Buff → Option (Received Ssl)
  after_read more ssl buf = do
    size ← pkt_len buf
    if ltb buf.off size then more buf else some (leave okay buf ssl none)

  -- The loop of `sstp_stream_recv_sstp`. Each round that goes on reads a byte or more.
  unfoldable pub recv_loop : ℕ → Ssl → Buff → Option (Received Ssl)
  unfolding pkt_len
  recv_loop zero ssl buf = none
  recv_loop (suc fuel) ssl buf = do
    len ← wanted buf
    let begun = record buf { len = len }
    let (answer, ssl) = ssl_read ssl (len - buf.off)
    let more = λ (buf : Buff). recv_loop fuel ssl buf
    elim answer [
      | got bytes ↦ read_into begun bytes >>= after_read more ssl
      | want_read ↦ some (leave inprog begun ssl (some ev_read))
      | want_write ↦ some (leave inprog begun ssl (some ev_write))
      | broken ↦ some (leave fail begun ssl none)
    ]

  -- `sstp_stream_recv_sstp`; a packet has at most 2 ^ 16 - 1 bytes, so that the rounds are enough.
  unfoldable pub recv_sstp : Ssl → Buff → Option (Received Ssl)
  unfolding recv_loop
  recv_sstp ssl buf = recv_loop (2 ^ 16) ssl buf

  -- The loop of `sstp_stream_recv_http`.
  unfoldable pub http_loop : ℕ → Ssl → Buff → Option (Received Ssl)
  unfolding http_header_complete
  http_loop zero ssl buf = none
  http_loop (suc fuel) ssl buf =
      let (answer, ssl) = ssl_read ssl (buf.max - buf.off) in
      let more = λ (buf : Buff). http_loop fuel ssl buf in
      let next = λ (buf : Buff).
        if http_header_complete buf then some (leave okay buf ssl none) else more buf in
      elim answer [
        | got bytes ↦ read_into buf bytes >>= next
        | want_read ↦ some (leave inprog buf ssl (some ev_read))
        | want_write ↦ some (leave inprog buf ssl (some ev_write))
        | broken ↦ some (leave fail buf ssl none)
      ]

  -- `sstp_stream_recv_http`; each round that goes on reads a byte or more into the buffer, so that
  -- the rounds are enough.
  unfoldable pub recv_http : Ssl → Buff → Option (Received Ssl)
  unfolding http_loop
  recv_http ssl buf = http_loop (suc buf.max) ssl buf
