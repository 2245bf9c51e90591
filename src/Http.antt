-- ===== src/Http.antt =====
-- sstp/sstp-http.c: the HTTP request that opens a connection, and the response to it. The text after
-- a format is written out as the list of its characters. What strtoul and sscanf read of a text are
-- parameters; sscanf gives the texts that it stores, one for each place of the format that it came to.
pub mod Request
pub mod Response
pub mod Proxy
pub mod ProxyText
pub mod Examples
use sstp_client_i_os.Base.{
  ℕ, zero, suc, ◌+◌, ◌-◌, ◌%◌, ◌^◌, Bool, true, false, not, ◌||◌, ◌&&◌, Option, none, some,
}
use sstp_client_i_os.Base.{
  List, [], ◌∷◌, ◌++◌, length, drop, get_or, ltb, leb, ◌==◌, if◌then◌else◌, ◌>>=◌, Status, okay,
  fail, inprog,
}
use sstp_client_i_os.Buff.{Buff, buff_reset, buff_print}

-- "SSTP_DUPLEX_POST %s HTTP/1.1\r\n" with SSTP_HTTP_DFLT_PATH
abbrev pub hello_line : List ℕ
hello_line =
    0x53 ∷ 0x53 ∷ 0x54 ∷ 0x50 ∷ 0x5f ∷ 0x44 ∷ 0x55 ∷ 0x50 ∷ 0x4c ∷ 0x45 ∷ 0x58 ∷ 0x5f ∷ 0x50 ∷ 0x4f
    ∷ 0x53 ∷ 0x54 ∷ 0x20 ∷ 0x2f ∷ 0x73 ∷ 0x72 ∷ 0x61 ∷ 0x5f ∷ 0x7b ∷ 0x42 ∷ 0x41 ∷ 0x31 ∷ 0x39
    ∷ 0x35 ∷ 0x39 ∷ 0x38 ∷ 0x30 ∷ 0x2d ∷ 0x43 ∷ 0x44 ∷ 0x34 ∷ 0x39 ∷ 0x2d ∷ 0x34 ∷ 0x35 ∷ 0x38
    ∷ 0x62 ∷ 0x2d ∷ 0x39 ∷ 0x45 ∷ 0x32 ∷ 0x33 ∷ 0x2d ∷ 0x43 ∷ 0x38 ∷ 0x34 ∷ 0x45 ∷ 0x45 ∷ 0x30
    ∷ 0x41 ∷ 0x44 ∷ 0x43 ∷ 0x44 ∷ 0x37 ∷ 0x35 ∷ 0x7d ∷ 0x2f ∷ 0x20 ∷ 0x48 ∷ 0x54 ∷ 0x54 ∷ 0x50
    ∷ 0x2f ∷ 0x31 ∷ 0x2e ∷ 0x31 ∷ 0xd ∷ 0xa ∷ []

-- "Host: "
abbrev pub host_field : List ℕ
host_field = 0x48 ∷ 0x6f ∷ 0x73 ∷ 0x74 ∷ 0x3a ∷ 0x20 ∷ []

-- "Content-Length: %llu\r\n" with -1ULL
abbrev pub length_line : List ℕ
length_line =
    0x43 ∷ 0x6f ∷ 0x6e ∷ 0x74 ∷ 0x65 ∷ 0x6e ∷ 0x74 ∷ 0x2d ∷ 0x4c ∷ 0x65 ∷ 0x6e ∷ 0x67 ∷ 0x74 ∷ 0x68
    ∷ 0x3a ∷ 0x20 ∷ 0x31 ∷ 0x38 ∷ 0x34 ∷ 0x34 ∷ 0x36 ∷ 0x37 ∷ 0x34 ∷ 0x34 ∷ 0x30 ∷ 0x37 ∷ 0x33
    ∷ 0x37 ∷ 0x30 ∷ 0x39 ∷ 0x35 ∷ 0x35 ∷ 0x31 ∷ 0x36 ∷ 0x31 ∷ 0x35 ∷ 0xd ∷ 0xa ∷ []

-- "SSTPCORRELATIONID: "
abbrev pub id_field : List ℕ
id_field =
    0x53 ∷ 0x53 ∷ 0x54 ∷ 0x50 ∷ 0x43 ∷ 0x4f ∷ 0x52 ∷ 0x52 ∷ 0x45 ∷ 0x4c ∷ 0x41 ∷ 0x54 ∷ 0x49 ∷ 0x4f
    ∷ 0x4e ∷ 0x49 ∷ 0x44 ∷ 0x3a ∷ 0x20 ∷ []

abbrev pub crlf : List ℕ
crlf = 0x0d ∷ 0x0a ∷ []

-- A call of `sstp_buff_print` that is followed by others, unless it fails.
abbrev pub print_then :
    Option (Status × Buff) → (Buff → Option (Status × Buff)) → Option (Status × Buff)
print_then printed more = do
  (status, buf) ← printed
  elim status [ okay ↦ more buf | other ↦ some (other, buf) ]

-- `sstp_http_send_hello` up to the call of `sstp_stream_send`, which is made when the result is okay.
unfoldable pub hello : List ℕ → List ℕ → Buff → Option (Status × Buff)
unfolding buff_print buff_reset
hello server uuid buf = print_then (buff_print (buff_reset buf) hello_line) λ buf.
    print_then (buff_print buf (host_field ++ (server ++ crlf))) λ buf.
      print_then (buff_print buf length_line)
        λ buf. buff_print buf (id_field ++ (uuid ++ (crlf ++ crlf)))

-- `http_header_st`
pub record Header : Type 0 where
  pub name : List ℕ
  pub value : List ℕ

-- `strchr` of a newline: the text from the first newline on.
unfoldable pub newline : List ℕ → Option (List ℕ)
newline [] = none
newline (c ∷ cs) = if c == 0x0a then some (c ∷ cs) else newline cs

-- The text in an array, up to the zero that ends it, or the end of the array.
unfoldable pub c_string : List ℕ → List ℕ
c_string [] = []
c_string (c ∷ cs) = if c == 0 then [] else c ∷ c_string cs

-- The condition of the loop in `sstp_http_get`, of the text at `ptr1`.
abbrev pub goes_on : List ℕ → Bool
goes_on text = let next = get_or text 1 0 in not (next == 0x0d) && not (next == 0x0a)

-- What comes of the texts that `sscanf` stores for the two places of its format: an entry if these
-- are two. A text that is longer than its array, `name` or `value`, is written behind it.
unfoldable pub get_entry : List (List ℕ) → Option (Option Header)
get_entry (name ∷ value ∷ []) =
    if ltb (length name) 32 && ltb (length value) 128
    then some (some (record { name = name; value = value }))
    else none
get_entry (name ∷ []) = if ltb (length name) 32 then some none else none
get_entry _ = some none

module _ (sscanf : List ℕ → List (List ℕ)) where
  -- The loop of `sstp_http_get`: `room` entries are left in the array, and `text` is at `ptr1`.
  unfoldable pub get_loop : ℕ → List ℕ → Option (List Header)
  unfolding newline get_entry
  get_loop zero text = some []
  get_loop (suc room) text = do
    entry ← get_entry (sscanf (drop 1 text))
    let go_on = λ (next : List ℕ). if goes_on next then get_loop room next else some []
    let others : Option (List Header) = elim (newline text) [
      | none ↦ some []
      | some next ↦ go_on next
    ]
    elim entry [ none ↦ some [] | some header ↦ (do headers ← others; some (header ∷ headers)) ]

  -- `sstp_http_get`: the code and the entries; `some none` is SSTP_FAIL. `strtoul` gives the number
  -- as an int, and whether errno is ERANGE.
  unfoldable pub http_get : (List ℕ → ℕ × Bool) → List ℕ → ℕ → Option (Option (ℕ × List Header))
  unfolding get_loop c_string
  http_get strtoul bytes count =
      let text = c_string bytes in
      let (code, erange) = strtoul (c_string (drop 9 bytes)) in
      let found =
        λ (first : List ℕ). (do headers ← get_loop count first; some (some (code, headers))) in
      let parsed : Option (Option (ℕ × List Header)) = elim (newline text) [
        | none ↦ some none
        | some first ↦ found first
      ] in
      if (code == 2 ^ 32 - 1) && erange then some none else parsed

  -- `sstp_recv_hello_complete`: what is handed to `done_cb`.
  unfoldable pub recv_hello_complete : (List ℕ → ℕ × Bool) → Status → List ℕ → Option Status
  unfolding http_get
  recv_hello_complete strtoul status bytes =
      let code_200 = λ (code : ℕ). if code == 200 then okay else fail in
      let upgraded : Option Status = (do
        result ← http_get strtoul bytes 32
        some (elim result [ none ↦ fail | some (code, headers) ↦ code_200 code ])) in
      elim status [ okay ↦ upgraded | other ↦ some other ]

-- A letter as `strcasecmp` compares it.
abbrev pub lower : ℕ → ℕ
lower c = if leb 0x41 c && leb c 0x5a then c + 32 else c

-- `strcasecmp` of two texts, whether it is 0
unfoldable pub same_name : List ℕ → List ℕ → Bool
same_name [] [] = true
same_name (a ∷ xs) (b ∷ ys) = (lower a == lower b) && same_name xs ys
same_name _ _ = false

-- `sstp_http_get_header`
unfoldable pub http_get_header : List ℕ → List Header → Option Header
unfolding same_name
http_get_header name [] = none
http_get_header name (header ∷ headers) =
    if same_name name header.name then some header else http_get_header name headers
