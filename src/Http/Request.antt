-- ===== src/Http/Request.antt =====
-- The request of `sstp_http_send_hello` in sstp/sstp-http.c.
use sstp_client_i_os.Base.{
  Status, Option, Returns, Returns-value, ℕ, ◌+◌, ◌<◌, ◌≡◌, refl, ap, ◌∙◌, arith, some, List, ◌++◌,
  append_assoc, length, length-append, okay, codes,
}
use sstp_client_i_os.Buff.{buff_print, Buff, buff_reset}
use sstp_client_i_os.Buff.Laws.{IsValid, contents, buff_reset-IsValid, buff_print_fits}
use sstp_client_i_os.Http.{print_then, hello, hello_line, host_field, length_line, id_field, crlf}

-- The lines of the request.
abbrev host_line : List ℕ → List ℕ
host_line server = host_field ++ (server ++ crlf)

abbrev id_line : List ℕ → List ℕ
id_line uuid = id_field ++ (uuid ++ (crlf ++ crlf))

-- A result that has `whole` for its contents, and nothing of it read.
unfoldable Wrote : List ℕ → Status × Buff → Type 0
Wrote whole r = (r.0 ≡ okay) × (contents (r.1) ≡ whole) × ((r.1).off ≡ 0)

-- One call of `sstp_buff_print` among several: what comes behind it starts with the longer contents.
print_step :
    (buf : Buff) (text rest : List ℕ) (more : Buff → Option (Status × Buff))
    → IsValid buf
    → 0 < length text
    → buf.len + length text < buf.max
    → ((b : Buff)
        → IsValid b
        → b.len ≡ buf.len + length text
        → b.max ≡ buf.max
        → b.off ≡ buf.off
        → Returns (Wrote (contents b ++ rest)) (more b))
    → Returns (Wrote (contents buf ++ (text ++ rest))) (print_then (buff_print buf text) more)
print_step buf text rest more v some_text room going =
    let (b, made, v', written, len, max, off) = buff_print_fits buf text v some_text room in
    let same : contents b ++ rest ≡ contents buf ++ (text ++ rest) =
      ap (λ t. t ++ rest) written ∙ append_assoc (contents buf) text rest in
    rw made (rw⁻¹ same (going b v' len max off))

last_step :
    (buf : Buff) (text : List ℕ)
    → IsValid buf
    → 0 < length text
    → buf.len + length text < buf.max
    → buf.off ≡ 0
    → Returns (Wrote (contents buf ++ text)) (buff_print buf text)
unfolding Wrote Returns
last_step buf text v some_text room start =
    let (b, made, v', written, len, max, off) = buff_print_fits buf text v some_text room in
    rw made (refl, written, off ∙ start)

module _ (server uuid : List ℕ) (buf : Buff) (v : IsValid buf)
    (room : length server + length uuid + 160 < buf.max) where
  -- In a buffer with room for the two names and 161 bytes, `sstp_http_send_hello` puts together the
  -- request, whatever stood in the buffer before: the four lines SSTP_DUPLEX_POST with the path and
  -- the version, Host with the server, Content-Length with 2^64 - 1, and SSTPCORRELATIONID with the
  -- identifier, each ended by "\r\n", and one line end more.
  pub hello_text :
      (r : Status × Buff) × (hello server uuid buf ≡ some r)
      × (r.0 ≡ okay)
      × (contents (r.1)
          ≡ codes "SSTP_DUPLEX_POST /sra_{BA195980-CD49-458b-9E23-C84EE0ADCD75}/ HTTP/1.1\r\n"
            ++ ((codes "Host: " ++ (server ++ codes "\r\n"))
                ++ (codes "Content-Length: 18446744073709551615\r\n"
                    ++ (codes "SSTPCORRELATIONID: " ++ (uuid ++ codes "\r\n\r\n")))))
      × ((r.1).off ≡ 0)
  unfolding hello buff_reset Wrote
  hello_text =
      let host_size : length (host_line server) ≡ length server + 8 =
        omega (arith, length-append host_field (server ++ crlf), length-append server crlf) in
      let id_size : length (id_line uuid) ≡ length uuid + 23 = omega (
        arith,
        length-append id_field (uuid ++ (crlf ++ crlf)),
        length-append uuid (crlf ++ crlf),
      ) in
      let whole : List ℕ = hello_line ++ (host_line server ++ (length_line ++ id_line uuid)) in
      let made : Returns (Wrote whole) (hello server uuid buf) =
        print_step (buff_reset buf) hello_line _ _ (buff_reset-IsValid buf v) (omega arith)
          (omega (arith, room))
          λ b1 v1 l1 m1 o1.
            print_step b1 (host_line server) _ _ v1 (omega arith)
              (omega (arith, room, l1, m1, host_size))
              λ b2 v2 l2 m2 o2.
                print_step b2 length_line _ _ v2 (omega arith)
                  (omega (arith, room, l1, m1, l2, m2, host_size))
                  λ b3 v3 l3 m3 o3.
                    last_step b3 (id_line uuid) v3 (omega arith)
                      (omega (arith, room, l1, m1, l2, m2, l3, m3, host_size, id_size))
                      (omega (arith, o1, o2, o3)) in
      let (r, known, written) = Returns-value (Wrote whole) (hello server uuid buf) made in
      let (status, text, start) = written in (r, known, status, text, start)
