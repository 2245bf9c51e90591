-- ===== src/Pppd/Watch.antt =====
-- What sstp/sstp-pppd.c looks for in the packets of pppd while there is no plugin: the response to
-- the challenge of MS-CHAPv2, of which the MPPE keys are made.
use sstp_client_i_os.Base.{
  ℕ, ◌+◌, ◌≡◌, refl, sym, ap, ◌∙◌, arith, List, [], ◌∷◌, ◌++◌, length, take-append, some, true,
  false,
}
use sstp_client_i_os.Base.{
  Bool, get_elem?, read16, ◌*◌, ◌&&◌, not, length-append, read_bytes, leb, le→leb, if◌then◌else◌,
  ◌==◌,
}
use sstp_client_i_os.Buff.{Buff}
use sstp_client_i_os.Packet.{proto_ver, pkt_data}
use sstp_client_i_os.Ppp.{Chap, ppp_auth, ppp_up}
use sstp_client_i_os.Ppp.Requests.{proto_chap}
use sstp_client_i_os.Ppp.Handlers.{chap_response, mschap_value_len}
use sstp_client_i_os.Pppd.{
  Pppd, returned, tell, watch, check_auth, on_chap, snoop, chap_of, payload_at, skip_hdlc, protocol,
  ipup,
}

-- The array of a data packet: the header, the address and the control byte of HDLC if `wide` says
-- so, and the PPP packet with what stands behind it.
unfoldable pub array_of : Bool → ℕ → ℕ → List ℕ → List ℕ
array_of wide s t body = proto_ver ∷ 0 ∷ s ∷ t ∷ ((if wide then 0xff ∷ 0x03 ∷ [] else []) ++ body)

-- A CHAP response: protocol, code, identifier, length, the size of the value, the value, and more.
abbrev pub response : ℕ → ℕ → ℕ → List ℕ → List ℕ → List ℕ
response id high low value more =
    0xc2 ∷ 0x23 ∷ chap_response ∷ id ∷ high ∷ low ∷ mschap_value_len ∷ (value ++ more)

-- The places that the two checks look at.
places :
    (wide : Bool) (s t b c : ℕ) (body : List ℕ) (tx : Buff)
    → tx.bytes ≡ array_of wide s t (b ∷ c ∷ body)
    → (b == 0xff) ≡ false
    → let n : ℕ = if wide then 6 else 4 in
      (payload_at tx ≡ some 4) × (skip_hdlc tx.bytes 4 ≡ some n)
unfolding array_of payload_at pkt_data skip_hdlc
places true s t b c body tx e plain = (rw e refl, rw e refl)
places false s t b c body tx e plain = (rw e refl, rw e (rw plain refl))

first_word :
    (wide : Bool) (s t b c : ℕ) (body : List ℕ)
    → read16 (array_of wide s t (b ∷ c ∷ body)) (if wide then 6 else 4) ≡ some (b * 256 + c)
unfolding array_of
first_word true s t b c body = refl
first_word false s t b c body = refl

value_read :
    (wide : Bool) (s t id high low : ℕ) (value more : List ℕ)
    → length value ≡ mschap_value_len
    → let n : ℕ = if wide then 13 else 11 in
      read_bytes (array_of wide s t (response id high low value more)) n mschap_value_len
      ≡ some value
unfolding array_of
value_read true s t id high low value more h =
    let mem : List ℕ = array_of true s t (response id high low value more) in
    let inside : leb 62 (length mem) ≡ true =
      le→leb 62 (length mem) (omega (arith, length-append value more)) in
    rw inside (ap some (take-append 49 value more (sym h)))
value_read false s t id high low value more h =
    let mem : List ℕ = array_of false s t (response id high low value more) in
    let inside : leb 60 (length mem) ≡ true =
      le→leb 60 (length mem) (omega (arith, length-append value more)) in
    rw inside (ap some (take-append 49 value more (sym h)))

-- What stands at these places.
looked :
    (wide : Bool) (s t id high low : ℕ) (value more : List ℕ)
    → let n : ℕ = if wide then 6 else 4 in
      let mem : List ℕ = array_of wide s t (response id high low value more) in
      (protocol mem n ≡ some (proto_chap, n + 2))
      × (get_elem? mem (n + 2) ≡ some chap_response)
      × (get_elem? mem (n + 2 + 4) ≡ some mschap_value_len)
      × (n + 2 + 5 ≡ (if wide then 13 else 11))
unfolding array_of protocol
looked true s t id high low value more = (refl, refl, refl, refl)
looked false s t id high low value more = (refl, refl, refl, refl)

module _ {Stream : Type 0} (notify : Chap → ℕ → Stream → Stream) where
  -- The value is kept, and the owner is told.
  abbrev pub snooped : Pppd Stream → List ℕ → Pppd Stream
  snooped ctx value = record (tell notify ppp_auth (record ctx { chap = chap_of value })) {
    auth_done = true;
  }

  pub check_auth-response :
      (ctx : Pppd Stream) (wide : Bool) (s t id high low : ℕ) (value more : List ℕ) (tx : Buff)
      → tx.bytes ≡ array_of wide s t (response id high low value more)
      → length value ≡ mschap_value_len
      → check_auth notify ctx tx ≡ some (returned (snooped ctx value))
  unfolding check_auth on_chap snoop
  check_auth-response ctx wide s t id high low value more tx e h =
      let n : ℕ = if wide then 6 else 4 in
      let (begin, at) = places wide s t 0xc2 0x23 _ tx e refl in
      let (proto, code, size, place) = looked wide s t id high low value more in
      let value' =
        ap
          (λ k. read_bytes (array_of wide s t (response id high low value more)) k mschap_value_len)
          place
        ∙ value_read wide s t id high low value more h in
      rw begin (rw at (rw e (rw proto (rw code (rw size (rw value' refl))))))

  -- Once that is done, the first packet of pppd that is of IPCP, be it a request only, has the link
  -- reported up, if it was not.
  pub watch_ipcp :
      (ctx : Pppd Stream) (wide : Bool) (s t : ℕ) (body : List ℕ)
      → ctx.auth_check ≡ true
      → ctx.auth_done ≡ true
      → ctx.ip_up ≡ false
      → ctx.tx_buf.bytes ≡ array_of wide s t (0x80 ∷ 0x21 ∷ body)
      → watch notify ctx ≡ some (returned (record (tell notify ppp_up ctx) { ip_up = true }))
  unfolding watch ipup
  watch_ipcp ctx wide s t body on done down e =
      let (begin, at) = places wide s t 0x80 0x21 body ctx.tx_buf e refl in
      let word =
        ap (λ m. read16 m (if wide then 6 else 4)) e ∙ first_word wide s t 0x80 0x21 body in
      let no_check : (ctx.auth_check && not ctx.auth_done) ≡ false = ground (arith, on, done) in
      let bring : (ctx.auth_check && (ctx.auth_done && not ctx.ip_up)) ≡ true =
        ground (arith, on, done, down) in
      rw no_check (rw bring (rw begin (rw at (rw word refl))))
