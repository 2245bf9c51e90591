-- ===== src/State/Binding.antt =====
-- The crypto binding of sstp/sstp-state.c as bytes, and the place of the compound MAC in it.
use sstp_client_i_os.Base.{ℕ, ◌+◌, ◌≡◌, sym, ap, ap₂, ◌∙◌}
use sstp_client_i_os.Base.{
  arith, List, [], ◌∷◌, ◌++◌, append_assoc, append-nil, length, length-append, some,
}
use sstp_client_i_os.Base.{be16, write_bytes}
use sstp_client_i_os.Base.{take, drop, take-append, take-append-drop, length-take}
use sstp_client_i_os.Base.{write_bytes-parts}
use sstp_client_i_os.Buff.{Buff}
use sstp_client_i_os.Buff.Laws.{contents}
use sstp_client_i_os.Packet.{msg_connected, attr_crypto_bind}
use sstp_client_i_os.Packet.Format.{
  Attr, Message, Holds, encode, with_attr, encode_attrs, encode_attr,
}
use sstp_client_i_os.Packet.Format.{header}
use sstp_client_i_os.State.{}
use sstp_client_i_os.State.Sending.{bare}

-- The payload of the crypto binding: the hash protocol, the server's nonce, the hash of its
-- certificate, and the compound MAC.
abbrev pub binding : ℕ → List ℕ → List ℕ → List ℕ → List ℕ
binding type nounce hash mac = (0 ∷ 0 ∷ 0 ∷ type ∷ []) ++ (nounce ++ (hash ++ mac))

-- SSTP_MSG_CONNECTED with that payload.
abbrev pub connected_message : ℕ → List ℕ → List ℕ → List ℕ → Message
connected_message type nounce hash mac =
    with_attr (bare msg_connected) attr_crypto_bind (binding type nounce hash mac)

module _ (type : ℕ) (nounce hash : List ℕ) (size_n : length nounce ≡ 32)
    (size_h : length hash ≡ 32) where
  -- What stands in the packet before the compound MAC.
  before_mac : List ℕ
  before_mac =
      header msg_connected 1 112 ++ (0 ∷ 3 ∷ (be16 104 ++ (0 ∷ 0 ∷ 0 ∷ type ∷ (nounce ++ hash))))

  length-before_mac : length before_mac ≡ 80
  unfolding before_mac
  length-before_mac = omega (arith, length-append nounce hash)

  encode_binding :
      (mac : List ℕ)
      → length mac ≡ 32
      → encode (connected_message type nounce hash mac) ≡ before_mac ++ mac
  unfolding encode encode_attrs encode_attr before_mac
  encode_binding mac size =
      let p : List ℕ = binding type nounce hash mac in
      let a : Attr = record { type = attr_crypto_bind; payload = p } in
      let long : length p ≡ 100 =
        omega (arith, length-append nounce (hash ++ mac), length-append hash mac) in
      let total : 8 + length (encode_attr a ++ []) ≡ 112 =
        omega (arith, long, length-append (encode_attr a) []) in
      let field : length p + 4 ≡ 104 = omega (arith, long) in
      ap₂ (λ s l. header msg_connected 1 s ++ ((0 ∷ 3 ∷ (be16 l ++ p)) ++ [])) total field
      ∙ ap (λ t. header msg_connected 1 112 ++ (0 ∷ 3 ∷ (be16 104 ++ (0 ∷ 0 ∷ 0 ∷ type ∷ t))))
          (append-nil (nounce ++ (hash ++ mac)) ∙ sym (append_assoc nounce hash mac))

  -- A MAC is put over the first bytes of a field that holds others.
  pub mac_written :
      (buf : Buff) (old pad mac : List ℕ)
      → Holds buf (connected_message type nounce hash (old ++ pad))
      → length (old ++ pad) ≡ 32
      → length mac ≡ length old
      → (bytes : List ℕ) × (write_bytes buf.bytes 80 mac ≡ some bytes)
        × (length bytes ≡ buf.max)
        × (take buf.len bytes ≡ encode (connected_message type nounce hash (mac ++ pad)))
  mac_written buf old pad mac h size_o size_m =
      let rest : List ℕ = drop buf.len buf.bytes in
      let before : List ℕ = before_mac in
      let size_m' : length (mac ++ pad) ≡ 32 =
        omega (arith, length-append mac pad, length-append old pad, size_o, size_m) in
      let text : contents buf ≡ before ++ (old ++ pad) =
        h.text ∙ encode_binding (old ++ pad) size_o in
      let whole : buf.bytes ≡ before ++ (old ++ (pad ++ rest)) =
        sym (take-append-drop buf.len buf.bytes)
        ∙ ap (λ t. t ++ rest) text
        ∙ append_assoc before (old ++ pad) rest
        ∙ ap (λ t. before ++ t) (append_assoc old pad rest) in
      let new : List ℕ = before ++ (mac ++ (pad ++ rest)) in
      let split : new ≡ (before ++ (mac ++ pad)) ++ rest =
        ap (λ t. before ++ t) (sym (append_assoc mac pad rest))
        ∙ sym (append_assoc before (mac ++ pad) rest) in
      let len : buf.len ≡ length (before ++ (mac ++ pad)) = omega (
        arith,
        length-take buf.len buf.bytes,
        ap length text,
        length-append before (old ++ pad),
        length-append before (mac ++ pad),
        h.valid.sized,
        h.valid.within,
        size_o,
        size_m',
      ) in
      (
        new,
        ap₂ (λ t n. write_bytes t n mac) whole (sym length-before_mac)
            ∙ write_bytes-parts before old (pad ++ rest) mac (omega (arith, size_m)),
        omega (
          arith,
          ap length whole,
          length-append before (mac ++ (pad ++ rest)),
          length-append before (old ++ (pad ++ rest)),
          length-append mac (pad ++ rest),
          length-append old (pad ++ rest),
          h.valid.sized,
          size_m,
        ),
        ap (take buf.len) split
            ∙ take-append buf.len (before ++ (mac ++ pad)) rest len
            ∙ sym (encode_binding (mac ++ pad) size_m'),
      )
