-- ===== src/Packet/Parse.antt =====
-- `sstp_pkt_parse` and the readers of sstp/sstp-packet.c, on packets that were built.
use sstp_client_i_os.Base.{ℕ, suc, ◌+◌, ◌-◌, ◌*◌, ◌/◌, ◌%◌, ◌^◌, ◌≤◌, ◌<◌, ◌≡◌, refl, sym, ap}
use sstp_client_i_os.Base.{
  ap₂, ◌∙◌, arith, List, [], ◌∷◌, ◌++◌, append_assoc, length, length-append,
}
use sstp_client_i_os.Base.{be16, drop, take-append, some, none}
use sstp_client_i_os.Base.{read_bytes, okay, ltb, leb, le→leb, slt, true, false}
use sstp_client_i_os.Base.{sext16, set}
use sstp_client_i_os.Buff.{Buff}
use sstp_client_i_os.Packet.{cleared}
use sstp_client_i_os.Packet.{
  pkt_parse, parse_loop, pkt_type, pkt_len, pkt_data, pkt_data_len, attr_len,
}
use sstp_client_i_os.Packet.{attr_data, attr_max, Attrs, ctrl}
use sstp_client_i_os.Packet.Format.{Attr, Message, Holds, Holds-bytes, header, size_of}
use sstp_client_i_os.Packet.Format.{encode_attr, encode_attrs, length-encode_attr}

-- The answer of `sstp_pkt_parse` that reports one attribute, the one at `buf->data + 8`, in an array
-- of the caller's.
abbrev pub only : Attrs → ℕ → Attrs
only attrs type = set (cleared attrs) type (some 8)

-- The array of a buffer whose message has a first attribute.
pub first_attr :
    (buf : Buff) (type : ℕ) (a : Attr) (rest : List Attr)
    → Holds buf (record { type = type; attrs = a ∷ rest })
    → (tail : List ℕ) × (buf ≡ record buf {
      bytes =
          header type (suc (length rest)) buf.len
          ++ (0 ∷ a.type % 256 ∷ (be16 (length a.payload + 4) ++ (a.payload ++ tail)));
    })
      × (buf.len ≡ 12 + length a.payload + length (encode_attrs rest))
unfolding encode_attrs encode_attr
first_attr buf type a rest h =
    let m : Message = record { type = type; attrs = a ∷ rest } in
    let (len, bytes) = Holds-bytes buf m h in
    let unused : List ℕ = drop buf.len buf.bytes in
    let tail : List ℕ = encode_attrs rest ++ unused in
    let split : encode_attrs (a ∷ rest) ++ unused ≡ encode_attr a ++ tail =
      append_assoc (encode_attr a) (encode_attrs rest) unused in
    let inner : (be16 (length a.payload + 4) ++ a.payload) ++ tail
        ≡ be16 (length a.payload + 4) ++ (a.payload ++ tail) =
      refl in
    (
      tail,
      (λ i. record buf {
        bytes = (bytes ∙ ap₂ (λ s t. header type (suc (length rest)) s ++ t) (sym len) split) i;
      }),
      omega (arith, len, length-append (encode_attr a) (encode_attrs rest), length-encode_attr a),
    )

module _ (buf : Buff) (type n : ℕ) (a : Attr) (tail : List ℕ) where
  -- An array with a first attribute.
  abbrev pub first_array : List ℕ
  first_array =
      header type n buf.len
      ++ (0 ∷ a.type % 256 ∷ (be16 (length a.payload + 4) ++ (a.payload ++ tail)))

module _ (attrs : Attrs) (buf : Buff) (type n : ℕ) (a : Attr) (tail : List ℕ) where
  pub loop_first :
      (k off : ℕ)
      → a.type ≤ attr_max
      → length a.payload + 4 < 2 ^ 15
      → parse_loop (suc k) (first_array buf type n a tail) off 8 (cleared attrs)
        ≡ parse_loop k
            (first_array buf type n a tail)
            off
            (length a.payload + 4)
            (only attrs a.type)
  unfolding parse_loop
  loop_first k off known short =
      let byte : a.type % 256 ≡ a.type = omega arith in
      let l : ℕ = length a.payload + 4 in
      let size : l / 256 % 256 * 256 + l % 256 ≡ l = omega arith in
      let wide : sext16 l ≡ l = ground arith in
      let inside : ltb attr_max a.type ≡ false = ground arith in rw (byte, inside, size, wide)

  pub parse_start :
      14 ≤ buf.len
      → buf.len < 2 ^ 31
      → n < 2 ^ 16
      → pkt_parse (record buf { bytes = first_array buf type n a tail }) attrs
        ≡ parse_loop n (first_array buf type n a tail) buf.off 8 (cleared attrs)
  unfolding pkt_parse
  parse_start long int many =
      let count : n / 256 % 256 * 256 + n % 256 ≡ n = omega arith in
      let enough : slt buf.len 14 ≡ false = ground arith in rw (enough, count)

-- A message with one attribute, of a known type and two bytes or more, is read back: the attribute
-- is found at its place, with its length and its payload, and no other is reported, save what the
-- caller's array holds in the place that is not cleared.
pub pkt_parse-Holds :
    (buf : Buff) (type : ℕ) (a : Attr) (attrs : Attrs)
    → Holds buf (record { type = type; attrs = a ∷ [] })
    → a.type ≤ attr_max
    → 2 ≤ length a.payload
    → length a.payload + 4 < 2 ^ 15
    → (pkt_parse buf attrs
        ≡ some (record { status = okay; attrs = only attrs a.type; off = length a.payload + 4 }))
      × (attr_len buf.bytes 8 ≡ some (length a.payload))
      × (read_bytes buf.bytes (attr_data 8) (length a.payload) ≡ some a.payload)
unfolding attr_len encode_attrs
pkt_parse-Holds buf type a attrs h known two short =
    let (tail, same, len) = first_attr buf type a [] h in
    let p : ℕ = length a.payload in
    let bytes = ap (λ (b : Buff). b.bytes) same in
    let size : (p + 4) / 256 % 256 * 256 + (p + 4) % 256 ≡ p + 4 = omega arith in
    let back : (p + 4 + 2 ^ 32 - 4) % 2 ^ 32 ≡ p = omega arith in
    let arr : List ℕ = first_array buf type 1 a tail in
    let inside : leb (12 + p) (length arr) ≡ true =
      le→leb (12 + p) (length arr) (omega (arith, length-append a.payload tail)) in
    (
      ap (λ b. pkt_parse b attrs) same
          ∙ parse_start attrs buf type 1 a tail (omega arith) (omega (arith, h.valid)) (omega arith)
          ∙ loop_first attrs buf type 1 a tail 0 buf.off known short
          ∙ unfold parse_loop in refl,
      ap (λ t. attr_len t 8) bytes ∙ rw (size, back),
      ap (λ t. read_bytes t 12 p) bytes ∙ rw inside (ap some (take-append p a.payload tail refl)),
    )

-- What the readers say of a buffer that holds a control packet: its type, its length, no data.
pub pkt_readers :
    (buf : Buff) (m : Message)
    → Holds buf m
    → m.type < 2 ^ 16
    → buf.max < 2 ^ 16
    → (pkt_type buf ≡ some (ctrl m.type))
      × (pkt_len buf ≡ some buf.len)
      × (pkt_data buf ≡ some none)
      × (pkt_data_len buf ≡ some 0)
unfolding pkt_type pkt_len pkt_data pkt_data_len
pkt_readers buf m h kind fits =
    let (len, bytes) = Holds-bytes buf m h in
    let type : m.type / 256 % 256 * 256 + m.type % 256 ≡ m.type = omega arith in
    let l : ℕ = size_of m in
    let size : l / 256 % 256 * 256 + l % 256 ≡ buf.len = omega (arith, len, h.valid) in
    let same : buf ≡ record buf {
      bytes = header m.type (length m.attrs) l ++ (encode_attrs m.attrs ++ drop buf.len buf.bytes);
    } =
      λ i. record buf { bytes = bytes i } in
    let known : ltb buf.len 4 ≡ false = ground (arith, len) in
    (
      ap pkt_type same ∙ rw (known, type),
      ap pkt_len same ∙ rw size,
      ap pkt_data same,
      ap pkt_data_len same,
    )
