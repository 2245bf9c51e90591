-- ===== src/Packet/Build.antt =====
-- `sstp_pkt_attr` of sstp/sstp-packet.c appends to the bytes of a message.
use sstp_client_i_os.Base.{ℕ, ◌+◌, ◌-◌, ◌*◌, ◌/◌, ◌%◌, ◌^◌, ◌≤◌, ◌<◌, ◌≡◌, refl, sym, ap}
use sstp_client_i_os.Base.{
  ap₂, ◌∙◌, arith, List, [], ◌∷◌, ◌++◌, append_assoc, append-nil, length, length-append,
}
use sstp_client_i_os.Base.{be16, take, drop, take-append, length-drop, some}
use sstp_client_i_os.Base.{write_bytes, write_bytes-parts, write_bytes-behind, drop-drop, okay, slt}
use sstp_client_i_os.Base.{sext16, false}
use sstp_client_i_os.Buff.{Buff, buff_space}
use sstp_client_i_os.Packet.{pkt_attr, proto_ver, flag_ctrl}
use sstp_client_i_os.Packet.Format.{
  Attr, Message, Holds, Holds-bytes, with_attr, header, encode, size_of,
}
use sstp_client_i_os.Packet.Format.{
  encode_attr, encode_attrs, length-encode, encode_attrs-append, length-encode_attr,
}

-- The four writes of `sstp_pkt_attr` behind a packet of `body`, with `tail` the unused bytes.
abbrev attr_header : ℕ → List ℕ → List ℕ
attr_header kind payload = 0 ∷ kind % 256 ∷ be16 (length payload + 4)

module _ (type nattr size : ℕ) (body tail : List ℕ) (kind : ℕ) (payload : List ℕ) where
  abbrev head : List ℕ
  head = attr_header kind payload

  behind : List ℕ
  behind = head ++ (payload ++ drop (4 + length payload) tail)

  attr_writes :
      length payload + 4 ≤ length tail
      → (m1 : List ℕ) × (m2 : List ℕ) × (m3 : List ℕ) × (write_bytes
            (header type nattr size ++ (body ++ tail))
            6
            (be16 (nattr + 1))
          ≡ some m1)
        × (write_bytes m1 (8 + length body) head ≡ some m2)
        × (write_bytes m2 (8 + length body + 4) payload ≡ some m3)
        × ((len : ℕ)
            → write_bytes m3 2 (be16 len) ≡ some (header type (nattr + 1) len ++ (body ++ behind)))
  unfolding behind
  attr_writes room =
      let fixed : List ℕ = header type (nattr + 1) size in
      let first : List ℕ = head ++ drop 4 tail in
      let left : length (drop 4 tail) ≡ length tail - 4 = length-drop 4 tail in
      let front = length-append fixed body in
      (
        fixed ++ (body ++ tail),
        fixed ++ (body ++ first),
        fixed ++ (body ++ behind),
        write_bytes-parts (proto_ver ∷ flag_ctrl ∷ (be16 size ++ be16 type)) (be16 nattr) _ _ refl,
        write_bytes-behind (fixed ++ body) tail head _ (omega (arith, front)) (omega arith),
        ap (λ t. write_bytes (fixed ++ t) (8 + length body + 4) payload)
              (sym (append_assoc body head (drop 4 tail)))
            ∙ write_bytes-behind (fixed ++ (body ++ head)) (drop 4 tail) payload _
                (omega (arith, length-append body head)) (omega (arith, left))
            ∙ ap (λ t. some (fixed ++ t)) (append_assoc body head _)
            ∙ ap (λ t. some (fixed ++ (body ++ (head ++ (payload ++ t)))))
                (drop-drop (length payload) 4 tail),
        λ len. write_bytes-parts (proto_ver ∷ flag_ctrl ∷ []) (be16 size) _ _ refl,
      )

-- Room for an attribute of this payload, within the sizes that the fields of the format can hold.
abbrev pub HasRoom : Buff → Message → List ℕ → Type 0
HasRoom buf m payload =
    (size_of m + length payload + 4 ≤ buf.max)
    × (length payload + 4 < 2 ^ 15)
    × (length m.attrs + 1 < 2 ^ 16)

attr_fields :
    (m : Message) (kind : ℕ) (payload : List ℕ)
    → (size_of (with_attr m kind payload) ≡ size_of m + length payload + 4)
      × (length (with_attr m kind payload).attrs ≡ length m.attrs + 1)
      × (encode_attrs (with_attr m kind payload).attrs
          ≡ encode_attrs m.attrs ++ (attr_header kind payload ++ payload))
unfolding encode_attrs encode_attr
attr_fields m kind payload =
    let a : Attr = record { type = kind; payload = payload } in
    let more : encode_attrs (m.attrs ++ a ∷ []) ≡ encode_attrs m.attrs ++ encode_attr a =
      encode_attrs-append m.attrs (a ∷ [])
      ∙ ap (λ t. encode_attrs m.attrs ++ t) (append-nil (encode_attr a)) in
    (
      omega (
        arith,
        ap length more,
        length-append (encode_attrs m.attrs) (encode_attr a),
        length-encode_attr a,
      ),
      length-append m.attrs (a ∷ []),
      more,
    )

-- `sstp_pkt_attr` on the array of such a buffer.
pkt_attr_step :
    (buf : Buff) (type nattr : ℕ) (body tail : List ℕ) (kind : ℕ) (payload : List ℕ)
    → buf.len ≡ 8 + length body
    → length payload + 4 ≤ length tail
    → buf.len + length tail ≡ buf.max
    → buf.max < 2 ^ 30
    → length payload + 4 < 2 ^ 15
    → nattr < 2 ^ 16
    → pkt_attr (record buf { bytes = header type nattr buf.len ++ (body ++ tail) }) kind payload
      ≡ some (
        okay,
        record buf {
          len = buf.len + length payload + 4;
          bytes =
              header type (nattr + 1) (buf.len + length payload + 4)
              ++ (body ++ behind type nattr buf.len body tail kind payload);
        },
      )
unfolding pkt_attr buff_space
pkt_attr_step buf type nattr body tail kind payload len room fits int short many =
    let (m1, m2, m3, w1, w2, w3, w4) = attr_writes type nattr buf.len body tail kind payload room in
    let size : (length payload + 4) % 2 ^ 16 ≡ length payload + 4 = omega arith in
    let wide : sext16 (length payload + 4) ≡ length payload + 4 = ground arith in
    let grown : (buf.len + (length payload + 4)) % 2 ^ 32 ≡ buf.len + length payload + 4 =
      omega arith in
    let count : nattr / 256 % 256 * 256 + nattr % 256 ≡ nattr = omega arith in
    let space : slt buf.max (buf.len + length payload + 4) ≡ false = ground arith in
    let w2' : write_bytes m1 buf.len (attr_header kind payload) ≡ some m2 =
      ap (λ j. write_bytes m1 j (attr_header kind payload)) len ∙ w2 in
    let w3' : write_bytes m2 (buf.len + 4) payload ≡ some m3 =
      ap (λ j. write_bytes m2 (j + 4) payload) len ∙ w3 in
    ground (arith, size, wide, grown, space, count, w1, w2', w3', w4 (buf.len + length payload + 4))

-- The array after the writes, as the new message and the bytes left over.
behind_split :
    (m : Message) (size : ℕ) (tail : List ℕ) (kind : ℕ) (payload : List ℕ)
    → encode_attrs m.attrs
        ++ behind m.type (length m.attrs) size (encode_attrs m.attrs) tail kind payload
      ≡ encode_attrs (with_attr m kind payload).attrs ++ drop (4 + length payload) tail
unfolding behind
behind_split m size tail kind payload =
    let body : List ℕ = encode_attrs m.attrs in
    let left : List ℕ = drop (4 + length payload) tail in
    let (grown, count, text) = attr_fields m kind payload in
    sym (append_assoc body (attr_header kind payload ++ payload) left)
    ∙ ap (λ t. t ++ left) (sym text)

-- In a buffer that holds a message and has room, an attribute is appended to the message, and
-- nothing else in the message changes but its length and the number of its attributes.
pub pkt_attr-Holds :
    (buf : Buff) (m : Message) (kind : ℕ) (payload : List ℕ)
    → Holds buf m
    → HasRoom buf m payload
    → (buf' : Buff) × (pkt_attr buf kind payload ≡ some (okay, buf'))
      × Holds buf' (with_attr m kind payload)
      × (buf'.max ≡ buf.max)
      × (buf'.off ≡ buf.off)
unfolding encode
pkt_attr-Holds buf m kind payload h room =
    let (len, bytes) = Holds-bytes buf m h in
    let body : List ℕ = encode_attrs m.attrs in
    let tail : List ℕ = drop buf.len buf.bytes in
    let left : length tail ≡ length buf.bytes - buf.len = length-drop buf.len buf.bytes in
    let v = h.valid in
    let n : ℕ = length m.attrs in
    let len' : ℕ = buf.len + length payload + 4 in
    let new : List ℕ = behind m.type n buf.len body tail kind payload in
    let (size, count, text) = attr_fields m kind payload in
    let m' : Message = with_attr m kind payload in
    let unused : List ℕ = drop (4 + length payload) tail in
    let split : header m.type (n + 1) len' ++ (body ++ new) ≡ encode m' ++ unused =
      ap₂ (λ s t. header m.type (n + 1) s ++ t) (omega (arith, len, size))
        (behind_split m buf.len tail kind payload)
      ∙ ap (λ c. (header m.type c (size_of m') ++ encode_attrs m'.attrs) ++ unused) (sym count) in
    let sizes = length-append (encode m') unused in
    let ends : len' ≡ length (encode m') = omega (arith, len, size, length-encode m') in
    let same : buf ≡ record buf { bytes = header m.type n buf.len ++ (body ++ tail) } = λ i.
      record buf { bytes = (bytes ∙ ap (λ s. header m.type n s ++ (body ++ tail)) (sym len)) i } in
    (
      record buf { len = len'; bytes = header m.type (n + 1) len' ++ (body ++ new) },
      ap (λ b. pkt_attr b kind payload) same
          ∙ pkt_attr_step buf m.type n body tail kind payload len
              (omega (arith, left, v.sized, room)) (omega (arith, left, v.sized, v.within)) v.int
              (room.1) (omega (arith, room)),
      record {
        valid = record {
          sized = omega (
            arith,
            ap length split,
            sizes,
            ends,
            length-drop (4 + length payload) tail,
            left,
            v.sized,
            len,
            room,
          );
          within = omega (arith, len, room);
          int = v.int;
        };
        text = ap (take len') split ∙ take-append len' (encode m') unused ends;
      },
      refl,
      refl,
    )
