-- ===== src/Packet/Format.antt =====
-- The control packets of [MS-SSTP] as values, and the bytes that stand for them: the description
-- that sstp/sstp-packet.c is measured against.
use sstp_client_i_os.Base.{ℕ, ◌+◌, ◌%◌, ◌≡◌, refl, sym, ap, ◌∙◌}
use sstp_client_i_os.Base.{
  arith, List, [], ◌∷◌, ◌++◌, append_assoc, length, length-append, be16, drop,
}
use sstp_client_i_os.Base.{take-append-drop, length-take}
use sstp_client_i_os.Buff.{Buff}
use sstp_client_i_os.Buff.Laws.{IsValid, contents}
use sstp_client_i_os.Packet.{proto_ver, flag_ctrl}

pub record Attr : Type 0 where
  pub type : ℕ
  pub payload : List ℕ

pub record Message : Type 0 where
  pub type : ℕ
  pub attrs : List Attr

unfoldable pub encode_attr : Attr → List ℕ
encode_attr a = 0 ∷ a.type % 256 ∷ (be16 (length a.payload + 4) ++ a.payload)

unfoldable pub encode_attrs : List Attr → List ℕ
encode_attrs [] = []
encode_attrs (a ∷ xs) = encode_attr a ++ encode_attrs xs

abbrev pub header : ℕ → ℕ → ℕ → List ℕ
header type nattr size = proto_ver ∷ flag_ctrl ∷ (be16 size ++ (be16 type ++ be16 nattr))

abbrev pub size_of : Message → ℕ
size_of m = 8 + length (encode_attrs m.attrs)

unfoldable pub encode : Message → List ℕ
encode m = header m.type (length m.attrs) (size_of m) ++ encode_attrs m.attrs

-- The buffer is well formed, and holds the bytes of a message.
pub record Holds (buf : Buff) (m : Message) : Type 0 where
  pub valid : IsValid buf
  pub text : contents buf ≡ encode m

-- The message with one attribute more.
abbrev pub with_attr : Message → ℕ → List ℕ → Message
with_attr m type payload = record m {
  attrs = m.attrs ++ record { type = type; payload = payload } ∷ [];
}

pub encode_attrs-append :
    (xs ys : List Attr) → encode_attrs (xs ++ ys) ≡ encode_attrs xs ++ encode_attrs ys
unfolding encode_attrs
encode_attrs-append [] ys = refl
encode_attrs-append (a ∷ xs) ys =
    ap (λ t. encode_attr a ++ t) (encode_attrs-append xs ys)
    ∙ sym (append_assoc (encode_attr a) (encode_attrs xs) (encode_attrs ys))

pub length-encode : (m : Message) → length (encode m) ≡ size_of m
unfolding encode
length-encode m = length-append (header m.type (length m.attrs) (size_of m)) (encode_attrs m.attrs)

pub length-encode_attr : (a : Attr) → length (encode_attr a) ≡ length a.payload + 4
unfolding encode_attr
length-encode_attr a = omega arith

-- The array of a buffer that holds a message: the message's bytes, then unused ones.
pub Holds-bytes :
    (buf : Buff) (m : Message)
    → Holds buf m
    → (buf.len ≡ size_of m)
      × (buf.bytes
          ≡ header m.type (length m.attrs) (size_of m)
            ++ (encode_attrs m.attrs ++ drop buf.len buf.bytes))
unfolding encode
Holds-bytes buf m h =
    let whole : contents buf ++ drop buf.len buf.bytes ≡ buf.bytes =
      take-append-drop buf.len buf.bytes in
    (
      omega (
        arith,
        ap length h.text,
        length-encode m,
        length-take buf.len buf.bytes,
        h.valid.sized,
        h.valid.within,
      ),
      sym whole
          ∙ ap (λ t. t ++ drop buf.len buf.bytes) h.text
          ∙ append_assoc (header m.type (length m.attrs) (size_of m)) (encode_attrs m.attrs) _,
    )
