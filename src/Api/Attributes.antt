-- ===== src/Api/Attributes.antt =====
-- Attributes of sstp/sstp-api.c, as they are written and as they are read back.
use sstp_client_i_os.Base.{
  ℕ, zero, suc, ◌+◌, ◌-◌, ◌*◌, ◌/◌, ◌%◌, ◌≤◌, ◌<◌, ◌≡◌, refl, ap, sym, ◌∙◌, arith, true, false,
  ◌||◌, Option, some, List, [], ◌∷◌, ◌++◌, okay, length, take, drop, get_elem?, write_bytes, ltb,
  ◌==◌, ◌>>=◌, All, append_assoc, append-nil, length-append, get-append-right, take_all, if_false,
  take-append-drop, length-take, length-drop, write_bytes-parts, ap₂,
}
use sstp_client_i_os.Api.{Msg, attr_max, align32, le16, attr_add, read_le16, parse_from, attr_parse}

-- An attribute as a value: its type, its payload, and the bytes up to the next multiple of four.
pub record Attr : Type 0 where
  pub type : ℕ
  pub payload : List ℕ
  pub pad : List ℕ

-- An attribute of a known type, with a payload of less than 2^16 - 4 bytes.
pub record IsAttr (a : Attr) : Type 0 where
  pub known : 1 ≤ a.type
  pub within : a.type ≤ 4
  pub short : length a.payload < 65532
  pub whole : length a.payload + length a.pad ≡ align32 (length a.payload)

unfoldable pub encode : List Attr → List ℕ
encode [] = []
encode (a ∷ rest) =
    le16 a.type ++ (le16 (length a.payload) ++ (a.payload ++ (a.pad ++ encode rest)))

-- Where the attributes stand, the last one first.
unfoldable pub places : ℕ → List Attr → List (ℕ × ℕ) → List (ℕ × ℕ)
places at [] found = found
places at (a ∷ rest) found =
    places (at + (4 + align32 (length a.payload))) rest ((a.type, at) ∷ found)

get_behind :
    (front back : List ℕ) (i j : ℕ)
    → j ≡ length front + i
    → get_elem? (front ++ back) j ≡ get_elem? back i
get_behind front back i j e = ap (get_elem? (front ++ back)) e ∙ get-append-right front back i

-- The 16 bits that were stored at a place.
read_le16_stored :
    (front : List ℕ) (v i : ℕ) (back : List ℕ)
    → v < 65536
    → i ≡ length front
    → read_le16 (front ++ (le16 v ++ back)) i ≡ some v
read_le16_stored front v i back small e =
    let whole : v % 256 + v / 256 % 256 * 256 ≡ v = omega (arith, small) in
    rw
      (
        get_behind front (le16 v ++ back) 0 i (omega (arith, e)),
        get_behind front (le16 v ++ back) 1 (i + 1) (omega (arith, e)),
        whole,
      )
      refl

-- The bytes of one attribute.
abbrev pub one : Attr → List ℕ
one a = le16 a.type ++ (le16 (length a.payload) ++ (a.payload ++ a.pad))

length-one : (a : Attr) → IsAttr a → length (one a) ≡ 4 + align32 (length a.payload)
length-one a r = omega (arith, length-append a.payload a.pad, r.whole)

encode-one : (a : Attr) (rest : List Attr) → encode (a ∷ rest) ≡ one a ++ encode rest
unfolding encode
encode-one a rest =
    ap (λ t. le16 a.type ++ (le16 (length a.payload) ++ t))
      (sym (append_assoc a.payload a.pad (encode rest)))

-- The loop over attributes that were written finds each of them where it stands.
parse_from-encode :
    (attrs : List Attr) (n index : ℕ) (front mem : List ℕ) (found : List (ℕ × ℕ))
    → All IsAttr attrs
    → length attrs < n
    → index ≡ length front
    → mem ≡ front ++ encode attrs
    → parse_from n mem (length mem) index found ≡ some (okay, places index attrs found)
unfolding parse_from places encode
parse_from-encode attrs zero index front mem found all h e m = absurd (omega arith)
parse_from-encode [] (suc n) index front mem found all h e m =
    let ends : ltb index (length mem) ≡ false =
      ground (arith, e, ap length m, length-append front []) in
    if_false (ltb index (length mem)) _ _ ends
parse_from-encode (a ∷ rest) (suc n) index front mem found all h e m =
    let whole : mem ≡ (front ++ one a) ++ encode rest =
      m
      ∙ ap (λ t. front ++ t) (encode-one a rest)
      ∙ sym (append_assoc front (one a) (encode rest)) in
    let goes_on : ltb index (length mem) ≡ true =
      ground (arith, e, ap length m, length-append front (encode (a ∷ rest))) in
    let type_read : read_le16 mem index ≡ some a.type =
      ap (λ t. read_le16 t index) m
      ∙ read_le16_stored front a.type index
          (le16 (length a.payload) ++ (a.payload ++ (a.pad ++ encode rest)))
          (omega (arith, all.0.within)) e in
    let size_read : read_le16 mem (index + 2) ≡ some (length a.payload) =
      let back : List ℕ = a.payload ++ (a.pad ++ encode rest) in
      ap (λ t. read_le16 t (index + 2))
        (m ∙ sym (append_assoc front (le16 a.type) (le16 (length a.payload) ++ back)))
      ∙ read_le16_stored (front ++ le16 a.type) (length a.payload) (index + 2) back
          (omega (arith, all.0.short)) (omega (arith, e, length-append front (le16 a.type))) in
    let known : (ltb attr_max a.type || a.type == 0) ≡ false =
      ground (arith, all.0.known, all.0.within) in
    rw (goes_on, type_read, size_read, known)
      (parse_from-encode rest n (index + (4 + align32 (length a.payload))) (front ++ one a) mem
        ((a.type, index) ∷ found) (all.1) (omega arith)
        (omega (arith, e, length-append front (one a), length-one a (all.0))) whole)

length-encode : (attrs : List Attr) → length attrs ≤ length (encode attrs)
unfolding encode
length-encode [] = omega arith
length-encode (a ∷ rest) = omega (
  arith,
  length-append a.payload (a.pad ++ encode rest),
  length-append a.pad (encode rest),
  length-encode rest,
)

-- The attributes that were written one behind the other are found by `sstp_api_attr_parse`, each
-- where it stands; the last of a type is the one that is kept.
pub attr_parse-encode :
    (attrs : List Attr)
    → All IsAttr attrs
    → attr_parse (encode attrs) (length (encode attrs)) ≡ some (okay, places 0 attrs [])
unfolding attr_parse
attr_parse-encode attrs all =
    parse_from-encode attrs (suc (length (encode attrs))) 0 [] (encode attrs) [] all
      (omega (arith, length-encode attrs)) refl refl

encode-snoc : (attrs : List Attr) (a : Attr) → encode (attrs ++ a ∷ []) ≡ encode attrs ++ one a
unfolding encode
encode-snoc [] a =
    ap (λ t. le16 a.type ++ (le16 (length a.payload) ++ (a.payload ++ t))) (append-nil a.pad)
encode-snoc (b ∷ rest) a =
    encode-one b (rest ++ a ∷ [])
    ∙ ap (λ t. one b ++ t) (encode-snoc rest a)
    ∙ sym (append_assoc (one b) (encode rest) (one a))
    ∙ ap (λ t. t ++ one a) (sym (encode-one b rest))

pub length-encode_snoc :
    (attrs : List Attr) (a : Attr)
    → IsAttr a
    → length (encode (attrs ++ a ∷ [])) ≡ length (encode attrs) + (4 + align32 (length a.payload))
length-encode_snoc attrs a r =
    omega
      (arith, ap length (encode-snoc attrs a), length-append (encode attrs) (one a), length-one a r)

-- A message whose first bytes are these attributes, with the bytes behind them.
pub record Holds (msg : Msg) (attrs : List Attr) (old : List ℕ) : Type 0 where
  pub text : msg.bytes ≡ encode attrs ++ old
  pub size : msg.len ≡ length (encode attrs)

module _ (msg : Msg) (attrs : List Attr) (old : List ℕ) (type : ℕ) (payload : List ℕ) where
  -- The attribute that is added; what stood in the place of its pad stays there.
  abbrev pub added : Attr
  added = record {
    type = type;
    payload = payload;
    pad = take (align32 (length payload) - length payload) (drop (4 + length payload) old);
  }

  abbrev pub left : List ℕ
  left = drop (align32 (length payload) - length payload) (drop (4 + length payload) old)

  pub attr_add-Holds :
      Holds msg attrs old
      → length payload < 65532
      → 4 + align32 (length payload) ≤ length old
      → length (encode attrs) + (4 + align32 (length payload)) < 65536
      → (msg' : Msg) × (attr_add msg type payload ≡ some msg')
        × Holds msg' (attrs ++ added ∷ []) left
        × (length payload + length added.pad ≡ align32 (length payload))
  unfolding attr_add
  attr_add-Holds h short room fits =
      let n : ℕ = length payload in
      let bytes : List ℕ = le16 type ++ (le16 n ++ payload) in
      let cut : n % 65536 ≡ n = omega (arith, short) in
      let all : take n payload ≡ payload = take_all payload n (omega arith) in
      let behind : List ℕ = drop (4 + n) old in
      let parted : old ≡ take (4 + n) old ++ behind = sym (take-append-drop (4 + n) old) in
      let taken : length (take (4 + n) old) ≡ length bytes =
        omega (arith, length-take (4 + n) old, room) in
      let padded : length added.pad ≡ align32 n - n =
        omega (arith, length-take (align32 n - n) behind, length-drop (4 + n) old, room) in
      let written : write_bytes msg.bytes msg.len bytes ≡ some (encode attrs ++ (bytes ++ behind)) =
        ap₂ (λ m i. write_bytes m i bytes) (h.text ∙ ap (λ t. encode attrs ++ t) parted) h.size
        ∙ write_bytes-parts (encode attrs) (take (4 + n) old) behind bytes taken in
      let keep = λ (k : ℕ) (b : List ℕ).
        some (record msg { len = (msg.len + (4 + align32 k)) % 65536; bytes = b }) in
      let store = λ (k : ℕ) (text : List ℕ).
        (write_bytes msg.bytes msg.len (le16 type ++ (le16 k ++ text)) >>= keep k) in
      let placed : bytes ++ behind ≡ one added ++ left =
        ap (λ t. bytes ++ t) (sym (take-append-drop (align32 n - n) behind))
        ∙ ap (λ t. le16 type ++ (le16 n ++ t)) (sym (append_assoc payload added.pad left)) in
      let grown : encode (attrs ++ added ∷ []) ≡ encode attrs ++ one added =
        encode-snoc attrs added in
      (
        record msg {
          len = (msg.len + (4 + align32 n)) % 65536;
          bytes = encode attrs ++ (bytes ++ behind);
        },
        ap (λ k. store k (take k payload)) cut ∙ ap (store n) all ∙ ap (λ o. o >>= keep n) written,
        record {
          text =
              ap (λ t. encode attrs ++ t) placed
              ∙ sym (append_assoc (encode attrs) (one added) left)
              ∙ ap (λ t. t ++ left) (sym grown);
          size = omega (
            arith,
            h.size,
            fits,
            padded,
            ap length grown,
            length-append (encode attrs) (one added),
            length-append payload added.pad,
          );
        },
        omega (arith, padded),
      )

-- Types and payloads that fit, in an array with so much room behind what is there.
abbrev pub Fit : ℕ → List (ℕ × List ℕ) → Type 0
Fit room [] = Unit
Fit room ((type, payload) ∷ rest) =
    (1 ≤ type)
    × (type ≤ 4)
    × (length payload < 65532)
    × (4 + align32 (length payload) ≤ room)
    × Fit (room - (4 + align32 (length payload))) rest

-- `sstp_api_attr_add` of each.
unfoldable pub add_all : List (ℕ × List ℕ) → Msg → Option Msg
add_all [] msg = some msg
add_all ((type, payload) ∷ rest) msg = attr_add msg type payload >>= add_all rest

-- Whether the attributes have these types and payloads.
abbrev pub Carries : List Attr → List (ℕ × List ℕ) → Type 0
Carries [] [] = Unit
Carries [] (entry ∷ rest) = ⊥
Carries (a ∷ attrs) [] = ⊥
Carries (a ∷ attrs) ((type, payload) ∷ rest) =
    (a.type ≡ type) × (a.payload ≡ payload) × Carries attrs rest
