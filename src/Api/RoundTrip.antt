-- ===== src/Api/RoundTrip.antt =====
-- A message of sstp/sstp-api.c from `sstp_api_msg_new` to `sstp_api_attr_parse`.
use sstp_client_i_os.Base.{
  ℕ, ◌+◌, ◌-◌, ◌<◌, ◌≡◌, refl, ap₂, ◌∙◌, arith, Option, some, List, [], ◌∷◌, ◌++◌, okay, length,
  take, drop, All, All-append, append_assoc, append-nil, length-drop, take-append,
}
use sstp_client_i_os.Api.{Msg, align32, msg_new, attr_parse}
use sstp_client_i_os.Api.Attributes.{
  Attr, IsAttr, encode, places, Holds, added, left, attr_add-Holds, attr_parse-encode, Fit, add_all,
  Carries, length-encode_snoc,
}

-- The message with all attributes, those that were there before and the new ones.
record Extended (attrs : List Attr) (entries : List (ℕ × List ℕ)) (result : Option Msg)
    : Type 0 where
  msg : Msg
  news : List Attr
  old : List ℕ
  done : result ≡ some msg
  holds : Holds msg (attrs ++ news) old
  valid : All IsAttr (attrs ++ news)
  carries : Carries news entries

add_all-Extended :
    (entries : List (ℕ × List ℕ)) (msg : Msg) (attrs : List Attr) (old : List ℕ)
    → Holds msg attrs old
    → All IsAttr attrs
    → Fit (length old) entries
    → length (encode attrs) + length old < 65536
    → Extended attrs entries (add_all entries msg)
unfolding add_all
add_all-Extended [] msg attrs old h valid fit room = record {
  msg = msg;
  news = [];
  old = old;
  done = refl;
  holds = rw (append-nil attrs) h;
  valid = rw (append-nil attrs) valid;
  carries = tt;
}
add_all-Extended ((type, payload) ∷ rest) msg attrs old h valid fit room =
    let (low, high, short, there, more) = fit in
    let (msg', stored, h', whole) =
      attr_add-Holds msg attrs old type payload h short there (omega (arith, room, there)) in
    let a : Attr = added msg attrs old type payload in
    let rest_left : List ℕ = left msg attrs old type payload in
    let sound : IsAttr a = record { known = low; within = high; short = short; whole = whole } in
    let size : length rest_left ≡ length old - (4 + align32 (length payload)) = omega (
      arith,
      length-drop (align32 (length payload) - length payload) (drop (4 + length payload) old),
      length-drop (4 + length payload) old,
      whole,
    ) in
    let e : Extended (attrs ++ a ∷ []) rest (add_all rest msg') =
      add_all-Extended rest msg' (attrs ++ a ∷ []) rest_left h'
        (All-append IsAttr attrs (a ∷ []) valid (sound, tt)) (rw size more)
        (omega (arith, length-encode_snoc attrs a sound, size, there, room)) in
    let all : (attrs ++ a ∷ []) ++ e.news ≡ attrs ++ (a ∷ e.news) =
      append_assoc attrs (a ∷ []) e.news in
    record {
      msg = e.msg;
      news = a ∷ e.news;
      old = e.old;
      done = rw stored e.done;
      holds = rw⁻¹ all e.holds;
      valid = rw⁻¹ all e.valid;
      carries = (refl, refl, e.carries);
    }

-- Attributes of known types, with payloads of less than 65532 bytes, for which a new message has
-- room, are added one by one with `sstp_api_attr_add`, without a write outside of its array. What
-- `sstp_api_attr_parse` then finds in the payload of the message is these attributes, with their
-- types and payloads, each where it stands.
pub attr_parse-attr_add :
    (type : ℕ) (bytes : List ℕ) (entries : List (ℕ × List ℕ))
    → Fit (length bytes) entries
    → length bytes < 65536
    → (msg : Msg) × (attrs : List Attr) × (add_all entries (msg_new bytes type) ≡ some msg)
      × Carries attrs entries
      × (take msg.len msg.bytes ≡ encode attrs)
      × (attr_parse (take msg.len msg.bytes) msg.len ≡ some (okay, places 0 attrs []))
attr_parse-attr_add type bytes entries fit room =
    let fresh : Holds (msg_new bytes type) [] bytes =
      unfold msg_new encode in record { text = refl; size = refl } in
    let empty : length (encode []) ≡ 0 = unfold encode in refl in
    let e : Extended [] entries (add_all entries (msg_new bytes type)) =
      add_all-Extended entries (msg_new bytes type) [] bytes fresh tt fit
        (omega (arith, empty, room)) in
    let text : take e.msg.len e.msg.bytes ≡ encode e.news =
      ap₂ take e.holds.size e.holds.text
      ∙ take-append (length (encode e.news)) (encode e.news) e.old refl in
    (
      e.msg,
      e.news,
      e.done,
      e.carries,
      text,
      ap₂ attr_parse text e.holds.size ∙ attr_parse-encode e.news e.valid,
    )
