-- ===== src/Api.antt =====
-- sstp/sstp-api.c: the messages between the plugin of pppd and the client. Numbers stand in the order
-- of a little-endian machine; the array of a message is what stands behind its header of eight bytes.
pub mod Attributes
pub mod RoundTrip
pub mod Examples
use sstp_client_i_os.Base.{
  ℕ, zero, suc, ◌+◌, ◌*◌, ◌/◌, ◌%◌, ◌^◌, Bool, ◌||◌, Option, none, some, List, [], ◌∷◌, ◌++◌,
  Status, okay, fail, length, take, get_elem?, write_bytes, if◌then◌else◌, ltb, leb, ◌==◌, ◌>>=◌,
}

abbrev pub msg_magic : ℕ
msg_magic = 0x73737470

abbrev pub attr_max : ℕ
attr_max = 4

-- `ALIGN32`
abbrev pub align32 : ℕ → ℕ
align32 n = (n + 3) / 4 * 4

-- `sstp_api_msg_st`, with the bytes from `msg_data` to the end of its array.
pub record Msg : Type 0 where
  pub magic : ℕ
  pub len : ℕ
  pub type : ℕ
  pub bytes : List ℕ

-- `sstp_api_msg_new` in an array with these bytes behind the header.
unfoldable pub msg_new : List ℕ → ℕ → Msg
msg_new bytes type = record { magic = msg_magic; len = 0; type = type % 65536; bytes = bytes }

-- `sstp_api_msg_len`
unfoldable pub msg_len : Msg → ℕ
msg_len msg = 8 + msg.len

-- `sstp_api_msg_type`, where `none` is -1.
unfoldable pub msg_type : Msg → Option ℕ
msg_type msg = if msg.magic == msg_magic then some msg.type else none

-- A number of 16 bits, as it is stored.
abbrev pub le16 : ℕ → List ℕ
le16 n = n % 256 ∷ n / 256 % 256 ∷ []

-- `sstp_api_attr_add` of the payload; the length is cut to 16 bits. `none` is a write outside of the
-- array.
unfoldable pub attr_add : Msg → ℕ → List ℕ → Option Msg
unfolding write_bytes
attr_add msg type payload = do
  let n = length payload % 65536
  bytes ← write_bytes msg.bytes msg.len (le16 type ++ (le16 n ++ take n payload))
  some (record msg { len = (msg.len + (4 + align32 n)) % 65536; bytes = bytes })

-- The 16 bits at a place.
abbrev pub read_le16 : List ℕ → ℕ → Option ℕ
read_le16 mem i = do a ← get_elem? mem i; b ← get_elem? mem (i + 1); some (a + b * 256)

-- The loop of `sstp_api_attr_parse`, with fuel: the result, and the pointers that it has stored,
-- each as a type and a place, the latest first. `none` is a read outside of the array, or the end of
-- the fuel.
unfoldable pub parse_from : ℕ → List ℕ → ℕ → ℕ → List (ℕ × ℕ) → Option (Status × List (ℕ × ℕ))
parse_from zero mem len index found = none
parse_from (suc n) mem len index found =
    let round = λ (type : ℕ). (do
      size ← read_le16 mem (index + 2)
      parse_from n mem len (index + (4 + align32 size)) ((type, index) ∷ found)) in
    let step = (do
      type ← read_le16 mem index
      if ltb attr_max type || type == 0 then some (fail, found) else round type) in
    if ltb index len then step else some (okay, found)

-- `sstp_api_attr_parse` of `len` bytes; each round goes on by four bytes or more.
unfoldable pub attr_parse : List ℕ → ℕ → Option (Status × List (ℕ × ℕ))
unfolding parse_from
attr_parse mem len = parse_from (suc len) mem len 0 []
