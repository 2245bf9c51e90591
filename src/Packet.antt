-- ===== src/Packet.antt =====
-- sstp/sstp-packet.h and sstp/sstp-packet.c: SSTP packets in a buffer. A packet has a header of four
-- bytes (version, flags, length); a control packet goes on with four more (type, number of
-- attributes) and its attributes, each with a header of four (reserved, type, length). A pointer
-- into the buffer is the offset from `buf->data`; `none` is an access outside of the array.
pub mod Format
pub mod Begin
pub mod Build
pub mod Data
pub mod Parse
pub mod Faults
pub mod Bounds
pub mod Examples
use sstp_client_i_os.Base.{
  ℕ, zero, suc, ◌+◌, ◌-◌, ◌%◌, ◌^◌, bit_and, Bool, not, Option, none, some, List,
}
use sstp_client_i_os.Base.{
  [], ◌∷◌, ◌++◌, length, get_elem?, replicate, drop, ltb, slt, sext16, ◌==◌, be16,
}
use sstp_client_i_os.Base.{if◌then◌else◌, ◌>>=◌, read16, write_bytes, set, Status, okay, fail}
use sstp_client_i_os.Buff.{Buff, buff_space, buff_reset}

-- `sstp_msg_t`
abbrev pub msg_data : ℕ
msg_data = 0x0000

abbrev pub msg_connect_req : ℕ
msg_connect_req = 0x0001

abbrev pub msg_connect_ack : ℕ
msg_connect_ack = 0x0002

abbrev pub msg_connect_nak : ℕ
msg_connect_nak = 0x0003

abbrev pub msg_connected : ℕ
msg_connected = 0x0004

abbrev pub msg_abort : ℕ
msg_abort = 0x0005

abbrev pub msg_disconnect : ℕ
msg_disconnect = 0x0006

abbrev pub msg_disconnect_ack : ℕ
msg_disconnect_ack = 0x0007

abbrev pub echo_request : ℕ
echo_request = 0x0008

abbrev pub echo_reply : ℕ
echo_reply = 0x0009

-- `sstp_attr_t`
abbrev pub attr_encap_proto : ℕ
attr_encap_proto = 0x01

abbrev pub attr_status_info : ℕ
attr_status_info = 0x02

abbrev pub attr_crypto_bind : ℕ
attr_crypto_bind = 0x03

abbrev pub attr_crypto_bind_req : ℕ
attr_crypto_bind_req = 0x04

abbrev pub attr_max : ℕ
attr_max = 4

abbrev pub proto_ver : ℕ
proto_ver = 0x10

abbrev pub flag_ctrl : ℕ
flag_ctrl = 0x01

-- `sstp_pkt_t`, with what `sstp_pkt_type` stores through `type` on a control packet.
pub data PktType : Type 0 where
  unknown data_packet : PktType
  ctrl : ℕ → PktType

-- The test `SSTP_MSG_FLAG_CTRL & pkt->flags`.
abbrev pub is_ctrl : ℕ → Bool
is_ctrl flags = not (bit_and flag_ctrl flags == 0)

unfoldable pub pkt_init : Buff → ℕ → Option (Status × Buff)
pkt_init buf type =
    let reset = buff_reset buf in
    let flags = if type == msg_data then 0 else flag_ctrl in
    let data_pkt = (do
      bytes ← write_bytes reset.bytes 0 (proto_ver ∷ flags ∷ [])
      bytes ← write_bytes bytes 2 (be16 4)
      some (okay, record reset { len = 4; bytes = bytes })) in
    let ctrl_pkt = (do
      bytes ← write_bytes reset.bytes 0 (proto_ver ∷ flags ∷ [])
      let begun = record reset { bytes = bytes }
      let rest = (do
        bytes ← write_bytes bytes 4 (be16 type ++ be16 0)
        bytes ← write_bytes bytes 2 (be16 8)
        some (okay, record reset { len = 8; bytes = bytes }))
      elim (buff_space begun 8) [ okay ↦ rest | _ ↦ some (fail, begun) ]) in
    elim (buff_space reset 4) [
      | okay ↦ (if type == msg_data then data_pkt else ctrl_pkt)
      | _ ↦ some (fail, reset)
    ]

-- `payload` is the `len` bytes at `data`; `length` is a short.
unfoldable pub pkt_attr : Buff → ℕ → List ℕ → Option (Status × Buff)
pkt_attr buf type payload =
    let size = (length payload + 4) % 2 ^ 16 in
    let len' = (buf.len + sext16 size) % 2 ^ 32 in
    let append = (do
      nattr ← read16 buf.bytes 6
      bytes ← write_bytes buf.bytes 6 (be16 (nattr + 1))
      bytes ← write_bytes bytes buf.len (0 ∷ type % 256 ∷ be16 size)
      bytes ← write_bytes bytes (buf.len + 4) payload
      bytes ← write_bytes bytes 2 (be16 len')
      some (okay, record buf { len = len'; bytes = bytes })) in
    elim (buff_space buf (sext16 size)) [
      | okay ↦ (do
        flags ← get_elem? buf.bytes 1
        if is_ctrl flags then append else some (fail, buf))
      | _ ↦ some (fail, buf)
    ]

-- The result is a pointer, or NULL on a control packet.
unfoldable pub pkt_data : Buff → Option (Option ℕ)
pkt_data buf = do flags ← get_elem? buf.bytes 1; some (if is_ctrl flags then none else some 4)

pub pkt_data_len : Buff → Option ℕ
pkt_data_len buf = do
  flags ← get_elem? buf.bytes 1
  some (if is_ctrl flags then 0 else (buf.len + 2 ^ 32 - 4) % 2 ^ 32)

unfoldable pub pkt_len : Buff → Option ℕ
pkt_len buf = read16 buf.bytes 2

unfoldable pub pkt_update : Buff → Option Buff
pkt_update buf = do
  bytes ← write_bytes buf.bytes 2 (be16 buf.len)
  some (record buf { bytes = bytes })

unfoldable pub pkt_type : Buff → Option PktType
pkt_type buf =
    let known = (do
      flags ← get_elem? buf.bytes 1
      let control = (do type ← read16 buf.bytes 4; some (ctrl type))
      if is_ctrl flags then control else some data_packet) in
    if ltb buf.len 4 then some unknown else known

-- The array `attrs` that `sstp_pkt_parse` fills: a pointer or NULL for each type of attribute.
abbrev pub Attrs : Type 0
Attrs = List (Option ℕ)

-- What a call of `sstp_pkt_parse` leaves behind: its result, `attrs`, and `buf->off`.
pub record Parsed : Type 0 where
  pub status : Status
  pub attrs : Attrs
  pub off : ℕ

-- The loop with `alen` rounds to go. The counter is a short that counts down through its 2 ^ 16
-- values to 0, so the rounds are the number on the wire. `index` is a short, here as an int.
unfoldable pub parse_loop : ℕ → List ℕ → ℕ → ℕ → Attrs → Option Parsed
parse_loop zero mem off index attrs = some (record { status = okay; attrs = attrs; off = index })
parse_loop (suc alen) mem off index attrs = do
  type ← get_elem? mem (index + 1)
  let rest = (do
    size ← read16 mem (index + 2)
    parse_loop alen mem off (sext16 size) (set attrs type (some index)))
  if ltb attr_max type then some (record { status = fail; attrs = attrs; off = off }) else rest

-- The memset of `attrs`, which counts SSTP_ATTR_MAX pointers of the SSTP_ATTR_MAX + 1 there are: the
-- last one stays as it was.
abbrev pub cleared : Attrs → Attrs
cleared attrs = replicate attr_max none ++ drop attr_max attrs

-- `attrs` is what the caller's array holds before the call.
unfoldable pub pkt_parse : Buff → Attrs → Option Parsed
unfolding parse_loop
pkt_parse buf attrs =
    let failed : Parsed = record { status = fail; attrs = attrs; off = buf.off } in
    let parse = (do
      flags ← get_elem? buf.bytes 1
      let body = (do alen ← read16 buf.bytes 6; parse_loop alen buf.bytes buf.off 8 (cleared attrs))
      if is_ctrl flags then body else some failed) in
    if slt buf.len 14 then some failed else parse

-- A pointer to an attribute gives the pointer to its payload, and the payload's length as an int.
abbrev pub attr_data : ℕ → ℕ
attr_data attr = attr + 4

unfoldable pub attr_len : List ℕ → ℕ → Option ℕ
attr_len mem attr = do size ← read16 mem (attr + 2); some ((size + 2 ^ 32 - 4) % 2 ^ 32)
