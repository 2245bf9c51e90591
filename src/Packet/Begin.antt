-- ===== src/Packet/Begin.antt =====
-- `sstp_pkt_init` of sstp/sstp-packet.c begins the bytes of a message.
use sstp_client_i_os.Base.{ℕ, ◌≤◌, ◌<◌, ◌≡◌, ◌≢◌, refl}
use sstp_client_i_os.Base.{arith, List, [], ◌∷◌, ◌++◌, length}
use sstp_client_i_os.Base.{be16, drop, length-drop, some}
use sstp_client_i_os.Base.{write_bytes, write_bytes-parts, okay, fail, ltb, ◌==◌}
use sstp_client_i_os.Base.{false, Bool-cases, inl, inr, splice, write_bytes-splice}
use sstp_client_i_os.Buff.{Buff, buff_space, buff_reset}
use sstp_client_i_os.Buff.Laws.{IsValid, contents}
use sstp_client_i_os.Packet.{pkt_init, proto_ver, flag_ctrl, msg_data}
use sstp_client_i_os.Packet.Format.{Holds, header, encode}
use sstp_client_i_os.Packet.Format.{encode_attrs}

-- The writes of `sstp_pkt_init` on a control packet.
init_writes :
    (mem : List ℕ) (type : ℕ)
    → 8 ≤ length mem
    → (mem' : List ℕ) × (mem'' : List ℕ) × (write_bytes mem 0 (proto_ver ∷ flag_ctrl ∷ [])
        ≡ some mem')
      × (write_bytes mem' 4 (be16 type ++ be16 0) ≡ some mem'')
      × (write_bytes mem'' 2 (be16 8) ≡ some (header type 0 8 ++ drop 8 mem))
init_writes (a ∷ b ∷ c ∷ d ∷ e ∷ f ∷ g ∷ h ∷ rest) type p =
    let end : List ℕ = be16 type ++ (be16 0 ++ rest) in
    (
      proto_ver ∷ flag_ctrl ∷ c ∷ d ∷ e ∷ f ∷ g ∷ h ∷ rest,
      proto_ver ∷ flag_ctrl ∷ c ∷ d ∷ end,
      write_bytes-parts [] (a ∷ b ∷ []) (c ∷ d ∷ e ∷ f ∷ g ∷ h ∷ rest) _ refl,
      write_bytes-parts (proto_ver ∷ flag_ctrl ∷ c ∷ d ∷ []) (e ∷ f ∷ g ∷ h ∷ []) rest
          (be16 type ++ be16 0) refl,
      write_bytes-parts (proto_ver ∷ flag_ctrl ∷ []) (c ∷ d ∷ []) end (be16 8) refl,
    )
init_writes _ type p = absurd (omega arith)

-- A control packet that is begun in a buffer of eight bytes or more is the message of that type with
-- no attribute, whatever the buffer held.
pub pkt_init-Holds :
    (buf : Buff) (type : ℕ)
    → IsValid buf
    → 8 ≤ buf.max
    → type ≢ msg_data
    → (buf' : Buff) × (pkt_init buf type ≡ some (okay, buf'))
      × Holds buf' (record { type = type; attrs = [] })
      × (buf'.max ≡ buf.max)
      × (buf'.off ≡ 0)
unfolding pkt_init buff_reset buff_space encode encode_attrs
pkt_init-Holds buf type v room control =
    let (mem', mem'', first, second, third) = init_writes buf.bytes type (omega (arith, v.sized)) in
    let other : (type == msg_data) ≡ false = ground arith in
    (
      record buf { len = 8; off = 0; bytes = header type 0 8 ++ drop 8 buf.bytes },
      ground (arith, first, second, third, v.int, other),
      record {
        valid = record {
          sized = omega (arith, length-drop 8 buf.bytes, v.sized);
          within = room;
          int = v.int;
        };
        text = refl;
      },
      refl,
      refl,
    )

-- In a smaller buffer nothing is begun: the result is a failure, and the buffer is empty.
pub pkt_init-fail :
    (buf : Buff) (type : ℕ)
    → IsValid buf
    → buf.max < 8
    → type ≢ msg_data
    → (buf' : Buff) × (pkt_init buf type ≡ some (fail, buf')) × (contents buf' ≡ [])
unfolding pkt_init buff_reset buff_space
pkt_init-fail buf type v small control = elim (Bool-cases (ltb buf.max 4)) [
  | inl none_at_all ↦ (buff_reset buf, ground arith, unfold buff_reset in refl)
  | inr header_fits ↦
      let start : List ℕ = proto_ver ∷ flag_ctrl ∷ [] in
      let write = write_bytes-splice buf.bytes 0 start (ground (arith, v.sized)) in
      (
        record buf { len = 0; off = 0; bytes = splice buf.bytes 0 start },
        ground (arith, write, v.int),
        refl,
      )
]
