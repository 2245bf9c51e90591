-- ===== src/Packet/Data.antt =====
-- The data packets of sstp/sstp-packet.c: a header of four bytes, and the payload.
use sstp_client_i_os.Base.{ℕ, ◌+◌, ◌≤◌, ◌≡◌, refl, sym, ap, ◌∙◌, arith, some}
use sstp_client_i_os.Base.{
  List, [], ◌∷◌, ◌++◌, append_assoc, length, be16, drop, take, length-drop, take-append,
  write_bytes, write_bytes-parts, write_bytes-behind, okay, Option, ◌>>=◌,
}
use sstp_client_i_os.Buff.{Buff, buff_space, buff_reset}
use sstp_client_i_os.Buff.Laws.{IsValid, contents}
use sstp_client_i_os.Packet.{pkt_init, pkt_update, pkt_data, proto_ver, msg_data}

-- The packet with a payload.
abbrev pub data_packet_of : List ℕ → List ℕ
data_packet_of payload = proto_ver ∷ 0 ∷ (be16 (4 + length payload) ++ payload)

-- The array in which a data packet was begun.
abbrev pub data_begun : List ℕ → List ℕ
data_begun mem = proto_ver ∷ 0 ∷ (be16 4 ++ drop 4 mem)

data_writes :
    (mem : List ℕ)
    → 4 ≤ length mem
    → (mem' : List ℕ) × (write_bytes mem 0 (proto_ver ∷ 0 ∷ []) ≡ some mem')
      × (write_bytes mem' 2 (be16 4) ≡ some (data_begun mem))
data_writes (a ∷ b ∷ c ∷ d ∷ rest) h = (
  proto_ver ∷ 0 ∷ c ∷ d ∷ rest,
  write_bytes-parts [] (a ∷ b ∷ []) (c ∷ d ∷ rest) _ refl,
  write_bytes-parts (proto_ver ∷ 0 ∷ []) (c ∷ d ∷ []) rest (be16 4) refl,
)
data_writes _ h = absurd (omega arith)

-- A data packet is begun in any buffer of four bytes or more.
pub pkt_init-data :
    (buf : Buff)
    → IsValid buf
    → 4 ≤ buf.max
    → pkt_init buf msg_data
      ≡ some (okay, record buf { len = 4; off = 0; bytes = data_begun buf.bytes })
unfolding pkt_init buff_reset buff_space
pkt_init-data buf v room =
    let (mem', first, second) = data_writes buf.bytes (omega (arith, v.sized)) in
    ground (arith, first, second, v.int)

-- The array when a payload, and `more` behind it, was written into the packet that was begun.
abbrev pub data_filled : List ℕ → List ℕ → List ℕ → List ℕ
data_filled mem payload more =
    proto_ver ∷ 0 ∷ (be16 4 ++ ((payload ++ more) ++ drop (length (payload ++ more)) (drop 4 mem)))

pub write_bytes-data :
    (mem payload more : List ℕ)
    → 4 + length (payload ++ more) ≤ length mem
    → write_bytes (data_begun mem) 4 (payload ++ more) ≡ some (data_filled mem payload more)
write_bytes-data mem payload more h =
    write_bytes-behind (proto_ver ∷ 0 ∷ be16 4) (drop 4 mem) (payload ++ more) 4 refl
      (omega (arith, length-drop 4 mem))

-- `sstp_pkt_update` makes the packet of it, when the length was set to the payload's.
pub pkt_update-data :
    (buf : Buff) (mem payload more : List ℕ)
    → buf.len ≡ 4 + length payload
    → buf.bytes ≡ data_filled mem payload more
    → (buf' : Buff) × (pkt_update buf ≡ some buf')
      × (contents buf' ≡ data_packet_of payload)
      × (buf' ≡ record buf { bytes = buf'.bytes })
      × (length buf'.bytes ≡ length buf.bytes)
unfolding pkt_update
pkt_update-data buf mem payload more size e =
    let n : ℕ = length payload in
    let rest : List ℕ = drop (length (payload ++ more)) (drop 4 mem) in
    let end : List ℕ = (payload ++ more) ++ rest in
    let bytes : List ℕ = proto_ver ∷ 0 ∷ (be16 buf.len ++ end) in
    let written : write_bytes buf.bytes 2 (be16 buf.len) ≡ some bytes =
      rw e (write_bytes-parts (proto_ver ∷ 0 ∷ []) (be16 4) end (be16 buf.len) refl) in
    let front : bytes ≡ data_packet_of payload ++ (more ++ rest) =
      ap (λ (t : List ℕ). proto_ver ∷ 0 ∷ (be16 buf.len ++ t)) (append_assoc payload more rest)
      ∙ ap (λ (k : ℕ). proto_ver ∷ 0 ∷ (be16 k ++ (payload ++ (more ++ rest)))) size in
    (
      record buf { bytes = bytes },
      ap (λ (o : Option (List ℕ)). o >>= λ b. some (record buf { bytes = b })) written,
      ap (take buf.len) front
          ∙ take-append buf.len (data_packet_of payload) (more ++ rest) (omega arith),
      refl,
      sym (ap length e),
    )

-- Where the payload of such a packet is.
pub pkt_data-filled :
    (buf : Buff) (rest : List ℕ) → buf.bytes ≡ proto_ver ∷ 0 ∷ rest → pkt_data buf ≡ some (some 4)
unfolding pkt_data
pkt_data-filled buf rest e = rw e
