-- ===== src/Ppp/Item.antt =====
-- The packet that `ppp_enqueue_raw` of sstp/ios-pppd.c makes of a frame.
use sstp_client_i_os.Base.{ℕ, ◌+◌, ◌%◌, ◌^◌, ◌<◌, ◌≡◌, refl, sym, ap, ◌∙◌, arith, false, some}
use sstp_client_i_os.Base.{
  List, [], ◌∷◌, ◌++◌, length, replicate, length-replicate, append-replicate,
}
use sstp_client_i_os.Base.{okay, slt, be16, write_bytes-parts}
use sstp_client_i_os.Buff.{Buff, buff_space, buff_reset}
use sstp_client_i_os.Packet.{pkt_init, pkt_update, msg_data}
use sstp_client_i_os.Ppp.{fill_packet}

-- The data packet of a frame, in the array that is allocated for it.
abbrev pub packet_of : List ℕ → Buff
packet_of frame = record {
  len = 4 + length frame;
  max = length frame + 64;
  off = 0;
  bytes = 0x10 ∷ 0 ∷ (be16 (4 + length frame) ++ (frame ++ replicate 60 0));
}

abbrev pub IsFrame : List ℕ → Type 0
IsFrame frame = (0 < length frame) × (length frame < 2 ^ 30)

-- The buffer that `sstp_buff_create` makes for it.
abbrev pub zeroed : ℕ → Buff
zeroed n = record { len = 0; max = n + 64; off = 0; bytes = replicate (n + 64) 0 }

zeroed-parts :
    (n : ℕ) → replicate {A = ℕ} (n + 64) 0 ≡ 0 ∷ 0 ∷ 0 ∷ 0 ∷ (replicate n 0 ++ replicate 60 0)
zeroed-parts n =
    sym (append-replicate 4 (n + 60) (n + 64) 0 (omega arith))
    ∙ ap (λ (t : List ℕ). 0 ∷ 0 ∷ 0 ∷ 0 ∷ t) (sym (append-replicate n 60 (n + 60) 0 refl))

-- The array of a packet with its header, which claims `n` bytes, and what follows.
abbrev array : ℕ → List ℕ → List ℕ
array n body = 0x10 ∷ 0 ∷ (be16 n ++ (body ++ replicate 60 0))

begun :
    (n : ℕ)
    → n < 2 ^ 30
    → pkt_init (zeroed n) msg_data
      ≡ some (okay, record (zeroed n) { len = 4; bytes = array 4 (replicate n 0) })
unfolding pkt_init buff_space buff_reset
begun n h =
    let room : slt (n + 64) 4 ≡ false = ground arith in
    let rest : List ℕ = replicate n 0 ++ replicate 60 0 in
    rw (pkt_init, room)
      (rw (zeroed-parts n) (
        rw (write_bytes-parts [] (0 ∷ 0 ∷ []) (0 ∷ 0 ∷ rest) (0x10 ∷ 0 ∷ []) refl)
          (rw (write_bytes-parts (0x10 ∷ 0 ∷ []) (0 ∷ 0 ∷ []) rest (be16 4) refl) refl)))

pub fill_packet_lem :
    (frame : List ℕ)
    → length frame < 2 ^ 30
    → fill_packet (zeroed (length frame)) frame ≡ some (okay, packet_of frame)
unfolding fill_packet pkt_update
fill_packet_lem frame h =
    let n : ℕ = length frame in
    let wrap : (4 + n) % 2 ^ 32 ≡ 4 + n = omega arith in
    rw (begun n h) (
      rw
        (write_bytes-parts (0x10 ∷ 0 ∷ be16 4) (replicate n 0) (replicate 60 0) frame
          (length-replicate n 0))
        (rw wrap (
          rw
            (write_bytes-parts (0x10 ∷ 0 ∷ []) (be16 4) (frame ++ replicate 60 0) (be16 (4 + n))
              refl)
            refl)))
