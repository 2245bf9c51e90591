-- ===== src/Hdlc.antt =====
-- sstp/sstp-fcs.c: HDLC framing of PPP frames with the 16-bit frame check sequence of RFC 1662.
-- A C array is the list of its bytes; `none` is an access outside of an array.
pub mod Checksum
pub mod Residue
pub mod Stuffing
pub mod RoundTrip
pub mod Line
pub mod Sound
pub mod Examples
use sstp_client_i_os.Base.{ℕ, zero, suc, ◌+◌, ◌-◌, ◌/◌, ◌%◌, ◌^◌, bit_and, bit_xor}
use sstp_client_i_os.Base.{Bool, ◌||◌, Option, none, some, List, [], ◌∷◌, ◌++◌, length, get_or}
use sstp_client_i_os.Base.{ltb, leb, ◌==◌, if◌then◌else◌, ◌>>=◌, Status, okay, fail, overflow}

abbrev pub hdlc_flag : ℕ
hdlc_flag = 0x7e

abbrev pub hdlc_escape : ℕ
hdlc_escape = 0x7d

abbrev pub hdlc_transparency : ℕ
hdlc_transparency = 0x20

abbrev pub ppp_init_fcs16 : ℕ
ppp_init_fcs16 = 0xffff

abbrev pub ppp_good_fcs16 : ℕ
ppp_good_fcs16 = 0xf0b8

abbrev pub fcstab : List ℕ
fcstab =
    0x0000 ∷ 0x1189 ∷ 0x2312 ∷ 0x329b ∷ 0x4624 ∷ 0x57ad ∷ 0x6536 ∷ 0x74bf ∷ 0x8c48 ∷ 0x9dc1 ∷ 0xaf5a
    ∷ 0xbed3 ∷ 0xca6c ∷ 0xdbe5 ∷ 0xe97e ∷ 0xf8f7 ∷ 0x1081 ∷ 0x0108 ∷ 0x3393 ∷ 0x221a ∷ 0x56a5
    ∷ 0x472c ∷ 0x75b7 ∷ 0x643e ∷ 0x9cc9 ∷ 0x8d40 ∷ 0xbfdb ∷ 0xae52 ∷ 0xdaed ∷ 0xcb64 ∷ 0xf9ff
    ∷ 0xe876 ∷ 0x2102 ∷ 0x308b ∷ 0x0210 ∷ 0x1399 ∷ 0x6726 ∷ 0x76af ∷ 0x4434 ∷ 0x55bd ∷ 0xad4a
    ∷ 0xbcc3 ∷ 0x8e58 ∷ 0x9fd1 ∷ 0xeb6e ∷ 0xfae7 ∷ 0xc87c ∷ 0xd9f5 ∷ 0x3183 ∷ 0x200a ∷ 0x1291
    ∷ 0x0318 ∷ 0x77a7 ∷ 0x662e ∷ 0x54b5 ∷ 0x453c ∷ 0xbdcb ∷ 0xac42 ∷ 0x9ed9 ∷ 0x8f50 ∷ 0xfbef
    ∷ 0xea66 ∷ 0xd8fd ∷ 0xc974 ∷ 0x4204 ∷ 0x538d ∷ 0x6116 ∷ 0x709f ∷ 0x0420 ∷ 0x15a9 ∷ 0x2732
    ∷ 0x36bb ∷ 0xce4c ∷ 0xdfc5 ∷ 0xed5e ∷ 0xfcd7 ∷ 0x8868 ∷ 0x99e1 ∷ 0xab7a ∷ 0xbaf3 ∷ 0x5285
    ∷ 0x430c ∷ 0x7197 ∷ 0x601e ∷ 0x14a1 ∷ 0x0528 ∷ 0x37b3 ∷ 0x263a ∷ 0xdecd ∷ 0xcf44 ∷ 0xfddf
    ∷ 0xec56 ∷ 0x98e9 ∷ 0x8960 ∷ 0xbbfb ∷ 0xaa72 ∷ 0x6306 ∷ 0x728f ∷ 0x4014 ∷ 0x519d ∷ 0x2522
    ∷ 0x34ab ∷ 0x0630 ∷ 0x17b9 ∷ 0xef4e ∷ 0xfec7 ∷ 0xcc5c ∷ 0xddd5 ∷ 0xa96a ∷ 0xb8e3 ∷ 0x8a78
    ∷ 0x9bf1 ∷ 0x7387 ∷ 0x620e ∷ 0x5095 ∷ 0x411c ∷ 0x35a3 ∷ 0x242a ∷ 0x16b1 ∷ 0x0738 ∷ 0xffcf
    ∷ 0xee46 ∷ 0xdcdd ∷ 0xcd54 ∷ 0xb9eb ∷ 0xa862 ∷ 0x9af9 ∷ 0x8b70 ∷ 0x8408 ∷ 0x9581 ∷ 0xa71a
    ∷ 0xb693 ∷ 0xc22c ∷ 0xd3a5 ∷ 0xe13e ∷ 0xf0b7 ∷ 0x0840 ∷ 0x19c9 ∷ 0x2b52 ∷ 0x3adb ∷ 0x4e64
    ∷ 0x5fed ∷ 0x6d76 ∷ 0x7cff ∷ 0x9489 ∷ 0x8500 ∷ 0xb79b ∷ 0xa612 ∷ 0xd2ad ∷ 0xc324 ∷ 0xf1bf
    ∷ 0xe036 ∷ 0x18c1 ∷ 0x0948 ∷ 0x3bd3 ∷ 0x2a5a ∷ 0x5ee5 ∷ 0x4f6c ∷ 0x7df7 ∷ 0x6c7e ∷ 0xa50a
    ∷ 0xb483 ∷ 0x8618 ∷ 0x9791 ∷ 0xe32e ∷ 0xf2a7 ∷ 0xc03c ∷ 0xd1b5 ∷ 0x2942 ∷ 0x38cb ∷ 0x0a50
    ∷ 0x1bd9 ∷ 0x6f66 ∷ 0x7eef ∷ 0x4c74 ∷ 0x5dfd ∷ 0xb58b ∷ 0xa402 ∷ 0x9699 ∷ 0x8710 ∷ 0xf3af
    ∷ 0xe226 ∷ 0xd0bd ∷ 0xc134 ∷ 0x39c3 ∷ 0x284a ∷ 0x1ad1 ∷ 0x0b58 ∷ 0x7fe7 ∷ 0x6e6e ∷ 0x5cf5
    ∷ 0x4d7c ∷ 0xc60c ∷ 0xd785 ∷ 0xe51e ∷ 0xf497 ∷ 0x8028 ∷ 0x91a1 ∷ 0xa33a ∷ 0xb2b3 ∷ 0x4a44
    ∷ 0x5bcd ∷ 0x6956 ∷ 0x78df ∷ 0x0c60 ∷ 0x1de9 ∷ 0x2f72 ∷ 0x3efb ∷ 0xd68d ∷ 0xc704 ∷ 0xf59f
    ∷ 0xe416 ∷ 0x90a9 ∷ 0x8120 ∷ 0xb3bb ∷ 0xa232 ∷ 0x5ac5 ∷ 0x4b4c ∷ 0x79d7 ∷ 0x685e ∷ 0x1ce1
    ∷ 0x0d68 ∷ 0x3ff3 ∷ 0x2e7a ∷ 0xe70e ∷ 0xf687 ∷ 0xc41c ∷ 0xd595 ∷ 0xa12a ∷ 0xb0a3 ∷ 0x8238
    ∷ 0x93b1 ∷ 0x6b46 ∷ 0x7acf ∷ 0x4854 ∷ 0x59dd ∷ 0x2d62 ∷ 0x3ceb ∷ 0x0e70 ∷ 0x1ff9 ∷ 0xf78f
    ∷ 0xe606 ∷ 0xd49d ∷ 0xc514 ∷ 0xb1ab ∷ 0xa022 ∷ 0x92b9 ∷ 0x8330 ∷ 0x7bc7 ∷ 0x6a4e ∷ 0x58d5
    ∷ 0x495c ∷ 0x3de3 ∷ 0x2c6a ∷ 0x1ef1 ∷ 0x0f78 ∷ []

-- One round of the loop of `sstp_frame_check`; `fcs` is a uint16_t.
unfoldable pub fcs_step : ℕ → ℕ → ℕ
fcs_step fcs c = bit_xor (fcs / 256) (get_or fcstab (bit_and (bit_xor fcs c) 0xff) 0)

unfoldable pub frame_check : ℕ → List ℕ → ℕ
frame_check fcs [] = fcs
frame_check fcs (c ∷ cs) = frame_check (fcs_step fcs c) cs

-- What `sstp_frame_encode` leaves behind: its result, the bytes written to `frame`, and `*flen`.
pub record Encoded : Type 0 where
  pub status : Status
  pub frame : List ℕ
  pub flen : ℕ

unfoldable pub must_escape : ℕ → Bool
must_escape c = ltb c hdlc_transparency || c == hdlc_flag || c == hdlc_escape

-- The loop over the payload and the checksum, `cs` being the characters that are left.
pub encode_loop : List ℕ → ℕ → List ℕ → Encoded
unfolding must_escape
encode_loop [] flen frame =
    let frame' = frame ++ hdlc_flag ∷ [] in
    record { status = okay; frame = frame'; flen = length frame' }
encode_loop (c ∷ cs) flen frame =
    let escaped = hdlc_escape ∷ bit_xor c hdlc_transparency ∷ [] in
    let rest = encode_loop cs flen (frame ++ (if must_escape c then escaped else c ∷ [])) in
    if ltb flen (length frame + 3)
    then record { status = overflow; frame = frame; flen = flen }
    else rest

unfoldable pub checksum : List ℕ → List ℕ
checksum source =
    let fcs = bit_xor (frame_check ppp_init_fcs16 source) ppp_init_fcs16 in
    bit_and fcs 0xff ∷ bit_and (fcs / 256) 0xff ∷ []

unfoldable pub frame_encode : List ℕ → ℕ → Encoded
unfolding encode_loop checksum
frame_encode source flen = encode_loop (source ++ checksum source) flen (hdlc_flag ∷ [])

-- What `sstp_frame_decode` leaves behind: its result, `*length`, the bytes in `frame`, and `*size`.
pub record Decoded : Type 0 where
  pub status : Status
  pub length : ℕ
  pub frame : List ℕ
  pub size : ℕ

pub head? : List ℕ → Option ℕ
head? [] = none
head? (b ∷ bs) = some b

pub tail : List ℕ → List ℕ
tail [] = []
tail (b ∷ bs) = bs

-- The first loop: `rest` is what `buf + index` points at.
pub skip_flags : List ℕ → ℕ → Option (List ℕ × ℕ)
skip_flags [] index = none
skip_flags (b ∷ bs) index =
    let more = skip_flags bs (index + 1) in if b == hdlc_flag then more else some (b ∷ bs, index)

-- How the second loop ends: inside of a frame, or at a flag.
pub data Scan : Type 0 where
  incomplete : List ℕ → Scan
  complete : ℕ → List ℕ → Scan

-- `frame[pos++] = buf[index] ^ escape`, while `frame` has room.
pub copy_char : List ℕ → ℕ → ℕ → List ℕ → Option (List ℕ)
unfolding head?
copy_char rest escape size frame =
    if ltb (length frame) size
    then (head? rest >>= λ c. some (frame ++ bit_xor c escape ∷ []))
    else some frame

-- The second loop. A round takes a character at least, so the characters of `rest` are rounds
-- enough: where the fuel is out, `rest` is empty and the read faults.
pub scan_frame : ℕ → List ℕ → ℕ → ℕ → ℕ → List ℕ → Option Scan
unfolding head? tail copy_char
scan_frame zero rest index len size frame = none
scan_frame (suc fuel) rest index len size frame = do
  b ← head? rest
  let escaped = b == hdlc_escape
  let rest' = if escaped then tail rest else rest
  let index' = if escaped then index + 1 else index
  frame' ← copy_char rest' (if escaped then hdlc_transparency else 0) size frame
  let more = (do
    d ← head? (tail rest')
    let again = scan_frame fuel (tail rest') (index' + 1) len size frame'
    if d == hdlc_flag then some (complete (index' + 1) frame') else again)
  if leb len index' then some (incomplete frame') else more

-- `*size` is `pos - 2` as an int: below 2 it is negative and stands here modulo 2 ^ 32.
pub finish : Scan → ℕ → ℕ → Decoded
finish (incomplete frame) len size = record {
  status = overflow;
  length = len;
  frame = frame;
  size = size;
}
finish (complete index frame) len size = record {
  status =
      if ltb (length frame) 4
      then fail
      else (if frame_check ppp_init_fcs16 frame == ppp_good_fcs16 then okay else fail);
  length = index;
  frame = frame;
  size = (length frame + 2 ^ 32 - 2) % 2 ^ 32;
}

unfoldable pub frame_decode : List ℕ → ℕ → ℕ → Option Decoded
unfolding skip_flags scan_frame finish
frame_decode buf len size = do
  (rest, index) ← skip_flags buf 0
  scan ← scan_frame (length rest) rest index len size []
  some (finish scan len size)
