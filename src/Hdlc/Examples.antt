-- ===== src/Hdlc/Examples.antt =====
-- sstp/sstp-fcs.c at concrete inputs: the frame of the unit test at the end of the source.
use sstp_client_i_os.Base.{
  ◌≡◌, ◌≤◌, ◌-◌, refl, arith, some, List, [], ◌∷◌, ◌++◌, ℕ, okay, length, All, IsByte,
}
use sstp_client_i_os.Hdlc.{frame_check, encode_loop, frame_encode, frame_decode, scan_frame}
use sstp_client_i_os.Hdlc.{skip_flags, finish, checksum, must_escape, fcs_step, head?, tail}
use sstp_client_i_os.Hdlc.{copy_char, Decoded, ppp_init_fcs16}
use sstp_client_i_os.Hdlc.Checksum.{crc, frame_check-eq-crc}
use sstp_client_i_os.Hdlc.Stuffing.{frame_encode_bound}
use sstp_client_i_os.Hdlc.RoundTrip.{frame_decode-frame_encode}
use sstp_client_i_os.Hdlc.Sound.{frame_decode_sound}

abbrev lcp_frame : List ℕ
lcp_frame =
    0xff ∷ 0x03 ∷ 0xc0 ∷ 0x21 ∷ 0x01 ∷ 0x01 ∷ 0x00 ∷ 0x18 ∷ 0x01 ∷ 0x04 ∷ 0x05 ∷ 0x78 ∷ 0x02 ∷ []

lcp_frame-IsByte : All IsByte lcp_frame
lcp_frame-IsByte = ground arith

-- Nine characters are escaped: the frame has 27 bytes.
abbrev lcp_line : List ℕ
lcp_line =
    0x7e ∷ 0xff ∷ 0x7d ∷ 0x23 ∷ 0xc0 ∷ 0x21 ∷ 0x7d ∷ 0x21 ∷ 0x7d ∷ 0x21 ∷ 0x7d ∷ 0x20 ∷ 0x7d ∷ 0x38
    ∷ 0x7d ∷ 0x21 ∷ 0x7d ∷ 0x24 ∷ 0x7d ∷ 0x25 ∷ 0x78 ∷ 0x7d ∷ 0x22 ∷ 0x88 ∷ 0x7d ∷ 0x3a ∷ 0x7e ∷ []

lcp_frame_encoded :
    frame_encode lcp_frame 60 ≡ record { status = okay; frame = lcp_line; flen = 27 }
unfolding frame_encode encode_loop checksum must_escape fcs_step frame_check
lcp_frame_encoded = refl

lcp_frame_fits : (frame_encode lcp_frame 60).status ≡ okay
unfolding frame_encode encode_loop checksum must_escape fcs_step frame_check
lcp_frame_fits = refl

abbrev lcp_decoded : Decoded
lcp_decoded = record { status = okay; length = 26; frame = lcp_frame ++ 136 ∷ 26 ∷ []; size = 13 }

lcp_line_decoded : frame_decode lcp_line 27 60 ≡ some lcp_decoded
unfolding frame_decode skip_flags scan_frame finish frame_check fcs_step copy_char head? tail
lcp_line_decoded = refl

lcp_line-IsByte : All IsByte lcp_line
lcp_line-IsByte = ground arith

frame_decode-frame_encode_example :
    frame_decode ((frame_encode lcp_frame 60).frame ++ 0x7e ∷ []) 60 15
    ≡ some (record {
      status = okay;
      length = (frame_encode lcp_frame 60).flen - 1;
      frame = lcp_frame ++ checksum lcp_frame;
      size = 13;
    })
unfolding frame_encode encode_loop checksum must_escape fcs_step frame_check
frame_decode-frame_encode_example =
    frame_decode-frame_encode lcp_frame (0x7e ∷ []) 60 60 15 lcp_frame-IsByte (omega arith)
      lcp_frame_fits (omega arith) (omega arith) (omega arith)

frame_decode_sound_example :
    (payload : List ℕ) × (lcp_decoded.frame ≡ payload ++ checksum payload)
    × (lcp_decoded.size ≡ length payload)
frame_decode_sound_example =
    frame_decode_sound lcp_line 27 60 lcp_decoded lcp_line-IsByte (omega arith) lcp_line_decoded
      refl

frame_check-eq-crc_example : frame_check ppp_init_fcs16 lcp_frame ≡ crc ppp_init_fcs16 lcp_frame
frame_check-eq-crc_example = frame_check-eq-crc ppp_init_fcs16 lcp_frame lcp_frame-IsByte

frame_encode_bound_example : length (frame_encode lcp_frame 10).frame ≤ 10
frame_encode_bound_example = frame_encode_bound lcp_frame 10 (omega arith)
