-- ===== src/Hdlc/RoundTrip.antt =====
-- `sstp_frame_decode` of sstp/sstp-fcs.c reads back what `sstp_frame_encode` wrote.
use sstp_client_i_os.Base.{ℕ, zero, suc, ◌+◌, ◌-◌, ◌^◌, ◌≤◌, ◌<◌, bit_xor, false, ◌≡◌}
use sstp_client_i_os.Base.{
  refl, sym, ap, ap₂, ◌∙◌, arith, List, [], ◌∷◌, ◌++◌, append_assoc, append-nil, length, some,
}
use sstp_client_i_os.Base.{length-append, if◌then◌else◌, ◌==◌, Bool-cases, inl, inr, okay}
use sstp_client_i_os.Base.{All, IsByte}
use sstp_client_i_os.Base.Bits.{bit_xor_comm, bit_xor_cancel, bit_xor-zero}
use sstp_client_i_os.Hdlc.{hdlc_flag, hdlc_escape, hdlc_transparency, must_escape, checksum}
use sstp_client_i_os.Hdlc.{complete, scan_frame, skip_flags, finish}
use sstp_client_i_os.Hdlc.{frame_encode, frame_decode}
use sstp_client_i_os.Hdlc.Stuffing.{
  stuffed, stuff, length-stuffed, frame_encode_written, length-checksum,
}
use sstp_client_i_os.Hdlc.Residue.{good_frame}

unescape : (c : ℕ) → bit_xor (bit_xor c hdlc_transparency) hdlc_transparency ≡ c
unescape c =
    bit_xor_comm (bit_xor c hdlc_transparency) hdlc_transparency
    ∙ ap (bit_xor hdlc_transparency) (bit_xor_comm c hdlc_transparency)
    ∙ bit_xor_cancel hdlc_transparency c

-- One round over the stuffed form of `c`, with `d` behind it.
scan_char :
    (fuel c d : ℕ) (more : List ℕ) (index len size : ℕ) (frame : List ℕ)
    → length frame < size
    → index + length (stuffed c) ≤ len
    → scan_frame (suc fuel) (stuffed c ++ d ∷ more) index len size frame ≡ (
        if d == hdlc_flag
        then some (complete (index + length (stuffed c)) (frame ++ c ∷ []))
        else scan_frame fuel (d ∷ more) (index + length (stuffed c)) len size (frame ++ c ∷ []))
unfolding scan_frame stuffed must_escape
scan_char fuel c d more index len size frame room inside =
    ground (arith, unescape c, bit_xor-zero c)

-- A stuffed character does not begin with a flag.
pub stuffed_head :
    (c : ℕ) → (d : ℕ) × (bs : List ℕ) × (stuffed c ≡ d ∷ bs) × ((d == hdlc_flag) ≡ false)
unfolding stuffed must_escape
stuffed_head c = elim (Bool-cases (must_escape c)) [
  | inl e ↦ (hdlc_escape, bit_xor c hdlc_transparency ∷ [], rw e, refl)
  | inr e ↦ (c, [], rw e, ground arith)
]

-- The second loop reads the stuffed characters up to the flag.
pub scan_stuffed :
    (c : ℕ) (cs more : List ℕ) (fuel index len size : ℕ) (frame : List ℕ)
    → length cs < fuel
    → length frame + length cs < size
    → index + length (stuff (c ∷ cs)) ≤ len
    → scan_frame fuel (stuff (c ∷ cs) ++ hdlc_flag ∷ more) index len size frame
      ≡ some (complete (index + length (stuff (c ∷ cs))) (frame ++ c ∷ cs))
unfolding stuff
scan_stuffed c cs more zero index len size frame h room inside = absurd (omega arith)
scan_stuffed c [] more (suc fuel) index len size frame h room inside = rw (append-nil (stuffed c)) (
    scan_char fuel c hdlc_flag more index len size frame (omega arith)
      (omega (arith, ap length (append-nil (stuffed c)))))
scan_stuffed c (e ∷ cs) more (suc fuel) index len size frame h room inside =
    let (d, bs, head, other) = stuffed_head e in
    let rest : List ℕ = stuff cs ++ hdlc_flag ∷ more in
    let behind : stuff (e ∷ cs) ++ hdlc_flag ∷ more ≡ d ∷ (bs ++ rest) =
      append_assoc (stuffed e) (stuff cs) (hdlc_flag ∷ more) ∙ ap (λ t. t ++ rest) head in
    let sizes = length-append (stuffed c) (stuff (e ∷ cs)) in
    let index' : ℕ = index + length (stuffed c) in
    let start : (stuffed c ++ stuff (e ∷ cs)) ++ hdlc_flag ∷ more ≡ stuffed c ++ d ∷ (bs ++ rest) =
      append_assoc (stuffed c) (stuff (e ∷ cs)) (hdlc_flag ∷ more)
      ∙ ap (λ t. stuffed c ++ t) behind in
    let step : scan_frame (suc fuel) (stuffed c ++ d ∷ (bs ++ rest)) index len size frame
        ≡ scan_frame fuel (d ∷ (bs ++ rest)) index' len size (frame ++ c ∷ []) =
      scan_char fuel c d (bs ++ rest) index len size frame (omega arith) (omega (arith, sizes))
      ∙ rw other in
    let ih =
      scan_stuffed e cs more fuel index' len size (frame ++ c ∷ []) (omega arith)
        (omega (arith, length-append frame (c ∷ []))) (omega (arith, sizes)) in
    let ended : index' + length (stuff (e ∷ cs)) ≡ index + length (stuffed c ++ stuff (e ∷ cs)) =
      omega (arith, sizes) in
    ap (λ t. scan_frame (suc fuel) t index len size frame) start
    ∙ step
    ∙ ap (λ t. scan_frame fuel t index' len size (frame ++ c ∷ [])) (sym behind)
    ∙ ih
    ∙ ap₂ (λ n t. some (complete n t)) ended (append_assoc frame (c ∷ []) (e ∷ cs))

pub length-le-stuff : (cs : List ℕ) → length cs ≤ length (stuff cs)
unfolding stuff
length-le-stuff [] = omega arith
length-le-stuff (c ∷ cs) =
    omega (arith, length-append (stuffed c) (stuff cs), length-stuffed c, length-le-stuff cs)

skip_one :
    (c : ℕ) (r : List ℕ) → skip_flags (hdlc_flag ∷ (stuffed c ++ r)) 0 ≡ some (stuffed c ++ r, 1)
unfolding skip_flags
skip_one c r = let (d, bs, head, other) = stuffed_head c in rw head (rw other)

pub stuff-cons : (c : ℕ) (cs : List ℕ) → stuff (c ∷ cs) ≡ stuffed c ++ stuff cs
unfolding stuff
stuff-cons c cs = refl

pub finish_good :
    (source : List ℕ) (index len size : ℕ)
    → All IsByte source
    → 2 ≤ length source
    → length source < 2 ^ 32
    → finish (complete index (source ++ checksum source)) len size ≡ record {
      status = okay;
      length = index;
      frame = source ++ checksum source;
      size = length source;
    }
unfolding finish
finish_good source index len size h two fits =
    ground
      (arith, good_frame source h, length-append source (checksum source), length-checksum source)

-- A line that holds one flag, stuffed characters and a flag.
decode_stuffed :
    (c : ℕ) (cs more : List ℕ) (len size : ℕ)
    → length cs < size
    → 1 + length (stuff (c ∷ cs)) ≤ len
    → frame_decode (hdlc_flag ∷ (stuff (c ∷ cs) ++ hdlc_flag ∷ more)) len size
      ≡ some (finish (complete (1 + length (stuff (c ∷ cs))) (c ∷ cs)) len size)
unfolding frame_decode
decode_stuffed c cs more len size room inside =
    let rest : List ℕ = stuff (c ∷ cs) ++ hdlc_flag ∷ more in
    let same : stuffed c ++ (stuff cs ++ hdlc_flag ∷ more) ≡ rest = sym (
      ap (λ t. t ++ hdlc_flag ∷ more) (stuff-cons c cs)
      ∙ append_assoc (stuffed c) (stuff cs) (hdlc_flag ∷ more)) in
    let skipped : skip_flags (hdlc_flag ∷ rest) 0 ≡ some (rest, 1) =
      rw same at (skip_one c (stuff cs ++ hdlc_flag ∷ more)) in
    let enough : length cs < length rest =
      omega (arith, length-append (stuff (c ∷ cs)) (hdlc_flag ∷ more), length-le-stuff (c ∷ cs)) in
    rw (skipped, scan_stuffed c cs more (length rest) 1 len size [] enough (omega arith) inside)

-- A payload of two bytes or more that `sstp_frame_encode` wrote is read back by `sstp_frame_decode`,
-- whatever follows it on the line, if `*length` covers the frame, and `frame` has room for the
-- payload and the checksum and its size is a positive int: the result is okay, `*size` is the
-- payload's length, and `*length` is the position of the closing flag.
pub frame_decode-frame_encode :
    (source more : List ℕ) (flen len size : ℕ)
    → All IsByte source
    → 2 ≤ length source
    → (frame_encode source flen).status ≡ okay
    → (frame_encode source flen).flen ≤ len
    → length source + 2 ≤ size
    → size < 2 ^ 31
    → frame_decode ((frame_encode source flen).frame ++ more) len size
      ≡ some (record {
        status = okay;
        length = (frame_encode source flen).flen - 1;
        frame = source ++ checksum source;
        size = length source;
      })
frame_decode-frame_encode [] more flen len size h two ok inside room int = absurd (omega arith)
frame_decode-frame_encode (c ∷ cs) more flen len size h two ok inside room int =
    let source : List ℕ = c ∷ cs in
    let tail : List ℕ = cs ++ checksum source in
    let (frame, flen') = frame_encode_written source flen ok in
    let sizes = length-append (stuff (c ∷ tail)) (hdlc_flag ∷ []) in
    let size' = length-append cs (checksum source) in
    let line : (frame_encode source flen).frame ++ more
        ≡ hdlc_flag ∷ (stuff (c ∷ tail) ++ hdlc_flag ∷ more) =
      ap (λ t. t ++ more) frame
      ∙ ap (λ t. hdlc_flag ∷ t) (append_assoc (stuff (c ∷ tail)) (hdlc_flag ∷ []) more) in
    let ended : 1 + length (stuff (c ∷ tail)) ≡ (frame_encode source flen).flen - 1 =
      omega (arith, flen', ap length frame, sizes) in
    rw line (
      decode_stuffed c tail more len size (omega (arith, size', length-checksum source))
        (omega (arith, flen', ap length frame, sizes))
      ∙ ap some (finish_good source (1 + length (stuff (c ∷ tail))) len size h two (omega arith))
      ∙ ap
          (λ n. some (record {
            status = okay;
            length = n;
            frame = source ++ checksum source;
            size = length source;
          }))
          ended)
