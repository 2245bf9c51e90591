-- ===== src/Hdlc/Line.antt =====
-- `sstp_frame_decode` of sstp/sstp-fcs.c on a line of several frames: flags that are left of the
-- frame before, and what stands behind the frame.
use sstp_client_i_os.Base.{
  ℕ, zero, suc, ◌+◌, ◌-◌, ◌^◌, ◌≤◌, ◌<◌, ◌≡◌, ◌≢◌, refl, sym, ap, ◌∙◌, arith, List, [], ◌∷◌, ◌++◌,
}
use sstp_client_i_os.Base.{
  append_assoc, length, length-append, replicate, some, okay, overflow, All, IsByte,
}
use sstp_client_i_os.Hdlc.{hdlc_flag, hdlc_escape, checksum, complete, scan_frame, skip_flags}
use sstp_client_i_os.Base.Bits.{bit_xor-zero}
use sstp_client_i_os.Hdlc.{finish, frame_decode, copy_char, head?, tail}
use sstp_client_i_os.Hdlc.Stuffing.{stuffed, stuff, length-checksum}
use sstp_client_i_os.Hdlc.RoundTrip.{
  stuffed_head, scan_stuffed, length-le-stuff, stuff-cons, finish_good,
}

-- A frame as `sstp_frame_encode` writes it.
abbrev pub framed : List ℕ → List ℕ
framed source = hdlc_flag ∷ (stuff (source ++ checksum source) ++ hdlc_flag ∷ [])

skip_many :
    (k i c : ℕ) (r : List ℕ)
    → skip_flags (replicate k hdlc_flag ++ (stuffed c ++ r)) i ≡ some (stuffed c ++ r, i + k)
unfolding skip_flags
skip_many zero i c r =
    let (d, bs, head, other) = stuffed_head c in rw head (rw other (ground arith))
skip_many (suc k) i c r =
    skip_many k (i + 1) c r ∙ ap (λ (n : ℕ). some (stuffed c ++ r, n)) (omega arith)

decode_flags :
    (k c : ℕ) (cs more : List ℕ) (len size : ℕ)
    → length cs < size
    → k + length (stuff (c ∷ cs)) ≤ len
    → frame_decode (replicate k hdlc_flag ++ (stuff (c ∷ cs) ++ hdlc_flag ∷ more)) len size
      ≡ some (finish (complete (k + length (stuff (c ∷ cs))) (c ∷ cs)) len size)
unfolding frame_decode
decode_flags k c cs more len size room inside =
    let rest : List ℕ = stuff (c ∷ cs) ++ hdlc_flag ∷ more in
    let same : stuffed c ++ (stuff cs ++ hdlc_flag ∷ more) ≡ rest = sym (
      ap (λ t. t ++ hdlc_flag ∷ more) (stuff-cons c cs)
      ∙ append_assoc (stuffed c) (stuff cs) (hdlc_flag ∷ more)) in
    let skipped : skip_flags (replicate k hdlc_flag ++ rest) 0 ≡ some (rest, k) =
      rw same at (skip_many k 0 c (stuff cs ++ hdlc_flag ∷ more))
      ∙ ap (λ (n : ℕ). some (rest, n)) (omega arith) in
    let enough : length cs < length rest =
      omega (arith, length-append (stuff (c ∷ cs)) (hdlc_flag ∷ more), length-le-stuff (c ∷ cs)) in
    rw (skipped, scan_stuffed c cs more (length rest) k len size [] enough (omega arith) inside)

flag_last :
    (k : ℕ) (xs : List ℕ)
    → replicate k hdlc_flag ++ hdlc_flag ∷ xs ≡ replicate (suc k) hdlc_flag ++ xs
flag_last zero xs = refl
flag_last (suc k) xs = ap (λ t. hdlc_flag ∷ t) (flag_last k xs)

-- A frame behind `k` flags is read up to its closing flag, whatever follows.
pub frame_decode-framed :
    (k : ℕ) (source more : List ℕ) (len size : ℕ)
    → All IsByte source
    → 2 ≤ length source
    → k + length (framed source) ≤ len
    → length source + 2 ≤ size
    → size < 2 ^ 31
    → frame_decode (replicate k hdlc_flag ++ (framed source ++ more)) len size
      ≡ some (record {
        status = okay;
        length = k + length (framed source) - 1;
        frame = source ++ checksum source;
        size = length source;
      })
frame_decode-framed k [] more len size h two inside room int = absurd (omega arith)
frame_decode-framed k (c ∷ cs) more len size h two inside room int =
    let source : List ℕ = c ∷ cs in
    let behind : List ℕ = cs ++ checksum source in
    let text : List ℕ = stuff (c ∷ behind) in
    let sizes = length-append text (hdlc_flag ∷ []) in
    let line : replicate k hdlc_flag ++ (framed source ++ more)
        ≡ replicate (suc k) hdlc_flag ++ (text ++ hdlc_flag ∷ more) =
      ap (λ t. replicate k hdlc_flag ++ hdlc_flag ∷ t) (append_assoc text (hdlc_flag ∷ []) more)
      ∙ flag_last k (text ++ hdlc_flag ∷ more) in
    let ended : suc k + length text ≡ k + length (framed source) - 1 = omega (arith, sizes) in
    rw line (
      decode_flags (suc k) c behind more len size
        (omega (arith, length-append cs (checksum source), length-checksum source))
        (omega (arith, sizes))
      ∙ ap some (finish_good source (suc k + length text) len size h two (omega arith))
      ∙ ap
          (λ n. some (record {
            status = okay;
            length = n;
            frame = source ++ checksum source;
            size = length source;
          }))
          ended)

-- A lone flag with a plain character behind the data is the start of a frame.
pub frame_decode-flag :
    (b : ℕ) (more : List ℕ) (size : ℕ)
    → b ≢ hdlc_flag
    → b ≢ hdlc_escape
    → 0 < size
    → frame_decode (hdlc_flag ∷ b ∷ more) 1 size
      ≡ some (record { status = overflow; length = 1; frame = b ∷ []; size = size })
unfolding frame_decode scan_frame copy_char skip_flags finish head? tail
frame_decode-flag b more size flag escape room = ground (arith, bit_xor-zero b)
