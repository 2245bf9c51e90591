-- ===== src/Hdlc/Sound.antt =====
-- What `sstp_frame_decode` of sstp/sstp-fcs.c accepts, on any line at all.
use sstp_client_i_os.Base.{ℕ, zero, suc, ◌+◌, ◌-◌, ◌^◌, ◌%◌, ◌≤◌, ◌<◌, bit_xor, ◌≡◌}
use sstp_client_i_os.Base.{refl, sym, ap, ◌∙◌, arith, some, List, [], ◌∷◌}
use sstp_client_i_os.Base.{◌++◌, length, length-append, if◌then◌else◌, ◌==◌, Option-cases}
use sstp_client_i_os.Base.{inl, inr, okay, All, All-append, IsByte}
use sstp_client_i_os.Base.Bits.{bit_xor-lt_byte}
use sstp_client_i_os.Hdlc.{hdlc_escape, hdlc_transparency, checksum, frame_check}
use sstp_client_i_os.Hdlc.{
  Scan, incomplete, complete, scan_frame, copy_char, head?, tail, skip_flags,
}
use sstp_client_i_os.Hdlc.{finish, frame_decode, Decoded, ppp_init_fcs16, ppp_good_fcs16}
use sstp_client_i_os.Hdlc.Residue.{good_frame_iff}

abbrev scanned : Scan → List ℕ
scanned (incomplete frame) = frame
scanned (complete index frame) = frame

abbrev Fits : ℕ → List ℕ → Type 0
Fits size frame = All IsByte frame × (length frame ≤ size)

copy_char-Fits :
    (rest : List ℕ) (escape size : ℕ) (frame frame' : List ℕ)
    → All IsByte rest
    → escape < 256
    → Fits size frame
    → copy_char rest escape size frame ≡ some frame'
    → Fits size frame'
unfolding copy_char head?
copy_char-Fits [] escape size frame frame' hr he fits e = ground arith
copy_char-Fits (c ∷ rest) escape size frame frame' hr he fits e =
    let wider =
      All-append IsByte frame (bit_xor c escape ∷ []) fits.0
        (bit_xor-lt_byte c escape hr.0 he, tt) in
    ground (arith, wider, length-append frame (bit_xor c escape ∷ []))

tail-bytes : (rest : List ℕ) → All IsByte rest → All IsByte (tail rest)
unfolding tail
tail-bytes [] h = h
tail-bytes (b ∷ rest) h = h.1

scan_frame-Fits :
    (fuel : ℕ) (rest : List ℕ) (index len size : ℕ) (frame : List ℕ) (scan : Scan)
    → All IsByte rest
    → Fits size frame
    → scan_frame fuel rest index len size frame ≡ some scan
    → Fits size (scanned scan)
unfolding scan_frame head?
scan_frame-Fits zero rest index len size frame scan h fits e = cc
scan_frame-Fits (suc fuel) [] index len size frame scan h fits e = cc
scan_frame-Fits (suc fuel) (b ∷ bs) index len size frame scan h fits e =
    let escaped = b == hdlc_escape in
    let rest' = if escaped then bs else b ∷ bs in
    let index' = if escaped then index + 1 else index in
    let escape : ℕ = if escaped then hdlc_transparency else 0 in
    let bytes : All IsByte rest' = ground (arith, h) in
    elim (Option-cases (copy_char rest' escape size frame)) [
      | inl fault ↦ ground (arith, fault)
      | inr (frame', copied) ↦
          let fits' =
            copy_char-Fits rest' escape size frame frame' bytes (ground arith) fits copied in
          let later =
            scan_frame-Fits fuel (tail rest') (index' + 1) len size frame' scan
              (tail-bytes rest' bytes) fits' in
          ground (arith, copied, fits', later)
    ]

-- The last two of a list of two or more.
split_last :
    (frame : List ℕ)
    → 2 ≤ length frame
    → (payload : List ℕ) × (c : ℕ) × (d : ℕ) × (frame ≡ payload ++ c ∷ d ∷ [])
split_last [] h = absurd (omega arith)
split_last (a ∷ []) h = absurd (omega arith)
split_last (a ∷ b ∷ []) h = ([], a, b, refl)
split_last (a ∷ b ∷ e ∷ r) h =
    let (payload, c, d, same) = split_last (b ∷ e ∷ r) (omega arith) in
    (a ∷ payload, c, d, ap (λ t. a ∷ t) same)

All-append_split : (xs ys : List ℕ) → All IsByte (xs ++ ys) → All IsByte xs × All IsByte ys
All-append_split [] ys h = (tt, h)
All-append_split (x ∷ xs) ys h =
    let (front, back) = All-append_split xs ys h.1 in ((h.0, front), back)

skip_flags-bytes :
    (buf : List ℕ) (i : ℕ) (rest : List ℕ) (index : ℕ)
    → All IsByte buf
    → skip_flags buf i ≡ some (rest, index)
    → All IsByte rest
unfolding skip_flags
skip_flags-bytes [] i rest index h e = cc
skip_flags-bytes (b ∷ bs) i rest index h e =
    ground (arith, skip_flags-bytes bs (i + 1) rest index h.1)

scanned-finish : (scan : Scan) (len size : ℕ) → (finish scan len size).frame ≡ scanned scan
unfolding finish
scanned-finish (incomplete frame) len size = refl
scanned-finish (complete index frame) len size = refl

frame_decode_parts :
    (buf : List ℕ) (len size : ℕ) (d : Decoded)
    → All IsByte buf
    → frame_decode buf len size ≡ some d
    → (scan : Scan) × (d ≡ finish scan len size) × Fits size (scanned scan)
unfolding frame_decode
frame_decode_parts buf len size d h e = elim (Option-cases (skip_flags buf 0)) [
  | inl fault ↦ absurd (ground (arith, fault))
  | inr ((rest, index), skipped) ↦
      elim (Option-cases (scan_frame (length rest) rest index len size [])) [
        | inl fault ↦ absurd (ground (arith, skipped, fault))
        | inr (scan, scanned_eq) ↦ (
          scan,
          ground (arith, skipped, scanned_eq),
          scan_frame-Fits (length rest) rest index len size [] scan
              (skip_flags-bytes buf 0 rest index h skipped) (tt, omega arith) scanned_eq,
        )
      ]
]

-- Whatever the result, `sstp_frame_decode` writes bytes, and no more than `*size` of them.
pub frame_decode_bound :
    (buf : List ℕ) (len size : ℕ) (d : Decoded)
    → All IsByte buf
    → frame_decode buf len size ≡ some d
    → All IsByte d.frame × (length d.frame ≤ size)
frame_decode_bound buf len size d h e =
    let (scan, same, fits) = frame_decode_parts buf len size d h e in
    let text = ap (λ (t : Decoded). t.frame) same ∙ scanned-finish scan len size in rw text fits

okay_good :
    (scan : Scan) (len size : ℕ)
    → (finish scan len size).status ≡ okay
    → (4 ≤ length (scanned scan))
      × (frame_check ppp_init_fcs16 (scanned scan) ≡ ppp_good_fcs16)
      × ((finish scan len size).size ≡ (length (scanned scan) + 2 ^ 32 - 2) % 2 ^ 32)
unfolding finish
okay_good (incomplete frame) len size e = cc
okay_good (complete index frame) len size e = (ground arith, ground arith, refl)

-- A frame that `sstp_frame_decode` accepts, from any line of bytes and with `*size` a positive int,
-- is a payload with that payload's own checksum behind it, and `*size` is the length of the payload.
pub frame_decode_sound :
    (buf : List ℕ) (len size : ℕ) (d : Decoded)
    → All IsByte buf
    → size < 2 ^ 31
    → frame_decode buf len size ≡ some d
    → d.status ≡ okay
    → (payload : List ℕ) × (d.frame ≡ payload ++ checksum payload) × (d.size ≡ length payload)
frame_decode_sound buf len size d h int e ok =
    let (scan, same, fits) = frame_decode_parts buf len size d h e in
    let text = ap (λ (t : Decoded). t.frame) same ∙ scanned-finish scan len size in
    let (four, good, left) =
      okay_good scan len size (ap (λ (t : Decoded). t.status) (sym same) ∙ ok) in
    let (payload, c, z, split) = split_last (scanned scan) (omega arith) in
    let (front, back) = All-append_split payload (c ∷ z ∷ []) (rw split at fits.0) in
    let own : c ∷ z ∷ [] ≡ checksum payload =
      (good_frame_iff payload c z front back.0 back.1.0).0
        (ap (frame_check ppp_init_fcs16) (sym split) ∙ good) in
    (
      payload,
      text ∙ split ∙ ap (λ t. payload ++ t) own,
      omega (
        arith,
        ap (λ (t : Decoded). t.size) same,
        left,
        ap length split,
        length-append payload (c ∷ z ∷ []),
        fits.1,
      ),
    )
