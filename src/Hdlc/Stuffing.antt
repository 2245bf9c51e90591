-- ===== src/Hdlc/Stuffing.antt =====
-- `sstp_frame_encode` of sstp/sstp-fcs.c: what it writes, and that it stays inside of `frame`.
use sstp_client_i_os.Base.{ℕ, ◌+◌, ◌*◌, ◌≤◌, bit_xor, true, false, ◌≡◌, ◌≢◌}
use sstp_client_i_os.Base.{refl, sym, ap, ◌∙◌, arith, List, [], ◌∷◌, ◌++◌, append_assoc, length}
use sstp_client_i_os.Base.{
  length-append, if◌then◌else◌, Bool-cases, inl, inr, ltb, ltb→le, ltb→lt, okay, ◌<◌,
}
use sstp_client_i_os.Hdlc.{hdlc_flag, hdlc_escape, hdlc_transparency, must_escape, checksum}
use sstp_client_i_os.Base.{bit_and, ◌/◌}
use sstp_client_i_os.Hdlc.{encode_loop, frame_encode, frame_check, ppp_init_fcs16}

-- One character as it goes over the line, and a sequence of them.
unfoldable pub stuffed : ℕ → List ℕ
stuffed c = if must_escape c then hdlc_escape ∷ bit_xor c hdlc_transparency ∷ [] else c ∷ []

unfoldable pub stuff : List ℕ → List ℕ
stuff [] = []
stuff (c ∷ cs) = stuffed c ++ stuff cs

pub length-stuffed : (c : ℕ) → (1 ≤ length (stuffed c)) × (length (stuffed c) ≤ 2)
unfolding stuffed
length-stuffed c = ground arith

encode_loop_cons :
    (c : ℕ) (cs : List ℕ) (flen : ℕ) (frame : List ℕ)
    → ltb flen (length frame + 3) ≡ false
    → encode_loop (c ∷ cs) flen frame ≡ encode_loop cs flen (frame ++ stuffed c)
unfolding encode_loop stuffed
encode_loop_cons c cs flen frame h = rw h

encode_loop_full :
    (c : ℕ) (cs : List ℕ) (flen : ℕ) (frame : List ℕ)
    → ltb flen (length frame + 3) ≡ true
    → (encode_loop (c ∷ cs) flen frame).status ≢ okay
unfolding encode_loop
encode_loop_full c cs flen frame h = rw h (λ e. cc)

encode_loop_full_frame :
    (c : ℕ) (cs : List ℕ) (flen : ℕ) (frame : List ℕ)
    → ltb flen (length frame + 3) ≡ true
    → (encode_loop (c ∷ cs) flen frame).frame ≡ frame
unfolding encode_loop
encode_loop_full_frame c cs flen frame h = rw h

pub length-checksum : (source : List ℕ) → length (checksum source) ≡ 2
unfolding checksum
length-checksum source = refl

-- A successful loop has written the stuffed characters and the closing flag.
encode_loop_written :
    (cs : List ℕ) (flen : ℕ) (frame : List ℕ)
    → (encode_loop cs flen frame).status ≡ okay
    → ((encode_loop cs flen frame).frame ≡ frame ++ (stuff cs ++ hdlc_flag ∷ []))
      × ((encode_loop cs flen frame).flen ≡ length (encode_loop cs flen frame).frame)
unfolding stuff
encode_loop_written [] flen frame h = (unfold encode_loop in refl, unfold encode_loop in refl)
encode_loop_written (c ∷ cs) flen frame h = elim (Bool-cases (ltb flen (length frame + 3))) [
  | inl full ↦ absurd (encode_loop_full c cs flen frame full h)
  | inr room ↦
      let next = encode_loop_cons c cs flen frame room in
      let ih = encode_loop_written cs flen (frame ++ stuffed c) (rw next at h) in
      rw next (
        ih.0
            ∙ append_assoc frame (stuffed c) (stuff cs ++ hdlc_flag ∷ [])
            ∙ ap (λ t. frame ++ t) (sym (append_assoc (stuffed c) (stuff cs) (hdlc_flag ∷ []))),
        ih.1,
      )
]

-- The array is never left: a byte is kept for the closing flag.
encode_loop_bound :
    (cs : List ℕ) (flen : ℕ) (frame : List ℕ)
    → length frame + 1 ≤ flen
    → length (encode_loop cs flen frame).frame ≤ flen
encode_loop_bound [] flen frame h =
    unfold encode_loop in omega (arith, length-append frame (hdlc_flag ∷ []))
encode_loop_bound (c ∷ cs) flen frame h = elim (Bool-cases (ltb flen (length frame + 3))) [
  | inl full ↦ rw (encode_loop_full_frame c cs flen frame full) (omega arith)
  | inr room ↦ rw (encode_loop_cons c cs flen frame room) (
      encode_loop_bound cs flen (frame ++ stuffed c) (
        omega (
          arith,
          ltb→le flen (length frame + 3) room,
          length-append frame (stuffed c),
          length-stuffed c,
        )))
]

-- Two bytes for each character and one for the flag are enough.
encode_loop_enough :
    (cs : List ℕ) (flen : ℕ) (frame : List ℕ)
    → length frame + 2 * length cs + 1 ≤ flen
    → (encode_loop cs flen frame).status ≡ okay
encode_loop_enough [] flen frame h = unfold encode_loop in refl
encode_loop_enough (c ∷ cs) flen frame h =
    let room : ltb flen (length frame + 3) ≡ false = ground arith in
    rw (encode_loop_cons c cs flen frame room) (
      encode_loop_enough cs flen (frame ++ stuffed c)
        (omega (arith, length-append frame (stuffed c), length-stuffed c)))

-- It goes well exactly when there are three bytes of room before the last character.
encode_loop_fits :
    (cs : List ℕ) (last flen : ℕ) (frame : List ℕ)
    → (length frame + length (stuff cs) + 3 ≤ flen
        → (encode_loop (cs ++ last ∷ []) flen frame).status ≡ okay)
      × (flen < length frame + length (stuff cs) + 3
          → (encode_loop (cs ++ last ∷ []) flen frame).status ≢ okay)
unfolding stuff
encode_loop_fits [] last flen frame = (
  λ h. rw (encode_loop_cons last [] flen frame (ground arith)) (unfold encode_loop in refl),
  λ h. encode_loop_full last [] flen frame (ground arith),
)
encode_loop_fits (c ∷ cs) last flen frame =
    let sizes = length-append (stuffed c) (stuff cs) in
    let grown = length-append frame (stuffed c) in
    let ih = encode_loop_fits cs last flen (frame ++ stuffed c) in
    elim (Bool-cases (ltb flen (length frame + 3))) [
      | inl full ↦ (
        λ h. absurd (omega (arith, ltb→lt flen (length frame + 3) full)),
        λ h. encode_loop_full c (cs ++ last ∷ []) flen frame full,
      )
      | inr room ↦
          rw (encode_loop_cons c (cs ++ last ∷ []) flen frame room)
            (λ h. ih.0 (omega (arith, sizes, grown)), λ h. ih.1 (omega (arith, sizes, grown)))
    ]

-- A frame that `sstp_frame_encode` reports as written is a flag, the stuffed payload and checksum,
-- and a flag; `*flen` is its length, and it fits the array.
pub frame_encode_written :
    (source : List ℕ) (flen : ℕ)
    → (frame_encode source flen).status ≡ okay
    → ((frame_encode source flen).frame
        ≡ hdlc_flag ∷ (stuff (source ++ checksum source) ++ hdlc_flag ∷ []))
      × ((frame_encode source flen).flen ≡ length (frame_encode source flen).frame)
unfolding frame_encode
frame_encode_written source flen h =
    encode_loop_written (source ++ checksum source) flen (hdlc_flag ∷ []) h

-- An array of two bytes or more is never overrun, whatever the result.
pub frame_encode_bound :
    (source : List ℕ) (flen : ℕ) → 2 ≤ flen → length (frame_encode source flen).frame ≤ flen
unfolding frame_encode
frame_encode_bound source flen h =
    encode_loop_bound (source ++ checksum source) flen (hdlc_flag ∷ []) h

-- An array of twice the payload and six bytes is always enough.
pub frame_encode_enough :
    (source : List ℕ) (flen : ℕ)
    → 2 * length source + 6 ≤ flen
    → (frame_encode source flen).status ≡ okay
unfolding frame_encode
frame_encode_enough source flen h =
    encode_loop_enough (source ++ checksum source) flen (hdlc_flag ∷ [])
      (omega (arith, length-append source (checksum source), length-checksum source))

-- The characters before the last one of the checksum.
abbrev pub before_last : List ℕ → List ℕ
before_last source =
    source ++ bit_and (bit_xor (frame_check ppp_init_fcs16 source) ppp_init_fcs16) 0xff ∷ []

-- The exact room that the encoder wants.
pub frame_encode_fits :
    (source : List ℕ) (flen : ℕ)
    → (length (stuff (before_last source)) + 4 ≤ flen → (frame_encode source flen).status ≡ okay)
      × (flen < length (stuff (before_last source)) + 4 → (frame_encode source flen).status ≢ okay)
unfolding frame_encode checksum
frame_encode_fits source flen =
    let fcs : ℕ = bit_xor (frame_check ppp_init_fcs16 source) ppp_init_fcs16 in
    let low : ℕ = bit_and fcs 0xff in
    let last : ℕ = bit_and (fcs / 256) 0xff in
    let line : source ++ checksum source ≡ before_last source ++ last ∷ [] =
      sym (append_assoc source (low ∷ []) (last ∷ [])) in
    let same = ap (λ t. (encode_loop t flen (hdlc_flag ∷ [])).status) line in
    let fits = encode_loop_fits (before_last source) last flen (hdlc_flag ∷ []) in
    (λ h. same ∙ fits.0 (omega arith), λ h e. fits.1 (omega arith) (sym same ∙ e))
