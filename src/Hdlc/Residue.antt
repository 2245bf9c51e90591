-- ===== src/Hdlc/Residue.antt =====
-- The residue 0xf0b8 of sstp/sstp-fcs.c: which frames pass the check of `sstp_frame_decode`.
use sstp_client_i_os.Base.{ℕ, ◌+◌, ◌*◌, ◌/◌, ◌%◌, ◌<◌, bit_and, bit_xor}
use sstp_client_i_os.Base.{
  ◌≡◌, ◌↔◌, refl, ap, ap₂, sym, ◌∙◌, arith, List, [], ◌∷◌, ◌++◌, get_or, All,
}
use sstp_client_i_os.Base.{IsByte, ◌==◌, if◌then◌else◌}
use sstp_client_i_os.Base.Bits.{bit_xor_comm, bit_xor_assoc, bit_xor_cancel, bit_xor-lt_byte}
use sstp_client_i_os.Base.Bits.{
  bit_and_byte, bit_xor_bytes, bit_xor_solve, agree_below, agree_below→eq,
}
use sstp_client_i_os.Hdlc.{fcstab, fcs_step, frame_check, checksum, ppp_init_fcs16, ppp_good_fcs16}
use sstp_client_i_os.Hdlc.Checksum.{fcs_step_lem, fcs_step-lt, frame_check-lt, frame_check-append}

abbrev entry : ℕ → ℕ
entry i = get_or fcstab i 0

-- The high byte of an entry of the table finds the entry.
abbrev entry_found : ℕ → ℕ → ℕ → ℕ
entry_found high i j = if j / 256 == high then i else j

high_f0 : (i : ℕ) → i < 256 → (if entry i / 256 == 0xf0 then i else 0x87) ≡ 0x87
unfolding agree_below
high_f0 = agree_below→eq _ (λ i. 0x87) 256 refl

high_0f : (i : ℕ) → i < 256 → (if entry i / 256 == 0x0f then i else 0xff) ≡ 0xff
unfolding agree_below
high_0f = agree_below→eq _ (λ i. 0xff) 256 refl

-- What the two bytes behind a checksum `f` must be for the residue to be the good one.
abbrev low_fcs : ℕ → ℕ
low_fcs f = bit_xor (f % 256) 0xff

abbrev high_fcs : ℕ → ℕ
high_fcs f = bit_xor (f / 256) 0xff

-- The second byte brings the good residue exactly when it meets the entry 0x87 from a word whose
-- high byte is 0x0f.
last_step :
    (g d : ℕ)
    → g < 65536
    → d < 256
    → (fcs_step g d ≡ ppp_good_fcs16) ↔ ((bit_xor (g % 256) d ≡ 0x87) × (g / 256 ≡ 0x0f))
last_step g d hg hd =
    let i : ℕ = bit_xor (g % 256) d in
    let e : ℕ = entry i in
    let parts = fcs_step_lem g d hg hd in
    let inside : i < 256 = bit_xor-lt_byte (g % 256) d (omega arith) hd in
    (
      λ good.
          let high : e / 256 ≡ 0xf0 = omega (arith, parts.0, good) in
          let found : i ≡ 0x87 = ground (arith, high_f0 i inside, high) in
          let known : e ≡ 0xf0b7 = ap entry found in
          let lowest : bit_xor (e % 256) (g / 256) ≡ 0xb8 = sym parts.1 ∙ ap (λ t. t % 256) good in
          let undo : bit_xor 0xb7 (g / 256) ≡ 0xb8 =
            ap (λ t. bit_xor (t % 256) (g / 256)) (sym known) ∙ lowest in
          (found, sym (bit_xor_cancel 0xb7 (g / 256)) ∙ ap (bit_xor 0xb7) undo),
      λ h.
          let known : e ≡ 0xf0b7 = ap entry h.0 in
          let low : fcs_step g d % 256 ≡ 0xb8 =
            parts.1 ∙ ap₂ (λ s t. bit_xor (s % 256) t) known h.1 in
          omega (arith, parts.0, known, low),
    )

-- The two bytes behind a checksum bring the good residue exactly when they are its complement.
pub residue_iff :
    (f c d : ℕ)
    → f < 65536
    → c < 256
    → d < 256
    → (fcs_step (fcs_step f c) d ≡ ppp_good_fcs16) ↔ ((c ≡ low_fcs f) × (d ≡ high_fcs f))
residue_iff f c d hf hc hd =
    let h : ℕ = f / 256 in
    let i : ℕ = bit_xor (f % 256) c in
    let g : ℕ = fcs_step f c in
    let parts = fcs_step_lem f c hf hc in
    let last = last_step g d (fcs_step-lt f c hf hc) hd in
    let inside : i < 256 = bit_xor-lt_byte (f % 256) c (omega arith) hc in
    let folded : bit_xor (bit_xor 0x78 h) 0x87 ≡ high_fcs f =
      ap (λ t. bit_xor t 0x87) (bit_xor_comm 0x78 h) ∙ bit_xor_assoc h 0x78 0x87 in
    (
      λ good.
          let meets = last.0 good in
          let found : i ≡ 0xff = ground (arith, high_0f i inside, parts.0, meets.1) in
          let low : g % 256 ≡ bit_xor 0x78 h =
            parts.1 ∙ ap (λ t. bit_xor (entry t % 256) h) found in
          let second =
            (bit_xor_solve (bit_xor 0x78 h) d 0x87).0 (ap (λ t. bit_xor t d) (sym low) ∙ meets.0) in
          ((bit_xor_solve (f % 256) c 0xff).0 found, second ∙ folded),
      λ bytes.
          let found : i ≡ 0xff = (bit_xor_solve (f % 256) c 0xff).1 bytes.0 in
          let low : g % 256 ≡ bit_xor 0x78 h =
            parts.1 ∙ ap (λ t. bit_xor (entry t % 256) h) found in
          let high : g / 256 ≡ 0x0f = parts.0 ∙ ap (λ t. entry t / 256) found in
          let second = (bit_xor_solve (bit_xor 0x78 h) d 0x87).1 (bytes.1 ∙ sym folded) in
          last.1 (ap (λ t. bit_xor t d) low ∙ second, high),
    )

-- The bytes that `sstp_frame_encode` appends, in terms of the checksum's own bytes.
pub checksum_lem :
    (source : List ℕ)
    → All IsByte source
    → let f = frame_check ppp_init_fcs16 source in checksum source ≡ low_fcs f ∷ high_fcs f ∷ []
unfolding checksum
checksum_lem source h =
    let f : ℕ = frame_check ppp_init_fcs16 source in
    let below : f < 65536 = frame_check-lt ppp_init_fcs16 source (omega arith) h in
    let split : f / 256 * 256 + f % 256 ≡ f = omega arith in
    let x : ℕ = bit_xor f 0xffff in
    let bytes = bit_xor_bytes (f / 256) (f % 256) 255 255 (omega arith) (omega arith) in
    let whole : x ≡ high_fcs f * 256 + low_fcs f =
      ap (λ t. bit_xor t 0xffff) (sym split) ∙ bytes.0 in
    let high : high_fcs f < 256 = bit_xor-lt_byte (f / 256) 255 (omega arith) (omega arith) in
    let first : bit_and x 0xff ≡ low_fcs f = bit_and_byte x ∙ omega (arith, whole, bytes.1) in
    let second : bit_and (x / 256) 0xff ≡ high_fcs f =
      bit_and_byte (x / 256) ∙ omega (arith, whole, bytes.1, high) in
    ap₂ (λ a b. a ∷ b ∷ []) first second

pub checksum-IsByte : (source : List ℕ) → All IsByte source → All IsByte (checksum source)
checksum-IsByte source h =
    let f : ℕ = frame_check ppp_init_fcs16 source in
    let below : f < 65536 = frame_check-lt ppp_init_fcs16 source (omega arith) h in
    rw (checksum_lem source h) (
      bit_xor-lt_byte (f % 256) 255 (omega arith) (omega arith),
      (bit_xor-lt_byte (f / 256) 255 (omega arith) (omega arith), tt),
    )

-- A frame passes the check exactly when its last two bytes are the checksum of those before.
pub good_frame_iff :
    (payload : List ℕ) (c d : ℕ)
    → All IsByte payload
    → c < 256
    → d < 256
    → (frame_check ppp_init_fcs16 (payload ++ c ∷ d ∷ []) ≡ ppp_good_fcs16)
      ↔ (c ∷ d ∷ [] ≡ checksum payload)
unfolding frame_check
good_frame_iff payload c d h hc hd =
    let f : ℕ = frame_check ppp_init_fcs16 payload in
    let below : f < 65536 = frame_check-lt ppp_init_fcs16 payload (omega arith) h in
    let last = residue_iff f c d below hc hd in
    rw (frame_check-append ppp_init_fcs16 payload (c ∷ d ∷ []), checksum_lem payload h)
      (
        λ good. let bytes = last.0 good in ap₂ (λ a b. a ∷ b ∷ []) bytes.0 bytes.1,
        λ e. last.1 (cc, cc),
      )

pub good_frame :
    (payload : List ℕ)
    → All IsByte payload
    → frame_check ppp_init_fcs16 (payload ++ checksum payload) ≡ ppp_good_fcs16
unfolding checksum
good_frame payload h =
    let bytes = checksum-IsByte payload h in (good_frame_iff payload _ _ h bytes.0 bytes.1.0).1 refl
