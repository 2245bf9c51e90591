-- ===== src/Hdlc/Checksum.antt =====
-- `sstp_frame_check` of sstp/sstp-fcs.c against the polynomial of RFC 1662, and the residue of a
-- frame that carries its own checksum.
use sstp_client_i_os.Base.{ℕ, zero, suc, ◌+◌, ◌*◌, ◌/◌, ◌%◌, ◌^◌, ◌<◌, bit_and, bit_xor}
use sstp_client_i_os.Base.{◌≡◌, refl, ap, ap₂, ◌∙◌, arith, List, [], ◌∷◌, ◌++◌, get_or, All, IsByte}
use sstp_client_i_os.Base.{◌==◌, if◌then◌else◌}
use sstp_client_i_os.Base.Bits.{bit_xor_step, bit_xor_comm, bit_xor_right_comm}
use sstp_client_i_os.Base.Bits.{
  bit_xor_bytes, bit_xor-zero, byte_pair, bit_and_byte, bit_xor-lt_byte, mul-two_pow-suc,
}
use sstp_client_i_os.Base.Bits.{agree_below, agree_below→eq}
use sstp_client_i_os.Hdlc.{fcstab, fcs_step, frame_check}

-- The reflected polynomial x^16 + x^12 + x^5 + 1, one bit at a time.
unfoldable pub crc_bit : ℕ → ℕ
crc_bit x = if x % 2 == 1 then bit_xor (x / 2) 0x8408 else x / 2

unfoldable pub crc_bits : ℕ → ℕ → ℕ
crc_bits zero x = x
crc_bits (suc k) x = crc_bits k (crc_bit x)

unfoldable pub crc : ℕ → List ℕ → ℕ
unfolding crc_bits
crc fcs [] = fcs
crc fcs (c ∷ cs) = crc (crc_bits 8 (bit_xor fcs c)) cs

crc_bit-xor : (a b : ℕ) → crc_bit (bit_xor a (b * 2)) ≡ bit_xor (crc_bit a) b
unfolding crc_bit
crc_bit-xor a b = ground (
  arith,
  bit_xor_step a (b * 2),
  ap (bit_xor (a / 2)) halved,
  bit_xor_right_comm (a / 2) b 0x8408,
)
  where
    halved : b * 2 / 2 ≡ b
    halved = omega arith

crc_bits-xor : (k a b : ℕ) → crc_bits k (bit_xor a (b * 2 ^ k)) ≡ bit_xor (crc_bits k a) b
unfolding crc_bits
crc_bits-xor zero a b = ap (bit_xor a) (omega arith)
crc_bits-xor (suc k) a b =
    ap (λ t. crc_bits k (crc_bit (bit_xor a t))) (omega (arith, mul-two_pow-suc b k))
    ∙ ap (crc_bits k) (crc_bit-xor a (b * 2 ^ k))
    ∙ crc_bits-xor k (crc_bit a) b

fcstab_correct : (l : ℕ) → l < 256 → get_or fcstab l 0 ≡ crc_bits 8 l
unfolding crc_bits crc_bit agree_below
fcstab_correct = agree_below→eq (λ l. get_or fcstab l 0) (crc_bits 8) 256 refl

-- The byte below the checksum after an exclusive or, and the rest.
pub xor_byte :
    (f c : ℕ) → c < 256 → (bit_xor f c / 256 ≡ f / 256) × (bit_xor f c % 256 ≡ bit_xor (f % 256) c)
xor_byte f c h =
    let split : f / 256 * 256 + f % 256 ≡ f = omega arith in
    let low : 0 * 256 + c ≡ c = omega arith in
    omega (
      arith,
      bit_xor_bytes (f / 256) (f % 256) 0 c (omega arith) h,
      bit_xor-zero (f / 256),
      ap₂ bit_xor split low,
    )

fcs_step-crc : (f c : ℕ) → c < 256 → fcs_step f c ≡ crc_bits 8 (bit_xor f c)
unfolding fcs_step
fcs_step-crc f c h =
    let x : ℕ = bit_xor f c in
    let whole : bit_xor (x % 256) (x / 256 * 256) ≡ x =
      byte_pair (x / 256) (x % 256) (omega arith) ∙ omega arith in
    cc (
      bit_and_byte x,
      fcstab_correct (x % 256) (omega arith),
      (xor_byte f c h).0,
      crc_bits-xor 8 (x % 256) (x / 256),
      whole,
      bit_xor_comm (f / 256) (crc_bits 8 (x % 256)),
    )

-- On every sequence of bytes the table-driven checksum is the bit-by-bit one of the polynomial.
pub frame_check-eq-crc :
    (fcs : ℕ) (bytes : List ℕ) → All IsByte bytes → frame_check fcs bytes ≡ crc fcs bytes
unfolding frame_check crc
frame_check-eq-crc fcs [] h = refl
frame_check-eq-crc fcs (c ∷ cs) h =
    rw (← fcs_step-crc fcs c h.0) (frame_check-eq-crc (fcs_step fcs c) cs h.1)

pub frame_check-append :
    (fcs : ℕ) (xs ys : List ℕ) → frame_check fcs (xs ++ ys) ≡ frame_check (frame_check fcs xs) ys
unfolding frame_check
frame_check-append fcs [] ys = refl
frame_check-append fcs (x ∷ xs) ys = frame_check-append (fcs_step fcs x) xs ys

fcstab-lt : (l : ℕ) → l < 256 → get_or fcstab l 0 / 65536 ≡ 0
unfolding agree_below
fcstab-lt = agree_below→eq (λ l. get_or fcstab l 0 / 65536) (λ l. 0) 256 refl

-- The new checksum, by the two bytes of the old one: a word again.
pub fcs_step_lem :
    (f c : ℕ)
    → f < 65536
    → c < 256
    → let e = get_or fcstab (bit_xor (f % 256) c) 0 in
      (fcs_step f c / 256 ≡ e / 256) × (fcs_step f c % 256 ≡ bit_xor (e % 256) (f / 256))
unfolding fcs_step
fcs_step_lem f c hf hc =
    let e : ℕ = get_or fcstab (bit_xor (f % 256) c) 0 in
    let index : bit_and (bit_xor f c) 0xff ≡ bit_xor (f % 256) c =
      bit_and_byte (bit_xor f c) ∙ (xor_byte f c hc).1 in
    rw (index, bit_xor_comm (f / 256) e) (xor_byte e (f / 256) (omega arith))

pub fcs_step-lt : (f c : ℕ) → f < 65536 → c < 256 → fcs_step f c < 65536
fcs_step-lt f c hf hc = omega (
  arith,
  fcs_step_lem f c hf hc,
  fcstab-lt (bit_xor (f % 256) c) (bit_xor-lt_byte (f % 256) c (omega arith) hc),
)

pub frame_check-lt :
    (f : ℕ) (bytes : List ℕ) → f < 65536 → All IsByte bytes → frame_check f bytes < 65536
unfolding frame_check
frame_check-lt f [] hf h = hf
frame_check-lt f (c ∷ cs) hf h = frame_check-lt (fcs_step f c) cs (fcs_step-lt f c hf h.0) h.1
