-- ===== src/Base/Bits.antt =====
-- Laws of `bit_xor` and `bit_and` at variables, from the recursion on binary digits that the native
-- operations stand for.
use Prim.Native.Nat.{ℕ, zero, suc, ◌+◌, ◌-◌, ◌*◌, ◌/◌, ◌%◌, ◌^◌, ◌≤◌, ◌<◌, min, bit_and, bit_xor}
use Prim.Native.Nat.{digits, bitwise, differ, bit_and-bitwise, bit_xor-bitwise}
use mathlib.Core.Path.{◌≡◌, refl, sym, ap, ap₂, ◌∙◌}
use mathlib.Core.Logic.{◌↔◌, inl, inr}
use mathlib.Core.Bool.{Bool, true, ◌&&◌}
use sstp_client_i_os.Base.Tests.{◌==◌, leb, Bool-cases}
use native.Mathlib.Nat.{le_refl, pow-suc, one-le-pow}
use native.Mathlib.Omega.{arith}

-- `digits` computes one binary digit per unit of fuel; fuel beyond the first operand is not used.
module _ (rest : ℕ → ℕ) (digit : ℕ → ℕ → ℕ) where
  -- The number with that lowest digit.
  abbrev above : ℕ → ℕ → ℕ → ℕ
  above x y high = high * 2 + digit (x % 2) (y % 2)

  digits_one_more :
      (fuel x y : ℕ) → x ≤ fuel → digits rest digit (suc fuel) x y ≡ digits rest digit fuel x y
  digits_one_more zero zero y h = refl
  digits_one_more (suc fuel) zero y h = refl
  digits_one_more (suc fuel) (suc x) y h =
      ap (above (suc x) y) (digits_one_more fuel (suc x / 2) (y / 2) (omega arith))
  digits_one_more zero (suc x) y h = absurd (omega arith)

  digits_enough : (fuel x y : ℕ) → x ≤ fuel → digits rest digit fuel x y ≡ digits rest digit x x y
  digits_enough zero x y h =
      let none_left : 0 ≡ x = omega (arith, h) in ap (λ n. digits rest digit n x y) none_left
  digits_enough (suc fuel) x y h = elim (Bool-cases (leb x fuel)) [
    | inl fits ↦
        let less : x ≤ fuel = ground arith in
        digits_one_more fuel x y less ∙ digits_enough fuel x y less
    | inr full ↦ let whole : suc fuel ≡ x = ground arith in ap (λ n. digits rest digit n x y) whole
  ]

  bitwise-halves :
      (x y : ℕ)
      → bitwise rest digit (suc x) y ≡ above (suc x) y (bitwise rest digit (suc x / 2) (y / 2))
  bitwise-halves x y = ap (above (suc x) y) (digits_enough x (suc x / 2) (y / 2) (omega arith))

pub bit_and_step : (x y : ℕ) → bit_and x y ≡ min (x % 2) (y % 2) + 2 * bit_and (x / 2) (y / 2)
bit_and_step (suc x) y =
    let halves : bit_and (suc x) y ≡ bit_and (suc x / 2) (y / 2) * 2 + min (suc x % 2) (y % 2) =
      simp bit_and-bitwise (bitwise-halves (λ n. 0) min x y) in
    omega (arith, halves)
bit_and_step zero y =
    let none_left : (n : ℕ) → bit_and 0 n ≡ 0 = λ n. simp bit_and-bitwise in
    omega (arith, none_left y, none_left (y / 2))

-- One binary digit of an exclusive or.
abbrev pub xor_digit : ℕ → ℕ → ℕ
xor_digit a b = (a % 2 + b % 2) % 2

differ_digit : (a b : ℕ) → a < 2 → b < 2 → differ a b ≡ (a + b) % 2
differ_digit zero zero p q = refl
differ_digit zero (suc zero) p q = refl
differ_digit (suc zero) zero p q = refl
differ_digit (suc zero) (suc zero) p q = refl
differ_digit zero (suc (suc b)) p q = absurd (omega arith)
differ_digit (suc zero) (suc (suc b)) p q = absurd (omega arith)
differ_digit (suc (suc a)) b p q = absurd (omega arith)

zero-bit_xor : (b : ℕ) → bit_xor 0 b ≡ b
zero-bit_xor b = simp bit_xor-bitwise

bit_xor-suc :
    (a b : ℕ) → bit_xor (suc a) b ≡ bit_xor (suc a / 2) (b / 2) * 2 + differ (suc a % 2) (b % 2)
bit_xor-suc a b = simp bit_xor-bitwise (bitwise-halves (λ y. y) differ a b)

pub bit_xor_step : (a b : ℕ) → bit_xor a b ≡ bit_xor (a / 2) (b / 2) * 2 + xor_digit a b
bit_xor_step zero b = omega (arith, zero-bit_xor b, zero-bit_xor (b / 2))
bit_xor_step (suc a) b =
    omega (arith, bit_xor-suc a b, differ_digit (suc a % 2) (b % 2) (omega arith) (omega arith))

-- The laws go from the halves to the numbers, by induction on a bound of all of them.
xor_comm_below : (n a b : ℕ) → a ≤ n → b ≤ n → bit_xor a b ≡ bit_xor b a
xor_comm_below zero zero zero p q = refl
xor_comm_below zero (suc a) b p q = absurd (omega arith)
xor_comm_below zero zero (suc b) p q = absurd (omega arith)
xor_comm_below (suc n) a b p q = omega (
  arith,
  bit_xor_step a b,
  bit_xor_step b a,
  xor_comm_below n (a / 2) (b / 2) (omega arith) (omega arith),
)

xor_assoc_below :
    (n a b c : ℕ) → a ≤ n → b ≤ n → c ≤ n → bit_xor (bit_xor a b) c ≡ bit_xor a (bit_xor b c)
xor_assoc_below zero zero b c p q r = rw (zero-bit_xor b, zero-bit_xor (bit_xor b c))
xor_assoc_below zero (suc a) b c p q r = absurd (omega arith)
xor_assoc_below (suc n) a b c p q r =
    let left : bit_xor (bit_xor a b / 2) (c / 2) ≡ bit_xor (bit_xor (a / 2) (b / 2)) (c / 2) =
      ap (λ t. bit_xor t (c / 2)) (omega (arith, bit_xor_step a b)) in
    let right : bit_xor (a / 2) (bit_xor b c / 2) ≡ bit_xor (a / 2) (bit_xor (b / 2) (c / 2)) =
      ap (bit_xor (a / 2)) (omega (arith, bit_xor_step b c)) in
    omega (
      arith,
      bit_xor_step (bit_xor a b) c,
      bit_xor_step a (bit_xor b c),
      bit_xor_step a b,
      bit_xor_step b c,
      left,
      right,
      xor_assoc_below n (a / 2) (b / 2) (c / 2) (omega arith) (omega arith) (omega arith),
    )

pub bit_xor_comm : (a b : ℕ) → bit_xor a b ≡ bit_xor b a
bit_xor_comm a b = xor_comm_below (a + b) a b (omega arith) (omega arith)

pub bit_xor_assoc : (a b c : ℕ) → bit_xor (bit_xor a b) c ≡ bit_xor a (bit_xor b c)
bit_xor_assoc a b c = xor_assoc_below (a + b + c) a b c (omega arith) (omega arith) (omega arith)

bit_and-zero_below : (n a : ℕ) → a ≤ n → bit_and a 0 ≡ 0
bit_and-zero_below zero zero h = refl
bit_and-zero_below zero (suc a) h = absurd (omega arith)
bit_and-zero_below (suc n) a h =
    omega (arith, bit_and_step a 0, bit_and-zero_below n (a / 2) (omega arith))

pub mul-two_pow-suc : (q k : ℕ) → q * 2 ^ suc k ≡ 2 * (q * 2 ^ k)
mul-two_pow-suc q k = omega (arith, ap (λ (t : ℕ). q * t) (pow-suc 2 k))

bit_and_fields : (k q r : ℕ) → r < 2 ^ k → bit_and (q * 2 ^ k + r) (2 ^ k - 1) ≡ r
bit_and_fields zero q r fits = omega (arith, bit_and-zero_below (q * 1 + r) (q * 1 + r) (le_refl _))
bit_and_fields (suc k) q r fits = ground (
  arith,
  bit_and_step (q * 2 ^ suc k + r) (2 ^ suc k - 1),
  mul-two_pow-suc q k,
  pow-suc 2 k,
  bit_and_fields k q (r / 2) (omega arith),
)

-- A mask of `k` low digits is the remainder by `2 ^ k`.
pub bit_and_mask : (k a : ℕ) → bit_and a (2 ^ k - 1) ≡ a % 2 ^ k
bit_and_mask k a = ground (arith, one-le-pow k 2, bit_and_fields k (a / 2 ^ k) (a % 2 ^ k))

pub bit_and_byte : (a : ℕ) → bit_and a 0xff ≡ a % 256
bit_and_byte a = bit_and_mask 8 a

-- An exclusive or goes separately over the low `k` binary digits and the rest.
xor_fields :
    (k p q r s : ℕ)
    → r < 2 ^ k
    → s < 2 ^ k
    → (bit_xor (p * 2 ^ k + r) (q * 2 ^ k + s) ≡ bit_xor p q * 2 ^ k + bit_xor r s)
      × (bit_xor r s < 2 ^ k)
xor_fields zero p q (suc r) s hr hs = absurd (omega arith)
xor_fields zero p q zero (suc s) hr hs = absurd (omega arith)
xor_fields zero p q zero zero hr hs =
    let one : (n : ℕ) → n * 1 + 0 ≡ n = λ n. omega arith in
    (cc (one p, one q, one (bit_xor p q)), omega arith)
xor_fields (suc k) p q r s hr hs = ground (
  arith,
  mul-two_pow-suc p k,
  mul-two_pow-suc q k,
  mul-two_pow-suc (bit_xor p q) k,
  pow-suc 2 k,
  bit_xor_step (p * 2 ^ suc k + r) (q * 2 ^ suc k + s),
  bit_xor_step r s,
  xor_fields k p q (r / 2) (s / 2) (omega arith) (omega arith),
)

-- The two bytes of an exclusive or of 16-bit words.
pub bit_xor_bytes :
    (h l i m : ℕ)
    → l < 256
    → m < 256
    → (bit_xor (h * 256 + l) (i * 256 + m) ≡ bit_xor h i * 256 + bit_xor l m) × (bit_xor l m < 256)
bit_xor_bytes h l i m = xor_fields 8 h i l m

pub bit_xor-zero : (a : ℕ) → bit_xor a 0 ≡ a
bit_xor-zero a = rw (bit_xor_comm a 0) (zero-bit_xor a)

-- The last two operands of a chain may change places.
pub bit_xor_right_comm : (a b c : ℕ) → bit_xor (bit_xor a b) c ≡ bit_xor (bit_xor a c) b
bit_xor_right_comm a b c = cc (bit_xor_assoc a b c, bit_xor_assoc a c b, bit_xor_comm b c)

-- A byte below a word shifted by eight, as an exclusive or.
pub byte_pair : (h l : ℕ) → l < 256 → bit_xor l (h * 256) ≡ h * 256 + l
byte_pair h l hl =
    let low : 0 * 256 + l ≡ l = omega arith in
    let high : h * 256 + 0 ≡ h * 256 = omega arith in
    omega (
      arith,
      bit_xor_bytes 0 l h 0 hl (omega arith),
      bit_xor-zero l,
      zero-bit_xor h,
      ap₂ bit_xor low high,
    )

-- A property of all bytes, checked by evaluation.
module _ (f g : ℕ → ℕ) where
  unfoldable pub agree_below : ℕ → Bool
  agree_below zero = true
  agree_below (suc n) = (f n == g n) && agree_below n

  pub agree_below→eq : (n : ℕ) → agree_below n ≡ true → (i : ℕ) → i < n → f i ≡ g i
  unfolding agree_below
  agree_below→eq zero e i h = absurd (omega arith)
  agree_below→eq (suc n) e i h = ground (arith, agree_below→eq n (ground arith) i)

xor_self_below : (n a : ℕ) → a ≤ n → bit_xor a a ≡ 0
xor_self_below zero zero h = refl
xor_self_below zero (suc a) h = absurd (omega arith)
xor_self_below (suc n) a h = omega (arith, bit_xor_step a a, xor_self_below n (a / 2) (omega arith))

pub bit_xor_cancel : (a b : ℕ) → bit_xor a (bit_xor a b) ≡ b
bit_xor_cancel a b = cc (bit_xor_assoc a a b, xor_self_below a a (le_refl a), zero-bit_xor b)

pub bit_xor-lt_byte : (a b : ℕ) → a < 256 → b < 256 → bit_xor a b < 256
bit_xor-lt_byte a b ha hb = (bit_xor_bytes 0 a 0 b ha hb).1

-- An exclusive or has one solution in its second operand.
pub bit_xor_solve : (a b k : ℕ) → (bit_xor a b ≡ k) ↔ (b ≡ bit_xor a k)
bit_xor_solve a b k =
    (λ h. sym (bit_xor_cancel a b) ∙ ap (bit_xor a) h, λ h. ap (bit_xor a) h ∙ bit_xor_cancel a k)
