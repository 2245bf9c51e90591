-- ===== src/Ios/PinChecks.antt =====
-- The two comparisons of a pin in sstp/sstp-ios.c.
use sstp_client_i_os.Base.{
  ℕ, suc, ◌+◌, ◌*◌, ◌/◌, ◌%◌, ◌<◌, Bool, true, false, ◌&&◌, Option, none, some, List, [], ◌∷◌,
  length, map, ◌==◌, ◌>>=◌, ◌≡◌, refl, ap, ◌∙◌, sym, arith, All, IsByte, inl, inr, Bool-cases,
  if_true, if_false,
}
use sstp_client_i_os.Ios.Errors.{str_same}
use sstp_client_i_os.Ios.Pin.{
  hex_nibble, parse_pairs, parse_sha256_hex, digest_same, pin_matches, hex_digit, print_hex,
  to_lower, case_same,
}

-- Whether the character is read as this nibble.
abbrev reads : Option ℕ → ℕ → Bool
reads none n = false
reads (some m) n = n == m

lower-hex_digit : (n : ℕ) → n < 16 → to_lower (hex_digit n) ≡ hex_digit n
unfolding to_lower hex_digit
lower-hex_digit n h = ground arith

-- A digit is found in a character of either case exactly when the character is read as that digit.
digit_found : (n c : ℕ) → n < 16 → (hex_digit n == to_lower c) ≡ reads (hex_nibble c) n
unfolding to_lower hex_digit hex_nibble
digit_found n c h = ground arith

nibble_small : (c n : ℕ) → hex_nibble c ≡ some n → n < 16
unfolding hex_nibble
nibble_small c n e = ground arith

nibbles :
    (b hi lo : ℕ)
    → b < 256
    → hi < 16
    → lo < 16
    → (b / 16 % 16 == hi) && (b % 16 == lo) ≡ (b == (hi * 16 + lo) % 256)
nibbles b hi lo hb hh hl = ground arith

-- Whether the pairs are read as these bytes.
abbrev reads_all : List ℕ → Option (List ℕ) → Bool
reads_all bytes none = false
reads_all bytes (some want) = str_same bytes want

false_and : (b : Bool) → (b && false) ≡ false
false_and true = refl
false_and false = refl

and_assoc : (a b c : Bool) → (a && (b && c)) ≡ ((a && b) && c)
and_assoc true b c = refl
and_assoc false b c = refl

-- What the pair of characters adds, by what they are read as.
abbrev paired : Option ℕ → Option ℕ → Option (List ℕ) → Option (List ℕ)
paired x y o = x >>= λ hi. y >>= λ lo. o >>= λ out. some ((hi * 16 + lo) % 256 ∷ out)

abbrev Small : Option ℕ → Type 0
Small x = (n : ℕ) → x ≡ some n → n < 16

paired-reads :
    (b : ℕ) (bs : List ℕ) (x y : Option ℕ) (o : Option (List ℕ))
    → b < 256
    → Small x
    → Small y
    → (reads x (b / 16 % 16) && (reads y (b % 16) && reads_all bs o))
      ≡ reads_all (b ∷ bs) (paired x y o)
unfolding str_same
paired-reads b bs none y o hb hx hy = refl
paired-reads b bs (some hi) none o hb hx hy = false_and _
paired-reads b bs (some hi) (some lo) none hb hx hy = rw (false_and (b % 16 == lo)) (false_and _)
paired-reads b bs (some hi) (some lo) (some want) hb hx hy =
    and_assoc (b / 16 % 16 == hi) (b % 16 == lo) (str_same bs want)
    ∙ ap (λ t. t && str_same bs want) (nibbles b hi lo hb (hx hi refl) (hy lo refl))

nothing_found : (x y : Option ℕ) (o : Option (List ℕ)) → false ≡ reads_all [] (paired x y o)
unfolding str_same
nothing_found none y o = refl
nothing_found (some hi) none o = refl
nothing_found (some hi) (some lo) none = refl
nothing_found (some hi) (some lo) (some want) = refl

pairs_found :
    (bs pin : List ℕ)
    → All IsByte bs
    → case_same (print_hex bs) pin ≡ reads_all bs (parse_pairs pin)
unfolding case_same print_hex str_same parse_pairs
pairs_found [] [] all = refl
pairs_found [] (h ∷ []) all = refl
pairs_found [] (h ∷ l ∷ pin) all = nothing_found (hex_nibble h) (hex_nibble l) (parse_pairs pin)
pairs_found (b ∷ bs) [] all = refl
pairs_found (b ∷ bs) (h ∷ []) all = false_and _
pairs_found (b ∷ bs) (h ∷ l ∷ pin) all =
    rw
      (
        lower-hex_digit (b / 16 % 16) (omega arith),
        lower-hex_digit (b % 16) (omega arith),
        digit_found (b / 16 % 16) h (omega arith),
        digit_found (b % 16) l (omega arith),
        pairs_found bs pin (all.1),
      )
      (paired-reads b bs (hex_nibble h) (hex_nibble l) (parse_pairs pin) (all.0) (nibble_small h)
        (nibble_small l))

length-map : (f : ℕ → ℕ) (xs : List ℕ) → length (map f xs) ≡ length xs
length-map f [] = refl
length-map f (x ∷ xs) = ap suc (length-map f xs)

length-print_hex : (bs : List ℕ) → length (print_hex bs) ≡ 2 * length bs
unfolding print_hex
length-print_hex [] = refl
length-print_hex (b ∷ bs) = omega (arith, length-print_hex bs)

pub str_same-length : (a b : List ℕ) → str_same a b ≡ true → length a ≡ length b
unfolding str_same
str_same-length [] [] e = refl
str_same-length [] (d ∷ ds) e = absurd (ground arith)
str_same-length (c ∷ cs) [] e = absurd (ground arith)
str_same-length (c ∷ cs) (d ∷ ds) e = ap suc (str_same-length cs ds (ground arith))

case_same-length :
    (bs pin : List ℕ) → case_same (print_hex bs) pin ≡ true → length pin ≡ 2 * length bs
unfolding case_same
case_same-length bs pin e = omega (
  arith,
  str_same-length (map to_lower (print_hex bs)) (map to_lower pin) e,
  length-map to_lower (print_hex bs),
  length-map to_lower pin,
  length-print_hex bs,
)

-- What `digest_same` says of a digest of the right length.
digest_same-reads :
    (digest : List ℕ) (o : Option (List ℕ))
    → length digest ≡ 32
    → digest_same o (some digest) ≡ reads_all digest o
unfolding digest_same
digest_same-reads digest none e = refl
digest_same-reads digest (some want) e =
    if_true (length digest == 32) (str_same digest want) false (ground arith)

module _ (digest : List ℕ) (bytes : All IsByte digest) (long : length digest ≡ 32) where
  -- The two comparisons of a certificate with the pin give the same answer, whatever the pin is: the
  -- one of the bytes that the pin denotes during the TLS handshake (`ios_pin_matches`), and the one
  -- of texts, in which upper and lower case are the same, behind the HTTP handshake
  -- (`ios_http_done`).
  pub case_same-pin_matches :
      (pin : List ℕ) → case_same (print_hex digest) pin ≡ pin_matches (some digest) pin
  unfolding pin_matches parse_sha256_hex
  case_same-pin_matches [] = elim (Bool-cases (case_same (print_hex digest) [])) [
    | inl e ↦ absurd (omega (arith, long, case_same-length digest [] e))
    | inr e ↦ e
  ]
  case_same-pin_matches (c ∷ cs) = elim (Bool-cases (length (c ∷ cs) == 64)) [
    | inl whole ↦
        pairs_found digest (c ∷ cs) bytes
        ∙ sym (digest_same-reads digest (parse_pairs (c ∷ cs)) long)
        ∙ ap (λ o. digest_same o (some digest)) (sym (if_true _ _ _ whole))
    | inr short ↦
        let differs : case_same (print_hex digest) (c ∷ cs) ≡ false =
          elim (Bool-cases (case_same (print_hex digest) (c ∷ cs))) [
            | inl e ↦ absurd (ground (arith, long, case_same-length digest (c ∷ cs) e))
            | inr e ↦ e
          ] in
        differs ∙ ap (λ o. digest_same o (some digest)) (sym (if_false _ _ _ short))
  ]

nibble_of_digit : (n : ℕ) → n < 16 → hex_nibble (hex_digit n) ≡ some n
unfolding hex_nibble hex_digit
nibble_of_digit n h = ground arith

parse_pairs-print_hex : (bs : List ℕ) → All IsByte bs → parse_pairs (print_hex bs) ≡ some bs
unfolding parse_pairs print_hex
parse_pairs-print_hex [] all = refl
parse_pairs-print_hex (b ∷ bs) all =
    let whole : (b / 16 % 16 * 16 + b % 16) % 256 ≡ b = omega (arith, all.0) in
    rw (
      nibble_of_digit (b / 16 % 16) (omega arith),
      nibble_of_digit (b % 16) (omega arith),
      parse_pairs-print_hex bs (all.1),
      whole,
    )

-- The digest that is printed with "%02x" is read back by `ios_parse_sha256_hex`.
pub parse_sha256_hex-print_hex :
    (bs : List ℕ) → All IsByte bs → length bs ≡ 32 → parse_sha256_hex (print_hex bs) ≡ some bs
unfolding parse_sha256_hex
parse_sha256_hex-print_hex bs all long =
    if_true (length (print_hex bs) == 64) _ none (ground (arith, length-print_hex bs))
    ∙ parse_pairs-print_hex bs all
