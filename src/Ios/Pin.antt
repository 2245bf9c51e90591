-- ===== src/Ios/Pin.antt =====
-- sstp/sstp-ios.c: the pinned certificate. The digest of the leaf is compared with the pin twice, as
-- bytes during the TLS handshake (`ios_verify_callback`) and as text behind the HTTP handshake
-- (`ios_http_done`).
use sstp_client_i_os.Base.{
  ℕ, ◌+◌, ◌-◌, ◌*◌, ◌/◌, ◌%◌, Bool, true, false, ◌&&◌, Option, none, some, List, [], ◌∷◌, length,
  map, if◌then◌else◌, ltb, leb, ◌==◌, ◌>>=◌,
}
use sstp_client_i_os.Ios.{Session, tls_system, tls_pinned, tls_insecure_debug}
use sstp_client_i_os.Ios.Errors.{str_same}

-- `ios_hex_nibble`; `none` is -1.
unfoldable pub hex_nibble : ℕ → Option ℕ
hex_nibble c =
    if leb b'0' c && leb c b'9'
    then some (c - b'0')
    else if leb b'a' c && leb c b'f'
    then some (c - b'a' + 10)
    else if leb b'A' c && leb c b'F'
    then some (c - b'A' + 10)
    else none

-- The loop of `ios_parse_sha256_hex`, over as many pairs as there are. Nibbles are below 16, where
-- `(hi << 4) | lo` is this sum.
unfoldable pub parse_pairs : List ℕ → Option (List ℕ)
unfolding hex_nibble
parse_pairs [] = some []
parse_pairs (h ∷ []) = none
parse_pairs (h ∷ l ∷ rest) = do
  hi ← hex_nibble h
  lo ← hex_nibble l
  out ← parse_pairs rest
  some ((hi * 16 + lo) % 256 ∷ out)

-- `ios_parse_sha256_hex`; `none` is -1.
unfoldable pub parse_sha256_hex : List ℕ → Option (List ℕ)
unfolding parse_pairs
parse_sha256_hex hex = if length hex == 64 then parse_pairs hex else none

-- `CRYPTO_memcmp(a, b, 32) == 0` of arrays of the same length.
abbrev pub mem_same : List ℕ → List ℕ → Bool
mem_same a b = str_same a b

-- The end of `ios_pin_matches`: the bytes that the pin denotes, and what `X509_digest` gives, if it
-- succeeds.
unfoldable pub digest_same : Option (List ℕ) → Option (List ℕ) → Bool
unfolding str_same
digest_same none digest = false
digest_same (some want) none = false
digest_same (some want) (some dig) = if length dig == 32 then mem_same dig want else false

-- `ios_pin_matches` of a certificate that is there.
unfoldable pub pin_matches : Option (List ℕ) → List ℕ → Bool
unfolding digest_same parse_sha256_hex
pin_matches digest [] = false
pin_matches digest (c ∷ cs) = digest_same (parse_sha256_hex (c ∷ cs)) digest

-- `ios_verify_callback` for the certificate at that depth, which may be absent, with its digest.
unfoldable pub verify_callback :
    {Rc4 : Type 0} → Session Rc4 → Bool → ℕ → Option (Option (List ℕ)) → Bool
unfolding pin_matches
verify_callback s preverify_ok depth cert =
    let leaf = elim cert as (λ c. Bool) [
      | none ↦ preverify_ok
      | some digest ↦ pin_matches digest s.pin
    ] in
    if s.tls_mode == tls_insecure_debug
    then true
    else if s.tls_mode == tls_system
    then true
    else if (s.tls_mode == tls_pinned) && (depth == 0)
    then leaf
    else preverify_ok

-- A digit of "%02x".
unfoldable pub hex_digit : ℕ → ℕ
hex_digit n = if ltb n 10 then b'0' + n else b'a' + (n - 10)

-- The loop that prints a hash with "%02x".
unfoldable pub print_hex : List ℕ → List ℕ
unfolding hex_digit
print_hex [] = []
print_hex (b ∷ bs) = hex_digit (b / 16 % 16) ∷ hex_digit (b % 16) ∷ print_hex bs

-- `tolower` in the C locale.
unfoldable pub to_lower : ℕ → ℕ
to_lower c = if leb b'A' c && leb c b'Z' then c + 32 else c

-- `strcasecmp(a, b) == 0`
unfoldable pub case_same : List ℕ → List ℕ → Bool
unfolding str_same to_lower
case_same a b = str_same (map to_lower a) (map to_lower b)
