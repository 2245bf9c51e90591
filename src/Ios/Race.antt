-- ===== src/Ios/Race.antt =====
-- The pair of sockets of sstp/sstp-ios.c when a packet is read before it is written whole.
use sstp_client_i_os.Base.{
  ℕ, zero, suc, ◌+◌, ◌≤◌, ◌≡◌, refl, arith, true, false, List, [], ◌∷◌, length, drop, if◌then◌else◌,
  ltb, All, length-take, length-drop, if_both, if_each,
}
use sstp_client_i_os.Ios.Inject.{header, header_len, skipped, inject}
use sstp_client_i_os.Ios.Queue.{Fits}

abbrev Shorter : ℕ → List ℕ → Type 0
Shorter n packet = length packet + 4 ≤ n

Shorter-le :
    (packets : List (List ℕ)) (n m : ℕ) → n ≤ m → All (Shorter n) packets → All (Shorter m) packets
Shorter-le [] n m h all = tt
Shorter-le (p ∷ packets) n m h all = (omega (arith, all.0), Shorter-le packets n m h (all.1))

-- What is handed on is shorter than what was there, by a header at least.
inject-Shorter : (n : ℕ) (pair : List ℕ) → All (Shorter (length pair)) ((inject n pair).0)
unfolding inject
inject-Shorter zero pair = tt
inject-Shorter (suc n) pair =
    let rest : List ℕ = drop 4 pair in
    let len : ℕ = header_len pair in
    let after : List ℕ = if skipped len then rest else drop len rest in
    let P : List (List ℕ) × List ℕ → Type 0 = λ r. All (Shorter (length pair)) (r.0) in
    let less : length after ≤ length pair =
      if_both (λ xs. length xs ≤ length pair) (skipped len) rest (drop len rest)
        (omega (arith, length-drop 4 pair))
        (omega (arith, length-drop 4 pair, length-drop len rest)) in
    let more : P (inject n after) =
      Shorter-le ((inject n after).0) (length after) (length pair) less (inject-Shorter n after) in
    if_each P (ltb (length pair) 4) ([], rest) _ (λ h. tt)
      λ long. if_both P (skipped len) (inject n after) _ more (
        if_each P (ltb (length rest) len) ([], drop len rest) _ (λ h. tt)
          λ enough. (ground (arith, length-drop 4 pair, length-take len rest), more))

header_len-header :
    (packet : List ℕ) → Fits packet → header_len (header (length packet)) ≡ length packet
unfolding header_len header
header_len-header packet fits = omega (arith, fits.0, fits.1)

drop_none : (n : ℕ) → drop {A = ℕ} n [] ≡ []
drop_none zero = refl
drop_none (suc n) = refl

inject-header :
    (packet : List ℕ) (n : ℕ) → Fits packet → inject (suc n) (header (length packet)) ≡ ([], [])
unfolding inject header
inject-header packet n fits =
    let len : header_len (header (length packet)) ≡ length packet = header_len-header packet fits in
    let goes_on : skipped (length packet) ≡ false = ground (arith, fits.0, fits.1) in
    let ends : ltb 0 (length packet) ≡ true = ground (arith, fits.0) in
    rw (len, goes_on, ends, drop_none (length packet)) refl

-- When the loop reads the pair between the two writes of `sstp_ios_session_write_ip`, the header is
-- lost; the packet itself is then read as a header and what follows it: whatever is handed on is
-- shorter than the packet by four bytes or more.
pub inject_between :
    (packet : List ℕ) (n m : ℕ)
    → Fits packet
    → (inject (suc n) (header (length packet)) ≡ ([], []))
      × All (λ found. length found + 4 ≤ length packet) ((inject m packet).0)
inject_between packet n m fits = (inject-header packet n fits, inject-Shorter m packet)
