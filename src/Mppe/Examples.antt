-- ===== src/Mppe/Examples.antt =====
-- The MPPE link of sstp/ios-pppd.c at concrete keys, with an exclusive or for RC4 and the first bytes
-- of the text for SHA-1.
use sstp_client_i_os.Base.{
  ℕ, ◌≡◌, refl, ap₂, arith, bit_xor, Bool, true, some, List, [], ◌∷◌, length, take, replicate, map,
}
use sstp_client_i_os.Base.Bits.{bit_xor_cancel}
use sstp_client_i_os.Mppe.{Half, Mppe, send_ip, handle_mppe, ppp_header, proto_mppe}
use sstp_client_i_os.Mppe.Sync.{InSync}
use sstp_client_i_os.Mppe.Transfer.{send_all, mppe_delivers}

abbrev own_key : List ℕ → List ℕ
own_key bytes = bytes

abbrev xor_all : List ℕ → List ℕ → List ℕ × List ℕ
xor_all key text = (map (bit_xor 90) text, key)

abbrev first_20 : List ℕ → List ℕ
first_20 = take 20

xor_all_twice : (k : List ℕ) (text : List ℕ) → (xor_all k (xor_all k text).0).0 ≡ text
xor_all_twice k [] = refl
xor_all_twice k (b ∷ text) = ap₂ (λ x xs. x ∷ xs) (bit_xor_cancel 90 b) (xor_all_twice k text)

length-xor_all : (k : List ℕ) (text : List ℕ) → length (xor_all k text).0 ≡ length text
length-xor_all k [] = refl
length-xor_all k (b ∷ text) = omega (arith, length-xor_all k text)

-- Two ends with their keys set.
abbrev half : ℕ → Half (List ℕ)
half byte = record {
  master = replicate 16 byte;
  session = replicate 16 byte;
  key = [];
  ccount = 4095;
}

abbrev end : ℕ → ℕ → Bool → Mppe (List ℕ)
end send_byte recv_byte enabled = record {
  send_half = half send_byte;
  recv_half = half recv_byte;
  enabled = enabled;
  keys_set = true;
  handler = true;
  recv_bytes = 0;
}

-- The second packet arrives although the first one is lost.
mppe_delivers_example :
    (frame : List ℕ) × (body : List ℕ) × (m' : Mppe (List ℕ)) × (r' : Mppe (List ℕ)) × (send_ip
        own_key xor_all first_20
        (send_all own_key xor_all first_20 (end 1 2 true) ((69 ∷ 0 ∷ []) ∷ []))
        (69 ∷ 1 ∷ 2 ∷ [])
      ≡ (some frame, m'))
    × (ppp_header frame ≡ some (proto_mppe, body))
    × (handle_mppe own_key xor_all first_20 (end 2 1 true) body ≡ some (some (69 ∷ 1 ∷ 2 ∷ []), r'))
    × InSync m'.send_half r'.recv_half
mppe_delivers_example =
    mppe_delivers own_key xor_all first_20 xor_all_twice length-xor_all (end 1 2 true)
      (end 2 1 true) ((69 ∷ 0 ∷ []) ∷ []) (69 ∷ 1 ∷ 2 ∷ []) refl refl refl
      (record { master = refl; session = refl; ccount = refl }) (omega arith)
      ((omega arith, omega arith), tt) (omega arith) (omega arith, omega arith)
