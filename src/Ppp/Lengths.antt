-- ===== src/Ppp/Lengths.antt =====
-- Lengths of headers and frames in sstp/ios-pppd.c.
use sstp_client_i_os.Base.{ℕ, suc, ◌+◌, ◌≤◌, arith, false, ◌&&◌, Option, none, some, inl, inr}
use sstp_client_i_os.Base.{
  List, [], ◌∷◌, ◌++◌, bit_and, length, be16, ◌==◌, ltb, if◌then◌else◌, if_both, if_each,
  Bool-cases,
}
use sstp_client_i_os.Mppe.{
  Half, coherency, mppe_rekey, split_proto, proto_ip, proto_mppe, get_be16, Mppe, ppp_mru,
  ppp_header, handle_mppe, ppp_frame,
}
use sstp_client_i_os.Mppe as Mppe
use sstp_client_i_os.Ppp.{}
use sstp_client_i_os.Ppp.Requests.{}
use sstp_client_i_os.Ppp.Safe.{}
use sstp_client_i_os.Ppp.LinkUp.{}

-- A header that is found leaves at most `n` bytes behind it.
unfoldable pub AtMost : ℕ → Option (ℕ × List ℕ) → Type 0
AtMost n none = Unit
AtMost n (some (proto, body)) = length body ≤ n

split_AtMost : (n : ℕ) (rest : List ℕ) → length rest ≤ suc n → AtMost n (split_proto rest)
unfolding AtMost
split_AtMost n [] fits = tt
split_AtMost n (b ∷ []) fits = if_both (AtMost n) (bit_and b 0x01 == 0) _ _ tt (omega arith)
split_AtMost n (b ∷ c ∷ rest) fits =
    if_both (AtMost n) (bit_and b 0x01 == 0) _ _ (omega (arith, fits)) (omega (arith, fits))

cut_AtMost :
    (p : List ℕ) → length p ≤ 1419 → AtMost 1418 (if ltb (length p) 2 then none else split_proto p)
unfolding AtMost
cut_AtMost p fits = elim (Bool-cases (ltb (length p) 2)) [
  | inl short ↦ rw short tt
  | inr enough ↦ rw enough (split_AtMost 1418 p fits)
]

pub header_AtMost : (frame : List ℕ) → length frame ≤ 1419 → AtMost 1418 (ppp_header frame)
unfolding ppp_header AtMost
header_AtMost (a ∷ b ∷ c ∷ rest) fits =
    cut_AtMost (if (a == 0xff) && (b == 0x03) then c ∷ rest else a ∷ b ∷ c ∷ rest) (
      if_both (λ (p : List ℕ). length p ≤ 1419) ((a == 0xff) && (b == 0x03)) (c ∷ rest)
        (a ∷ b ∷ c ∷ rest) (omega (arith, fits)) fits)
header_AtMost _ fits = tt

unfoldable pub Short : Option (List ℕ) → Type 0
Short none = Unit
Short (some frame) = length frame ≤ 1404

none-Short : Short none
unfolding Short
none-Short = tt

ppp_frame-Short : (proto : ℕ) (payload : List ℕ) → Short (ppp_frame proto payload)
unfolding ppp_frame Short
ppp_frame-Short proto payload =
    if_each Short (ltb ppp_mru (length payload)) _ _ (λ _. tt) λ fits. ground (arith, fits)

module _ {Rc4 : Type 0} (set_key : List ℕ → Rc4) (rc4 : Rc4 → List ℕ → List ℕ × Rc4)
    (sha1 : List ℕ → List ℕ) where
  unfoldable pub ShortFirst : Option (List ℕ) × Mppe Rc4 → Type 0
  ShortFirst r = Short r.0

  shortened :
      (m : Mppe Rc4) (proto : ℕ) (payload : List ℕ) → ShortFirst (ppp_frame proto payload, m)
  unfolding ShortFirst
  shortened m proto payload = ppp_frame-Short proto payload

  nothing_sent : (m : Mppe Rc4) → ShortFirst (none, m)
  unfolding ShortFirst
  nothing_sent m = none-Short

  pub send_ip_Short : (m : Mppe Rc4) (ip : List ℕ) → ShortFirst (Mppe.send_ip set_key rc4 sha1 m ip)
  unfolding Mppe.send_ip
  send_ip_Short m ip =
      let counted : Half Rc4 = record (m.send_half) {
        ccount = bit_and (m.send_half.ccount + 1) 0x0fff;
      } in
      let h : Half Rc4 = mppe_rekey set_key rc4 sha1 false counted in
      let (enc, key) = rc4 h.key (be16 proto_ip ++ ip) in
      let text : List ℕ = coherency h.ccount ++ enc in
      let crypt : Mppe Rc4 = record m { send_half = record h { key = key } } in
      if_both ShortFirst _ _ _ (nothing_sent m) (
        if_both ShortFirst m.enabled _ _ (shortened crypt proto_mppe text)
          (shortened m proto_ip ip))
