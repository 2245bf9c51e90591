-- ===== src/Ppp/Address.antt =====
-- The options of the IPCP packets of sstp/ios-pppd.c: what `put_opt` writes, the loops over the
-- options read back.
use sstp_client_i_os.Base.{
  ℕ, zero, suc, ◌+◌, ◌-◌, ◌%◌, ◌^◌, ◌<◌, ◌≤◌, ◌≡◌, refl, ◌∙◌, arith, false, ◌||◌,
}
use sstp_client_i_os.Base.{
  List, [], ◌∷◌, ◌++◌, length, length-append, length-drop, drop, take-append, drop-append, be16,
  ltb, All, Bool-cases, inl, inr,
}
use sstp_client_i_os.Ppp.{Peer}
use sstp_client_i_os.Ppp.Requests.{be32, put_opt, ipcp_options}
use sstp_client_i_os.Ppp.Options.{get_be32, option_loop, read_options, local_option}

-- An option: its type and its value.
pub record Opt : Type 0 where
  pub type : ℕ
  pub value : List ℕ

abbrev pub IsOpt : Opt → Type 0
IsOpt o = length o.value ≤ 253

-- The options one after the other, as the requests have them.
unfoldable pub written : List Opt → List ℕ
written [] = []
written (o ∷ os) = put_opt o.type o.value ++ written os

module _ {ℓ} {A : Type ℓ} (use_option : A → ℕ → List ℕ → A) where
  -- What the options come to, in their order.
  pub use_all : List Opt → A → A
  use_all [] a = a
  use_all (o ∷ os) a = use_all os (use_option a o.type o.value)

  one_round :
      (fuel : ℕ) (o : Opt) (rest : List ℕ) (a : A)
      → IsOpt o
      → option_loop use_option (suc fuel) (put_opt o.type o.value ++ rest) a
        ≡ option_loop use_option fuel rest (use_option a o.type o.value)
  unfolding option_loop
  one_round fuel o rest a fits =
      let size : (2 + length o.value) % 256 ≡ 2 + length o.value = omega (arith, fits) in
      let least : ltb (2 + length o.value) 2 ≡ false = ground arith in
      let inside : ltb (2 + length (o.value ++ rest)) (2 + length o.value) ≡ false =
        ground (arith, length-append o.value rest) in
      let same : 2 + length o.value - 2 ≡ length o.value = omega arith in
      let head : List ℕ = o.type ∷ (2 + length o.value) ∷ o.value in
      let moved : drop (2 + length o.value) (head ++ rest) ≡ rest =
        drop-append (2 + length o.value) head rest (omega arith) in
      rw (size, least, inside, same)
        (rw (take-append (length o.value) o.value rest refl) (rw moved refl))

  -- With a round for each byte at least, the loop over the options uses what was written: each option
  -- once, in order, with its own type and value.
  pub option_loop-written :
      (os : List Opt) (fuel : ℕ) (a : A)
      → All IsOpt os
      → length (written os) ≤ fuel
      → option_loop use_option fuel (written os) a ≡ use_all os a
  unfolding written use_all option_loop
  option_loop-written [] zero a fits enough = refl
  option_loop-written [] (suc fuel) a fits enough = refl
  option_loop-written (o ∷ os) zero a fits enough = absurd (omega (arith, enough))
  option_loop-written (o ∷ os) (suc fuel) a fits enough =
      one_round fuel o (written os) a fits.0
      ∙ option_loop-written os fuel (use_option a o.type o.value) fits.1
          (omega (arith, enough, length-append o.value (written os)))

  same_rounds :
      (more fuel : ℕ) (rest : List ℕ) (a : A)
      → length rest ≤ more
      → length rest ≤ fuel
      → option_loop use_option more rest a ≡ option_loop use_option fuel rest a
  unfolding option_loop
  same_rounds zero zero rest a m f = refl
  same_rounds zero (suc fuel) [] a m f = refl
  same_rounds (suc more) zero [] a m f = refl
  same_rounds (suc more) (suc fuel) [] a m f = refl
  same_rounds (suc more) (suc fuel) (b ∷ []) a m f = refl
  same_rounds (suc more) (suc fuel) (type ∷ olen ∷ body) a m f =
      elim (Bool-cases (ltb olen 2 || ltb (2 + length body) olen)) [
        | inl stops ↦ rw stops refl
        | inr goes_on ↦
            let left : List ℕ = drop olen (type ∷ olen ∷ body) in
            let moves : 2 ≤ olen = ground (arith, goes_on) in
            let size : length left ≤ length body =
              omega (arith, moves, length-drop olen (type ∷ olen ∷ body)) in
            rw goes_on
              (same_rounds more fuel left _ (omega (arith, size, m)) (omega (arith, size, f)))
      ]
  same_rounds zero (suc fuel) (b ∷ rest) a m f = absurd (omega (arith, m))
  same_rounds (suc more) zero (b ∷ rest) a m f = absurd (omega (arith, f))

  -- Whatever the bytes are, rounds beyond one for each byte change nothing: the loop, which moves by
  -- the length that each option claims, ends by itself before they are used.
  pub option_loop-length :
      (fuel : ℕ) (rest : List ℕ) (a : A)
      → length rest ≤ fuel
      → option_loop use_option fuel rest a ≡ option_loop use_option (length rest) rest a
  option_loop-length fuel rest a enough = same_rounds fuel (length rest) rest a enough (omega arith)

be32-get_be32 : (v : ℕ) → v < 2 ^ 32 → get_be32 (be32 v) ≡ v
be32-get_be32 v h = omega (arith, h)

module _ {Rc4 : Type 0} where
  -- An acknowledgement that repeats the addresses of the request gives the peer these addresses.
  pub local_option-ipcp_options :
      (p : Peer Rc4) (code id addr d1 d2 : ℕ)
      → addr < 2 ^ 32
      → d1 < 2 ^ 32
      → d2 < 2 ^ 32
      → read_options local_option 22 (code ∷ id ∷ (be16 22 ++ ipcp_options addr d1 d2)) p
        ≡ record p { local_ip = addr; dns1 = d1; dns2 = d2 }
  unfolding option_loop
  local_option-ipcp_options p code id addr d1 d2 h h1 h2 =
      rw (be32-get_be32 addr h, be32-get_be32 d1 h1, be32-get_be32 d2 h2) refl
