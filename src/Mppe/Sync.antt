-- ===== src/Mppe/Sync.antt =====
-- The keys of MPPE in sstp/ios-pppd.c at both ends of a link, as packets go out and are lost.
use sstp_client_i_os.Base.{
  ℕ, zero, suc, ◌+◌, ◌*◌, ◌/◌, ◌%◌, ◌≤◌, ◌<◌, bit_and, bit_or, true, false, ◌≡◌, refl, arith,
}
use sstp_client_i_os.Base.{List, ◌==◌}
use sstp_client_i_os.Base.Bits.{bit_and_mask, agree_below, agree_below→eq}
use sstp_client_i_os.Mppe.{Half, mppe_rekey, catch_up}

-- What the next key of a direction is computed from is the same at both ends.
pub record InSync {Rc4 : Type 0} (a b : Half Rc4) : Type 0 where
  pub master : a.master ≡ b.master
  pub session : a.session ≡ b.session
  pub ccount : a.ccount ≡ b.ccount

pub counted : (n : ℕ) → bit_and (n + 1) 0x0fff ≡ (n + 1) % 4096
counted n = bit_and_mask 12 (n + 1)

-- The count that the receiver reads is the one that the sender wrote.
abbrev pub read_back : ℕ → ℕ
read_back c = bit_or (bit_and (bit_or 0x90 (bit_and (c / 256) 0x0f)) 0x0f * 256) (bit_and c 0xff)

pub read_back_lem : (c : ℕ) → c < 4096 → read_back c ≡ c
unfolding agree_below
read_back_lem = agree_below→eq read_back (λ c. c) 4096 refl

module _ {Rc4 : Type 0} (set_key : List ℕ → Rc4) (rc4 : Rc4 → List ℕ → List ℕ × Rc4)
    (sha1 : List ℕ → List ℕ) where
  -- The state of a direction for the next packet.
  unfoldable pub step : Half Rc4 → Half Rc4
  unfolding mppe_rekey
  step h = record (mppe_rekey set_key rc4 sha1 false h) { ccount = bit_and (h.ccount + 1) 0x0fff }

  -- The state `j` packets on.
  unfoldable pub steps : ℕ → Half Rc4 → Half Rc4
  steps zero h = h
  steps (suc j) h = steps j (step h)

  pub step-steps : (j : ℕ) (h : Half Rc4) → step (steps j h) ≡ steps (suc j) h
  unfolding steps
  step-steps zero h = refl
  step-steps (suc j) h = step-steps j (step h)

  pub step-InSync : (a b : Half Rc4) → InSync a b → step a ≡ step b
  unfolding step mppe_rekey
  step-InSync a b s = λ i.
      step (record { master = s.master i; session = s.session i; key = a.key; ccount = s.ccount i })

  pub ccount-steps :
      (j : ℕ) (h : Half Rc4) → h.ccount < 4096 → (steps j h).ccount ≡ (h.ccount + j) % 4096
  unfolding steps step
  ccount-steps zero h fits = omega (arith, fits)
  ccount-steps (suc j) h fits =
      omega (arith, counted h.ccount, ccount-steps j (step h) (omega (arith, counted h.ccount)))

  -- The loop of `handle_mppe` ends at the state that belongs to the count, with the fuel it is given.
  pub catch_up-steps :
      (j fuel ccount : ℕ) (h : Half Rc4)
      → j ≤ fuel
      → j < 4096
      → h.ccount < 4096
      → ccount ≡ (h.ccount + j) % 4096
      → catch_up set_key rc4 sha1 fuel ccount h ≡ steps j h
  unfolding catch_up steps step
  catch_up-steps zero zero c h enough short fits same = refl
  catch_up-steps zero (suc fuel) c h enough short fits same =
      let there : (h.ccount == c) ≡ true = ground (arith, same, fits) in rw (there, catch_up) refl
  catch_up-steps (suc j) zero c h enough short fits same = absurd (omega arith)
  catch_up-steps (suc j) (suc fuel) c h enough short fits same =
      let other : (h.ccount == c) ≡ false = ground (arith, same, fits, short) in
      let next : bit_and (h.ccount + 1) 0x0fff ≡ (h.ccount + 1) % 4096 = counted h.ccount in
      rw (other, catch_up)
        (catch_up-steps j fuel c (step h) (omega arith) (omega arith) (omega (arith, next))
          (omega (arith, next, same)))
