-- ===== src/Cmac/Laws.antt =====
-- The compound MAC of sstp/sstp-cmac.c against section 3.2.5.2 of [MS-SSTP].
use sstp_client_i_os.Base.{ℕ, ◌≡◌, refl, ap, ap₂, arith, Bool, true, false, List, [], ◌∷◌, ◌++◌}
use sstp_client_i_os.Base.{
  Option, some, ltb, ◌>>=◌, sym, take_all, ◌⊎◌, inl, inr, length, take, take-append, if◌then◌else◌,
}
use sstp_client_i_os.Cmac.{
  Cmac, cmk_seed, cmac_send_key, cmac_recv_key, makekey, cmac_result, hash_sha1,
}
use sstp_client_i_os.Cmac.{hash_sha256, cmac_init}

-- The higher-layer authentication key of a client: keys of 16 bytes are put one behind the other,
-- and of longer keys the send key alone is used.
abbrev pub hlak : List ℕ → List ℕ → List ℕ
hlak send_key recv_key = if ltb (length send_key) 32 then send_key ++ recv_key else send_key

-- The context of a client with both keys.
abbrev pub client : ℕ → List ℕ → List ℕ → Option Cmac
client flag send_key recv_key = (cmac_init true flag).1 >>= λ ctx.
    some (cmac_recv_key (cmac_send_key ctx send_key (length send_key)) recv_key (length recv_key))

is_16 : (xs ys : List ℕ) → length xs ≡ 16 → take 16 (take 16 xs ++ ys) ≡ xs
is_16 xs ys h = rw (take_all xs 16 (omega arith)) (take-append 16 xs ys (sym h))

is_32 : (xs ys : List ℕ) → length xs ≡ 32 → take 32 (take 32 xs ++ ys) ≡ xs
is_32 xs ys h = rw (take_all xs 32 (omega arith)) (take-append 32 xs ys (sym h))

module _ (hmac : Bool → List ℕ → List ℕ → List ℕ) where
  -- The compound MAC of [MS-SSTP]: the key T1 from the seed, the length of the hash and a counter,
  -- and the hash of the message with that key.
  abbrev pub compound_mac : Bool → List ℕ → List ℕ → List ℕ
  compound_mac sha256 key message =
      let size = if sha256 then 32 else 20 in
      hmac sha256 (hmac sha256 key (cmk_seed ++ size ∷ 0 ∷ 1 ∷ [])) message

  -- The context that `sstp_cmac_init` makes for a client, with the keys of `sstp_cmac_send_key` and
  -- `sstp_cmac_recv_key`, both of 16 bytes or both of 32, gives the compound MAC of the specification
  -- over every message, over SHA-256 or SHA-1 as its flag says.
  pub cmac_result-compound :
      (sha256 : Bool) (send_key recv_key message : List ℕ)
      → length send_key ≡ length recv_key
      → (length send_key ≡ 16) ⊎ (length send_key ≡ 32)
      → (ctx : Cmac) × (client (if sha256 then hash_sha256 else hash_sha1) send_key recv_key
          ≡ some ctx)
        × (cmac_result hmac ctx message ≡ compound_mac sha256 (hlak send_key recv_key) message)
  unfolding cmac_send_key cmac_recv_key cmac_result makekey
  cmac_result-compound true s r message same (inl short) =
      let short' : length r ≡ 16 = omega arith in
      (
        _,
        refl,
        rw (short, short')
            (ap₂ (λ x y. hmac true (hmac true (x ++ y) (cmk_seed ++ 32 ∷ 0 ∷ 1 ∷ [])) message)
              (is_16 s _ short) (is_16 r _ short')),
      )
  cmac_result-compound false s r message same (inl short) =
      let short' : length r ≡ 16 = omega arith in
      (
        _,
        refl,
        rw (short, short')
            (ap₂ (λ x y. hmac false (hmac false (x ++ y) (cmk_seed ++ 20 ∷ 0 ∷ 1 ∷ [])) message)
              (is_16 s _ short) (is_16 r _ short')),
      )
  cmac_result-compound true s r message same (inr long) =
      let long' : length r ≡ 32 = omega arith in
      (
        _,
        refl,
        rw (long, long')
            (ap (λ x. hmac true (hmac true x (cmk_seed ++ 32 ∷ 0 ∷ 1 ∷ [])) message)
              (is_32 s _ long)),
      )
  cmac_result-compound false s r message same (inr long) =
      let long' : length r ≡ 32 = omega arith in
      (
        _,
        refl,
        rw (long, long')
            (ap (λ x. hmac false (hmac false x (cmk_seed ++ 20 ∷ 0 ∷ 1 ∷ [])) message)
              (is_32 s _ long)),
      )
