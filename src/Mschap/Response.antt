-- ===== src/Mschap/Response.antt =====
-- The response of sstp/sstp-mschapv2.c to a challenge.
use sstp_client_i_os.Base.{ℕ, ◌≡◌, sym, ap, ◌∙◌, some, none, List, [], ◌∷◌, ◌++◌, take}
use sstp_client_i_os.Mschap.{
  or_whole, challenge_response, nt_password_hash, after_backslash, user_part, challenge_hash,
  generate_nt_response,
}

pub after_domain :
    (domain user : List ℕ)
    → after_backslash user ≡ none
    → after_backslash (domain ++ 0x5c ∷ user) ≡ some user
unfolding after_backslash
after_domain [] user plain = rw plain
after_domain (c ∷ domain) user plain = rw (after_domain domain user plain)

module _ (md4 : List ℕ → List ℕ) (sha1 : List ℕ → List ℕ) (odd_parity : List ℕ → List ℕ)
    (des : List ℕ → List ℕ → List ℕ) where
  -- The domain in front of a user name, with the backslash between them, has no part in the response.
  pub generate_nt_response_domain :
      (auth_challenge peer_challenge domain user password : List ℕ)
      → after_backslash user ≡ none
      → generate_nt_response md4 sha1 odd_parity des auth_challenge peer_challenge
          (domain ++ 0x5c ∷ user)
          password
        ≡ generate_nt_response md4 sha1 odd_parity des auth_challenge peer_challenge user password
  unfolding generate_nt_response challenge_hash
  generate_nt_response_domain auth peer domain user password plain =
      let alone : user_part (domain ++ 0x5c ∷ user) ≡ user_part user =
        ap (or_whole (domain ++ 0x5c ∷ user)) (after_domain domain user plain)
        ∙ sym (ap (or_whole user) plain) in
      ap
        (λ name.
          challenge_response md4 sha1 odd_parity des
            (take 8 (sha1 (take 16 peer ++ (take 16 auth ++ name))))
            (nt_password_hash md4 sha1 odd_parity des password))
        alone
