-- ===== src/Mschap/Keys.antt =====
-- The keys of sstp/sstp-chap.c against RFC 3079, section 3.
use sstp_client_i_os.Base.{
  ℕ, ◌≤◌, ◌≡◌, arith, true, false, some, List, ◌++◌, length, take, take_all, length-take, replicate,
  ltb,
}
use sstp_client_i_os.Mschap.{
  unicode, magic1, magic2, magic3, chap_mppe_get, hash_pass, hash_master, hash_session,
}

pub take_again : (xs : List ℕ) → take 16 (take 16 xs) ≡ take 16 xs
take_again xs = take_all (take 16 xs) 16 (omega (arith, length-take 16 xs))

module _ (md4 : List ℕ → List ℕ) (sha1 : List ℕ → List ℕ) where
  -- GetMasterKey and GetAsymmetricStartKey of RFC 3079 for 128-bit keys: `side` is the text for the
  -- direction, and the inputs have their full lengths.
  abbrev pub master_key : List ℕ → List ℕ → List ℕ
  master_key password nt_response =
      take 16 (sha1 (take 16 (md4 (md4 (unicode password))) ++ (nt_response ++ magic1)))

  abbrev pub start_key : List ℕ → List ℕ → List ℕ
  start_key side master = take 16 (sha1 (master ++ (replicate 40 0 ++ (side ++ replicate 40 0xf2))))

  module _ (password nt_response : List ℕ) (short : length password ≤ 255)
      (size : length nt_response ≡ 24) where
    fits : ltb 255 (length password) ≡ false
    fits = ground arith

    taken_24 : take 24 nt_response ≡ nt_response
    taken_24 = take_all nt_response 24 (omega (arith, size))

    -- For a client, `sstp_chap_mppe_get` gives the send key with the text for what the client sends,
    -- and the receive key with the text for what the server sends.
    pub chap_mppe_get_client :
        chap_mppe_get md4 sha1 nt_response password false
        ≡ some (
          start_key magic2 (master_key password nt_response),
          start_key magic3 (master_key password nt_response),
        )
    unfolding chap_mppe_get hash_pass hash_master hash_session
    chap_mppe_get_client = rw (
      fits,
      taken_24,
      take_again (md4 (md4 (unicode password))),
      take_again (sha1 (take 16 (md4 (md4 (unicode password))) ++ (nt_response ++ magic1))),
    )

    -- For a server, the two keys are one and the same: the flag for the server is never set.
    pub chap_mppe_get_server :
        chap_mppe_get md4 sha1 nt_response password true
        ≡ some (
          start_key magic2 (master_key password nt_response),
          start_key magic2 (master_key password nt_response),
        )
    unfolding chap_mppe_get hash_pass hash_master hash_session
    chap_mppe_get_server = rw (
      fits,
      taken_24,
      take_again (md4 (md4 (unicode password))),
      take_again (sha1 (take 16 (md4 (md4 (unicode password))) ++ (nt_response ++ magic1))),
    )
