-- ===== src/Mschap/Examples.antt =====
-- sstp/sstp-mschapv2.c and sstp/sstp-chap.c at concrete inputs, with functions that only cut their
-- arguments for the hashes and the cipher.
use sstp_client_i_os.Base.{
  ℕ, ◌≡◌, refl, arith, false, some, none, List, [], ◌∷◌, ◌++◌, take, replicate,
}
use sstp_client_i_os.Mschap.{magic2, magic3, after_backslash, chap_mppe_get}
use sstp_client_i_os.Mschap.Keys.{master_key, start_key, chap_mppe_get_client}

abbrev first_20 : List ℕ → List ℕ
first_20 = take 20

abbrev same : List ℕ → List ℕ
same bytes = bytes

abbrev beside : List ℕ → List ℕ → List ℕ
beside key block = block ++ key

-- "User", with "DOMAIN" and the backslash in front, and "clientPass".
abbrev user : List ℕ
user = 0x55 ∷ 0x73 ∷ 0x65 ∷ 0x72 ∷ []

abbrev domain : List ℕ
domain = 0x44 ∷ 0x4f ∷ 0x4d ∷ 0x41 ∷ 0x49 ∷ 0x4e ∷ []

abbrev password : List ℕ
password = 0x63 ∷ 0x6c ∷ 0x69 ∷ 0x65 ∷ 0x6e ∷ 0x74 ∷ 0x50 ∷ 0x61 ∷ 0x73 ∷ 0x73 ∷ []

user_plain : after_backslash user ≡ none
unfolding after_backslash
user_plain = refl

chap_mppe_get_client_example :
    chap_mppe_get first_20 first_20 (replicate 24 3) password false
    ≡ some (
      start_key first_20 first_20 magic2 (master_key first_20 first_20 password (replicate 24 3)),
      start_key first_20 first_20 magic3 (master_key first_20 first_20 password (replicate 24 3)),
    )
chap_mppe_get_client_example =
    chap_mppe_get_client first_20 first_20 password (replicate 24 3) (omega arith) refl
