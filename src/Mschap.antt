-- ===== src/Mschap.antt =====
-- sstp/sstp-mschapv2.c and sstp/sstp-chap.c: the response to an MS-CHAPv2 challenge, and the MPPE
-- keys that come out of it. MD4, SHA-1, DES and its parity bits are parameters; `des` is given the
-- key of eight bytes and the block. A string is the list of its characters.
pub mod Keys
pub mod Response
pub mod Examples
use sstp_client_i_os.Base.{
  ℕ, zero, suc, ◌+◌, ◌*◌, ◌/◌, ◌%◌, bit_and, bit_or, Bool, Option, none, some,
}
use sstp_client_i_os.Base.{
  List, [], ◌∷◌, ◌++◌, length, take, drop, replicate, map, if◌then◌else◌, ltb, ◌==◌, ◌>>=◌,
}

-- `unicode_password`: 256 characters at most, each with a zero behind it.
unfoldable pub unicode : List ℕ → List ℕ
unicode [] = []
unicode (c ∷ cs) = c % 256 ∷ 0 ∷ unicode cs

abbrev pub unicode_password : List ℕ → List ℕ
unicode_password pass = unicode (take 256 pass)

-- The eight bytes of `setup_des_key` before the parity bits.
unfoldable pub spread_key : List ℕ → List ℕ
spread_key (a ∷ b ∷ c ∷ d ∷ e ∷ f ∷ g ∷ rest) =
    a
    ∷ bit_and (bit_or (a * 128) (b / 2)) 0xff
    ∷ bit_and (bit_or (b * 64) (c / 4)) 0xff
    ∷ bit_and (bit_or (c * 32) (d / 8)) 0xff
    ∷ bit_and (bit_or (d * 16) (e / 16)) 0xff
    ∷ bit_and (bit_or (e * 8) (f / 32)) 0xff
    ∷ bit_and (bit_or (f * 4) (g / 64)) 0xff
    ∷ bit_and (g * 2) 0xff
    ∷ []
spread_key _ = []

-- What stands behind the last backslash, if there is one: `strrchr`.
unfoldable pub after_backslash : List ℕ → Option (List ℕ)
after_backslash [] = none
after_backslash (c ∷ cs) =
    let here = if c == 0x5c then some cs else none in
    elim (after_backslash cs) [ some user ↦ some user | none ↦ here ]

abbrev pub or_whole : List ℕ → Option (List ℕ) → List ℕ
or_whole name (some user) = user
or_whole name none = name

abbrev pub user_part : List ℕ → List ℕ
user_part name = or_whole name (after_backslash name)

-- "This is the MPPE Master Key"
abbrev pub magic1 : List ℕ
magic1 =
    0x54 ∷ 0x68 ∷ 0x69 ∷ 0x73 ∷ 0x20 ∷ 0x69 ∷ 0x73 ∷ 0x20 ∷ 0x74 ∷ 0x68 ∷ 0x65 ∷ 0x20 ∷ 0x4d ∷ 0x50
    ∷ 0x50 ∷ 0x45 ∷ 0x20 ∷ 0x4d ∷ 0x61 ∷ 0x73 ∷ 0x74 ∷ 0x65 ∷ 0x72 ∷ 0x20 ∷ 0x4b ∷ 0x65 ∷ 0x79 ∷ []

-- "On the client side, this is the send key; on the server side, it is the receive key."
abbrev pub magic2 : List ℕ
magic2 =
    0x4f ∷ 0x6e ∷ 0x20 ∷ 0x74 ∷ 0x68 ∷ 0x65 ∷ 0x20 ∷ 0x63 ∷ 0x6c ∷ 0x69 ∷ 0x65 ∷ 0x6e ∷ 0x74 ∷ 0x20
    ∷ 0x73 ∷ 0x69 ∷ 0x64 ∷ 0x65 ∷ 0x2c ∷ 0x20 ∷ 0x74 ∷ 0x68 ∷ 0x69 ∷ 0x73 ∷ 0x20 ∷ 0x69 ∷ 0x73
    ∷ 0x20 ∷ 0x74 ∷ 0x68 ∷ 0x65 ∷ 0x20 ∷ 0x73 ∷ 0x65 ∷ 0x6e ∷ 0x64 ∷ 0x20 ∷ 0x6b ∷ 0x65 ∷ 0x79
    ∷ 0x3b ∷ 0x20 ∷ 0x6f ∷ 0x6e ∷ 0x20 ∷ 0x74 ∷ 0x68 ∷ 0x65 ∷ 0x20 ∷ 0x73 ∷ 0x65 ∷ 0x72 ∷ 0x76
    ∷ 0x65 ∷ 0x72 ∷ 0x20 ∷ 0x73 ∷ 0x69 ∷ 0x64 ∷ 0x65 ∷ 0x2c ∷ 0x20 ∷ 0x69 ∷ 0x74 ∷ 0x20 ∷ 0x69
    ∷ 0x73 ∷ 0x20 ∷ 0x74 ∷ 0x68 ∷ 0x65 ∷ 0x20 ∷ 0x72 ∷ 0x65 ∷ 0x63 ∷ 0x65 ∷ 0x69 ∷ 0x76 ∷ 0x65
    ∷ 0x20 ∷ 0x6b ∷ 0x65 ∷ 0x79 ∷ 0x2e ∷ []

-- "On the client side, this is the receive key; on the server side, it is the send key."
abbrev pub magic3 : List ℕ
magic3 =
    0x4f ∷ 0x6e ∷ 0x20 ∷ 0x74 ∷ 0x68 ∷ 0x65 ∷ 0x20 ∷ 0x63 ∷ 0x6c ∷ 0x69 ∷ 0x65 ∷ 0x6e ∷ 0x74 ∷ 0x20
    ∷ 0x73 ∷ 0x69 ∷ 0x64 ∷ 0x65 ∷ 0x2c ∷ 0x20 ∷ 0x74 ∷ 0x68 ∷ 0x69 ∷ 0x73 ∷ 0x20 ∷ 0x69 ∷ 0x73
    ∷ 0x20 ∷ 0x74 ∷ 0x68 ∷ 0x65 ∷ 0x20 ∷ 0x72 ∷ 0x65 ∷ 0x63 ∷ 0x65 ∷ 0x69 ∷ 0x76 ∷ 0x65 ∷ 0x20
    ∷ 0x6b ∷ 0x65 ∷ 0x79 ∷ 0x3b ∷ 0x20 ∷ 0x6f ∷ 0x6e ∷ 0x20 ∷ 0x74 ∷ 0x68 ∷ 0x65 ∷ 0x20 ∷ 0x73
    ∷ 0x65 ∷ 0x72 ∷ 0x76 ∷ 0x65 ∷ 0x72 ∷ 0x20 ∷ 0x73 ∷ 0x69 ∷ 0x64 ∷ 0x65 ∷ 0x2c ∷ 0x20 ∷ 0x69
    ∷ 0x74 ∷ 0x20 ∷ 0x69 ∷ 0x73 ∷ 0x20 ∷ 0x74 ∷ 0x68 ∷ 0x65 ∷ 0x20 ∷ 0x73 ∷ 0x65 ∷ 0x6e ∷ 0x64
    ∷ 0x20 ∷ 0x6b ∷ 0x65 ∷ 0x79 ∷ 0x2e ∷ []

abbrev pub chap_sending : ℕ
chap_sending = 0x01

abbrev pub chap_server : ℕ
chap_server = 0x02

-- The choice of `magic` in `sstp_chap_hash_session`.
abbrev pub magic_of : ℕ → List ℕ
magic_of flag =
    let server = bit_and chap_server flag == 0 in
    if bit_and chap_sending flag == 0
    then (if server then magic3 else magic2)
    else (if server then magic2 else magic3)

module _ (md4 : List ℕ → List ℕ) (sha1 : List ℕ → List ℕ) (odd_parity : List ℕ → List ℕ)
    (des : List ℕ → List ℕ → List ℕ) where
  unfoldable pub nt_password_hash : List ℕ → List ℕ
  nt_password_hash password = md4 (unicode_password password)

  unfoldable pub challenge_response : List ℕ → List ℕ → List ℕ
  unfolding spread_key
  challenge_response challenge password_hash =
      let zhash = take 16 password_hash ++ replicate 5 0 in
      let block = λ (key7 : List ℕ). des (odd_parity (spread_key key7)) challenge in
      block zhash ++ (block (drop 7 zhash) ++ block (drop 14 zhash))

  unfoldable pub challenge_hash : List ℕ → List ℕ → List ℕ → List ℕ
  unfolding after_backslash
  challenge_hash peer_challenge auth_challenge username =
      take 8 (sha1 (take 16 peer_challenge ++ (take 16 auth_challenge ++ user_part username)))

  unfoldable pub generate_nt_response : List ℕ → List ℕ → List ℕ → List ℕ → List ℕ
  unfolding challenge_hash challenge_response nt_password_hash
  generate_nt_response auth_challenge peer_challenge username password =
      challenge_response (challenge_hash peer_challenge auth_challenge username)
        (nt_password_hash password)

module _ (md4 : List ℕ → List ℕ) (sha1 : List ℕ → List ℕ) where
  -- `sstp_chap_hash_pass`; the library's calls succeed. `none` is a result below 0.
  unfoldable pub hash_pass : List ℕ → Option (List ℕ)
  hash_pass pass = if ltb 255 (length pass) then none else some (take 16 (md4 (md4 (unicode pass))))

  unfoldable pub hash_master : List ℕ → List ℕ → List ℕ
  hash_master phash nt_resp = take 16 (sha1 (take 16 phash ++ (take 24 nt_resp ++ magic1)))

  unfoldable pub hash_session : List ℕ → ℕ → List ℕ
  hash_session master flag =
      take 16 (sha1 (take 16 master ++ (replicate 40 0 ++ (magic_of flag ++ replicate 40 0xf2))))

  -- `sstp_chap_mppe_get`: the send key and the receive key, or a result below 0.
  unfoldable pub chap_mppe_get : List ℕ → List ℕ → Bool → Option (List ℕ × List ℕ)
  unfolding hash_pass hash_master hash_session
  chap_mppe_get nt_response password server = do
    phash ← hash_pass password
    let master = hash_master phash nt_response
    let flag = if server then chap_sending else 0
    let rkey = hash_session master flag
    let skey = hash_session master (bit_or flag chap_sending)
    some (skey, rkey)
