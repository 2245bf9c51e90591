-- ===== src/Cmac.antt =====
-- sstp/sstp-cmac.h and sstp/sstp-cmac.c: the compound MAC of the crypto binding. The HMAC of the
-- OpenSSL library is a parameter, by whether it is over SHA-256 or SHA-1, the key, and the message.
pub mod Laws
pub mod Examples
use sstp_client_i_os.Base.{ℕ, bit_and, Bool, not, Option, none, some, List, [], ◌∷◌, ◌++◌}
use sstp_client_i_os.Base.{Status, okay, fail, replicate, take, drop, if◌then◌else◌, ltb, ◌==◌}

abbrev pub hash_sha1 : ℕ
hash_sha1 = 0x01

abbrev pub hash_sha256 : ℕ
hash_sha256 = 0x02

abbrev pub cmac_server : ℕ
cmac_server = 0x04

abbrev pub hlak_keylen : ℕ
hlak_keylen = 32

abbrev pub mppe_max_keylen : ℕ
mppe_max_keylen = 32

-- `struct cmac_ctx`
pub record Cmac : Type 0 where
  pub send_key : List ℕ
  pub recv_key : List ℕ
  pub key_len : ℕ
  pub seed : List ℕ
  pub slen : ℕ
  pub flag : ℕ

-- "SSTP inner method derived CMK"
abbrev pub cmk_seed : List ℕ
cmk_seed =
    0x53 ∷ 0x53 ∷ 0x54 ∷ 0x50 ∷ 0x20 ∷ 0x69 ∷ 0x6e ∷ 0x6e ∷ 0x65 ∷ 0x72 ∷ 0x20 ∷ 0x6d ∷ 0x65 ∷ 0x74
    ∷ 0x68 ∷ 0x6f ∷ 0x64 ∷ 0x20 ∷ 0x64 ∷ 0x65 ∷ 0x72 ∷ 0x69 ∷ 0x76 ∷ 0x65 ∷ 0x64 ∷ 0x20 ∷ 0x43
    ∷ 0x4d ∷ 0x4b ∷ []

-- `calloc` answers NULL where the first argument is false.
abbrev pub cmac_init : Bool → ℕ → Status × Option Cmac
cmac_init memory flag =
    if memory
    then (
      okay,
      some (record {
        send_key = replicate 32 0;
        recv_key = replicate 32 0;
        key_len = 0;
        seed = cmk_seed ++ 0 ∷ 0 ∷ 0 ∷ [];
        slen = 29;
        flag = flag;
      }),
    )
    else (fail, none)

abbrev pub cut_len : ℕ → ℕ
cut_len len = if ltb mppe_max_keylen len then mppe_max_keylen else len

unfoldable pub cmac_send_key : Cmac → List ℕ → ℕ → Cmac
cmac_send_key ctx key len =
    let n = cut_len len in
    if ltb 0 n
    then record ctx { send_key = take n key ++ drop n ctx.send_key; key_len = n }
    else ctx

unfoldable pub cmac_recv_key : Cmac → List ℕ → ℕ → Cmac
cmac_recv_key ctx key len =
    let n = cut_len len in
    if ltb 0 n
    then record ctx { recv_key = take n key ++ drop n ctx.recv_key; key_len = n }
    else ctx

-- The test of a flag of `ctx->flag`.
abbrev pub has_flag : ℕ → ℕ → Bool
has_flag flag ctx_flag = not (bit_and flag ctx_flag == 0)

-- `sstp_cmac_makekey` into an array of 64 bytes: the bytes there, as many as it returns.
unfoldable pub makekey : Cmac → List ℕ
makekey ctx =
    let server = has_flag cmac_server ctx.flag in
    if ltb ctx.key_len hlak_keylen
    then (if server
        then take 16 ctx.recv_key ++ take 16 ctx.send_key
        else take 16 ctx.send_key ++ take 16 ctx.recv_key)
    else take ctx.key_len (if server then ctx.recv_key else ctx.send_key)

module _ (hmac : Bool → List ℕ → List ℕ → List ℕ) where
  -- The bytes that `sstp_cmac_result` stores at `result`.
  unfoldable pub cmac_result : Cmac → List ℕ → List ℕ
  unfolding makekey
  cmac_result ctx message =
      let sha256 = has_flag hash_sha256 ctx.flag in
      let len0 = if sha256 then 32 else 20 in
      let cmk = hmac sha256 (makekey ctx) (take ctx.slen ctx.seed ++ len0 ∷ 0 ∷ 1 ∷ []) in
      hmac sha256 cmk message
