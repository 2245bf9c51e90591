-- ===== src/Mppe.antt =====
-- The MPPE encryption of sstp/ios-pppd.c (128 bits, stateless), with the derivation of its keys in
-- sstp/sstp-mschapv2.c. RC4 and SHA-1 of the OpenSSL library are parameters: `Rc4` is RC4_KEY,
-- `set_key` RC4_set_key, and `rc4` RC4, with the bytes it stores and the key behind the call.
pub mod Sync
pub mod Transfer
pub mod Examples
use sstp_client_i_os.Base.{
  ℕ, zero, suc, ◌+◌, ◌-◌, ◌*◌, ◌/◌, ◌%◌, ◌^◌, bit_and, bit_or, Bool, true, false, not, ◌||◌, ◌&&◌,
}
use sstp_client_i_os.Base.{Option, none, some, List, [], ◌∷◌, ◌++◌, length, take, replicate, be16}
use sstp_client_i_os.Base.{if◌then◌else◌, ltb, ◌==◌, ◌>>=◌}

abbrev pub ppp_mru : ℕ
ppp_mru = 1400

abbrev pub proto_ip : ℕ
proto_ip = 0x0021

abbrev pub proto_mppe : ℕ
proto_mppe = 0x003d

-- The fields of one direction: `mppe_master_*`, `mppe_session_*`, `rc4_*` and `mppe_*_ccount`.
pub record Half (Rc4 : Type 0) : Type 0 where
  pub master : List ℕ
  pub session : List ℕ
  pub key : Rc4
  pub ccount : ℕ

-- The fields of `struct sstp_pppd` about MPPE and IP packets; `handler` is whether `ip_handler` is
-- set.
pub record Mppe (Rc4 : Type 0) : Type 0 where
  pub send_half : Half Rc4
  pub recv_half : Half Rc4
  pub enabled : Bool
  pub keys_set : Bool
  pub handler : Bool
  pub recv_bytes : ℕ

abbrev pub get_be16 : ℕ → ℕ → ℕ
get_be16 p0 p1 = bit_or (p0 * 256) p1

-- `ppp_send_frame`: the frame that it hands to `ppp_enqueue_raw`.
unfoldable pub ppp_frame : ℕ → List ℕ → Option (List ℕ)
ppp_frame proto payload =
    if ltb ppp_mru (length payload) then none else some (0xff ∷ 0x03 ∷ (be16 proto ++ payload))

-- The protocol at the start of a packet, in one byte or two, and the rest.
abbrev pub split_proto : List ℕ → Option (ℕ × List ℕ)
split_proto [] = none
split_proto (b ∷ []) = if bit_and b 0x01 == 0 then none else some (b, [])
split_proto (b ∷ c ∷ rest) =
    if bit_and b 0x01 == 0 then some (get_be16 b c, rest) else some (b, c ∷ rest)

-- `ppp_dispatch` up to its switch: the protocol, and what the handlers are given.
unfoldable pub ppp_header : List ℕ → Option (ℕ × List ℕ)
ppp_header (a ∷ b ∷ c ∷ rest) =
    let p = if (a == 0xff) && (b == 0x03) then c ∷ rest else a ∷ b ∷ c ∷ rest in
    if ltb (length p) 2 then none else split_proto p
ppp_header _ = none

-- The two bytes in front of the encrypted packet: the flags A and D, and the coherency count.
abbrev pub coherency : ℕ → List ℕ
coherency ccount = bit_or 0x90 (bit_and (ccount / 256) 0x0f) ∷ bit_and ccount 0xff ∷ []

module _ {Rc4 : Type 0} (set_key : List ℕ → Rc4) (rc4 : Rc4 → List ℕ → List ℕ × Rc4)
    (sha1 : List ℕ → List ℕ) where
  -- `sstp_mppe_get_new_key_from_sha`
  unfoldable pub new_key : List ℕ → List ℕ → List ℕ
  new_key master session =
      take 16 (sha1 (master ++ (replicate 40 0 ++ (session ++ replicate 40 0xf2))))

  unfoldable pub mppe_rekey : Bool → Half Rc4 → Half Rc4
  unfolding new_key
  mppe_rekey initial h =
      let digest = new_key h.master h.session in
      let session = if initial then digest else (rc4 (set_key digest) digest).0 in
      record h { session = session; key = set_key session }

  -- The part of `mppe_init_keys` for one direction.
  abbrev pub start : Half Rc4 → Half Rc4
  start h = record (mppe_rekey true (record h { session = h.master })) { ccount = 0x0fff }

  unfoldable pub mppe_init_keys : Mppe Rc4 → Mppe Rc4
  unfolding mppe_rekey
  mppe_init_keys m =
      if m.keys_set
      then record m { send_half = start m.send_half; recv_half = start m.recv_half; enabled = true }
      else m

  -- `ppp_send_ip_plain_or_mppe`, with the frame for `ppp_enqueue_raw`; `none` is SSTP_FAIL.
  unfoldable pub send_ip : Mppe Rc4 → List ℕ → Option (List ℕ) × Mppe Rc4
  unfolding mppe_rekey ppp_frame
  send_ip m ip =
      let counted = record (m.send_half) { ccount = bit_and (m.send_half.ccount + 1) 0x0fff } in
      let h = mppe_rekey false counted in
      let (enc, key) = rc4 h.key (be16 proto_ip ++ ip) in
      if (length ip == 0) || ltb (ppp_mru - 4) (length ip)
      then (none, m)
      else (if m.enabled
          then (
            ppp_frame proto_mppe (coherency h.ccount ++ enc),
            record m { send_half = record h { key = key } },
          )
          else (ppp_frame proto_ip ip, m))

  -- The loop of `handle_mppe`. The count goes through its 4096 values in turn, so that 4096 rounds
  -- find every count there is.
  unfoldable pub catch_up : ℕ → ℕ → Half Rc4 → Half Rc4
  unfolding mppe_rekey
  catch_up zero ccount h = h
  catch_up (suc fuel) ccount h =
      let next = record (mppe_rekey false h) { ccount = bit_and (h.ccount + 1) 0x0fff } in
      elim (h.ccount == ccount) [ true ↦ h | false ↦ catch_up fuel ccount next ]

  -- The end of `handle_mppe`: the packet for `ip_handler`.
  abbrev pub deliver : Mppe Rc4 → List ℕ → Option (List ℕ) × Mppe Rc4
  deliver m dec = elim (split_proto dec) [
    | none ↦ (none, m)
    | some (proto, ip) ↦
        if (proto == proto_ip) && (m.handler && ltb 0 (length ip))
        then (some ip, record m { recv_bytes = (m.recv_bytes + length ip) % 2 ^ 64 })
        else (none, m)
  ]

  -- `handle_mppe`; `none` is a write behind the array `dec`, which has PPP_MRU + 16 bytes.
  unfoldable pub handle_mppe : Mppe Rc4 → List ℕ → Option (Option (List ℕ) × Mppe Rc4)
  unfolding catch_up
  handle_mppe m (b0 ∷ b1 ∷ b2 ∷ rest) =
      let ccount = bit_or (bit_and b0 0x0f * 256) b1 in
      let h = catch_up 4096 ccount m.recv_half in
      let (dec, key) = rc4 h.key (b2 ∷ rest) in
      let done = deliver (record m { recv_half = record h { key = key } }) dec in
      if m.enabled
      then (if ltb (ppp_mru + 16) (length (b2 ∷ rest)) then none else some done)
      else some (none, m)
  handle_mppe m _ = some (none, m)
