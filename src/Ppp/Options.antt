-- ===== src/Ppp/Options.antt =====
-- sstp/ios-pppd.c: the packets of LCP, IPCP and CCP that the peer takes apart, and their options.
use sstp_client_i_os.Base.{ℕ, zero, suc, ◌+◌, ◌-◌, ◌*◌, ◌^◌, ◌||◌, ◌&&◌, List, ◌∷◌, ◌++◌}
use sstp_client_i_os.Base.{length, take, drop, get_or, if◌then◌else◌, ltb, ◌==◌}
use sstp_client_i_os.Mppe.{}
use sstp_client_i_os.Ppp.{Peer}
use sstp_client_i_os.Ppp.Requests.{ci_addr, ci_ms_dns1, ci_ms_dns2, be32}

-- `plen`: the length in the header, cut to the packet's.
abbrev pub packet_len : ℕ → ℕ → ℕ
packet_len claimed len = if ltb len claimed then len else claimed

-- The copy of a packet under another code, as it is sent back: `plen` bytes of it.
abbrev pub answer : ℕ → ℕ → List ℕ → List ℕ
answer plen code rest = take plen (code ∷ rest)

-- The length of an echo reply with the magic number in it.
abbrev pub with_magic : ℕ → ℕ → List ℕ → List ℕ
with_magic plen magic reply =
    if ltb plen 8 then reply else take 4 reply ++ (be32 magic ++ drop 8 reply)

abbrev pub get_be32 : List ℕ → ℕ
get_be32 v = get_or v 0 0 * 2 ^ 24 + get_or v 1 0 * 2 ^ 16 + get_or v 2 0 * 2 ^ 8 + get_or v 3 0

module _ {ℓ} {A : Type ℓ} (use_option : A → ℕ → List ℕ → A) where
  -- The loops over the options of an IPCP packet, with `rest` what stands at `pos`; a round moves
  -- `pos` by `olen`.
  unfoldable pub option_loop : ℕ → List ℕ → A → A
  option_loop zero rest a = a
  option_loop (suc fuel) (type ∷ olen ∷ body) a =
      let more =
        option_loop fuel (drop olen (type ∷ olen ∷ body))
          (use_option a type (take (olen - 2) body)) in
      if ltb olen 2 || ltb (2 + length body) olen then a else more
  option_loop (suc fuel) _ a = a

-- The options of a packet of `plen` bytes.
abbrev pub read_options {ℓ} : {A : Type ℓ} → (A → ℕ → List ℕ → A) → ℕ → List ℕ → A → A
read_options use_option plen buf a =
    let rest = drop 4 (take plen buf) in option_loop use_option (length rest) rest a

module _ {Rc4 : Type 0} where
  abbrev pub peer_option : Peer Rc4 → ℕ → List ℕ → Peer Rc4
  peer_option p type value =
      if (type == ci_addr) && (length value == 4) then record p { peer_ip = get_be32 value } else p

  abbrev pub local_option : Peer Rc4 → ℕ → List ℕ → Peer Rc4
  local_option p type value =
      if (type == ci_addr) && (length value == 4)
      then record p { local_ip = get_be32 value }
      else (if (type == ci_ms_dns1) && (length value == 4)
          then record p { dns1 = get_be32 value }
          else (if (type == ci_ms_dns2) && (length value == 4)
              then record p { dns2 = get_be32 value }
              else p))
