-- ===== src/Ios/Inject.antt =====
-- sstp/sstp-ios.c: the way of an IP packet from the tunnel's thread into the loop, over a pair of
-- sockets that do not block: `sstp_ios_session_write_ip` and `ios_inject_cb`. The pair is the list of
-- the bytes that are on their way.
use sstp_client_i_os.Base.{
  ℕ, zero, suc, ◌+◌, ◌-◌, ◌*◌, ◌/◌, ◌%◌, Bool, true, false, ◌||◌, not, Option, none, some, List, [],
  ◌∷◌, ◌++◌, okay, length, take, drop, get_or, if◌then◌else◌, ltb, ◌==◌, ◌>>=◌,
}
use sstp_client_i_os.Ppp.{World, Peer}
use sstp_client_i_os.Ppp.Entry.{pppd_send_ip}
use sstp_client_i_os.Ios.{Session, Flow, fault, returned}

-- The header of a packet of that many bytes.
unfoldable pub header : ℕ → List ℕ
header len = len / 0x1000000 % 256 ∷ len / 0x10000 % 256 ∷ len / 256 % 256 ∷ len % 256 ∷ []

-- What `sstp_ios_session_write_ip` refuses before it writes; `ready` is that of the session.
abbrev pub refused : Bool → ℕ → Bool
refused ready len = (len == 0) || ltb 2000 len || not ready

-- `sstp_ios_session_write_ip`, where the pair has room for that many bytes: whether it returns 0, and
-- the bytes on their way. A write takes as many bytes as there is room for.
unfoldable pub write_ip : Bool → ℕ → List ℕ → List ℕ → Bool × List ℕ
unfolding header
write_ip ready room packet pair =
    let hdr = header (length packet) in
    if refused ready (length packet)
    then (false, pair)
    else if ltb room 4
    then (false, pair ++ take room hdr)
    else if ltb (room - 4) (length packet)
    then (false, pair ++ (hdr ++ take (room - 4) packet))
    else (true, pair ++ (hdr ++ packet))

-- The number in the four bytes of a header.
unfoldable pub header_len : List ℕ → ℕ
header_len hdr =
    get_or hdr 0 0 * 0x1000000 + get_or hdr 1 0 * 0x10000 + get_or hdr 2 0 * 256 + get_or hdr 3 0

abbrev pub skipped : ℕ → Bool
skipped len = (len == 0) || ltb 2048 len

-- The loop of `ios_inject_cb`, with fuel: the packets that it hands on, and the bytes still on their
-- way. A read takes the bytes that are there, as many as it asks for at most.
unfoldable pub inject : ℕ → List ℕ → List (List ℕ) × List ℕ
unfolding header_len
inject zero pair = ([], pair)
inject (suc n) pair =
    let rest = drop 4 pair in
    let len = header_len pair in
    let more = inject n (if skipped len then rest else drop len rest) in
    if ltb (length pair) 4
    then ([], rest)
    else if skipped len
    then more
    else if ltb (length rest) len
    then ([], drop len rest)
    else (take len rest ∷ more.0, more.1)

module _ {Rc4 : Type 0} (world : World Rc4) where
  -- `sstp_pppd_send_ip` of each packet, whose result is dropped.
  unfoldable pub send_each : List (List ℕ) → Peer Rc4 → Option (Peer Rc4)
  send_each [] p = some p
  send_each (packet ∷ rest) p = do (status, q) ← pppd_send_ip world p packet; send_each rest q

  unfoldable pub sent_on : Session Rc4 → Option (Peer Rc4) → Flow (Session Rc4)
  sent_on s none = fault
  sent_on s (some p) = returned okay (record s { pppd = some p })

  unfoldable pub send_all : Session Rc4 → List (List ℕ) → Option (Peer Rc4) → Flow (Session Rc4)
  send_all s packets none = returned okay s
  send_all s packets (some p) = sent_on s (send_each packets p)

  -- `ios_inject_cb`; each round of the loop but the last takes four bytes or more.
  unfoldable pub inject_cb : List ℕ → Session Rc4 → Flow (Session Rc4)
  unfolding inject send_all
  inject_cb pair s = send_all s ((inject (suc (length pair)) pair).0) s.pppd
