-- ===== src/Mppe/Transfer.antt =====
-- IP packets over an MPPE link of sstp/ios-pppd.c: what the sender encrypts, the receiver delivers.
use sstp_client_i_os.Base.{
  ℕ, suc, ◌+◌, ◌-◌, ◌%◌, ◌^◌, ◌≤◌, ◌<◌, true, false, ◌≡◌, refl, sym, ap, ◌∙◌, arith,
}
use sstp_client_i_os.Base.{none, some, List, [], ◌∷◌, ◌++◌, length, ◌==◌, ltb, be16, All}
use sstp_client_i_os.Mppe.{
  mppe_init_keys, Half, Mppe, mppe_rekey, new_key, catch_up, coherency, send_ip, handle_mppe,
  ppp_frame,
}
use sstp_client_i_os.Mppe.{ppp_header, proto_mppe, proto_ip, ppp_mru, deliver}
use sstp_client_i_os.Mppe.Sync.{
  InSync, read_back_lem, step, steps, step-steps, step-InSync, ccount-steps, catch_up-steps,
}

header_mppe :
    (body : List ℕ) → ppp_header (0xff ∷ 0x03 ∷ (be16 proto_mppe ++ body)) ≡ some (proto_mppe, body)
unfolding ppp_header
header_mppe body =
    let long : ltb (length (be16 proto_mppe ++ body)) 2 ≡ false = ground arith in rw long

module _ {Rc4 : Type 0} (set_key : List ℕ → Rc4) (rc4 : Rc4 → List ℕ → List ℕ × Rc4)
    (sha1 : List ℕ → List ℕ) where
  -- The state of a sender behind some packets.
  unfoldable pub send_all : Mppe Rc4 → List (List ℕ) → Mppe Rc4
  send_all m [] = m
  send_all m (ip ∷ ips) = send_all ((send_ip set_key rc4 sha1 m ip).1) ips

  -- The state of a direction after a packet was encrypted, but for RC4's own.
  sent_half :
      (m : Mppe Rc4) (ip : List ℕ)
      → m.enabled ≡ true
      → 0 < length ip
      → length ip ≤ 1396
      → (key : Rc4) × (send_ip set_key rc4 sha1 m ip ≡ (
        ppp_frame proto_mppe (
            coherency (step set_key rc4 sha1 m.send_half).ccount
            ++ (rc4 (step set_key rc4 sha1 m.send_half).key (be16 proto_ip ++ ip)).0),
        record m { send_half = record (step set_key rc4 sha1 m.send_half) { key = key } },
      ))
  unfolding send_ip step mppe_rekey
  sent_half m ip on some_bytes fits =
      let empty : (length ip == 0) ≡ false = ground arith in
      let long : ltb (ppp_mru - 4) (length ip) ≡ false = ground arith in
      ((rc4 (step set_key rc4 sha1 m.send_half).key (be16 proto_ip ++ ip)).1, rw (empty, long, on))

  -- A packet that is sent brings the direction to its next state.
  next_sync :
      (m : Mppe Rc4) (h : Half Rc4) (key : Rc4)
      → InSync m.send_half h
      → InSync (record (step set_key rc4 sha1 m.send_half) { key = key }) (step set_key rc4 sha1 h)
  next_sync m h key s =
      let same = step-InSync set_key rc4 sha1 m.send_half h s in
      record {
        master = ap (λ (t : Half Rc4). t.master) same;
        session = ap (λ (t : Half Rc4). t.session) same;
        ccount = ap (λ (t : Half Rc4). t.ccount) same;
      }

  -- Packets that the sender takes.
  abbrev pub Fits : List ℕ → Type 0
  Fits ip = (0 < length ip) × (length ip ≤ 1396)

  lost_sync :
      (lost : List (List ℕ)) (m : Mppe Rc4) (h : Half Rc4)
      → All Fits lost
      → m.enabled ≡ true
      → InSync m.send_half h
      → ((send_all m lost).enabled ≡ true)
        × InSync (send_all m lost).send_half (steps set_key rc4 sha1 (length lost) h)
  unfolding send_all steps
  lost_sync [] m h fits on s = (on, s)
  lost_sync (ip ∷ lost) m h fits on s =
      let (key, sent) = sent_half m ip on fits.0.0 fits.0.1 in
      let m' : Mppe Rc4 = record m {
        send_half = record (step set_key rc4 sha1 m.send_half) { key = key };
      } in
      let rest = lost_sync lost m' (step set_key rc4 sha1 h) fits.1 on (next_sync m h key s) in
      rw (sent, send_all) rest

  received :
      (r : Mppe Rc4) (c : ℕ) (g : Half Rc4) (enc : List ℕ)
      → 0 < length enc
      → length enc ≤ 1416
      → r.enabled ≡ true
      → c < 4096
      → catch_up set_key rc4 sha1 4096 c r.recv_half ≡ g
      → handle_mppe set_key rc4 sha1 r (coherency c ++ enc)
        ≡ some (
            deliver set_key rc4 sha1
              (record r { recv_half = record g { key = (rc4 g.key enc).1 } })
              (rc4 g.key enc).0)
  unfolding handle_mppe
  received r c g [] some_bytes fits on small caught = absurd (omega arith)
  received r c g (e ∷ enc) some_bytes fits on small caught =
      let long : ltb (ppp_mru + 16) (length (e ∷ enc)) ≡ false = ground arith in
      rw (read_back_lem c small) (rw (caught, long, on))

  -- Two ends whose keys are set, the send key of one being the receive key of the other, agree when
  -- both have run `mppe_init_keys`, and have MPPE enabled.
  pub mppe_init_keys-InSync :
      (m r : Mppe Rc4)
      → m.keys_set ≡ true
      → r.keys_set ≡ true
      → m.send_half.master ≡ r.recv_half.master
      → InSync
          (mppe_init_keys set_key rc4 sha1 m).send_half
          (mppe_init_keys set_key rc4 sha1 r).recv_half
        × ((mppe_init_keys set_key rc4 sha1 m).enabled ≡ true)
        × ((mppe_init_keys set_key rc4 sha1 r).enabled ≡ true)
        × ((mppe_init_keys set_key rc4 sha1 r).recv_half.ccount < 4096)
  unfolding mppe_init_keys mppe_rekey
  mppe_init_keys-InSync m r set set' same =
      rw (set, set')
        (
          record {
            master = same;
            session = ap (λ t. new_key set_key rc4 sha1 t t) same;
            ccount = refl;
          },
          refl,
          refl,
          omega arith,
        )

  -- An MPPE packet with more than 1416 bytes behind its header makes `handle_mppe` write behind the
  -- end of its array: nothing on the way compares the length that the peer sends with the array's.
  pub handle_mppe_overflow :
      (r : Mppe Rc4) (b0 b1 b2 : ℕ) (rest : List ℕ)
      → r.enabled ≡ true
      → 1416 ≤ length rest
      → (ppp_header (0xff ∷ 0x03 ∷ (be16 proto_mppe ++ (b0 ∷ b1 ∷ b2 ∷ rest)))
          ≡ some (proto_mppe, b0 ∷ b1 ∷ b2 ∷ rest))
        × (handle_mppe set_key rc4 sha1 r (b0 ∷ b1 ∷ b2 ∷ rest) ≡ none)
  unfolding handle_mppe
  handle_mppe_overflow r b0 b1 b2 rest on many =
      let over : ltb (ppp_mru + 16) (length (b2 ∷ rest)) ≡ true = ground arith in
      (header_mppe (b0 ∷ b1 ∷ b2 ∷ rest), rw (on, over))

  -- RC4 with the key that encrypted a text decrypts it, and keeps its length.
  module _ (rc4_twice : (k : Rc4) (text : List ℕ) → (rc4 k (rc4 k text).0).0 ≡ text)
      (rc4_length : (k : Rc4) (text : List ℕ) → length (rc4 k text).0 ≡ length text) where
    -- Over a link with MPPE enabled at both ends, which agree on the key, and with an IP handler at
    -- the receiver, an IP packet of 1 to 1396 bytes is delivered as it was sent, even when up to
    -- 4094 such packets before it were lost: `ppp_send_ip_plain_or_mppe` makes a frame,
    -- `ppp_dispatch` finds an MPPE packet in it, `handle_mppe` hands the IP packet to the handler,
    -- and the ends agree again.
    pub mppe_delivers :
        (m r : Mppe Rc4) (lost : List (List ℕ)) (ip : List ℕ)
        → m.enabled ≡ true
        → r.enabled ≡ true
        → r.handler ≡ true
        → InSync m.send_half r.recv_half
        → r.recv_half.ccount < 4096
        → All Fits lost
        → length lost < 4095
        → Fits ip
        → (frame : List ℕ) × (body : List ℕ) × (m' : Mppe Rc4) × (r' : Mppe Rc4) × (send_ip set_key
              rc4 sha1
              (send_all m lost)
              ip
            ≡ (some frame, m'))
          × (ppp_header frame ≡ some (proto_mppe, body))
          × (handle_mppe set_key rc4 sha1 r body ≡ some (some ip, r'))
          × InSync m'.send_half r'.recv_half
    unfolding ppp_frame steps
    mppe_delivers m r lost ip on on' there s small fits few fit =
        let k : ℕ = length lost in
        let h : Half Rc4 = steps set_key rc4 sha1 k r.recv_half in
        let g : Half Rc4 = step set_key rc4 sha1 h in
        let ahead : steps set_key rc4 sha1 (suc k) r.recv_half ≡ g =
          sym (step-steps set_key rc4 sha1 k r.recv_half) in
        let n : ℕ = (r.recv_half.ccount + suc k) % 4096 in
        let at : g.ccount ≡ n =
          ap (λ (t : Half Rc4). t.ccount) (sym ahead)
          ∙ ccount-steps set_key rc4 sha1 (suc k) r.recv_half small in
        let (still, sync) = lost_sync lost m r.recv_half fits on s in
        let (key, sent) = sent_half (send_all m lost) ip still fit.0 fit.1 in
        let same = step-InSync set_key rc4 sha1 (send_all m lost).send_half h sync in
        let enc : List ℕ = (rc4 g.key (be16 proto_ip ++ ip)).0 in
        let size : length enc ≡ suc (suc (length ip)) = rc4_length g.key (be16 proto_ip ++ ip) in
        let body : List ℕ = coherency g.ccount ++ enc in
        let room : ltb ppp_mru (length body) ≡ false = ground (arith, size, fit) in
        let caught : catch_up set_key rc4 sha1 4096 g.ccount r.recv_half ≡ g =
          catch_up-steps set_key rc4 sha1 (suc k) 4096 g.ccount r.recv_half (omega arith)
            (omega arith) small at
          ∙ ahead in
        let opened =
          received r g.ccount g enc (omega (arith, size)) (omega (arith, size, fit.1)) on'
            (omega (arith, at)) caught in
        let clear = rc4_twice g.key (be16 proto_ip ++ ip) in
        let full : ltb 0 (length ip) ≡ true = ground (arith, fit.0) in
        (
          0xff ∷ 0x03 ∷ (be16 proto_mppe ++ body),
          body,
          record (send_all m lost) { send_half = record g { key = key } },
          record r {
            recv_half = record g { key = (rc4 g.key enc).1 };
            recv_bytes = (r.recv_bytes + length ip) % 2 ^ 64;
          },
          sent
              ∙ ap
                  (λ (t : Half Rc4). (
                    ppp_frame proto_mppe
                        (coherency t.ccount ++ (rc4 t.key (be16 proto_ip ++ ip)).0),
                    record (send_all m lost) { send_half = record t { key = key } },
                  ))
                  same
              ∙ rw room,
          header_mppe body,
          opened ∙ rw clear (rw (there, full)),
          record { master = refl; session = refl; ccount = refl },
        )
