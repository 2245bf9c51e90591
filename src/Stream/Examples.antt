-- ===== src/Stream/Examples.antt =====
-- sstp/sstp-stream.c at concrete inputs: a connection that gives one byte at a time.
use sstp_client_i_os.Base.{
  ℕ, ◌<◌, ◌≤◌, ◌≡◌, refl, arith, ◌⊎◌, none, some, List, [], ◌∷◌, ◌++◌, take, replicate, Status,
  okay, inprog, length, Option, fail, leb, if◌then◌else◌, ◌==◌, Bool-cases, inl, inr,
}
use sstp_client_i_os.Buff.{Buff}
use sstp_client_i_os.Stream.{ev_write, Read, got, want_read, broken, Received, leave, recv_sstp}
use sstp_client_i_os.Stream.Receive.{Documented, recv_sstp_packet}
use sstp_client_i_os.Stream.Send.{
  Write, took, wants_write, Operation, Sender, unsent, stream_send, send_cont,
}
use sstp_client_i_os.Stream.Sending.{stream_send_keeps, send_cont_reorders}
use sstp_client_i_os.Stream.Sending as Sending
use sstp_client_i_os.Stream.Short.{recv_sstp_short}

-- The connection is what still comes; nothing is there when it is empty.
abbrev one_byte : List ℕ → ℕ → Read × List ℕ
one_byte [] n = (want_read, [])
one_byte (b ∷ bs) n = if n == 0 then (broken, b ∷ bs) else (got (b ∷ []), bs)

abbrev same : List ℕ → List ℕ
same bytes = bytes

one_byte-Documented : (ssl : List ℕ) (n : ℕ) → Documented same ssl n (one_byte ssl n)
one_byte-Documented [] n = refl
one_byte-Documented (b ∷ bs) n = elim (Bool-cases (n == 0)) [
  | inl nothing ↦ rw nothing refl
  | inr more ↦ rw more (omega arith, ground (arith, more), refl)
]

-- A data packet of 6 bytes, and the first byte of the next.
abbrev packet : List ℕ
packet = 0x10 ∷ 0 ∷ 0 ∷ 6 ∷ 7 ∷ 8 ∷ 0x10 ∷ []

abbrev buffer : Buff
buffer = record { len = 0; max = 8; off = 0; bytes = replicate 8 1 }

recv_sstp_packet_example :
    (r : Received (List ℕ)) × (recv_sstp one_byte packet buffer ≡ some r)
    × (take r.buf.off r.buf.bytes ++ r.ssl ≡ packet)
    × (r.buf.off ≤ 6)
    × ((r.status ≡ inprog)
        ⊎ ((r.status ≡ fail) ⊎ ((r.status ≡ okay) × ((r.buf.off < 4) ⊎ (r.buf.off ≡ 6)))))
recv_sstp_packet_example =
    recv_sstp_packet one_byte same one_byte-Documented packet 6 8 (omega arith) refl (omega arith)
      packet buffer (omega arith) refl (omega arith) refl refl

-- "OK" and an empty line.
abbrev response : List ℕ
response = 0x4f ∷ 0x4b ∷ 0x0d ∷ 0x0a ∷ 0x0d ∷ 0x0a ∷ []

-- The first two bytes only.
abbrev two_bytes : List ℕ → ℕ → Read × List ℕ
two_bytes (a ∷ b ∷ bs) n = (got (a ∷ b ∷ []), bs)
two_bytes _ n = (want_read, [])

recv_sstp_short_example :
    recv_sstp two_bytes packet
      (record { len = 0; max = 8; off = 0; bytes = 0 ∷ 0 ∷ 0 ∷ 0 ∷ replicate 4 0 })
    ≡ some (
        leave two_bytes okay
          (record { len = 4; max = 8; off = 2; bytes = 0x10 ∷ 0 ∷ 0 ∷ 0 ∷ replicate 4 0 })
          (0 ∷ 6 ∷ 7 ∷ 8 ∷ 0x10 ∷ [])
          none)
recv_sstp_short_example =
    recv_sstp_short two_bytes packet (0 ∷ 6 ∷ 7 ∷ 8 ∷ 0x10 ∷ []) 0x10 0 0 0 0 0 8 (replicate 4 0)
      refl (omega arith)

-- A connection that takes a byte at a time, up to four in all; what it took, in order.
abbrev four : List ℕ → List ℕ → Write × List ℕ
four ssl [] = (wants_write, ssl)
four ssl (b ∷ bs) = if leb 4 (length ssl) then (wants_write, ssl) else (took 1, ssl ++ b ∷ [])

four-Documented : (ssl text : List ℕ) → Sending.Documented same ssl text (four ssl text)
four-Documented ssl [] = refl
four-Documented ssl (b ∷ bs) = elim (Bool-cases (leb 4 (length ssl))) [
  | inl full ↦ rw full refl
  | inr room ↦ rw room (omega arith, omega arith, refl)
]

abbrev six_bytes : Operation
six_bytes = record {
  buf = record { len = 6; max = 8; off = 0; bytes = 1 ∷ 2 ∷ 3 ∷ 4 ∷ 5 ∷ 6 ∷ 0 ∷ 0 ∷ [] };
  owner = 1;
  timeout = 10;
}

abbrev idle : Sender (List ℕ)
idle = record { ssl = []; send = []; ev_send = none }

stream_send_keeps_example :
    (status : Status) × (after : Sender (List ℕ)) × (stream_send four idle six_bytes
      ≡ some (status, after))
    × (((status ≡ okay) × (after.send ≡ []) × (after.ssl ≡ 1 ∷ 2 ∷ 3 ∷ 4 ∷ 5 ∷ 6 ∷ []))
        ⊎ (((status ≡ fail) × (after.send ≡ []))
            ⊎ ((status ≡ inprog)
                × ((rest : Operation) × (after.send ≡ rest ∷ [])
                    × (after.ssl ++ unsent rest.buf ≡ 1 ∷ 2 ∷ 3 ∷ 4 ∷ 5 ∷ 6 ∷ [])))))
stream_send_keeps_example =
    stream_send_keeps four same four-Documented idle six_bytes refl (omega arith) (omega arith)

-- A callback that does nothing.
abbrev forget : Sender (List ℕ) → Operation → Status → Option (Sender (List ℕ))
forget ctx op status = some ctx

abbrev other : Operation
other = record six_bytes { owner = 2 }

send_cont_reorders_example :
    send_cont four forget 5
      (record { ssl = 9 ∷ 9 ∷ 9 ∷ 9 ∷ []; send = six_bytes ∷ other ∷ []; ev_send = none })
    ≡ some (record {
      ssl = 9 ∷ 9 ∷ 9 ∷ 9 ∷ [];
      send = other ∷ six_bytes ∷ [];
      ev_send = some ev_write;
    })
send_cont_reorders_example =
    send_cont_reorders four forget 4 (9 ∷ 9 ∷ 9 ∷ 9 ∷ []) (9 ∷ 9 ∷ 9 ∷ 9 ∷ []) six_bytes
      (other ∷ []) refl
