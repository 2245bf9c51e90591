-- ===== src/Stream/Receive.antt =====
-- `sstp_stream_recv_sstp` of sstp/sstp-stream.c against what SSL_read promises.
use sstp_client_i_os.Base.{
  ℕ, zero, suc, ◌+◌, ◌-◌, ◌^◌, ◌<◌, ◌≤◌, ◌≡◌, refl, sym, ap, ◌∙◌, arith, ◌⊎◌, inl, inr, Bool-cases,
}
use sstp_client_i_os.Base.{
  Option, none, some, List, [], ◌∷◌, ◌++◌, append_assoc, length, take, drop, ltb, read16, splice,
  write_bytes-splice, length-splice, take-splice, take-append-drop, length-take, ◌>>=◌,
}
use sstp_client_i_os.Base.{
  okay, fail, inprog, Returns, Returns-some, Returns-value, or_else, if_each, ltb→le,
}
use sstp_client_i_os.Buff.{Buff}
use sstp_client_i_os.Packet.{pkt_len}
use sstp_client_i_os.Stream.{
  Read, got, want_read, want_write, broken, ev_read, ev_write, Received, wanted, read_into, leave,
  after_read, recv_loop, recv_sstp,
}

read16_there : (mem : List ℕ) → 4 ≤ length mem → (size : ℕ) × (read16 mem 2 ≡ some size)
read16_there (a ∷ b ∷ h ∷ l ∷ mem) enough = (_, refl)
read16_there [] enough = absurd (omega (arith, enough))
read16_there (a ∷ []) enough = absurd (omega (arith, enough))
read16_there (a ∷ b ∷ []) enough = absurd (omega (arith, enough))
read16_there (a ∷ b ∷ h ∷ []) enough = absurd (omega (arith, enough))

read16_shared :
    (front back back' : List ℕ)
    → 4 ≤ length front
    → read16 (front ++ back) 2 ≡ read16 (front ++ back') 2
read16_shared (a ∷ b ∷ h ∷ l ∷ front) back back' enough = refl
read16_shared [] back back' enough = absurd (omega (arith, enough))
read16_shared (a ∷ []) back back' enough = absurd (omega (arith, enough))
read16_shared (a ∷ b ∷ []) back back' enough = absurd (omega (arith, enough))
read16_shared (a ∷ b ∷ h ∷ []) back back' enough = absurd (omega (arith, enough))

module _ {Ssl : Type 0} (coming : Ssl → List ℕ) where
  -- What SSL_read promises of an answer, with `coming` what the peer sent and is still to be read:
  -- it gives one byte or more, no more than were asked for, the next ones that come; or it takes
  -- nothing.
  abbrev pub Documented : Ssl → ℕ → Read × Ssl → Type 0
  Documented ssl n (got bytes, after) =
      (0 < length bytes) × (length bytes ≤ n) × (coming ssl ≡ bytes ++ coming after)
  Documented ssl n (_, after) = coming ssl ≡ coming after

module _ {Ssl : Type 0} (ssl_read : Ssl → ℕ → Read × Ssl) (coming : Ssl → List ℕ)
    (documented : (ssl : Ssl) (n : ℕ) → Documented coming ssl n (ssl_read ssl n)) where
  module _ (total : List ℕ) (size max : ℕ) (fits : size ≤ max) where
    -- The state between two rounds: what was read and what comes is `total`.
    abbrev pub Between : Ssl → Buff → Type 0
    Between ssl buf =
        (take buf.off buf.bytes ++ coming ssl ≡ total)
        × (buf.off ≤ size)
        × (length buf.bytes ≡ max)
        × (buf.max ≡ max)

    -- The bytes of an answer are stored behind the others.
    pub read_into_lem :
        (ssl after : Ssl) (buf : Buff) (len limit : ℕ) (bytes : List ℕ)
        → Between ssl buf
        → limit ≤ size
        → length bytes ≤ limit - buf.off
        → coming ssl ≡ bytes ++ coming after
        → (next : Buff) × (read_into ssl_read (record buf { len = len }) bytes ≡ some next)
          × Between after next
          × (next.off ≡ buf.off + length bytes)
    read_into_lem ssl after buf len limit bytes (whole, below, long, same) most few order =
        let inside : buf.off + length bytes ≤ length buf.bytes =
          omega (arith, few, most, below, fits, long) in
        let mem : List ℕ = splice buf.bytes buf.off bytes in
        let next : Buff = record buf { len = len; off = buf.off + length bytes; bytes = mem } in
        let kept : take next.off mem ++ coming after ≡ total =
          ap (λ t. t ++ coming after) (take-splice buf.bytes buf.off bytes inside)
          ∙ append_assoc (take buf.off buf.bytes) bytes (coming after)
          ∙ ap (λ t. take buf.off buf.bytes ++ t) (sym order)
          ∙ whole in
        (
          next,
          ap
              (λ o.
                o >>= λ t. some (record buf { len = len; off = buf.off + length bytes; bytes = t }))
              (write_bytes-splice buf.bytes buf.off bytes inside),
          (
            kept,
            omega (arith, few, most, below),
            length-splice buf.bytes buf.off bytes inside ∙ long,
            same,
          ),
          refl,
        )

    module _ (header : read16 total 2 ≡ some size) (least : 4 ≤ size) where
      -- How a call ends.
      abbrev Ended : Received Ssl → Type 0
      Ended r =
          Between r.ssl r.buf
          × ((r.status ≡ inprog)
              ⊎ ((r.status ≡ fail) ⊎ ((r.status ≡ okay) × ((r.buf.off < 4) ⊎ (r.buf.off ≡ size)))))

      -- Once four bytes are there, the length is the one of the packet that comes.
      pkt_len_read :
          (ssl : Ssl) (buf : Buff) → Between ssl buf → 4 ≤ buf.off → pkt_len buf ≡ some size
      unfolding pkt_len
      pkt_len_read ssl buf (whole, below, long, same) enough =
          let front : List ℕ = take buf.off buf.bytes in
          let there : 4 ≤ length front =
            omega (arith, length-take buf.off buf.bytes, enough, below, fits, long) in
          ap (λ t. read16 t 2) (sym (take-append-drop buf.off buf.bytes))
          ∙ read16_shared front (drop buf.off buf.bytes) (coming ssl) there
          ∙ ap (λ t. read16 t 2) whole
          ∙ header

      wanted_lem :
          (ssl : Ssl) (buf : Buff)
          → Between ssl buf
          → (len : ℕ) × (wanted ssl_read buf ≡ some len) × (len ≤ size)
      wanted_lem ssl buf b = elim (Bool-cases (ltb buf.off 4)) [
        | inl early ↦ (4, rw early refl, least)
        | inr later ↦ (size, rw later (pkt_len_read ssl buf b (ground (arith, later))), omega arith)
      ]

      pkt_len_there : (ssl : Ssl) (buf : Buff) → Between ssl buf → (n : ℕ) × (pkt_len buf ≡ some n)
      unfolding pkt_len
      pkt_len_there ssl buf (whole, below, long, same) =
          read16_there buf.bytes (omega (arith, long, least, fits))

      complete_or_short :
          (ssl : Ssl) (buf : Buff) (n : ℕ)
          → Between ssl buf
          → pkt_len buf ≡ some n
          → n ≤ buf.off
          → (buf.off < 4) ⊎ (buf.off ≡ size)
      complete_or_short ssl buf n b known full = elim (Bool-cases (ltb buf.off 4)) [
        | inl short ↦ inl (ground (arith, short))
        | inr enough ↦
            let same : some n ≡ some size =
              sym known ∙ pkt_len_read ssl buf b (ground (arith, enough)) in
            let n_size : n ≡ size = ap (λ o. or_else o 0) same in
            inr (omega (arith, n_size, full, b))
      ]

      -- The end of a round.
      after_lem :
          (more : Buff → Option (Received Ssl)) (ssl : Ssl) (buf : Buff)
          → Between ssl buf
          → Returns Ended (more buf)
          → Returns Ended (after_read ssl_read more ssl buf)
      after_lem more ssl buf b going =
          let (n, known) = pkt_len_there ssl buf b in
          rw known (
            if_each (Returns Ended) (ltb buf.off n) (more buf)
              (some (leave ssl_read okay buf ssl none)) (λ _. going)
              λ full.
                Returns-some Ended _ (
                  b,
                  inr (inr (refl, complete_or_short ssl buf n b known (ltb→le buf.off n full))),
                ))

      round_lem :
          (more : Ssl → Buff → Option (Received Ssl)) (ssl : Ssl) (buf : Buff) (len : ℕ)
          (answer : Read × Ssl)
          → Between ssl buf
          → len ≤ size
          → Documented coming ssl (len - buf.off) answer
          → ((next : Buff)
              → Between (answer.1) next
              → buf.off < next.off
              → Returns Ended (more answer.1 next))
          → Returns Ended (elim (answer.0) [
            | got bytes ↦
                read_into ssl_read (record buf { len = len }) bytes
                >>= after_read ssl_read (more answer.1) (answer.1)
            | want_read ↦
                some (leave ssl_read inprog (record buf { len = len }) (answer.1) (some ev_read))
            | want_write ↦
                some (leave ssl_read inprog (record buf { len = len }) (answer.1) (some ev_write))
            | broken ↦ some (leave ssl_read fail (record buf { len = len }) (answer.1) none)
          ])
      unfolding Returns
      round_lem more ssl buf len (got bytes, after) b most (some_bytes, few, order) going =
          let (next, made, b', at) = read_into_lem ssl after buf len len bytes b most few order in
          rw made
            (after_lem (more after) after next b' (going next b' (omega (arith, at, some_bytes))))
      round_lem more ssl buf len (want_read, after) (whole, below, long, equal) most same going =
          ((ap (λ t. take buf.off buf.bytes ++ t) (sym same) ∙ whole, below, long, equal), inl refl)
      round_lem more ssl buf len (want_write, after) (whole, below, long, equal) most same going =
          ((ap (λ t. take buf.off buf.bytes ++ t) (sym same) ∙ whole, below, long, equal), inl refl)
      round_lem more ssl buf len (broken, after) (whole, below, long, equal) most same going = (
        (ap (λ t. take buf.off buf.bytes ++ t) (sym same) ∙ whole, below, long, equal),
        inr (inl refl),
      )

      recv_loop_lem :
          (fuel : ℕ) (ssl : Ssl) (buf : Buff)
          → Between ssl buf
          → size < fuel + buf.off
          → Returns Ended (recv_loop ssl_read fuel ssl buf)
      unfolding recv_loop
      recv_loop_lem zero ssl buf b enough = absurd (omega (arith, enough, b))
      recv_loop_lem (suc fuel) ssl buf b enough =
          let (len, known, most) = wanted_lem ssl buf b in
          rw known (
            round_lem (recv_loop ssl_read fuel) ssl buf len (ssl_read ssl (len - buf.off)) b most
              (documented ssl (len - buf.off))
              λ next b' further. recv_loop_lem fuel _ next b' (omega (arith, enough, further)))

      -- The buffer has room for the packet that comes, whose header claims `size` bytes; `total` is
      -- what was read of it, and all that comes. Whenever and in whatever pieces SSL_read gives the
      -- bytes, `sstp_stream_recv_sstp` ends, accesses nothing outside of the buffer, and loses,
      -- repeats or moves no byte: what it has and what still comes is `total` again. It waits for
      -- more, or fails, or has read exactly the packet, or has stopped with less than its header.
      pub recv_sstp_packet :
          (ssl : Ssl) (buf : Buff)
          → max < 2 ^ 16
          → take buf.off buf.bytes ++ coming ssl ≡ total
          → buf.off ≤ size
          → length buf.bytes ≡ max
          → buf.max ≡ max
          → (r : Received Ssl) × (recv_sstp ssl_read ssl buf ≡ some r)
            × (take r.buf.off r.buf.bytes ++ coming r.ssl ≡ total)
            × (r.buf.off ≤ size)
            × ((r.status ≡ inprog)
                ⊎ ((r.status ≡ fail)
                    ⊎ ((r.status ≡ okay) × ((r.buf.off < 4) ⊎ (r.buf.off ≡ size)))))
      unfolding recv_sstp
      recv_sstp_packet ssl buf small whole below long same =
          let ran =
            recv_loop_lem (2 ^ 16) ssl buf (whole, below, long, same)
              (omega (arith, small, fits)) in
          let (r, known, ended) = Returns-value Ended (recv_loop ssl_read (2 ^ 16) ssl buf) ran in
          let ((kept, most, long', same'), how) = ended in (r, known, kept, most, how)
