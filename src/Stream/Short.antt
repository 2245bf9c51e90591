-- ===== src/Stream/Short.antt =====
-- A header that does not come at once, in sstp/sstp-stream.c.
use sstp_client_i_os.Base.{
  ℕ, suc, ◌+◌, ◌*◌, ◌≤◌, ◌≡◌, refl, ap, arith, none, some, List, [], ◌∷◌, ltb, false, okay,
  write_bytes, write_bytes-parts,
}
use sstp_client_i_os.Buff.{Buff}
use sstp_client_i_os.Packet.{pkt_len}
use sstp_client_i_os.Stream.{Read, got, leave, recv_loop, recv_sstp}

module _ {Ssl : Type 0} (ssl_read : Ssl → ℕ → Read × Ssl) where
  -- The buffer before and behind the two bytes.
  abbrev stale : ℕ → ℕ → ℕ → ℕ → ℕ → List ℕ → Buff
  stale x y h l max rest = record { len = 0; max = max; off = 0; bytes = x ∷ y ∷ h ∷ l ∷ rest }

  abbrev two : ℕ → ℕ → ℕ → ℕ → ℕ → List ℕ → Buff
  two v f h l max rest = record { len = 4; max = max; off = 2; bytes = v ∷ f ∷ h ∷ l ∷ rest }

  short_loop :
      (fuel : ℕ) (ssl after : Ssl) (v f x y h l max : ℕ) (rest : List ℕ)
      → ssl_read ssl 4 ≡ (got (v ∷ f ∷ []), after)
      → h * 256 + l ≤ 2
      → recv_loop ssl_read (suc fuel) ssl (stale x y h l max rest)
        ≡ some (leave ssl_read okay (two v f h l max rest) after none)
  unfolding recv_loop pkt_len
  short_loop fuel ssl after v f x y h l max rest given low =
      let full : ltb 2 (h * 256 + l) ≡ false = ground (arith, low) in
      let two_read : write_bytes (x ∷ y ∷ h ∷ l ∷ rest) 0 (v ∷ f ∷ [])
          ≡ some (v ∷ f ∷ h ∷ l ∷ rest) =
        write_bytes-parts [] (x ∷ y ∷ []) (h ∷ l ∷ rest) (v ∷ f ∷ []) refl in
      rw given (
        rw two_read (
          rw full (
            ap (λ (t : Read × Ssl). some (leave ssl_read okay (two v f h l max rest) (t.1) none))
              given)))

  -- When SSL_read gives the first two bytes of a packet only, and the two bytes of the buffer where
  -- the length is to come hold a number up to 2, as in a new buffer, `sstp_stream_recv_sstp` returns
  -- okay with these two bytes, as if they were a packet.
  pub recv_sstp_short :
      (ssl after : Ssl) (v f x y h l max : ℕ) (rest : List ℕ)
      → ssl_read ssl 4 ≡ (got (v ∷ f ∷ []), after)
      → h * 256 + l ≤ 2
      → recv_sstp ssl_read ssl (stale x y h l max rest)
        ≡ some (leave ssl_read okay (two v f h l max rest) after none)
  unfolding recv_sstp
  recv_sstp_short ssl after v f x y h l max rest given low =
      short_loop 65535 ssl after v f x y h l max rest given low
