-- ===== src/Stream/Http.antt =====
-- `sstp_stream_recv_http` of sstp/sstp-stream.c against what SSL_read promises.
use sstp_client_i_os.Base.{
  ℕ, zero, suc, ◌+◌, ◌-◌, ◌<◌, ◌≤◌, ◌≡◌, refl, sym, ap, ◌∙◌, arith, true, ◌⊎◌, inl, inr,
}
use sstp_client_i_os.Base.{Option, none, some, List, ◌++◌, length, take, if◌then◌else◌, ◌>>=◌}
use sstp_client_i_os.Base.{okay, fail, inprog, Returns, Returns-some, Returns-value, if_each}
use sstp_client_i_os.Buff.{Buff}
use sstp_client_i_os.Stream.{
  Read, got, want_read, want_write, broken, ev_read, ev_write, Received, read_into, leave,
  http_header_complete, http_loop, recv_http,
}
use sstp_client_i_os.Stream.Receive.{Documented, Between, read_into_lem}

module _ {Ssl : Type 0} (ssl_read : Ssl → ℕ → Read × Ssl) (coming : Ssl → List ℕ)
    (documented : (ssl : Ssl) (n : ℕ) → Documented coming ssl n (ssl_read ssl n)) where
  module _ (total : List ℕ) (max : ℕ) where
    -- The state between two rounds, with the whole buffer for room.
    abbrev Filled : Ssl → Buff → Type 0
    Filled ssl buf = Between ssl_read coming documented total max max (omega arith) ssl buf

    abbrev Ended : Received Ssl → Type 0
    Ended r =
        Filled r.ssl r.buf
        × ((r.status ≡ inprog)
            ⊎ ((r.status ≡ fail) ⊎ ((r.status ≡ okay) × (http_header_complete r.buf ≡ true))))

    round_lem :
        (more : Ssl → Buff → Option (Received Ssl)) (ssl : Ssl) (buf : Buff) (answer : Read × Ssl)
        → Filled ssl buf
        → Documented coming ssl (buf.max - buf.off) answer
        → ((next : Buff)
            → Filled (answer.1) next
            → buf.off < next.off
            → Returns Ended (more (answer.1) next))
        → Returns Ended (elim (answer.0) [
          | got bytes ↦ read_into ssl_read buf bytes >>= λ next.
              if http_header_complete next
              then some (leave ssl_read okay next (answer.1) none)
              else more (answer.1) next
          | want_read ↦ some (leave ssl_read inprog buf (answer.1) (some ev_read))
          | want_write ↦ some (leave ssl_read inprog buf (answer.1) (some ev_write))
          | broken ↦ some (leave ssl_read fail buf (answer.1) none)
        ])
    unfolding Returns
    round_lem more ssl buf (got bytes, after) b (some_bytes, few, order) going =
        let (next, made, b', at) =
          read_into_lem ssl_read coming documented total max max (omega arith) ssl after buf buf.len
            max bytes b (omega arith) (omega (arith, few, b)) order in
        rw made (
          if_each (Returns Ended) (http_header_complete next) _ _
            (λ complete.
              Returns-some Ended (leave ssl_read okay next after none)
                (b', inr (inr (refl, complete))))
            λ _. going next b' (omega (arith, at, some_bytes)))
    round_lem more ssl buf (want_read, after) (whole, below, long, equal) same going =
        ((ap (λ t. take buf.off buf.bytes ++ t) (sym same) ∙ whole, below, long, equal), inl refl)
    round_lem more ssl buf (want_write, after) (whole, below, long, equal) same going =
        ((ap (λ t. take buf.off buf.bytes ++ t) (sym same) ∙ whole, below, long, equal), inl refl)
    round_lem more ssl buf (broken, after) (whole, below, long, equal) same going = (
      (ap (λ t. take buf.off buf.bytes ++ t) (sym same) ∙ whole, below, long, equal),
      inr (inl refl),
    )

    http_loop_lem :
        (fuel : ℕ) (ssl : Ssl) (buf : Buff)
        → Filled ssl buf
        → max < fuel + buf.off
        → Returns Ended (http_loop ssl_read fuel ssl buf)
    unfolding http_loop
    http_loop_lem zero ssl buf b enough = absurd (omega (arith, enough, b))
    http_loop_lem (suc fuel) ssl buf b enough =
        round_lem (http_loop ssl_read fuel) ssl buf (ssl_read ssl (buf.max - buf.off)) b
          (documented ssl (buf.max - buf.off))
          λ next b' further. http_loop_lem fuel _ next b' (omega (arith, enough, further))

    -- `total` is what was read of the response, and all that comes. Whenever and in whatever pieces
    -- SSL_read gives the bytes, `sstp_stream_recv_http` ends, accesses nothing outside of the
    -- buffer, and loses, repeats or moves no byte. It waits for more, or fails, or the bytes read
    -- end with an empty line.
    pub recv_http_header :
        (ssl : Ssl) (buf : Buff)
        → take buf.off buf.bytes ++ coming ssl ≡ total
        → buf.off ≤ max
        → length buf.bytes ≡ max
        → buf.max ≡ max
        → (r : Received Ssl) × (recv_http ssl_read ssl buf ≡ some r)
          × (take r.buf.off r.buf.bytes ++ coming r.ssl ≡ total)
          × (r.buf.off ≤ max)
          × ((r.status ≡ inprog)
              ⊎ ((r.status ≡ fail) ⊎ ((r.status ≡ okay) × (http_header_complete r.buf ≡ true))))
    unfolding recv_http
    recv_http_header ssl buf whole below long same =
        let ran =
          http_loop_lem (suc buf.max) ssl buf (whole, below, long, same) (omega (arith, same)) in
        let (r, known, ended) =
          Returns-value Ended (http_loop ssl_read (suc buf.max) ssl buf) ran in
        let ((kept, most, long', same'), how) = ended in (r, known, kept, most, how)
