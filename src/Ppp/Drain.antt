-- ===== src/Ppp/Drain.antt =====
-- The queue of sstp/ios-pppd.c behind a stream that takes every packet: what waits is sent when the
-- writes end.
use sstp_client_i_os.Base.{
  or_else, ℕ, zero, suc, ◌+◌, ◌-◌, ◌≤◌, ◌≡◌, refl, sym, ap, ◌∙◌, arith, false, true, ◌||◌, none,
  some,
}
use sstp_client_i_os.Base.{
  List, [], ◌∷◌, ◌++◌, append-nil, map, length, All, replicate, inl, inr, ◌⊎◌, okay, inprog,
}
use sstp_client_i_os.Buff.{Buff}
use sstp_client_i_os.Ppp.Item.{packet_of, IsFrame}
use sstp_client_i_os.Ppp.{Event, handed, World, Peer, flush, flush_start, send_complete}
use sstp_client_i_os.Ppp.Fifo.{
  handed_of, Op, complete, frames_of, run, line, run-frames_of, is_empty, run-Flows, free_or_all,
}

-- A write ends `n` times.
abbrev pub ends : ℕ → List Op
ends n = replicate n complete

ends_no_frames : (n : ℕ) → frames_of (ends n) ≡ []
unfolding frames_of
ends_no_frames zero = refl
ends_no_frames (suc n) = ends_no_frames n

none_left : (queue : List Buff) → length queue ≤ 0 → queue ≡ []
none_left [] h = refl
none_left (b ∷ queue) h = absurd (omega (arith, h))

module _ {Rc4 : Type 0} (world : World Rc4)
    (takes : (trace : List Event) (item : Buff)
      → (world.send trace item ≡ okay) ⊎ (world.send trace item ≡ inprog)) where
  flush-shorter :
      (queue : List Buff) (p : Peer Rc4)
      → length ((flush world queue p).tx_queue) ≤ length queue - 1
  unfolding flush
  flush-shorter [] p = omega arith
  flush-shorter (item ∷ rest) p = elim (takes p.trace item) [
    | inl now ↦
        let asked : Peer Rc4 = record p { tx_queue = rest; trace = handed item ∷ p.trace } in
        let further = flush-shorter rest asked in rw (flush, now) (omega (arith, further))
    | inr later ↦ rw (flush, later) (omega arith)
  ]

  -- Each end of a write takes a packet from what waits.
  send_complete-shorter :
      (p : Peer Rc4) → length ((send_complete world p).tx_queue) ≤ length p.tx_queue - 1
  unfolding send_complete flush_start
  send_complete-shorter p =
      flush-shorter p.tx_queue (record p { tx_inflight = none; tx_busy = false })

  run-ends :
      (n : ℕ) (p : Peer Rc4)
      → length p.tx_queue ≤ n
      → (q : Peer Rc4) × (run world (ends n) p ≡ some q) × (q.tx_queue ≡ [])
  unfolding run
  run-ends zero p h = (p, refl, none_left p.tx_queue h)
  run-ends (suc n) p h =
      run-ends n (send_complete world p) (omega (arith, h, send_complete-shorter p))

  module _ (memory : (trace : List Event) (n : ℕ) → world.memory trace n ≡ true) where
    -- As many ends of writes as packets wait, or more, hand all of them over, in their order.
    ends-line :
        (n : ℕ) (p : Peer Rc4)
        → length p.tx_queue ≤ n
        → (q : Peer Rc4) × (run world (ends n) p ≡ some q)
          × (q.tx_queue ≡ [])
          × (handed_of q.trace ≡ line world p)
    ends-line n p h =
        let (q, ran, empty) = run-ends n p h in
        let no_frames = ends_no_frames n in
        let (q', ran', grown) = run-frames_of world memory (ends n) p (rw no_frames tt) in
        let same : q' ≡ q = ap (λ o. or_else o q) (sym ran' ∙ ran) in
        (
          q,
          ran,
          empty,
          sym (append-nil (handed_of q.trace))
              ∙ ap (λ t. handed_of q.trace ++ t) (sym empty)
              ∙ ap (λ r. line world r) (sym same)
              ∙ grown
              ∙ ap (λ t. line world p ++ map packet_of t) no_frames
              ∙ append-nil (line world p),
        )

    -- When a write is under way, or nothing waits, at the start, and the stream takes every packet
    -- at once or later, then after any order of new frames and ends of writes a write is under way,
    -- or the stream was handed everything: the packets of all frames, in their order. And from there
    -- as many ends of writes as packets wait, and any number of further ones, leave nothing waiting,
    -- with everything handed over in that order. The frames have 1 to 2^30 - 1 bytes, and there is
    -- memory.
    pub run_delivers :
        (ops : List Op) (p : Peer Rc4) (more : ℕ)
        → All IsFrame (frames_of ops)
        → (p.tx_busy || is_empty p.tx_queue) ≡ true
        → (q : Peer Rc4) × (run world ops p ≡ some q)
          × ((q.tx_busy ≡ true)
              ⊎ (handed_of q.trace
                  ≡ (handed_of p.trace ++ p.tx_queue) ++ map packet_of (frames_of ops)))
          × (after : Peer Rc4) × (run world (replicate (length q.tx_queue + more) complete) q
              ≡ some after)
          × (after.tx_queue ≡ [])
          × (handed_of after.trace
              ≡ (handed_of p.trace ++ p.tx_queue) ++ map packet_of (frames_of ops))
    run_delivers ops p more h flows =
        let (q, ran, kept) = run-Flows world memory takes ops p h flows in
        let (q', ran', grown) = run-frames_of world memory ops p h in
        let same : q' ≡ q = ap (λ o. or_else o q) (sym ran' ∙ ran) in
        let whole : handed_of q.trace ++ q.tx_queue
            ≡ (handed_of p.trace ++ p.tx_queue) ++ map packet_of (frames_of ops) =
          ap (λ r. line world r) (sym same) ∙ grown in
        let (after, ended, empty, all_of_them) =
          ends-line (length q.tx_queue + more) q (omega arith) in
        (
          q,
          ran,
          free_or_all q.tx_busy q.tx_queue (handed_of q.trace) _ kept whole,
          after,
          ended,
          empty,
          all_of_them ∙ whole,
        )
