-- ===== src/Ppp/Fifo.antt =====
-- The queue of sstp/ios-pppd.c against a plain queue: what is handed to the stream and what waits, in
-- order, is what was there before and a packet for each frame that came.
use sstp_client_i_os.Base.{
  ℕ, ◌+◌, ◌%◌, ◌^◌, ◌≡◌, refl, sym, ap, ◌∙◌, arith, Bool, true, false, ◌||◌, Option, none, some,
}
use sstp_client_i_os.Base.{List, [], ◌∷◌, ◌++◌, append_assoc, append-nil, map, length, All}
use sstp_client_i_os.Base.{if_both, if_each, inl, inr, ◌⊎◌, Status, okay, inprog, ◌==◌, ◌>>=◌}
use sstp_client_i_os.Buff.{Buff, buff_create}
use sstp_client_i_os.Ppp.Item.{packet_of, IsFrame, fill_packet_lem}
use sstp_client_i_os.Ppp.{
  Event, handed, notified, delivered, World, Peer, flush, flush_start, send_complete, append_item,
  enqueue_raw,
}

-- The packets handed to the stream, the oldest first.
pub handed_of : List Event → List Buff
handed_of [] = []
handed_of (handed item ∷ trace) = handed_of trace ++ item ∷ []
handed_of (notified _ ∷ trace) = handed_of trace
handed_of (delivered _ ∷ trace) = handed_of trace

-- A call from outside of the queue: a frame that is to be sent, or the end of a write.
pub data Op : Type 0 where
  enqueue : List ℕ → Op
  complete : Op

unfoldable pub frames_of : List Op → List (List ℕ)
frames_of [] = []
frames_of (enqueue frame ∷ ops) = frame ∷ frames_of ops
frames_of (complete ∷ ops) = frames_of ops

abbrev pub is_empty : List Buff → Bool
is_empty [] = true
is_empty (b ∷ bs) = false

pub free_or_all :
    (busy : Bool) (queue given all : List Buff)
    → (busy || is_empty queue) ≡ true
    → given ++ queue ≡ all
    → (busy ≡ true) ⊎ (given ≡ all)
free_or_all true queue given all h e = inl refl
free_or_all false [] given all h e = inr (sym (append-nil given) ∙ e)
free_or_all false (b ∷ queue) given all h e = absurd (ground arith)

module _ {Rc4 : Type 0} (world : World Rc4) where
  -- The state behind some calls, whose results are dropped.
  unfoldable pub run : List Op → Peer Rc4 → Option (Peer Rc4)
  unfolding enqueue_raw send_complete
  run [] p = some p
  run (enqueue frame ∷ ops) p = do r ← enqueue_raw world p frame; run ops (r.1)
  run (complete ∷ ops) p = run ops (send_complete world p)

  -- What was handed over and what waits, the oldest first: the abstract queue.
  abbrev pub line : Peer Rc4 → List Buff
  line p = handed_of p.trace ++ p.tx_queue

  -- Either a write is under way, or nothing waits.
  abbrev Flows : Peer Rc4 → Type 0
  Flows p = (p.tx_busy || is_empty p.tx_queue) ≡ true

  flows_empty : (busy : Bool) → (busy || true) ≡ true
  flows_empty true = refl
  flows_empty false = refl

  flush-answer :
      (s : Status) (item : Buff) (rest : List Buff) (p more : Peer Rc4)
      → (line more ≡ handed_of p.trace ++ (item ∷ rest))
      → line (elim s [
        | okay ↦ more
        | inprog ↦ record p {
          tx_queue = rest;
          trace = handed item ∷ p.trace;
          tx_inflight = some item;
          tx_busy = true;
        }
        | _ ↦ record p { tx_queue = rest; trace = handed item ∷ p.trace }
      ])
        ≡ handed_of p.trace ++ (item ∷ rest)
  unfolding handed_of
  flush-answer okay item rest p more h = h
  flush-answer inprog item rest p more h = append_assoc (handed_of p.trace) (item ∷ []) rest
  flush-answer _ item rest p more h = append_assoc (handed_of p.trace) (item ∷ []) rest

  line-flush :
      (queue : List Buff) (p : Peer Rc4) → line (flush world queue p) ≡ handed_of p.trace ++ queue
  unfolding flush handed_of
  line-flush [] p = refl
  line-flush (item ∷ rest) p =
      let asked : Peer Rc4 = record p { tx_queue = rest; trace = handed item ∷ p.trace } in
      flush-answer (world.send p.trace item) item rest p (flush world rest asked)
        (line-flush rest asked ∙ append_assoc (handed_of p.trace) (item ∷ []) rest)

  line-flush_start : (p : Peer Rc4) → line (flush_start world p) ≡ line p
  unfolding flush_start
  line-flush_start p =
      if_both (λ q. line q ≡ line p) p.tx_busy p (flush world p.tx_queue p) refl
        (line-flush p.tx_queue p)

  line-append_item :
      (p : Peer Rc4) (n : ℕ) (item : Buff) → line (append_item world p n item) ≡ line p ++ item ∷ []
  unfolding append_item
  line-append_item p n item =
      line-flush_start _ ∙ sym (append_assoc (handed_of p.trace) p.tx_queue (item ∷ []))

  module _ (memory : (trace : List Event) (n : ℕ) → world.memory trace n ≡ true) where
    -- With memory at hand, a frame that is queued leaves its packet at the end of the line.
    enqueue_raw_lem :
        (p : Peer Rc4) (frame : List ℕ)
        → IsFrame frame
        → enqueue_raw world p frame
          ≡ some (okay, append_item world p (length frame) (packet_of frame))
    unfolding enqueue_raw buff_create
    enqueue_raw_lem p frame (some_bytes, short) =
        let empty : (length frame == 0) ≡ false = ground arith in
        rw (empty, memory p.trace 0, memory p.trace 1) (rw (fill_packet_lem frame short) refl)

    -- With memory at hand and frames of 1 to 2^30 - 1 bytes, for every behaviour of the stream and
    -- every order of new frames and ends of writes: no call faults, and what was handed to the
    -- stream, followed by what waits, grows at its end by the data packets of the frames, in their
    -- order.
    pub run-frames_of :
        (ops : List Op) (p : Peer Rc4)
        → All IsFrame (frames_of ops)
        → (q : Peer Rc4) × (run ops p ≡ some q)
          × (handed_of q.trace ++ q.tx_queue
              ≡ (handed_of p.trace ++ p.tx_queue) ++ map packet_of (frames_of ops))
    unfolding run frames_of send_complete
    run-frames_of [] p h = (p, refl, sym (append-nil (line p)))
    run-frames_of (complete ∷ ops) p h =
        let done : Peer Rc4 = send_complete world p in
        let (q, ran, grown) = run-frames_of ops done h in
        let same : line done ≡ line p =
          line-flush_start (record p { tx_inflight = none; tx_busy = false }) in
        (q, ran, grown ∙ ap (λ t. t ++ map packet_of (frames_of ops)) same)
    run-frames_of (enqueue frame ∷ ops) p h =
        let next : Peer Rc4 = append_item world p (length frame) (packet_of frame) in
        let (q, ran, grown) = run-frames_of ops next h.1 in
        let packets : List Buff = map packet_of (frames_of ops) in
        (
          q,
          rw (enqueue_raw_lem p frame h.0) ran,
          grown
              ∙ ap (λ t. t ++ packets) (line-append_item p (length frame) (packet_of frame))
              ∙ append_assoc (line p) (packet_of frame ∷ []) packets,
        )

    module _
        (takes : (trace : List Event) (item : Buff)
          → (world.send trace item ≡ okay) ⊎ (world.send trace item ≡ inprog)) where
      flush-Flows : (queue : List Buff) (p : Peer Rc4) → Flows (flush world queue p)
      unfolding flush
      flush-Flows [] p = flows_empty p.tx_busy
      flush-Flows (item ∷ rest) p = elim (takes p.trace item) [
        | inl now ↦
            let asked : Peer Rc4 = record p { tx_queue = rest; trace = handed item ∷ p.trace } in
            rw (flush, now) (flush-Flows rest asked)
        | inr later ↦ rw (flush, later) refl
      ]

      flush_start-Flows : (p : Peer Rc4) → Flows (flush_start world p)
      unfolding flush_start
      flush_start-Flows p =
          if_each Flows p.tx_busy p (flush world p.tx_queue p) (λ busy. rw busy refl)
            (λ free. flush-Flows p.tx_queue p)

      -- A write stays under way, or nothing waits.
      pub run-Flows :
          (ops : List Op) (p : Peer Rc4)
          → All IsFrame (frames_of ops)
          → Flows p
          → (q : Peer Rc4) × (run ops p ≡ some q) × Flows q
      unfolding run frames_of send_complete append_item
      run-Flows [] p h flows = (p, refl, flows)
      run-Flows (complete ∷ ops) p h flows =
          run-Flows ops (send_complete world p) h
            (flush_start-Flows (record p { tx_inflight = none; tx_busy = false }))
      run-Flows (enqueue frame ∷ ops) p h flows =
          let item : Buff = packet_of frame in
          let appended : Peer Rc4 = record p {
            tx_queue = p.tx_queue ++ item ∷ [];
            sent_bytes = (p.sent_bytes + length frame) % 2 ^ 64;
          } in
          let (q, ran, kept) =
            run-Flows ops (append_item world p (length frame) item) h.1
              (flush_start-Flows appended) in
          (q, rw (enqueue_raw_lem p frame h.0) ran, kept)
