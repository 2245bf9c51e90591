-- ===== src/Ios/Queue.antt =====
-- The pair of sockets of sstp/sstp-ios.c is a queue of packets, as long as no packet is read before
-- it is written whole.
use sstp_client_i_os.Base.{
  ℕ, zero, suc, ◌-◌, ◌≤◌, ◌≡◌, refl, ap, sym, ◌∙◌, arith, Bool, true, false, List, [], ◌∷◌, ◌++◌,
  length, if◌then◌else◌, ltb, not, All, append_assoc, append-nil, take-append, drop-append,
  length-append, Bool-cases, inl, inr,
}
use sstp_client_i_os.Ios.Inject.{header, refused, write_ip, header_len, skipped, inject}

-- A packet with its header.
unfoldable pub frame : List ℕ → List ℕ
unfolding header
frame packet = header (length packet) ++ packet

unfoldable pub frames : List (List ℕ) → List ℕ
unfolding frame
frames [] = []
frames (packet ∷ rest) = frame packet ++ frames rest

abbrev pub Fits : List ℕ → Type 0
Fits packet = (1 ≤ length packet) × (length packet ≤ 2000)

header_len-frame :
    (packet rest : List ℕ) → Fits packet → header_len (frame packet ++ rest) ≡ length packet
unfolding header_len header frame
header_len-frame packet rest fits = omega (arith, fits.0, fits.1)

-- A packet that is there as a whole is handed on, and the loop goes on behind it.
inject-frame :
    (n : ℕ) (packet rest : List ℕ)
    → Fits packet
    → inject (suc n) (frame packet ++ rest) ≡ (packet ∷ (inject n rest).0, (inject n rest).1)
unfolding inject frame header
inject-frame n packet rest fits =
    let len : header_len (header (length packet) ++ (packet ++ rest)) ≡ length packet =
      header_len-frame packet rest fits in
    let goes_on : skipped (length packet) ≡ false = ground (arith, fits.0, fits.1) in
    let there : ltb (length (packet ++ rest)) (length packet) ≡ false =
      ground (arith, length-append packet rest) in
    let four : ltb (suc (suc (suc (suc (length (packet ++ rest)))))) 4 ≡ false = ground arith in
    rw (
      len,
      goes_on,
      there,
      four,
      take-append (length packet) packet rest refl,
      drop-append (length packet) packet rest refl,
    )

-- All packets that are there are handed on, in order.
inject-frames :
    (packets : List (List ℕ)) (n : ℕ)
    → All Fits packets
    → length packets ≤ n
    → inject (suc n) (frames packets) ≡ (packets, [])
unfolding frames
inject-frames [] n fits h = unfold inject in refl
inject-frames (packet ∷ rest) zero fits h = absurd (omega arith)
inject-frames (packet ∷ rest) (suc n) fits h =
    inject-frame (suc n) packet (frames rest) (fits.0)
    ∙ ap (λ t. (packet ∷ t.0, t.1)) (inject-frames rest n (fits.1) (omega arith))

length-frames : (packets : List (List ℕ)) → length packets ≤ length (frames packets)
unfolding frames frame header
length-frames [] = omega arith
length-frames (packet ∷ rest) =
    omega (arith, length-append packet (frames rest), length-frames rest)

append-frames :
    (packets : List (List ℕ)) (packet : List ℕ)
    → frames (packets ++ packet ∷ []) ≡ frames packets ++ frame packet
unfolding frames
append-frames [] packet = append-nil (frame packet)
append-frames (p ∷ rest) packet =
    ap (λ t. frame p ++ t) (append-frames rest packet)
    ∙ sym (append_assoc (frame p) (frames rest) (frame packet))

-- What the threads do with the pair: a call of `sstp_ios_session_write_ip`, with the room that it
-- finds on its way out, and a round of the loop that finds the pair readable.
pub data Step : Type 0 where
  put : ℕ → List ℕ → Step
  poll : Step

-- The packets handed on, and the bytes on their way, behind steps that do not overlap; each call of
-- `ios_inject_cb` has the fuel of `inject_cb`.
unfoldable pub run : List Step → List (List ℕ) → List ℕ → List (List ℕ) × List ℕ
unfolding write_ip inject
run [] out pair = (out, pair)
run (put room packet ∷ steps) out pair = run steps out ((write_ip true room packet pair).1)
run (poll ∷ steps) out pair =
    let (packets, rest) = inject (suc (length pair)) pair in run steps (out ++ packets) rest

abbrev pub accepted : List ℕ → Bool
accepted packet = not (refused true (length packet))

-- The same with a queue of packets.
unfoldable pub queue : List Step → List (List ℕ) → List (List ℕ) → List (List ℕ) × List (List ℕ)
queue [] out waiting = (out, waiting)
queue (put room packet ∷ steps) out waiting =
    queue steps out (if accepted packet then waiting ++ packet ∷ [] else waiting)
queue (poll ∷ steps) out waiting = queue steps (out ++ waiting) []

-- Room for a packet of any size that is accepted.
abbrev pub Roomy : Step → Type 0
Roomy (put room packet) = 2004 ≤ room
Roomy poll = Unit

accepted-Fits : (packet : List ℕ) → accepted packet ≡ true → Fits packet
accepted-Fits packet e = ground arith

All-snoc : (xs : List (List ℕ)) (x : List ℕ) → All Fits xs → Fits x → All Fits (xs ++ x ∷ [])
All-snoc [] x all fits = (fits, tt)
All-snoc (y ∷ xs) x all fits = (all.0, All-snoc xs x (all.1) fits)

-- A call of `sstp_ios_session_write_ip` writes a whole packet or nothing.
write_ip-frames :
    (waiting : List (List ℕ)) (room : ℕ) (packet : List ℕ)
    → 2004 ≤ room
    → (write_ip true room packet (frames waiting)).1
      ≡ frames (if accepted packet then waiting ++ packet ∷ [] else waiting)
unfolding write_ip
write_ip-frames waiting room packet h = elim (Bool-cases (refused true (length packet))) [
  | inl e ↦ rw e refl
  | inr e ↦
      let begins : ltb room 4 ≡ false = ground arith in
      let ends : ltb (room - 4) (length packet) ≡ false = ground arith in
      rw (e, begins, ends) (sym (unfold frame in append-frames waiting packet))
]

frames_none : [] ≡ frames []
unfolding frames
frames_none = refl

-- While the calls of `sstp_ios_session_write_ip` on a ready session and the rounds of the loop do
-- not overlap, and the pair of sockets has room for 2004 bytes at each call, the pair is a queue: a
-- call adds the packet at the end if it has 1 to 2000 bytes, and nothing otherwise; `ios_inject_cb`
-- hands on all packets that wait, whole and in order.
pub run-queue :
    (steps : List Step) (out waiting : List (List ℕ))
    → All Roomy steps
    → All Fits waiting
    → run steps out (frames waiting)
      ≡ ((queue steps out waiting).0, frames ((queue steps out waiting).1))
unfolding run queue
run-queue [] out waiting roomy fits = refl
run-queue (put room packet ∷ steps) out waiting roomy fits =
    let still : All Fits (if accepted packet then waiting ++ packet ∷ [] else waiting) =
      elim (Bool-cases (accepted packet)) [
        | inl e ↦ rw e (All-snoc waiting packet fits (accepted-Fits packet e))
        | inr e ↦ rw e fits
      ] in
    rw (write_ip-frames waiting room packet (roomy.0)) (
      run-queue steps out (if accepted packet then waiting ++ packet ∷ [] else waiting) (roomy.1)
        still)
run-queue (poll ∷ steps) out waiting roomy fits =
    rw (inject-frames waiting (length (frames waiting)) fits (length-frames waiting)) (
      ap (run steps (out ++ waiting)) frames_none
      ∙ run-queue steps (out ++ waiting) [] (roomy.1) tt)
