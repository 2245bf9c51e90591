-- ===== src/Pppd/Down.antt =====
-- `sstp_pppd_send` of sstp/sstp-pppd.c: what the server sent is framed for pppd.
use sstp_client_i_os.Base.{ℕ, ◌+◌, ◌*◌, ◌≤◌, ◌<◌, ◌≡◌, ◌≢◌, refl, arith, List, ◌++◌, length, take}
use sstp_client_i_os.Base.{true, false, is, Status, okay, fail, Bool, ◌==◌, if◌then◌else◌}
use sstp_client_i_os.Hdlc.Stuffing.{stuff, before_last, frame_encode_written, frame_encode_fits}
use sstp_client_i_os.Hdlc.Line.{framed}
use sstp_client_i_os.Pppd.{Pppd, pppd_send, record_recv}

if_pair :
    {A : Type 0} (b : Bool) (x y : Status) (c : A)
    → ◌≡◌ {A = Status × A} (if b then (x, c) else (y, c)) (if b then x else y, c)
if_pair true x y c = refl
if_pair false x y c = refl

is_okay : (s : Status) → s ≡ okay → is s okay ≡ true
is_okay s e = rw e refl

is_not_okay : (s : Status) → s ≢ okay → is s okay ≡ false
is_not_okay Status.okay n = absurd (n refl)
is_not_okay Status.fail n = refl
is_not_okay Status.inprog n = refl
is_not_okay Status.connected n = refl
is_not_okay Status.overflow n = refl
is_not_okay Status.notimpl n = refl
is_not_okay Status.timeout n = refl
is_not_okay Status.authenticate n = refl

module _ {Stream : Type 0} (ctx : Pppd Stream) (buf : List ℕ) where
  -- The packet and the first byte of its checksum take twice its length at most on the line.
  abbrev pub FitsLine : Type 0
  FitsLine = length (stuff (before_last buf)) ≤ 2 * length buf

  -- `sstp_pppd_send` of sstp/sstp-pppd.c writes the frame of a packet to pppd and counts the
  -- packet's bytes, when the characters of the packet and the first of its checksum take at most
  -- twice the packet's length when they are stuffed; it returns okay when the terminal takes the
  -- whole frame, and fails else. When they take more, the packet is dropped with a failure, also
  -- where the whole frame would fit its array: nothing is written or counted.
  pub pppd_send_lem :
      (written : ℕ)
      → (FitsLine
          → pppd_send ctx buf written ≡ (
            if written == length (framed buf) then okay else fail,
            record (record_recv ctx (length buf)) { tty = ctx.tty ++ take written (framed buf) },
          ))
        × (2 * length buf < length (stuff (before_last buf))
            → pppd_send ctx buf written ≡ (fail, ctx))
  unfolding pppd_send
  pppd_send_lem written =
      let flen : ℕ = 2 * length buf + 4 in
      let fits = frame_encode_fits buf flen in
      (
        λ h.
            let ok = fits.0 (omega arith) in
            let (text, size) = frame_encode_written buf flen ok in
            rw (is_okay _ ok)
              (rw size (rw text (if_pair (written == length (framed buf)) okay fail _))),
        λ h. let bad = fits.1 (omega arith) in rw (is_not_okay _ bad) refl,
      )
