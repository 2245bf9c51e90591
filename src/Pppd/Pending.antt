-- ===== src/Pppd/Pending.antt =====
-- The frames that wait in the receive buffer of sstp/sstp-pppd.c.
use sstp_client_i_os.Base.{ℕ, ◌+◌, ◌-◌, ◌^◌, ◌≤◌, ◌<◌, ◌≡◌, sym, ap, ◌∙◌, arith, some, List, []}
use sstp_client_i_os.Base.{
  ◌∷◌, ◌++◌, append_assoc, length, length-append, drop, drop-drop, drop-append, replicate,
  length-replicate, All, IsByte, okay,
}
use sstp_client_i_os.Buff.{Buff}
use sstp_client_i_os.Buff.Laws.{IsValid}
use sstp_client_i_os.Packet.Data.{}
use sstp_client_i_os.Hdlc.{frame_decode, hdlc_flag, checksum}
use sstp_client_i_os.Hdlc.Stuffing.{stuff}
use sstp_client_i_os.Hdlc.Line.{framed, frame_decode-framed}

-- What pppd writes for a list of PPP packets.
unfoldable pub lines : List (List ℕ) → List ℕ
lines [] = []
lines (p ∷ ps) = framed p ++ lines ps

-- The transmit buffer can be used for packets of PPP up to `room` bytes.
pub record HasRoom (tx : Buff) (room : ℕ) : Type 0 where
  pub valid : IsValid tx
  pub space : room + 6 ≤ tx.max

-- A PPP packet that fits.
abbrev pub IsPacket : ℕ → List ℕ → Type 0
IsPacket room p = All IsByte p × (2 ≤ length p) × (length p ≤ room)

-- The receive buffer holds, from `off` to `len`, `k` flags and the frames of `ps`, and `stale` behind
-- that.
pub record Pending (rx : Buff) (k : ℕ) (ps : List (List ℕ)) (stale : List ℕ) : Type 0 where
  pub text : drop rx.off rx.bytes ≡ replicate k hdlc_flag ++ (lines ps ++ stale)
  pub size : rx.len ≡ rx.off + (k + length (lines ps))

-- Behind the frame of `p`, its closing flag is left.
abbrev pub behind_frame : ℕ → List ℕ → ℕ
behind_frame k p = k + length (framed p) - 1

framed_end :
    (k : ℕ) (p rest : List ℕ)
    → drop (behind_frame k p) (replicate k hdlc_flag ++ (framed p ++ rest)) ≡ hdlc_flag ∷ rest
framed_end k p rest =
    let text : List ℕ = stuff (p ++ checksum p) in
    let flags : List ℕ = replicate k hdlc_flag in
    let front : List ℕ = flags ++ hdlc_flag ∷ text in
    let line : flags ++ (framed p ++ rest) ≡ front ++ hdlc_flag ∷ rest =
      ap (λ t. flags ++ hdlc_flag ∷ t) (append_assoc text (hdlc_flag ∷ []) rest)
      ∙ sym (append_assoc flags (hdlc_flag ∷ text) (hdlc_flag ∷ rest)) in
    ap (drop (behind_frame k p)) line
    ∙ drop-append (behind_frame k p) front (hdlc_flag ∷ rest) (
        omega (
          arith,
          length-append flags (hdlc_flag ∷ text),
          length-replicate k hdlc_flag,
          length-append text (hdlc_flag ∷ []),
        ))

pub Pending-next :
    (rx : Buff) (k : ℕ) (p : List ℕ) (ps : List (List ℕ)) (stale : List ℕ)
    → Pending rx k (p ∷ ps) stale
    → Pending (record rx { off = rx.off + behind_frame k p }) 1 ps stale
unfolding lines
Pending-next rx k p ps stale h =
    let sizes = length-append (framed p) (lines ps) in
    record {
      text =
          sym (drop-drop (behind_frame k p) rx.off rx.bytes)
          ∙ ap (drop (behind_frame k p)) (
              h.text
              ∙ ap (λ t. replicate k hdlc_flag ++ t) (append_assoc (framed p) (lines ps) stale))
          ∙ framed_end k p (lines ps ++ stale);
      size = omega (arith, h.size, sizes);
    }

-- The frame of `p` is decoded.
pub decode-Pending :
    (rx : Buff) (k room : ℕ) (p : List ℕ) (ps : List (List ℕ)) (stale : List ℕ)
    → Pending rx k (p ∷ ps) stale
    → IsPacket room p
    → (size : ℕ) → room + 2 ≤ size
    → size < 2 ^ 31
    → frame_decode (drop rx.off rx.bytes) (rx.len - rx.off) size
      ≡ some (record {
        status = okay;
        length = behind_frame k p;
        frame = p ++ checksum p;
        size = length p;
      })
unfolding lines
decode-Pending rx k room p ps stale h fits size space int =
    let line =
      h.text ∙ ap (λ t. replicate k hdlc_flag ++ t) (append_assoc (framed p) (lines ps) stale) in
    ap (λ t. frame_decode t (rx.len - rx.off) size) line
    ∙ frame_decode-framed k p (lines ps ++ stale) (rx.len - rx.off) size fits.0 fits.1
        (omega (arith, h.size, length-append (framed p) (lines ps))) (omega (arith, fits.2)) int
