-- ===== src/Pppd/Drain.antt =====
-- The throttle of sstp/sstp-pppd.c: reading stops when the stream does not take a packet at once, and
-- `ppp_send_complete` goes on until nothing waits.
use sstp_client_i_os.Base.{
  ℕ, zero, suc, ◌≤◌, ◌<◌, ◌≡◌, ◌≢◌, inl, inr, refl, sym, ap, ◌∙◌, arith, false, true, some, Option,
  List, [],
}
use sstp_client_i_os.Base.{
  ◌∷◌, ◌++◌, map, append_assoc, append-nil, length, length-append, All, Status, okay, if◌then◌else◌,
  ◌>>=◌, if_false,
}
use mathlib.Core.Path.{subst}
use mathlib.Core.List.{map-append}
use sstp_client_i_os.Buff.{Buff}
use sstp_client_i_os.Buff.Laws.{IsValid}
use sstp_client_i_os.Packet.Data.{data_packet_of}
use sstp_client_i_os.Ppp.{Chap}
use sstp_client_i_os.Pppd.{Pppd, Exit, returned, died}
use sstp_client_i_os.Pppd.Process.{send_complete, process_data, completed}
use sstp_client_i_os.Pppd.Pending.{Pending, HasRoom, IsPacket}
use sstp_client_i_os.Pppd.Forwarded.{IsPlain}
use sstp_client_i_os.Pppd.Forward.{process_data_forwards}

All-split :
    (room : ℕ) (qs ps : List (List ℕ)) → All (IsPacket room) (qs ++ ps) → All (IsPacket room) ps
All-split room [] ps h = h
All-split room (q ∷ qs) ps h = All-split room qs ps h.1

-- Of a list of which some are gone, fewer are left.
fewer :
    (ps gone rest : List (List ℕ)) (n : ℕ)
    → ps ≡ gone ++ rest
    → gone ≢ []
    → length ps < suc n
    → length rest < n
fewer ps [] rest n e some_gone h = absurd (some_gone refl)
fewer ps (g ∷ gone) rest n e some_gone h = omega (arith, ap length e, length-append gone rest)

module _ {Stream : Type 0} (notify : Chap → ℕ → Stream → Stream)
    (stream_send : Stream → Buff → Option (Status × Stream)) where
  -- The stream reports `n` times at most that a packet is through, while pppd is not read.
  unfoldable pub completions : ℕ → Pppd Stream → Option (Exit (Pppd Stream))
  completions zero ctx = some (returned ctx)
  completions (suc n) ctx =
      let on = (do
        e ← send_complete notify stream_send ctx
        elim e [ returned c ↦ completions n c | died ↦ some died ]) in
      if ctx.reading then some (returned ctx) else on

  completed_by :
      (ctx next : Pppd Stream) (status : Status)
      → process_data notify stream_send ctx ≡ some (returned (status, next))
      → send_complete notify stream_send ctx ≡ some (returned (completed status next))
  unfolding send_complete
  completed_by ctx next status ran = rw ran refl

  completions_step :
      (n : ℕ) (ctx next : Pppd Stream)
      → ctx.reading ≡ false
      → send_complete notify stream_send ctx ≡ some (returned next)
      → completions (suc n) ctx ≡ completions n next
  unfolding completions
  completions_step n ctx next idle ran = if_false ctx.reading _ _ idle ∙ rw ran refl

  completions_over :
      (n : ℕ) (ctx : Pppd Stream) → ctx.reading ≡ true → completions n ctx ≡ some (returned ctx)
  unfolding completions
  completions_over zero ctx e = refl
  completions_over (suc n) ctx e = rw (completions, e) refl

  module _
      (answers : (s : Stream) (tx : Buff)
        → IsValid tx
        → tx.off ≡ 0
        → (r : Status × Stream) × (stream_send s tx ≡ some r)) where
    -- While pppd is not read, and with the frames of the packets `ps` waiting, the completions that
    -- the stream reports, of which one more than there are packets is enough, hand each of these to
    -- the stream once, in their order, and then pppd is read again, whatever the stream answers to
    -- each. The conditions are those of `process_data_forwards`.
    pub completions_drain :
        (n : ℕ) (ctx : Pppd Stream) (k room : ℕ) (ps : List (List ℕ)) (stale : List ℕ)
        → length ps < n
        → ctx.reading ≡ false
        → k ≤ 1
        → Pending ctx.rx_buf k ps stale
        → All (IsPacket room) ps
        → IsPlain stale
        → HasRoom ctx.tx_buf room
        → ctx.auth_check ≡ false
        → (after : Pppd Stream) × (completions n ctx ≡ some (returned after))
          × (after.reading ≡ true)
          × (after.handed ≡ ctx.handed ++ map data_packet_of ps)
    completions_drain zero ctx k room ps stale enough idle few h fits plain space off =
        absurd (omega arith)
    completions_drain (suc n) ctx k room ps stale enough idle few h fits plain space off =
        let (status, next, ran, f) =
          process_data_forwards notify stream_send answers ctx k room ps stale few h fits plain
            space off in
        elim (f.ended) [
          | inl (all_done, none_left) ↦
              let after = completed okay next in
              let shown = ap (λ s. completed s next) all_done in
              (
                after,
                completions_step n ctx after idle
                      (completed_by ctx next status ran ∙ ap (λ c. some (returned c)) shown)
                    ∙ completions_over n after refl,
                refl,
                f.handed
                    ∙ ap (λ t. ctx.handed ++ map data_packet_of t)
                        (sym (f.split ∙ ap (λ t. f.gone ++ t) none_left ∙ append-nil f.gone)),
              )
          | inr (waits, some_gone) ↦
              let shown = ap (λ s. completed s next) waits in
              let (after, later, reads, all_of_them) =
                completions_drain n next f.flags room f.rest f.stale
                  (fewer ps f.gone f.rest n f.split some_gone enough) (f.reads ∙ idle) f.few f.left
                  (All-split room f.gone f.rest (subst (All (IsPacket room)) f.split fits))
                  (f.plain waits) f.space f.off in
              (
                after,
                completions_step n ctx next idle
                      (completed_by ctx next status ran ∙ ap (λ c. some (returned c)) shown)
                    ∙ later,
                reads,
                all_of_them
                    ∙ ap (λ t. t ++ map data_packet_of f.rest) f.handed
                    ∙ append_assoc ctx.handed (map data_packet_of f.gone)
                        (map data_packet_of f.rest)
                    ∙ ap (λ t. ctx.handed ++ t) (sym (map-append data_packet_of f.gone f.rest))
                    ∙ ap (λ t. ctx.handed ++ map data_packet_of t) (sym f.split),
              )
        ]
