-- ===== src/Pppd/Forwarded.antt =====
-- What a run of the loop of `ppp_process_data` in sstp/sstp-pppd.c leaves behind.
use sstp_client_i_os.Base.{ℕ, ◌≤◌, ◌≡◌, ◌≢◌, ◌⊎◌, inl, inr, ap, ◌∙◌, false}
use sstp_client_i_os.Base.{
  some, Option, List, [], ◌∷◌, ◌++◌, map, append_assoc, Status, okay, inprog,
}
use sstp_client_i_os.Buff.{Buff}
use sstp_client_i_os.Packet.Data.{data_packet_of}
use sstp_client_i_os.Hdlc.{hdlc_flag, hdlc_escape}
use sstp_client_i_os.Buff.Laws.{contents}
use sstp_client_i_os.Pppd.{Pppd}
use sstp_client_i_os.Pppd.Pending.{Pending, HasRoom}

-- The byte behind the data is neither a flag nor an escape.
abbrev pub IsPlain : List ℕ → Type 0
IsPlain [] = ⊥
IsPlain (b ∷ more) = (b ≢ hdlc_flag) × (b ≢ hdlc_escape)

module _ {Stream : Type 0} (stream_send : Stream → Buff → Option (Status × Stream)) where
  -- The stream was given the packets one after the other, each in the state that it was left in by
  -- the one before: it took each but the last with okay, and the last too if `status` is okay.
  unfoldable pub Answered : Stream → List (List ℕ) → Status → Stream → Type 0
  Answered s [] status end = (status ≡ okay) × (s ≡ end)
  Answered s (p ∷ ps) status end =
      (tx : Buff) × (contents tx ≡ data_packet_of p)
      × (answer : Status) × (next : Stream) × (stream_send s tx ≡ some (answer, next))
      × (((answer ≡ okay) × Answered next ps status end)
          ⊎ ((answer ≢ okay) × (ps ≡ []) × (status ≡ inprog) × (next ≡ end)))

-- What is left of the packets `ps`, of which some were handed over. The loop ends when all were, or
-- when the stream did not take one at once.
pub record Forwarded {Stream : Type 0} (stream_send : Stream → Buff → Option (Status × Stream))
    (room : ℕ) (ps : List (List ℕ)) (ctx : Pppd Stream) (status : Status) (after : Pppd Stream)
    : Type 0 where
  pub gone : List (List ℕ)
  pub rest : List (List ℕ)
  pub split : ps ≡ gone ++ rest
  pub handed : after.handed ≡ ctx.handed ++ map data_packet_of gone
  pub answered : Answered stream_send ctx.stream gone status after.stream
  pub ended : ((status ≡ okay) × (rest ≡ [])) ⊎ ((status ≡ inprog) × (gone ≢ []))
  pub flags : ℕ
  pub few : flags ≤ 1
  pub stale : List ℕ
  pub left : Pending after.rx_buf flags rest stale
  pub plain : status ≡ inprog → IsPlain stale
  pub space : HasRoom after.tx_buf room
  pub off : after.auth_check ≡ false
  pub reads : after.reading ≡ ctx.reading

module _ {Stream : Type 0} (stream_send : Stream → Buff → Option (Status × Stream)) where
  -- A packet was taken at once, and others may be through.
  pub Forwarded-cons :
      (room : ℕ) (p : List ℕ) (ps : List (List ℕ)) (ctx next : Pppd Stream) (tx : Buff)
      (answer status : Status) (after : Pppd Stream)
      → contents tx ≡ data_packet_of p
      → stream_send ctx.stream tx ≡ some (answer, next.stream)
      → answer ≡ okay
      → next.handed ≡ ctx.handed ++ data_packet_of p ∷ []
      → next.reading ≡ ctx.reading
      → Forwarded stream_send room ps next status after
      → Forwarded stream_send room (p ∷ ps) ctx status after
  unfolding Answered
  Forwarded-cons room p ps ctx next tx answer status after text sent took one_more same h = record {
    gone = p ∷ h.gone;
    rest = h.rest;
    split = ap (λ t. p ∷ t) h.split;
    handed =
        h.handed
        ∙ ap (λ t. t ++ map data_packet_of h.gone) one_more
        ∙ append_assoc ctx.handed (data_packet_of p ∷ []) (map data_packet_of h.gone);
    answered = (tx, text, answer, next.stream, sent, inl (took, h.answered));
    ended = elim (h.ended) [ inl e ↦ inl e | inr e ↦ inr (e.0, λ none_gone. cc) ];
    flags = h.flags;
    few = h.few;
    stale = h.stale;
    left = h.left;
    plain = h.plain;
    space = h.space;
    off = h.off;
    reads = h.reads ∙ same;
  }

  -- The packet that is being built is no part of what is left.
  pub Forwarded-tx_buf :
      (room : ℕ) (ps : List (List ℕ)) (ctx : Pppd Stream) (tx : Buff) (status : Status)
      (after : Pppd Stream)
      → Forwarded stream_send room ps (record ctx { tx_buf = tx }) status after
      → Forwarded stream_send room ps ctx status after
  Forwarded-tx_buf room ps ctx tx status after h = record {
    gone = h.gone;
    rest = h.rest;
    split = h.split;
    handed = h.handed;
    answered = h.answered;
    ended = h.ended;
    flags = h.flags;
    few = h.few;
    stale = h.stale;
    left = h.left;
    plain = h.plain;
    space = h.space;
    off = h.off;
    reads = h.reads;
  }
