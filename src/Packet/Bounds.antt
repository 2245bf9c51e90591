-- ===== src/Packet/Bounds.antt =====
-- What `sstp_pkt_parse` of sstp/sstp-packet.c reports of any packet.
use sstp_client_i_os.Base.{ℕ, zero, suc, ◌+◌, ◌≤◌, ◌<◌, ◌≡◌}
use sstp_client_i_os.Base.{arith, List, [], ◌∷◌, length}
use sstp_client_i_os.Base.{drop, some, none}
use sstp_client_i_os.Base.{Option, read16, okay, ltb, slt}
use sstp_client_i_os.Base.{get_elem?, sext16, set, All, Option-cases, Bool-cases, inl, inr}
use sstp_client_i_os.Buff.{Buff}
use sstp_client_i_os.Packet.{cleared}
use sstp_client_i_os.Packet.{pkt_parse, parse_loop}
use sstp_client_i_os.Packet.{is_ctrl, attr_max, Attrs, Parsed}

-- A pointer that is reported leads to an attribute whose header lies inside of the array.
abbrev pub Inside : List ℕ → Option ℕ → Type 0
Inside mem none = Unit {0}
Inside mem (some attr) = attr + 4 ≤ length mem

get-in : (mem : List ℕ) (i : ℕ) {x : ℕ} → get_elem? mem i ≡ some x → i < length mem
get-in [] i e = cc
get-in (b ∷ mem) zero e = omega arith
get-in (b ∷ mem) (suc i) e = omega (arith, get-in mem i e)

set-Inside :
    (mem : List ℕ) (attrs : Attrs) (type attr : ℕ)
    → All (Inside mem) attrs
    → attr + 4 ≤ length mem
    → All (Inside mem) (set attrs type (some attr))
set-Inside mem [] type attr h fits = tt
set-Inside mem (o ∷ attrs) zero attr h fits = (fits, h.1)
set-Inside mem (o ∷ attrs) (suc type) attr h fits = (h.0, set-Inside mem attrs type attr h.1 fits)

read16-in : (mem : List ℕ) (i : ℕ) {x : ℕ} → read16 mem i ≡ some x → i + 2 ≤ length mem
read16-in mem i e = elim (Option-cases (get_elem? mem (i + 1))) [
  | inl out ↦ absurd (ground (arith, out))
  | inr (b, here) ↦ omega (arith, get-in mem (i + 1) here)
]

parse_loop-Inside :
    (k : ℕ) (mem : List ℕ) (off index : ℕ) (attrs : Attrs) (p : Parsed)
    → All (Inside mem) attrs
    → parse_loop k mem off index attrs ≡ some p
    → All (Inside mem) p.attrs
unfolding parse_loop
parse_loop-Inside zero mem off index attrs p h e = ground arith
parse_loop-Inside (suc k) mem off index attrs p h e =
    elim (Option-cases (get_elem? mem (index + 1))) [
      | inl out ↦ absurd (ground (arith, out))
      | inr (type, here) ↦ elim (Bool-cases (ltb attr_max type)) [
        | inl over ↦ ground (arith, here, over)
        | inr known ↦ elim (Option-cases (read16 mem (index + 2))) [
          | inl out ↦ absurd (ground (arith, here, known, out))
          | inr (size, there) ↦
              parse_loop-Inside k mem off (sext16 size) (set attrs type (some index)) p
                (set-Inside mem attrs type index h (omega (arith, read16-in mem (index + 2) there)))
                (ground (arith, here, known, there))
        ]
      ]
    ]

-- Whatever the packet, each attribute that a successful `sstp_pkt_parse` reports has its header
-- inside of the buffer, if the pointer that the memset leaves out had before the call.
pub pkt_parse-Inside :
    (buf : Buff) (attrs : Attrs) (p : Parsed)
    → All (Inside buf.bytes) (drop attr_max attrs)
    → pkt_parse buf attrs ≡ some p
    → p.status ≡ okay
    → All (Inside buf.bytes) p.attrs
unfolding pkt_parse
pkt_parse-Inside buf attrs p last e ok =
    let start : All (Inside buf.bytes) (cleared attrs) = (tt, (tt, (tt, (tt, last)))) in
    elim (Bool-cases (slt buf.len 14)) [
      | inl short ↦ absurd (ground (arith, short))
      | inr long ↦ elim (Option-cases (get_elem? buf.bytes 1)) [
        | inl out ↦ absurd (ground (arith, long, out))
        | inr (flags, f) ↦ elim (Bool-cases (is_ctrl flags)) [
          | inr other ↦ absurd (ground (arith, long, f, other))
          | inl control ↦ elim (Option-cases (read16 buf.bytes 6)) [
            | inl out ↦ absurd (ground (arith, long, f, control, out))
            | inr (n, count) ↦
                parse_loop-Inside n buf.bytes buf.off 8 (cleared attrs) p start
                  (ground (arith, long, f, control, count))
          ]
        ]
      ]
    ]
