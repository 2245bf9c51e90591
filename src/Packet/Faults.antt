-- ===== src/Packet/Faults.antt =====
-- `sstp_pkt_parse` of sstp/sstp-packet.c on packets that it reads wrongly.
use sstp_client_i_os.Packet.Parse.{
  only, first_attr, first_array, loop_first, parse_start, pkt_parse-Holds,
}
use sstp_client_i_os.Base.{ℕ, zero, suc, ◌+◌, ◌%◌, ◌^◌, ◌≤◌, ◌<◌, ◌≡◌, refl, ap}
use sstp_client_i_os.Base.{◌∙◌, arith, List, [], ◌∷◌, length}
use sstp_client_i_os.Base.{some, none}
use sstp_client_i_os.Base.{Option, read16, okay, ltb, slt, true, false}
use sstp_client_i_os.Base.{get_elem?, get_or, sext16, set, get-out}
use sstp_client_i_os.Buff.{Buff}
use sstp_client_i_os.Buff.Laws.{IsValid}
use sstp_client_i_os.Packet.{cleared, attr_crypto_bind_req}
use sstp_client_i_os.Packet.{pkt_parse, parse_loop}
use sstp_client_i_os.Packet.{is_ctrl, attr_max, Attrs, Parsed, attr_crypto_bind_req}
use sstp_client_i_os.Packet.Format.{Attr, Holds}

get-set_other :
    (attrs : Attrs) (i j : ℕ) (v d : Option ℕ)
    → i < j
    → get_or (set attrs i v) j d ≡ get_or attrs j d
get-set_other [] i j v d h = refl
get-set_other (o ∷ attrs) zero (suc j) v d h = refl
get-set_other (o ∷ attrs) (suc i) (suc j) v d h = get-set_other attrs i j v d (omega arith)
get-set_other (o ∷ attrs) i zero v d h = absurd (omega arith)

-- The pointer that the memset of `sstp_pkt_parse` leaves out: after a message without a crypto
-- binding request, the caller finds there what stood in the array before the call.
pub pkt_parse_stale :
    (buf : Buff) (type : ℕ) (a : Attr) (stale : Option ℕ)
    → Holds buf (record { type = type; attrs = a ∷ [] })
    → a.type < attr_crypto_bind_req
    → 2 ≤ length a.payload
    → length a.payload + 4 < 2 ^ 15
    → (p : Parsed) × (pkt_parse buf (none ∷ none ∷ none ∷ none ∷ stale ∷ []) ≡ some p)
      × (p.status ≡ okay)
      × (get_or p.attrs attr_crypto_bind_req none ≡ stale)
pkt_parse_stale buf type a stale h other two short =
    let attrs : Attrs = none ∷ none ∷ none ∷ none ∷ stale ∷ [] in
    (
      record { status = okay; attrs = only attrs a.type; off = length a.payload + 4 },
      (pkt_parse-Holds buf type a attrs h (omega arith) two short).0,
      refl,
      get-set_other (cleared attrs) a.type attr_crypto_bind_req (some 8) none (omega arith),
    )

set_again : (attrs : Attrs) (i : ℕ) (v : Option ℕ) → set (set attrs i v) i v ≡ set attrs i v
set_again [] i v = refl
set_again (o ∷ attrs) zero v = refl
set_again (o ∷ attrs) (suc i) v = ap (λ t. o ∷ t) (set_again attrs i v)

-- With eight bytes to the first attribute, each further round reads that attribute again.
loop_again :
    (attrs : Attrs) (buf : Buff) (type n : ℕ) (a : Attr) (tail : List ℕ) (k off : ℕ)
    → a.type ≤ attr_max
    → length a.payload ≡ 4
    → parse_loop k (first_array buf type n a tail) off 8 (only attrs a.type)
      ≡ some (record { status = okay; attrs = only attrs a.type; off = 8 })
unfolding parse_loop
loop_again attrs buf type n a tail zero off known four = refl
loop_again attrs buf type n a tail (suc k) off known four =
    let byte : a.type % 256 ≡ a.type = omega arith in
    let inside : ltb attr_max a.type ≡ false = ground arith in
    let arr : List ℕ = first_array buf type n a tail in
    let round : parse_loop (suc k) arr off 8 (only attrs a.type)
        ≡ parse_loop k arr off 8 (only attrs a.type) =
      rw (byte, inside, four, set_again (cleared attrs) a.type (some 8)) in
    round ∙ loop_again attrs buf type n a tail k off known four

-- A message whose first attribute has four bytes of payload is read as if it had that attribute
-- alone, however many others follow: each turn of the loop goes to the length of the attribute as
-- an offset from the start of the packet, and not to the end of the attribute.
pub pkt_parse_rereads :
    (buf : Buff) (type : ℕ) (a : Attr) (rest : List Attr) (attrs : Attrs)
    → Holds buf (record { type = type; attrs = a ∷ rest })
    → a.type ≤ attr_max
    → length a.payload ≡ 4
    → length rest + 1 < 2 ^ 16
    → pkt_parse buf attrs ≡ some (record { status = okay; attrs = only attrs a.type; off = 8 })
pkt_parse_rereads buf type a rest attrs h known four many =
    let (tail, same, len) = first_attr buf type a rest h in
    let n : ℕ = length rest in
    let next : parse_loop n (first_array buf type (suc n) a tail) buf.off (length a.payload + 4)
          (only attrs a.type)
        ≡ parse_loop n (first_array buf type (suc n) a tail) buf.off 8 (only attrs a.type) =
      rw four in
    ap (λ b. pkt_parse b attrs) same
    ∙ parse_start attrs buf type (suc n) a tail (omega arith) (omega (arith, h.valid)) (omega arith)
    ∙ loop_first attrs buf type (suc n) a tail n buf.off known (omega arith)
    ∙ next
    ∙ loop_again attrs buf type (suc n) a tail n buf.off known four

-- A packet off the wire that announces two attributes or more, and whose first one claims a length
-- that is past the end of the buffer, makes `sstp_pkt_parse` read outside of the buffer.
pub pkt_parse_outside :
    (buf : Buff) (attrs : Attrs) (flags n type size : ℕ)
    → IsValid buf
    → 14 ≤ buf.len
    → get_elem? buf.bytes 1 ≡ some flags
    → is_ctrl flags ≡ true
    → read16 buf.bytes 6 ≡ some (suc (suc n))
    → get_elem? buf.bytes 9 ≡ some type
    → type ≤ attr_max
    → read16 buf.bytes 10 ≡ some size
    → buf.max ≤ size
    → pkt_parse buf attrs ≡ none
unfolding pkt_parse parse_loop
pkt_parse_outside buf attrs flags n type size v long f control count t known s past =
    let enough : slt buf.len 14 ≡ false = ground (arith, v.int, v.within) in
    let far : length buf.bytes ≤ sext16 size + 1 = ground (arith, v.sized) in
    let out : get_elem? buf.bytes (sext16 size + 1) ≡ none = get-out buf.bytes _ far in
    ground (arith, enough, f, control, count, t, s, out)
