-- ===== src/Buff/Laws.antt =====
-- The operations of sstp/sstp-buff.c on a buffer that is well formed.
use sstp_client_i_os.Base.{ℕ, ◌+◌, ◌-◌, ◌%◌, ◌^◌, ◌≤◌, ◌<◌, true, ◌≡◌, refl}
use sstp_client_i_os.Base.{sym, ap, ◌∙◌, arith, some, List, [], ◌∷◌, ◌++◌, length}
use sstp_client_i_os.Base.{
  take, replicate, length-replicate, leb, if◌then◌else◌, splice, length-append,
}
use sstp_client_i_os.Base.{
  write_bytes-splice, length-splice, take-splice, take-splice_prefix, take-splice_before, take_all,
  length-take, okay, fail, overflow,
}
use sstp_client_i_os.Buff.{Buff, buff_space, buff_reset, buff_create, buff_print}

pub record IsValid (buf : Buff) : Type 0 where
  pub sized : length buf.bytes ≡ buf.max
  pub within : buf.len ≤ buf.max
  pub int : buf.max < 2 ^ 30

-- What has been written so far.
abbrev pub contents : Buff → List ℕ
contents buf = take buf.len buf.bytes

-- The test for space, with no overflow of ints in the way.
pub buff_space_lem :
    (buf : Buff) (n : ℕ)
    → IsValid buf
    → n < 2 ^ 30
    → buff_space buf n ≡ (if leb (buf.len + n) buf.max then okay else fail)
unfolding buff_space
buff_space_lem buf n v h = ground arith

pub buff_reset-IsValid : (buf : Buff) → IsValid buf → IsValid (buff_reset buf)
unfolding buff_reset
buff_reset-IsValid buf v = ground arith

-- A buffer that could be allocated is well formed, empty, and has room for its size and no more.
pub buff_create_lem :
    (size : ℕ)
    → size < 2 ^ 30
    → (buf : Buff) × (buff_create true size ≡ (okay, some buf))
      × IsValid buf
      × (contents buf ≡ [])
      × (buff_space buf size ≡ okay)
      × (buff_space buf (size + 1) ≡ fail)
unfolding buff_create buff_space
buff_create_lem size h = (
  record { len = 0; max = size; off = 0; bytes = replicate size 0 },
  refl,
  ground (arith, length-replicate {A = ℕ} size 0),
  refl,
  ground arith,
  ground arith,
)

-- The bytes behind the contents, and the length grown by them.
abbrev pub appended : Buff → List ℕ → Buff
appended buf new = record buf { len = buf.len + length new; bytes = splice buf.bytes buf.len new }

pub appended-IsValid :
    (buf : Buff) (new : List ℕ)
    → IsValid buf
    → buf.len + length new ≤ buf.max
    → IsValid (appended buf new)
appended-IsValid buf new v h = record {
  sized = length-splice buf.bytes buf.len new (omega arith) ∙ v.sized;
  within = h;
  int = v.int;
}

pub contents-appended :
    (buf : Buff) (new : List ℕ)
    → IsValid buf
    → buf.len + length new ≤ buf.max
    → contents (appended buf new) ≡ contents buf ++ new
contents-appended buf new v h = take-splice buf.bytes buf.len new (omega arith)

-- What `vsnprintf` leaves in an array that has a byte left at least.
abbrev printed : Buff → List ℕ → List ℕ
printed buf text = take (buf.max - buf.len - 1) text ++ 0 ∷ []

module _ (buf : Buff) (text : List ℕ) (v : IsValid buf) (room : buf.len < buf.max) where
  size-printed : buf.len + length (printed buf text) ≤ length buf.bytes
  size-printed = omega (
    arith,
    v.sized,
    length-append (take (buf.max - buf.len - 1) text) (0 ∷ []),
    length-take (buf.max - buf.len - 1) text,
  )

  buff_print_step :
      0 < length text
      → length text < 2 ^ 31
      → buff_print buf text
        ≡ some (
            if leb (length text) (buf.max - buf.len)
            then (
              okay,
              record buf {
                len = buf.len + length text;
                bytes = splice buf.bytes buf.len (printed buf text);
              },
            )
            else (overflow, record buf { bytes = splice buf.bytes buf.len (printed buf text) }))
  unfolding buff_print
  buff_print_step some_text int =
      let left : (buf.max + 2 ^ 32 - buf.len) % 2 ^ 32 ≡ buf.max - buf.len = omega (arith, v.int) in
      let write = write_bytes-splice buf.bytes buf.len (printed buf text) size-printed in
      rw left (ground (arith, write, v.int, v.within, room))

-- A text that leaves a byte for its closing zero is appended.
pub buff_print_fits :
    (buf : Buff) (text : List ℕ)
    → IsValid buf
    → 0 < length text
    → buf.len + length text < buf.max
    → (buf' : Buff) × (buff_print buf text ≡ some (okay, buf'))
      × IsValid buf'
      × (contents buf' ≡ contents buf ++ text)
      × (buf'.len ≡ buf.len + length text)
      × (buf'.max ≡ buf.max)
      × (buf'.off ≡ buf.off)
buff_print_fits buf text v some_text h =
    let room : buf.len < buf.max = omega arith in
    let whole : take (buf.max - buf.len - 1) text ≡ text = take_all text _ (omega arith) in
    let size = size-printed buf text v room in
    (
      record buf {
        len = buf.len + length text;
        bytes = splice buf.bytes buf.len (printed buf text);
      },
      buff_print_step buf text v room some_text (omega (arith, v.int)) ∙ ground arith,
      record {
        sized = length-splice buf.bytes buf.len (printed buf text) size ∙ v.sized;
        within = omega arith;
        int = v.int;
      },
      rw whole (take-splice_prefix buf.bytes buf.len text (0 ∷ []) (rw whole at size)),
      refl,
      refl,
      refl,
    )

-- A text that takes every byte left is reported as printed, and its last character is lost: a zero
-- stands in its place among the contents.
pub buff_print_full :
    (buf : Buff) (text : List ℕ)
    → IsValid buf
    → 0 < length text
    → buf.len + length text ≡ buf.max
    → (buf' : Buff) × (buff_print buf text ≡ some (okay, buf'))
      × (buf'.len ≡ buf.max)
      × (contents buf' ≡ contents buf ++ (take (length text - 1) text ++ 0 ∷ []))
buff_print_full buf text v some_text h =
    let room : buf.len < buf.max = omega arith in
    let cut : buf.max - buf.len - 1 ≡ length text - 1 = omega arith in
    let size = size-printed buf text v room in
    let end : length (printed buf text) ≡ length text = omega (
      arith,
      length-append (take (buf.max - buf.len - 1) text) (0 ∷ []),
      length-take (buf.max - buf.len - 1) text,
    ) in
    (
      record buf {
        len = buf.len + length text;
        bytes = splice buf.bytes buf.len (printed buf text);
      },
      buff_print_step buf text v room some_text (omega (arith, v.int)) ∙ ground arith,
      h,
      ap (λ n. take (buf.len + n) (splice buf.bytes buf.len (printed buf text))) (sym end)
          ∙ take-splice buf.bytes buf.len (printed buf text) size
          ∙ ap (λ n. contents buf ++ (take n text ++ 0 ∷ [])) cut,
    )

-- A longer text is reported as too long, and the contents stay as they were.
pub buff_print_overflow :
    (buf : Buff) (text : List ℕ)
    → IsValid buf
    → buf.len < buf.max
    → length text < 2 ^ 31
    → buf.max < buf.len + length text
    → (buf' : Buff) × (buff_print buf text ≡ some (overflow, buf'))
      × IsValid buf'
      × (contents buf' ≡ contents buf)
buff_print_overflow buf text v room int h =
    let size = size-printed buf text v room in
    (
      record buf { bytes = splice buf.bytes buf.len (printed buf text) },
      buff_print_step buf text v room (omega arith) int ∙ ground arith,
      record {
        sized = length-splice buf.bytes buf.len (printed buf text) size ∙ v.sized;
        within = v.within;
        int = v.int;
      },
      take-splice_before buf.bytes buf.len (printed buf text) size,
    )
