-- ===== src/Buff.antt =====
-- sstp/sstp-buff.h and sstp/sstp-buff.c: the buffer that packets are built in and received into.
-- `len`, `max` and `off` are ints, kept as 32-bit patterns; `bytes` is the array behind them. A
-- result `none` is an access outside of that array.
pub mod Laws
pub mod Examples
use sstp_client_i_os.Base.{
  ℕ, ◌+◌, ◌-◌, ◌%◌, ◌^◌, Bool, not, ◌||◌, Option, none, some, List, [], ◌∷◌,
}
use sstp_client_i_os.Base.{
  ◌++◌, length, take, replicate, slt, ◌==◌, if◌then◌else◌, ◌>>=◌, write_bytes,
}
use sstp_client_i_os.Base.{Status, okay, fail, overflow}

pub record Buff : Type 0 where
  pub len : ℕ
  pub max : ℕ
  pub off : ℕ
  pub bytes : List ℕ

-- The int `buf->len + length`; `length` is an int too.
abbrev pub add_len : Buff → ℕ → ℕ
add_len buf n = (buf.len + n) % 2 ^ 32

unfoldable pub buff_space : Buff → ℕ → Status
buff_space buf n = if slt buf.max (add_len buf n) then fail else okay

unfoldable pub buff_reset : Buff → Buff
buff_reset buf = record buf { len = 0; off = 0 }

-- `calloc` answers NULL where the first argument is false, and zeroed memory else.
unfoldable pub buff_create : Bool → ℕ → Status × Option Buff
buff_create memory size =
    if memory
    then (okay, some (record { len = 0; max = size; off = 0; bytes = replicate size 0 }))
    else (fail, none)

-- `vsnprintf` into `size` bytes at `at`, with `text` what the format and its arguments come to: the
-- text is cut to `size - 1` characters and closed by a zero, and its whole length is returned.
abbrev pub vsnprintf : List ℕ → ℕ → ℕ → List ℕ → Option (List ℕ)
vsnprintf mem at size text =
    if size == 0 then some mem else write_bytes mem at (take (size - 1) text ++ 0 ∷ [])

-- `text` is shorter than 2 ^ 31.
unfoldable pub buff_print : Buff → List ℕ → Option (Status × Buff)
buff_print buf text = do
  let room = (buf.max + 2 ^ 32 - buf.len) % 2 ^ 32
  bytes ← vsnprintf buf.bytes buf.len room text
  let ret = length text
  let printed = record buf { bytes = bytes }
  some (
      if not (slt 0 ret) || slt room ret
      then (overflow, printed)
      else (okay, record printed { len = (buf.len + ret) % 2 ^ 32 }))
