-- ===== src/State.antt =====
-- sstp/sstp-state.h and sstp/sstp-state.c: the state machine of an SSTP call, and what it asks of the
-- parts around it. Ints are 32-bit patterns; `none` is an access outside of a buffer.
pub mod Handlers
pub mod Calls
pub mod Sending
pub mod Echo
pub mod Connect
pub mod Binding
pub mod Accept
pub mod Closing
pub mod Reason
pub mod Examples
pub mod ClosingRuns
use sstp_client_i_os.Base.{ℕ, ◌+◌, ◌%◌, ◌^◌, Bool, Option, none, some, List, [], ◌∷◌, ◌++◌}
use sstp_client_i_os.Base.{Status, okay, replicate, min, take, drop, if◌then◌else◌, ltb}
use sstp_client_i_os.Buff.{Buff, buff_create}

-- `sstp_state_t`, the transitions that the layer above is told of.
abbrev pub call_abort : ℕ
call_abort = 1

abbrev pub call_connect : ℕ
call_connect = 2

abbrev pub call_established : ℕ
call_established = 3

abbrev pub call_disconnect : ℕ
call_disconnect = 4

-- The flag SSTP_ST_ESTABLISHED of `state`.
abbrev pub st_established : ℕ
st_established = 0x1000

-- What a call of the machine does to the world, in the order in which it is done.
pub data Action : Type 0 where
  -- the bytes of a packet handed to `sstp_stream_send`
  sent : List ℕ → Action
  -- a call of `state_cb` with that state
  called : ℕ → Action
  -- the bytes handed to `forward_cb`
  forwarded : List ℕ → Action
  -- a call of `sstp_stream_req_recv`
  receive : Action

-- The parts around the machine. Each answers by what has been done before, the latest first.
pub record Env : Type 0 where
  -- `sstp_stream_send`: the result, and the buffer's `off` behind the call
  pub send : List Action → Buff → Status × ℕ
  -- `state_cb` and `forward_cb`
  pub notify : List Action → ℕ → Status
  pub forward : List Action → List ℕ → Status
  -- `sstp_get_cert_hash`: the result, and the 32 bytes that the caller's array holds behind the call
  pub cert_hash : ℕ → Status × List ℕ
  -- whether `calloc` finds memory
  pub memory : List Action → Bool
  -- the HMAC of the OpenSSL library: whether it is over SHA-256 or SHA-1, the key, the message
  pub hmac : Bool → List ℕ → List ℕ → List ℕ
  -- the pointers that stand in an uninitialised array of `sstp_attr_st *`
  pub stale : List Action → ℕ → Option ℕ

-- `struct sstp_state`, with the actions so far, the latest first.
pub record Ctx : Type 0 where
  pub state : ℕ
  pub mode : ℕ
  pub tx_buf : Buff
  pub rx_buf : Buff
  pub proto : ℕ
  pub status : ℕ
  pub echo : ℕ
  pub nounce : List ℕ
  pub mppe_send_key : List ℕ
  pub mppe_recv_key : List ℕ
  pub mppe_key_len : ℕ
  pub trace : List Action

abbrev pub mode_client : ℕ
mode_client = 1

abbrev pub Step : Type 0
Step = Option (Status × Ctx)

-- Chains of steps; the result of a step is dropped by `then_do`.
abbrev pub then_do : Step → (Ctx → Step) → Step
then_do none f = none
then_do (some (status, ctx)) f = f ctx

abbrev pub then_if_okay : Step → (Ctx → Step) → Step
then_if_okay none f = none
then_if_okay (some (okay, ctx)) f = f ctx
then_if_okay (some (status, ctx)) f = some (status, ctx)

-- `sstp_state_mppe_keys`: keys longer than the arrays are cut.
unfoldable pub mppe_keys : Ctx → List ℕ → List ℕ → ℕ → Status × Ctx
mppe_keys ctx send_key recv_key key_len =
    let n = if ltb 32 key_len then 32 else key_len in
    (
      okay,
      record ctx {
        mppe_send_key = take n send_key ++ drop n ctx.mppe_send_key;
        mppe_recv_key = take n recv_key ++ drop n ctx.mppe_recv_key;
        mppe_key_len = n;
      },
    )

-- `sstp_state_create`, by which of its three allocations have memory. A context whose buffers are
-- not both there is `partial`, with the buffer that was made.
pub data Created : Type 0 where
  null : Created
  partial : Option Buff → Created
  whole : Ctx → Created

abbrev fresh : ℕ → Buff → Buff → Ctx
fresh mode tx rx = record {
  state = 0;
  mode = mode;
  tx_buf = tx;
  rx_buf = rx;
  proto = 0;
  status = 0;
  echo = 0;
  nounce = replicate 32 0;
  mppe_send_key = replicate 32 0;
  mppe_recv_key = replicate 32 0;
  mppe_key_len = 0;
  trace = [];
}

abbrev with_buffers : ℕ → Status × Option Buff → Status × Option Buff → Created
with_buffers mode (okay, some tx) (okay, some rx) = whole (fresh mode tx rx)
with_buffers mode (okay, some tx) _ = partial (some tx)
with_buffers mode _ _ = partial none

-- The local `status` starts as 0, which is SSTP_OKAY, and no path sets it to anything else.
unfoldable pub state_create : Bool → Bool → Bool → ℕ → Status × Created
state_create memory memory_tx memory_rx mode = (
  okay,
  if memory
      then with_buffers mode (buff_create memory_tx 16384) (buff_create memory_rx 16384)
      else null,
)
