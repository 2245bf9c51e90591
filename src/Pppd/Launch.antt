-- ===== src/Pppd/Launch.antt =====
-- The life of the helper in sstp/sstp-pppd.c: `sstp_pppd_create`, `sstp_pppd_start`, which runs
-- pppd, and `sstp_pppd_stop` and `sstp_pppd_free`. The task of sstp/sstp-task.c is a value that
-- answers.
use sstp_client_i_os.Base.{
  ℕ, ◌+◌, ◌-◌, ◌%◌, ◌^◌, Bool, true, false, Option, none, some, List, [], ◌∷◌,
}
use sstp_client_i_os.Base.{
  ◌++◌, length, take, leb, ltb, ◌==◌, if◌then◌else◌, ◌>>=◌, is, Status, okay, fail, inprog, codes,
  replicate,
}
use sstp_client_i_os.Buff.{Buff, buff_create}
use sstp_client_i_os.Ppp.Entry.{Session}
use sstp_client_i_os.Pppd.{Pppd, chap_of}

-- What `sstp_pppd_start` reads of the options: the flags SSTP_OPT_NOLAUNCH and SSTP_OPT_NOPLUGIN, the
-- user and the password, if there are any, and the arguments for pppd.
pub record Options : Type 0 where
  pub nolaunch : Bool
  pub noplugin : Bool
  pub user : Option (List ℕ)
  pub password : Option (List ℕ)
  pub pppdargv : List (List ℕ)

-- What the system answers: `sstp_task_new`, the terminal of the task, the name of the file that
-- `mkstemp` made, if it did, how many bytes `write` stores of a text, `sstp_task_start`, and the time.
pub record System : Type 0 where
  pub task_new : Status
  pub ttydev : List ℕ
  pub mkstemp : Option (List ℕ)
  pub write : List ℕ → ℕ
  pub task_start : List (List ℕ) → Status
  pub time : ℕ

-- What was done: the file that was made for the password, with what was stored in it, and the
-- arguments with which pppd was run.
pub record Launched : Type 0 where
  pub file : Option (List ℕ)
  pub args : Option (List (List ℕ))

-- `"password \"%s\"\n"`
abbrev pub secret : List ℕ → List ℕ
secret password = codes "password \"" ++ (password ++ 0x22 ∷ 0x0a ∷ [])

-- The file behind `write`, which is given `j` bytes of the 255 of `buff`, with `j` the whole length of
-- the text. When it stores fewer, there is a warning, and nothing else comes of it.
unfoldable pub secret_file : (List ℕ → ℕ) → List ℕ → Option (List ℕ)
secret_file write password =
    let text = secret password in
    let stored = λ (given : List ℕ). some (take (write given) given) in
    let cut = if length text == 255 then stored (take 254 text ++ 0 ∷ []) else none in
    if leb (length text) 254 then stored text else cut

abbrev pub user_args : Option (List ℕ) → List (List ℕ)
user_args none = []
user_args (some user) = codes "user" ∷ user ∷ []

abbrev pub plugin_args : Bool → List ℕ → List (List ℕ)
plugin_args noplugin sockname =
    if noplugin
    then []
    else codes "plugin" ∷ codes "sstp-pppd-plugin.so" ∷ codes "sstp-sock" ∷ sockname ∷ []

-- The array `args` has room for 20 pointers, of which the last one is NULL.
unfoldable pub closed : List (List ℕ) → Option (List (List ℕ))
closed args = if ltb (length args) 20 then some args else none

abbrev pub nothing : Launched
nothing = record { file = none; args = none }

abbrev pub Outcome : Type 0 → Type 0
Outcome Stream = Option (Status × Pppd Stream × Launched)

module _ {Stream : Type 0} where
  -- From the moment when the terminal is known: the time is recorded, and the event is added.
  abbrev pub listening : System → Pppd Stream → Pppd Stream
  listening sys ctx = record ctx { t_start = sys.time; reading = true }

  -- From the password on, with the arguments before it.
  unfoldable pub run_with :
      Options → System → List ℕ → List (List ℕ) → Option (List ℕ) → Pppd Stream → Outcome Stream
  unfolding closed
  run_with opts sys sockname before file ctx = do
    args ← closed (before ++ (plugin_args opts.noplugin sockname ++ opts.pppdargv))
    let run = sys.task_start args
    let done : Launched = record { file = file; args = some args }
    some (if is run okay then (inprog, listening sys ctx, done) else (fail, ctx, done))

  -- `if (opts->password)`
  unfoldable pub with_password :
      Options → System → List ℕ → List (List ℕ) → Pppd Stream → Outcome Stream
  unfolding run_with secret_file
  with_password opts sys sockname before ctx =
      let write = λ (password name : List ℕ). (do
        text ← secret_file sys.write password
        let args = before ++ codes "file" ∷ name ∷ []
        let watching = record ctx { auth_check = true; del_file = true }
        run_with opts sys sockname args (some text) watching) in
      let make = λ (password : List ℕ). elim (sys.mkstemp) as (λ o. Outcome Stream) [
        | none ↦ some (fail, ctx, nothing)
        | some name ↦ write password name
      ] in
      elim (opts.password) [
        | none ↦ run_with opts sys sockname before none ctx
        | some password ↦ make password
      ]

  unfoldable pub start : Options → System → List ℕ → Pppd Stream → Outcome Stream
  unfolding with_password
  start opts sys sockname ctx =
      let first = codes "/usr/sbin/pppd" ∷ sys.ttydev ∷ codes "38400" ∷ user_args opts.user in
      let launch =
        if is (sys.task_new) okay
        then with_password opts sys sockname first ctx
        else some (fail, ctx, nothing) in
      if opts.nolaunch then some (okay, listening sys ctx, nothing) else launch

  -- `sstp_pppd_stop`; it always returns a failure. `task` tells whether there is one.
  abbrev pub stop : Bool → ℕ → Pppd Stream → Status × Pppd Stream
  stop task time ctx = (fail, if task then record ctx { t_end = time } else ctx)

  -- `sstp_pppd_session_details`, in unsigned longs.
  unfoldable pub session_details : Pppd Stream → ℕ → Session
  session_details ctx time = record {
    established = ((if ctx.t_end == 0 then time else ctx.t_end) + 2 ^ 64 - ctx.t_start) % 2 ^ 64;
    rx_bytes = ctx.recv_bytes;
    tx_bytes = ctx.sent_bytes;
  }

  -- `sstp_pppd_create`: `calloc` of the context and the two buffers answers by `memory`.
  unfoldable pub create : (ℕ → Bool) → Bool → Stream → Status × Option (Pppd Stream)
  unfolding buff_create
  create memory has_notify stream =
      let fresh = λ (rx tx : Buff).
        let ctx : Pppd Stream = record {
          rx_buf = rx;
          tx_buf = tx;
          stream = stream;
          reading = false;
          chap = chap_of (replicate 49 0);
          has_notify = has_notify;
          ip_up = false;
          auth_done = false;
          auth_check = false;
          del_file = false;
          t_end = 0;
          t_start = 0;
          sent_bytes = 0;
          recv_bytes = 0;
          first = true;
          told = [];
          handed = [];
          tty = [];
        } in
        ctx in
      let both = λ (tx : Buff).
        elim ((buff_create (memory 2) 16384).1) as (λ o. Status × Option (Pppd Stream)) [
          | none ↦ (fail, none)
          | some rx ↦ (okay, some (fresh rx tx))
        ] in
      let buffers : Status × Option (Pppd Stream) = elim ((buff_create (memory 1) 16384).1) [
        | none ↦ (fail, none)
        | some tx ↦ both tx
      ] in
      if memory 0 then buffers else (fail, none)
