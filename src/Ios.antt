-- ===== src/Ios.antt =====
-- sstp/sstp-ios.c: the session that the packet tunnel of the application drives. The structure, how
-- stages and failures are reported, and the loop of `sstp_ios_session_run`. The global `g_current` is
-- the session, as between `sstp_ios_session_start` and `sstp_ios_session_free`.
pub mod Errors
pub mod Link
pub mod Pin
pub mod PinChecks
pub mod Trust
pub mod Inject
pub mod Queue
pub mod Race
pub mod Connect
pub mod Run
pub mod Contract
pub mod Outcomes
pub mod Handshakes
pub mod Reports
pub mod Keys
pub mod Ready
pub mod Pinned
pub mod Chain
pub mod Start
pub mod Started
pub mod Lifetime
pub mod Examples
use sstp_client_i_os.Base.{
  codes, ℕ, Bool, true, false, Option, none, some, List, [], ◌∷◌, Status, okay, take, if◌then◌else◌,
}
use sstp_client_i_os.State.{Ctx}
use sstp_client_i_os.State.Reason.{Reason}
use sstp_client_i_os.Ppp.{Peer}
use sstp_client_i_os.Ios.Errors.{err_internal, stage_idle, stage_error, stage_disconnecting}

-- `sstp_ios_tls_mode_t`
abbrev pub tls_system : ℕ
tls_system = 0

abbrev pub tls_custom_ca : ℕ
tls_custom_ca = 1

abbrev pub tls_pinned : ℕ
tls_pinned = 2

abbrev pub tls_insecure_debug : ℕ
tls_insecure_debug = 3

-- The text of a failure: a literal, or what `sstp_state_reason` gives.
pub data Message : Type 0 where
  said : List ℕ → Message
  because : Reason → Message

-- A call of one of the application's functions, with its arguments.
pub data Report : Type 0 where
  -- `on_stage`
  staged : List ℕ → Report
  -- `on_fail`, with the code, the stage and the text
  refused : List ℕ → List ℕ → Message → Report
  -- `on_ready`, with the addresses of `sstp_pppd_get_ipv4`
  readied : List ℕ → Report
  -- `on_packet`
  packeted : List ℕ → Report

-- `struct sstp_ios_session`, with what it uses of `client`, and the reports so far, the latest first.
pub record Session (Rc4 : Type 0) : Type 0 where
  -- which of the application's functions are there
  pub on_ready : Bool
  pub on_packet : Bool
  pub on_stage : Bool
  pub on_fail : Bool
  pub failed : Bool
  pub ready : Bool
  pub stage : List ℕ
  pub fail_code : List ℕ
  pub fail_msg : Option Message
  pub escape_set : Bool
  pub tls_mode : ℕ
  pub pin : List ℕ
  -- whether `client.ev_base` is there, and whether `event_base_loopbreak` was called
  pub ev_base : Bool
  pub breaking : Bool
  pub password : List ℕ
  pub user : List ℕ
  pub state : Option Ctx
  pub pppd : Option (Peer Rc4)
  pub reports : List Report

-- How a function ends: by an access outside of an array, by `longjmp` to `sstp_ios_session_run`, or
-- by its return, with `okay` where it returns nothing.
pub data Flow (S : Type 0) : Type 0 where
  fault : Flow S
  escaped : S → Flow S
  returned : Status → S → Flow S

infixl 5 ◌>=>◌
abbrev pub ◌>=>◌ : {S : Type 0} → Flow S → (Status → S → Flow S) → Flow S
fault >=> f = fault
escaped s >=> f = escaped s
returned status s >=> f = f status s

-- The stage that `sstp_ios_fail_ex` leaves.
abbrev pub fail_stage : List ℕ → List ℕ → List ℕ
fail_stage (c ∷ cs) current = take 63 (c ∷ cs)
fail_stage [] (c ∷ cs) = c ∷ cs
fail_stage [] [] = stage_error

abbrev pub code_or_internal : List ℕ → List ℕ
code_or_internal [] = err_internal
code_or_internal (c ∷ cs) = c ∷ cs

abbrev pub msg_or_default : Option Message → Message
msg_or_default none = said (codes "SSTP failure")
msg_or_default (some msg) = msg

module _ {Rc4 : Type 0} where
  -- A call of one of the application's functions, if it is there.
  abbrev pub report : Bool → Report → Session Rc4 → Session Rc4
  report there what s = record s { reports = if there then what ∷ s.reports else s.reports }

  -- `sstp_ios_set_stage`; `snprintf` keeps 63 characters.
  unfoldable pub set_stage : List ℕ → Session Rc4 → Session Rc4
  set_stage name s = report s.on_stage (staged (take 63 name)) (record s { stage = take 63 name })

  -- What `sstp_ios_fail_ex` writes down and reports; an empty string stands for NULL, too.
  unfoldable pub note_failure : List ℕ → List ℕ → Option Message → Session Rc4 → Session Rc4
  note_failure code name msg s =
      let code' = take 63 (code_or_internal code) in
      let stage' = fail_stage name s.stage in
      let msg' = msg_or_default msg in
      report s.on_fail (refused code' stage' msg') (record s {
        failed = true;
        fail_code = code';
        stage = stage';
        fail_msg = some msg';
        breaking = if s.ev_base then true else s.breaking;
      })

  -- `sstp_ios_fail_ex`
  unfoldable pub fail_ex : List ℕ → List ℕ → Option Message → Session Rc4 → Flow (Session Rc4)
  unfolding note_failure
  fail_ex code name msg s =
      let noted = note_failure code name msg s in
      if s.escape_set then escaped noted else returned okay noted

  -- `sstp_ios_fail`
  unfoldable pub report_failure : Option Message → Session Rc4 → Flow (Session Rc4)
  unfolding fail_ex
  report_failure msg s = fail_ex err_internal s.stage msg s

  -- `ios_ip_handler` of a packet that is there.
  unfoldable pub ip_handler : List ℕ → Session Rc4 → Session Rc4
  ip_handler [] s = s
  ip_handler (b ∷ bs) s = report s.on_packet (packeted (b ∷ bs)) s

  -- `ios_stop_cb`
  unfoldable pub stop_cb : Session Rc4 → Session Rc4
  stop_cb s = record s { breaking = if s.ev_base then true else s.breaking }

  -- `sstp_ios_session_create` with memory at hand.
  unfoldable pub session_create : Bool → Bool → Bool → Bool → Session Rc4
  session_create on_ready on_packet on_stage on_fail = record {
    on_ready = on_ready;
    on_packet = on_packet;
    on_stage = on_stage;
    on_fail = on_fail;
    failed = false;
    ready = false;
    stage = stage_idle;
    fail_code = [];
    fail_msg = none;
    escape_set = false;
    tls_mode = tls_system;
    pin = [];
    ev_base = false;
    breaking = false;
    password = [];
    user = [];
    state = none;
    pppd = none;
    reports = [];
  }

  -- `sstp_ios_session_stop`: it also makes the loop call `ios_stop_cb`. The time that
  -- `sstp_pppd_stop` notes is not kept.
  unfoldable pub session_stop : Session Rc4 → Session Rc4
  session_stop s = record s { stage = stage_disconnecting }

  -- `sstp_ios_session_last_error_code`, where `none` is NULL.
  unfoldable pub last_error_code : Session Rc4 → Option (List ℕ)
  last_error_code s = elim s.fail_code as (λ c. Option (List ℕ)) [
    | [] ↦ none
    | c ∷ cs ↦ some (c ∷ cs)
  ]
