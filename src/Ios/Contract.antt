-- ===== src/Ios/Contract.antt =====
-- What the session of sstp/sstp-ios.c reports, against the contract of sstp/sstp-ios-error.h.
use sstp_client_i_os.Base.{
  ℕ, ◌≡◌, refl, Bool, true, false, Option, some, List, ◌∷◌, Status, take, if◌then◌else◌, All,
  if_both, if_true,
}
use sstp_client_i_os.Ios.{
  Message, Report, staged, refused, readied, packeted, Session, Flow, fault, escaped, returned,
  ◌>=>◌, set_stage, note_failure, fail_ex, fail_stage, code_or_internal, msg_or_default, report,
}
use sstp_client_i_os.Ios.Errors.{error_code_valid, stage_valid}

-- A report of progress: no failure, and a stage of the contract.
abbrev pub Progress : Report → Type 0
Progress (staged name) = stage_valid (some name) ≡ true
Progress (refused code name msg) = ⊥
Progress (readied addresses) = Unit
Progress (packeted ip) = Unit

-- What the loop of events has of a session that has not failed.
pub record Running (escape_set on_fail failed : Bool) (reports : List Report) : Type 0 where
  pub escapes : escape_set ≡ true
  pub listens : on_fail ≡ true
  pub whole : failed ≡ false
  pub progress : All Progress reports

-- What a session that has failed has: the failure is its last report, with a code and a stage of the
-- contract, which it keeps.
pub record Failed (failed : Bool) (fail_code stage : List ℕ) (reports : List Report) : Type 0 where
  pub msg : Message
  pub older : List Report
  pub last : reports ≡ refused fail_code stage msg ∷ older
  pub code_known : error_code_valid (some fail_code) ≡ true
  pub stage_known : stage_valid (some stage) ≡ true
  pub before : All Progress older
  pub noted : failed ≡ true

pub add-progress :
    (there : Bool) (what : Report) (reports : List Report)
    → Progress what
    → All Progress reports
    → All Progress (if there then what ∷ reports else reports)
add-progress there what reports p all =
    if_both (All Progress) there (what ∷ reports) reports (p, all) all

module _ {Rc4 : Type 0} where
  abbrev pub IsRunning : Session Rc4 → Type 0
  IsRunning s = Running s.escape_set s.on_fail s.failed s.reports

  abbrev pub IsFailed : Session Rc4 → Type 0
  IsFailed s = Failed s.failed s.fail_code s.stage s.reports

  -- How a function of the loop may end.
  unfoldable pub Ends : Flow (Session Rc4) → Type 0
  Ends fault = Unit
  Ends (escaped s) = IsFailed s
  Ends (returned status s) = IsRunning s

  pub returned-Ends : (status : Status) (s : Session Rc4) → IsRunning s → Ends (returned status s)
  unfolding Ends
  returned-Ends status s r = r

  pub bind-Ends :
      (x : Flow (Session Rc4)) (f : Status → Session Rc4 → Flow (Session Rc4))
      → Ends x
      → ((status : Status) (s : Session Rc4) → IsRunning s → Ends (f status s))
      → Ends (x >=> f)
  unfolding Ends
  bind-Ends fault f e k = tt
  bind-Ends (escaped s) f e k = e
  bind-Ends (returned status s) f e k = k status s e

  pub report-IsRunning :
      (there : Bool) (what : Report) (s : Session Rc4)
      → Progress what
      → IsRunning s
      → IsRunning (report there what s)
  report-IsRunning there what s p r = record {
    escapes = r.escapes;
    listens = r.listens;
    whole = r.whole;
    progress = add-progress there what s.reports p r.progress;
  }

  pub set_stage-IsRunning :
      (name : List ℕ) (s : Session Rc4)
      → stage_valid (some (take 63 name)) ≡ true
      → IsRunning s
      → IsRunning (set_stage name s)
  unfolding set_stage
  set_stage-IsRunning name s known r = record {
    escapes = r.escapes;
    listens = r.listens;
    whole = r.whole;
    progress = add-progress s.on_stage (staged (take 63 name)) s.reports known r.progress;
  }

  pub fail_ex-Ends :
      (code name : List ℕ) (msg : Option Message) (s : Session Rc4)
      → error_code_valid (some (take 63 (code_or_internal code))) ≡ true
      → stage_valid (some (fail_stage name s.stage)) ≡ true
      → IsRunning s
      → Ends (fail_ex code name msg s)
  unfolding fail_ex note_failure Ends
  fail_ex-Ends code name msg s known known' r = rw r.escapes record {
    msg = msg_or_default msg;
    older = s.reports;
    last = if_true s.on_fail _ s.reports r.listens;
    code_known = known;
    stage_known = known';
    before = r.progress;
    noted = refl;
  }
