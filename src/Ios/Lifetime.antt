-- ===== src/Ios/Lifetime.antt =====
-- A session of sstp/sstp-ios.c from `sstp_ios_session_create` to the end of `sstp_ios_session_run`.
use sstp_client_i_os.Base.{
  refl, Bool, true, Option, none, some, List, okay, fail, inprog, connected, overflow, notimpl,
  timeout, authenticate, is, if◌then◌else◌, All, ◌⊎◌, inl, inr,
}
use sstp_client_i_os.Ios.{Session, Flow, fault, escaped, returned, session_create}
use sstp_client_i_os.Ios.Link.{Parts}
use sstp_client_i_os.Ios.Run.{Callback, session_run}
use sstp_client_i_os.Ios.Contract.{Progress, IsFailed}
use sstp_client_i_os.Ios.Reports.{Settled, session_run-Settled}
use sstp_client_i_os.Ios.Start.{Params, Resources, session_start_ex}
use sstp_client_i_os.Ios.Started.{IsQuiet, Begun, Begins, session_start_ex-Begins}

module _ {Rc4 : Type 0} where
  -- What the application is told: progress only, or progress and then one failure.
  abbrev pub Told : Session Rc4 → Type 0
  Told s = All Progress s.reports ⊎ IsFailed s

  -- The same of a session that may have accessed something outside of an array.
  abbrev pub IsReported : Option (Session Rc4) → Type 0
  IsReported none = Unit
  IsReported (some s) = Told s

  quiet-Told : (s : Session Rc4) → IsFailed s ⊎ IsQuiet s → Told s
  quiet-Told s (inl f) = inr f
  quiet-Told s (inr q) = inl q.progress

  Settled-IsReported : (o : Option (Session Rc4)) → Settled o → IsReported o
  unfolding Settled
  Settled-IsReported none h = tt
  Settled-IsReported (some s) (e, inl (whole, progress)) = inl progress
  Settled-IsReported (some s) (e, inr f) = inr f

module _ {Cert Rc4 : Type 0} (parts : Parts Rc4) (cs : List (Callback Cert Rc4)) where
  -- The application runs a session if the start returned 0.
  unfoldable pub run_if_started : Flow (Session Rc4) → Option (Session Rc4)
  run_if_started fault = none
  run_if_started (escaped s) = some s
  run_if_started (returned status s) =
      let ran = session_run parts cs s in if is okay status then ran else some s

  started-IsReported : (x : Flow (Session Rc4)) → Begins x → IsReported (run_if_started x)
  unfolding Begins Begun run_if_started
  started-IsReported fault b = absurd b
  started-IsReported (escaped s) b = absurd b
  started-IsReported (returned okay s) b =
      Settled-IsReported (session_run parts cs s)
        (session_run-Settled parts cs s b.listens b.outside b.whole b.progress)
  started-IsReported (returned fail s) b = quiet-Told s (b.1)
  started-IsReported (returned inprog s) b = quiet-Told s (b.1)
  started-IsReported (returned connected s) b = quiet-Told s (b.1)
  started-IsReported (returned overflow s) b = quiet-Told s (b.1)
  started-IsReported (returned notimpl s) b = quiet-Told s (b.1)
  started-IsReported (returned timeout s) b = quiet-Told s (b.1)
  started-IsReported (returned authenticate s) b = quiet-Told s (b.1)

  -- What a session reports that is created with a function for failures, started, and run if the
  -- start returned 0, with whatever parameters and answers of the parts, and whatever happens in
  -- whatever order during the run, unless something is accessed outside of an array or through NULL:
  -- every stage is one of the contract, and at most one failure is reported, with a code and a stage
  -- of the contract, behind which nothing is reported. After a failure the session keeps that code
  -- and stage as its last error.
  pub session-IsReported :
      (resources : Resources) (params : Params) (on_ready on_packet on_stage : Bool)
      → IsReported (
          run_if_started
            (session_start_ex resources params (session_create on_ready on_packet on_stage true)))
  unfolding session_create
  session-IsReported resources params on_ready on_packet on_stage =
      started-IsReported _ (session_start_ex-Begins resources params _ refl refl refl tt)
