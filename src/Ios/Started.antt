-- ===== src/Ios/Started.antt =====
-- How `sstp_ios_session_start_ex` of sstp/sstp-ios.c ends, and the run that follows it.
use sstp_client_i_os.Base.{
  codes, ℕ, ◌≡◌, refl, Bool, true, false, Option, none, some, List, Status, okay, fail, take,
  if◌then◌else◌, not, All, ◌⊎◌, inl, inr, arith, if_both, if_true,
}
use sstp_client_i_os.Ios.{
  Report, staged, Session, Flow, fault, escaped, returned, ◌>=>◌, set_stage, note_failure, fail_ex,
  fail_stage, code_or_internal, said,
}
use sstp_client_i_os.Ios.Errors.{
  error_code_valid, stage_valid, err_internal, err_tls_handshake, err_dns_resolve, err_tcp_timeout,
  stage_idle, stage_tcp_tls, stage_resolving,
}
use sstp_client_i_os.Ios.Contract.{Progress, Failed, IsFailed, add-progress}
use sstp_client_i_os.Ios.Start.{
  Params, Resources, reset, fill, give_up, start_stream, resolve, secure, prepare, start_at, begun,
  session_start_ex,
}

-- What a session outside of the loop has that has not failed.
pub record Quiet (escape_set on_fail failed : Bool) (reports : List Report) : Type 0 where
  pub outside : escape_set ≡ false
  pub listens : on_fail ≡ true
  pub whole : failed ≡ false
  pub progress : All Progress reports

module _ {Rc4 : Type 0} where
  abbrev pub IsQuiet : Session Rc4 → Type 0
  IsQuiet s = Quiet s.escape_set s.on_fail s.failed s.reports

  -- The session behind a return: of 0 without a failure, of -1 with at most one failure, which is its
  -- last report.
  unfoldable pub Begun : Status → Session Rc4 → Type 0
  Begun okay s = IsQuiet s
  Begun status s = (s.escape_set ≡ false) × (IsFailed s ⊎ IsQuiet s)

  unfoldable pub Begins : Flow (Session Rc4) → Type 0
  Begins fault = ⊥
  Begins (escaped s) = ⊥
  Begins (returned status s) = Begun status s

  if-Begins :
      (b : Bool) (x y : Flow (Session Rc4)) → Begins x → Begins y → Begins (if b then x else y)
  if-Begins b x y hx hy = if_both Begins b x y hx hy

  set_stage-IsQuiet :
      (name : List ℕ) (s : Session Rc4)
      → stage_valid (some (take 63 name)) ≡ true
      → IsQuiet s
      → IsQuiet (set_stage name s)
  unfolding set_stage
  set_stage-IsQuiet name s known q = record {
    outside = q.outside;
    listens = q.listens;
    whole = q.whole;
    progress = add-progress s.on_stage (staged (take 63 name)) s.reports known q.progress;
  }

  okay-Begins : (s : Session Rc4) → IsQuiet s → Begins (returned okay s)
  unfolding Begins Begun
  okay-Begins s q = q

  fail-Begins : (s : Session Rc4) → IsQuiet s → Begins (returned fail s)
  unfolding Begins Begun
  fail-Begins s q = (q.outside, inr q)

  -- Outside of the loop a failure does not leave the function.
  stays :
      (b : Bool) (s : Session Rc4)
      → b ≡ false
      → Begun fail s
      → Begins ((if b then escaped s else returned okay s) >=> λ ret s. returned fail s)
  unfolding Begins
  stays true s e h = absurd (ground arith)
  stays false s e h = h

  give_up-Begins :
      (code name msg : List ℕ) (s : Session Rc4)
      → error_code_valid (some (take 63 (code_or_internal code))) ≡ true
      → stage_valid (some (fail_stage name s.stage)) ≡ true
      → IsQuiet s
      → Begins (give_up code name msg s)
  unfolding give_up fail_ex note_failure Begins Begun
  give_up-Begins code name msg s known known' q =
      let failed : Failed true (take 63 (code_or_internal code)) (fail_stage name s.stage)
          (note_failure code name (some (said msg)) s).reports =
        record {
          msg = said msg;
          older = s.reports;
          last = if_true s.on_fail _ s.reports q.listens;
          code_known = known;
          stage_known = known';
          before = q.progress;
          noted = refl;
        } in
      stays s.escape_set (note_failure code name (some (said msg)) s) q.outside
        (q.outside, inl failed)

module _ {Rc4 : Type 0} (resources : Resources) where
  start_stream-Begins : (s : Session Rc4) → IsQuiet s → Begins (start_stream resources s)
  unfolding start_stream error_code_valid stage_valid
  start_stream-Begins s q =
      if-Begins _ _ _
        (if-Begins _ _ _ (okay-Begins s q)
          (give_up-Begins err_tcp_timeout stage_tcp_tls _ s refl refl q))
        (give_up-Begins err_tls_handshake stage_tcp_tls _ s refl refl q)

  resolve-Begins :
      (host port : List ℕ) (s : Session Rc4) → IsQuiet s → Begins (resolve resources host port s)
  unfolding resolve error_code_valid stage_valid
  resolve-Begins host port s q =
      if-Begins _ _ _ (start_stream-Begins _ (set_stage-IsQuiet stage_tcp_tls s refl q))
        (give_up-Begins err_dns_resolve stage_resolving _ s refl refl q)

  secure-Begins :
      (ca_pem host port : List ℕ) (s : Session Rc4)
      → IsQuiet s
      → Begins (secure resources ca_pem host port s)
  unfolding secure error_code_valid stage_valid
  secure-Begins ca_pem host port s q =
      if-Begins _ _ _ (resolve-Begins host port _ (set_stage-IsQuiet stage_resolving s refl q))
        (give_up-Begins err_tls_handshake stage_tcp_tls _ s refl refl q)

  prepare-Begins :
      (ca_pem host port : List ℕ) (s : Session Rc4)
      → IsQuiet s
      → Begins (prepare resources ca_pem host port s)
  unfolding prepare error_code_valid stage_valid
  prepare-Begins ca_pem host port s q =
      let s' : Session Rc4 = record s { ev_base = true } in
      let give = λ (t : Session Rc4) (msg : List ℕ) (q : IsQuiet t).
        give_up-Begins err_internal stage_idle msg t refl refl q in
      if-Begins (not resources.event_base) _ _ (give s (codes "Could not create event base") q) (
        if-Begins (not resources.inject_pair) _ _ (give s' (codes "Could not create inject pipe") q)
          (if-Begins (not resources.stop_pair) _ _ (give s' (codes "Could not create stop pipe") q)
            (if-Begins (not resources.events) _ _
              (give s' (codes "Could not create inject/stop events") q)
              (secure-Begins ca_pem host port s' q))))

  start_at-Begins :
      (params : Params) (o : Option (List ℕ × List ℕ)) (s : Session Rc4)
      → IsQuiet s
      → Begins (start_at resources params o s)
  unfolding start_at
  start_at-Begins params none s q = fail-Begins s q
  start_at-Begins params (some (host, port)) s q = prepare-Begins params.ca_pem host port s q

  begun-Begins :
      (params : Params) (s : Session Rc4) (o : Option (List ℕ × List ℕ × List ℕ))
      → IsQuiet s
      → Begins (begun resources params s o)
  unfolding begun reset fill
  begun-Begins params s none q = fail-Begins s q
  begun-Begins params s (some (server, username, password)) q =
      let q' : IsQuiet (reset params s) = record {
        outside = q.outside;
        listens = q.listens;
        whole = refl;
        progress = q.progress;
      } in
      if-Begins _ _ _ (fail-Begins (reset params s) q')
        (start_at-Begins params _ (fill params username password (reset params s)) q')

  -- `sstp_ios_session_start_ex`, for a session whose reports tell of progress only, returns and
  -- accesses nothing outside of an array, whatever the parts answer: with 0 if no failure was
  -- reported; or with -1 and at most one failure, the last report, with a code and a stage of the
  -- contract. All stages that it reports are of the contract.
  pub session_start_ex-Begins :
      (params : Params) (s : Session Rc4)
      → s.escape_set ≡ false
      → s.on_fail ≡ true
      → s.failed ≡ false
      → All Progress s.reports
      → Begins (session_start_ex resources params s)
  unfolding session_start_ex
  session_start_ex-Begins params s outside listens whole progress =
      begun-Begins params s _
        record { outside = outside; listens = listens; whole = whole; progress = progress }
