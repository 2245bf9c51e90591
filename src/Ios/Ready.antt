-- ===== src/Ios/Ready.antt =====
-- The session of sstp/sstp-ios.c when the PPP link is up: it is ready when the crypto binding is out.
use sstp_client_i_os.Base.{
  codes, ℕ, inprog, connected, overflow, notimpl, timeout, authenticate, ◌≤◌, ◌≡◌, refl, ap, sym,
  ◌∙◌, arith, bit_or, true, false, some, List, ◌∷◌, length, Status, okay, fail, is, if◌then◌else◌,
  not, Bool-cases, inl, inr, if_true, if_false,
}
use sstp_client_i_os.Buff.{Buff}
use sstp_client_i_os.Cmac.{Cmac, cmac_init}
use sstp_client_i_os.Buff.Laws.{contents}
use sstp_client_i_os.Packet.Format.{encode}
use sstp_client_i_os.State.{Ctx, Action, sent, mode_client, st_established}
use sstp_client_i_os.State.Calls.{hash_type, state_accept}
use sstp_client_i_os.State.Sending.{IsReady}
use sstp_client_i_os.State.Binding.{connected_message}
use sstp_client_i_os.State.Accept.{announced, mac_of, padded, state_accept_binds}
use sstp_client_i_os.State.Reason.{state_reason}
use sstp_client_i_os.Ppp.{Peer, ppp_up}
use sstp_client_i_os.Ppp.Entry.{get_ipv4}
use sstp_client_i_os.Ios.{
  Session, Flow, escaped, returned, ◌>=>◌, because, said, readied, report, set_stage, note_failure,
  fail_ex,
}
use sstp_client_i_os.Ios.Errors.{
  stage_applying_settings, stage_ppp_ipcp, stage_sstp_control, err_sstp_control, err_crypto_binding,
}
use sstp_client_i_os.Ios.Link.{
  Parts, with_pppd, with_state, aborts, call_aborted, land, run_machine, told_ready, after_accept,
  pppd_cb,
}

module _ {Rc4 : Type 0} (parts : Parts Rc4) (s : Session Rc4) (ctx : Ctx) (p : Peer Rc4)
    (cmac : Cmac) (hash : List ℕ) where
  -- The machine behind the call, by what the stream said.
  abbrev pub bound : Status → Buff → List ℕ → Ctx
  bound status tx packet = record ctx {
    state = bit_or ctx.state st_established;
    tx_buf = tx;
    trace = announced status (sent packet ∷ ctx.trace);
  }

  abbrev pub moved : Ctx → Session Rc4
  moved c = record (set_stage stage_ppp_ipcp s) { state = some c }

  -- The session that is ready, with what the application is told.
  abbrev pub readied_at : Session Rc4 → Session Rc4
  readied_at m =
      let shown = set_stage stage_applying_settings (record m { ready = true }) in
      report shown.on_ready (readied (get_ipv4 p)) shown

  -- What SSTP_PPP_UP comes to, by the result of the send.
  unfoldable pub outcome : Status → Ctx → Flow (Session Rc4)
  outcome status c =
      if is okay status
      then returned okay (readied_at (moved c))
      else escaped (
          note_failure err_sstp_control stage_sstp_control (some (because (state_reason c)))
            (moved c))

  accepted :
      (c : Ctx) (status : Status)
      → s.pppd ≡ some p
      → aborts ctx.trace c.trace ≡ false
      → is fail status ≡ false
      → (land (set_stage stage_ppp_ipcp s) ctx.trace (some (status, c)) >=> after_accept)
        ≡ returned okay (readied_at (moved c))
  unfolding land after_accept with_pppd set_stage told_ready
  accepted c status has_pppd e f =
      let m : Session Rc4 = moved c in
      let told = λ (p : Peer Rc4). returned okay (told_ready m p) in
      let refuse =
        fail_ex err_crypto_binding stage_sstp_control
          (some (said (codes "SSTP crypto binding failed"))) m in
      ap
        (λ b.
          (if b then (call_aborted m >=> λ ret s. returned status s) else returned status m)
          >=> after_accept)
        e
      ∙ ap (λ b. if b then refuse else with_pppd m told m.pppd) f
      ∙ ap (with_pppd m told) has_pppd

  aborted :
      (c : Ctx) (status : Status)
      → s.escape_set ≡ true
      → aborts ctx.trace c.trace ≡ true
      → (land (set_stage stage_ppp_ipcp s) ctx.trace (some (status, c)) >=> after_accept)
        ≡ escaped (
            note_failure err_sstp_control stage_sstp_control
              (some (because (state_reason c)))
              (moved c))
  unfolding land call_aborted with_state fail_ex set_stage
  aborted c status runs e =
      let m : Session Rc4 = moved c in
      let noted : Session Rc4 =
        note_failure err_sstp_control stage_sstp_control (some (because (state_reason c))) m in
      ap
        (λ b.
          (if b then (call_aborted m >=> λ ret s. returned status s) else returned status m)
          >=> after_accept)
        e
      ∙ ap
          (λ b.
            (if b then escaped noted else returned okay noted)
            >=> (λ ret s. returned status s)
            >=> after_accept)
          runs

  announced-aborts :
      (status : Status) (what : Action)
      → aborts ctx.trace (announced status (what ∷ ctx.trace)) ≡ not (is okay status)
  announced-aborts okay what = ground arith
  announced-aborts fail what = ground arith
  announced-aborts inprog what = ground arith
  announced-aborts connected what = ground arith
  announced-aborts overflow what = ground arith
  announced-aborts notimpl what = ground arith
  announced-aborts timeout what = ground arith
  announced-aborts authenticate what = ground arith

  okay_only : (status : Status) → is okay status ≡ true → is fail status ≡ false
  okay_only okay e = refl
  okay_only fail e = absurd (ground arith)
  okay_only inprog e = refl
  okay_only connected e = refl
  okay_only overflow e = refl
  okay_only notimpl e = refl
  okay_only timeout e = refl
  okay_only authenticate e = refl

  land_lem :
      (status : Status) (tx : Buff) (packet : List ℕ)
      → s.pppd ≡ some p
      → s.escape_set ≡ true
      → (land (set_stage stage_ppp_ipcp s) ctx.trace (some (status, bound status tx packet))
          >=> after_accept)
        ≡ outcome status (bound status tx packet)
  unfolding outcome
  land_lem status tx packet has_pppd runs = elim (Bool-cases (is okay status)) [
    | inl e ↦
        accepted (bound status tx packet) status has_pppd
          (announced-aborts status (sent packet) ∙ ap not e) (okay_only status e)
        ∙ sym (if_true _ _ _ e)
    | inr e ↦
        aborted (bound status tx packet) status runs
          (announced-aborts status (sent packet) ∙ ap not e)
        ∙ sym (if_false _ _ _ e)
  ]

  -- When the PPP link is up, for a state machine of a client that can make its crypto binding (with
  -- the hash of the certificate, a nonce of 32 bytes, memory for the context of the MAC, and a MAC
  -- of 32 bytes at most), in the loop of events: one packet is sent, the crypto binding of the call.
  -- The session is ready, and the application is told the addresses, if the stream has sent it at
  -- once. Otherwise, also while the send is still pending, the session fails with "sstp_control",
  -- and is not told that it is ready.
  pub up_binds :
      IsReady ctx.tx_buf
      → ctx.mode ≡ mode_client
      → parts.env.cert_hash ctx.proto ≡ (okay, hash)
      → length ctx.nounce ≡ 32
      → length hash ≡ 32
      → (cmac_init (parts.env.memory ctx.trace) (hash_type parts.env ctx.proto)).1 ≡ some cmac
      → length (mac_of parts.env ctx cmac hash) ≤ 32
      → s.state ≡ some ctx
      → s.pppd ≡ some p
      → s.escape_set ≡ true
      → (status : Status) × (packet : Buff) × (tx : Buff) × (pppd_cb parts ppp_up s
          ≡ outcome status (bound status tx (contents packet)))
        × (status ≡ (parts.env.send ctx.trace packet).0)
        × (contents packet
            ≡ encode (
                connected_message
                  (hash_type parts.env ctx.proto)
                  ctx.nounce
                  hash
                  (padded (mac_of parts.env ctx cmac hash))))
  unfolding pppd_cb run_machine with_state set_stage
  up_binds r client cert size_n size_h memory size_m has_state has_pppd runs =
      let (status, packet, tx, done, text, same, r') =
        state_accept_binds parts.env ctx cmac hash r client cert size_n size_h memory size_m in
      let shown : Session Rc4 = set_stage stage_ppp_ipcp s in
      let go = λ (c : Ctx). land shown c.trace (state_accept parts.env c) in
      (
        status,
        packet,
        tx,
        ap (λ o. with_state shown go o >=> after_accept) has_state
            ∙ ap (λ step. land shown ctx.trace step >=> after_accept) done
            ∙ land_lem status tx (contents packet) has_pppd runs,
        same,
        text,
      )
