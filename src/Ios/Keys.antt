-- ===== src/Ios/Keys.antt =====
-- The keys that the session of sstp/sstp-ios.c derives when the peer has answered a challenge.
use sstp_client_i_os.Base.{
  ℕ, ◌≤◌, ◌≡◌, ap, ap₂, ◌∙◌, true, false, some, List, ◌++◌, length, drop, okay,
}
use sstp_client_i_os.State.{Ctx, mppe_keys}
use sstp_client_i_os.Mschap.{magic2, magic3, chap_mppe_get}
use sstp_client_i_os.Mschap.Keys.{master_key, start_key, chap_mppe_get_client, take_again}
use sstp_client_i_os.Ppp.{Peer, set_mppe_keys, ppp_auth}
use sstp_client_i_os.Ios.{Session, returned, set_stage}
use sstp_client_i_os.Ios.Errors.{stage_ppp_auth, stage_ppp_mppe}
use sstp_client_i_os.Ios.Link.{Parts, with_pppd, with_state, after_mppe_get, pppd_cb}

module _ {Rc4 : Type 0} (parts : Parts Rc4) (s : Session Rc4) (ctx : Ctx) (p : Peer Rc4) where
  -- The keys of RFC 3079 for what the client sends, and for what the server sends.
  abbrev pub send_key : List ℕ
  send_key =
      start_key parts.world.md4 parts.world.sha1 magic2
        (master_key parts.world.md4 parts.world.sha1 s.password p.chap.nt_response)

  abbrev pub recv_key : List ℕ
  recv_key =
      start_key parts.world.md4 parts.world.sha1 magic3
        (master_key parts.world.md4 parts.world.sha1 s.password p.chap.nt_response)

  -- The session behind SSTP_PPP_AUTH, with these first 16 bytes of the keys of the state machine.
  abbrev pub keyed_with : List ℕ → List ℕ → Session Rc4
  keyed_with skey rkey = record (set_stage stage_ppp_mppe (set_stage stage_ppp_auth s)) {
    state = some (record ctx {
      mppe_send_key = skey ++ drop 16 ctx.mppe_send_key;
      mppe_recv_key = rkey ++ drop 16 ctx.mppe_recv_key;
      mppe_key_len = 16;
    });
    pppd = some (record p {
      mppe = record (p.mppe) {
        send_half = record (p.mppe.send_half) { master = send_key };
        recv_half = record (p.mppe.recv_half) { master = recv_key };
        keys_set = true;
      };
    });
  }

  -- When the peer has answered a challenge with 24 bytes, for a password of 255 characters at most,
  -- the state machine and the peer get the same keys: those of RFC 3079 for what the client sends,
  -- and for what the server sends. The stages that are reported are those of PPP authentication and
  -- of MPPE.
  pub auth_keys :
      s.state ≡ some ctx
      → s.pppd ≡ some p
      → length s.password ≤ 255
      → length p.chap.nt_response ≡ 24
      → pppd_cb parts ppp_auth s ≡ returned okay (keyed_with send_key recv_key)
  unfolding pppd_cb with_pppd after_mppe_get with_state set_stage mppe_keys
  auth_keys has_state has_pppd short size =
      let shown : Session Rc4 = set_stage stage_ppp_auth s in
      let md4 = parts.world.md4 in
      let sha1 = parts.world.sha1 in
      let derive = λ (q : Peer Rc4).
        after_mppe_get parts q (chap_mppe_get md4 sha1 q.chap.nt_response s.password false) shown in
      let keep = λ (c : Ctx). returned okay (record (set_stage stage_ppp_mppe shown) {
        state = some ((mppe_keys c send_key recv_key 16).1);
        pppd = some (set_mppe_keys parts.world p (some (send_key, recv_key)));
      }) in
      ap (with_pppd s derive) has_pppd
      ∙ ap (λ k. after_mppe_get parts p k shown)
          (chap_mppe_get_client md4 sha1 s.password p.chap.nt_response short size)
      ∙ ap (with_state (set_stage stage_ppp_mppe shown) keep) has_state
      ∙ ap₂ (λ a b. returned okay (keyed_with a b)) (take_again _) (take_again _)
