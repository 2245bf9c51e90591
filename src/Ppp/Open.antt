-- ===== src/Ppp/Open.antt =====
-- What it takes to bring up the link of sstp/ios-pppd.c.
use sstp_client_i_os.Base.{ℕ, ◌^◌, ◌<◌, ◌≡◌, refl, ap, ◌∙◌, arith, true, false, Option, none, some}
use sstp_client_i_os.Base.{not, ◌||◌, if_true, if_false, List, ◌∷◌, ◌++◌, okay, be16, ◌==◌, ◌>>=◌}
use sstp_client_i_os.Ppp.{World, Peer, notified, ppp_up, set_mppe_keys, notify}
use sstp_client_i_os.Ppp.Requests.{maybe_notify_up, ccp_finished, ipcp_options, is_set}
use sstp_client_i_os.Ppp.Handlers.{configured}
use sstp_client_i_os.Ppp.Entry.{pppd_send}
use sstp_client_i_os.Ppp.Address.{local_option-ipcp_options}

-- A CCP packet that rejects the request, and an IPCP packet that acknowledges addresses.
abbrev pub reject : ℕ → List ℕ
reject id = 0xff ∷ 0x03 ∷ 0x80 ∷ 0xfd ∷ 4 ∷ id ∷ be16 4

abbrev pub acknowledge : ℕ → List ℕ → List ℕ
acknowledge id options = 0xff ∷ 0x03 ∷ 0x80 ∷ 0x21 ∷ 2 ∷ id ∷ (be16 22 ++ options)

module _ {Rc4 : Type 0} (world : World Rc4) where
  -- What `notify` does not change.
  notified_lem :
      (p : Peer Rc4) (keys : Option (List ℕ × List ℕ))
      → ((set_mppe_keys world p keys).trace ≡ p.trace)
        × ((set_mppe_keys world p keys).auth_done ≡ p.auth_done)
        × ((set_mppe_keys world p keys).mppe.enabled ≡ p.mppe.enabled)
  notified_lem p none = (refl, refl, refl)
  notified_lem p (some (skey, rkey)) = (refl, refl, refl)

  -- The state behind the rejection.
  abbrev plain : Peer Rc4 → Peer Rc4
  plain p = record p { mppe = record (p.mppe) { enabled = false }; ccp_done = true }

  -- `maybe_notify_up` where it reports.
  maybe_up :
      (p : Peer Rc4)
      → p.has_notify ≡ true
      → p.up_notified ≡ false
      → p.ip_configured ≡ true
      → (p.local_ip == 0) ≡ false
      → p.ccp_done ≡ true
      → maybe_notify_up world p
        ≡ set_mppe_keys world
            (record p { up_notified = true; trace = notified ppp_up ∷ p.trace })
            (world.notify p.trace ppp_up)
  unfolding maybe_notify_up notify
  maybe_up p told never ip address ccp =
      if_false p.up_notified _ _ never
      ∙ if_false (not p.ip_configured || p.local_ip == 0) _ _ (ground (arith, ip, address))
      ∙ if_true p.ccp_done _ _ ccp
      ∙ if_true p.has_notify _ _ told

  module _ (p : Peer Rc4) (told : p.has_notify ≡ true) (never : p.up_notified ≡ false)
      (no_ip : p.ip_configured ≡ false) (no_ccp : p.ccp_done ≡ false)
      (no_auth : p.auth_done ≡ false) where
    rejected : (id : ℕ) → pppd_send world p (reject id) ≡ some (okay, plain p)
    unfolding pppd_send ccp_finished maybe_notify_up
    rejected id =
        ap (λ (o : Option (Peer Rc4)). o >>= λ q. some (okay, q))
          (if_false p.ccp_done _ _ no_ccp
            ∙ if_false p.auth_done _ _ no_auth
            ∙ ap some (
                if_false p.up_notified _ _ never
                ∙ if_true (not p.ip_configured || p.local_ip == 0) _ _ (ground (arith, no_ip))))

    -- The state behind the acknowledgement, up to what `notify` does.
    abbrev addressed : ℕ → ℕ → ℕ → Peer Rc4
    addressed addr d1 d2 = record (plain p) {
      local_ip = addr;
      dns1 = d1;
      dns2 = d2;
      ip_configured = true;
    }

    abbrev up : ℕ → ℕ → ℕ → Peer Rc4
    up addr d1 d2 =
        set_mppe_keys world
          (record (addressed addr d1 d2) { up_notified = true; trace = notified ppp_up ∷ p.trace })
          (world.notify p.trace ppp_up)

    accepted :
        (id addr d1 d2 : ℕ)
        → 0 < addr
        → addr < 2 ^ 32
        → d1 < 2 ^ 32
        → d2 < 2 ^ 32
        → pppd_send world (plain p) (acknowledge id (ipcp_options addr d1 d2))
          ≡ some (okay, up addr d1 d2)
    unfolding pppd_send configured
    accepted id addr d1 d2 h0 h h1 h2 =
        let address : (addr == 0) ≡ false = ground arith in
        ap (λ (t : Peer Rc4). some (okay, configured world t))
          (local_option-ipcp_options (plain p) 2 id addr d1 d2 h h1 h2)
        ∙ ap (λ (t : Peer Rc4). some (okay, t))
            (if_true (is_set addr) _ _ (ap not address)
              ∙ maybe_up (addressed addr d1 d2) told never refl address refl)

    -- Before anything was done about authentication, two packets from the server bring the link up: a
    -- CCP packet that rejects the request, and an IPCP packet that acknowledges an address. The layer
    -- above is told that the link is up, though no authentication took place, and MPPE is off.
    pub pppd_send_unauthenticated :
        (id id' addr d1 d2 : ℕ)
        → 0 < addr
        → addr < 2 ^ 32
        → d1 < 2 ^ 32
        → d2 < 2 ^ 32
        → (q : Peer Rc4) × (r : Peer Rc4) × (pppd_send world p (reject id) ≡ some (okay, q))
          × (pppd_send world q (acknowledge id' (ipcp_options addr d1 d2)) ≡ some (okay, r))
          × (r.trace ≡ notified ppp_up ∷ p.trace)
          × (r.auth_done ≡ false)
          × (r.mppe.enabled ≡ false)
    pppd_send_unauthenticated id id' addr d1 d2 h0 h h1 h2 =
        let (trace, auth, mppe) =
          notified_lem
            (record (addressed addr d1 d2) {
              up_notified = true;
              trace = notified ppp_up ∷ p.trace;
            })
            (world.notify p.trace ppp_up) in
        (
          plain p,
          up addr d1 d2,
          rejected id,
          accepted id' addr d1 d2 h0 h h1 h2,
          trace,
          auth ∙ no_auth,
          mppe,
        )
