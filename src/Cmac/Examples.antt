-- ===== src/Cmac/Examples.antt =====
-- sstp/sstp-cmac.c at concrete keys, with a function that only shows its arguments for the HMAC.
use sstp_client_i_os.Base.{◌≡◌, refl, Bool, true, some, List, [], ◌∷◌, ◌++◌, inl, ℕ, replicate}
use sstp_client_i_os.Cmac.{Cmac, cmac_result, hash_sha256}
use sstp_client_i_os.Cmac.Laws.{client, compound_mac, hlak, cmac_result-compound}

abbrev shown : Bool → List ℕ → List ℕ → List ℕ
shown sha256 key message = key ++ message

cmac_result-compound_example :
    (ctx : Cmac) × (client hash_sha256 (replicate 16 1) (replicate 16 2) ≡ some ctx)
    × (cmac_result shown ctx (7 ∷ [])
        ≡ compound_mac shown true (hlak (replicate 16 1) (replicate 16 2)) (7 ∷ []))
cmac_result-compound_example =
    cmac_result-compound shown true (replicate 16 1) (replicate 16 2) (7 ∷ []) refl (inl refl)
