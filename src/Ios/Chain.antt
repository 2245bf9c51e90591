-- ===== src/Ios/Chain.antt =====
-- The certificates that the session of sstp/sstp-ios.c shows to iOS.
use sstp_client_i_os.Base.{ℕ, ◌≡◌, Option, none, some, List, [], ◌∷◌, if◌then◌else◌}
use sstp_client_i_os.Ios.Trust.{Trust}

module _ {Cert : Type 0} (trust : Trust Cert) (bytes_of : Cert → List ℕ)
    (encodes : (cert : Cert) → trust.der cert ≡ some (bytes_of cert)) where
  -- The certificates of a chain that are there and are not the leaf.
  unfoldable pub others : Cert → List (Option Cert) → List Cert
  others leaf [] = []
  others leaf (none ∷ rest) = others leaf rest
  others leaf (some cert ∷ rest) =
      let more = others leaf rest in if trust.same cert leaf then more else cert ∷ more
