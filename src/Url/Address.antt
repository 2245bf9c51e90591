-- ===== src/Url/Address.antt =====
-- The URL that sstp/sstp-ios.c makes of a host and a port.
use sstp_client_i_os.Base.{
  codes, ℕ, ◌≤◌, ◌≡◌, refl, ap, sym, ◌∙◌, arith, Bool, true, false, none, some, List, [], ◌∷◌, ◌++◌,
  length, ltb, ◌==◌, ◌||◌, All, All-append, if_true, append_assoc,
}
use sstp_client_i_os.Url.{cut_first, cut_last, Libc, is_port, finish, named, url_parse, cut_scheme}

abbrev Not : ℕ → ℕ → Type 0
Not c x = (x == c) ≡ false

cut_first-none : (c : ℕ) (xs : List ℕ) → All (Not c) xs → cut_first c xs ≡ none
unfolding cut_first
cut_first-none c [] all = refl
cut_first-none c (x ∷ xs) all = rw (all.0, cut_first-none c xs (all.1)) refl

cut_first-found :
    (c : ℕ) (xs ys : List ℕ) → All (Not c) xs → cut_first c (xs ++ c ∷ ys) ≡ some (xs, ys)
unfolding cut_first
cut_first-found c [] ys all = if_true (c == c) _ _ (ground arith)
cut_first-found c (x ∷ xs) ys all = rw (all.0, cut_first-found c xs ys (all.1)) refl

cut_last-none : (c : ℕ) (xs : List ℕ) → All (Not c) xs → cut_last c xs ≡ none
unfolding cut_last
cut_last-none c [] all = refl
cut_last-none c (x ∷ xs) all = rw (cut_last-none c xs (all.1), all.0) refl

cut_last-found :
    (c : ℕ) (xs ys : List ℕ) → All (Not c) ys → cut_last c (xs ++ c ∷ ys) ≡ some (xs, ys)
unfolding cut_last
cut_last-found c [] ys all = rw (cut_last-none c ys all) (if_true (c == c) _ none (ground arith))
cut_last-found c (x ∷ xs) ys all = rw (cut_last-found c xs ys all) refl

-- A character of a name: none of ":", "/", "@" and "[".
abbrev pub Plain : ℕ → Type 0
Plain x = Not b':' x × Not b'/' x × Not b'@' x × Not b'[' x

-- The port and the end of the URL.
abbrev pub port_part : List ℕ → List ℕ
port_part port = b':' ∷ (port ++ b'/' ∷ [])

no_login :
    (host port : List ℕ)
    → All Plain host
    → All Plain port
    → cut_first b'@' (host ++ port_part port) ≡ none
no_login host port h p = cut_first-none b'@' (host ++ port_part port) (
    All-append (Not b'@') host (port_part port) (no_at host h)
      (refl, All-append (Not b'@') port (b'/' ∷ []) (no_at port p) (refl, tt)))
  where
    no_at : (xs : List ℕ) → All Plain xs → All (Not b'@') xs
    no_at [] all = tt
    no_at (x ∷ xs) all = (all.0.2, no_at xs (all.1))

no_slash : (xs : List ℕ) → All Plain xs → All (Not b'/') xs
no_slash [] all = tt
no_slash (x ∷ xs) all = (all.0.1, no_slash xs (all.1))

no_colon : (xs : List ℕ) → All Plain xs → All (Not b':') xs
no_colon [] all = tt
no_colon (x ∷ xs) all = (all.0.0, no_colon xs (all.1))

page_found :
    (host port : List ℕ)
    → All Plain host
    → All Plain port
    → cut_first b'/' (host ++ port_part port) ≡ some (host ++ b':' ∷ port, [])
page_found host port h p =
    ap (cut_first b'/') (sym (append_assoc host (b':' ∷ port) (b'/' ∷ [])))
    ∙ cut_first-found b'/' (host ++ b':' ∷ port) []
        (All-append (Not b'/') host (b':' ∷ port) (no_slash host h) (refl, no_slash port p))

or_true : (b : Bool) → (b || true) ≡ true
or_true true = refl
or_true false = refl

module _ (libc : Libc) (c : ℕ) (cs port : List ℕ) where
  -- A name of at most 253 characters and a port that `is_port` takes, with none of ":", "/", "@" and
  -- "[" in them, are read back from the URL "https://name:port/", provided that the C library does
  -- not read "name:port" as an IPv6 address.
  pub url_parse_address :
      All Plain (c ∷ cs)
      → length (c ∷ cs) ≤ 253
      → All Plain port
      → is_port libc port ≡ true
      → libc.inet_pton_6 ((c ∷ cs) ++ b':' ∷ port) ≡ false
      → url_parse libc (codes "https://" ++ ((c ∷ cs) ++ port_part port))
        ≡ some record {
          schema = some (codes "https");
          user = none;
          password = none;
          host = c ∷ cs;
          port = some port;
          path = some [];
        }
  unfolding url_parse cut_scheme named finish
  url_parse_address h short p fits other =
      let bracket : (c == b'[') ≡ false = h.0.3 in
      let short' : ltb 253 (length (c ∷ cs)) ≡ false = ground arith in
      let nobody : cut_first b'@' ((c ∷ cs) ++ port_part port) ≡ none =
        no_login (c ∷ cs) port h p in
      rw
        (
          nobody,
          page_found (c ∷ cs) port h p,
          bracket,
          other,
          cut_last-found b':' (c ∷ cs) port (no_colon port p),
          short',
          fits,
        )
        (rw (nobody, or_true (libc.inet_pton_4 (c ∷ cs))) refl)
