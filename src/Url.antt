-- ===== src/Url.antt =====
-- sstp/sstp-util.c: `sstp_url_parse`, which takes a URL apart. A string is the list of its
-- characters; `inet_pton` and `strtol` of the C library are parameters.
pub mod Address
pub mod Examples
use sstp_client_i_os.Base.{
  ℕ, ◌%◌, ◌^◌, Bool, true, false, ◌&&◌, ◌||◌, not, Option, none, some, List, [], ◌∷◌, length, drop,
  if◌then◌else◌, ltb, leb, ◌==◌, ◌>>=◌,
}

-- A string cut in two.
abbrev pub Cut : Type 0
Cut = Option (List ℕ × List ℕ)

abbrev pub push : ℕ → Cut → Cut
push c none = none
push c (some (front, back)) = some (c ∷ front, back)

-- `strchr`: what stands before the first `c`, and behind it.
unfoldable pub cut_first : ℕ → List ℕ → Cut
cut_first c [] = none
cut_first c (x ∷ xs) = let more = push x (cut_first c xs) in if x == c then some ([], xs) else more

abbrev pub or_here : ℕ → ℕ → List ℕ → Cut → Cut
or_here c x xs (some (front, back)) = some (x ∷ front, back)
or_here c x xs none = if x == c then some ([], xs) else none

-- `strrchr`: what stands before the last `c`, and behind it.
unfoldable pub cut_last : ℕ → List ℕ → Cut
cut_last c [] = none
cut_last c (x ∷ xs) = or_here c x xs (cut_last c xs)

abbrev starts_scheme : List ℕ → Bool
starts_scheme (a ∷ b ∷ c ∷ rest) = (a == b':') && ((b == b'/') && (c == b'/'))
starts_scheme _ = false

-- `strstr` of "://".
unfoldable pub cut_scheme : List ℕ → Cut
cut_scheme [] = none
cut_scheme (x ∷ xs) =
    let more = push x (cut_scheme xs) in
    if starts_scheme (x ∷ xs) then some ([], drop 2 xs) else more

-- An optional part before a string.
abbrev pub front_of : Cut → Option (List ℕ)
front_of none = none
front_of (some (front, back)) = some front

abbrev pub behind : List ℕ → Cut → List ℕ
behind whole none = whole
behind whole (some (front, back)) = back

-- An optional part behind a string.
abbrev pub before : List ℕ → Cut → List ℕ
before whole none = whole
before whole (some (front, back)) = front

abbrev pub back_of : Cut → Option (List ℕ)
back_of none = none
back_of (some (front, back)) = some back

-- `sstp_url_st`
pub record Url : Type 0 where
  pub schema : Option (List ℕ)
  pub user : Option (List ℕ)
  pub password : Option (List ℕ)
  pub host : List ℕ
  pub port : Option (List ℕ)
  pub path : Option (List ℕ)

-- The C library: whether `inet_pton` reads an address of the family, and the pattern of the 64 bits
-- that `strtol` gives, with `none` for ERANGE.
pub record Libc : Type 0 where
  pub inet_pton_6 : List ℕ → Bool
  pub inet_pton_4 : List ℕ → Bool
  pub strtol : List ℕ → Option ℕ

abbrev pub is_hostname : List ℕ → Bool
is_hostname str = not (ltb 253 (length str))

abbrev tail : List ℕ → List ℕ
tail [] = []
tail (c ∷ cs) = cs

abbrev starts_with : ℕ → List ℕ → Bool
starts_with c [] = false
starts_with c (x ∷ xs) = x == c

module _ (libc : Libc) where
  abbrev port_number : Option ℕ → Bool
  port_number none = false
  port_number (some long) = not (long % 2 ^ 32 == 0) && ltb (long % 2 ^ 32) 65536

  -- `is_port`; the long is cut to an int.
  unfoldable pub is_port : List ℕ → Bool
  is_port str = port_number (libc.strtol str)

  abbrev port_fits : Option (List ℕ) → Bool
  port_fits none = true
  port_fits (some port) = is_port port

  -- The end of `sstp_url_parse`: the port is checked, and there is one if there is no protocol.
  unfoldable pub finish : Url → Option Url
  finish url =
      let standard = elim url.schema as (λ o. Option (List ℕ)) [
        | none ↦ some (b'4' ∷ b'4' ∷ b'3' ∷ [])
        | some name ↦ none
      ] in
      let port = elim url.port as (λ o. Option (List ℕ)) [ none ↦ standard | some p ↦ some p ] in
      if port_fits url.port then some (record url { port = port }) else none

  -- An IPv6 address in brackets, cut at the closing one.
  unfoldable pub bracketed : Url → Cut → Option Url
  bracketed url none = none
  bracketed url (some (front, back)) =
      let host = tail front in
      let port : Option (List ℕ) = if starts_with b':' back then some (tail back) else none in
      if libc.inet_pton_6 host then finish (record url { host = host; port = port }) else none

  -- Another host, with what `strrchr` finds of a port.
  unfoldable pub named : Url → Cut → Option Url
  named url cut =
      let host = before url.host cut in
      if libc.inet_pton_4 host || is_hostname host
      then finish (record url { host = host; port = back_of cut })
      else none

  -- `sstp_url_parse` with memory at hand; `none` is SSTP_FAIL.
  unfoldable pub url_parse : List ℕ → Option Url
  url_parse text =
      let scheme = cut_scheme text in
      let rest = behind text scheme in
      let login = cut_first b'@' rest in
      let place = behind rest login in
      let names = front_of login >>= cut_first b':' in
      let page = cut_first b'/' place in
      let host = before place page in
      let url : Url = record {
        schema = front_of scheme;
        user = elim names as (λ o. Option (List ℕ)) [
          | none ↦ front_of login
          | some (user, password) ↦ some user
        ];
        password = back_of names;
        host = host;
        port = none;
        path = back_of page;
      } in
      if starts_with b'[' host
      then bracketed url (cut_first b']' host)
      else if libc.inet_pton_6 host
      then finish url
      else named url (cut_last b':' host)
