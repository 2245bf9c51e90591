-- ===== src/Url/Examples.antt =====
-- URLs of sstp/sstp-util.c.
use sstp_client_i_os.Base.{codes, ◌≡◌, refl, arith, false, true, none, some, [], ◌++◌}
use sstp_client_i_os.Url.{
  Url, Libc, cut_first, cut_last, cut_scheme, named, finish, is_port, url_parse,
}
use sstp_client_i_os.Url.Address.{port_part, url_parse_address}

-- A C library that knows no addresses, and reads every port as 8443.
abbrev libc : Libc
libc = record {
  inet_pton_6 = λ text. false;
  inet_pton_4 = λ text. false;
  strtol = λ text. some 8443;
}

abbrev parsed : Url
parsed = record {
  schema = some (codes "https");
  user = none;
  password = none;
  host = codes "vpn.ex";
  port = some (codes "8443");
  path = some [];
}

url_parse_address_example :
    url_parse libc (codes "https://" ++ (codes "vpn.ex" ++ port_part (codes "8443"))) ≡ some parsed
unfolding is_port
url_parse_address_example =
    url_parse_address libc b'v' (codes "pn.ex") (codes "8443")
      (
        (refl, refl, refl, refl),
        (
          (refl, refl, refl, refl),
          (
            (refl, refl, refl, refl),
            ((refl, refl, refl, refl), ((refl, refl, refl, refl), ((refl, refl, refl, refl), tt))),
          ),
        ),
      )
      (omega arith)
      (
        (refl, refl, refl, refl),
        ((refl, refl, refl, refl), ((refl, refl, refl, refl), ((refl, refl, refl, refl), tt))),
      )
      refl refl

-- A user, a password and a path.
full_url :
    url_parse libc (codes "sstp://me:pw@vpn/a")
    ≡ some record {
      schema = some (codes "sstp");
      user = some (codes "me");
      password = some (codes "pw");
      host = codes "vpn";
      port = none;
      path = some (codes "a");
    }
unfolding url_parse cut_scheme cut_first cut_last named finish
full_url = refl

-- A "@" in the path makes the host a user.
at_in_path :
    url_parse libc (codes "https://vpn/a@b")
    ≡ some record {
      schema = some (codes "https");
      user = some (codes "vpn/a");
      password = none;
      host = codes "b";
      port = none;
      path = none;
    }
unfolding url_parse cut_scheme cut_first cut_last named finish
at_in_path = refl

-- The number 4294967739 is cut to 443, which is a port.
wide_port : is_port (record libc { strtol = λ text. some 4294967739 }) (codes "4294967739") ≡ true
unfolding is_port
wide_port = refl
