-- ===== src/Packet/Examples.antt =====
-- sstp/sstp-packet.c at concrete inputs.
use sstp_client_i_os.Base.{
  ◌≡◌, refl, arith, some, none, [], ◌∷◌, ◌++◌, ℕ, okay, replicate, read_bytes,
}
use sstp_client_i_os.Buff.{Buff}
use sstp_client_i_os.Buff.Laws.{IsValid}
use sstp_client_i_os.Packet.{pkt_attr, pkt_parse, attr_len, attr_data}
use sstp_client_i_os.Packet.{
  parse_loop, msg_connect_req, msg_connect_ack, attr_encap_proto, attr_status_info, Parsed,
}
use sstp_client_i_os.Packet.Format.{
  Attr, Message, Holds, encode, encode_attr, encode_attrs, with_attr,
}
use sstp_client_i_os.Packet.Build.{pkt_attr-Holds}
use sstp_client_i_os.Packet.Parse.{pkt_parse-Holds, only}

abbrev blank : ℕ → Buff
blank n = record { len = 0; max = n; off = 0; bytes = replicate n 0 }

blank-IsValid : IsValid (blank 24)
blank-IsValid = record { sized = refl; within = omega arith; int = omega arith }

-- The connect request before and with its attribute.
abbrev bare_request : Message
bare_request = record { type = msg_connect_req; attrs = [] }

abbrev request_begun : Buff
request_begun = record {
  len = 8;
  max = 24;
  off = 0;
  bytes = (0x10 ∷ 1 ∷ 0 ∷ 8 ∷ 0 ∷ 1 ∷ 0 ∷ 0 ∷ []) ++ replicate 16 0;
}

request_begun-Holds : Holds request_begun bare_request
unfolding encode encode_attrs
request_begun-Holds = record {
  valid = record { sized = refl; within = omega arith; int = omega arith };
  text = refl;
}

pkt_attr-Holds_example :
    (buf : Buff) × (pkt_attr request_begun attr_encap_proto (0 ∷ 1 ∷ []) ≡ some (okay, buf))
    × Holds buf (with_attr bare_request attr_encap_proto (0 ∷ 1 ∷ []))
    × (buf.max ≡ 24)
    × (buf.off ≡ 0)
unfolding encode_attrs
pkt_attr-Holds_example =
    pkt_attr-Holds request_begun bare_request attr_encap_proto (0 ∷ 1 ∷ []) request_begun-Holds
      (omega arith, omega arith, omega arith)

-- The connect request as it is sent, and its attribute.
abbrev encap : Attr
encap = record { type = attr_encap_proto; payload = 0 ∷ 1 ∷ [] }

abbrev request_whole : Buff
request_whole = record {
  len = 14;
  max = 24;
  off = 0;
  bytes = (0x10 ∷ 1 ∷ 0 ∷ 14 ∷ 0 ∷ 1 ∷ 0 ∷ 1 ∷ 0 ∷ 1 ∷ 0 ∷ 6 ∷ 0 ∷ 1 ∷ []) ++ replicate 10 0;
}

request_whole-Holds : Holds request_whole (record { type = msg_connect_req; attrs = encap ∷ [] })
unfolding encode encode_attrs encode_attr
request_whole-Holds = record {
  valid = record { sized = refl; within = omega arith; int = omega arith };
  text = refl;
}

pkt_parse-Holds_example :
    (pkt_parse request_whole (replicate 5 none)
      ≡ some (record { status = okay; attrs = only (replicate 5 none) attr_encap_proto; off = 6 }))
    × (attr_len request_whole.bytes 8 ≡ some 2)
    × (read_bytes request_whole.bytes (attr_data 8) 2 ≡ some (0 ∷ 1 ∷ []))
pkt_parse-Holds_example =
    pkt_parse-Holds request_whole msg_connect_req encap (replicate 5 none) request_whole-Holds
      (omega arith) (omega arith) (omega arith)

-- A packet with two attributes of four bytes each: the second one is not reported.
abbrev four_bytes : ℕ → Attr
four_bytes type = record { type = type; payload = 0 ∷ 0 ∷ 0 ∷ 7 ∷ [] }

abbrev two_attrs : Message
two_attrs = record {
  type = msg_connect_ack;
  attrs = four_bytes attr_encap_proto ∷ four_bytes attr_status_info ∷ [];
}

abbrev two_attrs_buf : Buff
two_attrs_buf = record {
  len = 24;
  max = 24;
  off = 0;
  bytes =
      (0x10 ∷ 1 ∷ 0 ∷ 24 ∷ 0 ∷ 2 ∷ 0 ∷ 2 ∷ [])
      ++ (0 ∷ 1 ∷ 0 ∷ 8 ∷ 0 ∷ 0 ∷ 0 ∷ 7 ∷ 0 ∷ 2 ∷ 0 ∷ 8 ∷ 0 ∷ 0 ∷ 0 ∷ 7 ∷ []);
}

two_attrs-Holds : Holds two_attrs_buf two_attrs
unfolding encode encode_attrs encode_attr
two_attrs-Holds = record {
  valid = record { sized = refl; within = omega arith; int = omega arith };
  text = refl;
}

-- A packet off the wire: two attributes announced, the first said to be 32767 bytes long.
abbrev hostile : Buff
hostile = record {
  len = 14;
  max = 16;
  off = 0;
  bytes = 0x10 ∷ 1 ∷ 0 ∷ 14 ∷ 0 ∷ 2 ∷ 0 ∷ 2 ∷ 0 ∷ 1 ∷ 0x7f ∷ 0xff ∷ 0 ∷ 1 ∷ 0 ∷ 0 ∷ [];
}

abbrev request_parsed : Parsed
request_parsed = record { status = okay; attrs = only (replicate 5 none) attr_encap_proto; off = 6 }

request_is_parsed : pkt_parse request_whole (replicate 5 none) ≡ some request_parsed
unfolding pkt_parse parse_loop
request_is_parsed = refl
