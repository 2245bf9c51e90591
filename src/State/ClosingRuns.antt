-- ===== src/State/ClosingRuns.antt =====
-- Packets that end a call, for sstp/sstp-state.c, with the status 6.
use sstp_client_i_os.Base.{refl, arith, [], ◌∷◌, okay}
use sstp_client_i_os.Buff.{Buff}
use sstp_client_i_os.Packet.{msg_disconnect, msg_connect_nak, msg_abort}
use sstp_client_i_os.Packet.Format.{Holds, encode, encode_attrs, encode_attr}
use sstp_client_i_os.State.Closing.{message}
use sstp_client_i_os.State.Examples.{world, client}

abbrev disconnect : Buff
disconnect = record {
  len = 20;
  max = 24;
  off = 0;
  bytes =
      0x10 ∷ 1 ∷ 0 ∷ 20 ∷ 0 ∷ 6 ∷ 0 ∷ 1 ∷ 0 ∷ 2 ∷ 0 ∷ 12 ∷ 0 ∷ 0 ∷ 0 ∷ 0 ∷ 0 ∷ 0 ∷ 0 ∷ 6 ∷ 0 ∷ 0 ∷ 0
      ∷ 0 ∷ [];
}

disconnect-Holds :
    Holds disconnect (message (world okay) (client disconnect 0) msg_disconnect 0 0 0 0 0 0 0 6)
unfolding encode encode_attrs encode_attr
disconnect-Holds = record {
  valid = record { sized = refl; within = omega arith; int = omega arith };
  text = refl;
}

abbrev nak : Buff
nak = record {
  len = 20;
  max = 24;
  off = 0;
  bytes =
      0x10 ∷ 1 ∷ 0 ∷ 20 ∷ 0 ∷ 3 ∷ 0 ∷ 1 ∷ 0 ∷ 2 ∷ 0 ∷ 12 ∷ 0 ∷ 0 ∷ 0 ∷ 0 ∷ 0 ∷ 0 ∷ 0 ∷ 6 ∷ 0 ∷ 0 ∷ 0
      ∷ 0 ∷ [];
}

nak-Holds : Holds nak (message (world okay) (client nak 0) msg_connect_nak 0 0 0 0 0 0 0 6)
unfolding encode encode_attrs encode_attr
nak-Holds = record {
  valid = record { sized = refl; within = omega arith; int = omega arith };
  text = refl;
}

abbrev abort : Buff
abort = record {
  len = 20;
  max = 24;
  off = 0;
  bytes =
      0x10 ∷ 1 ∷ 0 ∷ 20 ∷ 0 ∷ 5 ∷ 0 ∷ 1 ∷ 0 ∷ 2 ∷ 0 ∷ 12 ∷ 0 ∷ 0 ∷ 0 ∷ 0 ∷ 0 ∷ 0 ∷ 0 ∷ 6 ∷ 0 ∷ 0 ∷ 0
      ∷ 0 ∷ [];
}

abort-Holds : Holds abort (message (world okay) (client abort 0) msg_abort 0 0 0 0 0 0 0 6)
unfolding encode encode_attrs encode_attr
abort-Holds = record {
  valid = record { sized = refl; within = omega arith; int = omega arith };
  text = refl;
}
