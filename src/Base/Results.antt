-- ===== src/Base/Results.antt =====
-- sstp/sstp-common.h: the results that the operations return.
use Prim.Native.Nat.{ℕ}
use mathlib.Core.Bool.{Bool}
use sstp_client_i_os.Base.Tests.{◌==◌}

pub data Status : Type 0 where
  fail okay inprog connected overflow notimpl timeout authenticate : Status

-- A number for each status, SSTP_FAIL first.
abbrev pub number : Status → ℕ
number fail = 0
number okay = 1
number inprog = 2
number connected = 3
number overflow = 4
number notimpl = 5
number timeout = 6
number authenticate = 7

-- `b == a`
abbrev pub is : Status → Status → Bool
is a b = number a == number b
