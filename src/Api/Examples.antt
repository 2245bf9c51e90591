-- ===== src/Api/Examples.antt =====
-- A message of sstp/sstp-api.c with two attributes.
use sstp_client_i_os.Base.{
  ℕ, ◌≡◌, refl, arith, some, none, List, [], ◌∷◌, okay, fail, take, replicate,
}
use sstp_client_i_os.Api.{Msg, msg_new, attr_parse}
use sstp_client_i_os.Api.Attributes.{Attr, encode, places, add_all, Carries}
use sstp_client_i_os.Api.RoundTrip.{attr_parse-attr_add}

abbrev entries : List (ℕ × List ℕ)
entries = (3, 0x76 ∷ 0x70 ∷ 0x6e ∷ []) ∷ (4, 10 ∷ 0 ∷ 0 ∷ 1 ∷ []) ∷ []

attr_parse-attr_add_example :
    (msg : Msg) × (attrs : List Attr) × (add_all entries (msg_new (replicate 32 0) 3) ≡ some msg)
    × Carries attrs entries
    × (take msg.len msg.bytes ≡ encode attrs)
    × (attr_parse (take msg.len msg.bytes) msg.len ≡ some (okay, places 0 attrs []))
attr_parse-attr_add_example =
    attr_parse-attr_add 3 (replicate 32 0) entries
      (
        omega arith,
        omega arith,
        omega arith,
        omega arith,
        (omega arith, omega arith, omega arith, omega arith, tt),
      )
      (omega arith)

-- An attribute of an unknown type.
unknown_type : attr_parse (9 ∷ 0 ∷ 0 ∷ 0 ∷ []) 4 ≡ some (fail, [])
unfolding attr_parse
unknown_type = refl

-- A header that is cut off is read all the same, outside of the array.
cut_header : attr_parse (1 ∷ 0 ∷ []) 2 ≡ none
unfolding attr_parse
cut_header = refl
