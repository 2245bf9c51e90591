-- ===== src/Buff/Examples.antt =====
-- sstp/sstp-buff.c at concrete inputs: a buffer of five bytes with two in use.
use sstp_client_i_os.Base.{◌≡◌, refl, arith, some, [], ◌∷◌, okay, write_bytes}
use sstp_client_i_os.Buff.{Buff, buff_print}
use sstp_client_i_os.Buff.Laws.{IsValid}

abbrev two_of_five : Buff
two_of_five = record { len = 2; max = 5; off = 0; bytes = 65 ∷ 66 ∷ 0 ∷ 0 ∷ 0 ∷ [] }

two_of_five-IsValid : IsValid two_of_five
two_of_five-IsValid = record { sized = refl; within = omega arith; int = omega arith }

-- A text that fills the buffer loses its last character, and okay is reported all the same.
full_text :
    buff_print two_of_five (67 ∷ 68 ∷ 69 ∷ [])
    ≡ some (okay, record { len = 5; max = 5; off = 0; bytes = 65 ∷ 66 ∷ 67 ∷ 68 ∷ 0 ∷ [] })
unfolding buff_print write_bytes
full_text = refl
