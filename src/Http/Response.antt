-- ===== src/Http/Response.antt =====
-- The headers that `sstp_http_get` of sstp/sstp-buff.c finds in a response.
use sstp_client_i_os.Base.{
  ℕ, zero, suc, ◌-◌, ◌^◌, ◌≡◌, refl, sym, ap, ◌∙◌, arith, Bool, true, false, ◌&&◌, none, some, List,
  [], ◌∷◌, drop, replicate, ◌==◌, if_true, if_false, or_else, Bool-cases, inl, inr,
}
use sstp_client_i_os.Http.{Header, newline, c_string, goes_on, get_entry, get_loop, http_get}

none-some : {A : Type 0} {a : A} → none ≡ some a → ⊥
none-some e = cc e

newline_again : (text next : List ℕ) → newline text ≡ some next → newline next ≡ some next
unfolding newline
newline_again [] next found = absurd (none-some found)
newline_again (c ∷ cs) next found = elim (Bool-cases (c == 0x0a)) [
  | inl found_here ↦
      let here : newline (c ∷ cs) ≡ some (c ∷ cs) = if_true (c == 0x0a) _ (newline cs) found_here in
      let same : c ∷ cs ≡ next = ap (λ o. or_else o []) (sym here ∙ found) in
      ap newline (sym same) ∙ here ∙ ap some same
  | inr further ↦
      newline_again cs next
        (sym (if_false (c == 0x0a) (some (c ∷ cs)) (newline cs) further) ∙ found)
]

module _ (sscanf : List ℕ → List (List ℕ)) where
  get_loop_lem :
      (room : ℕ) (text : List ℕ) (header : Header)
      → newline text ≡ some text
      → get_entry (sscanf (drop 1 text)) ≡ some (some header)
      → goes_on text ≡ true
      → get_loop sscanf room text ≡ some (replicate room header)
  unfolding get_loop
  get_loop_lem zero text header here read more = refl
  get_loop_lem (suc room) text header here read more =
      rw (get_loop, read, here, more) (rw (get_loop_lem room text header here read more) refl)

  -- When a header that fits an entry follows the first line of a response, `sstp_http_get` fills
  -- every entry of the array with that one header: the others are never read.
  pub http_get_repeats :
      (strtoul : List ℕ → ℕ × Bool) (bytes text : List ℕ) (header : Header) (count code : ℕ)
      → newline (c_string bytes) ≡ some text
      → get_entry (sscanf (drop 1 text)) ≡ some (some header)
      → goes_on text ≡ true
      → strtoul (c_string (drop 9 bytes)) ≡ (code, false)
      → http_get sscanf strtoul bytes count ≡ some (some (code, replicate count header))
  unfolding http_get
  http_get_repeats strtoul bytes text header count code first read more number =
      let here : newline text ≡ some text = newline_again (c_string bytes) text first in
      let same : get_loop sscanf count text ≡ some (replicate count header) =
        get_loop_lem count text header here read more in
      rw number (
        if_false ((code == 2 ^ 32 - 1) && false) _ _ (ground arith)
        ∙ rw first
            (rw same (ap (λ (r : ℕ × Bool). some (some (r.0, replicate count header))) number)))
