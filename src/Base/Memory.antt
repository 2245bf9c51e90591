-- ===== src/Base/Memory.antt =====
-- Reads and writes of byte arrays, C integers as bit patterns, and network byte order.
use Prim.Native.Nat.{ℕ, zero, suc, ◌+◌, ◌-◌, ◌*◌, ◌/◌, ◌%◌, ◌^◌, ◌≤◌, ◌<◌, min}
use mathlib.Core.Path.{◌≡◌, refl, ap, ap₂, sym, ◌∙◌}
use mathlib.Core.Bool.{Bool, true}
use mathlib.Core.List.{List, [], ◌∷◌, ◌++◌, append_assoc}
use mathlib.Core.Option.{Option, none, some}
use native.Mathlib.Omega.{arith}
use sstp_client_i_os.Base.Tests.{ltb, leb, le→leb, if◌then◌else◌, ◌>>=◌}
use sstp_client_i_os.Base.Lists.{length, get_elem?, take, drop, length-append}

-- An int is its 32-bit pattern, and a short its 16-bit pattern; this widens the second.
abbrev pub sext16 : ℕ → ℕ
sext16 w = if ltb w 0x8000 then w else w + 0xffff0000

-- `<` on ints.
abbrev pub slt : ℕ → ℕ → Bool
slt a b = ltb ((a + 2 ^ 31) % 2 ^ 32) ((b + 2 ^ 31) % 2 ^ 32)

-- `htons`, as the two bytes that are stored.
abbrev pub be16 : ℕ → List ℕ
be16 n = n / 256 % 256 ∷ n % 256 ∷ []

-- `ntohs` of the two bytes at `i`.
abbrev pub read16 : List ℕ → ℕ → Option ℕ
read16 mem i = do a ← get_elem? mem i; b ← get_elem? mem (i + 1); some (a * 256 + b)

-- `memcpy` from an array that holds them: `n` bytes at `i`.
abbrev pub read_bytes : List ℕ → ℕ → ℕ → Option (List ℕ)
read_bytes mem i n = if leb (i + n) (length mem) then some (take n (drop i mem)) else none

pub splice : List ℕ → ℕ → List ℕ → List ℕ
splice mem i bytes = take i mem ++ (bytes ++ drop (i + length bytes) mem)

-- A write of `bytes` at `i`.
unfoldable pub write_bytes : List ℕ → ℕ → List ℕ → Option (List ℕ)
unfolding splice
write_bytes mem i bytes =
    if leb (i + length bytes) (length mem) then some (splice mem i bytes) else none

module _ {ℓ} {A : Type ℓ} where
  pub length-take : (n : ℕ) (xs : List A) → length (take n xs) ≡ min n (length xs)
  length-take zero xs = omega arith
  length-take (suc n) [] = omega arith
  length-take (suc n) (x ∷ xs) = omega (arith, length-take n xs)

  pub length-drop : (n : ℕ) (xs : List A) → length (drop n xs) ≡ length xs - n
  length-drop zero xs = omega arith
  length-drop (suc n) [] = omega arith
  length-drop (suc n) (x ∷ xs) = omega (arith, length-drop n xs)

  pub take-append : (n : ℕ) (xs ys : List A) → n ≡ length xs → take n (xs ++ ys) ≡ xs
  take-append zero [] ys e = refl
  take-append zero (x ∷ xs) ys e = absurd (omega arith)
  take-append (suc n) [] ys e = absurd (omega arith)
  take-append (suc n) (x ∷ xs) ys e = ap (λ t. x ∷ t) (take-append n xs ys (omega arith))

  pub drop-append : (n : ℕ) (xs ys : List A) → n ≡ length xs → drop n (xs ++ ys) ≡ ys
  drop-append zero [] ys e = refl
  drop-append zero (x ∷ xs) ys e = absurd (omega arith)
  drop-append (suc n) [] ys e = absurd (omega arith)
  drop-append (suc n) (x ∷ xs) ys e = drop-append n xs ys (omega arith)

  pub take-append-drop : (n : ℕ) (xs : List A) → take n xs ++ drop n xs ≡ xs
  take-append-drop zero xs = refl
  take-append-drop (suc n) [] = refl
  take-append-drop (suc n) (x ∷ xs) = ap (λ t. x ∷ t) (take-append-drop n xs)

  pub get-append-left :
      (xs ys : List A) (i : ℕ) → i < length xs → get_elem? (xs ++ ys) i ≡ get_elem? xs i
  get-append-left [] ys i h = absurd (omega arith)
  get-append-left (x ∷ xs) ys zero h = refl
  get-append-left (x ∷ xs) ys (suc i) h = get-append-left xs ys i (omega arith)

  pub get-append-right :
      (xs ys : List A) (i : ℕ) → get_elem? (xs ++ ys) (length xs + i) ≡ get_elem? ys i
  get-append-right [] ys i = ap (get_elem? ys) (omega arith)
  get-append-right (x ∷ xs) ys i =
      let e : suc (length xs) + i ≡ suc (length xs + i) = omega arith in
      rw e (get-append-right xs ys i)

  pub get-out : (xs : List A) (i : ℕ) → length xs ≤ i → get_elem? xs i ≡ none
  get-out [] i h = refl
  get-out (x ∷ xs) zero h = absurd (omega arith)
  get-out (x ∷ xs) (suc i) h = get-out xs i (omega arith)

-- The parts of an array around a place inside of it.
pub split_at :
    (mem : List ℕ) (i : ℕ)
    → i ≤ length mem
    → (front : List ℕ) × (back : List ℕ) × (mem ≡ front ++ back) × (length front ≡ i)
split_at mem i h =
    (take i mem, drop i mem, sym (take-append-drop i mem), omega (arith, length-take i mem))

-- What a write inside of an array does, in terms of the parts before, at and after it.
pub write_bytes-parts :
    (front old back bytes : List ℕ)
    → length old ≡ length bytes
    → write_bytes (front ++ (old ++ back)) (length front) bytes ≡ some (front ++ (bytes ++ back))
unfolding write_bytes splice
write_bytes-parts front old back bytes same =
    let inside : leb (length front + length bytes) (length (front ++ (old ++ back))) ≡ true =
      le→leb _ _ (omega (arith, length-append front (old ++ back), length-append old back)) in
    let behind : drop (length front + length bytes) (front ++ (old ++ back)) ≡ back =
      ap (drop (length front + length bytes)) (sym (append_assoc front old back))
      ∙ drop-append _ (front ++ old) back (omega (arith, length-append front old)) in
    rw inside (
      ap₂ (λ a b. some (a ++ (bytes ++ b))) (take-append (length front) front (old ++ back) refl)
        behind)

pub take-append_more : (n : ℕ) (xs ys : List ℕ) → take (length xs + n) (xs ++ ys) ≡ xs ++ take n ys
take-append_more n [] ys = ap (λ k. take k ys) (omega arith)
take-append_more n (x ∷ xs) ys =
    let e : suc (length xs) + n ≡ suc (length xs + n) = omega arith in
    rw e (ap (λ t. x ∷ t) (take-append_more n xs ys))

pub write_bytes-splice :
    (mem : List ℕ) (i : ℕ) (bytes : List ℕ)
    → i + length bytes ≤ length mem
    → write_bytes mem i bytes ≡ some (splice mem i bytes)
unfolding write_bytes
write_bytes-splice mem i bytes h = rw (le→leb _ _ h)

pub length-splice :
    (mem : List ℕ) (i : ℕ) (bytes : List ℕ)
    → i + length bytes ≤ length mem
    → length (splice mem i bytes) ≡ length mem
unfolding splice
length-splice mem i bytes h = omega (
  arith,
  length-append (take i mem) (bytes ++ drop (i + length bytes) mem),
  length-append bytes (drop (i + length bytes) mem),
  length-take i mem,
  length-drop (i + length bytes) mem,
)

-- What stands before the end of a write: what stood before it, and the bytes written.
pub take-splice :
    (mem : List ℕ) (i : ℕ) (bytes : List ℕ)
    → i + length bytes ≤ length mem
    → take (i + length bytes) (splice mem i bytes) ≡ take i mem ++ bytes
unfolding splice
take-splice mem i bytes h =
    let front : List ℕ = take i mem in
    let rest : List ℕ = drop (i + length bytes) mem in
    let size : length front ≡ i = omega (arith, length-take i mem) in
    ap (λ k. take (k + length bytes) (front ++ (bytes ++ rest))) (sym size)
    ∙ take-append_more (length bytes) front (bytes ++ rest)
    ∙ ap (λ t. front ++ t) (take-append (length bytes) bytes rest refl)

-- The same up to a place inside of what is written.
pub take-splice_prefix :
    (mem : List ℕ) (i : ℕ) (bytes more : List ℕ)
    → i + length (bytes ++ more) ≤ length mem
    → take (i + length bytes) (splice mem i (bytes ++ more)) ≡ take i mem ++ bytes
unfolding splice
take-splice_prefix mem i bytes more h =
    let front : List ℕ = take i mem in
    let rest : List ℕ = drop (i + length (bytes ++ more)) mem in
    let inside : i ≤ length mem = omega (arith, length-append bytes more) in
    let size : length front ≡ i = omega (arith, length-take i mem) in
    ap (λ k. take (k + length bytes) (front ++ ((bytes ++ more) ++ rest))) (sym size)
    ∙ take-append_more (length bytes) front ((bytes ++ more) ++ rest)
    ∙ ap (λ t. front ++ take (length bytes) t) (append_assoc bytes more rest)
    ∙ ap (λ t. front ++ t) (take-append (length bytes) bytes (more ++ rest) refl)

pub take_all : (xs : List ℕ) (n : ℕ) → length xs ≤ n → take n xs ≡ xs
take_all [] zero h = refl
take_all [] (suc n) h = refl
take_all (x ∷ xs) zero h = absurd (omega arith)
take_all (x ∷ xs) (suc n) h = ap (λ t. x ∷ t) (take_all xs n (omega arith))

-- A write leaves what stands before it.
pub take-splice_before :
    (mem : List ℕ) (i : ℕ) (bytes : List ℕ)
    → i + length bytes ≤ length mem
    → take i (splice mem i bytes) ≡ take i mem
unfolding splice
take-splice_before mem i bytes h = take-append i (take i mem) _ (omega (arith, length-take i mem))

-- A write behind the bytes of `front`.
pub write_bytes-behind :
    (front tail bytes : List ℕ) (i : ℕ)
    → i ≡ length front
    → length bytes ≤ length tail
    → write_bytes (front ++ tail) i bytes ≡ some (front ++ (bytes ++ drop (length bytes) tail))
write_bytes-behind front tail bytes i at h =
    let n : ℕ = length bytes in
    let same : length (take n tail) ≡ n = omega (arith, length-take n tail) in
    ap₂ (λ t j. write_bytes (front ++ t) j bytes) (sym (take-append-drop n tail)) at
    ∙ write_bytes-parts front (take n tail) (drop n tail) bytes same

pub drop-drop : (n k : ℕ) (xs : List ℕ) → drop n (drop k xs) ≡ drop (k + n) xs
drop-drop n zero xs = let e : 0 + n ≡ n = omega arith in rw e
drop-drop zero (suc k) [] = let e : suc k + 0 ≡ suc k = omega arith in rw e
drop-drop (suc n) (suc k) [] = let e : suc k + suc n ≡ suc (k + suc n) = omega arith in rw e
drop-drop n (suc k) (x ∷ xs) =
    let e : suc k + n ≡ suc (k + n) = omega arith in rw e (drop-drop n k xs)

pub sub_zero : (n : ℕ) → n - 0 ≡ n
sub_zero n = omega arith
