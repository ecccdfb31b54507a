-- ===== src/Diagnostics/Text.antt =====
-- What a driver writes to a buffer, and the loop that strips the zeros at the end of a text.
use odbc_api.Common.{
  ℕ, zero, suc, ◌-◌, ◌≤◌, ◌<◌, ◌≡◌, ◌≢◌, refl, ap, sym, ◌∙◌, List, [], ◌∷◌, ◌++◌, false, some, ok,
  take, length, overwrite, get_elem?, leb, ◌==◌, if◌then◌else◌, Vec, Reserve, resize_zeroed, resize,
  replicate, arith, length-append, length-take, length-overwrite, length-replicate, take_append,
  take_all, take-take, segment-overwrite_self, leb→le, Bool-cases, inl, inr,
}
use odbc_api.Diagnostics.{without_padding}

-- What the driver writes to a buffer of this length: the text with a terminating zero, cut off so
-- that both fit.
abbrev pub written : ℕ → List ℕ → List ℕ → List ℕ
written zero text buffer = buffer
written (suc n) text buffer = overwrite buffer 0 (take n text ++ 0 ∷ [])

-- A text that does not end with the zeros that some drivers pad it with
abbrev pub IsUnpadded : List ℕ → Type 0
IsUnpadded [] = Unit
IsUnpadded (letter ∷ []) = letter ≢ 0
IsUnpadded (letter ∷ next ∷ text) = IsUnpadded (next ∷ text)

-- What is read: a text that is as long as the capacity loses its last character.
abbrev pub read_text : ℕ → List ℕ → List ℕ
read_text capacity text = if capacity == length text then take (length text - 1) text else text

-- The last letter of an unpadded text in a buffer that begins with it
pub last_letter :
    (letter : ℕ) (text buffer : List ℕ)
    → IsUnpadded (letter ∷ text)
    → take (suc (length text)) buffer ≡ letter ∷ text
    → (x : ℕ) × (get_elem? buffer (length text) ≡ some x) × (x ≢ 0)
last_letter letter [] [] u e = cc
last_letter letter [] (x ∷ buffer) u e = let same : x ≡ letter = cc in (x, refl, rw same u)
last_letter letter (next ∷ text) [] u e = cc
last_letter letter (next ∷ text) (x ∷ buffer) u e =
    let rest : take (suc (length text)) buffer ≡ next ∷ text = cc in
    last_letter next text buffer u rest

pub without_padding_lem :
    (text buffer : List ℕ)
    → IsUnpadded text
    → take (length text) buffer ≡ text
    → without_padding buffer (length text) ≡ ok (length text)
unfolding without_padding
without_padding_lem [] buffer u e = refl
without_padding_lem (letter ∷ text) buffer u e =
    let (x, ex, ne) = last_letter letter text buffer u e in
    let different : (x == 0) ≡ false = ground arith in rw (ex, different)

pub take_overwritten :
    (text buffer : List ℕ)
    → suc (length text) ≤ length buffer
    → take (length text) (overwrite buffer 0 (text ++ 0 ∷ [])) ≡ text
take_overwritten text buffer h =
    sym (
      take-take (length text) (length (text ++ 0 ∷ [])) (overwrite buffer 0 (text ++ 0 ∷ []))
        (omega (arith, length-append text (0 ∷ []))))
    ∙ ap (take (length text)) (
        segment-overwrite_self buffer 0 (text ++ 0 ∷ [])
          (omega (arith, h, length-append text (0 ∷ []))))
    ∙ take_append text (0 ∷ [])

-- The zero behind the text
pub zero_behind :
    (text buffer : List ℕ)
    → suc (length text) ≤ length buffer
    → get_elem? (overwrite buffer 0 (text ++ 0 ∷ [])) (length text) ≡ some 0
zero_behind [] [] h = absurd (omega arith)
zero_behind [] (x ∷ buffer) h = refl
zero_behind (letter ∷ text) [] h = absurd (omega arith)
zero_behind (letter ∷ text) (x ∷ buffer) h = zero_behind text buffer (omega (arith, h))

-- Of a text with the zero behind it, the loop leaves the text.
pub without_terminator :
    (text buffer filled : List ℕ)
    → suc (length text) ≤ length buffer
    → filled ≡ overwrite buffer 0 (text ++ 0 ∷ [])
    → IsUnpadded text
    → (take (length text) filled ≡ text)
      × (without_padding filled (suc (length text)) ≡ ok (length text))
unfolding without_padding
without_terminator text buffer filled h e u =
    let reads : take (length text) filled ≡ text = rw e (take_overwritten text buffer h) in
    let zero_there : get_elem? filled (length text) ≡ some 0 = rw e (zero_behind text buffer h) in
    (reads, rw zero_there (without_padding_lem text filled u reads))

pub length-resize : (v : List ℕ) (n : ℕ) → length (resize v n 0) ≡ n
length-resize v n = elim (Bool-cases (leb n (length v))) [
  | inl e ↦ rw e (omega (arith, length-take n v, leb→le n (length v) e))
  | inr e ↦
      rw
        (e, length-append v (replicate (n - length v) 0), length-replicate {A = ℕ} (n - length v) 0)
        (let more : length v ≤ n = ground arith in omega (arith, more))
]

pub take_whole :
    (text buffer : List ℕ) (len : ℕ)
    → length text < len
    → len ≤ length buffer
    → take (length text) (written len text buffer) ≡ text
take_whole text buffer zero ht hl = absurd (omega arith)
take_whole text buffer (suc k) ht hl =
    rw (take_all k text (omega arith)) (take_overwritten text buffer (omega arith))

pub length-written :
    (len : ℕ) (text buffer : List ℕ) → length (written len text buffer) ≡ length buffer
length-written zero text buffer = refl
length-written (suc n) text buffer = length-overwrite buffer 0 (take n text ++ 0 ∷ [])

pub resize_zeroed-capacity : ⦃r : Reserve⦄ (v : Vec) (n : ℕ) → n ≤ (resize_zeroed v n).capacity
resize_zeroed-capacity ⦃r⦄ v n = elim (Bool-cases (leb n v.capacity)) [
  | inl e ↦ rw e (leb→le n v.capacity e)
  | inr e ↦ rw e (r.le_capacity_for n)
]
