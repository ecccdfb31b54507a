-- ===== src/Cursor/GetText.antt =====
-- `get_text` retrieves a text whole, where the driver tells how long it is.
use odbc_api.Common.{
  ℕ, suc, ◌+◌, ◌-◌, ◌≤◌, ◌<◌, ◌≡◌, ap, sym, ◌∙◌, ℤ, pos, List, [], ◌∷◌, ◌++◌, Bool, true, false,
  Option, none, some, ok, length, take, drop, resize, max, length-append, length-take, length-drop,
  take-append-drop, isize_max, arith, if◌then◌else◌,
}
use native.Mathlib.Decide.{dec_lt}
use odbc_api.Indicator.{OdbcSys, null_data, no_total_data}
use odbc_api.Sql.{Result}
use odbc_api.Statement.{Driver, ◌>>=◌}
use odbc_api.Cursor.{fetch_into, text_loop, get_text}
use odbc_api.Cursor.Source.{TextSource, fetch_all, fetch_part, fetch_null}
use odbc_api.Cursor.Loop.{length-resize, resize_vec_ok, text_loop_done, text_loop_null}
use odbc_api.Cursor.Refetch.{take-all_first, refetch_rest}

abbrev pub is_some : Option (List ℕ) → Bool
is_some none = false
is_some (some v) = true

abbrev pub or_empty : Option (List ℕ) → List ℕ
or_empty none = []
or_empty (some v) = v

module _ {S : Type 0} (d : Driver S) ⦃sys : OdbcSys⦄ (col : ℕ) (src : TextSource d col) (s : S)
    (capacity : ℕ) (buf : List ℕ) (room : max 1 capacity ≤ isize_max) where
  -- The buffer before the first call of `get_data`.
  abbrev pub first : List ℕ
  first = resize buf (max 1 capacity) 0

  -- The loop is entered with what the first call left in the buffer.
  pub get_text-first :
      (fuel : ℕ) (buf' : List ℕ) (indicator : ℤ) (s' : S)
      → fetch_into d col first 0 s ≡ ok (Result.done (buf', indicator), s')
      → get_text d col fuel capacity buf s ≡ text_loop d col fuel buf' (max 1 capacity) indicator s'
  unfolding get_text
  get_text-first fuel buf' indicator s' e =
      rw (resize_vec_ok buf (max 1 capacity) room, ◌>>=◌, e, length-resize buf (max 1 capacity))

  get_text_short :
      (fuel : ℕ) (v : List ℕ)
      → src.pending s ≡ some v
      → length v < max 1 capacity
      → (s' : S) × (get_text d col (suc fuel) capacity buf s ≡ ok (Result.done (true, v), s'))
  get_text_short fuel v e h =
      let got : List ℕ = v ++ 0 ∷ drop (length v + 1) first in
      let got_len : length got ≡ max 1 capacity = omega (
        arith,
        length-append v (0 ∷ drop (length v + 1) first),
        length-drop (length v + 1) first,
        length-resize buf (max 1 capacity),
        h,
      ) in
      let s' = src.next (length first - 0) s in
      (
        s',
        get_text-first (suc fuel) got (pos (length v)) s' (
              fetch_all d col src first 0 s (omega arith) v e
                (omega (arith, length-resize buf (max 1 capacity), h)))
            ∙ text_loop_done d col got (omega (arith, got_len, room)) s' fuel (length v)
                (max 1 capacity) h (omega (arith, got_len))
            ∙ ap (λ u. ok (Result.done (true, u), s'))
                (take-all_first v _ _ (omega (arith, got_len, h))),
      )

  -- What the first call leaves if the value does not fit.
  abbrev pub cut : List ℕ → List ℕ
  cut v = take (max 1 capacity - 1) v ++ 0 ∷ []

  module _ (v : List ℕ) (e : src.pending s ≡ some v) (h : max 1 capacity ≤ length v) where
    pub length-cut : length (cut v) ≡ max 1 capacity
    length-cut = omega (
      arith,
      length-append (take (max 1 capacity - 1) v) (0 ∷ []),
      length-take (max 1 capacity - 1) v,
      h,
    )

    pub take-cut : (n : ℕ) → n ≡ max 1 capacity - 1 → take n (cut v) ≡ take (max 1 capacity - 1) v
    take-cut n en =
        take-all_first (take (max 1 capacity - 1) v) (0 ∷ []) n
          (omega (arith, en, length-take (max 1 capacity - 1) v, h))

    pub pending_rest :
        src.pending (src.next (max 1 capacity) s) ≡ some (drop (max 1 capacity - 1) v)
    pending_rest = src.part_pending (max 1 capacity) v s e (omega arith) h

    pub fetch_cut :
        fetch_into d col first 0 s
        ≡ ok (
          Result.done (cut v, if src.knows_total s then pos (length v) else no_total_data),
          src.next (max 1 capacity) s,
        )
    fetch_cut =
        fetch_part d col src first 0 s (omega arith) v e
          (omega (arith, length-resize buf (max 1 capacity)))
          (omega (arith, length-resize buf (max 1 capacity), h))
        ∙ ap
            (λ n. ok (
              Result.done (
                take (n - 1) v ++ 0 ∷ [],
                if src.knows_total s then pos (length v) else no_total_data,
              ),
              src.next n s,
            ))
            (let l : length first - 0 ≡ max 1 capacity =
                omega (arith, length-resize buf (max 1 capacity)) in
              l)

    get_text_long :
        (fuel : ℕ)
        → src.knows_total s ≡ true
        → length v + 1 ≤ isize_max
        → (s' : S) × (get_text d col (suc (suc fuel)) capacity buf s
            ≡ ok (Result.done (true, v), s'))
    get_text_long fuel total fits =
        let rest : List ℕ = drop (max 1 capacity - 1) v in
        let rest_len : length rest ≡ length v - (max 1 capacity - 1) =
          length-drop (max 1 capacity - 1) v in
        let (s', e') =
          refetch_rest d col src (src.next (max 1 capacity) s) rest (cut v)
            (omega (arith, length-cut)) (omega (arith, length-cut, rest_len, fits, h)) fuel
            (length v) pending_rest (omega (arith, length-cut, rest_len, h))
            (omega (arith, rest_len, h)) in
        (
          s',
          get_text-first (suc (suc fuel)) (cut v) (pos (length v)) (src.next (max 1 capacity) s)
                (fetch_cut ∙ rw total)
              ∙ ap
                  (λ n.
                    text_loop d col (suc (suc fuel)) (cut v) n (pos (length v))
                      (src.next (max 1 capacity) s))
                  (sym length-cut)
              ∙ e'
              ∙ ap (λ u. ok (Result.done (true, u), s'))
                  (ap (λ u. u ++ rest) (take-cut _ (omega (arith, length-cut)))
                    ∙ take-append-drop (max 1 capacity - 1) v),
        )

  -- `get_text` on a column of a driver that tells the length of what it cuts off, for any capacity
  -- of the buffer that a `Vec` may have: a value that fits a `Vec` with its terminating zero is
  -- returned whole, and two rounds of the loop are enough; for NULL the buffer is cleared.
  pub get_text_lem :
      (fuel : ℕ) (value : Option (List ℕ))
      → ((t : S) → src.knows_total t ≡ true)
      → src.pending s ≡ value
      → length (or_empty value) + 1 ≤ isize_max
      → (s' : S) × (get_text d col (suc (suc fuel)) capacity buf s
          ≡ ok (Result.done (is_some value, or_empty value), s'))
  get_text_lem fuel none total e fits = (
    _,
    get_text-first (suc (suc fuel)) _ null_data _ (fetch_null d col src first 0 s (omega arith) e)
        ∙ text_loop_null d col _ (omega (arith, length-resize buf (max 1 capacity), room)) _
            (suc fuel) (max 1 capacity),
  )
  get_text_lem fuel (some v) total e fits = elim (dec_lt (length v) (max 1 capacity)) [
    | yes h ↦ get_text_short (suc fuel) v e h
    | no h ↦ get_text_long v e (omega (arith, h)) fuel (total s) fits
  ]
