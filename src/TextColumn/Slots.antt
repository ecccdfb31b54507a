-- ===== src/TextColumn/Slots.antt =====
-- What writing a text into its slot does to the values of a column.
use odbc_api.Common.{
  ℕ, ◌+◌, ◌*◌, ◌≤◌, ◌<◌, ◌≡◌, ap, ◌∙◌, List, [], ◌∷◌, segment, length, set, overwrite, length-set,
  length-overwrite, set-eq-overwrite, segment-overwrite_self, segment-overwrite_before,
  drop-overwrite_after, take, arith,
}
use odbc_api.TextColumn.{Width, TextColumn}
use odbc_api.TextColumn.Valid.{IsValid, slot_inside}

-- Values that differ only inside the slot of row `i`, and begin there with `text`.
pub record InSlot (col : TextColumn) (i : ℕ) (text : List ℕ) (values : List ℕ) : Type 0 where
  pub same_length : length values ≡ length col.values
  pub begins : segment (i * (col.max_str_len + 1)) (length text) values ≡ text
  pub before :
      (s k : ℕ) → s + k ≤ i * (col.max_str_len + 1) → segment s k values ≡ segment s k col.values
  pub behind :
      (s k : ℕ)
      → i * (col.max_str_len + 1) + (col.max_str_len + 1) ≤ s
      → segment s k values ≡ segment s k col.values

module _ (v : List ℕ) (o : ℕ) (text : List ℕ) (room : o + length text < length v) where
  pub segment-overwrite-set :
      segment o (length text) (overwrite (set v (o + length text) 0) o text) ≡ text
  segment-overwrite-set =
      segment-overwrite_self (set v (o + length text) 0) o text
        (rw (length-set v (o + length text) 0) (omega (arith, room)))

  pub segment-set-overwrite :
      segment o (length text) (set (overwrite v o text) (o + length text) 0) ≡ text
  segment-set-overwrite = rw (set-eq-overwrite (overwrite v o text) (o + length text) 0) (
      segment-overwrite_before (overwrite v o text) o (length text) (o + length text) (0 ∷ [])
        (omega arith)
      ∙ segment-overwrite_self v o text (omega (arith, room)))

  pub length-overwrite-set : length (overwrite (set v (o + length text) 0) o text) ≡ length v
  length-overwrite-set =
      length-overwrite (set v (o + length text) 0) o text ∙ length-set v (o + length text) 0

  pub length-set-overwrite : length (set (overwrite v o text) (o + length text) 0) ≡ length v
  length-set-overwrite =
      length-set (overwrite v o text) (o + length text) 0 ∙ length-overwrite v o text

  module _ (s k : ℕ) where
    set_before : (u : List ℕ) → s + k ≤ o → segment s k (set u (o + length text) 0) ≡ segment s k u
    set_before u h =
        rw (set-eq-overwrite u (o + length text) 0)
          (segment-overwrite_before u s k (o + length text) (0 ∷ []) (omega (arith, h)))

    set_behind :
        (u : List ℕ) → o + length text < s → segment s k (set u (o + length text) 0) ≡ segment s k u
    set_behind u h =
        rw (set-eq-overwrite u (o + length text) 0)
          (ap (take k) (drop-overwrite_after u s (o + length text) (0 ∷ []) (omega (arith, h))))

    overwrite_before : (u : List ℕ) → s + k ≤ o → segment s k (overwrite u o text) ≡ segment s k u
    overwrite_before u h = segment-overwrite_before u s k o text h

    overwrite_behind :
        (u : List ℕ) → o + length text < s → segment s k (overwrite u o text) ≡ segment s k u
    overwrite_behind u h = ap (take k) (drop-overwrite_after u s o text (omega (arith, h)))

module _ {w : Width} {col : TextColumn} (v : IsValid w col) (i : ℕ) (h : i < length col.indicators)
    (text : List ℕ) (ht : length text ≤ col.max_str_len) where
  room : i * (col.max_str_len + 1) + length text < length col.values
  room = omega (arith, slot_inside v i h, ht)

  pub set_value-InSlot : InSlot col i text (
      overwrite
        (set col.values (i * (col.max_str_len + 1) + length text) 0)
        (i * (col.max_str_len + 1))
        text)
  set_value-InSlot = record {
    same_length = length-overwrite-set col.values _ text room;
    begins = segment-overwrite-set col.values _ text room;
    before = λ s k b.
        overwrite_before col.values _ text room s k _ b ∙ set_before col.values _ text room s k _ b;
    behind = λ s k b.
        overwrite_behind col.values _ text room s k _ (omega (arith, b, ht))
        ∙ set_behind col.values _ text room s k _ (omega (arith, b, ht));
  }

  pub append-InSlot : InSlot col i text (
      set
        (overwrite col.values (i * (col.max_str_len + 1)) text)
        (i * (col.max_str_len + 1) + length text)
        0)
  append-InSlot = record {
    same_length = length-set-overwrite col.values _ text room;
    begins = segment-set-overwrite col.values _ text room;
    before = λ s k b.
        set_before col.values _ text room s k _ b ∙ overwrite_before col.values _ text room s k _ b;
    behind = λ s k b.
        set_behind col.values _ text room s k _ (omega (arith, b, ht))
        ∙ overwrite_behind col.values _ text room s k _ (omega (arith, b, ht));
  }
