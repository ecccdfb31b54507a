-- ===== src/Environment/Listings.antt =====
-- A driver manager that lists two texts for each entry, and the calls that ask it.
use Prim.Native.String.{String}
use odbc_api.Common.{
  ℕ, ◌+◌, ◌≤◌, ◌≡◌, refl, ap, sym, ◌∙◌, List, [], Option, none, some, Bool, true, false, ok, ◌&&◌,
  length, get_elem?, ltb, leb, le→leb, if◌then◌else◌, Vec, Reserve, resize_zeroed, take,
  take-length, arith,
}
use odbc_api.Sql.{
  SqlReturn, SqlResult, Record, Result, into_opt_sql_result, into_result, map_result,
}
use odbc_api.Diagnostics.Text.{written, length-written}
use odbc_api.Environment.Enumerators.{
  FetchOrientation, Listing, Enumerator, buffer_len, buffer_fill, told_lengths, told_texts,
  fill_buffers,
}

abbrev pub Entry : Type 0
Entry = List ℕ × List ℕ

-- What is told of an entry: both lengths, and whether both texts fit.
abbrev pub listing_of : Option Entry → List ℕ → ℕ → List ℕ → ℕ → Listing
listing_of none a len_a b len_b = record {
  ret = SqlReturn.no_data;
  buffers = (a, b);
  lengths = (0, 0);
}
listing_of (some entry) a len_a b len_b = record {
  ret =
      if ltb (length entry.0) len_a && ltb (length entry.1) len_b
      then SqlReturn.success
      else SqlReturn.success_with_info;
  buffers = (written len_a entry.0 a, written len_b entry.1 b);
  lengths = (length entry.0, length entry.1);
}

-- The function walks through the entries: `first` tells the first one, `next` the one at the
-- position, and behind the last one that there is no more, from where it starts over.
pub record Enumerates {S : Type 0} (call : Enumerator S) (entries : List Entry) : Type 0 where
  pub position : S → ℕ
  pub first_tells :
      (a b : List ℕ) (len_a len_b : ℕ) (s : S)
      → (call FetchOrientation.first a len_a b len_b s).0
        ≡ listing_of (get_elem? entries 0) a len_a b len_b
  pub first_moves :
      (a b : List ℕ) (len_a len_b : ℕ) (s : S)
      → position (call FetchOrientation.first a len_a b len_b s).1
        ≡ (if ltb 0 (length entries) then 1 else 0)
  pub next_tells :
      (a b : List ℕ) (len_a len_b : ℕ) (s : S)
      → (call FetchOrientation.next a len_a b len_b s).0
        ≡ listing_of (get_elem? entries (position s)) a len_a b len_b
  pub next_moves :
      (a b : List ℕ) (len_a len_b : ℕ) (s : S)
      → position (call FetchOrientation.next a len_a b len_b s).1
        ≡ (if ltb (position s) (length entries) then position s + 1 else 0)

-- Both codes that come with an entry are a success.
either_success :
    (b : Bool) (function : String)
    → (res : SqlResult (Unit {0})) × (into_opt_sql_result
          (if b then SqlReturn.success else SqlReturn.success_with_info)
          function
        ≡ ok (some res))
      × ((rec : Option Record) → into_result rec res ≡ Result.done tt)
      × ((A : Type 0) (x : A) (rec : Option Record)
          → into_result rec (map_result (λ _. x) res) ≡ Result.done x)
unfolding into_opt_sql_result into_result map_result
either_success true function = (SqlResult.success tt, refl, λ rec. refl, λ A x rec. refl)
either_success false function = (SqlResult.success_with_info tt, refl, λ rec. refl, λ A x rec. refl)

-- A buffer as long as its capacity, which an `i16` holds
pub record IsFull (buf : Vec) : Type 0 where
  pub full : length buf.elements ≡ buf.capacity
  pub short : buf.capacity ≤ 32767

-- The buffer with the text that the driver manager wrote
abbrev pub holding : List ℕ → Vec → Vec
holding text buf = record buf { elements = written (length buf.elements) text buf.elements }

pub holding-IsFull : (text : List ℕ) (buf : Vec) → IsFull buf → IsFull (holding text buf)
holding-IsFull text buf f = record {
  full = length-written (length buf.elements) text buf.elements ∙ f.full;
  short = f.short;
}

pub resize_full : ⦃r : Reserve⦄ (buf : Vec) → IsFull buf → resize_zeroed buf buf.capacity ≡ buf
resize_full buf f =
    let e : take buf.capacity buf.elements ≡ buf.elements =
      rw (sym f.full) (take-length buf.elements) in
    rw (
      le→leb buf.capacity buf.capacity (omega arith),
      f.full,
      le→leb buf.capacity buf.capacity (omega arith),
      e,
    )

module _ {S : Type 0} (call : Enumerator S) (function : String) (direction : FetchOrientation)
    (s : S) where
  pub len_some :
      (entry : Entry)
      → (call direction [] 0 [] 0 s).0 ≡ listing_of (some entry) [] 0 [] 0
      → (res : SqlResult (ℕ × ℕ)) × (buffer_len call function direction s
          ≡ ok (some res, (call direction [] 0 [] 0 s).1))
        × ((rec : Option Record)
            → into_result rec res ≡ Result.done (length entry.0, length entry.1))
  unfolding buffer_len told_lengths
  len_some entry e =
      let (res, er, fine, mapped) =
        either_success (ltb (length entry.0) 0 && ltb (length entry.1) 0) function in
      (
        map_result (λ _. (length entry.0, length entry.1)) res,
        ap (λ l. told_lengths function (l, (call direction [] 0 [] 0 s).1)) e ∙ rw er,
        mapped (ℕ × ℕ) (length entry.0, length entry.1),
      )

  pub len_none :
      (call direction [] 0 [] 0 s).0 ≡ listing_of none [] 0 [] 0
      → buffer_len call function direction s ≡ ok (none, (call direction [] 0 [] 0 s).1)
  unfolding buffer_len told_lengths into_opt_sql_result
  len_none e = ap (λ l. told_lengths function (l, (call direction [] 0 [] 0 s).1)) e

  module _ ⦃r : Reserve⦄ (a b : Vec) (fa : IsFull a) (fb : IsFull b) where
    -- The state behind the call that fills the buffers
    abbrev pub after : S
    after = (call direction a.elements (length a.elements) b.elements (length b.elements) s).1

    sizes : (buf : Vec) → IsFull buf → leb (length buf.elements) 32767 ≡ true
    sizes buf f = le→leb (length buf.elements) 32767 (omega (arith, f.full, f.short))

    fill_told :
        buffer_fill call function direction a b s
        ≡ told_texts function a b
            (call direction a.elements (length a.elements) b.elements (length b.elements) s)
    unfolding buffer_fill fill_buffers
    fill_told =
        ap (λ v. fill_buffers call function direction v (resize_zeroed b b.capacity) s)
          (resize_full a fa)
        ∙ ap (λ v. fill_buffers call function direction a v s) (resize_full b fb)
        ∙ rw (sizes a fa, sizes b fb)

    pub fill_some :
        (entry : Entry)
        → (call direction a.elements (length a.elements) b.elements (length b.elements) s).0
          ≡ listing_of (some entry) a.elements (length a.elements) b.elements (length b.elements)
        → (res : SqlResult (Unit {0})) × (buffer_fill call function direction a b s
            ≡ ok ((some res, holding entry.0 a, holding entry.1 b), after))
          × ((rec : Option Record) → into_result rec res ≡ Result.done tt)
    unfolding told_texts
    fill_some entry e =
        let (res, er, fine, mapped) =
          either_success
            (ltb (length entry.0) (length a.elements) && ltb (length entry.1) (length b.elements))
            function in
        (res, fill_told ∙ ap (λ l. told_texts function a b (l, after)) e ∙ rw er, fine)

    pub fill_none :
        (call direction a.elements (length a.elements) b.elements (length b.elements) s).0
          ≡ listing_of none a.elements (length a.elements) b.elements (length b.elements)
        → buffer_fill call function direction a b s ≡ ok ((none, a, b), after)
    unfolding told_texts into_opt_sql_result
    fill_none e = fill_told ∙ ap (λ l. told_texts function a b (l, after)) e
