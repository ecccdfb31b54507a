-- ===== src/Environment/Longest.antt =====
-- The first loop of `drivers` finds the lengths of the longest texts.
use odbc_api.Common.{
  ℕ, zero, suc, ◌+◌, ◌≤◌, ◌<◌, ◌≡◌, refl, ap, ◌∙◌, max, List, [], ◌∷◌, none, some, true, false, ok,
  length, drop, get_elem?, ltb, Reserve, arith,
}
use odbc_api.Sql.{Result}
use odbc_api.Statement.{◌>>=◌}
use odbc_api.Environment.{EnvironmentApi, longest}
use odbc_api.Environment.Enumerators.{FetchOrientation}
use odbc_api.Environment.Listings.{Entry, Enumerates, listing_of, len_some, len_none}

-- The entries behind a position
pub drop-none :
    {A : Type 0} (v : List A) (p : ℕ)
    → drop p v ≡ []
    → (get_elem? v p ≡ none) × (ltb p (length v) ≡ false)
drop-none [] zero e = (refl, ground arith)
drop-none [] (suc p) e = (refl, ground arith)
drop-none (x ∷ v) zero e = cc
drop-none (x ∷ v) (suc p) e = let (g, l) = drop-none v p e in (g, ground arith)

pub drop-some :
    {A : Type 0} (v : List A) (p : ℕ) (x : A) (rest : List A)
    → drop p v ≡ x ∷ rest
    → (get_elem? v p ≡ some x) × (ltb p (length v) ≡ true) × (drop (suc p) v ≡ rest)
drop-some [] zero x rest e = cc
drop-some [] (suc p) x rest e = cc
drop-some (y ∷ v) zero x rest e = (cc, ground arith, cc)
drop-some (y ∷ v) (suc p) x rest e = let (g, l, d) = drop-some v p x rest e in (g, ground arith, d)

-- The lengths of the longest texts, as the loop finds them
abbrev pub longest_of : List Entry → ℕ × ℕ → ℕ × ℕ
longest_of [] lengths = lengths
longest_of (entry ∷ entries) lengths =
    longest_of entries (max (length entry.0) lengths.0, max (length entry.1) lengths.1)

module _ {S : Type 0} ⦃r : Reserve⦄ (api : EnvironmentApi S) {entries : List Entry}
    (m : Enumerates api.sql_drivers entries) where
  pub longest_lem :
      (rest : List Entry) (fuel p : ℕ) (lengths : ℕ × ℕ) (s : S)
      → m.position s ≡ p
      → drop p entries ≡ rest
      → suc (length rest) ≤ fuel
      → (s' : S) × (longest api fuel lengths s ≡ ok (Result.done (longest_of rest lengths), s'))
        × (m.position s' ≡ 0)
  unfolding longest
  longest_lem rest zero p lengths s e d h = absurd (omega (arith, h))
  longest_lem [] (suc fuel) p lengths s e d h =
      let (none_there, last) = drop-none entries p d in
      let told = len_none api.sql_drivers "SQLDriversW" FetchOrientation.next s (
        m.next_tells [] [] 0 0 s
        ∙ ap (λ o. listing_of o [] 0 [] 0) (ap (get_elem? entries) e ∙ none_there)) in
      (
        (api.sql_drivers FetchOrientation.next [] 0 [] 0 s).1,
        rw (told, ◌>>=◌),
        m.next_moves [] [] 0 0 s ∙ rw (e, last),
      )
  longest_lem (entry ∷ rest) (suc fuel) p lengths s e d h =
      let (there, more, d') = drop-some entries p entry rest d in
      let (res, told, fine) = len_some api.sql_drivers "SQLDriversW" FetchOrientation.next s entry (
        m.next_tells [] [] 0 0 s
        ∙ ap (λ o. listing_of o [] 0 [] 0) (ap (get_elem? entries) e ∙ there)) in
      let moved : m.position (api.sql_drivers FetchOrientation.next [] 0 [] 0 s).1 ≡ suc p =
        m.next_moves [] [] 0 0 s ∙ rw (e, more) (omega arith) in
      let (s', e', at_start) =
        longest_lem rest fuel (suc p)
          (max (length entry.0) lengths.0, max (length entry.1) lengths.1)
          (api.sql_drivers FetchOrientation.next [] 0 [] 0 s).1 moved d' (omega (arith, h)) in
      (
        s',
        rw
            (
              told,
              fine (api.first_record (api.sql_drivers FetchOrientation.next [] 0 [] 0 s).1),
              ◌>>=◌,
            )
            e',
        at_start,
      )

-- Both texts of each entry are shorter than the buffers.
abbrev pub AllFit : ℕ → ℕ → List Entry → Type 0
AllFit len_a len_b [] = Unit
AllFit len_a len_b (entry ∷ entries) =
    (length entry.0 < len_a) × (length entry.1 < len_b) × AllFit len_a len_b entries

-- The loop finds lengths for which all texts fit, if their zeros are counted.
pub longest_ge :
    (rest : List Entry) (lengths : ℕ × ℕ)
    → (lengths.0 ≤ (longest_of rest lengths).0) × (lengths.1 ≤ (longest_of rest lengths).1)
longest_ge [] lengths = (omega arith, omega arith)
longest_ge (entry ∷ rest) lengths =
    let (h, k) = longest_ge rest (max (length entry.0) lengths.0, max (length entry.1) lengths.1) in
    (omega (arith, h), omega (arith, k))

pub longest_fits :
    (rest : List Entry) (lengths : ℕ × ℕ)
    → AllFit ((longest_of rest lengths).0 + 1) ((longest_of rest lengths).1 + 1) rest
longest_fits [] lengths = tt
longest_fits (entry ∷ rest) lengths =
    let next : ℕ × ℕ = (max (length entry.0) lengths.0, max (length entry.1) lengths.1) in
    let (h, k) = longest_ge rest next in
    (omega (arith, h), omega (arith, k), longest_fits rest next)

pub longest_bounded :
    (rest : List Entry) (lengths : ℕ × ℕ)
    → AllFit 32767 32767 rest
    → lengths.0 < 32767
    → lengths.1 < 32767
    → ((longest_of rest lengths).0 < 32767) × ((longest_of rest lengths).1 < 32767)
longest_bounded [] lengths fits h k = (h, k)
longest_bounded (entry ∷ rest) lengths fits h k =
    longest_bounded rest (max (length entry.0) lengths.0, max (length entry.1) lengths.1) fits.2
      (omega (arith, h, fits.0)) (omega (arith, k, fits.1))
