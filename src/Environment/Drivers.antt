-- ===== src/Environment/Drivers.antt =====
-- What `drivers` returns from a driver manager that lists them.
use odbc_api.Common.{
  ℕ, zero, suc, ◌+◌, ◌≤◌, ◌<◌, ◌≡◌, refl, ap, ◌∙◌, List, [], ◌∷◌, Option, none, some, true, ok,
  panic, map_run, length, drop, get_elem?, ltb, lt→ltb, if◌then◌else◌, Vec, Reserve,
  length-replicate, arith,
}
use odbc_api.Common.Panics.{Run}
use odbc_api.Sql.{Result}
use odbc_api.Statement.{Call, pure, ◌>>=◌}
use odbc_api.Environment.{
  EnvironmentApi, transposed, filled, read_all, read_entry, next_driver, drivers, zeros,
}
use odbc_api.Environment.Enumerators.{FetchOrientation}
use odbc_api.Environment.Texts.{Text, DriverInfo, driver_info}
use odbc_api.Environment.Infos.{info_of, info_before, infos, info_lem}
use odbc_api.Environment.Described.{AreListed, infos-AreListed}
use odbc_api.Environment.Listings.{
  Entry, Enumerates, listing_of, IsFull, holding, holding-IsFull, len_some, len_none, fill_some,
  fill_none,
}
use odbc_api.Environment.Longest.{
  AllFit, longest_of, drop-none, drop-some, longest_lem, longest_ge, longest_fits, longest_bounded,
}

-- An outcome without the state
abbrev pub outcome : {S A : Type 0} → Run (Result A × S) → Run (Result A)
outcome = map_run (λ o. o.0)

cons_lem :
    {S A : Type 0} (x : A) (call : Call S (Result (List A))) (s : S) (o : Run (Result (List A) × S))
    (entries : Run (List A))
    → call s ≡ o
    → outcome o ≡ map_run Result.done entries
    → outcome ((call >>= λ rest. pure (x ∷ rest)) s)
      ≡ map_run Result.done (map_run (λ rest. x ∷ rest) entries)
cons_lem x call s (ok (Result.done l, s')) (ok l') eo e =
    let same : l ≡ l' = cc in rw (eo, ◌>>=◌, same)
cons_lem x call s (ok (Result.done l, s')) panic eo e = cc
cons_lem x call s (ok (Result.failed f, s')) (ok l') eo e = cc
cons_lem x call s (ok (Result.failed f, s')) panic eo e = cc
cons_lem x call s panic (ok l') eo e = cc
cons_lem x call s panic panic eo e = rw (eo, ◌>>=◌)

module _ {S : Type 0} ⦃r : Reserve⦄ (api : EnvironmentApi S) (decode : List ℕ → Option Text)
    {entries : List Entry} (m : Enumerates api.sql_drivers entries) where
  -- The state behind the next call that fills these buffers
  abbrev behind : Vec → Vec → S → S
  behind a b s =
      (api.sql_drivers FetchOrientation.next a.elements (length a.elements) b.elements
        (length b.elements) s).1

  abbrev next_state : Vec → Vec → Entry → S → S
  next_state a b entry s = behind (holding entry.0 a) (holding entry.1 b) s

  tells :
      (a b : Vec) (s : S) (o : Option Entry)
      → get_elem? entries (m.position s) ≡ o
      → (api.sql_drivers FetchOrientation.next a.elements
          (length a.elements)
          b.elements
          (length b.elements)
          s).0
        ≡ listing_of o a.elements (length a.elements) b.elements (length b.elements)
  tells a b s o e =
      m.next_tells a.elements b.elements (length a.elements) (length b.elements) s
      ∙ ap (λ x. listing_of x a.elements (length a.elements) b.elements (length b.elements)) e

  moves :
      (a b : Vec) (s : S)
      → m.position (behind a b s)
        ≡ (if ltb (m.position s) (length entries) then m.position s + 1 else 0)
  moves a b s = m.next_moves a.elements b.elements (length a.elements) (length b.elements) s

  fetch_none :
      (a b : Vec) (s : S)
      → IsFull a
      → IsFull b
      → get_elem? entries (m.position s) ≡ none
      → next_driver api a b s ≡ ok (Result.done none, behind a b s)
  fetch_none a b s fa fb e = rw (
    fill_none api.sql_drivers "SQLDriversW" FetchOrientation.next s a b fa fb (tells a b s none e),
    filled,
  )

  fetch_some :
      (a b : Vec) (entry : Entry) (s : S)
      → IsFull a
      → IsFull b
      → get_elem? entries (m.position s) ≡ some entry
      → next_driver api a b s
        ≡ ok (Result.done (some (holding entry.0 a, holding entry.1 b)), behind a b s)
  fetch_some a b entry s fa fb e =
      let (res, told, fine) =
        fill_some api.sql_drivers "SQLDriversW" FetchOrientation.next s a b fa fb entry
          (tells a b s (some entry) e) in
      rw (told, filled, fine (api.first_record (behind a b s)))

  read_lem :
      (entry : Entry) (a b : Vec)
      → IsFull a
      → IsFull b
      → length entry.0 < a.capacity
      → length entry.1 < b.capacity
      → driver_info decode (holding entry.0 a).elements (holding entry.1 b).elements
        ≡ info_of decode entry
  read_lem entry a b fa fb ha hb =
      info_lem decode entry a b (omega (arith, ha, fa.full)) (omega (arith, hb, fb.full))

  step :
      (again : Option (Vec × Vec) → Call S (Result (List DriverInfo))) (info : Run DriverInfo)
      (rest : Run (List DriverInfo)) (buffers : Vec × Vec) (o : Option (Vec × Vec)) (s s' : S)
      → driver_info decode buffers.0.elements buffers.1.elements ≡ info
      → next_driver api buffers.0 buffers.1 s ≡ ok (Result.done o, s')
      → outcome (again o s') ≡ map_run Result.done rest
      → outcome (read_entry api again (next_driver api) (driver_info decode) buffers s)
        ≡ map_run Result.done (info_before info rest)
  unfolding read_entry
  step again panic rest buffers o s s' ei en er = rw (ei, ◌>>=◌)
  step again (ok info) rest buffers o s s' ei en er =
      rw (ei, en, ◌>>=◌) (cons_lem info (again o) s' (again o s') rest refl er)

  read_all_lem :
      (rest : List Entry) (entry : Entry) (fuel p : ℕ) (a b : Vec) (s : S)
      → m.position s ≡ p
      → drop p entries ≡ rest
      → IsFull a
      → IsFull b
      → AllFit a.capacity b.capacity (entry ∷ rest)
      → suc (length rest) ≤ fuel
      → outcome (
          read_all api
            (next_driver api)
            (driver_info decode)
            fuel
            (some (holding entry.0 a, holding entry.1 b))
            s)
        ≡ map_run Result.done (infos decode (entry ∷ rest))
  unfolding read_all
  read_all_lem rest entry zero p a b s e d fa fb fits h = absurd (omega (arith, h))
  read_all_lem [] entry (suc fuel) p a b s e d fa fb fits h =
      let (none_there, last) = drop-none entries p d in
      step (read_all api (next_driver api) (driver_info decode) fuel) (info_of decode entry) (ok [])
        (holding entry.0 a, holding entry.1 b) none s (next_state a b entry s)
        (read_lem entry a b fa fb fits.0 fits.1)
        (fetch_none (holding entry.0 a) (holding entry.1 b) s (holding-IsFull entry.0 a fa)
          (holding-IsFull entry.1 b fb) (ap (get_elem? entries) e ∙ none_there))
        refl
  read_all_lem (next_entry ∷ rest) entry (suc fuel) p a b s e d fa fb fits h =
      let (there, more, d') = drop-some entries p next_entry rest d in
      step (read_all api (next_driver api) (driver_info decode) fuel) (info_of decode entry)
        (infos decode (next_entry ∷ rest)) (holding entry.0 a, holding entry.1 b)
        (some (holding next_entry.0 (holding entry.0 a), holding next_entry.1 (holding entry.1 b)))
        s (next_state a b entry s) (read_lem entry a b fa fb fits.0 fits.1)
        (fetch_some (holding entry.0 a) (holding entry.1 b) next_entry s
          (holding-IsFull entry.0 a fa) (holding-IsFull entry.1 b fb)
          (ap (get_elem? entries) e ∙ there))
        (read_all_lem rest next_entry fuel (suc p) (holding entry.0 a) (holding entry.1 b)
          (next_state a b entry s)
          (moves (holding entry.0 a) (holding entry.1 b) s ∙ rw (e, more) (omega arith)) d'
          (holding-IsFull entry.0 a fa) (holding-IsFull entry.1 b fb) fits.2 (omega (arith, h)))

zeros-IsFull : (n : ℕ) → n < 32767 → IsFull (zeros (n + 1))
zeros-IsFull n h = record { full = length-replicate {A = ℕ} (n + 1) 0; short = omega (arith, h) }

module _ {S : Type 0} ⦃r : Reserve⦄ (api : EnvironmentApi S) (decode : List ℕ → Option Text)
    {entries : List Entry} (m : Enumerates api.sql_drivers entries) (fuel : ℕ)
    (enough : suc (length entries) ≤ fuel) where
  listed :
      (es : List Entry)
      → entries ≡ es
      → (s : S) → AllFit 32767 32767 es
      → suc (length es) ≤ fuel
      → outcome (drivers api decode fuel s) ≡ map_run Result.done (infos decode es)
  unfolding drivers
  listed [] e s fits h =
      let told =
        len_none api.sql_drivers "SQLDriversW" FetchOrientation.first s
          (m.first_tells [] [] 0 0 s ∙ ap (λ v. listing_of (get_elem? v 0) [] 0 [] 0) e) in
      rw (told, transposed, ◌>>=◌)
  listed (entry ∷ rest) e s fits h =
      let (res, told, fine) =
        len_some api.sql_drivers "SQLDriversW" FetchOrientation.first s entry
          (m.first_tells [] [] 0 0 s ∙ ap (λ v. listing_of (get_elem? v 0) [] 0 [] 0) e) in
      let some_there : ltb 0 (length (entry ∷ rest)) ≡ true =
        lt→ltb 0 (length (entry ∷ rest)) (omega arith) in
      let s₁ : S = (api.sql_drivers FetchOrientation.first [] 0 [] 0 s).1 in
      let lengths : ℕ × ℕ = (length entry.0, length entry.1) in
      let (s₂, found, at_start) =
        longest_lem api m rest fuel 1 lengths s₁ (m.first_moves [] [] 0 0 s ∙ rw (e, some_there))
          (ap (drop 1) e) (omega (arith, h)) in
      let l : ℕ × ℕ = longest_of rest lengths in
      let (ha, hb) = longest_bounded rest lengths fits.2 fits.0 fits.1 in
      let (ga, gb) = longest_ge rest lengths in
      let fa = zeros-IsFull l.0 ha in
      let fb = zeros-IsFull l.1 hb in
      let fetched =
        fetch_some api decode m (zeros (l.0 + 1)) (zeros (l.1 + 1)) entry s₂ fa fb
          (ap (get_elem? entries) at_start ∙ ap (λ v. get_elem? v 0) e) in
      rw (told, transposed, fine (api.first_record s₁), ◌>>=◌, found, fetched)
        (read_all_lem api decode m rest entry fuel 1 (zeros (l.0 + 1)) (zeros (l.1 + 1))
          (behind api decode m (zeros (l.0 + 1)) (zeros (l.1 + 1)) s₂)
          (moves api decode m (zeros (l.0 + 1)) (zeros (l.1 + 1)) s₂ ∙ rw (at_start, e, some_there))
          (ap (drop 1) e) fa fb (omega (arith, ga), omega (arith, gb), longest_fits rest lengths)
          (omega (arith, h)))

  drivers-infos :
      (s : S)
      → AllFit 32767 32767 entries
      → outcome (drivers api decode fuel s) ≡ map_run Result.done (infos decode entries)
  drivers-infos s fits = listed entries refl s fits enough

  -- From a driver manager that walks through the drivers, each of whose two texts is shorter than
  -- 2 ^ 15 - 1 characters and can be converted, the attributes being empty, or a `key=value` with a
  -- zero behind it and anything behind that, `drivers` ends, without a panic and without an error, in
  -- whatever state the driver manager is: neither loop takes more rounds than there are drivers, and
  -- one. It gives every driver, in order, with its description and the first of its attributes, where
  -- there is one, the key in front of the `=` and the value, without a second `=`, behind it; the
  -- other attributes are not there.
  pub drivers_lem :
      (infos : List DriverInfo) (s : S)
      → AllFit 32767 32767 entries
      → AreListed decode entries infos
      → outcome (drivers api decode fuel s) ≡ ok (Result.done infos)
  drivers_lem infos s fits h =
      drivers-infos s fits ∙ ap (map_run Result.done) (infos-AreListed decode entries infos h)
