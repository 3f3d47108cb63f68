-- ===== src/Table/Column.antt =====
-- Reading and writing a column of a shaped table.
use iql.Base.{
  ℕ, zero, suc, ◌+◌, ◌<◌, ◌≤◌, ◌≡◌, refl, ap, sym, true, false, some, List, [], ◌∷◌, arith, leb,
  ◌==◌, if◌then◌else◌, length, get_elem?, set, All, inl, inr, Bool-cases,
}
use iql.Text.{Text, text_eq, ends_at}
use iql.Fault.{◌>>=◌, Result, Fault, ok, err, thrown}
use iql.Table.{
  IqlTable, column_cells, get_column, scan_names, choose_column, get_column_named, write_column,
  set_filenames, filename_suffix,
}
use iql.Table.Shape.{IsShaped}

get_elem?_lt {ℓ} :
    {A : Type ℓ} (xs : List A) (i : ℕ) → i < length xs → (a : A) × (get_elem? xs i ≡ some a)
get_elem?_lt [] i h = absurd (omega arith)
get_elem?_lt (x ∷ xs) zero h = (x, refl)
get_elem?_lt (x ∷ xs) (suc i) h = get_elem?_lt xs i (omega arith)

get_elem?-set {ℓ} :
    {A : Type ℓ} (xs : List A) (i : ℕ) (a : A) → i < length xs → get_elem? (set xs i a) i ≡ some a
get_elem?-set [] i a h = absurd (omega arith)
get_elem?-set (x ∷ xs) zero a h = refl
get_elem?-set (x ∷ xs) (suc i) a h = get_elem?-set xs i a (omega arith)

column_cells_ok :
    (cells : List (List Text)) (k i : ℕ)
    → i < k
    → All (λ row. length row ≡ k) cells
    → (column : List Text) × (column_cells (length cells) cells i ≡ ok column)
      × (length column ≡ length cells)
unfolding column_cells
column_cells_ok [] k i h a = ([], refl, refl)
column_cells_ok (row ∷ cells) k i h a =
    let (c, g) = get_elem?_lt row i (omega (arith, a.0)) in
    let (rest, e, l) = column_cells_ok cells k i h a.1 in (c ∷ rest, rw (g, e) refl, ap suc l)

get_column_ok :
    (t : IqlTable) (i : ℕ)
    → IsShaped t
    → i < t.columns
    → (column : List Text) × (get_column t i ≡ ok column) × (length column ≡ t.rows)
unfolding get_column
get_column_ok t i s h = rw (sym s.rows_fit) (column_cells_ok t.cells t.columns i h s.cells_fit)

-- A search that ends, and with a match counted has found a column of the table.
abbrev Counted : ℕ → Result (ℕ × ℕ) → Type 0
Counted k (ok o) = 0 < o.1 → o.0 < k
Counted k (err e) = ⊥

scan_names_bound :
    (n : ℕ) (qs : List Text) (name : Text) (i index count k : ℕ)
    → length qs ≡ n
    → i + n ≤ k
    → (0 < count → index < k)
    → Counted k (scan_names n qs name i index count)
unfolding scan_names
scan_names_bound zero qs name i index count k l b h = h
scan_names_bound (suc n) [] name i index count k l b h = absurd (omega (arith, l))
scan_names_bound (suc n) (q ∷ qs) name i index count k l b h = elim (Bool-cases (text_eq q name)) [
  | inl e ↦
      scan_names_bound n qs name (suc i) _ _ k (omega (arith, l)) (omega (arith, b))
        (λ z. rw e (omega (arith, b)))
  | inr e ↦
      scan_names_bound n qs name (suc i) _ _ k (omega (arith, l)) (omega (arith, b))
        (λ z. rw e (h (before e z)))
]
  where
    before : {c : ℕ} → text_eq q name ≡ false → 0 < (if text_eq q name then suc c else c) → 0 < c
    before e z = ground arith

-- What a search may fail with: an exception of its own.
abbrev pub IsThrown : Fault → Type 0
IsThrown (thrown s) = Unit
IsThrown _ = ⊥

abbrev pub Column : ℕ → Result (List Text) → Type 0
Column n (ok column) = length column ≡ n
Column n (err e) = IsThrown e

choose_column-Column :
    (t : IqlTable) (name : Text) (o : ℕ × ℕ)
    → IsShaped t
    → (0 < o.1 → o.0 < t.columns)
    → Column t.rows (choose_column t name o)
choose_column-Column t name (index, zero) s h = tt
choose_column-Column t name (index, suc zero) s h =
    let (column, e, l) = get_column_ok t index s (h (omega arith)) in rw e l
choose_column-Column t name (index, suc (suc n)) s h = tt

found-Column :
    (t : IqlTable) (name : Text) (r : Result (ℕ × ℕ))
    → IsShaped t
    → Counted t.columns r
    → Column t.rows (r >>= λ o. choose_column t name o)
found-Column t name (ok o) s h = choose_column-Column t name o s h
found-Column t name (err e) s h = absurd h

search_again :
    (t : IqlTable) (name : Text) (r : Result (ℕ × ℕ))
    → IsShaped t
    → Counted t.columns r
    → Column t.rows (
        r >>= λ o.
        (if o.1 == 0 then scan_names t.columns t.qnames name 0 o.0 0 else ok (o.0, o.1)) >>= λ p.
        choose_column t name p)
search_again t name (err e) s h = absurd h
search_again t name (ok (index, count)) s h = elim (Bool-cases (count == 0)) [
  | inl e ↦ rw e (
      found-Column t name (scan_names t.columns t.qnames name 0 index 0) s (
        scan_names_bound t.columns t.qnames name 0 index 0 t.columns s.qnames_fit (omega arith)
          (λ z. absurd (omega (arith, z)))))
  | inr e ↦ rw e (choose_column-Column t name (index, count) s h)
]

-- On a shaped table, a search for a column by name returns one text for each row or throws a
-- message; it reads nothing outside the table, neither of its names nor of its cells.
pub get_column_named-Column :
    (t : IqlTable) (name : Text) → IsShaped t → Column t.rows (get_column_named t name)
unfolding get_column_named
get_column_named-Column t name s =
    search_again t name (scan_names t.columns t.qnames name 0 0 0) s (
      scan_names_bound t.columns t.qnames name 0 0 0 t.columns s.qnames_fit (omega arith)
        (λ z. absurd (omega (arith, z))))

write_column_read :
    (n : ℕ) (cells : List (List Text)) (values : List Text) (k i : ℕ)
    → i < k
    → length cells ≡ n
    → length values ≡ n
    → All (λ row. length row ≡ k) cells
    → (out : List (List Text)) × (write_column n cells values i ≡ ok out)
      × (column_cells n out i ≡ ok values)
unfolding write_column column_cells
write_column_read zero cells [] k i h c l a = (cells, refl, refl)
write_column_read zero cells (v ∷ values) k i h c l a = absurd (omega arith)
write_column_read (suc n) [] values k i h c l a = absurd (omega arith)
write_column_read (suc n) (row ∷ cells) [] k i h c l a = absurd (omega arith)
write_column_read (suc n) (row ∷ cells) (v ∷ values) k i h c l a =
    let (_, g) = get_elem?_lt row i (omega (arith, a.0)) in
    let (out, e, r) = write_column_read n cells values k i h (omega arith) (omega arith) a.1 in
    (set row i v ∷ out, rw (g, e) refl, rw (get_elem?-set row i v (omega (arith, a.0)), r) refl)

-- In a shaped table, writing one file name for each row to a column whose qualified name passes the
-- test for file names succeeds, and the column then reads back as what was written.
pub get_column-set_filenames :
    (t : IqlTable) (values : List Text) (i : ℕ) (q : Text)
    → IsShaped t
    → i < t.columns
    → get_elem? t.qnames i ≡ some q
    → ends_at q filename_suffix ≡ true
    → length values ≡ t.rows
    → (u : IqlTable) × (set_filenames t values i ≡ ok u) × (get_column u i ≡ ok values)
unfolding set_filenames get_column
get_column-set_filenames t values i q s h g p l =
    let inside : leb t.columns i ≡ false = ground arith in
    let (out, e, r) =
      write_column_read t.rows t.cells values t.columns i h s.rows_fit l s.cells_fit in
    (record t { cells = out }, rw (inside, g, p, e) refl, r)
