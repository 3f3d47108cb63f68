-- ===== src/App/Dictionary.antt =====
-- What the dictionary of tables says of a name.
use iql.Base.{
  ◌≡◌, refl, ap, ◌∙◌, Bool, false, ◌||◌, Option, none, some, List, [], ◌∷◌, arith, if◌then◌else◌,
  map, take,
}
use iql.Text.{Text, text_eq, lower_byte}
use iql.Text.Find.{text_eq_sound}
use iql.Source.{DbEnum, postgres, rasdaman}
use iql.Query.Source.{find_table}
use iql.App.{
  Dictionary, add_tables, add_collections, dictionary, binary_search, insert_sorted, sort,
  is_postgis_function,
}

-- Whether a name is one of a list.
abbrev pub is_in : Text → List Text → Bool
is_in k [] = false
is_in k (t ∷ ts) = text_eq t k || is_in k ts

find-add_tables :
    (ts : List Text) (m : Dictionary) (k : Text)
    → find_table k (add_tables ts m) ≡ (if is_in k ts then some postgres else find_table k m)
unfolding find_table add_tables
find-add_tables [] m k = refl
find-add_tables (t ∷ ts) m k = ground (arith, find-add_tables ts ((t, postgres) ∷ m) k)

abbrev or_rasdaman : Option DbEnum → Bool → Option DbEnum
or_rasdaman (some e) b = some e
or_rasdaman none b = if b then some rasdaman else none

find-add_collections :
    (cs : List Text) (m : Dictionary) (k : Text)
    → find_table k (add_collections cs m) ≡ or_rasdaman (find_table k m) (is_in k cs)
unfolding find_table add_collections
find-add_collections [] m k = ground arith
find-add_collections (c ∷ cs) m k = ground (
  arith,
  find-add_collections cs m k,
  find-add_collections cs ((c, rasdaman) ∷ m) k,
  text_eq_sound c k,
)

-- The dictionary answers POSTGRES for exactly the names of Postgres tables, RASDAMAN for the other
-- names of Rasdaman collections, and nothing else.
pub find_table-dictionary :
    (tables collections : List Text) (k : Text)
    → find_table k (dictionary tables collections) ≡ (
        if is_in k tables
        then some postgres
        else if is_in k collections
        then some rasdaman
        else none)
unfolding dictionary
find_table-dictionary tables collections k =
    find-add_collections collections (add_tables tables []) k
    ∙ ground (arith, find-add_tables tables [] k)

binary_search-insert_sorted :
    (k t : Text) (us : List Text)
    → binary_search k (insert_sorted t us) ≡ (text_eq t k || binary_search k us)
unfolding binary_search insert_sorted
binary_search-insert_sorted k t [] = refl
binary_search-insert_sorted k t (u ∷ us) = ground (arith, binary_search-insert_sorted k t us)

-- Sorting the keywords neither adds nor loses one.
pub binary_search-sort : (k : Text) (ts : List Text) → binary_search k (sort ts) ≡ is_in k ts
unfolding binary_search sort
binary_search-sort k [] = refl
binary_search-sort k (t ∷ ts) =
    binary_search-insert_sorted k t (sort ts) ∙ ap (λ b. text_eq t k || b) (binary_search-sort k ts)

-- A text is taken for a PostGIS function exactly when its first 49 bytes, in lower case, are one of
-- the routine names that the client read at its start, whatever their order.
pub is_postgis_function-sort :
    (routines : List Text) (s : Text)
    → is_postgis_function (sort routines) s ≡ is_in (map lower_byte (take 49 s)) routines
unfolding is_postgis_function
is_postgis_function-sort routines s = binary_search-sort (map lower_byte (take 49 s)) routines
