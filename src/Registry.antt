-- ===== src/Registry.antt =====
-- What the registries of temporary tables hold: PostgresDS::tempTables and RasdamanDS::tempTables,
-- the keys of two std::map, and IqlApp::tableMap beside them.
pub mod Frame
pub mod Statement
pub mod Results
mod Tests
use iql.Base.{◌≡◌, refl, true, false, List, [], ◌∷◌, inl, inr, Bool-cases}
use iql.Text.{Text, text_eq, text_lt}
use iql.Exec.{World, insert_key}
use iql.Exec.Keys.{IsKey, insert_key_keeps}
use iql.Keyword.Order.{text_lt_total}
use iql.Source.{DbEnum}

-- The keys stand in the map's order, each once.
abbrev pub IsOrdered : List Text → Type 0
IsOrdered [] = Unit
IsOrdered (k ∷ []) = Unit
IsOrdered (k ∷ j ∷ ks) = (text_lt k j ≡ true) × IsOrdered (j ∷ ks)

tail-IsOrdered : (k : Text) (ks : List Text) → IsOrdered (k ∷ ks) → IsOrdered ks
tail-IsOrdered k [] h = tt
tail-IsOrdered k (j ∷ ks) h = h.1

-- A key inserted behind a smaller one.
insert_behind :
    (j k : Text) (ks : List Text)
    → text_lt j k ≡ true
    → IsOrdered (j ∷ ks)
    → IsOrdered (insert_key k ks)
    → IsOrdered (j ∷ insert_key k ks)
unfolding insert_key
insert_behind j k [] l h o = (l, tt)
insert_behind j k (i ∷ ks) l h o = elim (Bool-cases (text_eq k i)) [
  | inl e ↦ rw e h
  | inr e ↦ elim (Bool-cases (text_lt k i)) [
    | inl f ↦ rw (e, f) (l, (f, h.1))
    | inr f ↦ rw (e, f) (h.0, rw (e, f) at o)
  ]
]

pub insert_key-IsOrdered : (k : Text) (ks : List Text) → IsOrdered ks → IsOrdered (insert_key k ks)
unfolding insert_key
insert_key-IsOrdered k [] h = tt
insert_key-IsOrdered k (j ∷ ks) h = elim (Bool-cases (text_eq k j)) [
  | inl e ↦ rw e h
  | inr e ↦ elim (Bool-cases (text_lt k j)) [
    | inl f ↦ rw (e, f) (f, h)
    | inr f ↦
        rw (e, f)
          (insert_behind j k ks (text_lt_total k j e f) h
            (insert_key-IsOrdered k ks (tail-IsOrdered j ks h)))
  ]
]
