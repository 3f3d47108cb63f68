-- ===== src/Exec/Keys.antt =====
-- The ordered keys of a `std::map<string, bool>`: what `insert_key` adds and keeps.
use iql.Base.{◌≡◌, ◌⊎◌, refl, List, [], ◌∷◌, inl, inr, Bool-cases}
use iql.Text.{Text, text_eq, text_lt}
use iql.Text.Find.{text_eq_sound}
use iql.Exec.{insert_key}

-- `k` is one of the keys.
abbrev pub IsKey : Text → List Text → Type 0
IsKey k [] = ⊥
IsKey k (j ∷ ks) = (k ≡ j) ⊎ IsKey k ks

pub insert_key-IsKey : (k : Text) (ks : List Text) → IsKey k (insert_key k ks)
unfolding insert_key
insert_key-IsKey k [] = inl refl
insert_key-IsKey k (j ∷ ks) = elim (Bool-cases (text_eq k j)) [
  | inl e ↦ rw e (inl (text_eq_sound k j e))
  | inr e ↦ rw e (elim (Bool-cases (text_lt k j)) [
    | inl f ↦ rw f (inl refl)
    | inr f ↦ rw f (inr (insert_key-IsKey k ks))
  ])
]

pub insert_key_keeps : (k i : Text) (ks : List Text) → IsKey i ks → IsKey i (insert_key k ks)
unfolding insert_key
insert_key_keeps k i [] h = absurd h
insert_key_keeps k i (j ∷ ks) h = elim (Bool-cases (text_eq k j)) [
  | inl e ↦ rw e h
  | inr e ↦ rw e (elim (Bool-cases (text_lt k j)) [
    | inl f ↦ rw f (inr h)
    | inr f ↦ rw f (tail (insert_key_keeps k i ks) h)
  ])
]
  where
    tail :
        (IsKey i ks → IsKey i (insert_key k ks))
        → IsKey i (j ∷ ks)
        → (i ≡ j) ⊎ IsKey i (insert_key k ks)
    tail rest (inl q) = inl q
    tail rest (inr q) = inr (rest q)
