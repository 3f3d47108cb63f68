-- ===== src/Str/Tests.antt =====
-- Joined texts.
use iql.Base.{◌≡◌, refl, Option, some, none, [], ◌∷◌}
use iql.Text.{Text, txt}
use iql.Str.{cat2, cat3, cat4, cat5, cat6, cat7, cat8, cat9, cat10}
use iql.Str.Joined.{fitted, cat_lem}

-- A null pointer is a blank.
cat2_null : cat2 (some (txt "a")) none ≡ some (txt "a  ")
unfolding cat2 txt
cat2_null = refl

abbrev a : Option Text
a = some (txt "a")

cat_lem_example :
    (cat2 a none ≡ fitted a (none ∷ []))
    × (cat3 a none a ≡ fitted a (none ∷ a ∷ []))
    × (cat4 a none a a ≡ fitted a (none ∷ a ∷ a ∷ []))
    × (cat5 a none a a a ≡ fitted a (none ∷ a ∷ a ∷ a ∷ []))
    × (cat6 a none a a a a ≡ fitted a (none ∷ a ∷ a ∷ a ∷ a ∷ []))
    × (cat7 a none a a a a a ≡ fitted a (none ∷ a ∷ a ∷ a ∷ a ∷ a ∷ []))
    × (cat8 a none a a a a a a ≡ fitted a (none ∷ a ∷ a ∷ a ∷ a ∷ a ∷ a ∷ []))
    × (cat9 a none a a a a a a a ≡ fitted a (none ∷ a ∷ a ∷ a ∷ a ∷ a ∷ a ∷ a ∷ []))
    × (cat10 a none a a a a a a a a ≡ fitted a (none ∷ a ∷ a ∷ a ∷ a ∷ a ∷ a ∷ a ∷ a ∷ []))
cat_lem_example = cat_lem a none a a a a a a a a
