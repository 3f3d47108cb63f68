-- ===== src/Keyword/Tests.antt =====
-- Searches in a small table and in the program's own.
use iql.Base.{◌≡◌, refl, List, [], ◌∷◌, map}
use iql.Text.{txt, lower_byte}
use iql.Keyword.{RasqlKeyword, missing, lookup_in}
use iql.Keyword.Search.{IsSound, lookup_in-IsSound}
use iql.Keyword.Missed.{lookup, lookup_lem}

abbrev avg : RasqlKeyword
avg = record { name = txt "avg"; token = txt "AVG" }

abbrev bit : RasqlKeyword
bit = record { name = txt "bit"; token = txt "BIT" }

abbrev pair : List RasqlKeyword
pair = avg ∷ bit ∷ []

lookup_in-IsSound_example : IsSound pair (map lower_byte (txt "BIT")) (lookup_in pair (txt "BIT"))
lookup_in-IsSound_example = lookup_in-IsSound pair (txt "BIT")

lookup_lem_example : lookup (txt "Sin") ≡ missing
unfolding txt lower_byte
lookup_lem_example =
    lookup_lem 55 (record { name = txt "sin"; token = txt "SIN" }) (txt "Sin") refl refl
