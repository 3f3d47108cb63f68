-- ===== src/Keyword/Missed.antt =====
-- RasqlKeywordLookup over the program's own table, which is not sorted.
use mathlib.Core.Path.{subst}
use iql.Base.{
  ℕ, zero, suc, ap, sym, ◌∙◌, and_true, if_true, if_false, length-map, ◌≡◌, refl, Bool, true, false,
  not, ◌&&◌, ◌||◌, some, List, [], ◌∷◌, map, arith, ltb, leb, if◌then◌else◌, length, get_elem?,
}
use iql.Text.{Text, txt, text_eq, lower_byte}
use iql.Text.Find.{text_eq_sound}
use iql.Keyword.{RasqlKeyword, Outcome, found, missing, search, lookup_in, name_data_len}
use iql.Keyword.Entries.{rasql_keywords}

-- RasqlKeywordLookup
pub lookup : Text → Outcome
unfolding lookup_in
lookup text = lookup_in rasql_keywords text

-- The keywords log, sin and tan; the table has log before lo, sinh before sin and tanh before tan.
abbrev pub is_missed : Text → Bool
is_missed name = text_eq name (txt "log") || text_eq name (txt "sin") || text_eq name (txt "tan")

-- What the search for a word in lower case comes to.
search_word : Text → Outcome
unfolding search
search_word word =
    search (suc (length rasql_keywords)) rasql_keywords word 0 (length rasql_keywords)

-- The answer that is checked for each entry of the table.
abbrev expected : RasqlKeyword → Outcome
expected k = if is_missed k.name then missing else found k

abbrev agrees : RasqlKeyword → Outcome → Bool
agrees k (found j) = not (is_missed k.name) && (text_eq j.name k.name && text_eq j.token k.token)
agrees k missing = is_missed k.name
agrees k _ = false

abbrev checks : List RasqlKeyword → Bool
checks [] = true
checks (k ∷ ks) = (ltb (length k.name) name_data_len && agrees k (search_word k.name)) && checks ks

all_check : checks rasql_keywords ≡ true
unfolding search_word txt
all_check = refl

entries_equal :
    (j k : RasqlKeyword) → text_eq j.name k.name ≡ true → text_eq j.token k.token ≡ true → j ≡ k
entries_equal j k n t = λ i. record {
  name = text_eq_sound j.name k.name n i;
  token = text_eq_sound j.token k.token t i;
}

agrees-expected : (k : RasqlKeyword) (o : Outcome) → agrees k o ≡ true → o ≡ expected k
agrees-expected k (found j) h =
    let (new, same) = and_true (not (is_missed k.name)) _ h in
    let (n, t) = and_true (text_eq j.name k.name) _ same in
    ap found (entries_equal j k n t) ∙ sym (if_false (is_missed k.name) _ _ (ground arith))
agrees-expected k missing h = sym (if_true (is_missed k.name) _ _ h)
agrees-expected k _ h = cc

-- Every entry is short, and the search for its name comes to what is expected.
check_at :
    (ks : List RasqlKeyword) (i : ℕ) (k : RasqlKeyword)
    → checks ks ≡ true
    → get_elem? ks i ≡ some k
    → (ltb (length k.name) name_data_len ≡ true) × (search_word k.name ≡ expected k)
check_at [] i k h e = cc
check_at (j ∷ ks) zero k h e =
    let (head, _) = and_true _ (checks ks) h in
    let (short, same) = and_true (ltb (length j.name) name_data_len) _ head in
    let jk : j ≡ k = cc in
    subst (λ x. (ltb (length x.name) name_data_len ≡ true) × (search_word x.name ≡ expected x)) jk
      (short, agrees-expected j (search_word j.name) same)
check_at (j ∷ ks) (suc i) k h e = check_at ks i k (and_true _ (checks ks) h).1 e

-- A text that is short enough is searched for in lower case.
search_of_lookup_in :
    (table : List RasqlKeyword) (text word : Text)
    → ltb (length word) name_data_len ≡ true
    → map lower_byte text ≡ word
    → lookup_in table text ≡ search (suc (length table)) table word 0 (length table)
unfolding lookup_in
search_of_lookup_in table text word h e =
    if_false (leb name_data_len (length text)) _ _ short
    ∙ ap (λ w. search (suc (length table)) table w 0 (length table)) e
  where
    short : leb name_data_len (length text) ≡ false
    short = ground (arith, length-map lower_byte text, ap length e)

-- Of the program's table, every keyword but log, sin and tan is found from any text that is its name
-- in lower case; log, sin and tan are not found.
pub lookup_lem :
    (i : ℕ) (k : RasqlKeyword) (text : Text)
    → get_elem? rasql_keywords i ≡ some k
    → map lower_byte text ≡ k.name
    → lookup text ≡ (if is_missed k.name then missing else found k)
unfolding lookup search_word
lookup_lem i k text at e =
    let (short, same) = check_at rasql_keywords i k all_check at in
    search_of_lookup_in rasql_keywords text k.name short e ∙ same
