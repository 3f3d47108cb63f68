-- ===== src/Keyword/Search.antt =====
-- The binary search for keywords, over every table and word.
use iql.Base.{
  ℕ, zero, suc, ◌+◌, ◌-◌, ◌/◌, ◌≤◌, ◌<◌, ◌≡◌, refl, some, List, [], ◌∷◌, map, arith, ltb, leb,
  length, get_elem?, inl, inr, Bool-cases,
}
use iql.Text.{Text, text_eq, text_lt, lower_byte}
use iql.Text.Find.{text_eq_sound}
use iql.Keyword.{
  RasqlKeyword, Outcome, found, missing, out_of_range, out_of_fuel, search, lookup_in,
  name_data_len,
}

get_elem?-some {ℓ} :
    {A : Type ℓ} (xs : List A) (i : ℕ) → i < length xs → (a : A) × (get_elem? xs i ≡ some a)
get_elem?-some [] i h = elim h [ ]
get_elem?-some (x ∷ xs) zero h = (x, refl)
get_elem?-some (x ∷ xs) (suc i) h = get_elem?-some xs i (omega arith)

-- What a result of the search is good for.
abbrev pub IsSound : List RasqlKeyword → Text → Outcome → Type 0
IsSound table word (found k) = (k.name ≡ word) × (i : ℕ) × (get_elem? table i ≡ some k)
IsSound table word missing = Unit
IsSound table word out_of_range = ⊥
IsSound table word out_of_fuel = ⊥

search-IsSound :
    (fuel : ℕ) (table : List RasqlKeyword) (word : Text) (low hi : ℕ)
    → low ≤ hi
    → hi < fuel + low
    → hi ≤ length table
    → IsSound table word (search fuel table word low hi)
unfolding search
search-IsSound zero table word low hi o h b = absurd (omega arith)
search-IsSound (suc fuel) table word low hi o h b = elim (Bool-cases (ltb low hi)) [
  | inr e ↦ rw e tt
  | inl e ↦
      let m : ℕ = low + (hi - 1 - low) / 2 in
      let lt : m < hi = ground arith in
      let (k, g) = get_elem?-some table m (omega arith) in
      rw (e, g)
        (elim (Bool-cases (text_eq k.name word)) [
          | inl same ↦ rw same (text_eq_sound k.name word same, m, g)
          | inr other ↦ rw other (elim (Bool-cases (text_lt k.name word)) [
            | inl less ↦
                rw less (search-IsSound fuel table word (m + 1) hi (omega arith) (omega arith) b)
            | inr more ↦
                rw more
                  (search-IsSound fuel table word low m (omega arith) (omega arith) (omega arith))
          ])
        ])
]

-- For every table and word the search ends within its table. A keyword that it finds stands in the
-- table and is the word in lower case.
pub lookup_in-IsSound :
    (table : List RasqlKeyword) (text : Text)
    → IsSound table (map lower_byte text) (lookup_in table text)
unfolding lookup_in
lookup_in-IsSound table text = elim (Bool-cases (leb name_data_len (length text))) [
  | inl e ↦ rw e tt
  | inr e ↦ rw e (
      search-IsSound (suc (length table)) table (map lower_byte text) 0 (length table) (omega arith)
        (omega arith) (omega arith))
]
