-- ===== src/Keyword.antt =====
-- src/rasdaman/rqlkwlookup.cpp: the binary search for a RaSQL keyword. `high` of the source is the
-- last entry of the range; here `hi` is one past it, so that a search that goes below the first
-- entry needs no negative index.
pub mod Entries
pub mod Order
pub mod Search
pub mod Missed
mod Tests
use iql.Base.{
  ℕ, zero, suc, ◌+◌, ◌-◌, ◌/◌, Bool, true, false, Option, none, some, List, [], ◌∷◌, map, ltb, leb,
  if◌then◌else◌, length, get_elem?,
}
use iql.Text.{Text, text_eq, text_lt, lower_byte}

pub record RasqlKeyword : Type 0 where
  pub name : Text
  pub token : Text

pub data Outcome : Type 0 where
  found : RasqlKeyword → Outcome
  missing out_of_range out_of_fuel : Outcome

-- The loop `while (low <= high)`; an entry outside the table is a read outside the array.
unfoldable pub search : ℕ → List RasqlKeyword → Text → ℕ → ℕ → Outcome
unfolding text_lt
search zero table word low hi = out_of_fuel
search (suc fuel) table word low hi =
    let middle : ℕ = low + (hi - 1 - low) / 2 in
    let below = search fuel table word low middle in
    let above = search fuel table word (middle + 1) hi in
    if ltb low hi
    then elim (get_elem? table middle) [
      | none ↦ out_of_range
      | some k ↦
          if text_eq k.name word then found k else if text_lt k.name word then above else below
    ]
    else missing

-- NAMEDATALEN
abbrev pub name_data_len : ℕ
name_data_len = 64

-- RasqlKeywordLookup over a table of keywords.
unfoldable pub lookup_in : List RasqlKeyword → Text → Outcome
unfolding search lower_byte
lookup_in table text =
    if leb name_data_len (length text)
    then missing
    else search (suc (length table)) table (map lower_byte text) 0 (length table)
