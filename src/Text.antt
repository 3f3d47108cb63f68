-- ===== src/Text.antt =====
-- Text as the program's `std::string` uses it: a list of byte values, with `find`, `rfind`,
-- `substr`, the order of `std::string`, and the decimal print of a counter. A position is a
-- `size_t`, whose `npos` and whose wrap-around at 64 bits are written out.
pub mod Find
pub mod Suffix
pub mod Decimal
mod Tests
use Prim.Native.Char.{code}
use iql.Base.{
  ℕ, zero, suc, ◌+◌, ◌-◌, ◌/◌, ◌%◌, String, Bool, true, false, ◌&&◌, Option, none, some, List, [],
  ◌∷◌, ◌++◌, ltb, leb, ◌==◌, if◌then◌else◌, length, take, drop,
}

abbrev pub Text : Type 0
Text = List ℕ

-- The bytes of a literal.
unfoldable pub txt : String → Text
txt String.[] = []
txt (String.◌∷◌ c s) = code c ∷ txt s

abbrev pub text_eq : Text → Text → Bool
text_eq [] [] = true
text_eq [] (d ∷ t) = false
text_eq (c ∷ s) [] = false
text_eq (c ∷ s) (d ∷ t) = (c == d) && text_eq s t

-- Whether `s` stands at the start of `t`.
unfoldable pub is_prefix : Text → Text → Bool
is_prefix [] t = true
is_prefix (c ∷ s) [] = false
is_prefix (c ∷ s) (d ∷ t) = (c == d) && is_prefix s t

-- The first position behind the head of a text, from the first position in its tail.
abbrev pub later : Option ℕ → Option ℕ
later none = none
later (some p) = some (suc p)

-- t.find(s)
unfoldable pub find : Text → Text → Option ℕ
unfolding is_prefix
find [] s = if is_prefix s [] then some 0 else none
find (d ∷ t) s = if is_prefix s (d ∷ t) then some 0 else later (find t s)

-- The last position, from the last in the tail and the test at the head.
abbrev pub last_of : Option ℕ → Bool → Option ℕ
last_of (some p) here = some (suc p)
last_of none true = some 0
last_of none false = none

-- t.rfind(s)
unfoldable pub rfind : Text → Text → Option ℕ
unfolding is_prefix
rfind [] s = if is_prefix s [] then some 0 else none
rfind (d ∷ t) s = last_of (rfind t s) (is_prefix s (d ∷ t))

-- 2 ^ 64 - 1, the `size_t` that stands for no position.
abbrev pub npos : ℕ
npos = 18446744073709551615

-- A position as the `size_t` that `find` and `rfind` return.
abbrev pub size_of : Option ℕ → ℕ
size_of none = npos
size_of (some p) = p

-- a - b on `size_t`.
abbrev pub size_sub : ℕ → ℕ → ℕ
size_sub a b = (a + 18446744073709551616 - b) % 18446744073709551616

-- The program's test for a suffix, `t.rfind(s) == t.size() - s.size()`.
unfoldable pub ends_at : Text → Text → Bool
unfolding rfind
ends_at t s = size_of (rfind t s) == size_sub (length t) (length s)

-- t.substr(0, n) and t.substr(n); a count past the end takes all.
abbrev pub prefix_of : Text → ℕ → Text
prefix_of t n = take n t

abbrev pub substr : Text → ℕ → Text
substr t n = drop n t

-- s < t in the order of `std::string`.
unfoldable pub text_lt : Text → Text → Bool
text_lt [] [] = false
text_lt [] (d ∷ t) = true
text_lt (c ∷ s) [] = false
text_lt (c ∷ s) (d ∷ t) = if ltb c d then true else (c == d) && text_lt s t

-- ASCII lower case of one byte.
unfoldable pub lower_byte : ℕ → ℕ
lower_byte c = if leb b'A' c && leb c b'Z' then c + 32 else c

-- The decimal digits of a number, on fuel above it.
unfoldable pub decimal_fuel : ℕ → ℕ → Text
decimal_fuel zero n = []
decimal_fuel (suc f) n =
    let more = decimal_fuel f (n / 10) ++ (48 + n % 10) ∷ [] in
    if ltb n 10 then (48 + n) ∷ [] else more

-- `stream << n`
unfoldable pub decimal : ℕ → Text
unfolding decimal_fuel
decimal n = decimal_fuel (suc n) n
