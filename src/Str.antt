-- ===== src/Str.antt =====
-- src/grammar/str.c: the functions that the grammar joins texts with. Each writes into the one
-- global buffer `output` by sprintf, which knows no bound, and returns a copy; `none` is a write
-- behind the buffer's end. An argument of `none` is a null pointer. The copies that are joined are
-- taken to be allocated.
pub mod Joined
mod Tests
use iql.Base.{ℕ, Bool, Option, none, some, List, [], ◌∷◌, ◌++◌, ltb, length, if◌then◌else◌}
use iql.Text.{Text, txt}

abbrev pub max_length : ℕ
max_length = 512

abbrev pub blank : Text
blank = txt " "

-- A null pointer stands for the blank.
abbrev pub or_blank : Option Text → Text
or_blank none = blank
or_blank (some s) = s

infixl 10 ◌>>=◌
abbrev ◌>>=◌ : {A B : Type 0} → Option A → (A → Option B) → Option B
none >>= f = none
some a >>= f = f a

-- `sprintf(output, "%s%s%s", s1, SEPARATOR, s2)` and the copy: the text and its null byte have to
-- fit the buffer.
abbrev pub print_pair : Text → Text → Option Text
print_pair s1 s2 = let t = s1 ++ (blank ++ s2) in if ltb (length t) max_length then some t else none

unfoldable pub cat2 : Option Text → Option Text → Option Text
cat2 s1 s2 = print_pair (or_blank s1) (or_blank s2)

unfoldable pub cat3 : Option Text → Option Text → Option Text → Option Text
unfolding cat2
cat3 s1 s2 s3 = do part1 ← cat2 s1 s2; print_pair part1 (or_blank s3)

unfoldable pub cat4 : Option Text → Option Text → Option Text → Option Text → Option Text
unfolding cat2
cat4 s1 s2 s3 s4 = do part1 ← cat2 s1 s2; part2 ← cat2 s3 s4; print_pair part1 part2

unfoldable pub cat5 :
    Option Text → Option Text → Option Text → Option Text → Option Text → Option Text
unfolding cat4
cat5 s1 s2 s3 s4 s5 = do part1 ← cat4 s1 s2 s3 s4; print_pair part1 (or_blank s5)

unfoldable pub cat6 :
    Option Text → Option Text → Option Text → Option Text → Option Text → Option Text → Option Text
unfolding cat4 cat2
cat6 s1 s2 s3 s4 s5 s6 = do part1 ← cat4 s1 s2 s3 s4; part2 ← cat2 s5 s6; print_pair part1 part2

module _ (s1 s2 s3 s4 s5 s6 s7 : Option Text) where
  unfoldable pub cat7 : Option Text
  unfolding cat6
  cat7 = do part1 ← cat6 s1 s2 s3 s4 s5 s6; print_pair part1 (or_blank s7)

  unfoldable pub cat8 : Option Text → Option Text
  unfolding cat4
  cat8 s8 = do part2 ← cat4 s5 s6 s7 s8; part1 ← cat4 s1 s2 s3 s4; print_pair part1 part2

  unfoldable pub cat9 : Option Text → Option Text → Option Text
  unfolding cat8
  cat9 s8 s9 = do part1 ← cat8 s8; print_pair part1 (or_blank s9)

  unfoldable pub cat10 : Option Text → Option Text → Option Text → Option Text
  unfolding cat6 cat4
  cat10 s8 s9 s10 = do
    part2 ← cat6 s5 s6 s7 s8 s9 s10
    part1 ← cat4 s1 s2 s3 s4
    print_pair part1 part2
