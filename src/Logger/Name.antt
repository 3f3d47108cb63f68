-- ===== src/Logger/Name.antt =====
-- What formatClassName makes of a signature `<type> <name>(<parameters>)`.
use iql.Base.{
  ℕ, suc, ◌+◌, ◌≡◌, refl, ap, ◌∙◌, false, none, some, [], ◌∷◌, ◌++◌, arith, ◌==◌, length, drop,
  take-append,
}
use iql.Text.{Text, find, rfind}
use iql.Logger.{after_space, format_class_name}

-- A byte that a text does not hold.
abbrev pub Without : ℕ → Text → Type 0
Without c [] = Unit
Without c (d ∷ s) = ((d == c) ≡ false) × Without c s

-- The first place of a byte is where a text without it ends.
find_byte : (s t : Text) (c : ℕ) → Without c s → find (s ++ c ∷ t) (c ∷ []) ≡ some (length s)
unfolding find
find_byte [] t c h = ground arith
find_byte (d ∷ s) t c h = ground (arith, find_byte s t c h.1)

rfind-none : (s : Text) (c : ℕ) → Without c s → rfind s (c ∷ []) ≡ none
unfolding rfind
rfind-none [] c h = refl
rfind-none (d ∷ s) c h = ground (arith, rfind-none s c h.1)

-- The last place of a byte is the last one before a text without it.
rfind_byte : (s t : Text) (c : ℕ) → Without c t → rfind (s ++ c ∷ t) (c ∷ []) ≡ some (length s)
unfolding rfind
rfind_byte [] t c h = ground (arith, rfind-none t c h)
rfind_byte (d ∷ s) t c h = rw (rfind_byte s t c h)

Without-append : (c : ℕ) (s t : Text) → Without c s → Without c t → Without c (s ++ t)
Without-append c [] t hs ht = ht
Without-append c (d ∷ s) t hs ht = (hs.0, Without-append c s t hs.1 ht)

drop_after : (s t : Text) (c : ℕ) → drop (length s + 1) (s ++ c ∷ t) ≡ t
drop_after [] t c = refl
drop_after (d ∷ s) t c =
    let e : length (d ∷ s) + 1 ≡ suc (length s + 1) = omega arith in rw e (drop_after s t c)

after_space_lem : (s t : Text) → Without b' ' t → after_space (s ++ b' ' ∷ t) ≡ t
unfolding after_space
after_space_lem s t h = rw (rfind_byte s t b' ' h, after_space) (drop_after s t b' ')

-- From a signature of a type, a space, a name without spaces or parentheses, and an opening
-- parenthesis with anything behind it, the logger keeps the name; the type may hold spaces, but no
-- parenthesis.
pub format_class_name_lem :
    (type name rest : Text)
    → Without b'(' type
    → Without b'(' name
    → Without b' ' name
    → format_class_name ((type ++ b' ' ∷ name) ++ b'(' ∷ rest) ≡ name
unfolding format_class_name
format_class_name_lem type name rest ht hn hs =
    let front = type ++ b' ' ∷ name in
    let plain = Without-append b'(' type (b' ' ∷ name) ht (refl, hn) in
    rw (find_byte front rest b'(' plain, format_class_name)
      (ap after_space (take-append front (b'(' ∷ rest)) ∙ after_space_lem type name hs)
