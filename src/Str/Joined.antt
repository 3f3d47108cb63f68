-- ===== src/Str/Joined.antt =====
-- What the functions join, and when it fits the buffer.
use iql.Base.{
  ◌≡◌, refl, ◌∙◌, Option, none, some, List, [], ◌∷◌, ◌++◌, arith, ltb, length, length-append,
  if◌then◌else◌, append_assoc,
}
use iql.Text.{Text, txt}
use iql.Str.{
  max_length, blank, or_blank, ◌>>=◌, print_pair, cat2, cat3, cat4, cat5, cat6, cat7, cat8, cat9,
  cat10,
}

-- The texts with a blank between them.
abbrev pub joined : Option Text → List (Option Text) → Text
joined s [] = or_blank s
joined s (r ∷ rs) = or_blank s ++ (blank ++ joined r rs)

-- The texts joined, where they fit the buffer with a null byte behind them.
abbrev pub fitted : Option Text → List (Option Text) → Option Text
fitted s rs = let t = joined s rs in if ltb (length t) max_length then some t else none

joined-append :
    (s : Option Text) (ss : List (Option Text)) (r : Option Text) (rs : List (Option Text))
    → joined s (ss ++ r ∷ rs) ≡ joined s ss ++ (blank ++ joined r rs)
joined-append s [] r rs = refl
joined-append s (q ∷ qs) r rs = rw (joined-append q qs r rs, append_assoc, append_assoc) refl

-- A text that fits.
abbrev fit : Text → Option Text
fit t = if ltb (length t) max_length then some t else none

-- A text that does not fit the buffer does not fit with another one beside it.
print_pair-fit : (s t : Text) → (fit s >>= λ p. fit t >>= λ q. print_pair p q) ≡ print_pair s t
unfolding txt
print_pair-fit s t = ground (arith, length-append s (blank ++ t), length-append blank t)

print_pair-fit_swapped :
    (s t : Text) → (fit t >>= λ q. fit s >>= λ p. print_pair p q) ≡ print_pair s t
unfolding txt
print_pair-fit_swapped s t = ground (arith, length-append s (blank ++ t), length-append blank t)

print_pair-fit_first : (s t : Text) → (fit s >>= λ p. print_pair p t) ≡ print_pair s t
unfolding txt
print_pair-fit_first s t = ground (arith, length-append s (blank ++ t), length-append blank t)

module _ (s : Option Text) (ss : List (Option Text)) (r : Option Text) where
  pairs :
      (rs : List (Option Text)) → print_pair (joined s ss) (joined r rs) ≡ fitted s (ss ++ r ∷ rs)
  pairs rs = rw (joined-append s ss r rs) refl

  -- Two parts, the first or the second of them joined first, and a part with one text behind it.
  join_parts :
      (rs : List (Option Text))
      → (fitted s ss >>= λ p. fitted r rs >>= λ q. print_pair p q) ≡ fitted s (ss ++ r ∷ rs)
  join_parts rs = print_pair-fit (joined s ss) (joined r rs) ∙ pairs rs

  join_parts_swapped :
      (rs : List (Option Text))
      → (fitted r rs >>= λ q. fitted s ss >>= λ p. print_pair p q) ≡ fitted s (ss ++ r ∷ rs)
  join_parts_swapped rs = print_pair-fit_swapped (joined s ss) (joined r rs) ∙ pairs rs

  join_last : (fitted s ss >>= λ p. print_pair p (or_blank r)) ≡ fitted s (ss ++ r ∷ [])
  join_last = print_pair-fit_first (joined s ss) (or_blank r) ∙ pairs []

cat4_lem : (s1 s2 s3 s4 : Option Text) → cat4 s1 s2 s3 s4 ≡ fitted s1 (s2 ∷ s3 ∷ s4 ∷ [])
unfolding cat4
cat4_lem s1 s2 s3 s4 = join_parts s1 (s2 ∷ []) s3 (s4 ∷ [])

cat6_lem :
    (s1 s2 s3 s4 s5 s6 : Option Text)
    → cat6 s1 s2 s3 s4 s5 s6 ≡ fitted s1 (s2 ∷ s3 ∷ s4 ∷ s5 ∷ s6 ∷ [])
unfolding cat6
cat6_lem s1 s2 s3 s4 s5 s6 =
    rw (cat4_lem s1 s2 s3 s4) (join_parts s1 (s2 ∷ s3 ∷ s4 ∷ []) s5 (s6 ∷ []))

cat8_lem :
    (s1 s2 s3 s4 s5 s6 s7 s8 : Option Text)
    → cat8 s1 s2 s3 s4 s5 s6 s7 s8 ≡ fitted s1 (s2 ∷ s3 ∷ s4 ∷ s5 ∷ s6 ∷ s7 ∷ s8 ∷ [])
unfolding cat8
cat8_lem s1 s2 s3 s4 s5 s6 s7 s8 =
    rw (cat4_lem s5 s6 s7 s8, cat4_lem s1 s2 s3 s4)
      (join_parts_swapped s1 (s2 ∷ s3 ∷ s4 ∷ []) s5 (s6 ∷ s7 ∷ s8 ∷ []))

-- Every one of the functions returns its arguments in their order with a single blank between two,
-- a blank for each null pointer; it writes behind the buffer's end exactly where that text and its
-- null byte need more than 512 bytes, whatever the order in which the parts are joined.
pub cat_lem :
    (s1 s2 s3 s4 s5 s6 s7 s8 s9 s10 : Option Text)
    → (cat2 s1 s2 ≡ fitted s1 (s2 ∷ []))
      × (cat3 s1 s2 s3 ≡ fitted s1 (s2 ∷ s3 ∷ []))
      × (cat4 s1 s2 s3 s4 ≡ fitted s1 (s2 ∷ s3 ∷ s4 ∷ []))
      × (cat5 s1 s2 s3 s4 s5 ≡ fitted s1 (s2 ∷ s3 ∷ s4 ∷ s5 ∷ []))
      × (cat6 s1 s2 s3 s4 s5 s6 ≡ fitted s1 (s2 ∷ s3 ∷ s4 ∷ s5 ∷ s6 ∷ []))
      × (cat7 s1 s2 s3 s4 s5 s6 s7 ≡ fitted s1 (s2 ∷ s3 ∷ s4 ∷ s5 ∷ s6 ∷ s7 ∷ []))
      × (cat8 s1 s2 s3 s4 s5 s6 s7 s8 ≡ fitted s1 (s2 ∷ s3 ∷ s4 ∷ s5 ∷ s6 ∷ s7 ∷ s8 ∷ []))
      × (cat9 s1 s2 s3 s4 s5 s6 s7 s8 s9 ≡ fitted s1 (s2 ∷ s3 ∷ s4 ∷ s5 ∷ s6 ∷ s7 ∷ s8 ∷ s9 ∷ []))
      × (cat10 s1 s2 s3 s4 s5 s6 s7 s8 s9 s10
          ≡ fitted s1 (s2 ∷ s3 ∷ s4 ∷ s5 ∷ s6 ∷ s7 ∷ s8 ∷ s9 ∷ s10 ∷ []))
unfolding cat2 cat3 cat5 cat7 cat9 cat10
cat_lem s1 s2 s3 s4 s5 s6 s7 s8 s9 s10 = (
  refl,
  join_last s1 (s2 ∷ []) s3,
  cat4_lem s1 s2 s3 s4,
  rw (cat4_lem s1 s2 s3 s4) (join_last s1 (s2 ∷ s3 ∷ s4 ∷ []) s5),
  cat6_lem s1 s2 s3 s4 s5 s6,
  rw (cat6_lem s1 s2 s3 s4 s5 s6) (join_last s1 (s2 ∷ s3 ∷ s4 ∷ s5 ∷ s6 ∷ []) s7),
  cat8_lem s1 s2 s3 s4 s5 s6 s7 s8,
  rw (cat8_lem s1 s2 s3 s4 s5 s6 s7 s8) (join_last s1 (s2 ∷ s3 ∷ s4 ∷ s5 ∷ s6 ∷ s7 ∷ s8 ∷ []) s9),
  rw (cat6_lem s5 s6 s7 s8 s9 s10, cat4_lem s1 s2 s3 s4)
      (join_parts_swapped s1 (s2 ∷ s3 ∷ s4 ∷ []) s5 (s6 ∷ s7 ∷ s8 ∷ s9 ∷ s10 ∷ [])),
)
