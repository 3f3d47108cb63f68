-- ===== src/Text/Find.antt =====
-- `find` and `rfind` return the first and the last occurrence.
use iql.Base.{
  ℕ, zero, suc, ◌+◌, ◌≤◌, ◌<◌, ◌≡◌, refl, true, Option, none, some, [], ◌∷◌, ◌++◌, arith, inl, inr,
  Bool-cases, Option-cases, length, drop,
}
use iql.Text.{Text, text_eq, is_prefix, find, rfind, later}

pub text_eq_refl : (s : Text) → text_eq s s ≡ true
text_eq_refl [] = refl
text_eq_refl (c ∷ s) = ground (arith, text_eq_refl s)

pub text_eq_sound : (s t : Text) → text_eq s t ≡ true → s ≡ t
text_eq_sound [] [] h = refl
text_eq_sound [] (d ∷ t) h = cc
text_eq_sound (c ∷ s) [] h = cc
text_eq_sound (c ∷ s) (d ∷ t) h = ground (arith, text_eq_sound s t)

pub is_prefix-append : (s t : Text) → is_prefix s (s ++ t) ≡ true
unfolding is_prefix
is_prefix-append [] t = refl
is_prefix-append (c ∷ s) t = ground (arith, is_prefix-append s t)

is_prefix_self : (s : Text) → is_prefix s s ≡ true
unfolding is_prefix
is_prefix_self [] = refl
is_prefix_self (c ∷ s) = ground (arith, is_prefix_self s)

pub is_prefix-length : (s t : Text) → is_prefix s t ≡ true → length s ≤ length t
unfolding is_prefix
is_prefix-length [] t h = omega arith
is_prefix-length (c ∷ s) [] h = cc
is_prefix-length (c ∷ s) (d ∷ t) h = ground (arith, is_prefix-length s t)

pub is_prefix-split : (s t : Text) → is_prefix s t ≡ true → t ≡ s ++ drop (length s) t
unfolding is_prefix
is_prefix-split [] t h = refl
is_prefix-split (c ∷ s) [] h = cc
is_prefix-split (c ∷ s) (d ∷ t) h = ground (arith, is_prefix-split s t)

-- A position that `rfind` returns holds an occurrence.
pub rfind-is_prefix : (t s : Text) (p : ℕ) → rfind t s ≡ some p → is_prefix s (drop p t) ≡ true
unfolding rfind
rfind-is_prefix [] [] zero h = refl
rfind-is_prefix [] [] (suc p) h = cc
rfind-is_prefix [] (c ∷ s) p h = cc
rfind-is_prefix (d ∷ t) s zero h = ground arith
rfind-is_prefix (d ∷ t) s (suc p) h = ground (arith, rfind-is_prefix t s p)

-- A position that `rfind` returns leaves room for the text.
pub rfind_bound : (t s : Text) (p : ℕ) → rfind t s ≡ some p → p + length s ≤ length t
unfolding rfind
rfind_bound [] [] zero h = omega arith
rfind_bound [] [] (suc p) h = cc
rfind_bound [] (c ∷ s) p h = cc
rfind_bound (d ∷ t) s zero h = ground (arith, is_prefix-length s (d ∷ t))
rfind_bound (d ∷ t) s (suc p) h = ground (arith, rfind_bound t s p)

-- No occurrence stands behind the position that `rfind` returns.
pub rfind_last :
    (t s : Text) (q : ℕ)
    → is_prefix s (drop q t) ≡ true
    → q ≤ length t
    → (p : ℕ) × (rfind t s ≡ some p) × (q ≤ p)
unfolding rfind
rfind_last [] s zero h b = (0, rw h, omega arith)
rfind_last [] s (suc q) h b = absurd (omega arith)
rfind_last (d ∷ t) s zero h b = elim (Option-cases (rfind t s)) [
  | inl e ↦ (0, rw (e, h), omega arith)
  | inr (p, e) ↦ (suc p, rw e, omega arith)
]
rfind_last (d ∷ t) s (suc q) h b =
    let (p, e, k) = rfind_last t s q h (omega arith) in (suc p, rw e, omega arith)

-- A text too long for the other is not found in it.
rfind-short : (t s : Text) → length t < length s → rfind t s ≡ none
rfind-short t s h = elim (Option-cases (rfind t s)) [
  | inl e ↦ e
  | inr (p, e) ↦ absurd (omega (arith, rfind_bound t s p e))
]

-- A text at the end is where `rfind` looks first.
pub rfind-append : (u s : Text) → rfind (u ++ s) s ≡ some (length u)
unfolding rfind
rfind-append [] [] = refl
rfind-append [] (c ∷ s) =
    rw (rfind-short s (c ∷ s) (omega arith)) (ground (arith, is_prefix_self (c ∷ s)))
rfind-append (d ∷ u) s = rw (rfind-append u s)

later-ne-zero : (o : Option ℕ) → ¬ (later o ≡ some 0)
later-ne-zero none h = cc
later-ne-zero (some p) h = cc

-- A position that `find` returns holds an occurrence.
pub find-is_prefix : (t s : Text) (p : ℕ) → find t s ≡ some p → is_prefix s (drop p t) ≡ true
unfolding find
find-is_prefix [] [] zero h = refl
find-is_prefix [] [] (suc p) h = cc
find-is_prefix [] (c ∷ s) p h = cc
find-is_prefix (d ∷ t) s zero h = elim (Bool-cases (is_prefix s (d ∷ t))) [
  | inl e ↦ e
  | inr e ↦ absurd (later-ne-zero (find t s) (ground arith))
]
find-is_prefix (d ∷ t) s (suc p) h = ground (arith, find-is_prefix t s p)

pub find_bound : (t s : Text) (p : ℕ) → find t s ≡ some p → p + length s ≤ length t
unfolding find
find_bound [] [] zero h = omega arith
find_bound [] [] (suc p) h = cc
find_bound [] (c ∷ s) p h = cc
find_bound (d ∷ t) s zero h = ground (arith, is_prefix-length s (d ∷ t))
find_bound (d ∷ t) s (suc p) h = ground (arith, find_bound t s p)

-- No occurrence stands before the position that `find` returns.
pub find_first :
    (t s : Text) (q : ℕ)
    → is_prefix s (drop q t) ≡ true
    → q ≤ length t
    → (p : ℕ) × (find t s ≡ some p) × (p ≤ q)
unfolding find
find_first [] s zero h b = (0, rw h, omega arith)
find_first [] s (suc q) h b = absurd (omega arith)
find_first (d ∷ t) s zero h b = (0, rw h, omega arith)
find_first (d ∷ t) s (suc q) h b = elim (Bool-cases (is_prefix s (d ∷ t))) [
  | inl e ↦ (0, rw e, omega arith)
  | inr e ↦ let (p, f, k) = find_first t s q h (omega arith) in (suc p, rw (e, f), omega arith)
]
