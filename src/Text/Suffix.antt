-- ===== src/Text/Suffix.antt =====
-- The program's suffix test `t.rfind(s) == t.size() - s.size()` and what it decides.
use iql.Base.{
  ℕ, ◌+◌, ◌<◌, ◌≡◌, ◌↔◌, ◌⊎◌, refl, ap, ◌∙◌, sym, true, [], ◌∷◌, ◌++◌, arith, ==_iff, inl, inr,
  Option-cases, length, take, drop, length-append, length-drop, take-append-drop, append-nil,
}
use iql.Text.{Text, is_prefix, rfind, ends_at, npos}
use iql.Text.Find.{rfind-append, rfind_bound, rfind-is_prefix, is_prefix-split}

-- `s` stands at the end of `t`.
abbrev pub IsSuffix : Text → Text → Type 0
IsSuffix s t = (u : Text) × (t ≡ u ++ s)

nil_of_length : (s : Text) → length s ≡ 0 → s ≡ []
nil_of_length [] h = refl
nil_of_length (c ∷ s) h = absurd (omega arith)

-- An occurrence that ends where the text ends is a suffix.
suffix_of_occurrence :
    (t s : Text) (p : ℕ)
    → is_prefix s (drop p t) ≡ true
    → p + length s ≡ length t
    → t ≡ take p t ++ s
suffix_of_occurrence t s p h e =
    let tail = drop p t in
    let rest = drop (length s) tail in
    let empty = nil_of_length rest (omega (arith, length-drop (length s) tail, length-drop p t)) in
    let same : tail ≡ s = is_prefix-split s tail h ∙ ap (◌++◌ s) empty ∙ append-nil s in
    sym (take-append-drop p t) ∙ ap (◌++◌ (take p t)) same

ends_at_suffix : (u s : Text) → length (u ++ s) < npos → ends_at (u ++ s) s ≡ true
unfolding ends_at
ends_at_suffix u s h = rw (rfind-append u s) ((==_iff _ _).1 (omega (arith, length-append u s)))

ends_at_short : (t s : Text) → length t < npos → length s ≡ length t + 1 → ends_at t s ≡ true
unfolding ends_at
ends_at_short t s h e = elim (Option-cases (rfind t s)) [
  | inl n ↦ rw n ((==_iff _ _).1 (omega arith))
  | inr (p, f) ↦ absurd (omega (arith, rfind_bound t s p f))
]

ends_at_only :
    (t s : Text)
    → length t < npos
    → length s < npos
    → ends_at t s ≡ true
    → IsSuffix s t ⊎ (length s ≡ length t + 1)
unfolding ends_at
ends_at_only t s ht hs h = elim (Option-cases (rfind t s)) [
  | inl n ↦ inr (let e = (==_iff _ _).0 (rw n at h) in omega arith)
  | inr (p, f) ↦ inl (
    take p t,
    suffix_of_occurrence t s p (rfind-is_prefix t s p f)
        (let e = (==_iff _ _).0 (rw f at h) in omega (arith, rfind_bound t s p f)),
  )
]

-- For texts shorter than `npos`, the test `t.rfind(s) == t.size() - s.size()` holds exactly when
-- `s` is a suffix of `t` or `t` is one byte shorter than `s`: then the search fails with `npos` and
-- the difference wraps around to `npos` too.
pub ends_at_iff :
    (t s : Text)
    → length t < npos
    → length s < npos
    → (ends_at t s ≡ true) ↔ (IsSuffix s t ⊎ (length s ≡ length t + 1))
ends_at_iff t s ht hs = (ends_at_only t s ht hs, back)
  where
    back : IsSuffix s t ⊎ (length s ≡ length t + 1) → ends_at t s ≡ true
    back (inl (u, e)) = rw e (ends_at_suffix u s (rw (← e) ht))
    back (inr e) = ends_at_short t s ht e
