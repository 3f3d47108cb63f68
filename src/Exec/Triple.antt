-- ===== src/Exec/Triple.antt =====
-- Conditions before and after an action, one rule for each way to build an action.
use iql.Base.{◌≡◌, refl, Bool, true, false, List, ◌∷◌, if◌then◌else◌}
use iql.Fault.{Fault, Result, ok, err}
use iql.Exec.{
  World, Event, Exec, pure, raise, lift, gets, modify, ◌>>=◌, continue, try_catch, resume, ask,
  answer,
}

-- What a result leaves: `Q` beside a value, `E` beside a fault.
abbrev pub After :
    {A : Type 0} → (A → World → Type 0) → (Fault → World → Type 0) → Result A → World → Type 0
After Q E (ok a) w = Q a w
After Q E (err e) w = E e w

-- From a state with `P`, `m` returns with `Q` or fails with `E`.
pub record Triple {A : Type 0} (P : World → Type 0) (m : Exec A) (Q : A → World → Type 0)
    (E : Fault → World → Type 0) : Type 0 where
  pub at : (w : World) → P w → After Q E (m w).0 (m w).1

module _ {A : Type 0} {P : World → Type 0} {Q : A → World → Type 0}
    {E : Fault → World → Type 0} where
  pub Triple-pure : (a : A) → ((w : World) → P w → Q a w) → Triple P (pure a) Q E
  unfolding pure
  Triple-pure a h = record { at = h }

  pub Triple-raise : (e : Fault) → ((w : World) → P w → E e w) → Triple P (raise e) Q E
  unfolding raise
  Triple-raise e h = record { at = h }

  pub Triple-lift : (r : Result A) → ((w : World) → P w → After Q E r w) → Triple P (lift r) Q E
  unfolding lift
  Triple-lift r h = record { at = h }

  pub Triple-gets : (f : World → A) → ((w : World) → P w → Q (f w) w) → Triple P (gets f) Q E
  unfolding gets
  Triple-gets f h = record { at = h }

  pub Triple-answer :
      (f : List Event → A) → ((w : World) → P w → Q (f w.history) w) → Triple P (answer f) Q E
  unfolding answer
  Triple-answer f h = record { at = h }

  pub Triple-if :
      (b : Bool) (m n : Exec A)
      → (b ≡ true → Triple P m Q E)
      → (b ≡ false → Triple P n Q E)
      → Triple P (if b then m else n) Q E
  Triple-if true m n hm hn = hm refl
  Triple-if false m n hm hn = hn refl

module _ {P : World → Type 0} {Q : Unit {0} → World → Type 0} {E : Fault → World → Type 0} where
  pub Triple-modify :
      (f : World → World) → ((w : World) → P w → Q tt (f w)) → Triple P (modify f) Q E
  unfolding modify
  Triple-modify f h = record { at = h }

  pub Triple-ask :
      (e : Event)
      → ((w : World) → P w → Q tt (record w { history = e ∷ w.history }))
      → Triple P (ask e) Q E
  unfolding ask
  Triple-ask e h = record { at = h }

continue-After :
    {A B : Type 0} (R : A → World → Type 0) {Q : B → World → Type 0} {E : Fault → World → Type 0}
    (r : Result A) (f : A → Exec B) (w : World)
    → ((a : A) → Triple (R a) (f a) Q E)
    → After R E r w
    → After Q E (continue r f w).0 (continue r f w).1
continue-After R (ok a) f w hf h = (hf a).at w h
continue-After R (err e) f w hf h = h

module _ {A B : Type 0} {P : World → Type 0} (R : A → World → Type 0) {Q : B → World → Type 0}
    {E : Fault → World → Type 0} where
  pub Triple-bind :
      (m : Exec A) (f : A → Exec B)
      → Triple P m R E
      → ((a : A) → Triple (R a) (f a) Q E)
      → Triple P (m >>= f) Q E
  unfolding ◌>>=◌
  Triple-bind m f hm hf = record {
    at = λ w h. let (r, v) = m w in continue-After R r f v hf (hm.at w h);
  }

resume-After :
    {A : Type 0} {Q : A → World → Type 0} (F E : Fault → World → Type 0) (r : Result A)
    (catches : Fault → Bool) (handler : Fault → Exec A) (w : World)
    → ((e : Fault) → catches e ≡ true → Triple (F e) (handler e) Q E)
    → ((e : Fault) (w : World) → catches e ≡ false → F e w → E e w)
    → After Q F r w
    → After Q E (resume r catches handler w).0 (resume r catches handler w).1
resume-After F E (ok a) catches handler w hh hp h = h
resume-After {A} {Q} F E (err e) catches handler w hh hp h = by_test (catches e) refl
  where
    by_test :
        (b : Bool)
        → catches e ≡ b
        → After Q E
            (if b then handler e w else (err e, w)).0
            (if b then handler e w else (err e, w)).1
    by_test true c = (hh e c).at w h
    by_test false c = hp e w c h

module _ {A : Type 0} {P : World → Type 0} {Q : A → World → Type 0}
    (F E : Fault → World → Type 0) where
  pub Triple-try_catch :
      (m : Exec A) (catches : Fault → Bool) (handler : Fault → Exec A)
      → Triple P m Q F
      → ((e : Fault) → catches e ≡ true → Triple (F e) (handler e) Q E)
      → ((e : Fault) (w : World) → catches e ≡ false → F e w → E e w)
      → Triple P (try_catch m catches handler) Q E
  unfolding try_catch
  Triple-try_catch m catches handler hm hh hp = record {
    at = λ w h. let (r, v) = m w in resume-After F E r catches handler v hh hp (hm.at w h);
  }

-- A triple from stronger conditions before, to weaker ones after.
pub Triple-weaken :
    {A : Type 0} {P P' : World → Type 0} {Q Q' : A → World → Type 0} {E E' : Fault → World → Type 0}
    (m : Exec A)
    → Triple P m Q E
    → ((w : World) → P' w → P w)
    → ((a : A) (w : World) → Q a w → Q' a w)
    → ((e : Fault) (w : World) → E e w → E' e w)
    → Triple P' m Q' E'
Triple-weaken {Q = Q} {Q' = Q'} {E = E} {E' = E'} m t hp hq he = record {
  at = λ w h. let (r, v) = m w in go r v (t.at w (hp w h));
}
  where
    go : (r : Result _) (w : World) → After Q E r w → After Q' E' r w
    go (ok a) w h = hq a w h
    go (err e) w h = he e w h

After-any : {A : Type 0} (r : Result A) (w : World) → After (λ _ _. Unit {0}) (λ _ _. Unit {0}) r w
After-any (ok a) w = tt
After-any (err e) w = tt

-- What is left in both cases.
pub After-same :
    {A : Type 0} (P : World → Type 0) (o : Result A × World)
    → After (λ _. P) (λ _. P) o.0 o.1
    → P o.1
After-same P (ok a, w) h = h
After-same P (err e, w) h = h

-- Where nothing is said of the outcome.
pub Triple-any :
    {A : Type 0} {P : World → Type 0} (m : Exec A) → Triple P m (λ _ _. Unit) (λ _ _. Unit)
Triple-any m = record { at = λ w h. After-any (m w).0 (m w).1 }
