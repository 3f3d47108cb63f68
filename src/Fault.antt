-- ===== src/Fault.antt =====
-- What ends a computation of the client: the exceptions that the program throws or lets through,
-- and `crash` for what C++ leaves undefined (a null pointer read, an index outside a vector).
use mathlib.Core.Path.{subst}
use iql.Base.{◌≡◌, refl, Bool, true, false, Option, none, some, inl, inr, ◌⊎◌}
use iql.Text.{Text}

pub data Fault : Type 0 where
  -- `throw string(...)`
  thrown : Text → Fault
  -- pqxx::sql_error, any other failure of libpqxx, and pqxx::broken_connection
  sql_error pqxx_error broken_connection : Fault
  -- r_Error of the Rasdaman client library
  r_error : Fault
  -- std::out_of_range
  out_of_range : Fault
  crash : Fault

pub data Result {ℓ} (A : Type ℓ) : Type ℓ where
  ok : A → Result A
  err : Fault → Result A

infixl 5 ◌>>=◌ ◌>>◌
abbrev pub ◌>>=◌ {ℓ κ} : {A : Type ℓ} {B : Type κ} → Result A → (A → Result B) → Result B
ok a >>= f = f a
err e >>= f = err e

abbrev pub ◌>>◌ {ℓ κ} : {A : Type ℓ} {B : Type κ} → Result A → Result B → Result B
m >> k = m >>= λ _. k

-- A read that C++ leaves undefined where there is nothing to read.
abbrev pub present {ℓ} : {A : Type ℓ} → Option A → Result A
present none = err crash
present (some a) = ok a

-- A checked read, `vector::at`.
abbrev pub checked {ℓ} : {A : Type ℓ} → Option A → Result A
checked none = err out_of_range
checked (some a) = ok a

-- `if (!b) throw e;`
abbrev pub guard : Bool → Fault → Result (Unit {0})
guard true e = ok tt
guard false e = err e

pub Result-cases {ℓ} :
    {A : Type ℓ} (r : Result A) → ((a : A) × (r ≡ ok a)) ⊎ ((e : Fault) × (r ≡ err e))
Result-cases (ok a) = inl (a, refl)
Result-cases (err e) = inr (e, refl)

-- What holds of the value, where there is one.
abbrev pub Yields {ℓ κ} : {A : Type ℓ} → (A → Type κ) → Result A → Type κ
Yields P (ok a) = P a
Yields P (err e) = Unit

pub Yields-bind {ℓ κ μ} :
    {A : Type ℓ} {B : Type κ} (P : A → Type μ) (Q : B → Type μ) (m : Result A) (f : A → Result B)
    → Yields P m
    → ((a : A) → P a → Yields Q (f a))
    → Yields Q (m >>= f)
Yields-bind P Q (ok a) f h k = k a h
Yields-bind P Q (err e) f h k = tt

pub Yields-any {ℓ} : {A : Type ℓ} (m : Result A) → Yields (λ _. Unit {0}) m
Yields-any (ok a) = tt
Yields-any (err e) = tt

-- The value that a computation returns has what it yields.
pub Yields-ok {ℓ κ} :
    {A : Type ℓ} (P : A → Type κ) (m : Result A) {a : A} → Yields P m → m ≡ ok a → P a
Yields-ok P (ok b) h e = subst P (cc) h
Yields-ok P (err c) h e = cc
