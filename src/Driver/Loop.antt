-- ===== src/Driver/Loop.antt =====
-- Which input the loop of main reads, and what it returns of it.
use iql.Base.{
  ◌≡◌, refl, sym, ◌∙◌, ℕ, ◌+◌, Bool, true, false, not, ◌&&◌, ap, Option, none, some, List, [], ◌∷◌,
  ◌++◌, arith, if◌then◌else◌, inl, inr, Bool-cases, append_assoc, append-nil,
}
use native.Mathlib.Nat.{add_assoc, add-zero}
use iql.Text.{Text, txt, text_eq}
use iql.Fault.{Result, ok, err}
use iql.Exec.{World, Backend, Exec, pure, ◌>>=◌, continue}
use iql.Query.Select.{Statement}
use iql.Query.Tree.{submit}
use iql.Driver.{Parse, empty_query, query_text, goes_on, submit_all, read_query, read_queries}

-- The text of a query by what the scanner and the parser leave: where nothing was scanned there is
-- no query, else it is the parser's text, or without one the scanner's.
abbrev pub said : Option Text → Option Text → Text
said none h = txt "(no query)"
said (some []) h = txt "(no query)"
said (some (c ∷ s)) none = c ∷ s
said (some (c ∷ s)) (some []) = c ∷ s
said (some (c ∷ s)) (some (d ∷ r)) = d ∷ r

abbrev pub said_by : Parse → Text
said_by p = said p.yytext p.hql_queries

-- The parses that are read: one, or all up to the first whose text is that of no query, which is
-- read too.
abbrev pub read_parses : Bool → List Parse → List Parse
read_parses only_one [] = []
read_parses true (p ∷ ps) = p ∷ []
read_parses false (p ∷ ps) =
    let rest = read_parses false ps in
    if text_eq (said_by p) (txt "(no query)") then p ∷ [] else p ∷ rest

-- Their statements and errors.
abbrev pub all_statements : List Parse → List Statement
all_statements [] = []
all_statements (p ∷ ps) = p.statements ++ all_statements ps

abbrev pub all_errors : List Parse → ℕ
all_errors [] = 0
all_errors (p ∷ ps) = p.errors + all_errors ps

-- The text of all queries; the end of the input is no query.
abbrev pub all_queries : Bool → List Parse → Text
all_queries only_one [] = txt "(no query)"
all_queries true (p ∷ ps) = said_by p
all_queries false (p ∷ ps) =
    let rest = all_queries false ps in
    said_by p ++ (if text_eq (said_by p) (txt "(no query)") then [] else rest)

-- The same by the loop's own test.
abbrev looped : Bool → List Parse → List Parse
looped only_one [] = []
looped only_one (p ∷ ps) =
    let rest = looped only_one ps in if goes_on only_one (query_text p) then p ∷ rest else p ∷ []

abbrev looped_queries : Bool → List Parse → Text
looped_queries only_one [] = empty_query
looped_queries only_one (p ∷ ps) =
    let rest = looped_queries only_one ps in
    query_text p ++ (if goes_on only_one (query_text p) then rest else [])

query_text-said :
    (p : Parse) (y h : Option Text) → p.yytext ≡ y → p.hql_queries ≡ h → query_text p ≡ said y h
unfolding query_text
query_text-said p none h e k = rw e refl
query_text-said p (some []) h e k = rw e refl
query_text-said p (some (c ∷ s)) none e k = rw (e, k) refl
query_text-said p (some (c ∷ s)) (some []) e k = rw (e, k) refl
query_text-said p (some (c ∷ s)) (some (d ∷ r)) e k = rw (e, k) refl

once : {A : Type 0} (e : Bool) (x y : A) → (if not e && not true then x else y) ≡ y
once true x y = refl
once false x y = refl

unless_empty :
    {A : Type 0} (e : Bool) (x y : A) → (if not e && not false then x else y) ≡ (if e then y else x)
unless_empty true x y = refl
unless_empty false x y = refl

looped_lem : (only_one : Bool) (ps : List Parse) → looped only_one ps ≡ read_parses only_one ps
looped_lem only_one [] = refl
looped_lem true (p ∷ ps) = once (text_eq (query_text p) empty_query) (p ∷ looped true ps) (p ∷ [])
looped_lem false (p ∷ ps) =
    rw (query_text-said p p.yytext p.hql_queries refl refl, looped_lem false ps)
      (unless_empty (text_eq (said_by p) empty_query) (p ∷ read_parses false ps) (p ∷ []))

looped_queries_lem :
    (only_one : Bool) (ps : List Parse) → looped_queries only_one ps ≡ all_queries only_one ps
looped_queries_lem only_one [] = refl
looped_queries_lem true (p ∷ ps) =
    ap (λ t. query_text p ++ t)
      (once (text_eq (query_text p) empty_query) (looped_queries true ps) [])
    ∙ append-nil (query_text p)
    ∙ query_text-said p p.yytext p.hql_queries refl refl
looped_queries_lem false (p ∷ ps) =
    rw (query_text-said p p.yytext p.hql_queries refl refl, looped_queries_lem false ps)
      (ap (λ t. said_by p ++ t)
        (unless_empty (text_eq (said_by p) empty_query) (all_queries false ps) []))

-- An outcome with another value.
abbrev pub returning : {A B : Type 0} → B → Result A × World → Result B × World
returning c (ok a, w) = (ok c, w)
returning c (err e, w) = (err e, w)

-- What follows an outcome whose value does not matter.
abbrev next : {A B : Type 0} → Result A × World → Exec B → Result B × World
next (ok a, w) m = m w
next (err e, w) m = (err e, w)

-- A value computed from the first does not matter.
returning-map :
    {A B C : Type 0} (c : C) (f : A → B) (o : Result A × World)
    → returning c (continue o.0 (λ a. pure (f a)) o.1) ≡ returning c o
unfolding pure
returning-map c f (ok a, w) = refl
returning-map c f (err e, w) = refl

next-map :
    {A B C : Type 0} (m : Exec C) (f : A → B) (o : Result A × World)
    → next (continue o.0 (λ a. pure (f a)) o.1) m ≡ next o m
unfolding pure
next-map m f (ok a, w) = refl
next-map m f (err e, w) = refl

returning-next :
    {A B C : Type 0} (c : C) (o : Result A × World) (m : Exec B)
    → returning c (next o m) ≡ next o (λ v. returning c (m v))
returning-next c (ok a, w) m = refl
returning-next c (err e, w) m = refl

next-cong :
    {A B : Type 0} (o : Result A × World) (m n : Exec B)
    → ((w : World) → m w ≡ n w)
    → next o m ≡ next o n
next-cong (ok a, w) m n h = h w
next-cong (err e, w) m n h = refl

module _ (b : Backend) {C : Type 0} (c : C) where
  -- Statements behind others run on what the first leave.
  submit_all_append :
      (xs ys : List Statement) (w : World)
      → returning c (submit_all b (xs ++ ys) w)
        ≡ next (submit_all b xs w) (λ v. returning c (submit_all b ys v))
  unfolding submit_all ◌>>=◌
  submit_all_append [] ys w = refl
  submit_all_append (x ∷ xs) ys w = first (submit b x w) (submit_all_append xs ys)
    where
      first :
          (o : Result Text × World)
          → ((v : World)
              → returning c (submit_all b (xs ++ ys) v)
                ≡ next (submit_all b xs v) (λ u. returning c (submit_all b ys u)))
          → returning c
              (continue o.0 (λ out. submit_all b (xs ++ ys) >>= λ outs. pure (out ++ outs)) o.1)
            ≡ next
                (continue o.0 (λ out. submit_all b xs >>= λ outs. pure (out ++ outs)) o.1)
                (λ v. returning c (submit_all b ys v))
      first (ok out, v) h =
          returning-map c (λ outs. out ++ outs) (submit_all b (xs ++ ys) v)
          ∙ h v
          ∙ sym (
              next-map (λ v. returning c (submit_all b ys v)) (λ outs. out ++ outs)
                (submit_all b xs v))
      first (err e, v) h = refl

next-pure : {A B : Type 0} (c : B) (o : Result A × World) → next o (pure c) ≡ returning c o
unfolding pure
next-pure c (ok a, w) = refl
next-pure c (err e, w) = refl

-- What reads the query's text alone.
continue-text :
    {B : Type 0} (q : Text) (f : Text → Text) (k : Text → Exec B) (o : Result Text × World)
    → (let (r, v) = continue {B = Text × Text} o.0 (λ out. pure (q, f out)) o.1 in
        continue r (λ x. k x.0) v)
      ≡ next o (k q)
unfolding pure
continue-text q f k (ok out, w) = refl
continue-text q f k (err e, w) = refl

-- The loop by its own test.
loop_lem :
    (b : Backend) (only_one : Bool) (ps : List Parse) (queries : Text) (errors : ℕ) (w : World)
    → read_queries b only_one ps queries errors w
      ≡ returning
          (queries ++ looped_queries only_one ps, errors + all_errors (looped only_one ps))
          (submit_all b (all_statements (looped only_one ps)) w)
unfolding read_queries read_query submit_all ◌>>=◌ pure
loop_lem b only_one [] queries errors w = ground arith
loop_lem b only_one (p ∷ ps) queries errors w =
    let q = query_text p in
    continue-text q (λ out. txt "> " ++ out)
      (λ x.
        if goes_on only_one x
        then read_queries b only_one ps (queries ++ x) (errors + p.errors)
        else pure (queries ++ x, errors + p.errors))
      (submit_all b p.statements w)
    ∙ elim (Bool-cases (goes_on only_one q)) [
      | inl g ↦ rw g (
          next-cong (submit_all b p.statements w) _ _
            (λ v. loop_lem b only_one ps (queries ++ q) (errors + p.errors) v)
          ∙ sym (submit_all_append b _ p.statements (all_statements (looped only_one ps)) w)
          ∙ rw (append_assoc, add_assoc) refl)
      | inr g ↦ rw g (
          next-pure (queries ++ q, errors + p.errors) (submit_all b p.statements w)
          ∙ rw (append-nil, append-nil, add-zero) refl)
    ]

-- The loop of main is one run of all the statements that are read, one after the other: it leaves
-- the same state, and fails with the same fault where one of them fails; otherwise it returns the
-- texts of the queries in their order, and all the errors counted. With --unique it reads a single
-- query, otherwise all up to the first where nothing was scanned or whose text is "(no query)".
pub read_queries_lem :
    (b : Backend) (only_one : Bool) (ps : List Parse) (queries : Text) (errors : ℕ) (w : World)
    → read_queries b only_one ps queries errors w
      ≡ returning
          (queries ++ all_queries only_one ps, errors + all_errors (read_parses only_one ps))
          (submit_all b (all_statements (read_parses only_one ps)) w)
read_queries_lem b only_one ps queries errors w =
    rw (← looped_lem only_one ps, ← looped_queries_lem only_one ps)
      (loop_lem b only_one ps queries errors w)
