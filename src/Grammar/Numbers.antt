-- ===== src/Grammar/Numbers.antt =====
-- The numbers of nodes, and rising numbers.
use iql.Base.{ℕ, ◌+◌, ◌≤◌, ◌<◌, List, [], ◌∷◌, ◌++◌, arith}
use iql.Query
use iql.Query.{Node, NodeList, nil, cons, list}

-- The numbers of a node and of all below it, in the order in which they are made: a QtList is made
-- behind its first element, every other node behind its children.
unfoldable mutual
  pub numbers : Node → List ℕ
  numbers (Query.column i t c) = i ∷ []
  numbers (Query.column_of i n c) = numbers n ++ i ∷ []
  numbers (Query.const i v t) = i ∷ []
  numbers (Query.str i s) = i ∷ []
  numbers (Query.binary i n op m) = numbers n ++ (numbers m ++ i ∷ [])
  numbers (Query.postgis i f n) = numbers n ++ i ∷ []
  numbers (Query.postgis_list i f j ns) = list_numbers j ns ++ i ∷ []
  numbers (Query.sql_call i f) = i ∷ []
  numbers (Query.sql_function i f j ns) = list_numbers j ns ++ i ∷ []
  numbers (Query.rasql i f n scalar) = numbers n ++ i ∷ []
  numbers (Query.rasql_with i f n m) = numbers n ++ (numbers m ++ i ∷ [])
  numbers (Query.interval i lo hi) = i ∷ []
  numbers (Query.interval_from i n hi) = numbers n ++ i ∷ []
  numbers (Query.interval_to i lo m) = numbers m ++ i ∷ []
  numbers (Query.interval_between i n m) = numbers n ++ (numbers m ++ i ∷ [])
  numbers (Query.trim i n m) = numbers n ++ (numbers m ++ i ∷ [])
  numbers (Query.encode i n f o) = numbers n ++ i ∷ []
  numbers (Query.data_source i t a) = i ∷ []
  numbers (Query.join i n m t nat) = numbers n ++ (numbers m ++ i ∷ [])
  numbers (Query.join_using i n m t cs) = numbers n ++ (numbers m ++ i ∷ [])
  numbers (Query.join_on i n m t c) = numbers n ++ (numbers m ++ (numbers c ++ i ∷ []))
  numbers (Query.filter i n) = numbers n ++ i ∷ []
  numbers (Query.list i ns) = list_numbers i ns

  pub list_numbers : ℕ → NodeList → List ℕ
  list_numbers i nil = i ∷ []
  list_numbers i (cons n ns) = numbers n ++ i ∷ rest_numbers ns

  pub rest_numbers : NodeList → List ℕ
  rest_numbers nil = []
  rest_numbers (cons n ns) = numbers n ++ rest_numbers ns

-- Strictly rising numbers above `lo`, up to `hi`.
abbrev pub Rising : ℕ → List ℕ → ℕ → Type 0
Rising lo [] hi = lo ≤ hi
Rising lo (x ∷ xs) hi = (lo < x) × Rising x xs hi

pub Rising-bounds : (lo : ℕ) (xs : List ℕ) (hi : ℕ) → Rising lo xs hi → lo ≤ hi
Rising-bounds lo [] hi h = h
Rising-bounds lo (x ∷ xs) hi h = omega (arith, h.0, Rising-bounds x xs hi h.1)

pub Rising-above :
    (lo' lo : ℕ) (xs : List ℕ) (hi : ℕ) → lo' ≤ lo → Rising lo xs hi → Rising lo' xs hi
Rising-above lo' lo [] hi l h = omega arith
Rising-above lo' lo (x ∷ xs) hi l h = (omega (arith, h.0), h.1)

pub Rising-below :
    (lo : ℕ) (xs : List ℕ) (hi hi' : ℕ) → hi ≤ hi' → Rising lo xs hi → Rising lo xs hi'
Rising-below lo [] hi hi' l h = omega arith
Rising-below lo (x ∷ xs) hi hi' l h = (h.0, Rising-below x xs hi hi' l h.1)

pub Rising-append :
    (lo : ℕ) (xs : List ℕ) (mid : ℕ) (ys : List ℕ) (hi : ℕ)
    → Rising lo xs mid
    → Rising mid ys hi
    → Rising lo (xs ++ ys) hi
Rising-append lo [] mid ys hi h k = Rising-above lo mid ys hi h k
Rising-append lo (x ∷ xs) mid ys hi h k = (h.0, Rising-append x xs mid ys hi h.1 k)

-- The next number behind others.
pub Rising-next :
    (lo : ℕ) (xs : List ℕ) (hi : ℕ) → Rising lo xs hi → Rising lo (xs ++ (hi + 1) ∷ []) (hi + 1)
Rising-next lo xs hi h =
    Rising-append lo xs hi ((hi + 1) ∷ []) (hi + 1) h (omega arith, omega arith)

pub Rising-two :
    (lo : ℕ) (xs : List ℕ) (mid : ℕ) (ys : List ℕ) (hi : ℕ)
    → Rising lo xs mid
    → Rising mid ys hi
    → Rising lo (xs ++ (ys ++ (hi + 1) ∷ [])) (hi + 1)
Rising-two lo xs mid ys hi h k =
    Rising-append lo xs mid (ys ++ (hi + 1) ∷ []) (hi + 1) h (Rising-next mid ys hi k)
