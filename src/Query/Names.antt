-- ===== src/Query/Names.antt =====
-- The names of query nodes, under which their results are kept in the two systems.
use iql.Base.{ℕ, zero, suc, ◌+◌, ◌≡◌, refl, ap, drop, arith}
use iql.Text.{Text, txt}
use iql.Text.Decimal.{decimal_injective}
use iql.Query.{generate_id, node_name}

-- The counter after `k` ids.
abbrev pub later : ℕ → ℕ → ℕ
later zero c = c
later (suc k) c = (generate_id (later k c)).1

later_lem : (k c : ℕ) → later k c ≡ c + k
unfolding generate_id
later_lem zero c = omega arith
later_lem (suc k) c = omega (arith, later_lem k c)

abbrev behind_id : Text → Text
behind_id s = drop 2 s

-- An id that generateId gives is the name of the number at which it leaves the counter, and none of
-- the ids that later calls give, however many come between, is the same: the results of different
-- nodes are kept under different names.
pub generate_id_lem :
    (c k : ℕ)
    → ((generate_id c).0 ≡ node_name (generate_id c).1)
      × ¬ ((generate_id c).0 ≡ (generate_id (later (suc k) c)).0)
unfolding generate_id node_name txt
generate_id_lem c k = (
  refl,
  λ h.
      let e = decimal_injective (c + 1) (later (suc k) c + 1) (ap behind_id h) in
      omega (arith, e, later_lem k c),
)
