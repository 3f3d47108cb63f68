-- ===== src/Protocol/Rasdaman.antt =====
-- The steps of the requests of RasdamanDS follow the protocol.
use iql.Base.{◌≡◌, true, arith}
use iql.Text.{Text}
use iql.Exec.{World, Backend}
use iql.Exec.Triple.{Triple}
use iql.Rasdaman
use iql.Rasdaman.Closed.{Ends}
use iql.Protocol.{InStep, follows}

module _ (b : Backend) where
  -- In step, inside a transaction.
  abbrev pub Active : World → Type 0
  Active w = InStep b w × (w.ras_tr ≡ true)

  module _ (n : Ends b) where
    pub connect_lem : Triple (InStep b) (Rasdaman.connect b) (λ _. Active) (λ _. InStep b)
    unfolding Rasdaman.connect follows
    connect_lem = record { at = λ w h. grind (arith, n.commits, n.aborts, n.closes) }

    pub execute_lem :
        (q : Text)
        → Triple Active (Rasdaman.guarded b (Rasdaman.execute b q)) (λ _. Active) (λ _. InStep b)
    unfolding Rasdaman.guarded Rasdaman.execute follows
    execute_lem q = record { at = λ w h. grind (arith, n.commits, n.aborts, n.closes) }

    pub commit_ta_lem : Triple Active (Rasdaman.commit_ta b) (λ _. InStep b) (λ _. InStep b)
    unfolding Rasdaman.commit_ta follows
    commit_ta_lem = record { at = λ w h. grind (arith, n.commits, n.aborts, n.closes) }
