-- ===== src/Rasdaman/Tests.antt =====
-- RasdamanDS on concrete servers.
use iql.Base.{◌≡◌, refl, false, List, [], ◌∷◌}
use iql.Text.{txt}
use iql.Fault.{ok}
use iql.Table.Import.{RasElement, mdd, tiff, of_rasdaman}
use iql.Exec.{World}
use iql.Exec.Triple.{After}
use iql.Exec.Example.{accepting, refusing, idle}
use iql.Rasdaman
use iql.Rasdaman.Recovery.{Accepts, query_recovers_ras}
use iql.Rasdaman.Closed.{Ends, IsReady, Failed, query_lem, remove_temp_tables_lem}

accepting-Ends : Ends accepting
accepting-Ends = record { commits = λ h. refl; aborts = λ h. refl; closes = λ h. refl }

query_lem_example :
    After
      (λ _. IsReady)
      Failed
      (Rasdaman.query accepting (txt "SELECT c FROM c") idle).0
      (Rasdaman.query accepting (txt "SELECT c FROM c") idle).1
    × After
        (λ _. IsReady)
        Failed
        (Rasdaman.update_query accepting (txt "SELECT c FROM c") idle).0
        (Rasdaman.update_query accepting (txt "SELECT c FROM c") idle).1
query_lem_example = query_lem accepting (txt "SELECT c FROM c") idle accepting-Ends

remove_temp_tables_lem_example :
    After
      (λ _ v. v.ras_temp ≡ [])
      (λ _ _. ⊥)
      (Rasdaman.remove_temp_tables refusing idle).0
      (Rasdaman.remove_temp_tables refusing idle).1
remove_temp_tables_lem_example = remove_temp_tables_lem refusing idle

accepting-Accepts : Accepts accepting
accepting-Accepts = record { opens = λ h. refl; begins = λ h. refl; ends = accepting-Ends }

-- The one array that the server answers.
abbrev arrays : List RasElement
arrays = record { oid = txt "10753"; value = mdd tiff } ∷ []

query_recovers_ras_example :
    (v : World) × (Rasdaman.query accepting (txt "SELECT c FROM c") idle
      ≡ (ok (of_rasdaman (λ format i. []) arrays), v))
    × (v.ras_tr ≡ false)
query_recovers_ras_example =
    query_recovers_ras accepting idle (txt "SELECT c FROM c") arrays accepting-Accepts (λ h. refl)
