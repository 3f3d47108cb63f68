-- ===== src/Source.antt =====
-- DbEnum of src/querytree/QtNode.hpp: which database system holds a table or a node's result.
use iql.Base.{Bool, true, false}

pub data DbEnum : Type 0 where
  db_not_initialized postgres rasdaman unknown_db mixed : DbEnum

-- The enumerators' numbers.
unfoldable pub same_source : DbEnum → DbEnum → Bool
same_source db_not_initialized db_not_initialized = true
same_source postgres postgres = true
same_source rasdaman rasdaman = true
same_source unknown_db unknown_db = true
same_source mixed mixed = true
same_source _ _ = false
