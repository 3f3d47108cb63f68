-- ===== src/Exec/Example.antt =====
-- Servers and a state of the client for the tests.
use iql.Base.{true, false, none, [], ◌∷◌}
use iql.Text.{txt}
use iql.Table.Import.{PgResult, mdd, tiff}
use iql.Source.{db_not_initialized}
use iql.Exec.{World, Backend, rows, sql_failure, elements, failure}

-- One row of an id and an array's object id.
abbrev pub one_row : PgResult
one_row = record {
  column_names = txt "iqlinternalid" ∷ txt "c__oid" ∷ [];
  tuples = (txt "1" ∷ txt "10753" ∷ []) ∷ [];
}

-- Everything is accepted.
abbrev pub accepting : Backend
accepting = record {
  pg_connects = λ h. true;
  pg_begins = λ h. true;
  pg_begin_breaks = λ h. true;
  pg_is_open = λ h. true;
  pg_reply = λ h q. rows one_row;
  pg_copies = λ h name cells. true;
  ras_connects = λ h. true;
  ras_begins = λ h. true;
  ras_is_active = λ h. true;
  ras_commits = λ h. true;
  ras_aborts = λ h. true;
  ras_closes = λ h. true;
  ras_reply = λ h q. elements (record { oid = txt "10753"; value = mdd tiff } ∷ []);
  ras_catalog = none;
  file_opens = λ name. true;
  empty_flag_faults = false;
  r_error_is_exception = true;
  what = λ e. [];
}

-- Every query fails.
abbrev pub refusing : Backend
refusing = record accepting { pg_reply = λ h q. sql_failure; ras_reply = λ h q. failure }

-- The client at its start, with two temporary tables.
abbrev pub idle : World
idle = record {
  history = [];
  pg_conn = false;
  pg_tr = false;
  pg_temp = txt "id1" ∷ txt "id2" ∷ [];
  ras_db = false;
  ras_tr = false;
  ras_temp = txt "id1" ∷ [];
  table_map = [];
  encode = [];
  product = none;
  db_source = λ i. db_not_initialized;
  column_table = λ i. none;
  results = λ i. [];
}
