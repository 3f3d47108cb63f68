-- ===== src/Text/Tests.antt =====
-- The suffix test on a name that is one byte shorter than the suffix.
use iql.Base.{◌≡◌, ◌↔◌, ◌⊎◌, ◌+◌, true, arith, length}
use iql.Text.{txt, ends_at}
use iql.Text.Suffix.{IsSuffix, ends_at_iff}

ends_at_iff_example :
    (ends_at (txt "size") (txt "__oid") ≡ true)
    ↔ (IsSuffix (txt "__oid") (txt "size") ⊎ (length (txt "__oid") ≡ length (txt "size") + 1))
unfolding txt
ends_at_iff_example = ends_at_iff (txt "size") (txt "__oid") (omega arith) (omega arith)
