-- ===== src/Logger.antt =====
-- formatClassName of src/logger.cpp: the scoped name in a compiler's function signature.
pub mod Name
mod Tests
use iql.Base.{ℕ, ◌+◌, Option, none, some, List, [], ◌∷◌}
use iql.Text.{Text, txt, find, rfind, prefix_of, substr}

abbrev pub paren : Text
paren = b'(' ∷ []

abbrev pub space : Text
space = b' ' ∷ []

-- The name behind the last space.
unfoldable pub after_space : Text → Text
unfolding rfind
after_space s = elim (rfind s space) [ none ↦ s | some i ↦ substr s (i + 1) ]

unfoldable pub format_class_name : Text → Text
unfolding find after_space
format_class_name s = elim (find s paren) [ none ↦ s | some i ↦ after_space (prefix_of s i) ]
