-- ===== src/Import/Separators.antt =====
-- `GetRowSeparator` on statements that name a separator in single quotes, or none.
use go_exasol.Base.{Bytes}
use go_exasol.Text.Words.{NoTriple}

-- The letters r, o and w, in any case, do not stand one behind the other.
abbrev pub NoRow : Bytes → Type 0
NoRow = NoTriple b'r' b'o' b'w'
