-- ===== src/Api/Query.antt =====
-- The query parameters from and size of ListStatements and GetStatement.
pub mod Bounds
use livy_next.Prelude.{Option, none, some, Text, is_empty, if◌then◌else◌}
use livy_next.Prelude.Int.{ℤ, pos, ltb_ℤ, leb_ℤ}
use livy_next.Strconv.{atoi}

from_value : Option ℤ → ℤ
from_value none = pos 0
from_value (some f) = if leb_ℤ (pos 0) f then f else pos 0

-- The empty text stands for a missing parameter.
unfoldable pub query_from : Text → ℤ
unfolding from_value
query_from s = if is_empty s then pos 0 else from_value (atoi s)

size_value : Option ℤ → ℤ
size_value none = pos 0
size_value (some n) = if ltb_ℤ (pos 0) n then n else pos 0

unfoldable pub query_size : Text → ℤ
unfolding size_value
query_size s = if is_empty s then pos 0 else size_value (atoi s)
