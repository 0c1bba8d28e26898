-- ===== src/Model/Generation.antt =====
-- `Generation` of src/model/ids.rs.
use agenttender.Common.{ℕ, ◌+◌, if◌then◌else◌, ◌==◌, ltb}
use agenttender.Common.Words.{u64_max}

-- A u64 counter that starts at 1.
pub record Generation : Type 0 where
  pub number : ℕ

abbrev pub first : Generation
first = record { number = 1 }

unfoldable pub from_u64 : ℕ → Generation
from_u64 n = if n == 0 then first else record { number = n }

-- `saturating_add`
unfoldable pub next : Generation → Generation
next g = if ltb g.number u64_max then record { number = g.number + 1 } else g
