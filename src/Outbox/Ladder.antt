-- ===== src/Outbox/Ladder.antt =====
-- internal/outbox/ladder.go: the delays between the attempts on one row.
use lawang.Prelude.{
  ℕ, ◌+◌, ◌-◌, Bool, ◌||◌, List, [], ◌∷◌, Option, none, ltb, if◌then◌else◌, get_elem?, length,
}

-- Delays in seconds.
abbrev pub Ladder : Type 0
Ladder = List ℕ

abbrev pub default_ladder : Ladder
default_ladder = 5 ∷ 30 ∷ 120 ∷ 600 ∷ 3600 ∷ 21600 ∷ 43200 ∷ []

-- `none` where the source returns `ok` false.
unfoldable pub next : Ladder → ℕ → Option ℕ
next l attempts =
    if ltb attempts 1 || ltb (length l) attempts then none else get_elem? l (attempts - 1)

unfoldable pub exhausted : Ladder → ℕ → Bool
exhausted l attempts = ltb (length l + 1) attempts
