-- ===== src/Analytics/Structure/Breaks.antt =====
-- The levels and breaks of src/analytics/structure_engine.py.
use apex_xauusd_engine.Prelude.{Option, none, some, List, [], ◌∷◌}
use apex_xauusd_engine.Domain.{CandleNode}

abbrev triple : Option (CandleNode × CandleNode × CandleNode) → List CandleNode
triple none = []
triple (some (a, b, c)) = a ∷ b ∷ c ∷ []
