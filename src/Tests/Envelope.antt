-- ===== src/Tests/Envelope.antt =====
-- The templates of webhook envelopes on concrete inputs.
use pikopod.Base.{List, [], ◌∷◌}
use pikopod.Base.Map.{Map}
use pikopod.Base.Bytes.{Bytes, codes}

abbrev vars : Map Bytes Bytes
vars = (codes "timestamp", codes "1700") ∷ []

abbrev parts : List (Bytes × Bytes)
parts = (codes "t=", codes " timestamp ") ∷ []
