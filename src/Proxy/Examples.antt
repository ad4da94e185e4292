-- ===== src/Proxy/Examples.antt =====
-- A client of the proxy that is served between two others.
use seestar_remote.Base.{List, [], ◌∷◌}
use seestar_remote.Proxy.{Event, hands_on, connects, leaves}

-- 1 is served, 3 is turned away.
abbrev before : List Event
before = connects 1 ∷ hands_on (9 ∷ []) ∷ connects 3 ∷ leaves 1 ∷ []

-- 2 is served, 3 is turned away.
abbrev during : List Event
during = hands_on (5 ∷ []) ∷ connects 3 ∷ hands_on (6 ∷ 7 ∷ []) ∷ []

abbrev later : List Event
later = connects 3 ∷ hands_on (8 ∷ []) ∷ []
