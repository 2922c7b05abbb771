-- ===== src/Server/Events/Runs.antt =====
-- The loop of libev over events, and the invariant about the links, the table of clients and the
-- watchers.
use dime.Base.{List, [], ◌∷◌}
use dime.World.{World}
use dime.World.Yields.{Yields}
use dime.Server.Events.{Event, read_event, write_event, connect_event, Occurrence}
use dime.Server.Sound.{Sound}
use dime.Server.Sound.Visits.{Fresh}

-- `accept` returns no descriptor that is open.
abbrev pub FreshEvent : Event → Type 0
FreshEvent (read_event fd both retried io) = Unit {0}
FreshEvent (write_event fd both sent) = Unit {0}
FreshEvent (connect_event protocol io) = Fresh io

abbrev pub FreshAll : List Occurrence → Type 0
FreshAll [] = Unit {0}
FreshAll (e ∷ es) = FreshEvent e.event × FreshAll es

abbrev pub FreshEver : List (List Occurrence) → Type 0
FreshEver [] = Unit {0}
FreshEver (es ∷ ess) = FreshAll es × FreshEver ess
