-- ===== src/Server/Events/Examples.antt =====
-- A server under libev: a client comes, joins a group, sends, and is written to.
use dime.Base.{true, false, some, List, [], ◌∷◌}
use dime.Request.{join_request, send_request}
use dime.Server.{dime_tcp}
use dime.Server.Events.{Event, read_event, write_event, connect_event, Occurrence}
use dime.Server.Examples.{busy}
use dime.Server.Sound.{Sound}

abbrev happening : Event → Occurrence
happening event = record { event = event; pushed = λ fd. true }

abbrev events : List (List Occurrence)
events =
    (happening (connect_event dime_tcp (busy true [] false)) ∷ [])
    ∷ (happening (
          read_event 4 false false (
            busy true (join_request (some (some 1 ∷ [])) ∷ send_request (some 1) (123 ∷ []) [] ∷ [])
              false))
        ∷ happening (write_event 4 false (some true))
        ∷ [])
    ∷ (happening (read_event 4 true false (busy true [] false)) ∷ [])
    ∷ []
