-- ===== src/Socket/Upgrade/Examples.antt =====
-- Requests to become a WebSocket, whole, cut off and empty.
use dime.Base.{
  ℕ, ◌≡◌, refl, true, Option, some, List, [], ◌∷◌, ◌++◌, arith, replicate, map, take, drop,
}
use dime.Socket.Examples.{fresh}
use dime.Socket.Upgrade.{
  WsCalls, receive, more_to_come, reading_on, crashed, blank_line, init_ws, connection_text,
  upgrade_text, key_text, version_text, websocket_text,
}
use dime.Socket.Upgrade.Http.{contains, c_string}
use dime.Socket.Upgrade.Lines.{ended_lines}
use dime.Socket.Upgrade.Headers.{Field, asked_key}
use dime.Socket.Upgrade.Answered.{request_lines, Answers, init_ws_lem}
use dime.Socket.Upgrade.Closed.{init_ws_closed, init_ws_no_line}

abbrev encoded : List ℕ → List ℕ
encoded text = replicate 28 65

abbrev fields : List Field
fields =
    record { key = connection_text; val = upgrade_text }
    ∷ record { key = upgrade_text; val = websocket_text }
    ∷ record { key = key_text; val = b'x' ∷ b'1' ∷ [] }
    ∷ record { key = version_text; val = b'1' ∷ b'3' ∷ [] }
    ∷ []

abbrev request : List ℕ
request = ended_lines (request_lines (b'/' ∷ []) fields)

abbrev pieces : List (List ℕ)
pieces = take 50 request ∷ drop 50 request ∷ []

abbrev calls : List (Option (List ℕ)) → WsCalls
calls chunks = record {
  blocking = true;
  memory = true;
  grants = λ i. true;
  chunks = chunks;
  sends = true;
  nonblocking = true;
  ring_memory = true;
}

init_ws_example :
    Answers encoded
      (calls (map some pieces ++ []))
      fresh
      (asked_key fields)
      (init_ws encoded (calls (map some pieces ++ [])) fresh)
init_ws_example =
    init_ws_lem encoded (calls (map some pieces ++ [])) fresh b'/' [] fields pieces [] refl refl
      (λ i. refl) refl refl refl (λ text. refl) (ground arith) (ground arith) refl (omega arith)
      refl (omega arith)

cut_off : receive (λ i. true) 500 [] (some (take 50 request) ∷ []) ≡ more_to_come
unfolding receive contains c_string
cut_off = refl

init_ws_closed_example :
    init_ws encoded (calls ((some (take 50 request) ∷ []) ++ replicate 3 (some []))) fresh
    ≡ reading_on
init_ws_closed_example =
    init_ws_closed encoded 3 (calls (some (take 50 request) ∷ [])) fresh refl refl cut_off

blank_is_there : contains blank_line blank_line ≡ true
unfolding contains
blank_is_there = refl

init_ws_no_line_example : init_ws encoded (calls (some blank_line ∷ [])) fresh ≡ crashed
init_ws_no_line_example =
    init_ws_no_line encoded (calls (some blank_line ∷ [])) fresh blank_line [] refl refl refl
      (ground arith) blank_is_there (omega arith)
