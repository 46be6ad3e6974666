-- ===== src/Tests/Server.antt =====
-- A client that connects and sends the first bytes of a message.
use bb_auth.Prelude.{ℕ, Option, some, List, [], ◌∷◌}
use bb_auth.Json.{Object, end}
use bb_auth.Ipc.Server.{connects, sends, new_server, serve}
use bb_auth.Ipc.Server.Invariant.{IsSafe, idle, served, serving-IsSafe}
use bb_auth.Tests.Fixtures.{world, register_json}

abbrev bytes : List ℕ → List ℕ
bytes line = line

abbrev parse : List ℕ → Option Object
parse line = some register_json

serving-IsSafe_example : IsSafe (
    serve bytes parse
      (world 20000)
      end
      (sends 1 (97 ∷ 10 ∷ 98 ∷ []))
      (serve bytes parse (world 20000) end (connects 1) new_server))
serving-IsSafe_example =
    serving-IsSafe bytes parse
      (serve bytes parse (world 20000) end (sends 1 (97 ∷ 10 ∷ 98 ∷ []))
        (serve bytes parse (world 20000) end (connects 1) new_server))
      (served (world 20000) end (sends 1 (97 ∷ 10 ∷ 98 ∷ []))
        (served (world 20000) end (connects 1) idle))
