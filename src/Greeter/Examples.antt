-- ===== src/Greeter/Examples.antt =====
-- A session of grpc/greeter_client.cc.
use code_study_example.Greeter.{Console, greeter_loop}
use code_study_example.Greeter.Sessions.{dialogue, received, session_greets}
use code_study_example.Shared.Texts.{Text, codes}
use code_study_example.Shared.{ℕ, ◌≡◌, refl, List, [], ◌∷◌, ◌++◌, Option, none, some, arith}

abbrev quiet : Console
quiet = record { server_out = []; client_out = []; calls = 0 }

abbrev no_outage : ℕ → Option (ℕ × Text)
no_outage n = none

abbrev two : List Text
two = codes "ann" ∷ codes "qq" ∷ []

session_greets_example :
    (s' : Console) × (greeter_loop no_outage
        (codes "77")
        3
        (two ++ codes "q" ∷ codes "bob" ∷ [])
        quiet
      ≡ some s')
    × (s'.client_out ≡ quiet.client_out ++ dialogue (codes "77") two)
    × (s'.server_out ≡ quiet.server_out ++ received (codes "77") two)
session_greets_example =
    session_greets no_outage (codes "77") 3 two (codes "bob" ∷ []) quiet (λ n. refl)
      (refl, (refl, tt)) (ground arith)
