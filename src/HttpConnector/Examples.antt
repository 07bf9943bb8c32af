-- ===== src/HttpConnector/Examples.antt =====
-- The connectors of cpp/jsonrpc/json-rpc-cxx/examples/conn on concrete requests.
use code_study_example.HttpConnector.{HttpResponse, post_action}
use code_study_example.HttpConnector.Listening.{Use, start_and_wait, stop_it}
use code_study_example.Shared.Texts.{Text}
use code_study_example.Shared.{ℕ, suc, List, [], ◌∷◌, Option, some}

-- A server that counts its requests and repeats them.
abbrev repeats : ℕ → Text → Text × ℕ
repeats n request = (request, suc n)

abbrev network : Text → ℕ → Option HttpResponse × ℕ
network request n = (some (post_action repeats request n).0, (post_action repeats request n).1)

abbrev uses : List Use
uses = start_and_wait ∷ start_and_wait ∷ stop_it ∷ start_and_wait ∷ []
