-- ===== src/Connector/ClientExamples.antt =====
-- Runs of the server of cpp/jsonrpc/json-rpc-cxx/examples/conn/asiotcpconnector.hpp with two clients.
use code_study_example.Connector.Examples.{bytes}
use code_study_example.Connector.Frame.{Message, frame}
use code_study_example.Connector.Side.{new_side}
use code_study_example.Connector.Clients.{End, Network}
use code_study_example.Connector.Bounce.{OnItsWay, stay, QuietRun}
use code_study_example.Connector.Echo.{handlings, answers_never_end}
use code_study_example.Shared.{ℕ, suc, ◌≡◌, refl, [], ◌∷◌, inl, arith}

-- "error"
abbrev error : Message
error = 101 ∷ 114 ∷ 114 ∷ 111 ∷ 114 ∷ []

-- Answers everything by an error.
abbrev refuse : ℕ → Message → Message × ℕ
refuse n _ = (error, suc n)

abbrev silent_end : End bytes ℕ
silent_end = record { client = new_side 0; to_server = []; to_client = [] }

-- The client 1 connected last.
abbrev two_clients : Network bytes ℕ ℕ
two_clients = record { server = new_side 0; latest_socket = 1; ends = λ _. silent_end }

-- The error of the client 1 is on its way.
abbrev late_answer : Network bytes ℕ ℕ
late_answer = record two_clients {
  ends = λ _. record { client = new_side 0; to_server = frame error; to_client = [] };
}

answers_never_end_example :
    ((y : Message) × (y ≡ error) × OnItsWay bytes y (frame error) [])
    × ((k : Network bytes ℕ ℕ) × QuietRun bytes refuse refuse 1 late_answer k
        × (handlings bytes refuse refuse 1 k ≡ 1))
answers_never_end_example =
    answers_never_end bytes refuse refuse (λ y. y ≡ error) (λ y e. rw e (ground arith))
      (λ y e f. ground (arith, e, f)) (λ h y e. refl) (λ h y e. refl) 1 error late_answer
      late_answer refl ((refl, refl), (refl, refl)) (inl (refl, refl)) stay
