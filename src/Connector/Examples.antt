-- ===== src/Connector/Examples.antt =====
-- Runs of the connectors of cpp/jsonrpc/json-rpc-cxx/examples/conn/asiotcpconnector.hpp.
use code_study_example.Connector.Frame.{Message, Channel, read_all, write_all, read_all-write_all}
use code_study_example.Connector.Side.{idle, flagged, awaiting, begin_send, begins}
use code_study_example.Connector.Link.{Link, Steps}
use code_study_example.Connector.Runs.{OneSided, start, by_client}
use code_study_example.Connector.Answers.{connected, calls_return_answers}
use code_study_example.Connector.Liveness.{send_can_return}
use code_study_example.Connector.Notification.{unanswered_send_blocks}
use code_study_example.Connector.Crossing.{crossing_requests}
use code_study_example.Shared.{
  ℕ, suc, ◌<◌, ◌≤◌, ◌%◌, ◌≡◌, refl, List, [], ◌∷◌, Option, none, some, length, arith, ◌++◌, take,
  drop, leb, if◌then◌else◌, ◌⊎◌, inl,
}

pub read_bytes : ℕ → List ℕ → Option (List ℕ × List ℕ)
read_bytes n s = if leb n (length s) then some (take n s, drop n s) else none

pub read_bytes-enough :
    (n : ℕ) (s : List ℕ)
    → n ≤ length s
    → (t : List ℕ) × (read_bytes n s ≡ some (take n s, t)) × (t ≡ drop n s)
unfolding read_bytes
read_bytes-enough n s h = (drop n s, ground arith, refl)

pub read_bytes-short : (n : ℕ) (s : List ℕ) → length s < n → read_bytes n s ≡ none
unfolding read_bytes
read_bytes-short n s h = ground arith

-- A connection that is a list of bytes.
abbrev pub bytes : Channel
bytes = record {
  Stream = List ℕ;
  pending = λ s. s;
  read = read_bytes;
  write = λ bs s. s ++ bs;
  pending-write = λ bs s. refl;
  read_enough = read_bytes-enough;
  read_short = read_bytes-short;
}

-- Counts the requests.
abbrev count : ℕ → Message → Message × ℕ
count n _ = (n % 256 ∷ [], suc n)

-- Answers nothing.
abbrev silent : ℕ → Message → Message × ℕ
silent n _ = ([], suc n)

abbrev pub hello : Message
hello = 104 ∷ 105 ∷ []

abbrev pub bye : Message
bye = 98 ∷ []

abbrev fresh : Link bytes ℕ ℕ
fresh = connected bytes count count 0 7 [] []

abbrev asking : Link bytes ℕ ℕ
asking = record fresh { client = begin_send hello fresh.client }

asking-OneSided : OneSided bytes count count fresh asking
asking-OneSided = by_client start (begins hello refl) (ground arith)

quietly-OneSided :
    OneSided bytes count silent
      (connected bytes count silent 0 7 [] [])
      (record fresh { client = begin_send hello fresh.client })
quietly-OneSided = by_client start (begins hello refl) (ground arith)

read_all-write_all_example :
    (t : List ℕ) × (read_all bytes 2 (write_all bytes (hello ∷ bye ∷ []) [])
      ≡ some (hello ∷ bye ∷ [], t))
    × (t ≡ [])
read_all-write_all_example =
    read_all-write_all bytes (hello ∷ bye ∷ []) [] (ground arith, (ground arith, tt)) refl

calls_return_answers_example :
    (asking.server.handled ≡ asking.client.calls)
    ⊎ ((request : Message) × (response : Message) × (asking.server.handled
          ≡ (request, response) ∷ asking.client.calls))
calls_return_answers_example =
    calls_return_answers bytes count count 0 7 [] [] asking (λ h q. ground arith) refl refl
      asking-OneSided

asking-flagged : asking.client.sender ≡ flagged hello
unfolding begin_send
asking-flagged = refl

send_can_return_example :
    (m : Link bytes ℕ ℕ) × OneSided bytes count count asking m
    × (m.client.sender ≡ idle)
    × ((response : Message) × (m.client.calls ≡ (hello, response) ∷ asking.client.calls))
send_can_return_example =
    send_can_return bytes count count 0 7 [] [] asking hello (λ h q e. ground arith)
      (λ h q. ground arith) refl refl asking-OneSided (inl asking-flagged)

unanswered_send_blocks_example :
    (asking.client.calls ≡ asking.client.calls)
    × ((asking.client.sender ≡ flagged hello) ⊎ (asking.client.sender ≡ awaiting hello))
unanswered_send_blocks_example =
    unanswered_send_blocks bytes count silent 0 7 [] [] asking asking hello (λ h q. ground arith)
      (λ h. refl) refl refl quietly-OneSided asking-flagged start

crossing_requests_example :
    (m : Link bytes ℕ ℕ) × Steps bytes count count fresh m
    × (m.client.calls ≡ (hello, bye) ∷ [])
    × (m.server.calls ≡ (bye, hello) ∷ [])
    × (m.client.handled ≡ [])
    × (m.server.handled ≡ [])
crossing_requests_example =
    crossing_requests bytes count count fresh hello bye (ground arith) (ground arith) refl refl refl
      refl
