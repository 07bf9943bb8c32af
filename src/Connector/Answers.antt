-- ===== src/Connector/Answers.antt =====
-- What `Send` returns while only the client sends requests
-- (cpp/jsonrpc/json-rpc-cxx/examples/conn/asiotcpconnector.hpp).
use code_study_example.Connector.Frame.{Message, Channel}
use code_study_example.Connector.Side.{new_side}
use code_study_example.Connector.Link.{Link}
use code_study_example.Connector.Phase.{
  Phase, quiet, asked, under_way, answered, received, unanswered,
}
use code_study_example.Connector.Runs.{OneSided, OneSided-Phase}
use code_study_example.Shared.{◌<◌, ◌^◌, ◌≡◌, refl, [], ◌∷◌, length, ◌⊎◌, inl, inr}

module _ (c : Channel) {C S : Type 0} (client_handle : C → Message → Message × C)
    (server_handle : S → Message → Message × S) where
  open c use {Stream, pending}

  -- A new connection.
  abbrev pub connected : C → S → Stream → Stream → Link c C S
  connected hc hs ts tc = record {
    client = new_side hc;
    server = new_side hs;
    to_server = ts;
    to_client = tc;
  }

  -- The server's `HandleRequest` has been called for exactly the requests whose answers `Send` has
  -- returned, and perhaps for one more.
  abbrev pub Matches : Link c C S → Type 0
  Matches l =
      (l.server.handled ≡ l.client.calls)
      ⊎ ((request : Message) × (response : Message) × (l.server.handled
            ≡ (request, response) ∷ l.client.calls))

  Phase-Matches :
      (l : Link c C S)
      → Phase c client_handle server_handle l.client l.server l.to_server l.to_client
      → Matches l
  Phase-Matches l (quiet e w t p h) = inl h
  Phase-Matches l (asked q e w s t p h) = inl h
  Phase-Matches l (under_way q e w s t p h) = inl h
  Phase-Matches l (answered q a e w s t p h) = inr (q, a, h)
  Phase-Matches l (received q a e w y a2 t p h) = inr (q, a, h)
  Phase-Matches l (unanswered q e w t p h z) = inr (q, [], h)

  -- On a new connection over which only the client calls `Send`, with requests and answers shorter
  -- than 2³² bytes, the requests that `Send` has returned for and what it returned are, in order,
  -- those that the server's `HandleRequest` was called on and its answers, up to one request that
  -- the server has handled and `Send` has not returned for.
  pub calls_return_answers :
      (hc : C) (hs : S) (ts tc : Stream) (l : Link c C S)
      → ((h : S) (q : Message) → length (server_handle h q).0 < 2 ^ 32)
      → pending ts ≡ []
      → pending tc ≡ []
      → OneSided c client_handle server_handle (connected hc hs ts tc) l
      → (l.server.handled ≡ l.client.calls)
        ⊎ ((request : Message) × (response : Message) × (l.server.handled
              ≡ (request, response) ∷ l.client.calls))
  calls_return_answers hc hs ts tc l short e f r =
      Phase-Matches l
        (OneSided-Phase c client_handle server_handle short r
          ((refl, refl), quiet refl refl e f refl)).1
