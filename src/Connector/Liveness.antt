-- ===== src/Connector/Liveness.antt =====
-- A call of `Send` comes back, where the server answers it
-- (cpp/jsonrpc/json-rpc-cxx/examples/conn/asiotcpconnector.hpp).
use code_study_example.Connector.Frame.{
  Message, Channel, Short, frame, read_message-frame, pending-write_message,
}
use code_study_example.Connector.Side.{
  idle, flagged, awaiting, written, return_response, on_message, writes, returns, hears, write_back,
  non_empty,
}
use code_study_example.Connector.Link.{Link}
use code_study_example.Connector.Phase.{
  quiet, asked, under_way, answered, received, unanswered, Link-Phase,
}
use code_study_example.Connector.Runs.{OneSided, start, by_client, by_server, OneSided-Phase}
use code_study_example.Connector.Answers.{connected}
use code_study_example.Shared.{
  ℕ, ◌<◌, ◌^◌, ◌≡◌, ◌≢◌, refl, sym, ap, ◌∙◌, List, [], ◌∷◌, true, false, length, arith, ◌⊎◌, inl,
  inr, ◌++◌, append-nil,
}

module _ (c : Channel) {C S : Type 0} (client_handle : C → Message → Message × C)
    (server_handle : S → Message → Message × S) where
  open c use {Stream, pending}

  -- A run to a state in which `Send` has returned for the request.
  abbrev Returned : Link c C S → Message → List (Message × Message) → Type 0
  Returned l request before =
      (m : Link c C S) × OneSided c client_handle server_handle l m
      × (m.client.sender ≡ idle)
      × ((response : Message) × (m.client.calls ≡ (request, response) ∷ before))

  from_received :
      (l m : Link c C S) (request : Message)
      → OneSided c client_handle server_handle l m
      → m.client.sender ≡ awaiting request
      → m.client.has_response ≡ true
      → Returned l request m.client.calls
  unfolding return_response
  from_received l m request r e h =
      (_, by_client r (returns request e h) tt, refl, (m.client.last_response, refl))

  from_answered :
      (l m : Link c C S) (request response : Message)
      → OneSided c client_handle server_handle l m
      → m.client.sender ≡ awaiting request
      → m.client.waiting_response ≡ true
      → Short response
      → pending m.to_client ≡ frame response
      → Returned l request m.client.calls
  unfolding on_message
  from_answered l m request response r e w s p =
      let (tc, got, left) =
        read_message-frame c response [] m.to_client s (p ∙ sym (append-nil (frame response))) in
      let (n, run, i, (a, back)) =
        from_received l _ request (by_client r (hears response tc got) tt) (rw w e) (rw w refl) in
      (n, run, i, (a, back ∙ ap (λ x. (request, a) ∷ x) (rw w refl)))

  written_back :
      (response : Message) (s : Stream)
      → response ≢ []
      → pending s ≡ []
      → pending (write_back c (non_empty response) s) ≡ frame response
  written_back [] s n e = absurd (n refl)
  written_back (b ∷ bs) s n e =
      pending-write_message c (b ∷ bs) s ∙ ap (λ (x : List ℕ). x ++ frame (b ∷ bs)) e

  from_under_way :
      (l m : Link c C S) (request : Message)
      → ((h : S) (q : Message) → (server_handle h q).0 ≢ [])
      → ((h : S) (q : Message) → length (server_handle h q).0 < 2 ^ 32)
      → OneSided c client_handle server_handle l m
      → m.server.waiting_response ≡ false
      → m.client.sender ≡ awaiting request
      → m.client.waiting_response ≡ true
      → Short request
      → pending m.to_server ≡ frame request
      → pending m.to_client ≡ []
      → Returned l request m.client.calls
  unfolding on_message
  from_under_way l m request answers short r calm e w s p q =
      let (ts, got, left) =
        read_message-frame c request [] m.to_server s (p ∙ sym (append-nil (frame request))) in
      from_answered l _ request (server_handle m.server.rpc request).0
        (by_server r (hears request ts got) tt) e w (short m.server.rpc request)
        (rw calm (
          written_back (server_handle m.server.rpc request).0 m.to_client
            (answers m.server.rpc request) q))

  from_asked :
      (l m : Link c C S) (request : Message)
      → ((h : S) (q : Message) → (server_handle h q).0 ≢ [])
      → ((h : S) (q : Message) → length (server_handle h q).0 < 2 ^ 32)
      → OneSided c client_handle server_handle l m
      → m.server.waiting_response ≡ false
      → m.client.sender ≡ flagged request
      → m.client.waiting_response ≡ true
      → Short request
      → pending m.to_server ≡ []
      → pending m.to_client ≡ []
      → Returned l request m.client.calls
  unfolding written
  from_asked l m request answers short r calm e w s p q =
      from_under_way l _ request answers short (by_client r (writes request e) tt) calm refl w s
        (pending-write_message c request m.to_server ∙ ap (λ (x : List ℕ). x ++ frame request) p) q

  from_phase :
      (l m : Link c C S) (request : Message)
      → ((h : S) (q : Message) → (server_handle h q).0 ≢ [])
      → ((h : S) (q : Message) → length (server_handle h q).0 < 2 ^ 32)
      → OneSided c client_handle server_handle l m
      → Link-Phase c client_handle server_handle m
      → (m.client.sender ≡ flagged request) ⊎ (m.client.sender ≡ awaiting request)
      → Returned l request m.client.calls
  from_phase l m request answers short r (calm, quiet e w t p h) (inl f) = absurd (ground arith)
  from_phase l m request answers short r (calm, quiet e w t p h) (inr f) = absurd (ground arith)
  from_phase l m request answers short r (calm, asked q e w s t p h) (inl f) =
      from_asked l m request answers short r calm.1 f w.0 (ground arith) t p
  from_phase l m request answers short r (calm, asked q e w s t p h) (inr f) = absurd (ground arith)
  from_phase l m request answers short r (calm, under_way q e w s t p h) (inl f) =
      absurd (ground arith)
  from_phase l m request answers short r (calm, under_way q e w s t p h) (inr f) =
      let same : q ≡ request = ground arith in
      from_under_way l m request answers short r calm.1 f w.0 (rw (sym same) s) (t ∙ ap frame same)
        p
  from_phase l m request answers short r (calm, answered q a e w s t p h) (inl f) =
      absurd (ground arith)
  from_phase l m request answers short r (calm, answered q a e w s t p h) (inr f) =
      from_answered l m request a r f w.0 s p
  from_phase l m request answers short r (calm, received q a e w y s t p h) (inl f) =
      absurd (ground arith)
  from_phase l m request answers short r (calm, received q a e w y s t p h) (inr f) =
      from_received l m request r f y
  from_phase l m request answers short r (calm, unanswered q e w t p h z) _ =
      absurd (answers z.0 q z.1)

  -- Where the server answers every request, with something that is not empty and shorter than 2³²
  -- bytes, no run in which only the client calls `Send` is stuck: from any state in which a call of
  -- `Send` is under way a run leads to one in which this call has returned.
  pub send_can_return :
      (hc : C) (hs : S) (ts tc : Stream) (l : Link c C S) (request : Message)
      → ((h : S) (q : Message) → (server_handle h q).0 ≢ [])
      → ((h : S) (q : Message) → length (server_handle h q).0 < 2 ^ 32)
      → pending ts ≡ []
      → pending tc ≡ []
      → OneSided c client_handle server_handle
          (connected c client_handle server_handle hc hs ts tc)
          l
      → (l.client.sender ≡ flagged request) ⊎ (l.client.sender ≡ awaiting request)
      → (m : Link c C S) × OneSided c client_handle server_handle l m
        × (m.client.sender ≡ idle)
        × ((response : Message) × (m.client.calls ≡ (request, response) ∷ l.client.calls))
  send_can_return hc hs ts tc l request answers short e f r at =
      from_phase l l request answers short start
        (OneSided-Phase c client_handle server_handle short r
          ((refl, refl), quiet refl refl e f refl))
        at
