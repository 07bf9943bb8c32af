-- ===== src/Connector/Crossing.antt =====
-- Both ends call `Send` at the same time
-- (cpp/jsonrpc/json-rpc-cxx/examples/conn/asiotcpconnector.hpp).
use code_study_example.Connector.Frame.{
  Message, Channel, write_message, frame, read_message-frame, pending-write_message,
}
use code_study_example.Connector.Side.{
  idle, begin_send, written, return_response, on_message, begins, writes, returns, hears,
}
use code_study_example.Connector.Link.{Link, client_moves, server_moves, Steps, here, next}
use code_study_example.Shared.{
  ℕ, ◌<◌, ◌^◌, ◌≡◌, refl, sym, ap, ◌∙◌, List, [], ◌∷◌, length, ◌++◌, append-nil,
}

module _ (c : Channel) {C S : Type 0} (client_handle : C → Message → Message × C)
    (server_handle : S → Message → Message × S) where
  open c use {Stream, pending}

  -- From any state in which no call of `Send` is under way and nothing is in the streams, both ends
  -- may call `Send` at the same time, with requests shorter than 2³² bytes, such that each call
  -- returns the other end's request as its answer and neither request is handled.
  pub crossing_requests :
      (l : Link c C S) (p q : Message)
      → length p < 2 ^ 32
      → length q < 2 ^ 32
      → l.client.sender ≡ idle
      → l.server.sender ≡ idle
      → pending l.to_server ≡ []
      → pending l.to_client ≡ []
      → (m : Link c C S) × Steps c client_handle server_handle l m
        × (m.client.calls ≡ (p, q) ∷ l.client.calls)
        × (m.server.calls ≡ (q, p) ∷ l.server.calls)
        × (m.client.handled ≡ l.client.handled)
        × (m.server.handled ≡ l.server.handled)
  unfolding return_response on_message written begin_send
  crossing_requests l p q sp sq ic is es ec =
      let (ts, got_p, left_p) = read_message-frame c p [] (write_message c p l.to_server) sp (
        pending-write_message c p l.to_server
        ∙ ap (λ (x : List ℕ). x ++ frame p) es
        ∙ sym (append-nil (frame p))) in
      let (tc, got_q, left_q) = read_message-frame c q [] (write_message c q l.to_client) sq (
        pending-write_message c q l.to_client
        ∙ ap (λ (x : List ℕ). x ++ frame q) ec
        ∙ sym (append-nil (frame q))) in
      let asks =
        next (next here (client_moves _ _ _ (begins p ic))) (server_moves _ _ _ (begins q is)) in
      let writing =
        next (next asks (client_moves _ _ _ (writes p refl)))
          (server_moves _ _ _ (writes q refl)) in
      let heard =
        next (next writing (client_moves _ _ _ (hears q tc got_q)))
          (server_moves _ _ _ (hears p ts got_p)) in
      (
        _,
        next (next heard (client_moves _ _ _ (returns p refl refl)))
            (server_moves _ _ _ (returns q refl refl)),
        refl,
        refl,
        refl,
        refl,
      )
