-- ===== src/Connector/Notification.antt =====
-- `Send` of a request that the other end does not answer, such as a JSON-RPC notification
-- (cpp/jsonrpc/json-rpc-cxx/examples/conn/asiotcpconnector.hpp).
use code_study_example.Connector.Frame.{
  Message, Channel, read_message, read_message-nil, read_message-one,
}
use code_study_example.Connector.Side.{
  Side, flagged, awaiting, written, on_message, Move, begins, writes, returns, hears, write_back,
}
use code_study_example.Connector.Link.{Link}
use code_study_example.Connector.Phase.{
  Phase, quiet, asked, under_way, answered, received, unanswered, Calm, Link-Phase, MayServer,
}
use code_study_example.Connector.Runs.{OneSided, start, by_client, by_server, OneSided-Phase}
use code_study_example.Connector.Answers.{connected}
use code_study_example.Shared.{
  ◌<◌, ◌^◌, ◌≡◌, refl, List, [], true, false, some, length, arith, ◌⊎◌, inl, inr,
}

module _ (c : Channel) {C S : Type 0} (client_handle : C → Message → Message × C)
    (server_handle : S → Message → Message × S) where
  open c use {Stream, pending}

  -- The call has not returned, and there is nothing for it to return.
  abbrev Blocked : Message → List (Message × Message) → Side C → Stream → Type 0
  Blocked request before cl tc =
      (cl.calls ≡ before)
      × (pending tc ≡ [])
      × (cl.waiting_response ≡ true)
      × (cl.has_response ≡ false)
      × ((cl.sender ≡ flagged request) ⊎ (cl.sender ≡ awaiting request))

  client_stays :
      {cl cl' : Side C} {ts tc ts' tc' : Stream} (request : Message)
      (before : List (Message × Message))
      → Move c client_handle cl tc ts cl' tc' ts'
      → Blocked request before cl tc
      → Blocked request before cl' tc'
  unfolding written
  client_stays {tc} request before (hears m from' r) (b, p, w, h, at) =
      absurd (cc (read_message-nil c tc p))
  client_stays request before (begins q e) (b, p, w, h, at) = absurd (ground (arith, at))
  client_stays request before (writes q e) (b, p, w, h, inl f) = (b, p, w, h, inr (ground arith))
  client_stays request before (writes q e) (b, p, w, h, inr f) = absurd (ground arith)
  client_stays request before (returns q e has) (b, p, w, h, at) = absurd (ground arith)

  server_hears_it :
      (cl : Side C) (sv : Side S) (ts tc ts' : Stream) (m request : Message)
      (before : List (Message × Message))
      → ((h : S) → (server_handle h request).0 ≡ [])
      → sv.waiting_response ≡ false
      → read_message c ts ≡ some (m, ts')
      → Phase c client_handle server_handle cl sv ts tc
      → Blocked request before cl tc
      → write_back c (on_message server_handle m sv).0 tc ≡ tc
  unfolding on_message
  server_hears_it cl sv ts tc ts' m request before silent calm r (under_way q e w s t p h)
        (b, x, y, z, at) =
      let same : m ≡ request = ground (arith, (read_message-one c q m ts ts' s t r).0, at) in
      rw (calm, same, silent sv.rpc) refl
  server_hears_it cl sv ts tc ts' m request before silent calm r (quiet e w t p h) b =
      absurd (cc (read_message-nil c ts t))
  server_hears_it cl sv ts tc ts' m request before silent calm r (asked q e w s t p h) b =
      absurd (cc (read_message-nil c ts t))
  server_hears_it cl sv ts tc ts' m request before silent calm r (answered q a e w s t p h) b =
      absurd (cc (read_message-nil c ts t))
  server_hears_it cl sv ts tc ts' m request before silent calm r (received q a e w y s t p h) b =
      absurd (cc (read_message-nil c ts t))
  server_hears_it cl sv ts tc ts' m request before silent calm r (unanswered q e w t p h z) b =
      absurd (cc (read_message-nil c ts t))

  server_stays :
      {sv sv' : Side S} {ts tc ts' tc' : Stream} (cl : Side C) (request : Message)
      (before : List (Message × Message))
      → ((h : S) → (server_handle h request).0 ≡ [])
      → (mv : Move c server_handle sv ts tc sv' ts' tc')
      → MayServer c client_handle server_handle mv
      → Calm sv
      → Phase c client_handle server_handle cl sv ts tc
      → Blocked request before cl tc
      → Blocked request before cl tc'
  server_stays {sv} {ts} {tc} cl request before silent (hears m from' r) g calm ph b =
      rw (server_hears_it cl sv ts tc from' m request before silent calm.1 r ph b) b
  server_stays cl request before silent (begins q e) g calm ph b = absurd g
  server_stays cl request before silent (writes q e) g calm ph b = absurd (ground arith)
  server_stays cl request before silent (returns q e has) g calm ph b = absurd (ground arith)

  stays :
      {l m : Link c C S} (request : Message)
      → ((h : S) (q : Message) → length (server_handle h q).0 < 2 ^ 32)
      → ((h : S) → (server_handle h request).0 ≡ [])
      → Link-Phase c client_handle server_handle l
      → OneSided c client_handle server_handle l m
      → Blocked request l.client.calls l.client l.to_client
      → Blocked request l.client.calls m.client m.to_client
  stays request short silent ph start b = b
  stays {l} request short silent ph (by_client r mv g) b =
      client_stays request l.client.calls mv (stays request short silent ph r b)
  stays {l} request short silent ph (by_server r mv g) b =
      let (calm, at) = OneSided-Phase c client_handle server_handle short r ph in
      server_stays _ request l.client.calls silent mv g calm at (stays request short silent ph r b)

  at_first :
      {l : Link c C S} (request : Message)
      → Link-Phase c client_handle server_handle l
      → l.client.sender ≡ flagged request
      → Blocked request l.client.calls l.client l.to_client
  at_first request (calm, asked q e w s t p h) f = (refl, p, w.0, w.1, inl f)
  at_first request (calm, quiet e w t p h) f = absurd (ground arith)
  at_first request (calm, under_way q e w s t p h) f = absurd (ground arith)
  at_first request (calm, answered q a e w s t p h) f = absurd (ground arith)
  at_first request (calm, received q a e w y s t p h) f = absurd (ground arith)
  at_first request (calm, unanswered q e w t p h z) f = absurd (ground arith)

  -- Where the server answers a request by nothing at all, a call of `Send` with this request never
  -- returns: in every run in which only the client calls `Send`, the thread that began the call
  -- stays in it.
  pub unanswered_send_blocks :
      (hc : C) (hs : S) (ts tc : Stream) (l m : Link c C S) (request : Message)
      → ((h : S) (q : Message) → length (server_handle h q).0 < 2 ^ 32)
      → ((h : S) → (server_handle h request).0 ≡ [])
      → pending ts ≡ []
      → pending tc ≡ []
      → OneSided c client_handle server_handle
          (connected c client_handle server_handle hc hs ts tc)
          l
      → l.client.sender ≡ flagged request
      → OneSided c client_handle server_handle l m
      → (m.client.calls ≡ l.client.calls)
        × ((m.client.sender ≡ flagged request) ⊎ (m.client.sender ≡ awaiting request))
  unanswered_send_blocks hc hs ts tc l m request short silent e f r at run =
      let ph : Link-Phase c client_handle server_handle l =
        OneSided-Phase c client_handle server_handle short r
          ((refl, refl), quiet refl refl e f refl) in
      let (same, p, w, h, still) = stays request short silent ph run (at_first request ph at) in
      (same, still)
