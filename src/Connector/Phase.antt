-- ===== src/Connector/Phase.antt =====
-- How the two ends of cpp/jsonrpc/json-rpc-cxx/examples/conn/asiotcpconnector.hpp hang together
-- while only the client calls `Send`.
use code_study_example.Connector.Frame.{Message, Short, Channel, frame}
use code_study_example.Connector.Side.{Side, idle, flagged, awaiting, Move, begins}
use code_study_example.Connector.Link.{Link}
use code_study_example.Shared.{◌≡◌, [], ◌∷◌, true, false}

-- No thread of this end is in `Send`.
abbrev pub Calm : {H : Type 0} → Side H → Type 0
Calm sv = (sv.sender ≡ idle) × (sv.waiting_response ≡ false)

abbrev pub Waits : {H : Type 0} → Side H → Type 0
Waits cl = (cl.waiting_response ≡ true) × (cl.has_response ≡ false)

module _ (c : Channel) {C S : Type 0} (client_handle : C → Message → Message × C)
    (server_handle : S → Message → Message × S) where
  open c use {Stream, pending}

  -- The ways in which the parts of a link hang together while the server sends no request.
  pub data Phase (cl : Side C) (sv : Side S) (ts tc : Stream) : Type 0 where
    quiet :
        cl.sender ≡ idle
        → cl.waiting_response ≡ false
        → pending ts ≡ []
        → pending tc ≡ []
        → sv.handled ≡ cl.calls
        → Phase cl sv ts tc
    asked :
        (request : Message)
        → cl.sender ≡ flagged request
        → Waits cl
        → Short request
        → pending ts ≡ []
        → pending tc ≡ []
        → sv.handled ≡ cl.calls
        → Phase cl sv ts tc
    under_way :
        (request : Message)
        → cl.sender ≡ awaiting request
        → Waits cl
        → Short request
        → pending ts ≡ frame request
        → pending tc ≡ []
        → sv.handled ≡ cl.calls
        → Phase cl sv ts tc
    answered :
        (request response : Message)
        → cl.sender ≡ awaiting request
        → Waits cl
        → Short response
        → pending ts ≡ []
        → pending tc ≡ frame response
        → sv.handled ≡ (request, response) ∷ cl.calls
        → Phase cl sv ts tc
    received :
        (request response : Message)
        → cl.sender ≡ awaiting request
        → cl.waiting_response ≡ false
        → cl.has_response ≡ true
        → cl.last_response ≡ response
        → pending ts ≡ []
        → pending tc ≡ []
        → sv.handled ≡ (request, response) ∷ cl.calls
        → Phase cl sv ts tc
    unanswered :
        (request : Message)
        → cl.sender ≡ awaiting request
        → Waits cl
        → pending ts ≡ []
        → pending tc ≡ []
        → sv.handled ≡ (request, []) ∷ cl.calls
        → (h : S) × ((server_handle h request).0 ≡ [])
        → Phase cl sv ts tc

  abbrev pub MayClient :
      {cl cl' : Side C} {tc ts tc' ts' : Stream}
      → Move c client_handle cl tc ts cl' tc' ts'
      → Type 0
  MayClient (begins request _) = Short request
  MayClient _ = Unit

  abbrev pub MayServer :
      {sv sv' : Side S} {ts tc ts' tc' : Stream}
      → Move c server_handle sv ts tc sv' ts' tc'
      → Type 0
  MayServer (begins request _) = ⊥
  MayServer _ = Unit

  -- The client and the server while the server is calm.
  abbrev pub Link-Phase : Link c C S → Type 0
  Link-Phase l = Calm l.server × Phase l.client l.server l.to_server l.to_client
