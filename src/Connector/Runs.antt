-- ===== src/Connector/Runs.antt =====
-- The runs of cpp/jsonrpc/json-rpc-cxx/examples/conn/asiotcpconnector.hpp in which only the client
-- calls `Send`.
use code_study_example.Connector.Calls.{client_Phase, server_Phase}
use code_study_example.Connector.Phase.{MayClient, Link-Phase, MayServer}
use code_study_example.Connector.Frame.{Message, Channel}
use code_study_example.Connector.Side.{Side, Move}
use code_study_example.Connector.Link.{Link}
use code_study_example.Shared.{◌<◌, ◌^◌, length}

module _ (c : Channel) {C S : Type 0} (client_handle : C → Message → Message × C)
    (server_handle : S → Message → Message × S) where
  open c use {Stream, pending}

  -- A run in which the server calls `Send` never, and the client only with short requests.
  pub data OneSided (l : Link c C S) : Link c C S → Type 0 where
    start : OneSided l l
    by_client :
        {m : Link c C S} {side : Side C} {from to : Stream}
        → OneSided l m
        → (mv : Move c client_handle m.client m.to_client m.to_server side from to)
        → MayClient c client_handle server_handle mv
        → OneSided l (record m { client = side; to_client = from; to_server = to })
    by_server :
        {m : Link c C S} {side : Side S} {from to : Stream}
        → OneSided l m
        → (mv : Move c server_handle m.server m.to_server m.to_client side from to)
        → MayServer c client_handle server_handle mv
        → OneSided l (record m { server = side; to_server = from; to_client = to })

  pub OneSided-Phase :
      {l m : Link c C S}
      → ((h : S) (q : Message) → length (server_handle h q).0 < 2 ^ 32)
      → OneSided l m
      → Link-Phase c client_handle server_handle l
      → Link-Phase c client_handle server_handle m
  OneSided-Phase short start p = p
  OneSided-Phase short (by_client r mv g) p =
      let (calm, ph) = OneSided-Phase short r p in
      (calm, client_Phase c client_handle server_handle _ mv g ph)
  OneSided-Phase short (by_server r mv g) p =
      let (calm, ph) = OneSided-Phase short r p in
      server_Phase c client_handle server_handle _ short mv g calm ph
