-- ===== src/Connector/Link.antt =====
-- The two ends of a connection in cpp/jsonrpc/json-rpc-cxx/examples/conn/asiotcpconnector.hpp, and
-- the bytes between them.
use code_study_example.Connector.Frame.{Message, Channel}
use code_study_example.Connector.Side.{Side, Move}

module _ (c : Channel) where
  open c use {Stream}

  pub record Link (C S : Type 0) : Type 0 where
    pub client : Side C
    pub server : Side S
    pub to_server : Stream
    pub to_client : Stream

module _ (c : Channel) {C S : Type 0} (client_handle : C → Message → Message × C)
    (server_handle : S → Message → Message × S) where
  open c use {Stream}

  -- The threads of the two programs run in any order.
  pub data Step (l : Link c C S) : Link c C S → Type 0 where
    client_moves :
        (side : Side C) (from to : Stream)
        → Move c client_handle l.client l.to_client l.to_server side from to
        → Step l (record l { client = side; to_client = from; to_server = to })
    server_moves :
        (side : Side S) (from to : Stream)
        → Move c server_handle l.server l.to_server l.to_client side from to
        → Step l (record l { server = side; to_server = from; to_client = to })

  pub data Steps (l : Link c C S) : Link c C S → Type 0 where
    here : Steps l l
    next : {m n : Link c C S} → Steps l m → Step m n → Steps l n
