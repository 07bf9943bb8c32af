-- ===== src/Connector/Clients.antt =====
-- The server of cpp/jsonrpc/json-rpc-cxx/examples/conn/asiotcpconnector.hpp with all its clients.
-- Each connection has a listener thread of its own, but the flags and `last_response` are one for
-- all, and `Send` writes to the client that connected last.
use code_study_example.Connector.Frame.{Message, Channel}
use code_study_example.Connector.Side.{Side, Move, begins, writes, returns, hears}
use code_study_example.Shared.{ℕ, ◌==◌, ◌≡◌, ◌≢◌, if◌then◌else◌, arith}

module _ (c : Channel) where
  open c use {Stream}

  -- A client with its connection.
  pub record End (C : Type 0) : Type 0 where
    pub client : Side C
    pub to_server : Stream
    pub to_client : Stream

  -- A connection is a number; no client connects from here on.
  pub record Network (C S : Type 0) : Type 0 where
    pub server : Side S
    pub latest_socket : ℕ
    pub ends : ℕ → End C

abbrev pub update : {A : Type 0} → ℕ → A → (ℕ → A) → ℕ → A
update i x f j = if j == i then x else f j

pub update-same : {A : Type 0} (i : ℕ) (x : A) (f : ℕ → A) → update i x f i ≡ x
update-same i x f = ground arith

pub update-other : {A : Type 0} (i j : ℕ) (x : A) (f : ℕ → A) → j ≢ i → update i x f j ≡ f j
update-other i j x f n = ground arith

module _ (c : Channel) {C S : Type 0} (client_handle : C → Message → Message × C)
    (server_handle : S → Message → Message × S) where
  open c use {Stream}

  -- `Send` of the server writes to the latest connection; its other parts touch no stream.
  abbrev pub OnLatest :
      {s s' : Side S} {from to from' to' : Stream} (latest i : ℕ)
      → Move c server_handle s from to s' from' to'
      → Type 0
  OnLatest latest i (writes request e) = i ≡ latest
  OnLatest latest i (begins request e) = Unit
  OnLatest latest i (returns request e has) = Unit
  OnLatest latest i (hears m from' r) = Unit

  -- The threads of all the programs run in any order.
  pub data Step (n : Network c C S) : Network c C S → Type 0 where
    client_moves :
        (i : ℕ) (side : Side C) (from to : Stream)
        → Move c client_handle
            (n.ends i).client
            (n.ends i).to_client
            (n.ends i).to_server
            side
            from
            to
        → Step n (record n {
          ends = update i (record { client = side; to_server = to; to_client = from }) n.ends;
        })
    server_moves :
        (i : ℕ) (side : Side S) (from to : Stream)
        → (mv : Move c server_handle n.server
            (n.ends i).to_server
            (n.ends i).to_client
            side
            from
            to)
        → OnLatest n.latest_socket i mv
        → Step n (record n {
          server = side;
          ends =
              update i
                (record { client = (n.ends i).client; to_server = from; to_client = to })
                n.ends;
        })

  pub data Steps (n : Network c C S) : Network c C S → Type 0 where
    here : Steps n n
    next : {m k : Network c C S} → Steps n m → Step m k → Steps n k
