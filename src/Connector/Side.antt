-- ===== src/Connector/Side.antt =====
-- One end of a connection in cpp/jsonrpc/json-rpc-cxx/examples/conn/asiotcpconnector.hpp. Client
-- and server run the same code for `Send` and for a message that arrives.
use code_study_example.Connector.Frame.{Message, Channel, read_message, write_message}
use code_study_example.Shared.{
  ◌≡◌, List, [], ◌∷◌, Bool, true, false, Option, none, some, if◌then◌else◌,
}

-- Where the thread that calls `Send` stands; `send_mutex` admits one at a time.
pub data Sender : Type 0 where
  idle : Sender
  flagged : Message → Sender  -- the flags are set, the request is not written
  awaiting : Message → Sender  -- in `response_cv.wait`

-- `rpc` is the state of the JSON-RPC server that `HandleRequest` is called on. `calls` lists the
-- requests of `Send` with what it returned, `handled` the messages that went to `HandleRequest`
-- with its answers, both latest first.
pub record Side (H : Type 0) : Type 0 where
  pub waiting_response : Bool
  pub has_response : Bool
  pub last_response : Message
  pub sender : Sender
  pub rpc : H
  pub calls : List (Message × Message)
  pub handled : List (Message × Message)

abbrev pub new_side : {H : Type 0} → H → Side H
new_side h = record {
  waiting_response = false;
  has_response = false;
  last_response = [];
  sender = idle;
  rpc = h;
  calls = [];
  handled = [];
}

-- `if (!response.empty())`
abbrev pub non_empty : Message → Option Message
non_empty [] = none
non_empty (b ∷ bs) = some (b ∷ bs)

module _ {H : Type 0} where
  -- The first locked section of `Send`.
  unfoldable pub begin_send : Message → Side H → Side H
  begin_send request s = record s {
    waiting_response = true;
    has_response = false;
    sender = flagged request;
  }

  -- The request is written.
  unfoldable pub written : Message → Side H → Side H
  written request s = record s { sender = awaiting request }

  -- The wait is over.
  unfoldable pub return_response : Message → Side H → Side H
  return_response request s = record s {
    sender = idle;
    calls = (request, s.last_response) ∷ s.calls;
  }

  -- The locked section of the listener: what it writes back, if anything, and the new state.
  unfoldable pub on_message :
      (H → Message → Message × H) → Message → Side H → Option Message × Side H
  on_message handle message s =
      let (response, rpc) = handle s.rpc message in
      if s.waiting_response
      then (
        none,
        record s { last_response = message; has_response = true; waiting_response = false },
      )
      else (non_empty response, record s { rpc = rpc; handled = (message, response) ∷ s.handled })

module _ (c : Channel) where
  open c use {Stream}

  abbrev pub write_back : Option Message → Stream → Stream
  write_back none out = out
  write_back (some m) out = write_message c m out

-- One step of one end, with the stream that it reads and the one that it writes.
module _ (c : Channel) {H : Type 0} (handle : H → Message → Message × H) where
  open c use {Stream}

  pub data Move (s : Side H) (from to : Stream) : Side H → Stream → Stream → Type 0 where
    begins : (request : Message) → s.sender ≡ idle → Move s from to (begin_send request s) from to
    writes :
        (request : Message)
        → s.sender ≡ flagged request
        → Move s from to (written request s) from (write_message c request to)
    returns :
        (request : Message)
        → s.sender ≡ awaiting request
        → s.has_response ≡ true
        → Move s from to (return_response request s) from to
    hears :
        (message : Message) (from' : Stream)
        → read_message c from ≡ some (message, from')
        → Move s from to
            (on_message handle message s).1
            from'
            (write_back c (on_message handle message s).0 to)
