-- ===== src/HttpConnector.antt =====
-- The connectors of cpp/jsonrpc/json-rpc-cxx/examples/conn that are not over TCP directly:
-- cpphttplibconnector.hpp and inmemoryconnector.hpp.
pub mod Sends
pub mod Listening
pub mod Examples
use code_study_example.Shared.Texts.{Text}
use code_study_example.Shared.{
  ℕ, ◌==◌, List, [], ◌∷◌, Bool, true, false, Option, none, some, if◌then◌else◌,
}

pub record HttpResponse : Type 0 where
  pub status : ℕ
  pub body : Text

-- `H` is the state of the JSON-RPC server, `handle` its `HandleRequest`.
module _ {H : Type 0} (handle : H → Text → Text × H) where
  -- `InMemoryConnector::Send`.
  unfoldable pub in_memory_send : Text → H → Text × H
  in_memory_send request h = handle h request

  -- `PostAction`.
  unfoldable pub post_action : Text → H → HttpResponse × H
  post_action request h =
      let (response, h') = handle h request in (record { status = 200; body = response }, h')

-- What `CppHttpLibClientConnector::Send` makes of the result of `Post`; `none` is the exception.
unfoldable pub response_body : Option HttpResponse → Option Text
response_body none = none
response_body (some res) = if res.status == 200 then some res.body else none

-- `post` is the request over the network, with what it does to the server.
unfoldable pub http_send :
    {H : Type 0} → (Text → H → Option HttpResponse × H) → Text → H → Option Text × H
http_send post request h = let (res, h') = post request h in (response_body res, h')

-- The thread of a `CppHttpLibServerConnector`. `is_running` of httplib's server is true while it
-- serves; `std::thread` is joinable in the last three.
pub data Listener : Type 0 where
  absent : Listener
  starting : Listener  -- the thread was made, `listen` does not serve yet
  serving : Listener
  ended : Listener  -- `listen` has returned, and nobody has joined the thread

unfoldable pub is_running : Listener → Bool
is_running serving = true
is_running l = false

-- A `std::thread` is assigned to the field; where that is joinable the program is terminated
-- (`none`).
unfoldable pub assign_thread : Listener → Option Listener
assign_thread absent = some starting
assign_thread l = none

abbrev started : Option Listener → Option (Bool × Listener)
started none = none
started (some l) = some (true, l)

unfoldable pub start_listening : Listener → Option (Bool × Listener)
start_listening l = if is_running l then some (false, l) else started (assign_thread l)

-- The server stops and the thread is joined.
unfoldable pub stop_listening : Listener → Listener
stop_listening l = if is_running l then absent else l

-- The destructor, and whether the program survives it: a joinable thread that is destroyed
-- terminates it.
unfoldable pub destroy_thread : Listener → Bool
destroy_thread absent = true
destroy_thread l = false

unfoldable pub destroy : Listener → Bool
destroy l = destroy_thread (stop_listening l)
