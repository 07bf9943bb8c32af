-- ===== src/QtTcp.antt =====
-- The server of cpp/qt/qtcp/tcpserver.hpp.
pub mod Names
pub mod Client
pub mod Answers
pub mod Examples
use code_study_example.Shared.{
  ℕ, suc, ◌≡◌, List, [], ◌∷◌, ◌++◌, Bool, true, false, Option, none, some, if◌then◌else◌,
}

-- The characters of a QString.
abbrev pub Text : Type 0
Text = List ℕ

-- A QTcpSocket * is a number.
pub record ClientInfo : Type 0 where
  pub socket : ℕ
  pub id : ℕ
  pub name : Text

-- `idx` is the static variable of `onNewClientConnected`; `written` lists what went to which
-- socket, in order.
pub record TcpServer : Type 0 where
  pub clients : List ClientInfo
  pub idx : ℕ
  pub written : List (ℕ × Text)

abbrev pub new_server : TcpServer
new_server = record { clients = []; idx = 0; written = [] }

abbrev pub hello : Text
hello = 104 ∷ 101 ∷ 108 ∷ 108 ∷ 111 ∷ []

abbrev pub space : ℕ
space = 32

-- " server recv this msg"
abbrev pub server_recv : Text
server_recv =
    32 ∷ 115 ∷ 101 ∷ 114 ∷ 118 ∷ 101 ∷ 114 ∷ 32 ∷ 114 ∷ 101 ∷ 99 ∷ 118 ∷ 32 ∷ 116 ∷ 104 ∷ 105 ∷ 115
    ∷ 32 ∷ 109 ∷ 115 ∷ 103 ∷ []

pub write : ℕ → Text → TcpServer → TcpServer
write socket text s = record s { written = s.written ++ (socket, text) ∷ [] }

pub send_to : List ClientInfo → TcpServer → TcpServer
send_to [] s = s
send_to (cl ∷ cls) s = send_to cls (write cl.socket (hello ++ cl.name) s)

pub send : TcpServer → TcpServer
send s = send_to s.clients s

-- The connection that waits, if any, and whether it is valid.
unfoldable pub on_new_client_connected : Option (ℕ × Bool) → TcpServer → TcpServer
on_new_client_connected none s = s
on_new_client_connected (some (socket, is_valid)) s =
    if is_valid
    then record s {
      idx = suc s.idx;
      clients = s.clients ++ record { socket = socket; id = suc s.idx; name = [] } ∷ [];
    }
    else s

abbrev pub is_empty : Text → Bool
is_empty [] = true
is_empty _ = false

-- What the loop of `onRecvData` makes of its copy of a client: `cl.socket = socket` assigns, and is
-- true, since `socket` is not null.
pub copied : ℕ → Text → ClientInfo → ClientInfo
copied socket cli_name cl = record cl {
  socket = socket;
  name = if is_empty cl.name then cli_name else cl.name;
}

pub reply : Text → Text → Text
reply cli_name recv_data = hello ++ (space ∷ cli_name) ++ server_recv ++ recv_data

-- The loop; it breaks at the first client, and the copy is dropped.
pub reply_loop : ℕ → Text → Text → List ClientInfo → TcpServer → TcpServer
reply_loop socket cli_name recv_data [] s = s
reply_loop socket cli_name recv_data (cl ∷ cls) s =
    write (copied socket cli_name cl).socket (reply cli_name recv_data) s

-- `jsonDocument.isNull()`, and the loop.
pub reply_to : ℕ → Text → Option Text → TcpServer → TcpServer
reply_to socket recv_data none s = s
reply_to socket recv_data (some cli_name) s = reply_loop socket cli_name recv_data s.clients s

-- `json_name` gives the name in a JSON object, or the empty text; it is `none` for what is not
-- JSON. No sender, no reply.
module _ (json_name : Text → Option Text) where
  unfoldable pub on_recv_data : Option ℕ → Text → TcpServer → TcpServer
  on_recv_data none recv_data s = s
  on_recv_data (some socket) recv_data s = reply_to socket recv_data (json_name recv_data) s

-- It only prints the address.
pub on_client_disconnected : Option ℕ → TcpServer → TcpServer
on_client_disconnected socket s = s
