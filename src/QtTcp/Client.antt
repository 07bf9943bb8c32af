-- ===== src/QtTcp/Client.antt =====
-- The client of cpp/qt/qtcp/tcpclient.hpp.
use code_study_example.Shared.Texts.{Text, codes, hexadecimal}
use code_study_example.Shared.{ℕ, suc, List, [], ◌∷◌, ◌++◌, Bool, if◌then◌else◌}

-- The JSON object that `send` makes.
pub record Message : Type 0 where
  pub name : Text
  pub msgid : ℕ
  pub msg : Text

-- What the client prints.
pub data Line : Type 0 where
  connect_is_failed : Line
  connect_is_successful : Line
  sent : Message → Line
  send_data_is_failed : Line
  received : Text → Line

-- `is_listening` says whether `readyRead` is connected to `onRecvData`; `msgid` is the static
-- variable of `send`. `outgoing` holds the bytes that the socket has accepted and the server has
-- not read yet.
pub record TcpClient : Type 0 where
  pub is_listening : Bool
  pub msgid : ℕ
  pub outgoing : Text
  pub out : List Line

-- The constructor, with the result of `waitForConnected`.
unfoldable pub new_client : Bool → TcpClient
new_client is_connected = record {
  is_listening = is_connected;
  msgid = 0;
  outgoing = [];
  out = (if is_connected then connect_is_successful else connect_is_failed) ∷ [];
}

-- The static variable `name` of `send`, made from the number of the thread.
pub thread_name : ℕ → Text
thread_name id = codes "0x" ++ hexadecimal id

abbrev pub message : Text → ℕ → Message
message name msgid = record { name = name; msgid = msgid; msg = codes "hello" }

-- `send`. `to_json` is QJsonDocument::toJson; `accepted` says whether the socket takes the bytes,
-- which `write` tells by a result that is not negative.
unfoldable pub send : (Message → Text) → Text → Bool → TcpClient → TcpClient
send to_json name accepted c =
    let json = message name (suc c.msgid) in
    record c {
      msgid = suc c.msgid;
      outgoing = if accepted then c.outgoing ++ to_json json else c.outgoing;
      out = c.out ++ sent json ∷ (if accepted then [] else send_data_is_failed ∷ []);
    }

-- Data that came from the server. Without the connection of the signal the slot does not run.
pub on_recv_data : Text → TcpClient → TcpClient
on_recv_data recv_data c =
    if c.is_listening then record c { out = c.out ++ received recv_data ∷ [] } else c
