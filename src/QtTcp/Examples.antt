-- ===== src/QtTcp/Examples.antt =====
-- Runs of the server of cpp/qt/qtcp/tcpserver.hpp, and of the client of tcpclient.hpp with it.
use code_study_example.QtTcp.{
  Text, TcpServer, new_server, send, on_recv_data, on_new_client_connected, reply_loop, write,
  on_client_disconnected, reply_to, ℕ, suc,
}
use code_study_example.QtTcp.Client.{Message, new_client}
use code_study_example.QtTcp.Answers.{batches, texts, lone_replies, lone_messages_answered}
use code_study_example.Shared.Texts.{codes}
use code_study_example.QtTcp.Names.{
  Slot, new_connection, ready_read, disconnected, run_slots, greetings, greets_without_names,
}
use code_study_example.Shared.{
  ℕ, suc, ◌≡◌, ◌≢◌, refl, ◌==◌, ◌&&◌, if◌then◌else◌, List, [], ◌∷◌, ◌++◌, true, false, Option, none,
  some, arith,
}

-- Everything but the empty text is JSON, and is the name.
abbrev name_in : Text → Option Text
name_in [] = none
name_in (c ∷ cs) = some (c ∷ cs)

abbrev session : List Slot
session =
    new_connection (some (5, true))
    ∷ ready_read (some 5) (97 ∷ [])
    ∷ new_connection (some (6, false))
    ∷ new_connection (some (8, true))
    ∷ disconnected (some 5)
    ∷ []

abbrev after : TcpServer
after = run_slots name_in session new_server

greets_without_names_example :
    (send after).written ≡ after.written ++ greetings name_in after.clients
greets_without_names_example = greets_without_names name_in session

after_clients : after.clients ≢ []
unfolding on_new_client_connected on_recv_data reply_to reply_loop write on_client_disconnected
after_clients e = ground (arith, e)

-- Documents of three characters: the brackets and the number stand for the rest of the JSON.
abbrev document : Message → Text
document m = 123 ∷ m.msgid ∷ 125 ∷ []

abbrev name_of : Text → Option Text
name_of (a ∷ _ ∷ b ∷ []) = if a == 123 && b == 125 then some (codes "0x2a") else none
name_of _ = none

several : (m k : ℕ) → name_of (texts name_of document 5 (codes "0x2a") m (suc (suc k))) ≡ none
several m k = refl

abbrev connected : TcpServer
connected = on_new_client_connected (some (5, true)) new_server

-- One message alone, then three at once, then one.
lone_messages_answered_example :
    (batches name_of document 5
      (codes "0x2a")
      (1 ∷ 3 ∷ 1 ∷ [])
      (new_client true, connected)).1.written
    ≡ connected.written
      ++ lone_replies name_of document 5 (codes "0x2a") (1 ∷ 3 ∷ 1 ∷ []) (new_client true).msgid
unfolding on_new_client_connected new_client
lone_messages_answered_example =
    lone_messages_answered name_of document 5 (codes "0x2a") (λ m. refl) refl several
      (1 ∷ 3 ∷ 1 ∷ []) (new_client true) connected refl (λ e. ground (arith, e))
