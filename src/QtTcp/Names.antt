-- ===== src/QtTcp/Names.antt =====
-- Clients, their numbers and their names in cpp/qt/qtcp/tcpserver.hpp.
use code_study_example.QtTcp.{
  Text, ClientInfo, TcpServer, new_server, hello, write, send_to, send, on_new_client_connected,
  copied, reply, reply_loop, on_recv_data, on_client_disconnected, reply_to,
}
use code_study_example.Shared.{
  ℕ, zero, suc, ◌≡◌, ◌≢◌, refl, sym, ap, ◌∙◌, List, [], ◌∷◌, ◌++◌, All, All-append, length,
  length-append, Bool, true, false, Option, none, some, append-nil, append_assoc, arith,
}

-- What happens to the server: the slots it runs.
pub data Slot : Type 0 where
  new_connection : Option (ℕ × Bool) → Slot
  ready_read : Option ℕ → Text → Slot
  disconnected : Option ℕ → Slot
  sends : Slot

-- The numbers from 1 on.
abbrev pub numbers : ℕ → List ℕ
numbers zero = []
numbers (suc n) = numbers n ++ suc n ∷ []

abbrev pub ids : List ClientInfo → List ℕ
ids [] = []
ids (cl ∷ cls) = cl.id ∷ ids cls

ids-append : (xs ys : List ClientInfo) → ids (xs ++ ys) ≡ ids xs ++ ids ys
ids-append [] ys = refl
ids-append (x ∷ xs) ys = ap (λ (ns : List ℕ). x.id ∷ ns) (ids-append xs ys)

-- Clients are numbered from 1 in the order in which they came, and have no name.
record Numbered (s : TcpServer) : Type 0 where
  numbered : ids s.clients ≡ numbers s.idx
  counted : length s.clients ≡ s.idx
  nameless : All (λ cl. cl.name ≡ []) s.clients

send_to-clients :
    (cls : List ClientInfo) (s : TcpServer)
    → ((send_to cls s).clients ≡ s.clients) × ((send_to cls s).idx ≡ s.idx)
unfolding send_to write
send_to-clients [] s = (refl, refl)
send_to-clients (cl ∷ cls) s = send_to-clients cls (write cl.socket (hello ++ cl.name) s)

module _ (json_name : Text → Option Text) where
  abbrev pub run_slot : Slot → TcpServer → TcpServer
  run_slot (new_connection c) s = on_new_client_connected c s
  run_slot (ready_read socket data_read) s = on_recv_data json_name socket data_read s
  run_slot (disconnected socket) s = on_client_disconnected socket s
  run_slot sends s = send s

  abbrev pub run_slots : List Slot → TcpServer → TcpServer
  run_slots [] s = s
  run_slots (e ∷ es) s = run_slots es (run_slot e s)

  reply-clients :
      (socket : ℕ) (text : Text) (name : Option Text) (cls : List ClientInfo) (s : TcpServer)
      → s.clients ≡ cls
      → ((reply_to socket text name s).clients ≡ s.clients)
        × ((reply_to socket text name s).idx ≡ s.idx)
  unfolding reply_to reply_loop write
  reply-clients socket text none cls s e = (refl, refl)
  reply-clients socket text (some name) [] s e = rw e (refl, refl)
  reply-clients socket text (some name) (cl ∷ cls) s e = rw e (refl, refl)

  pub recv-clients :
      (socket : Option ℕ) (text : Text) (s : TcpServer)
      → ((on_recv_data json_name socket text s).clients ≡ s.clients)
        × ((on_recv_data json_name socket text s).idx ≡ s.idx)
  unfolding on_recv_data
  recv-clients none text s = (refl, refl)
  recv-clients (some socket) text s = reply-clients socket text (json_name text) s.clients s refl

  new-Numbered :
      (c : Option (ℕ × Bool)) (s : TcpServer) → Numbered s → Numbered (on_new_client_connected c s)
  unfolding on_new_client_connected
  new-Numbered none s h = h
  new-Numbered (some (socket, false)) s h = h
  new-Numbered (some (socket, true)) s h = record {
    numbered = ids-append s.clients _ ∙ ap (λ (ns : List ℕ). ns ++ suc s.idx ∷ []) h.numbered;
    counted = omega (
      arith,
      length-append s.clients (record { socket = socket; id = suc s.idx; name = [] } ∷ []),
      h.counted,
    );
    nameless = All-append (λ (cl : ClientInfo). cl.name ≡ []) s.clients _ h.nameless (refl, tt);
  }

  same-Numbered :
      (s t : TcpServer) → (t.clients ≡ s.clients) × (t.idx ≡ s.idx) → Numbered s → Numbered t
  same-Numbered s t (e, f) h = record {
    numbered = rw (e, f) h.numbered;
    counted = rw (e, f) h.counted;
    nameless = rw e h.nameless;
  }

  slot-Numbered : (e : Slot) (s : TcpServer) → Numbered s → Numbered (run_slot e s)
  unfolding send on_client_disconnected
  slot-Numbered (new_connection c) s h = new-Numbered c s h
  slot-Numbered (ready_read socket text) s h = same-Numbered s _ (recv-clients socket text s) h
  slot-Numbered (disconnected socket) s h = h
  slot-Numbered sends s h = same-Numbered s _ (send_to-clients s.clients s) h

  slots-Numbered : (es : List Slot) (s : TcpServer) → Numbered s → Numbered (run_slots es s)
  slots-Numbered [] s h = h
  slots-Numbered (e ∷ es) s h = slots-Numbered es (run_slot e s) (slot-Numbered e s h)

  -- After any slots of a new server, the clients are numbered 1, 2, 3 and so on in the order of the
  -- list, so no two share a number, and the next client gets the next number.
  pub clients_numbered :
      (es : List Slot)
      → let s = run_slots es new_server in
        (ids s.clients ≡ numbers (length s.clients)) × (s.idx ≡ length s.clients)
  clients_numbered es =
      let h =
        slots-Numbered es new_server (record { numbered = refl; counted = refl; nameless = tt }) in
      (rw h.counted h.numbered, sym h.counted)

  abbrev pub greetings : List ClientInfo → List (ℕ × Text)
  greetings [] = []
  greetings (cl ∷ cls) = (cl.socket, hello) ∷ greetings cls

  send_to-nameless :
      (cls : List ClientInfo) (s : TcpServer)
      → All (λ cl. cl.name ≡ []) cls
      → (send_to cls s).written ≡ s.written ++ greetings cls
  unfolding send_to write
  send_to-nameless [] s h = sym (append-nil s.written)
  send_to-nameless (cl ∷ cls) s h =
      send_to-nameless cls (write cl.socket (hello ++ cl.name) s) h.1
      ∙ append_assoc s.written ((cl.socket, hello ++ cl.name) ∷ []) (greetings cls)
      ∙ ap (λ (n : Text). s.written ++ (cl.socket, hello ++ n) ∷ greetings cls) h.0

  -- Whatever the clients have sent, no name is ever stored: `send` writes to every client the bare
  -- greeting, once, in the order of the list.
  pub greets_without_names :
      (es : List Slot)
      → let s = run_slots es new_server in (send s).written ≡ s.written ++ greetings s.clients
  unfolding send
  greets_without_names es =
      let h =
        slots-Numbered es new_server (record { numbered = refl; counted = refl; nameless = tt }) in
      send_to-nameless (run_slots es new_server).clients (run_slots es new_server) h.nameless

  -- The replies that some data from a socket should get.
  abbrev pub replies : ℕ → Text → Option Text → List (ℕ × Text)
  replies socket text none = []
  replies socket text (some name) = (socket, reply name text) ∷ []

  reply-written :
      (socket : ℕ) (text : Text) (name : Option Text) (cls : List ClientInfo) (s : TcpServer)
      → s.clients ≡ cls
      → s.clients ≢ []
      → (reply_to socket text name s).written ≡ s.written ++ replies socket text name
  unfolding reply_to reply_loop write copied
  reply-written socket text none cls s e n = sym (append-nil s.written)
  reply-written socket text (some name) [] s e n = absurd (n e)
  reply-written socket text (some name) (cl ∷ cls) s e n = rw e refl

  -- While there is a client at all, JSON that comes from a socket gets exactly one reply, which
  -- goes to that socket; what is not JSON gets none.
  pub replies_to_sender :
      (socket : ℕ) (text : Text) (s : TcpServer)
      → s.clients ≢ []
      → (on_recv_data json_name (some socket) text s).written
        ≡ s.written ++ replies socket text (json_name text)
  unfolding on_recv_data
  replies_to_sender socket text s n = reply-written socket text (json_name text) s.clients s refl n
