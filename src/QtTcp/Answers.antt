-- ===== src/QtTcp/Answers.antt =====
-- A client of cpp/qt/qtcp/tcpclient.hpp with the server of cpp/qt/qtcp/tcpserver.hpp. TCP keeps the
-- bytes, not the calls of `write`: a read of the server takes all that the client wrote since the
-- read before.
use code_study_example.QtTcp.{TcpServer, on_recv_data, reply}
use code_study_example.QtTcp.Client.{Message, TcpClient, message, send}
use code_study_example.QtTcp.Names.{recv-clients, replies_to_sender, replies}
use code_study_example.Shared.Texts.{Text, codes}
use code_study_example.Shared.{
  ℕ, zero, suc, ◌+◌, ◌≡◌, ◌≢◌, refl, sym, ap, ◌∙◌, List, [], ◌∷◌, ◌++◌, true, Option, none, some,
  append-nil, append_assoc, arith,
}

module _ (json_name : Text → Option Text) (to_json : Message → Text) (socket : ℕ)
    (name : Text) where
  abbrev pub sends : ℕ → TcpClient → TcpClient
  sends zero c = c
  sends (suc k) c = sends k (send to_json name true c)

  -- The client calls `send` `k` times; then the server reads.
  abbrev pub batch : ℕ → TcpClient × TcpServer → TcpClient × TcpServer
  batch k (c, s) =
      let c' = sends k c in
      (record c' { outgoing = [] }, on_recv_data json_name (some socket) c'.outgoing s)

  abbrev pub batches : List ℕ → TcpClient × TcpServer → TcpClient × TcpServer
  batches [] w = w
  batches (k ∷ ks) w = batches ks (batch k w)

  -- The texts of `k` messages that follow the message with the number `m`.
  abbrev pub texts : ℕ → ℕ → Text
  texts m zero = []
  texts m (suc k) = to_json (message name (suc m)) ++ texts (suc m) k

  -- The reply to a message that was alone in its batch; none to the others.
  abbrev pub reply_if_alone : ℕ → ℕ → List (ℕ × Text)
  reply_if_alone (suc zero) m =
      (
        socket,
        codes "hello " ++ name ++ codes " server recv this msg" ++ to_json (message name (suc m)),
      )
      ∷ []
  reply_if_alone _ m = []

  abbrev pub lone_replies : List ℕ → ℕ → List (ℕ × Text)
  lone_replies [] m = []
  lone_replies (k ∷ ks) m = reply_if_alone k m ++ lone_replies ks (m + k)

  sends-msgid : (k : ℕ) (c : TcpClient) → (sends k c).msgid ≡ c.msgid + k
  unfolding send
  sends-msgid zero c = omega arith
  sends-msgid (suc k) c = omega (arith, sends-msgid k (send to_json name true c))

  sends-outgoing : (k : ℕ) (c : TcpClient) → (sends k c).outgoing ≡ c.outgoing ++ texts c.msgid k
  unfolding send
  sends-outgoing zero c = sym (append-nil c.outgoing)
  sends-outgoing (suc k) c =
      sends-outgoing k (send to_json name true c)
      ∙ append_assoc c.outgoing (to_json (message name (suc c.msgid))) (texts (suc c.msgid) k)

  batch-msgid : (k : ℕ) (c : TcpClient) (s : TcpServer) → (batch k (c, s)).0.msgid ≡ c.msgid + k
  batch-msgid k c s = sends-msgid k c

  batch-outgoing :
      (k : ℕ) (c : TcpClient) → c.outgoing ≡ [] → (sends k c).outgoing ≡ texts c.msgid k
  batch-outgoing k c e = sends-outgoing k c ∙ ap (λ (t : Text). t ++ texts c.msgid k) e

  module _ (reads_name : (m : ℕ) → json_name (to_json (message name m)) ≡ some name)
      (reads_nothing : json_name [] ≡ none)
      (reads_one : (m k : ℕ) → json_name (texts m (suc (suc k))) ≡ none) where
    texts-replies :
        (k m : ℕ)
        → replies json_name socket (texts m k) (json_name (texts m k)) ≡ reply_if_alone k m
    unfolding reply
    texts-replies zero m = rw reads_nothing refl
    texts-replies (suc zero) m =
        rw (append-nil (to_json (message name (suc m))), reads_name (suc m)) refl
    texts-replies (suc (suc k)) m = rw (reads_one m k) refl

    batch-written :
        (k : ℕ) (c : TcpClient) (s : TcpServer)
        → c.outgoing ≡ []
        → s.clients ≢ []
        → (batch k (c, s)).1.written ≡ s.written ++ reply_if_alone k c.msgid
    batch-written k c s e n =
        replies_to_sender json_name socket (sends k c).outgoing s n
        ∙ ap (λ (t : Text). s.written ++ replies json_name socket t (json_name t))
            (batch-outgoing k c e)
        ∙ ap (λ (rs : List (ℕ × Text)). s.written ++ rs) (texts-replies k c.msgid)

    -- A message gets its reply exactly when the server reads it alone: of messages that reach the
    -- server in one read none is answered, and the client is not told. It is assumed that Qt reads
    -- back the name from a document that it wrote, and that an empty text and several documents
    -- in a row are not JSON.
    pub lone_messages_answered :
        (ks : List ℕ) (c : TcpClient) (s : TcpServer)
        → c.outgoing ≡ []
        → s.clients ≢ []
        → (batches ks (c, s)).1.written ≡ s.written ++ lone_replies ks c.msgid
    lone_messages_answered [] c s e n = sym (append-nil s.written)
    lone_messages_answered (k ∷ ks) c s e n =
        let w = batch k (c, s) in
        lone_messages_answered ks w.0 w.1 refl
          (λ e'. n (sym (recv-clients json_name (some socket) (sends k c).outgoing s).0 ∙ e'))
        ∙ ap (λ (m : ℕ). w.1.written ++ lone_replies ks m) (batch-msgid k c s)
        ∙ ap (λ (rs : List (ℕ × Text)). rs ++ lone_replies ks (c.msgid + k))
            (batch-written k c s e n)
        ∙ append_assoc s.written (reply_if_alone k c.msgid) (lone_replies ks (c.msgid + k))
