-- ===== src/Connector/Stolen.antt =====
-- A request that comes while the server of
-- cpp/jsonrpc/json-rpc-cxx/examples/conn/asiotcpconnector.hpp waits for the answer of another
-- client.
use code_study_example.Connector.Frame.{Message, Channel, frame, pending-write_message}
use code_study_example.Connector.Side.{Side, on_message, write_back}
use code_study_example.Connector.Phase.{Calm}
use code_study_example.Connector.Clients.{Network}
use code_study_example.Shared.{ℕ, ◌≡◌, ◌≢◌, refl, ap, ◌∙◌, List, [], ◌∷◌, false, ◌++◌, arith}

module _ (c : Channel) {C S : Type 0} (client_handle : C → Message → Message × C)
    (server_handle : S → Message → Message × S) where
  open c use {Stream, pending}

  -- The answer of an end that waits for none.
  pub pending-answer :
      {H : Type 0} (handle : H → Message → Message × H) (s : Side H) (out : Stream) (q x : Message)
      → s.waiting_response ≡ false
      → (handle s.rpc q).0 ≡ x
      → x ≢ []
      → pending out ≡ []
      → pending (write_back c (on_message handle q s).0 out) ≡ frame x
  unfolding on_message
  pending-answer handle s out q [] w e nx p = absurd (nx refl)
  pending-answer handle s out q (y ∷ ys) w e nx p =
      rw (w, e) (pending-write_message c (y ∷ ys) out ∙ ap (λ (l : List ℕ). l ++ frame (y ∷ ys)) p)

  pub on_message-Calm :
      {H : Type 0} (handle : H → Message → Message × H) (s : Side H) (q : Message)
      → Calm s
      → Calm (on_message handle q s).1
  unfolding on_message
  on_message-Calm handle s q (i, w) = ground arith

  -- No call of `Send` is under way at the server or at the client `a`.
  abbrev pub Quiet : Network c C S → ℕ → Type 0
  Quiet n a = Calm n.server × Calm (n.ends a).client
