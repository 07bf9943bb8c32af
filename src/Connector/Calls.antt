-- ===== src/Connector/Calls.antt =====
-- Every move of the client or of the server of
-- cpp/jsonrpc/json-rpc-cxx/examples/conn/asiotcpconnector.hpp leads from one phase to another.
use code_study_example.Connector.Phase.{
  Phase, Calm, under_way, Waits, answered, MayServer, MayClient, quiet, received, unanswered, asked,
}
use code_study_example.Connector.Frame.{
  Message, Channel, read_message, frame, pending-write_message, read_message-nil, read_message-one,
  Short,
}
use code_study_example.Connector.Side.{
  Side, awaiting, begin_send, written, return_response, on_message, non_empty, write_back, Move,
  begins, writes, returns, hears,
}
use code_study_example.Shared.{
  ℕ, ◌<◌, ◌^◌, ◌≡◌, refl, sym, ap, ◌∙◌, List, [], ◌∷◌, ◌++◌, false, some, length, arith,
}

module _ (c : Channel) {C S : Type 0} (client_handle : C → Message → Message × C)
    (server_handle : S → Message → Message × S) where
  open c use {Stream, pending}

  nothing_to_hear :
      (s s' : Stream) (m : Message) → pending s ≡ [] → read_message c s ≡ some (m, s') → ⊥
  nothing_to_hear s s' m e r = cc (read_message-nil c s e)

  client_hears :
      (cl : Side C) (sv : Side S) (ts tc tc' : Stream) (m : Message)
      → read_message c tc ≡ some (m, tc')
      → Phase c client_handle server_handle cl sv ts tc
      → Phase c client_handle server_handle
          (on_message client_handle m cl).1
          sv
          (write_back c (on_message client_handle m cl).0 ts)
          tc'
  unfolding on_message
  client_hears cl sv ts tc tc' m r (answered request response e w s t p h) =
      let (same, left) = read_message-one c response m tc tc' s p r in
      rw w.0 (received request response e refl refl same t left h)
  client_hears cl sv ts tc tc' m r (quiet e w t p h) = absurd (nothing_to_hear tc tc' m p r)
  client_hears cl sv ts tc tc' m r (asked q e w s t p h) = absurd (nothing_to_hear tc tc' m p r)
  client_hears cl sv ts tc tc' m r (under_way q e w s t p h) = absurd (nothing_to_hear tc tc' m p r)
  client_hears cl sv ts tc tc' m r (received q a e w s i t p h) =
      absurd (nothing_to_hear tc tc' m p r)
  client_hears cl sv ts tc tc' m r (unanswered q e w t p h z) =
      absurd (nothing_to_hear tc tc' m p r)

  pub client_Phase :
      {cl cl' : Side C} {ts tc ts' tc' : Stream} (sv : Side S)
      → (mv : Move c client_handle cl tc ts cl' tc' ts')
      → MayClient c client_handle server_handle mv
      → Phase c client_handle server_handle cl sv ts tc
      → Phase c client_handle server_handle cl' sv ts' tc'
  unfolding begin_send written return_response
  client_Phase {cl} {ts} {tc} sv (hears m from' r) g ph = client_hears cl sv ts tc from' m r ph
  client_Phase sv (begins request e) g (quiet i w t p h) = asked request refl (refl, refl) g t p h
  client_Phase sv (begins request e) g (asked q i w s t p h) = absurd (ground arith)
  client_Phase sv (begins request e) g (under_way q i w s t p h) = absurd (ground arith)
  client_Phase sv (begins request e) g (answered q a i w s t p h) = absurd (ground arith)
  client_Phase sv (begins request e) g (received q a i w s y t p h) = absurd (ground arith)
  client_Phase sv (begins request e) g (unanswered q i w t p h z) = absurd (ground arith)
  client_Phase {ts} sv (writes request e) g (asked q i w s t p h) =
      under_way request refl w (ground arith) (pending-write_message c request ts ∙ rw t refl) p h
  client_Phase sv (writes request e) g (quiet i w t p h) = absurd (ground arith)
  client_Phase sv (writes request e) g (under_way q i w s t p h) = absurd (ground arith)
  client_Phase sv (writes request e) g (answered q a i w s t p h) = absurd (ground arith)
  client_Phase sv (writes request e) g (received q a i w s y t p h) = absurd (ground arith)
  client_Phase sv (writes request e) g (unanswered q i w t p h z) = absurd (ground arith)
  client_Phase sv (returns request e has) g (received q a i w s y t p h) =
      quiet refl w t p (ground arith)
  client_Phase sv (returns request e has) g (quiet i w t p h) = absurd (ground arith)
  client_Phase sv (returns request e has) g (asked q i w s t p h) = absurd (ground arith)
  client_Phase sv (returns request e has) g (under_way q i w s t p h) = absurd (ground arith)
  client_Phase sv (returns request e has) g (answered q a i w s t p h) = absurd (ground arith)
  client_Phase sv (returns request e has) g (unanswered q i w t p h z) = absurd (ground arith)

  -- What the server writes is its answer, if it is not empty.
  answer :
      (h0 : S) (cl : Side C) (sv : Side S) (ts tc : Stream) (request response : Message)
      → cl.sender ≡ awaiting request
      → Waits cl
      → pending ts ≡ []
      → pending tc ≡ []
      → Short response
      → (server_handle h0 request).0 ≡ response
      → sv.handled ≡ (request, response) ∷ cl.calls
      → Phase c client_handle server_handle cl sv ts (write_back c (non_empty response) tc)
  answer h0 cl sv ts tc request [] e w t p s z h = unanswered request e w t p h (h0, z)
  answer h0 cl sv ts tc request (b ∷ bs) e w t p s z h =
      answered request (b ∷ bs) e w s t
        (pending-write_message c (b ∷ bs) tc ∙ ap (λ (x : List ℕ). x ++ frame (b ∷ bs)) p) h

  server_hears :
      (cl : Side C) (sv : Side S) (ts tc ts' : Stream) (m : Message)
      → ((h : S) (q : Message) → length (server_handle h q).0 < 2 ^ 32)
      → sv.waiting_response ≡ false
      → read_message c ts ≡ some (m, ts')
      → Phase c client_handle server_handle cl sv ts tc
      → Phase c client_handle server_handle cl
          (on_message server_handle m sv).1
          ts'
          (write_back c (on_message server_handle m sv).0 tc)
  unfolding on_message
  server_hears cl sv ts tc ts' m short calm r (under_way q e w s t p h) =
      let (same, left) = read_message-one c q m ts ts' s t r in
      rw calm (
        answer sv.rpc cl
          (record sv {
            waiting_response = false;
            rpc = (server_handle sv.rpc m).1;
            handled = (m, (server_handle sv.rpc m).0) ∷ sv.handled;
          })
          ts' tc q (server_handle sv.rpc m).0 e w left p (short sv.rpc m)
          (ap (λ x. (server_handle sv.rpc x).0) (sym same)) (ground (arith, same, h)))
  server_hears cl sv ts tc ts' m short calm r (quiet e w t p h) =
      absurd (nothing_to_hear ts ts' m t r)
  server_hears cl sv ts tc ts' m short calm r (asked q e w s t p h) =
      absurd (nothing_to_hear ts ts' m t r)
  server_hears cl sv ts tc ts' m short calm r (answered q a e w s t p h) =
      absurd (nothing_to_hear ts ts' m t r)
  server_hears cl sv ts tc ts' m short calm r (received q a e w l y t p h) =
      absurd (nothing_to_hear ts ts' m t r)
  server_hears cl sv ts tc ts' m short calm r (unanswered q e w t p h z) =
      absurd (nothing_to_hear ts ts' m t r)

  on_message-Calm : (m : Message) (sv : Side S) → Calm sv → Calm (on_message server_handle m sv).1
  unfolding on_message
  on_message-Calm m sv (i, w) = ground arith

  pub server_Phase :
      {sv sv' : Side S} {ts tc ts' tc' : Stream} (cl : Side C)
      → ((h : S) (q : Message) → length (server_handle h q).0 < 2 ^ 32)
      → (mv : Move c server_handle sv ts tc sv' ts' tc')
      → MayServer c client_handle server_handle mv
      → Calm sv
      → Phase c client_handle server_handle cl sv ts tc
      → Calm sv' × Phase c client_handle server_handle cl sv' ts' tc'
  server_Phase {sv} {ts} {tc} cl short (hears m from' r) g calm ph =
      (on_message-Calm m sv calm, server_hears cl sv ts tc from' m short calm.1 r ph)
  server_Phase cl short (begins request e) g calm ph = absurd g
  server_Phase cl short (writes request e) g calm ph = absurd (ground arith)
  server_Phase cl short (returns request e has) g calm ph = absurd (ground arith)
