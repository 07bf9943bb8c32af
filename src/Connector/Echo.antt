-- ===== src/Connector/Echo.antt =====
-- Answers to answers in cpp/jsonrpc/json-rpc-cxx/examples/conn/asiotcpconnector.hpp.
use code_study_example.Connector.Frame.{Message, Channel, frame, read_message-frame}
use code_study_example.Connector.Side.{Side, on_message, write_back, hears}
use code_study_example.Connector.Clients.{End, Network, update, update-same, update-other}
use code_study_example.Connector.Bounce.{
  QuietRun, stay, by_client, by_server, OnItsWay, Bounces, client-Bounces, server-Bounces,
  server_stays_Calm,
}
use code_study_example.Connector.Stolen.{Quiet}
use code_study_example.Shared.{
  ℕ, suc, ◌+◌, ◌<◌, ◌^◌, ◌≡◌, ◌≢◌, inl, inr, refl, sym, ap, subst, ◌∙◌, [], false, length,
  append-nil, arith, ℕ_discrete,
}

module _ (c : Channel) {C S : Type 0} (client_handle : C → Message → Message × C)
    (server_handle : S → Message → Message × S) where
  open c use {Stream, pending}

  -- How often the server has handled a message, or the client `a`.
  abbrev pub handlings : ℕ → Network c C S → ℕ
  handlings a n = length n.server.handled + length (n.ends a).client.handled

  module _ (Stray : Message → Type 0) (short : (x : Message) → Stray x → length x < 2 ^ 32)
      (non_nil : (x : Message) → Stray x → x ≢ [])
      (client_answers : (h : C) (x : Message) → Stray x → Stray (client_handle h x).0)
      (server_answers : (h : S) (x : Message) → Stray x → Stray (server_handle h x).0) where
    Bounces-update :
        (sv : Side S) (i a : ℕ) (e : End c C) (ends : ℕ → End c C)
        → (i ≡ a → Bounces c Stray sv e)
        → (i ≢ a → Bounces c Stray sv (ends a))
        → Bounces c Stray sv (update i e ends a)
    Bounces-update sv i a e ends same other = elim (ℕ_discrete i a) [
      | yes p ↦
          subst (λ (j : ℕ). Bounces c Stray sv (update i e ends j)) p
            (subst (Bounces c Stray sv) (sym (update-same i e ends)) (same p))
      | no n ↦ subst (Bounces c Stray sv) (sym (update-other i a e ends (λ p. n (sym p)))) (other n)
    ]

    run-Bounces :
        (a : ℕ) {n m : Network c C S}
        → QuietRun c client_handle server_handle a n m
        → Bounces c Stray n.server (n.ends a)
        → Bounces c Stray m.server (m.ends a)
    run-Bounces a stay b = b
    run-Bounces a (by_client {m} r i side from to mv g) b =
        let before = run-Bounces a r b in
        Bounces-update m.server i a _ m.ends
          (λ p.
            client-Bounces c client_handle server_handle Stray short non_nil client_answers
              server_answers m.server (m.ends i) mv (g p)
              (subst (λ (j : ℕ). Bounces c Stray m.server (m.ends j)) (sym p) before))
          (λ _. before)
    run-Bounces a (by_server {m} r i side from to mv l g) b =
        let before = run-Bounces a r b in
        Bounces-update side i a _ m.ends
          (λ p.
            server-Bounces c client_handle server_handle Stray short non_nil client_answers
              server_answers m.server (m.ends i) mv g
              (subst (λ (j : ℕ). Bounces c Stray m.server (m.ends j)) (sym p) before))
          (λ _. (
            server_stays_Calm c client_handle server_handle m.server mv g before.0,
            before.1,
            before.2,
          ))

    handled_one :
        {H : Type 0} (handle : H → Message → Message × H) (s : Side H) (m : Message)
        → s.waiting_response ≡ false
        → length (on_message handle m s).1.handled ≡ suc (length s.handled)
    unfolding on_message
    handled_one handle s m w = rw w refl

    -- What is on its way can be handled.
    goes_on :
        (a : ℕ) (x : Message) (m : Network c C S)
        → length x < 2 ^ 32
        → Quiet c client_handle server_handle m a
        → OnItsWay c x (m.ends a).to_server (m.ends a).to_client
        → (k : Network c C S) × QuietRun c client_handle server_handle a m k
          × (handlings a k ≡ suc (handlings a m))
    goes_on a x m sx (s, k) (inl (p, q)) =
        let e = m.ends a in
        let (ts, got, left) =
          read_message-frame c x [] e.to_server sx (p ∙ sym (append-nil (frame x))) in
        let side = (on_message server_handle x m.server).1 in
        let to = write_back c (on_message server_handle x m.server).0 e.to_client in
        let e' : End c C = record { client = e.client; to_server = ts; to_client = to } in
        let same = ap (λ (y : End c C). length y.client.handled) (update-same a e' m.ends) in
        (
          record m { server = side; ends = update a e' m.ends },
          by_server stay a side ts to (hears x ts got) tt tt,
          omega (arith, same, handled_one server_handle m.server x s.1),
        )
    goes_on a x m sx (s, k) (inr (p, q)) =
        let e = m.ends a in
        let (tc, got, left) =
          read_message-frame c x [] e.to_client sx (p ∙ sym (append-nil (frame x))) in
        let side = (on_message client_handle x e.client).1 in
        let to = write_back c (on_message client_handle x e.client).0 e.to_server in
        let e' : End c C = record { client = side; to_server = to; to_client = tc } in
        let same = ap (λ (y : End c C). length y.client.handled) (update-same a e' m.ends) in
        (
          record m { ends = update a e' m.ends },
          by_client stay a side tc to (hears x tc got) (λ _. tt),
          omega (arith, same, handled_one client_handle e.client x k.1),
        )

    -- A message that is alone on its way between a server and a client that both wait for nothing,
    -- and that is handled and answered by another such message, as a JSON-RPC server answers what is
    -- no request by an error: the two answer each other's answers for ever. In every run in which
    -- neither of them calls `Send`, whatever the other clients do, such a message is on its way, and
    -- the run can go on to where it is handled and the next one is on its way.
    pub answers_never_end :
        (a : ℕ) (x : Message) (n m : Network c C S)
        → Stray x
        → Quiet c client_handle server_handle n a
        → OnItsWay c x (n.ends a).to_server (n.ends a).to_client
        → QuietRun c client_handle server_handle a n m
        → ((y : Message) × Stray y × OnItsWay c y (m.ends a).to_server (m.ends a).to_client)
          × ((k : Network c C S) × QuietRun c client_handle server_handle a m k
              × (handlings a k ≡ suc (handlings a m)))
    answers_never_end a x n m st q o r =
        let (s, k, b) = run-Bounces a r (q.0, q.1, (x, st, o)) in
        (b, goes_on a b.0 m (short b.0 b.1) (s, k) b.2)
