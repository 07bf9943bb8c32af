-- ===== src/Connector/Parties.antt =====
-- Moves of the server, of the client that connected last and of another client of
-- cpp/jsonrpc/json-rpc-cxx/examples/conn/asiotcpconnector.hpp, while the rest stands still.
use code_study_example.Connector.Frame.{Message, Channel}
use code_study_example.Connector.Side.{Side, Move}
use code_study_example.Connector.Clients.{
  End, Network, update, update-same, update-other, OnLatest, Step, client_moves, server_moves,
  Steps, next,
}
use code_study_example.Shared.{ℕ, ◌≡◌, ◌≢◌, refl, sym, subst, ◌∙◌}

module _ (c : Channel) {C S : Type 0} (client_handle : C → Message → Message × C)
    (server_handle : S → Message → Message × S) where
  open c use {Stream, pending}

  -- What the server, the latest client and another client are.
  abbrev pub Holds : Network c C S → ℕ → ℕ → Side S → End c C → End c C → Type 0
  Holds n a b sv ea eb = (n.server ≡ sv) × (n.latest_socket ≡ a) × (n.ends a ≡ ea) × (n.ends b ≡ eb)

  -- There is a run to a state in which they are this.
  abbrev pub Reaches : Network c C S → ℕ → ℕ → Side S → End c C → End c C → Type 0
  Reaches n a b sv ea eb =
      (m : Network c C S) × Steps c client_handle server_handle n m × Holds m a b sv ea eb

  client_at :
      (n : Network c C S) (i : ℕ) (e : End c C) (side : Side C) (from to : Stream)
      → n.ends i ≡ e
      → Move c client_handle e.client e.to_client e.to_server side from to
      → Step c client_handle server_handle n (record n {
        ends = update i (record { client = side; to_server = to; to_client = from }) n.ends;
      })
  client_at n i e side from to p mv = client_moves i side from to (
      subst (λ (x : End c C). Move c client_handle x.client x.to_client x.to_server side from to)
        (sym p) mv)

  server_at :
      (n : Network c C S) (i : ℕ) (sv : Side S) (e : End c C)
      → n.server ≡ sv
      → n.ends i ≡ e
      → (side : Side S) (from to : Stream)
      → (mv : Move c server_handle sv e.to_server e.to_client side from to)
      → OnLatest c client_handle server_handle n.latest_socket i mv
      → Step c client_handle server_handle n (record n {
        server = side;
        ends = update i (record { client = e.client; to_server = from; to_client = to }) n.ends;
      })
  server_at n i sv e s p =
      subst
        (λ (x : End c C).
          (side : Side S) (from to : Stream)
          → (mv : Move c server_handle sv x.to_server x.to_client side from to)
          → OnLatest c client_handle server_handle n.latest_socket i mv
          → Step c client_handle server_handle n (record n {
            server = side;
            ends = update i (record { client = x.client; to_server = from; to_client = to }) n.ends;
          }))
        p
        (subst
          (λ (y : Side S).
            (side : Side S) (from to : Stream)
            → (mv : Move c server_handle y (n.ends i).to_server (n.ends i).to_client side from to)
            → OnLatest c client_handle server_handle n.latest_socket i mv
            → Step c client_handle server_handle n (record n {
              server = side;
              ends =
                  update i (record { client = (n.ends i).client; to_server = from; to_client = to })
                    n.ends;
            }))
          s (λ side from to mv ok. server_moves i side from to mv ok))

  pub a_moves :
      (n : Network c C S) (a b : ℕ) (sv : Side S) (ea eb : End c C) (side : Side C)
      (from to : Stream)
      → b ≢ a
      → Reaches n a b sv ea eb
      → Move c client_handle ea.client ea.to_client ea.to_server side from to
      → Reaches n a b sv (record { client = side; to_server = to; to_client = from }) eb
  a_moves n a b sv ea eb side from to ne (m, r, (s, l, p, q)) mv = (
    _,
    next r (client_at m a ea side from to p mv),
    (s, l, update-same a _ m.ends, update-other a b _ m.ends ne ∙ q),
  )

  pub b_moves :
      (n : Network c C S) (a b : ℕ) (sv : Side S) (ea eb : End c C) (side : Side C)
      (from to : Stream)
      → b ≢ a
      → Reaches n a b sv ea eb
      → Move c client_handle eb.client eb.to_client eb.to_server side from to
      → Reaches n a b sv ea (record { client = side; to_server = to; to_client = from })
  b_moves n a b sv ea eb side from to ne (m, r, (s, l, p, q)) mv = (
    _,
    next r (client_at m b eb side from to q mv),
    (s, l, update-other b a _ m.ends (λ e. ne (sym e)) ∙ p, update-same b _ m.ends),
  )

  -- The server, towards the latest client.
  pub server_a_moves :
      (n : Network c C S) (a b : ℕ) (sv : Side S) (ea eb : End c C) (side : Side S)
      (from to : Stream)
      → b ≢ a
      → Reaches n a b sv ea eb
      → (mv : Move c server_handle sv ea.to_server ea.to_client side from to)
      → OnLatest c client_handle server_handle a a mv
      → Reaches n a b side (record { client = ea.client; to_server = from; to_client = to }) eb
  server_a_moves n a b sv ea eb side from to ne (m, r, (s, l, p, q)) mv ok = (
    _,
    next r (
        server_at m a sv ea s p side from to mv
          (subst (λ x. OnLatest c client_handle server_handle x a mv) (sym l) ok)),
    (refl, l, update-same a _ m.ends, update-other a b _ m.ends ne ∙ q),
  )

  pub server_b_moves :
      (n : Network c C S) (a b : ℕ) (sv : Side S) (ea eb : End c C) (side : Side S)
      (from to : Stream)
      → b ≢ a
      → Reaches n a b sv ea eb
      → (mv : Move c server_handle sv eb.to_server eb.to_client side from to)
      → OnLatest c client_handle server_handle a b mv
      → Reaches n a b side ea (record { client = eb.client; to_server = from; to_client = to })
  server_b_moves n a b sv ea eb side from to ne (m, r, (s, l, p, q)) mv ok = (
    _,
    next r (
        server_at m b sv eb s q side from to mv
          (subst (λ x. OnLatest c client_handle server_handle x b mv) (sym l) ok)),
    (refl, l, update-other b a _ m.ends (λ e. ne (sym e)) ∙ p, update-same b _ m.ends),
  )
