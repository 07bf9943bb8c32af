-- ===== src/Connector/Bounce.antt =====
-- What an end of cpp/jsonrpc/json-rpc-cxx/examples/conn/asiotcpconnector.hpp does with a message
-- that is no request and that it does not wait for.
use code_study_example.Connector.Frame.{Message, Channel, frame, read_message-nil, read_message-one}
use code_study_example.Connector.Side.{Side, Move, begins, writes, returns, hears}
use code_study_example.Connector.Phase.{Calm}
use code_study_example.Connector.Clients.{End, Network, update, OnLatest}
use code_study_example.Connector.Stolen.{on_message-Calm, pending-answer}
use code_study_example.Shared.{
  ℕ, ◌<◌, ◌^◌, ◌≡◌, ◌≢◌, ◌⊎◌, inl, inr, refl, sym, subst, [], length, arith,
}

module _ (c : Channel) where
  open c use {Stream, pending}

  -- The message is alone on its way between the server and a client, in one direction or the other.
  abbrev pub OnItsWay : Message → Stream → Stream → Type 0
  OnItsWay x ts tc =
      ((pending ts ≡ frame x) × (pending tc ≡ [])) ⊎ ((pending tc ≡ frame x) × (pending ts ≡ []))

  -- At a client that waits for nothing.
  abbrev pub Bounces : {C S : Type 0} → (Message → Type 0) → Side S → End c C → Type 0
  Bounces Stray sv e =
      Calm sv × Calm e.client × ((x : Message) × Stray x × OnItsWay x e.to_server e.to_client)

module _ (c : Channel) {C S : Type 0} (client_handle : C → Message → Message × C)
    (server_handle : S → Message → Message × S) where
  open c use {Stream, pending}

  abbrev pub NoCall :
      {H : Type 0} {handle : H → Message → Message × H} {s s' : Side H} {from to from' to' : Stream}
      → Move c handle s from to s' from' to'
      → Type 0
  NoCall (begins request e) = ⊥
  NoCall (writes request e) = Unit
  NoCall (returns request e has) = Unit
  NoCall (hears m from' r) = Unit

  -- A run in which neither the server nor the client `a` calls `Send`.
  pub data QuietRun (a : ℕ) (n : Network c C S) : Network c C S → Type 0 where
    stay : QuietRun a n n
    by_client :
        {m : Network c C S}
        → QuietRun a n m
        → (i : ℕ) (side : Side C) (from to : Stream)
        → (mv : Move c client_handle
            (m.ends i).client
            (m.ends i).to_client
            (m.ends i).to_server
            side
            from
            to)
        → (i ≡ a → NoCall mv)
        → QuietRun a n (record m {
          ends = update i (record { client = side; to_server = to; to_client = from }) m.ends;
        })
    by_server :
        {m : Network c C S}
        → QuietRun a n m
        → (i : ℕ) (side : Side S) (from to : Stream)
        → (mv : Move c server_handle m.server
            (m.ends i).to_server
            (m.ends i).to_client
            side
            from
            to)
        → OnLatest c client_handle server_handle m.latest_socket i mv
        → NoCall mv
        → QuietRun a n (record m {
          server = side;
          ends =
              update i
                (record { client = (m.ends i).client; to_server = from; to_client = to })
                m.ends;
        })

  -- What the server does for another client.
  pub server_stays_Calm :
      (sv : Side S) {side : Side S} {from to from' to' : Stream}
      → (mv : Move c server_handle sv from to side from' to') → NoCall mv
      → Calm sv
      → Calm side
  server_stays_Calm sv (begins q i) g s = absurd g
  server_stays_Calm sv (writes q i) g s = absurd (ground arith)
  server_stays_Calm sv (returns q i has) g s = absurd (ground arith)
  server_stays_Calm sv (hears m from r) g s =
      on_message-Calm c client_handle server_handle server_handle sv m s

  module _ (Stray : Message → Type 0) (short : (x : Message) → Stray x → length x < 2 ^ 32)
      (non_nil : (x : Message) → Stray x → x ≢ [])
      (client_answers : (h : C) (x : Message) → Stray x → Stray (client_handle h x).0)
      (server_answers : (h : S) (x : Message) → Stray x → Stray (server_handle h x).0) where
    pub client-Bounces :
        (sv : Side S) (e : End c C) {side : Side C} {from to : Stream}
        → (mv : Move c client_handle e.client e.to_client e.to_server side from to) → NoCall mv
        → Bounces c Stray sv e
        → Bounces c Stray sv (record { client = side; to_server = to; to_client = from })
    client-Bounces sv e (begins q i) g b = absurd g
    client-Bounces sv e (writes q i) g (s, k, b) = absurd (ground arith)
    client-Bounces sv e (returns q i has) g (s, k, b) = absurd (ground arith)
    client-Bounces sv e (hears m from r) g (s, k, (x, st, inl (p, q))) =
        absurd (cc (read_message-nil c e.to_client q))
    client-Bounces sv e (hears m from r) g (s, k, (x, st, inr (p, q))) =
        let (same, left) = read_message-one c x m e.to_client from (short x st) p r in
        let st' = subst Stray (sym same) st in
        let y = (client_handle e.client.rpc m).0 in
        let sy = client_answers e.client.rpc m st' in
        (
          s,
          on_message-Calm c client_handle server_handle client_handle e.client m k,
          (
            y,
            sy,
            inl (
              pending-answer c client_handle server_handle client_handle e.client e.to_server m y
                  k.1 refl (non_nil y sy) q,
              left,
            ),
          ),
        )

    pub server-Bounces :
        (sv : Side S) (e : End c C) {side : Side S} {from to : Stream}
        → (mv : Move c server_handle sv e.to_server e.to_client side from to) → NoCall mv
        → Bounces c Stray sv e
        → Bounces c Stray side (record { client = e.client; to_server = from; to_client = to })
    server-Bounces sv e (begins q i) g b = absurd g
    server-Bounces sv e (writes q i) g (s, k, b) = absurd (ground arith)
    server-Bounces sv e (returns q i has) g (s, k, b) = absurd (ground arith)
    server-Bounces sv e (hears m from r) g (s, k, (x, st, inr (p, q))) =
        absurd (cc (read_message-nil c e.to_server q))
    server-Bounces sv e (hears m from r) g (s, k, (x, st, inl (p, q))) =
        let (same, left) = read_message-one c x m e.to_server from (short x st) p r in
        let st' = subst Stray (sym same) st in
        let y = (server_handle sv.rpc m).0 in
        let sy = server_answers sv.rpc m st' in
        (
          on_message-Calm c client_handle server_handle server_handle sv m s,
          k,
          (
            y,
            sy,
            inr (
              pending-answer c client_handle server_handle server_handle sv e.to_client m y s.1 refl
                  (non_nil y sy) q,
              left,
            ),
          ),
        )
