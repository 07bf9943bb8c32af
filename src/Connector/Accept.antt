-- ===== src/Connector/Accept.antt =====
-- How AsioServerConnector of cpp/jsonrpc/json-rpc-cxx/examples/conn/asiotcpconnector.hpp listens.
use code_study_example.Shared.{
  ℕ, zero, suc, ◌≡◌, refl, ap, ◌∙◌, List, [], ◌∷◌, ◌++◌, Bool, true, false, Option, none, some,
  ◌>>=◌, if◌then◌else◌, if_false,
}

-- `thread` is whether `server_thread` is joinable; a socket is a number.
pub record Acceptor : Type 0 where
  pub is_running : Bool
  pub thread : Bool
  pub latest_socket : Option ℕ

unfoldable pub new_acceptor : Acceptor
new_acceptor = record { is_running = false; thread = false; latest_socket = none }

-- `StartListening`, and whether it throws. `binds` is whether the port can be opened.
unfoldable pub start_acceptor : Bool → Acceptor → Bool × Acceptor
start_acceptor binds s =
    if s.is_running
    then (false, s)
    else (if binds
        then (false, record s { is_running = true; thread = true })
        else (true, record s { is_running = true }))

-- A turn of `AcceptLoop`. An exception of `accept` is caught nowhere in that thread, which
-- terminates the program (`none`).
unfoldable pub accept_turn : Option ℕ → Acceptor → Option Acceptor
accept_turn none s = none
accept_turn (some socket) s = some (record s { latest_socket = some socket })

-- `Stop`. Where the thread runs, `join` waits until its pending `accept` returns, with a last
-- connection or with an exception.
unfoldable pub stop_acceptor : Option ℕ → Acceptor → Option Acceptor
stop_acceptor pending s =
    if s.thread
    then (accept_turn pending s >>= λ t. some (record t { is_running = false; thread = false }))
    else some (record s { is_running = false })

-- The socket that `Send` writes to; `none` is the exception "No active connection".
unfoldable pub send_socket : Acceptor → Option ℕ
send_socket s = s.latest_socket

abbrev pub accepted : List ℕ → Acceptor → Option Acceptor
accepted [] s = some s
accepted (socket ∷ sockets) s = accept_turn (some socket) s >>= accepted sockets

latest_of :
    (sockets : List ℕ) (socket : ℕ) (s : Acceptor)
    → (accepted (sockets ++ socket ∷ []) s >>= send_socket) ≡ some socket
unfolding send_socket accept_turn
latest_of [] socket s = refl
latest_of (first ∷ sockets) socket s =
    latest_of sockets socket (record s { latest_socket = some first })

-- `Send` of the server throws until a client has connected, and then always writes to the one that
-- connected last, whatever other clients there are.
pub sends_to_latest :
    (sockets : List ℕ) (socket : ℕ)
    → (send_socket new_acceptor ≡ none)
      × ((accepted (sockets ++ socket ∷ []) new_acceptor >>= send_socket) ≡ some socket)
unfolding new_acceptor send_socket accept_turn
sends_to_latest sockets socket = (refl, latest_of sockets socket new_acceptor)

abbrev pub start_again : ℕ → Acceptor → Acceptor
start_again zero s = s
start_again (suc n) s = start_again n (start_acceptor true s).1

already : (s : Acceptor) → s.is_running ≡ true → (start_acceptor true s).1 ≡ s
unfolding start_acceptor
already s h = rw (start_acceptor, h) refl

running_stays : (n : ℕ) (s : Acceptor) → s.is_running ≡ true → start_again n s ≡ s
running_stays zero s h = refl
running_stays (suc n) s h = ap (start_again n) (already s h) ∙ running_stays n s h

-- The state that a failed start leaves.
abbrev failed : Acceptor → Acceptor
failed s = record s { is_running = true }

start_fails : (s : Acceptor) → s.is_running ≡ false → start_acceptor false s ≡ (true, failed s)
unfolding start_acceptor
start_fails s h = if_false s.is_running (false, s) (true, failed s) h

-- A port that is taken once makes the server deaf: `StartListening` throws, and all later calls of it
-- return without an exception and without a thread that accepts, also once the port is free.
pub failed_start_sticks :
    (n : ℕ) (s : Acceptor)
    → s.is_running ≡ false
    → s.thread ≡ false
    → ((start_acceptor false s).0 ≡ true)
      × ((start_acceptor true (start_again n (start_acceptor false s).1)).0 ≡ false)
      × ((start_again n (start_acceptor false s).1).thread ≡ false)
unfolding start_acceptor
failed_start_sticks n s r t =
    let e = ap (λ (p : Bool × Acceptor). p.1) (start_fails s r) in
    let still = ap (start_again n) e ∙ running_stays n (failed s) refl in
    (
      ap (λ (p : Bool × Acceptor). p.0) (start_fails s r),
      ap (λ x. (start_acceptor true x).0) still,
      ap (λ (x : Acceptor). x.thread) still ∙ t,
    )
