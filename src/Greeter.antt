-- ===== src/Greeter.antt =====
-- The greeter of grpc/greeter_server.cc and grpc/greeter_client.cc.
pub mod Sessions
pub mod Examples
use code_study_example.Shared.Texts.{Text, codes, same_text, decimal}
use code_study_example.Shared.{
  ℕ, zero, suc, ◌+◌, List, [], ◌∷◌, ◌++◌, Bool, true, false, Option, none, some, if◌then◌else◌,
}

-- What server and client have printed, and how many calls were made.
pub record Console : Type 0 where
  pub server_out : Text
  pub client_out : Text
  pub calls : ℕ

-- `SayHello` of the service.
unfoldable pub serve_hello : Text → Console → Text × Console
serve_hello name s = (
  codes "ok " ++ name,
  record s { server_out = s.server_out ++ (codes "recv: " ++ name ++ codes ",  reply ok \n") },
)

-- `status` and `reply.message()` after the RPC. `outage` says of each call whether it fails, and
-- with which code and message.
pub data Reply : Type 0 where
  ok : Text → Reply
  error : ℕ → Text → Reply

abbrev answered : Text × Console → Reply × Console
answered (message, s) = (ok message, s)

abbrev rpc_or : Option (ℕ × Text) → Text → Console → Reply × Console
rpc_or none name s = answered (serve_hello name s)
rpc_or (some (code, message)) name s = (error code message, s)

unfoldable pub rpc : (ℕ → Option (ℕ × Text)) → Text → Console → Reply × Console
rpc outage name s = rpc_or (outage s.calls) name (record s { calls = suc s.calls })

abbrev pub print : Text → Console → Console
print t s = record s { client_out = s.client_out ++ t }

unfoldable pub presented : Reply × Console → Text × Console
presented (ok message, s) = (message, s)
presented (error code message, s) =
    (codes "RPC failed", print (decimal code ++ codes ": " ++ message ++ codes "\n") s)

-- `SayHello` of the client.
unfoldable pub say_hello : (ℕ → Option (ℕ × Text)) → Text → Console → Text × Console
say_hello outage user s = presented (rpc outage user s)

-- `std::cin >> input` into an empty string: the next word, or nothing at the end of the input.
abbrev pub next_input : List Text → Text
next_input [] = []
next_input (word ∷ words) = word

abbrev pub rest_input : List Text → List Text
rest_input [] = []
rest_input (word ∷ words) = words

-- The loop of `main`, on fuel; `none` is no fuel left.
module _ (outage : ℕ → Option (ℕ × Text)) (pid : Text) where
  abbrev pub prompt : Console → Console
  prompt s = print (codes "Please input: \n") s

  abbrev pub greet : Text → Console → Console
  greet input s =
      let (reply, s') = say_hello outage (pid ++ input) s in
      print (codes "Greeter received: " ++ reply ++ codes "\n") s'

  unfoldable pub greeter_loop : ℕ → List Text → Console → Option Console
  greeter_loop zero words s = none
  greeter_loop (suc fuel) words s =
      let rest = greeter_loop fuel (rest_input words) (greet (next_input words) (prompt s)) in
      if same_text (next_input words) (codes "q") then some (prompt s) else rest
