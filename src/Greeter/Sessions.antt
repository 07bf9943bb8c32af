-- ===== src/Greeter/Sessions.antt =====
-- Sessions of the client of grpc/greeter_client.cc.
use code_study_example.Greeter.{
  Console, serve_hello, rpc, presented, say_hello, prompt, greet, next_input, rest_input,
  greeter_loop,
}
use code_study_example.Shared.Texts.{Text, codes, same_text}
use code_study_example.Shared.{
  ℕ, zero, suc, ◌<◌, ◌≡◌, refl, sym, ap, ◌∙◌, List, [], ◌∷◌, ◌++◌, false, Option, none, some,
  length, arith, All, append_assoc, append-nil,
}

abbrev pub NotQuit : Text → Type 0
NotQuit word = same_text word (codes "q") ≡ false

-- What a client prints for the words, and what the server prints for them.
abbrev pub dialogue : Text → List Text → Text
dialogue pid [] = codes "Please input: \n"
dialogue pid (word ∷ words) =
    codes "Please input: \n"
    ++ (codes "Greeter received: " ++ (codes "ok " ++ (pid ++ word)) ++ codes "\n")
    ++ dialogue pid words

abbrev pub received : Text → List Text → Text
received pid [] = []
received pid (word ∷ words) =
    (codes "recv: " ++ (pid ++ word) ++ codes ",  reply ok \n") ++ received pid words

append_four : (a b c d : Text) → ((a ++ b) ++ c) ++ d ≡ a ++ ((b ++ c) ++ d)
append_four a b c d = ap (λ (x : Text). x ++ d) (append_assoc a b c) ∙ append_assoc a (b ++ c) d

module _ (outage : ℕ → Option (ℕ × Text)) (pid : Text) where
  loop_on :
      (fuel : ℕ) (words : List Text) (s : Console)
      → NotQuit (next_input words)
      → greeter_loop outage pid (suc fuel) words s
        ≡ greeter_loop outage pid fuel
            (rest_input words)
            (greet outage pid (next_input words) (prompt outage pid s))
  unfolding greeter_loop
  loop_on fuel words s h = rw h refl

  loop_quits :
      (fuel : ℕ) (words : List Text) (s : Console)
      → greeter_loop outage pid (suc fuel) (codes "q" ∷ words) s ≡ some (prompt outage pid s)
  unfolding greeter_loop
  loop_quits fuel words s = refl

  greet_lem :
      (word : Text) (s : Console)
      → ((n : ℕ) → outage n ≡ none)
      → ((greet outage pid word s).client_out
          ≡ s.client_out
            ++ (codes "Greeter received: " ++ (codes "ok " ++ (pid ++ word)) ++ codes "\n"))
        × ((greet outage pid word s).server_out
            ≡ s.server_out ++ (codes "recv: " ++ (pid ++ word) ++ codes ",  reply ok \n"))
  unfolding say_hello presented rpc serve_hello
  greet_lem word s up = rw (up s.calls) (refl, refl)

  -- While no call fails, the session comes to an end at the first "q": each word before it is
  -- answered by the server, which has printed it, in their order, and what follows is not read.
  -- One turn more than there are words before it is enough.
  pub session_greets :
      (fuel : ℕ) (words rest : List Text) (s : Console)
      → ((n : ℕ) → outage n ≡ none)
      → All NotQuit words
      → length words < fuel
      → (s' : Console) × (greeter_loop outage pid fuel (words ++ codes "q" ∷ rest) s ≡ some s')
        × (s'.client_out ≡ s.client_out ++ dialogue pid words)
        × (s'.server_out ≡ s.server_out ++ received pid words)
  session_greets zero words rest s up a f = absurd (omega (arith, f))
  session_greets (suc fuel) [] rest s up a f =
      (prompt outage pid s, loop_quits fuel rest s, refl, sym (append-nil s.server_out))
  session_greets (suc fuel) (word ∷ words) rest s up a f =
      let next = greet outage pid word (prompt outage pid s) in
      let (c, o) = greet_lem word (prompt outage pid s) up in
      let (s', r, client, server) = session_greets fuel words rest next up a.1 (omega (arith, f)) in
      (
        s',
        loop_on fuel (word ∷ words ++ codes "q" ∷ rest) s a.0 ∙ r,
        client
            ∙ ap (λ (x : Text). x ++ dialogue pid words) c
            ∙ append_four s.client_out (codes "Please input: \n")
                (codes "Greeter received: " ++ (codes "ok " ++ (pid ++ word)) ++ codes "\n")
                (dialogue pid words),
        server
            ∙ ap (λ (x : Text). x ++ received pid words) o
            ∙ append_assoc s.server_out _ (received pid words),
      )

  -- Where no word of the input is "q", the client does not come to an end, whatever the fuel: at the
  -- end of its input it goes on with empty names.
  pub session_endless :
      (words : List Text) (s : Console)
      → All NotQuit words
      → (fuel : ℕ) → greeter_loop outage pid fuel words s ≡ none
  unfolding greeter_loop
  session_endless words s a zero = refl
  session_endless [] s a (suc fuel) =
      loop_on fuel [] s refl
      ∙ session_endless [] (greet outage pid [] (prompt outage pid s)) tt fuel
  session_endless (word ∷ words) s a (suc fuel) =
      loop_on fuel (word ∷ words) s a.0
      ∙ session_endless words (greet outage pid word (prompt outage pid s)) a.1 fuel
