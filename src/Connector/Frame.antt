-- ===== src/Connector/Frame.antt =====
-- The messages on the wire of cpp/jsonrpc/json-rpc-cxx/examples/conn/asiotcpconnector.hpp: four
-- bytes for the length, most significant first, then the bytes of the message.
use code_study_example.Shared.{
  ℕ, zero, suc, ◌+◌, ◌*◌, ◌/◌, ◌%◌, ◌^◌, ◌≤◌, ◌<◌, ◌≡◌, refl, List, [], ◌∷◌, ◌++◌, Option, none,
  some, length, take, drop, arith, ◌>>=◌, ◌∙◌, ap, suc, append_assoc, length-append, take-append,
  drop-append, sym, All, append-nil,
}

-- One direction of a TCP connection with `asio::read` and `asio::write`. `pending` is what was
-- written and not read yet. A read of `n` bytes gives the first `n`, or waits (`none`).
pub record Channel : Type 1 where
  pub Stream : Type 0
  pub pending : Stream → List ℕ
  pub read : ℕ → Stream → Option (List ℕ × Stream)
  pub write : List ℕ → Stream → Stream
  pub pending-write : (bs : List ℕ) (s : Stream) → pending (write bs s) ≡ pending s ++ bs
  pub read_enough :
      (n : ℕ) (s : Stream)
      → n ≤ length (pending s)
      → (s' : Stream) × (read n s ≡ some (take n (pending s), s'))
        × (pending s' ≡ drop n (pending s))
  pub read_short : (n : ℕ) (s : Stream) → length (pending s) < n → read n s ≡ none

abbrev pub Message : Type 0
Message = List ℕ

abbrev pub Short : Message → Type 0
Short m = length m < 2 ^ 32

-- The bytes of `htonl(n)` in memory.
pub htonl : ℕ → List ℕ
htonl n = (n / 2 ^ 24 % 256) ∷ (n / 2 ^ 16 % 256) ∷ (n / 2 ^ 8 % 256) ∷ (n % 256) ∷ []

-- `ntohl` of four bytes in memory.
pub ntohl : List ℕ → ℕ
ntohl (a ∷ b ∷ c ∷ d ∷ []) = ((a * 256 + b) * 256 + c) * 256 + d
ntohl _ = 0

pub frame : Message → List ℕ
unfolding htonl
frame m = htonl (length m % 2 ^ 32) ++ m

ntohl-htonl : (n : ℕ) → n < 2 ^ 32 → ntohl (htonl n) ≡ n
unfolding ntohl htonl
ntohl-htonl n h = omega arith

module _ (c : Channel) where
  open c use {Stream, pending, read, write, pending-write, read_enough, read_short}

  -- The two writes of a length and a message.
  pub write_message : Message → Stream → Stream
  unfolding htonl
  write_message m s = write m (write (htonl (length m % 2 ^ 32)) s)

  -- The two reads of the listener.
  pub read_message : Stream → Option (Message × Stream)
  unfolding ntohl
  read_message s = do (len, s') ← read 4 s; read (ntohl len) s'

  pub pending-write_message :
      (m : Message) (s : Stream) → pending (write_message m s) ≡ pending s ++ frame m
  unfolding write_message frame
  pending-write_message m s =
      pending-write m (write (htonl (length m % 2 ^ 32)) s)
      ∙ ap (λ (x : List ℕ). x ++ m) (pending-write (htonl (length m % 2 ^ 32)) s)
      ∙ append_assoc (pending s) (htonl (length m % 2 ^ 32)) m

  abbrev Reads : ℕ → Stream → List ℕ → List ℕ → Type 0
  Reads n s got rest = (s' : Stream) × (read n s ≡ some (got, s')) × (pending s' ≡ rest)

  read_front :
      (xs rest : List ℕ) (n : ℕ) (s : Stream)
      → n ≡ length xs
      → pending s ≡ xs ++ rest
      → Reads n s xs rest
  read_front xs rest n s e p =
      let (s', got, left) =
        read_enough n s (omega (arith, e, ap length p, length-append xs rest)) in
      (
        s',
        got ∙ rw (p, e) (ap (λ (x : List ℕ). some (x, s')) (take-append xs rest)),
        left ∙ rw (p, e) (drop-append xs rest),
      )

  -- A message shorter than 2³² bytes that stands whole at the front of the stream is read as it was
  -- written, and the reads take nothing of what comes behind it.
  pub read_message-frame :
      (m : Message) (rest : List ℕ) (s : Stream)
      → length m < 2 ^ 32
      → pending s ≡ frame m ++ rest
      → (s' : Stream) × (read_message s ≡ some (m, s')) × (pending s' ≡ rest)
  unfolding read_message frame
  read_message-frame m rest s short p =
      let (s1, got, left) = read_front (htonl (length m % 2 ^ 32)) (m ++ rest) 4 s refl p in
      let (s2, got', left') =
        read_front m rest (ntohl (htonl (length m % 2 ^ 32))) s1
          (ntohl-htonl (length m % 2 ^ 32) (omega arith) ∙ omega arith) left in
      (s2, rw (got, got'), left')

  abbrev pub write_all : List Message → Stream → Stream
  write_all [] s = s
  write_all (m ∷ ms) s = write_all ms (write_message m s)

  pub read_all : ℕ → Stream → Option (List Message × Stream)
  unfolding read_message
  read_all zero s = some ([], s)
  read_all (suc n) s = do (m, s') ← read_message s; (ms, s'') ← read_all n s'; some (m ∷ ms, s'')

  abbrev frames : List Message → List ℕ
  frames [] = []
  frames (m ∷ ms) = frame m ++ frames ms

  pending-write_all :
      (ms : List Message) (s : Stream) → pending (write_all ms s) ≡ pending s ++ frames ms
  pending-write_all [] s = sym (append-nil (pending s))
  pending-write_all (m ∷ ms) s =
      pending-write_all ms (write_message m s)
      ∙ ap (λ (x : List ℕ). x ++ frames ms) (pending-write_message m s)
      ∙ append_assoc (pending s) (frame m) (frames ms)

  read_all-frames :
      (ms : List Message) (s : Stream)
      → All Short ms
      → pending s ≡ frames ms
      → (s' : Stream) × (read_all (length ms) s ≡ some (ms, s')) × (pending s' ≡ [])
  unfolding read_all
  read_all-frames [] s h p = (s, refl, p)
  read_all-frames (m ∷ ms) s h p =
      let (s1, got, left) = read_message-frame m (frames ms) s h.0 p in
      let (s2, got', left') = read_all-frames ms s1 h.1 left in (s2, rw (got, got'), left')

  -- What one end writes the other end reads: messages shorter than 2³² bytes come out one by one,
  -- as they were written and in that order, with nothing left over.
  pub read_all-write_all :
      (ms : List Message) (s : Stream)
      → All (λ m. length m < 2 ^ 32) ms
      → pending s ≡ []
      → (t : Stream) × (read_all (length ms) (write_all ms s) ≡ some (ms, t)) × (pending t ≡ [])
  read_all-write_all ms s h p =
      read_all-frames ms (write_all ms s) h
        (pending-write_all ms s ∙ ap (λ (x : List ℕ). x ++ frames ms) p)

  -- Nothing can be read of a stream with nothing in it.
  pub read_message-nil : (s : Stream) → pending s ≡ [] → read_message s ≡ none
  unfolding read_message
  read_message-nil s e = rw (read_short 4 s (omega (arith, ap length e)))

  -- A message that is alone in the stream is what is read.
  pub read_message-one :
      (m got : Message) (s s' : Stream)
      → length m < 2 ^ 32
      → pending s ≡ frame m
      → read_message s ≡ some (got, s')
      → (got ≡ m) × (pending s' ≡ [])
  read_message-one m got s s' short p e =
      let (t, read_it, left) = read_message-frame m [] s short (p ∙ sym (append-nil (frame m))) in
      ground (arith, read_it)
