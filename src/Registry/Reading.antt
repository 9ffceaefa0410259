-- ===== src/Registry/Reading.antt =====
-- The loop of `handle_client_message` on a socket that delivers framed messages, each body in any
-- number of pieces.
use memory_aware_governor.Base.{
  append_nil, ++-assoc, ℕ, zero, suc, ◌+◌, ◌-◌, ◌≤◌, ◌<◌, ◌≡◌, refl, ◌∙◌, ap, sym, Option, none,
  some, List, [], ◌∷◌, ◌++◌, arith, length, length-append, ◌^◌,
}
use memory_aware_governor.Text.{Text, Result, ok, throw, codes}
use memory_aware_governor.Protocol.{Message}
use memory_aware_governor.Protocol.Roundtrip.{InRange, deserialize-serialize}
use memory_aware_governor.Protocol.Framing.{payload, header, length-payload, ntohl-htonl}
use memory_aware_governor.Registry.{
  Registry, ReadResult, bytes, again, error, end_of_stream, Body, complete, broken, read_body,
  receive, update_client, read_messages, handle_client_message, remove_client,
}

-- A piece of a body: how often `read` finds nothing before it, and its bytes, at least one.
pub record Piece : Type 0 where
  pub waits : ℕ
  pub first : ℕ
  pub others : Text

abbrev pub piece_text : List Piece → Text
piece_text [] = []
piece_text (p ∷ ps) = (p.first ∷ p.others) ++ piece_text ps

abbrev pub agains : ℕ → List ReadResult → List ReadResult
agains zero rest = rest
agains (suc n) rest = again ∷ agains n rest

-- The results of `read` for the pieces, and those behind them.
abbrev pub piece_results : List Piece → List ReadResult → List ReadResult
piece_results [] rest = rest
piece_results (p ∷ ps) rest = agains p.waits (bytes (p.first ∷ p.others) ∷ piece_results ps rest)

read_body-agains :
    (n missing : ℕ) (buffer : Text) (rest : List ReadResult)
    → read_body (suc missing) buffer (agains n rest) ≡ read_body (suc missing) buffer rest
read_body-agains zero missing buffer rest = refl
read_body-agains (suc n) missing buffer rest = read_body-agains n missing buffer rest

read_body-pieces :
    (ps : List Piece) (buffer : Text) (rest : List ReadResult)
    → read_body (length (piece_text ps)) buffer (piece_results ps rest)
      ≡ some (complete (buffer ++ piece_text ps) rest)
read_body-pieces [] buffer rest =
    ap (λ (t : Text). some (complete t rest)) (sym (append_nil buffer))
read_body-pieces (p ∷ ps) buffer rest =
    read_body-agains p.waits (length (p.others ++ piece_text ps)) buffer
      (bytes (p.first ∷ p.others) ∷ piece_results ps rest)
    ∙ ap (λ (n : ℕ). read_body n (buffer ++ p.first ∷ p.others) (piece_results ps rest))
        (left (length p.others) (length (piece_text ps)) (length (p.others ++ piece_text ps))
          (length-append p.others (piece_text ps)))
    ∙ read_body-pieces ps (buffer ++ p.first ∷ p.others) rest
    ∙ ap (λ (t : Text). some (complete t rest))
        (++-assoc buffer (p.first ∷ p.others) (piece_text ps))
  where
    left : (a b n : ℕ) → n ≡ a + b → suc n - suc a ≡ b
    left a b n h = omega arith

-- A message on its way: its payload in pieces.
pub record Delivery : Type 0 where
  pub message : Message
  pub pieces : List Piece
  pub in_range : InRange message
  pub whole : piece_text pieces ≡ payload message

-- The results of `read` for the messages, each with its length first, and those behind them.
abbrev pub delivery_results : List Delivery → List ReadResult → List ReadResult
delivery_results [] rest = rest
delivery_results (d ∷ ds) rest =
    bytes (header d.message) ∷ piece_results d.pieces (delivery_results ds rest)

-- The messages applied to the table in their order.
abbrev pub apply_all : ℕ → List Delivery → Registry → Registry
apply_all fd [] r = r
apply_all fd (d ∷ ds) r = apply_all fd ds (update_client fd d.message r)

-- How a call ends: it has read everything, or the client is lost.
pub data Ending : Type 0 where
  caught_up broken_off closed_off : Ending

abbrev pub ending_result : Ending → ReadResult
ending_result caught_up = again
ending_result broken_off = error
ending_result closed_off = end_of_stream

abbrev pub finish : Ending → ℕ → Registry → Registry
finish caught_up fd r = r
finish broken_off fd r = remove_client fd r
finish closed_off fd r = remove_client fd r

receive-payload :
    (fd : ℕ) (m : Message) (r : Registry)
    → InRange m
    → receive fd (payload m) r ≡ update_client fd m r
receive-payload fd m r h =
    ap (λ (res : Result Message). elim res [ throw e ↦ r | ok msg ↦ update_client fd msg r ])
      (deserialize-serialize m (codes "\n") h)

body_read :
    (d : Delivery) (rest : List ReadResult)
    → (n : ℕ) → n ≡ length (payload d.message)
    → read_body n [] (piece_results d.pieces rest) ≡ some (complete (payload d.message) rest)
body_read d rest n h =
    ap (λ (n : ℕ). read_body n [] (piece_results d.pieces rest)) (h ∙ ap length (sym d.whole))
    ∙ read_body-pieces d.pieces [] rest
    ∙ ap (λ (t : Text). some (complete t rest)) d.whole

round :
    (fuel fd : ℕ) (d : Delivery) (rest : List ReadResult) (r : Registry)
    → read_messages (suc fuel) fd (bytes (header d.message) ∷ piece_results d.pieces rest) r
      ≡ read_messages fuel fd rest (update_client fd d.message r)
round fuel fd d rest r =
    ap
      (λ (o : Option Body). elim o [
        | none ↦ none
        | some broken ↦ some (remove_client fd r)
        | some (complete json results) ↦ read_messages fuel fd results (receive fd json r)
      ])
      (body_read d rest _ (ntohl-htonl (length (payload d.message)) (short d)))
    ∙ ap (read_messages fuel fd rest) (receive-payload fd d.message r d.in_range)
  where
    short : (d : Delivery) → length (payload d.message) < 2 ^ 32
    short d = let l = length-payload d.message d.in_range in omega arith

ended :
    (fuel fd : ℕ) (e : Ending) (rest : List ReadResult) (r : Registry)
    → read_messages (suc fuel) fd (ending_result e ∷ rest) r ≡ some (finish e fd r)
ended fuel fd caught_up rest r = refl
ended fuel fd broken_off rest r = refl
ended fuel fd closed_off rest r = refl

deliveries :
    (ds : List Delivery) (fuel fd : ℕ) (e : Ending) (rest : List ReadResult) (r : Registry)
    → length ds < fuel
    → read_messages fuel fd (delivery_results ds (ending_result e ∷ rest)) r
      ≡ some (finish e fd (apply_all fd ds r))
deliveries ds zero fd e rest r h = absurd (omega arith)
deliveries [] (suc fuel) fd e rest r h = ended fuel fd e rest r
deliveries (d ∷ ds) (suc fuel) fd e rest r h =
    round fuel fd d (delivery_results ds (ending_result e ∷ rest)) r
    ∙ deliveries ds fuel fd e rest (update_client fd d.message r) (omega arith)

length-agains : (n : ℕ) (rest : List ReadResult) → length rest ≤ length (agains n rest)
length-agains zero rest = omega arith
length-agains (suc n) rest = omega (arith, length-agains n rest)

length-piece_results :
    (ps : List Piece) (rest : List ReadResult) → length rest ≤ length (piece_results ps rest)
length-piece_results [] rest = omega arith
length-piece_results (p ∷ ps) rest =
    let a = length-agains p.waits (bytes (p.first ∷ p.others) ∷ piece_results ps rest) in
    let b = length-piece_results ps rest in omega arith

length-delivery_results :
    (ds : List Delivery) (rest : List ReadResult)
    → length ds + length rest ≤ length (delivery_results ds rest)
length-delivery_results [] rest = omega arith
length-delivery_results (d ∷ ds) rest =
    let a = length-piece_results d.pieces (delivery_results ds rest) in
    let b = length-delivery_results ds rest in omega arith

-- The call ends, with every message applied to the table in order.
pub handle_client_message-deliveries :
    (fd : ℕ) (ds : List Delivery) (e : Ending) (rest : List ReadResult) (r : Registry)
    → handle_client_message fd (delivery_results ds (ending_result e ∷ rest)) r
      ≡ some (finish e fd (apply_all fd ds r))
unfolding handle_client_message
handle_client_message-deliveries fd ds e rest r =
    let enough = length-delivery_results ds (ending_result e ∷ rest) in
    deliveries ds (length (delivery_results ds (ending_result e ∷ rest))) fd e rest r (omega arith)
