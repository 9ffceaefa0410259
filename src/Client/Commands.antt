-- ===== src/Client/Commands.antt =====
-- A framed message reaches the callbacks of the client, in any number of parts
-- (`listener_loop` of src/client/governor_client.cpp).
use memory_aware_governor.Base.{
  append_nil, ++-assoc, ℕ, ◌+◌, ◌-◌, ◌≤◌, ◌<◌, ◌≡◌, sym, ◌∙◌, ap, true, false, ◌||◌, Option, some,
  List, [], ◌∷◌, ◌++◌, arith, length, length-append, if◌then◌else◌, if_true, if_false, ltb, ◌==◌,
}
use memory_aware_governor.Text.{Text, throw, Error, codes}
use memory_aware_governor.Protocol.{Message, serialize, deserialize, htonl}
use memory_aware_governor.Protocol.Roundtrip.{InRange, deserialize-serialize}
use memory_aware_governor.Protocol.Framing.{payload, length-payload, ntohl-htonl}
use memory_aware_governor.Client.{Callbacks, process_message}
use memory_aware_governor.Client.Listener.{
  Loop, Round, terminated, complete, read_payload, dispatch, after_command, after_payload,
  drop_connection, read_message, listener_round,
}

-- The parts of a text, of at least one byte each, and the results of `read` for them.
abbrev pub parts_text : List (ℕ × Text) → Text
parts_text [] = []
parts_text ((c, t) ∷ ps) = (c ∷ t) ++ parts_text ps

abbrev pub parts_results : List (ℕ × Text) → List (Option Text)
parts_results [] = []
parts_results ((c, t) ∷ ps) = some (c ∷ t) ∷ parts_results ps

read_payload-parts :
    (ps : List (ℕ × Text)) (before : Text)
    → read_payload (length (parts_text ps)) before (parts_results ps)
      ≡ some (complete (before ++ parts_text ps))
read_payload-parts [] before = ap (λ (t : Text). some (complete t)) (sym (append_nil before))
read_payload-parts ((c, t) ∷ ps) before =
    ap (λ (n : ℕ). read_payload n (before ++ c ∷ t) (parts_results ps))
      (left (length t) (length (parts_text ps)) (length (t ++ parts_text ps))
        (length-append t (parts_text ps)))
    ∙ read_payload-parts ps (before ++ c ∷ t)
    ∙ ap (λ (u : Text). some (complete u)) (++-assoc before (c ∷ t) (parts_text ps))
  where
    left : (a b n : ℕ) → n ≡ a + b → n - a ≡ b
    left a b n h = omega arith

sane : (n : ℕ) → 0 < n → n ≤ 65536 → (n == 0 || ltb 65536 n) ≡ false
sane n h k = ground arith

-- A round reads `t`, behind its length.
pub record Reads (round : Round) (t : Text) : Type 0 where
  pub parts : List (ℕ × Text)
  pub head : round.head ≡ some (htonl (length t))
  pub body : round.body ≡ parts_results parts
  pub whole : parts_text parts ≡ t

module _ {S : Type 0} (callbacks : Callbacks S) where
  -- A text of 1 to 65536 bytes, in any number of parts, is given to `deserialize`; if that throws, the
  -- process is terminated.
  pub listener_round-Reads :
      (round : Round) (l : Loop S) (t : Text)
      → l.client.listening ≡ true
      → l.client.connected ≡ true
      → 0 < length t
      → length t ≤ 65536
      → Reads round t
      → listener_round callbacks round l ≡ dispatch callbacks l (deserialize t)
  unfolding listener_round
  listener_round-Reads round l t on up some_bytes few r = if_true _ _ _ _ on (
      if_true _ _ _ _ up (
        ap (λ (h : Option Text). read_message callbacks h round.body l) r.head
        ∙ ap
            (λ (n : ℕ).
              if n == 0 || ltb 65536 n
              then drop_connection callbacks l
              else after_payload callbacks l (read_payload n [] round.body))
            (ntohl-htonl (length t) (omega arith))
        ∙ if_false _ _ _ _ (sane (length t) some_bytes few) (
            ap
              (λ (body : List (Option Text)).
                after_payload callbacks l (read_payload (length t) [] body))
              r.body
            ∙ ap
                (λ (u : Text).
                  after_payload callbacks l (read_payload (length u) [] (parts_results r.parts)))
                (sym r.whole)
            ∙ ap (after_payload callbacks l) (read_payload-parts r.parts [])
            ∙ ap (λ (u : Text). dispatch callbacks l (deserialize u)) r.whole)))

  payload_bytes : (m : Message) → 0 < length (payload m)
  unfolding serialize
  payload_bytes m = omega arith

  -- A round of a connected, listening client that reads the frame of a message whose numbers are
  -- in range, the header in one read and the payload in any number of parts, gives exactly that
  -- message to process_message.
  pub message_dispatched :
      (round : Round) (l : Loop S) (m : Message)
      → l.client.listening ≡ true
      → l.client.connected ≡ true
      → InRange m
      → Reads round (payload m)
      → listener_round callbacks round l
        ≡ after_command callbacks l (process_message callbacks m (l.client, l.owner))
  message_dispatched round l m on up h r =
      let bound = length-payload m h in
      listener_round-Reads round l (payload m) on up (payload_bytes m) (omega arith) r
      ∙ ap (dispatch callbacks l) (deserialize-serialize m (codes "\n") h)

  -- If a round of a connected, listening client reads a text of 1 to 65536 bytes, behind its
  -- length and in any number of parts, that deserialize refuses with an exception, the process is
  -- terminated: nothing catches the exception.
  pub refused_terminates :
      (round : Round) (l : Loop S) (t : Text) (e : Error)
      → l.client.listening ≡ true
      → l.client.connected ≡ true
      → 0 < length t
      → length t ≤ 65536
      → deserialize t ≡ throw e
      → Reads round t
      → listener_round callbacks round l ≡ terminated
  refused_terminates round l t e on up some_bytes few bad r =
      listener_round-Reads round l t on up some_bytes few r ∙ ap (dispatch callbacks l) bad
