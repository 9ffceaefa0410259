-- ===== src/Registry/Send.antt =====
-- Sending commands to the clients (src/governor/client_registry.cpp).
use memory_aware_governor.Base.{ℕ, zero, suc, Option, none, some, List, [], ◌∷◌, ◌++◌, ◌>>=◌}
use memory_aware_governor.Base.Double.{Doubles}
use memory_aware_governor.Text.{Text}
use memory_aware_governor.Protocol.{shrink, grow, Message, empty_message, frame}
use memory_aware_governor.Registry.{Registry, ClientInfo, Clients}

-- The result of `write`: a number of bytes, `EAGAIN`, or another error.
pub data WriteResult : Type 0 where
  wrote : ℕ → WriteResult
  again error : WriteResult

-- The first `n` bytes, and the others.
abbrev pub split_text : ℕ → Text → Text × Text
split_text zero s = ([], s)
split_text (suc n) [] = ([], [])
split_text (suc n) (c ∷ s) = let parts = split_text n s in (c ∷ parts.0, parts.1)

-- The loop of `send_to_client`: `left` is what is not written yet. The result is what was written.
abbrev pub send_loop : Text → List WriteResult → Option Text
send_loop [] results = some []
send_loop (c ∷ left) [] = none
send_loop (c ∷ left) (again ∷ rest) = send_loop (c ∷ left) rest
send_loop (c ∷ left) (error ∷ rest) = some []
send_loop (c ∷ left) (wrote n ∷ rest) =
    let parts = split_text n (c ∷ left) in
    elim (send_loop parts.1 rest) [ none ↦ none | some sent ↦ some (parts.0 ++ sent) ]

unfoldable pub send_to_client : Message → List WriteResult → Option Text
send_to_client msg results = send_loop (frame msg) results

-- What each client was sent, in the order of the table; `writes` has the results for a descriptor.
abbrev pub send_all :
    (ClientInfo → Message) → (ℕ → List WriteResult) → Clients → Option (List (ℕ × Text))
send_all command writes [] = some []
send_all command writes ((fd, info) ∷ rest) = do
  sent ← send_to_client (command info) (writes fd)
  others ← send_all command writes rest
  some ((fd, sent) ∷ others)

module _ (D : Doubles) where
  open D use {Double, literal, add, sub, mul, of_u64, to_u64}

  abbrev pub shrink_command : Double → ClientInfo → Message
  shrink_command fraction info = record empty_message {
    type = shrink;
    target_bytes = to_u64 (mul (of_u64 info.current_size_bytes) (sub (literal 100) fraction));
  }

  abbrev pub grow_command : Double → ClientInfo → Message
  grow_command fraction info = record empty_message {
    type = grow;
    target_bytes = to_u64 (mul (of_u64 info.current_size_bytes) (add (literal 100) fraction));
  }

  unfoldable pub broadcast_shrink :
      Double → (ℕ → List WriteResult) → Registry → Option (List (ℕ × Text))
  broadcast_shrink fraction writes r = send_all (shrink_command fraction) writes r.clients

  unfoldable pub broadcast_grow :
      Double → (ℕ → List WriteResult) → Registry → Option (List (ℕ × Text))
  broadcast_grow fraction writes r = send_all (grow_command fraction) writes r.clients
