-- ===== src/Registry/Broadcast.antt =====
-- What the clients are sent: the loop of `send_to_client` writes the whole frame in any number of
-- parts, and a broadcast sends each client its command (src/governor/client_registry.cpp).
use mathlib.Core.Path.{subst}
use memory_aware_governor.Base.{
  ℕ, zero, suc, ◌-◌, ◌≡◌, refl, sym, ◌∙◌, ap, Option, none, some, List, [], ◌∷◌, ◌++◌, arith,
  length, >>=-some,
}
use memory_aware_governor.Base.Double.{Doubles}
use memory_aware_governor.Text.{Text}
use memory_aware_governor.Protocol.{Message, frame}
use memory_aware_governor.Registry.{Registry, ClientInfo, Clients}
use memory_aware_governor.Registry.Send.{
  WriteResult, wrote, again, error, split_text, send_loop, send_to_client, send_all, shrink_command,
  grow_command, broadcast_shrink, broadcast_grow,
}

pub split_text-append : (n : ℕ) (s : Text) → (split_text n s).0 ++ (split_text n s).1 ≡ s
split_text-append zero s = refl
split_text-append (suc n) [] = refl
split_text-append (suc n) (c ∷ s) = ap (λ (t : Text). c ∷ t) (split_text-append n s)

pub split_text-length : (n : ℕ) (s : Text) → length (split_text n s).1 ≡ length s - n
split_text-length zero s = omega arith
split_text-length (suc n) [] = omega arith
split_text-length (suc n) (c ∷ s) = split_text-length n s ∙ shift (length s) n
  where
    shift : (a b : ℕ) → a - b ≡ suc a - suc b
    shift a b = omega arith

-- The writes take `n` bytes before one of them fails.
abbrev pub Takes : ℕ → List WriteResult → Type 0
Takes zero results = Unit {0}
Takes (suc n) [] = ⊥
Takes (suc n) (again ∷ rest) = Takes (suc n) rest
Takes (suc n) (error ∷ rest) = ⊥
Takes (suc n) (wrote k ∷ rest) = Takes (suc n - k) rest

pub send_loop-whole :
    (left : Text) (results : List WriteResult)
    → Takes (length left) results
    → send_loop left results ≡ some left
send_loop-whole [] results h = refl
send_loop-whole (c ∷ left) [] h = elim h [ ]
send_loop-whole (c ∷ left) (again ∷ rest) h = send_loop-whole (c ∷ left) rest h
send_loop-whole (c ∷ left) (error ∷ rest) h = elim h [ ]
send_loop-whole (c ∷ left) (wrote n ∷ rest) h =
    ap
      (λ (o : Option Text). elim o [
        | none ↦ none
        | some sent ↦ some ((split_text n (c ∷ left)).0 ++ sent)
      ])
      (send_loop-whole (split_text n (c ∷ left)).1 rest
        (subst (λ (k : ℕ). Takes k rest) (sym (split_text-length n (c ∷ left))) h))
    ∙ ap some (split_text-append n (c ∷ left))

-- Every client can be sent its command.
abbrev pub Reachable : (ClientInfo → Message) → (ℕ → List WriteResult) → Clients → Type 0
Reachable command writes [] = Unit {0}
Reachable command writes ((fd, info) ∷ cs) =
    Takes (length (frame (command info))) (writes fd) × Reachable command writes cs

-- The frame of its command for each client.
abbrev pub frames : (ClientInfo → Message) → Clients → List (ℕ × Text)
frames command [] = []
frames command ((fd, info) ∷ cs) = (fd, frame (command info)) ∷ frames command cs

pub send_all-frames :
    (command : ClientInfo → Message) (writes : ℕ → List WriteResult) (cs : Clients)
    → Reachable command writes cs
    → send_all command writes cs ≡ some (frames command cs)
unfolding send_to_client
send_all-frames command writes [] h = refl
send_all-frames command writes ((fd, info) ∷ cs) h =
    >>=-some (frame (command info)) _ _ _ (send_loop-whole (frame (command info)) (writes fd) h.0)
      (>>=-some (frames command cs) _ _ _ (send_all-frames command writes cs h.1) refl)

module _ (D : Doubles) where
  open D use {Double}

  -- If the writes to each client take the whole of either command, in any number of parts and
  -- with EAGAIN in between, broadcast_shrink and broadcast_grow come to their end and send every
  -- client the whole frame of its command, in the order of the table.
  pub broadcast-frames :
      (fraction : Double) (writes : ℕ → List WriteResult) (r : Registry)
      → Reachable (shrink_command D fraction) writes r.clients
      → Reachable (grow_command D fraction) writes r.clients
      → (broadcast_shrink D fraction writes r ≡ some (frames (shrink_command D fraction) r.clients))
        × (broadcast_grow D fraction writes r ≡ some (frames (grow_command D fraction) r.clients))
  unfolding broadcast_shrink broadcast_grow
  broadcast-frames fraction writes r h k = (
    send_all-frames (shrink_command D fraction) writes r.clients h,
    send_all-frames (grow_command D fraction) writes r.clients k,
  )
