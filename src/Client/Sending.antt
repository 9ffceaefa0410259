-- ===== src/Client/Sending.antt =====
-- The loop of `send_message` writes the whole frame (src/client/governor_client.cpp).
use mathlib.Core.Path.{subst}
use memory_aware_governor.Base.{
  ℕ, zero, suc, ◌-◌, ◌≡◌, sym, ◌∙◌, ap, true, some, List, [], ◌∷◌, ◌++◌, length, ++-assoc,
  append_nil, if_true,
}
use memory_aware_governor.Text.{Text}
use memory_aware_governor.Base.Int.{ℤ}
use memory_aware_governor.Protocol.{MessageType, register, empty_message, Message, frame}
use memory_aware_governor.Registry.Send.{split_text}
use memory_aware_governor.Registry.Broadcast.{split_text-append, split_text-length}
use memory_aware_governor.Client.{Client, WriteResult, wrote, error, send_loop, send_message}

-- The writes take `n` bytes, each at least one of them.
abbrev pub Takes : ℕ → List WriteResult → Type 0
Takes zero results = Unit {0}
Takes (suc n) [] = ⊥
Takes (suc n) (error ∷ rest) = ⊥
Takes (suc n) (wrote zero ∷ rest) = ⊥
Takes (suc n) (wrote (suc k) ∷ rest) = Takes (n - k) rest

abbrev pub add_sent : Text → Client → Client
add_sent t c = record c { sent = c.sent ++ t }

send_loop-whole :
    (left : Text) (results : List WriteResult) (c : Client)
    → Takes (length left) results
    → send_loop left results c ≡ some (add_sent left c, true)
send_loop-whole [] results c h =
    ap (λ (t : Text). some (record c { sent = t }, true)) (sym (append_nil c.sent))
send_loop-whole (b ∷ left) [] c h = elim h [ ]
send_loop-whole (b ∷ left) (error ∷ rest) c h = elim h [ ]
send_loop-whole (b ∷ left) (wrote zero ∷ rest) c h = elim h [ ]
send_loop-whole (b ∷ left) (wrote (suc n) ∷ rest) c h =
    send_loop-whole (split_text n left).1 rest (add_sent (b ∷ (split_text n left).0) c)
      (subst (λ (k : ℕ). Takes k rest) (sym (split_text-length n left)) h)
    ∙ ap (λ (t : Text). some (record c { sent = t }, true))
        (++-assoc c.sent (b ∷ (split_text n left).0) (split_text n left).1
          ∙ ap (λ (t : Text). c.sent ++ b ∷ t) (split_text-append n left))

pub send_message-whole :
    (m : Message) (results : List WriteResult) (c : Client)
    → c.connected ≡ true
    → Takes (length (frame m)) results
    → send_message m results c ≡ some (add_sent (frame m) c, true)
unfolding send_message
send_message-whole m results c up h = if_true _ _ _ _ up (send_loop-whole (frame m) results c h)

-- The messages of `register_cache` and `report_size`.
module _ (pid : ℤ) where
  abbrev pub register_message : ℕ → Message
  register_message size = record empty_message {
    type = register;
    pid = pid;
    current_size_bytes = size;
  }

  abbrev pub report_message : ℕ → Message
  report_message size = record empty_message {
    type = MessageType.report_size;
    pid = pid;
    current_size_bytes = size;
  }
