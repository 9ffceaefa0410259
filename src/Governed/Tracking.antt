-- ===== src/Governed/Tracking.antt =====
-- The cache follows the commands that its listener reads (src/client/governor_client.cpp,
-- src/client/governed_cache.cpp).
use memory_aware_governor.Base.{
  ℕ, ◌/◌, ◌≤◌, ◌<◌, ◌≡◌, refl, ◌∙◌, ap, Bool, true, false, Option, some, List, [], ◌∷◌, map, arith,
  length, ltb, if◌then◌else◌, >>=-some, u64,
}
use memory_aware_governor.Base.Int.{ℤ}
use memory_aware_governor.Protocol.{
  Message, MessageType, register, report_size, shrink, grow, ack, heartbeat, unknown, frame,
}
use memory_aware_governor.Protocol.Roundtrip.{InRange}
use memory_aware_governor.Protocol.Framing.{payload}
use memory_aware_governor.Lru.{Cache}
use memory_aware_governor.Lru.Refinement.{Refines}
use memory_aware_governor.Lru.Refinement.Put.{length-entries}
use memory_aware_governor.Lru.Refinement.Resize.{resize-Refines}
use memory_aware_governor.Lru.Sessions.{take-le}
use memory_aware_governor.Lru.Spec.{Contents, resize_spec}
use memory_aware_governor.Client.{Client, WriteResult, process_message}
use memory_aware_governor.Client
use memory_aware_governor.Client.Commands.{Reads, message_dispatched}
use memory_aware_governor.Client.Listener.{
  Loop, Round, goes_on, and_then, after_command, run_listener,
}
use memory_aware_governor.Client.Sending.{Takes, report_message, add_sent, send_message-whole}
use memory_aware_governor.Governed.{
  size_bytes, apply_capacity, handle_shrink, handle_grow, callbacks,
}
use memory_aware_governor.Governed.Commands.{divide-pos}

-- The writes take the whole report of any size.
abbrev pub Writable : ℤ → List WriteResult → Type 0
Writable pid writes = (n : ℕ) → n < u64 → Takes (length (frame (report_message pid n))) writes

-- A command on its way, and the round of the loop that reads it.
pub record Incoming : Type 0 where
  pub message : Message
  pub round : Round
  pub in_range : InRange message
  pub reads : Reads round (payload message)

module _ {K V : Type 0} where
  -- The contents behind a new capacity, if the test that asks for it holds.
  abbrev pub resized : Bool → ℕ → Contents K V → Contents K V
  resized needed n m = if needed then resize_spec n m else m

  -- What a command promises: `e` is the estimate of the bytes of an entry.
  abbrev pub follow : ℕ → Message → Contents K V → Contents K V
  follow e msg m = elim msg.type [
    | shrink ↦ resized (ltb (msg.target_bytes / e) m.limit) (msg.target_bytes / e) m
    | grow ↦ resized (ltb m.limit (msg.target_bytes / e)) (msg.target_bytes / e) m
    | _ ↦ m
  ]

  abbrev pub follow_all : ℕ → List Message → Contents K V → Contents K V
  follow_all e [] m = m
  follow_all e (msg ∷ msgs) m = follow_all e msgs (follow e msg m)

  resized-le :
      (needed : Bool) (n : ℕ) (m : Contents K V)
      → length (resized needed n m).entries ≤ length m.entries
  unfolding resize_spec
  resized-le true n m = take-le n m.entries
  resized-le false n m = omega arith

  pub follow-le :
      (e : ℕ) (msg : Message) (m : Contents K V)
      → length (follow e msg m).entries ≤ length m.entries
  follow-le e msg m = by_type msg.type
    where
      by_type :
          (t : MessageType)
          → length (follow e (record msg { type = t }) m).entries ≤ length m.entries
      by_type register = omega arith
      by_type report_size = omega arith
      by_type shrink = resized-le (ltb (msg.target_bytes / e) m.limit) (msg.target_bytes / e) m
      by_type grow = resized-le (ltb m.limit (msg.target_bytes / e)) (msg.target_bytes / e) m
      by_type ack = omega arith
      by_type heartbeat = omega arith
      by_type unknown = omega arith

module _ {K V : Type 0} (dec : Discrete K) (e : ℕ) (pid : ℤ) (writes : List WriteResult) where
  -- A connected client and a cache that stands for `m`.
  abbrev pub Tracks : Client → Option (Client × Cache K V) → Contents K V → Type 0
  Tracks client result m =
      (client1 : Client) × (c1 : Cache K V) × (result ≡ some (client1, c1))
      × (client1.connected ≡ true)
      × (client1.listening ≡ client.listening)
      × Refines dec c1 m

  apply_capacity-Tracks :
      (n : ℕ) (client : Client) (c : Cache K V) (m : Contents K V)
      → client.connected ≡ true
      → Refines dec c m
      → length m.entries < u64
      → Writable pid writes
      → Tracks client (apply_capacity dec e pid writes n (client, c)) (resize_spec n m)
  unfolding Client.report_size
  apply_capacity-Tracks n client c m up r few w =
      let (c1, runs, r1) = resize-Refines dec n c m r (omega (arith, length-entries dec c m r)) in
      let report : Message = report_message pid (size_bytes e c1) in
      let sent = send_message-whole report writes client up (w (size_bytes e c1) (omega arith)) in
      (
        add_sent (frame report) client,
        c1,
        >>=-some c1 _ _ _ runs (>>=-some (add_sent (frame report) client, true) _ _ _ sent refl),
        up,
        refl,
        r1,
      )

  resized-Tracks :
      (needed : Bool) (n : ℕ) (client : Client) (c : Cache K V) (m : Contents K V)
      → client.connected ≡ true
      → Refines dec c m
      → length m.entries < u64
      → Writable pid writes
      → Tracks client
          (if needed then apply_capacity dec e pid writes n (client, c) else some (client, c))
          (resized needed n m)
  resized-Tracks true n client c m up r few w = apply_capacity-Tracks n client c m up r few w
  resized-Tracks false n client c m up r few w = (client, c, refl, up, refl, r)

  pub command-Tracks :
      (msg : Message) (client : Client) (c : Cache K V) (m : Contents K V)
      → client.connected ≡ true
      → Refines dec c m
      → length m.entries < u64
      → Writable pid writes
      → 0 < e
      → Tracks client
          (process_message (callbacks dec e pid writes) msg (client, c))
          (follow e msg m)
  unfolding process_message handle_shrink handle_grow
  command-Tracks msg client c m up r few w pos_e = by_type msg.type
    where
      by_type :
          (t : MessageType)
          → Tracks client
              (process_message (callbacks dec e pid writes) (record msg { type = t }) (client, c))
              (follow e (record msg { type = t }) m)
      by_type register = (client, c, refl, up, refl, r)
      by_type report_size = (client, c, refl, up, refl, r)
      by_type shrink =
          let t : ℕ = msg.target_bytes in
          let (client1, c1, runs, up1, on1, r1) =
            resized-Tracks (ltb (t / e) m.limit) (t / e) client c m up r few w in
          (
            client1,
            c1,
            >>=-some (t / e) _ _ _ (divide-pos t e pos_e) (
                ap
                  (λ (n : ℕ).
                    if ltb (t / e) n
                    then apply_capacity dec e pid writes (t / e) (client, c)
                    else some (client, c))
                  r.limit
                ∙ runs),
            up1,
            on1,
            r1,
          )
      by_type grow =
          let t : ℕ = msg.target_bytes in
          let (client1, c1, runs, up1, on1, r1) =
            resized-Tracks (ltb m.limit (t / e)) (t / e) client c m up r few w in
          (
            client1,
            c1,
            >>=-some (t / e) _ _ _ (divide-pos t e pos_e) (
                ap
                  (λ (n : ℕ).
                    if ltb n (t / e)
                    then apply_capacity dec e pid writes (t / e) (client, c)
                    else some (client, c))
                  r.limit
                ∙ runs),
            up1,
            on1,
            r1,
          )
      by_type ack = (client, c, refl, up, refl, r)
      by_type heartbeat = (client, c, refl, up, refl, r)
      by_type unknown = (client, c, refl, up, refl, r)

  -- If a connected, listening client reads the frames of any number of messages whose numbers are
  -- in range, each header in one read and each payload in any number of parts, its writes take
  -- the whole report of any size, its cache stands for some contents of fewer than 2 to the 64
  -- entries and the estimate of the bytes of an entry is positive, then the listener loop goes
  -- on, still connected, with a cache that stands for the contents that have followed the
  -- messages one by one: a SHRINK to fewer entries than the capacity and a GROW to more set the
  -- capacity to the quotient of the target by the estimate and keep the most recently used
  -- entries that fit, and any other message changes nothing.
  pub commands_followed :
      (ins : List Incoming) (l : Loop (Cache K V)) (m : Contents K V)
      → l.client.listening ≡ true
      → l.client.connected ≡ true
      → Refines dec l.owner m
      → length m.entries < u64
      → Writable pid writes
      → 0 < e
      → (l1 : Loop (Cache K V)) × (run_listener
            (callbacks dec e pid writes)
            (map (λ (i : Incoming). i.round) ins)
            l
          ≡ goes_on l1)
        × (l1.client.connected ≡ true)
        × Refines dec l1.owner (follow_all e (map (λ (i : Incoming). i.message) ins) m)
  commands_followed [] l m on up r few w pos_e = (l, refl, up, r)
  commands_followed (i ∷ ins) l m on up r few w pos_e =
      let (client1, c1, runs, up1, on1, r1) =
        command-Tracks i.message l.client l.owner m up r few w pos_e in
      let next : Loop (Cache K V) = record l { client = client1; owner = c1 } in
      let smaller = follow-le e i.message m in
      let (l1, others, up2, r2) =
        commands_followed ins next (follow e i.message m) (on1 ∙ on) up1 r1 (omega arith) w pos_e in
      (
        l1,
        ap
              (and_then (callbacks dec e pid writes)
                (run_listener (callbacks dec e pid writes) (map (λ (i : Incoming). i.round) ins)))
              (message_dispatched (callbacks dec e pid writes) i.round l i.message on up i.in_range
                  i.reads
                ∙ ap (after_command (callbacks dec e pid writes) l) runs)
            ∙ others,
        up2,
        r2,
      )
