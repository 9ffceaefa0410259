-- ===== src/System/Cycle.antt =====
-- A whole turn between a cache and the daemon: the cache reports its size, the daemon asks it to
-- shrink, and the cache does (src/governor/client_registry.cpp, src/client/governor_client.cpp,
-- src/client/governed_cache.cpp).
use memory_aware_governor.Base.{
  ℕ, zero, suc, ◌*◌, ◌/◌, ◌≤◌, ◌<◌, ◌≡◌, refl, sym, ◌∙◌, ap, arith, true, Option, none, some, List,
  [], ◌∷◌, ◌++◌, ++-assoc, append_nil, ◌==◌, if◌then◌else◌, if_true, if_false, inl, inr, Bool-cases,
  >>=-some, ◌>>=◌, u64,
}
use memory_aware_governor.Base.Double.{Doubles}
use memory_aware_governor.Base.Int.{ℤ}
use memory_aware_governor.Text.{Text}
use memory_aware_governor.Protocol.{Message, frame}
use memory_aware_governor.Protocol.Framing.{payload, header, frame-header}
use memory_aware_governor.Protocol.Roundtrip.{InRange}
use memory_aware_governor.Lru.{Cache}
use memory_aware_governor.Lru.Refinement.{Refines}
use memory_aware_governor.Lru.Spec.{Contents, resize_spec}
use memory_aware_governor.Client.{Client}
use memory_aware_governor.Client
use memory_aware_governor.Client.Commands.{Reads, parts_text, parts_results}
use memory_aware_governor.Client.Listener.{Round, Outcome, goes_on, listener_round, start_loop}
use memory_aware_governor.Client.Sending.{register_message, report_message, add_sent}
use memory_aware_governor.Governed.{callbacks}
use memory_aware_governor.Governed.Commands.{Ends}
use memory_aware_governor.Registry.{
  Registry, ClientInfo, Clients, ReadResult, bytes, find_client, handle_client_message,
}
use memory_aware_governor.Registry.Broadcast.{Reachable, frames, send_all-frames, split_text-append}
use memory_aware_governor.Registry.Reading.{
  Piece, piece_text, piece_results, agains, Delivery, delivery_results, apply_all, ending_result,
  caught_up, handle_client_message-deliveries,
}
use memory_aware_governor.Registry.Send.{WriteResult, split_text, shrink_command, broadcast_shrink}
use memory_aware_governor.Registry.Table.{find_client-apply_all}
use memory_aware_governor.System.{shrink_reaches_cache}
use memory_aware_governor.System.Reports.{
  Sent, stream, talk, deliveries, last_report, talked, entry_said,
}

-- What a client was sent by a broadcast.
abbrev pub sent_to : ℕ → List (ℕ × Text) → Option Text
sent_to fd [] = none
sent_to fd ((key, text) ∷ rest) = if key == fd then some text else sent_to fd rest

-- A text as it arrives: in parts of the given sizes, and the rest at once.
abbrev pub arrive : List ℕ → Text → List (ℕ × Text)
arrive cuts [] = []
arrive [] (b ∷ text) = (b, text) ∷ []
arrive (n ∷ cuts) (b ∷ text) = (b, (split_text n text).0) ∷ arrive cuts (split_text n text).1

-- The round of a connected client to which a text is sent: the first four bytes are read at once.
abbrev pub received : List ℕ → Text → Round
received cuts (a ∷ b ∷ c ∷ d ∷ text) = record {
  calls = record { socket = none; connects = true };
  head = some (a ∷ b ∷ c ∷ d ∷ []);
  body = parts_results (arrive cuts text);
}
received cuts text = record {
  calls = record { socket = none; connects = true };
  head = some text;
  body = [];
}

-- The bytes that some results of `read` deliver.
abbrev pub read_bytes : List ReadResult → Text
read_bytes [] = []
read_bytes (bytes text ∷ rest) = text ++ read_bytes rest
read_bytes (_ ∷ rest) = read_bytes rest

arrive-text : (cuts : List ℕ) (text : Text) → parts_text (arrive cuts text) ≡ text
arrive-text [] [] = refl
arrive-text (n ∷ cuts) [] = refl
arrive-text [] (b ∷ text) = ap (λ (t : Text). b ∷ t) (append_nil text)
arrive-text (n ∷ cuts) (b ∷ text) =
    ap (λ (t : Text). b ∷ (split_text n text).0 ++ t) (arrive-text cuts (split_text n text).1)
    ∙ ap (λ (t : Text). b ∷ t) (split_text-append n text)

-- A frame that was sent is read, however it is cut.
frame-Reads :
    (m : Message) (cuts : List ℕ) → InRange m → Reads (received cuts (frame m)) (payload m)
frame-Reads m cuts h = record {
  parts = arrive cuts (payload m);
  head = ap (λ (t : Text). (received cuts t).head) (frame-header m h);
  body = ap (λ (t : Text). (received cuts t).body) (frame-header m h);
  whole = arrive-text cuts (payload m);
}

sent_to-frames :
    (command : ClientInfo → Message) (fd : ℕ) (info : ClientInfo) (cs : Clients)
    → find_client fd cs ≡ some info
    → sent_to fd (frames command cs) ≡ some (frame (command info))
sent_to-frames command fd info [] h = cc
sent_to-frames command fd info ((key, other) ∷ cs) h = elim (Bool-cases (key == fd)) [
  | inl e ↦
      let same : other ≡ info = some_inj (sym (if_true _ _ _ _ e refl) ∙ h) in
      if_true _ _ _ _ e (ap (λ (i : ClientInfo). some (frame (command i))) same)
  | inr e ↦
      if_false _ _ _ _ e (sent_to-frames command fd info cs (sym (if_false _ _ _ _ e refl) ∙ h))
]
  where
    some_inj : {x y : ClientInfo} → ◌≡◌ {A = Option ClientInfo} (some x) (some y) → x ≡ y
    some_inj h = cc h

read_bytes-agains : (n : ℕ) (rest : List ReadResult) → read_bytes (agains n rest) ≡ read_bytes rest
read_bytes-agains zero rest = refl
read_bytes-agains (suc n) rest = read_bytes-agains n rest

read_bytes-piece_results :
    (ps : List Piece) (rest : List ReadResult)
    → read_bytes (piece_results ps rest) ≡ piece_text ps ++ read_bytes rest
read_bytes-piece_results [] rest = refl
read_bytes-piece_results (p ∷ ps) rest =
    read_bytes-agains p.waits (bytes (p.first ∷ p.others) ∷ piece_results ps rest)
    ∙ ap (λ (t : Text). (p.first ∷ p.others) ++ t) (read_bytes-piece_results ps rest)
    ∙ sym (++-assoc (p.first ∷ p.others) (piece_text ps) (read_bytes rest))

-- The daemon reads the bytes of the messages.
read_bytes-deliveries :
    (ds : List Delivery)
    → read_bytes (delivery_results ds (ending_result caught_up ∷ [])) ≡ stream ds
read_bytes-deliveries [] = refl
read_bytes-deliveries (m ∷ ds) =
    ap (λ (t : Text). header m.message ++ t)
      (read_bytes-piece_results m.pieces (delivery_results ds (ending_result caught_up ∷ []))
        ∙ ap (λ (t : Text). t ++ read_bytes (delivery_results ds (ending_result caught_up ∷ [])))
            m.whole
        ∙ ap (λ (t : Text). payload m.message ++ t) (read_bytes-deliveries ds))
    ∙ sym (++-assoc (header m.message) (payload m.message) (stream ds))

module _ (pid : ℤ) (first : Sent (register_message pid))
    (reports : List (Sent (report_message pid))) where
  -- What the daemon reads of the reports of a client: the pieces, and then that there is no more.
  abbrev pub reads : List ReadResult
  reads = delivery_results (deliveries pid first reports) (ending_result caught_up ∷ [])

  -- The client behind its reports.
  abbrev pub reported : Client → Client
  reported c = add_sent (stream (deliveries pid first reports)) c

  -- The size reported last, less the fraction of it.
  abbrev pub target : (d : Doubles) → d.Double → ℕ
  target d fraction =
      d.to_u64
        (d.mul (d.of_u64 (last_report pid reports first.size)) (d.sub (d.literal 100) fraction))

module _ (d : Doubles) {K V : Type 0} (dec : Discrete K) (e : ℕ) (pid : ℤ)
    (first : Sent (register_message pid)) (reports : List (Sent (report_message pid))) where
  open d use {Double}

  -- The client registers and reports its sizes, the daemon reads that and sends its SHRINKs, and the
  -- client reads what has been sent to the descriptor of its connection.
  abbrev pub turn :
      ℕ
      → Double
      → (ℕ → List WriteResult)
      → List ℕ
      → List Client.WriteResult
      → Registry
      → Client
      → Cache K V
      → Option (Outcome (Cache K V))
  turn fd fraction sends cuts writes r c cache = do
    reported ← talk pid first reports c
    after ← handle_client_message fd (reads pid first reports) r
    sent ← broadcast_shrink d fraction sends after
    text ← sent_to fd sent
    some (
        listener_round (callbacks dec e pid writes) (received cuts text)
          (start_loop reported cache))

  -- One turn of a client and the daemon, run one behind the other: the client registers and
  -- reports sizes, as for reports_reach_registry, the daemon reads the bytes that were sent,
  -- broadcasts a SHRINK to all of its clients, and the client reads what was sent to the
  -- descriptor of its connection, with the first four bytes at once and the rest cut anywhere. If
  -- the client is connected and listening, its descriptor has an entry in the table, every client
  -- of the table behind the reports can be sent its command, the target, which is the size
  -- reported last times one less the fraction, is below 2 to the 64, and the cache of the client
  -- stands for some contents, with a size below 2 to the 64, a positive estimate of the bytes of
  -- an entry, a capacity above the quotient of the target by the estimate and a sending of
  -- reports that comes to an end, then the turn ends with a listener that goes on and a cache
  -- that stands for its most recently used entries, as many as the quotient, and whose size times
  -- the estimate is at most the target.
  pub reported_cache_shrinks :
      (fd : ℕ) (info : ClientInfo) (fraction : Double) (sends : ℕ → List WriteResult)
      (cuts : List ℕ) (writes : List Client.WriteResult) (r : Registry) (c : Client)
      (cache : Cache K V) (m : Contents K V)
      → c.connected ≡ true
      → c.listening ≡ true
      → find_client fd r.clients ≡ some info
      → Reachable
          (shrink_command d fraction)
          sends
          (apply_all fd (deliveries pid first reports) r).clients
      → target pid first reports d fraction < u64
      → Refines dec cache m
      → cache.size < u64
      → Ends pid writes (reported pid first reports c)
      → 0 < e
      → target pid first reports d fraction / e < cache.capacity
      → (c1 : Cache K V) × (client1 : Client) × (turn fd fraction sends cuts writes r c cache
          ≡ some (
              goes_on (record (start_loop (reported pid first reports c) cache) {
                client = client1;
                owner = c1;
              })))
        × (c.sent ++ read_bytes (reads pid first reports) ≡ (reported pid first reports c).sent)
        × Refines dec c1 (resize_spec (target pid first reports d fraction / e) m)
        × (c1.size * e ≤ target pid first reports d fraction)
  unfolding broadcast_shrink
  reported_cache_shrinks fd info fraction sends cuts writes r c cache m up on known reach few
        refines small ends pos_e less =
      let ds : List Delivery = deliveries pid first reports in
      let after : Registry = apply_all fd ds r in
      let entry : ClientInfo = record info {
        pid = pid;
        current_size_bytes = last_report pid reports first.size;
      } in
      let command : Message = shrink_command d fraction entry in
      let found : find_client fd after.clients ≡ some entry =
        find_client-apply_all fd ds r info known
        ∙ ap (λ (i : ClientInfo). some i) (entry_said pid first reports info) in
      let round : Round = received cuts (frame command) in
      let (c1, client1, runs, refines1, fits) =
        shrink_reaches_cache d dec e pid writes fraction entry round
          (start_loop (reported pid first reports c) cache) m few on up
          (frame-Reads command cuts (omega arith, few, omega arith, omega arith)) refines small ends
          pos_e less in
      (
        c1,
        client1,
        >>=-some (reported pid first reports c) _ _ _ (talked pid first reports c up) (
            >>=-some after _ _ _ (handle_client_message-deliveries fd ds caught_up [] r) (
              >>=-some (frames (shrink_command d fraction) after.clients) _ _ _
                (send_all-frames (shrink_command d fraction) sends after.clients reach)
                (>>=-some (frame command) _ _ _
                  (sent_to-frames (shrink_command d fraction) fd entry after.clients found)
                  (ap some runs)))),
        ap (λ (t : Text). c.sent ++ t) (read_bytes-deliveries ds),
        refines1,
        fits,
      )
