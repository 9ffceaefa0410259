-- ===== src/System/Reports.antt =====
-- From the reports of a client to the table of the daemon: src/client/governor_client.cpp and
-- src/governor/client_registry.cpp together.
use memory_aware_governor.Base.{
  ℕ, suc, arith, ◌≡◌, refl, sym, ◌∙◌, ap, true, Option, some, List, [], ◌∷◌, ◌++◌, map, length,
  ++-assoc, append_nil, >>=-some, ◌>>=◌,
}
use memory_aware_governor.Base.Int.{ℤ}
use memory_aware_governor.Text.{Text}
use memory_aware_governor.Protocol.{Message, frame}
use memory_aware_governor.Protocol.Roundtrip.{InRange}
use memory_aware_governor.Protocol.Framing.{payload, header, frame-header}
use memory_aware_governor.Client.{Client, WriteResult, register_cache, report_size}
use memory_aware_governor.Client.Sending.{
  register_message, report_message, Takes, add_sent, send_message-whole,
}
use memory_aware_governor.Registry.{
  Registry, ClientInfo, ReadResult, find_client, handle_client_message,
}
use memory_aware_governor.Registry.Reading.{
  Piece, piece_text, Delivery, delivery_results, ending_result, caught_up,
}
use memory_aware_governor.Registry.Table.{last_size, last_pid, updated, messages_applied}

-- A message with a size on its way: the results of the writes of the client, which take the whole of
-- it, and the pieces in which the daemon reads the payload.
pub record Sent (say : ℕ → Message) : Type 0 where
  pub size : ℕ
  pub writes : List WriteResult
  pub pieces : List Piece
  pub in_range : InRange (say size)
  pub taken : Takes (length (frame (say size))) writes
  pub whole : piece_text pieces ≡ payload (say size)

module _ {say : ℕ → Message} where
  abbrev pub delivery : Sent say → Delivery
  delivery s = record {
    message = say s.size;
    pieces = s.pieces;
    in_range = s.in_range;
    whole = s.whole;
  }

-- The bytes of some deliveries.
abbrev pub stream : List Delivery → Text
stream [] = []
stream (d ∷ ds) = (header d.message ++ payload d.message) ++ stream ds

module _ (pid : ℤ) where
  -- One call of `report_size` for each report.
  abbrev pub report_all : List (Sent (report_message pid)) → Client → Option Client
  report_all [] c = some c
  report_all (s ∷ ss) c = do sent ← report_size pid s.size s.writes c; report_all ss sent.0

  -- The registration, and the reports after it.
  abbrev pub talk :
      Sent (register_message pid) → List (Sent (report_message pid)) → Client → Option Client
  talk first reports c = do
    sent ← register_cache pid first.size first.writes c
    report_all reports sent.0

  abbrev pub deliveries :
      Sent (register_message pid) → List (Sent (report_message pid)) → List Delivery
  deliveries first reports = delivery first ∷ map (delivery {say = report_message pid}) reports

  -- The size of the last report.
  abbrev pub last_report : List (Sent (report_message pid)) → ℕ → ℕ
  last_report [] size = size
  last_report (s ∷ ss) size = last_report ss s.size

  sizes_said :
      (ss : List (Sent (report_message pid))) (size : ℕ)
      → last_size (map delivery ss) size ≡ last_report ss size
  sizes_said [] size = refl
  sizes_said (s ∷ ss) size = sizes_said ss s.size

  pid_stays : (ss : List (Sent (report_message pid))) (p : ℤ) → last_pid (map delivery ss) p ≡ p
  pid_stays [] p = refl
  pid_stays (s ∷ ss) p = pid_stays ss p

  add_frame :
      (m : Message) (c : Client)
      → InRange m
      → add_sent (frame m) c ≡ add_sent (header m ++ payload m) c
  add_frame m c h = ap (λ (t : Text). add_sent t c) (frame-header m h)

  reported :
      (ss : List (Sent (report_message pid))) (c : Client)
      → c.connected ≡ true
      → report_all ss c ≡ some (add_sent (stream (map delivery ss)) c)
  unfolding report_size
  reported [] c up = ap (λ (t : Text). some (record c { sent = t })) (sym (append_nil c.sent))
  reported (s ∷ ss) c up =
      let m : Message = report_message pid s.size in
      let c1 : Client = add_sent (header m ++ payload m) c in
      >>=-some (c1, true) _ _ _
        (send_message-whole m s.writes c up s.taken
          ∙ ap (λ (x : Client). some (x, true)) (add_frame m c s.in_range))
        (reported ss c1 up)
      ∙ ap (λ (t : Text). some (record c { sent = t }))
          (++-assoc c.sent (header m ++ payload m) (stream (map delivery ss)))

  pub talked :
      (first : Sent (register_message pid)) (ss : List (Sent (report_message pid))) (c : Client)
      → c.connected ≡ true
      → talk first ss c ≡ some (add_sent (stream (deliveries first ss)) c)
  unfolding register_cache
  talked first ss c up =
      let m : Message = register_message pid first.size in
      let c1 : Client = add_sent (header m ++ payload m) c in
      >>=-some (c1, true) _ _ _
        (send_message-whole m first.writes c up first.taken
          ∙ ap (λ (x : Client). some (x, true)) (add_frame m c first.in_range))
        (reported ss c1 up)
      ∙ ap (λ (t : Text). some (record c { sent = t }))
          (++-assoc c.sent (header m ++ payload m) (stream (map delivery ss)))

  pub entry_said :
      (first : Sent (register_message pid)) (ss : List (Sent (report_message pid)))
      (info : ClientInfo)
      → updated (deliveries first ss) info
        ≡ record info { pid = pid; current_size_bytes = last_report ss first.size }
  entry_said first ss info =
      ap (λ (n : ℕ). record info { current_size_bytes = n; pid = last_pid (map delivery ss) pid })
        (sizes_said ss first.size)
      ∙ ap (λ (p : ℤ). record info { current_size_bytes = last_report ss first.size; pid = p })
          (pid_stays ss pid)

  -- A connected client that registers and then reports sizes, with numbers in range and writes
  -- that take each frame in any number of parts, sends the frames one behind the other; if the
  -- daemon reads those bytes, each header in one read and each payload in any number of pieces,
  -- and has an entry for the connection, handle_client_message comes to its end, and the entry
  -- then has the process of the client and the size reported last.
  pub reports_reach_registry :
      (first : Sent (register_message pid)) (reports : List (Sent (report_message pid)))
      (c : Client) (fd : ℕ) (rest : List ReadResult) (r : Registry) (info : ClientInfo)
      → c.connected ≡ true
      → find_client fd r.clients ≡ some info
      → (after : Registry) × (talk first reports c
          ≡ some (add_sent (stream (deliveries first reports)) c))
        × (handle_client_message fd
              (delivery_results (deliveries first reports) (ending_result caught_up ∷ rest))
              r
            ≡ some after)
        × (find_client fd after.clients
            ≡ some (record info { pid = pid; current_size_bytes = last_report reports first.size }))
  reports_reach_registry first reports c fd rest r info up known =
      let (after, runs, entry, _) =
        messages_applied fd (deliveries first reports) rest r info (suc fd) known
          (λ e. omega (arith, e)) in
      (
        after,
        talked first reports c up,
        runs,
        entry ∙ ap (λ (e : ClientInfo). some e) (entry_said first reports info),
      )
