-- ===== src/Registry/Table.antt =====
-- The table of clients: what the messages of one client change of it.
use memory_aware_governor.Base.{
  ℕ, ◌≡◌, ◌≢◌, refl, sym, ◌∙◌, ap, false, Option, none, some, List, [], ◌∷◌, ◌==◌, if◌then◌else◌,
  if_true, if_false, inl, inr, Bool-cases, Option-cases, ==→eq, eq→==, ne→==,
}
use memory_aware_governor.Base.Int.{ℤ}
use memory_aware_governor.Protocol.{
  Message, MessageType, register, report_size, shrink, grow, ack, heartbeat, unknown,
}
use memory_aware_governor.Registry.{
  Registry, ClientInfo, Clients, ReadResult, find_client, put_client, erase_client, update_info,
  update_found, update_client, remove_client, handle_client_message,
}
use memory_aware_governor.Registry.Reading.{
  Delivery, apply_all, delivery_results, ending_result, Ending, caught_up, broken_off, closed_off,
  handle_client_message-deliveries,
}

pub find_client-put_client :
    (fd : ℕ) (info : ClientInfo) (cs : Clients) → find_client fd (put_client fd info cs) ≡ some info
find_client-put_client fd info [] = if_true _ _ _ _ (eq→== fd fd refl) refl
find_client-put_client fd info ((key, old) ∷ cs) = elim (Bool-cases (key == fd)) [
  | inl e ↦ rw e (if_true _ _ _ _ e refl)
  | inr e ↦ rw e (if_false _ _ _ _ e (find_client-put_client fd info cs))
]

pub find_client-put_other :
    (fd other : ℕ) (info : ClientInfo) (cs : Clients)
    → other ≢ fd
    → find_client other (put_client fd info cs) ≡ find_client other cs
find_client-put_other fd other info [] ne = if_false _ _ _ _ (ne→== fd other (λ e. ne (sym e))) refl
find_client-put_other fd other info ((key, old) ∷ cs) ne = elim (Bool-cases (key == fd)) [
  | inl e ↦
      let differs : (key == other) ≡ false = ne→== key other (λ f. ne (sym f ∙ ==→eq key fd e)) in
      rw e (if_false _ _ _ _ differs (sym (if_false _ _ _ _ differs refl)))
  | inr e ↦ rw e (
      ap (λ (o : Option ClientInfo). if key == other then some old else o)
        (find_client-put_other fd other info cs ne))
]

pub find_client-erase_client : (fd : ℕ) (cs : Clients) → find_client fd (erase_client fd cs) ≡ none
find_client-erase_client fd [] = refl
find_client-erase_client fd ((key, old) ∷ cs) = elim (Bool-cases (key == fd)) [
  | inl e ↦ rw e (find_client-erase_client fd cs)
  | inr e ↦ rw e (if_false _ _ _ _ e (find_client-erase_client fd cs))
]

-- What a message says of the size of its client and of its process, if it does.
abbrev pub size_said : MessageType → ℕ → ℕ → ℕ
size_said register said size = said
size_said report_size said size = said
size_said _ said size = size

abbrev pub pid_said : MessageType → ℤ → ℤ → ℤ
pid_said register said pid = said
pid_said _ said pid = pid

-- The last size and the last process that some deliveries say, and the old ones if they say none.
abbrev pub last_size : List Delivery → ℕ → ℕ
last_size [] size = size
last_size (d ∷ ds) size = last_size ds (size_said d.message.type d.message.current_size_bytes size)

abbrev pub last_pid : List Delivery → ℤ → ℤ
last_pid [] pid = pid
last_pid (d ∷ ds) pid = last_pid ds (pid_said d.message.type d.message.pid pid)

-- An entry with the last size and process that were said.
abbrev pub updated : List Delivery → ClientInfo → ClientInfo
updated ds info = record info {
  current_size_bytes = last_size ds info.current_size_bytes;
  pid = last_pid ds info.pid;
}

update_info-said :
    (m : Message) (info : ClientInfo)
    → update_info m info ≡ record info {
      current_size_bytes = size_said m.type m.current_size_bytes info.current_size_bytes;
      pid = pid_said m.type m.pid info.pid;
    }
update_info-said m info = by_type m.type
  where
    by_type :
        (t : MessageType)
        → update_info (record m { type = t }) info ≡ record info {
          current_size_bytes = size_said t m.current_size_bytes info.current_size_bytes;
          pid = pid_said t m.pid info.pid;
        }
    by_type register = refl
    by_type report_size = refl
    by_type shrink = refl
    by_type grow = refl
    by_type ack = refl
    by_type heartbeat = refl
    by_type unknown = refl

find_client-update_client :
    (fd : ℕ) (m : Message) (r : Registry) (info : ClientInfo)
    → find_client fd r.clients ≡ some info
    → find_client fd (update_client fd m r).clients ≡ some (update_info m info)
find_client-update_client fd m r info e =
    ap (λ (o : Option ClientInfo). find_client fd (update_found fd m r o).clients) e
    ∙ find_client-put_client fd (update_info m info) r.clients

find_client-update_other :
    (fd other : ℕ) (m : Message) (r : Registry)
    → other ≢ fd
    → find_client other (update_client fd m r).clients ≡ find_client other r.clients
find_client-update_other fd other m r ne = elim (Option-cases (find_client fd r.clients)) [
  | inl e ↦ ap (λ (o : Option ClientInfo). find_client other (update_found fd m r o).clients) e
  | inr (info, e) ↦
      ap (λ (o : Option ClientInfo). find_client other (update_found fd m r o).clients) e
      ∙ find_client-put_other fd other (update_info m info) r.clients ne
]

pub find_client-apply_all :
    (fd : ℕ) (ds : List Delivery) (r : Registry) (info : ClientInfo)
    → find_client fd r.clients ≡ some info
    → find_client fd (apply_all fd ds r).clients ≡ some (updated ds info)
find_client-apply_all fd [] r info e = e
find_client-apply_all fd (d ∷ ds) r info e =
    find_client-apply_all fd ds (update_client fd d.message r)
      (record info {
        current_size_bytes =
            size_said d.message.type d.message.current_size_bytes info.current_size_bytes;
        pid = pid_said d.message.type d.message.pid info.pid;
      })
      (find_client-update_client fd d.message r info e ∙ ap some (update_info-said d.message info))

find_client-apply_other :
    (fd other : ℕ) (ds : List Delivery) (r : Registry)
    → other ≢ fd
    → find_client other (apply_all fd ds r).clients ≡ find_client other r.clients
find_client-apply_other fd other [] r ne = refl
find_client-apply_other fd other (d ∷ ds) r ne =
    find_client-apply_other fd other ds (update_client fd d.message r) ne
    ∙ find_client-update_other fd other d.message r ne

-- If a connected client has sent any number of framed messages whose numbers are in range, each
-- header in one read and each payload in any number of pieces, with EAGAIN any number of times
-- before a piece, and the socket is then empty, handle_client_message comes to its end; the entry
-- of the client then has the last size that a REGISTER or REPORT_SIZE says and the last process
-- that a REGISTER says, and its old ones where none says one; the entry of any other descriptor
-- is as before.
pub messages_applied :
    (fd : ℕ) (ds : List Delivery) (rest : List ReadResult) (r : Registry) (info : ClientInfo)
    (other : ℕ)
    → find_client fd r.clients ≡ some info
    → other ≢ fd
    → (after : Registry) × (handle_client_message fd
          (delivery_results ds (ending_result caught_up ∷ rest))
          r
        ≡ some after)
      × (find_client fd after.clients ≡ some (updated ds info))
      × (find_client other after.clients ≡ find_client other r.clients)
messages_applied fd ds rest r info other e ne = (
  apply_all fd ds r,
  handle_client_message-deliveries fd ds caught_up rest r,
  find_client-apply_all fd ds r info e,
  find_client-apply_other fd other ds r ne,
)

find_client-erase_other :
    (fd other : ℕ) (cs : Clients)
    → other ≢ fd
    → find_client other (erase_client fd cs) ≡ find_client other cs
find_client-erase_other fd other [] ne = refl
find_client-erase_other fd other ((key, old) ∷ cs) ne = elim (Bool-cases (key == fd)) [
  | inl e ↦
      let differs : (key == other) ≡ false = ne→== key other (λ f. ne (sym f ∙ ==→eq key fd e)) in
      rw e (find_client-erase_other fd other cs ne ∙ sym (if_false _ _ _ _ differs refl))
  | inr e ↦ rw e (
      ap (λ (o : Option ClientInfo). if key == other then some old else o)
        (find_client-erase_other fd other cs ne))
]

removed : (fd : ℕ) (r : Registry) → find_client fd (remove_client fd r).clients ≡ none
unfolding remove_client
removed fd r = elim (Option-cases (find_client fd r.clients)) [
  | inl e ↦ rw (e, remove_client) e
  | inr (info, e) ↦ rw (e, remove_client) (find_client-erase_client fd r.clients)
]

kept :
    (fd other : ℕ) (r : Registry)
    → other ≢ fd
    → find_client other (remove_client fd r).clients ≡ find_client other r.clients
unfolding remove_client
kept fd other r ne = elim (Option-cases (find_client fd r.clients)) [
  | inl e ↦ rw (e, remove_client) refl
  | inr (info, e) ↦ rw (e, remove_client) (find_client-erase_other fd other r.clients ne)
]

-- If the stream of a client ends or fails behind any number of framed messages whose numbers are
-- in range, delivered as for messages_applied, handle_client_message comes to its end without the
-- client in the table, and the entry of any other descriptor is as before.
pub lost_removed :
    (fd : ℕ) (ds : List Delivery) (e : Ending) (rest : List ReadResult) (r : Registry) (other : ℕ)
    → e ≢ caught_up
    → other ≢ fd
    → (after : Registry) × (handle_client_message fd
          (delivery_results ds (ending_result e ∷ rest))
          r
        ≡ some after)
      × (find_client fd after.clients ≡ none)
      × (find_client other after.clients ≡ find_client other r.clients)
lost_removed fd ds caught_up rest r other ne away = absurd (ne refl)
lost_removed fd ds broken_off rest r other ne other_ne = (
  remove_client fd (apply_all fd ds r),
  handle_client_message-deliveries fd ds broken_off rest r,
  removed fd (apply_all fd ds r),
  kept fd other (apply_all fd ds r) other_ne ∙ find_client-apply_other fd other ds r other_ne,
)
lost_removed fd ds closed_off rest r other ne other_ne = (
  remove_client fd (apply_all fd ds r),
  handle_client_message-deliveries fd ds closed_off rest r,
  removed fd (apply_all fd ds r),
  kept fd other (apply_all fd ds r) other_ne ∙ find_client-apply_other fd other ds r other_ne,
)
