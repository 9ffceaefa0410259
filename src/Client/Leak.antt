-- ===== src/Client/Leak.antt =====
-- What a lost connection leaves behind (`listener_loop` and `connect` of src/client/governor_client.cpp).
use memory_aware_governor.Base.{
  ℕ, ◌≡◌, refl, ◌∙◌, ap, true, false, Option, none, some, List, [], ◌∷◌, map, if_true, if_false,
}
use memory_aware_governor.Text.{Text}
use memory_aware_governor.Client.{Callbacks, connect}
use memory_aware_governor.Client.Listener.{
  Loop, Round, goes_on, and_then, after_connect, read_message, drop_connection, listener_round,
  run_listener,
}

-- The read of the length does not return four bytes: an error, the end of the stream or a part.
abbrev pub Lost : Option Text → Type 0
Lost (some (a ∷ b ∷ c ∷ d ∷ [])) = ⊥
Lost _ = Unit {0}

-- A connection to a new socket succeeds, and is lost before a header has been read.
pub record Reconnection : Type 0 where
  pub fd : ℕ
  pub head : Option Text
  pub body : List (Option Text)
  pub lost : Lost head

abbrev pub reconnection_round : Reconnection → Round
reconnection_round a = record {
  calls = record { socket = some a.fd; connects = true };
  head = a.head;
  body = a.body;
}

-- The socket of the last connection.
abbrev pub last_socket : List Reconnection → Option ℕ → Option ℕ
last_socket [] socket = socket
last_socket (a ∷ again) socket = last_socket again (some a.fd)

module _ {S : Type 0} (callbacks : Callbacks S) where
  -- The loop goes on with a disconnected client and that socket: nothing is closed or sent.
  abbrev Leaks : List Round → Loop S → Option ℕ → Type 0
  Leaks rounds l socket =
      (l1 : Loop S) × (run_listener callbacks rounds l ≡ goes_on l1)
      × (l1.client.sock_fd ≡ socket)
      × (l1.client.connected ≡ false)
      × (l1.client.closed ≡ l.client.closed)
      × (l1.client.sent ≡ l.client.sent)

  read_message-Lost :
      (head : Option Text) (body : List (Option Text)) (l : Loop S)
      → Lost head
      → read_message callbacks head body l ≡ drop_connection callbacks l
  read_message-Lost none body l h = refl
  read_message-Lost (some []) body l h = refl
  read_message-Lost (some (a ∷ [])) body l h = refl
  read_message-Lost (some (a ∷ b ∷ [])) body l h = refl
  read_message-Lost (some (a ∷ b ∷ c ∷ [])) body l h = refl
  read_message-Lost (some (a ∷ b ∷ c ∷ d ∷ [])) body l h = elim h [ ]
  read_message-Lost (some (a ∷ b ∷ c ∷ d ∷ e ∷ t)) body l h = refl

  -- The rounds of a disconnected client that connects again and loses the connection at once.
  lost_again :
      (again : List Reconnection) (l : Loop S)
      → l.client.listening ≡ true
      → l.client.connected ≡ false
      → Leaks (map reconnection_round again) l (last_socket again l.client.sock_fd)
  unfolding listener_round connect
  lost_again [] l on down = (l, refl, refl, down, refl, refl)
  lost_again (a ∷ again) l on down =
      let open_ : Loop S = record l {
        client = record (l.client) { sock_fd = some a.fd; connected = true };
        backoff_seconds = 1;
      } in
      let next : Loop S = record open_ { client = record (open_.client) { connected = false } } in
      let (l1, runs, socket, down1, closed, sent) = lost_again again next on refl in
      (
        l1,
        ap (and_then callbacks (run_listener callbacks (map reconnection_round again))) (
              if_true _ _ _ _ on (
                if_false _ _ _ _ down (
                  ap (after_connect callbacks (reconnection_round a) l) (if_false _ _ _ _ down refl)
                  ∙ read_message-Lost a.head a.body open_ a.lost)))
            ∙ runs,
        socket,
        down1,
        closed,
        sent,
      )

  -- If a round of a connected, listening client reads anything but four bytes of a header, and in
  -- any number of rounds behind it a connection to a new socket succeeds and is lost again in the
  -- same way, the listener loop goes on with a disconnected client whose socket is that of the
  -- last connection; but no descriptor has been closed in all these rounds, the sockets of the
  -- lost connections included, and nothing has been sent, so that the cache is not registered
  -- again.
  pub reconnect_leaks :
      (round : Round) (again : List Reconnection) (l : Loop S)
      → l.client.listening ≡ true
      → l.client.connected ≡ true
      → Lost round.head
      → (l1 : Loop S) × (run_listener callbacks (round ∷ map reconnection_round again) l
          ≡ goes_on l1)
        × (l1.client.sock_fd ≡ last_socket again l.client.sock_fd)
        × (l1.client.connected ≡ false)
        × (l1.client.closed ≡ l.client.closed)
        × (l1.client.sent ≡ l.client.sent)
  unfolding listener_round
  reconnect_leaks round again l on up lost =
      let next : Loop S = record l { client = record (l.client) { connected = false } } in
      let (l1, runs, socket, down, closed, sent) = lost_again again next on refl in
      (
        l1,
        ap (and_then callbacks (run_listener callbacks (map reconnection_round again))) (
              if_true _ _ _ _ on
                (if_true _ _ _ _ up (read_message-Lost round.head round.body l lost)))
            ∙ runs,
        socket,
        down,
        closed,
        sent,
      )
