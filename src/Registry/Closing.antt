-- ===== src/Registry/Closing.antt =====
-- Every descriptor that `ClientRegistry` opens is closed once (src/governor/client_registry.cpp).
use mathlib.Core.Path.{subst}
use memory_aware_governor.Base.{
  ℕ, ◌+◌, ◌≤◌, ◌≡◌, refl, sym, ◌∙◌, ap, true, false, Option, none, some, List, [], ◌∷◌, ◌==◌, arith,
  count, if◌then◌else◌, if_true, if_false, inl, inr, Bool-cases, Option-cases, ==→eq, ◌⊎◌,
}
use memory_aware_governor.Protocol.{Message}
use memory_aware_governor.Registry.{
  Registry, ClientInfo, Clients, find_client, put_client, erase_client, remove_client, new_registry,
  new_info, add_client, drop_connection, update_info, update_found, update_client,
}
use memory_aware_governor.Registry.Handlers.{
  After, Fresh, FreshRun, handle_event-keeps, run_event_loop-keeps,
}
use memory_aware_governor.Registry.Invariant.{keys}
use memory_aware_governor.Registry.Server.{
  Event, handle_event, Wait, StartCalls, start, stop, close_fd, close_clients, run_event_loop,
}

abbrev pub held : ℕ → Option ℕ → ℕ
held p none = 0
held p (some fd) = if fd == p then 1 else 0

held_same : (fd p : ℕ) → fd == p ≡ true → held p (some fd) ≡ 1
held_same fd p e = if_true _ _ _ _ e refl

held_other : (fd p : ℕ) → fd == p ≡ false → held p (some fd) ≡ 0
held_other fd p e = if_false _ _ _ _ e refl

-- The server runs, no client stands in the table twice, and a descriptor was opened as often as it is in
-- use or was closed.
pub record Accounted (r : Registry) : Type 0 where
  pub up : r.running ≡ true
  pub distinct : (p : ℕ) → count p (keys r.clients) ≤ 1
  pub kept :
      (p : ℕ)
      → count p (keys r.clients) + held p r.listen_fd + held p r.epoll_fd + count p r.closed
        ≡ count p r.opened

absent : (fd : ℕ) (cs : Clients) → find_client fd cs ≡ none → count fd (keys cs) ≡ 0
absent fd [] h = refl
absent fd ((key, info) ∷ cs) h = elim (Bool-cases (key == fd)) [
  | inl e ↦ cc (sym (if_true _ _ _ _ e refl) ∙ h)
  | inr e ↦ rw e (let ih = absent fd cs (sym (if_false _ _ _ _ e refl) ∙ h) in omega (arith, ih))
]

present :
    (fd : ℕ) (cs : Clients) (info : ClientInfo)
    → find_client fd cs ≡ some info
    → 1 ≤ count fd (keys cs)
present fd [] info h = cc h
present fd ((key, old) ∷ cs) info h = elim (Bool-cases (key == fd)) [
  | inl e ↦ rw e (omega arith)
  | inr e ↦
      rw e (let ih = present fd cs info (sym (if_false _ _ _ _ e refl) ∙ h) in omega (arith, ih))
]

count-erase :
    (fd p : ℕ) (cs : Clients)
    → count p (keys (erase_client fd cs)) ≡ (if fd == p then 0 else count p (keys cs))
count-erase fd p [] = ground arith
count-erase fd p ((key, info) ∷ cs) = ground (arith, count-erase fd p cs)

keys-put :
    (fd : ℕ) (info old : ClientInfo) (cs : Clients)
    → find_client fd cs ≡ some old
    → keys (put_client fd info cs) ≡ keys cs
keys-put fd info old [] h = cc h
keys-put fd info old ((key, other) ∷ cs) h = elim (Bool-cases (key == fd)) [
  | inl e ↦ rw e refl
  | inr e ↦
      rw e (
        ap (λ (ks : List ℕ). key ∷ ks)
          (keys-put fd info old cs (sym (if_false _ _ _ _ e refl) ∙ h)))
]

count-put :
    (fd p : ℕ) (info : ClientInfo) (cs : Clients)
    → find_client fd cs ≡ none
    → count p (keys (put_client fd info cs)) ≡ held p (some fd) + count p (keys cs)
count-put fd p info [] h = refl
count-put fd p info ((key, old) ∷ cs) h = elim (Bool-cases (key == fd)) [
  | inl e ↦ cc (sym (if_true _ _ _ _ e refl) ∙ h)
  | inr e ↦
      rw e
        (let ih = count-put fd p info cs (sym (if_false _ _ _ _ e refl) ∙ h) in omega (arith, ih))
]

-- One closed descriptor more, and one client less.
erased :
    (fd p : ℕ) (cs : Clients) (info : ClientInfo)
    → find_client fd cs ≡ some info
    → count fd (keys cs) ≤ 1
    → count p (keys (erase_client fd cs)) + held p (some fd) ≡ count p (keys cs)
erased fd p cs info h one = elim (Bool-cases (fd == p)) [
  | inl e ↦
      let same : count fd (keys cs) ≡ count p (keys cs) =
        ap (λ (q : ℕ). count q (keys cs)) (==→eq fd p e) in
      omega (
        arith,
        count-erase fd p cs ∙ if_true _ _ _ _ e refl,
        held_same fd p e,
        same,
        one,
        present fd cs info h,
      )
  | inr e ↦ omega (arith, count-erase fd p cs ∙ if_false _ _ _ _ e refl, held_other fd p e)
]

remove_client-Accounted : (fd : ℕ) (r : Registry) → Accounted r → Accounted (remove_client fd r)
unfolding remove_client
remove_client-Accounted fd r v = elim (Option-cases (find_client fd r.clients)) [
  | inl e ↦ rw (e, remove_client) v
  | inr (info, e) ↦
      rw (e, remove_client)
        (record {
          up = v.up;
          distinct = λ p. omega (arith, v.distinct p, erased fd p r.clients info e (v.distinct fd));
          kept = λ p. omega (arith, v.kept p, erased fd p r.clients info e (v.distinct fd));
        })
]

update_client-Accounted :
    (fd : ℕ) (m : Message) (r : Registry) → Accounted r → Accounted (update_client fd m r)
update_client-Accounted fd m r v = elim (Option-cases (find_client fd r.clients)) [
  | inl e ↦ subst (λ (o : Option ClientInfo). Accounted (update_found fd m r o)) (sym e) v
  | inr (info, e) ↦
      let same = keys-put fd (update_info m info) info r.clients e in
      subst (λ (o : Option ClientInfo). Accounted (update_found fd m r o)) (sym e)
        (record {
          up = v.up;
          distinct = λ p. omega (arith, v.distinct p, ap (count p) same);
          kept = λ p. omega (arith, v.kept p, ap (count p) same);
        })
]

drop_connection-Accounted : (fd : ℕ) (r : Registry) → Accounted r → Accounted (drop_connection fd r)
drop_connection-Accounted fd r v = record {
  up = v.up;
  distinct = v.distinct;
  kept = λ p. omega (arith, v.kept p);
}

add_client-Accounted :
    (fd now : ℕ) (r : Registry)
    → find_client fd r.clients ≡ none
    → Accounted r
    → Accounted (add_client fd now r)
add_client-Accounted fd now r new v = record {
  up = v.up;
  distinct = λ p. one_more p (Bool-cases (fd == p));
  kept = λ p. omega (arith, v.kept p, count-put fd p (new_info fd now) r.clients new);
}
  where
    one_more :
        (p : ℕ)
        → (fd == p ≡ true) ⊎ (fd == p ≡ false)
        → count p (keys (put_client fd (new_info fd now) r.clients)) ≤ 1
    one_more p (inl e) =
        let none_yet = absent fd r.clients new in
        let same : count fd (keys r.clients) ≡ count p (keys r.clients) =
          ap (λ (q : ℕ). count q (keys r.clients)) (==→eq fd p e) in
        omega
          (arith, count-put fd p (new_info fd now) r.clients new, same, none_yet, held_same fd p e)
    one_more p (inr e) =
        omega
          (arith, count-put fd p (new_info fd now) r.clients new, v.distinct p, held_other fd p e)

pub handle_event-Accounted :
    (e : Event) (r : Registry)
    → Fresh e.accepts r
    → Accounted r
    → After Accounted (handle_event e r)
handle_event-Accounted =
    handle_event-keeps Accounted remove_client-Accounted update_client-Accounted
      drop_connection-Accounted add_client-Accounted

pub run_event_loop-Accounted :
    (ws : List Wait) (r : Registry)
    → FreshRun ws r
    → Accounted r
    → After Accounted (run_event_loop ws r)
run_event_loop-Accounted =
    run_event_loop-keeps Accounted remove_client-Accounted update_client-Accounted
      drop_connection-Accounted add_client-Accounted

count-close_clients :
    (p : ℕ) (cs : Clients) (closed : List ℕ)
    → count p (close_clients cs closed) ≡ count p (keys cs) + count p closed
count-close_clients p [] closed = omega arith
count-close_clients p ((fd, info) ∷ cs) closed =
    omega (arith, count-close_clients p cs (fd ∷ closed))

count-close_fd :
    (p : ℕ) (o : Option ℕ) (closed : List ℕ)
    → count p (close_fd o closed) ≡ held p o + count p closed
count-close_fd p none closed = omega arith
count-close_fd p (some fd) closed = omega arith

-- Nothing is in use behind `stop`, and every descriptor was closed as often as it was opened.
pub stop-closes :
    (r : Registry) (p : ℕ) → Accounted r → count p (stop r).closed ≡ count p (stop r).opened
unfolding stop
stop-closes r p v =
    rw (v.up, stop)
      (omega (
        arith,
        v.kept p,
        count-close_clients p r.clients (close_fd r.epoll_fd (close_fd r.listen_fd r.closed)),
        count-close_fd p r.epoll_fd (close_fd r.listen_fd r.closed),
        count-close_fd p r.listen_fd r.closed,
      ))

pub start-Accounted :
    (calls : StartCalls) (fd epoll : ℕ)
    → calls.socket ≡ some fd
    → calls.bind ≡ true
    → calls.listen ≡ true
    → calls.epoll_create ≡ some epoll
    → calls.epoll_ctl ≡ true
    → ((start calls new_registry).1 ≡ none) × Accounted (start calls new_registry).0
unfolding start
start-Accounted calls fd epoll socket bind listen create ctl =
    rw (socket, bind, listen, create, ctl)
      (refl, record { up = refl; distinct = λ p. omega arith; kept = λ p. omega arith })
