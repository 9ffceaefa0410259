-- ===== src/Registry/Invariant.antt =====
-- The invariant of `ClientRegistry`: the epoll set holds the clients of the table and nothing else, and
-- each entry stands under its own descriptor.
use mathlib.Core.Path.{subst}
use memory_aware_governor.Base.{
  ℕ, ◌≡◌, refl, sym, ◌∙◌, ap, Option, none, some, List, [], ◌∷◌, ◌++◌, ◌==◌, if_true, if_false,
  ==→eq, inl, inr, Bool-cases, Option-cases,
}
use memory_aware_governor.Protocol.{
  MessageType, register, report_size, shrink, grow, ack, heartbeat, unknown, Message,
}
use memory_aware_governor.Registry.{
  Registry, ClientInfo, Clients, find_client, put_client, erase_client, unwatch, remove_client,
  new_registry, new_info, add_client, update_info, update_found, update_client,
}

abbrev pub keys : Clients → List ℕ
keys [] = []
keys ((fd, info) ∷ cs) = fd ∷ keys cs

abbrev pub Keyed : Clients → Type 0
Keyed [] = Unit {0}
Keyed ((key, info) ∷ cs) = (info.fd ≡ key) × Keyed cs

abbrev pub IsRegistry : Registry → Type 0
IsRegistry r = (keys r.clients ≡ r.watched) × Keyed r.clients

keys-erase : (fd : ℕ) (cs : Clients) → keys (erase_client fd cs) ≡ unwatch fd (keys cs)
keys-erase fd [] = refl
keys-erase fd ((key, info) ∷ cs) = elim (Bool-cases (key == fd)) [
  | inl e ↦ rw e (keys-erase fd cs)
  | inr e ↦ rw e (ap (λ (ks : List ℕ). key ∷ ks) (keys-erase fd cs))
]

erase-Keyed : (fd : ℕ) (cs : Clients) → Keyed cs → Keyed (erase_client fd cs)
erase-Keyed fd [] k = tt
erase-Keyed fd ((key, info) ∷ cs) k = elim (Bool-cases (key == fd)) [
  | inl e ↦ rw e (erase-Keyed fd cs k.1)
  | inr e ↦ rw e (k.0, erase-Keyed fd cs k.1)
]

-- The descriptor of an entry that may be missing.
abbrev fd_or : ℕ → Option ClientInfo → ℕ
fd_or fd none = fd
fd_or fd (some info) = info.fd

found-Keyed : (fd : ℕ) (cs : Clients) → Keyed cs → fd_or fd (find_client fd cs) ≡ fd
found-Keyed fd [] k = refl
found-Keyed fd ((key, old) ∷ cs) k = elim (Bool-cases (key == fd)) [
  | inl e ↦ ap (fd_or fd) (if_true _ _ _ _ e refl) ∙ k.0 ∙ ==→eq key fd e
  | inr e ↦ ap (fd_or fd) (if_false _ _ _ _ e refl) ∙ found-Keyed fd cs k.1
]

put-known :
    (fd : ℕ) (info old : ClientInfo) (cs : Clients)
    → info.fd ≡ fd
    → Keyed cs
    → find_client fd cs ≡ some old
    → (keys (put_client fd info cs) ≡ keys cs) × Keyed (put_client fd info cs)
put-known fd info old [] own k e = cc
put-known fd info old ((key, other) ∷ cs) own k e = elim (Bool-cases (key == fd)) [
  | inl h ↦ rw h (refl, (own ∙ sym (==→eq key fd h), k.1))
  | inr h ↦
      let ih = put-known fd info old cs own k.1 (sym (if_false _ _ _ _ h refl) ∙ e) in
      rw h (ap (λ (ks : List ℕ). key ∷ ks) ih.0, (k.0, ih.1))
]

put-new :
    (fd : ℕ) (info : ClientInfo) (cs : Clients)
    → info.fd ≡ fd
    → Keyed cs
    → find_client fd cs ≡ none
    → (keys (put_client fd info cs) ≡ keys cs ++ fd ∷ []) × Keyed (put_client fd info cs)
put-new fd info [] own k e = (refl, (own, tt))
put-new fd info ((key, other) ∷ cs) own k e = elim (Bool-cases (key == fd)) [
  | inl h ↦ cc (sym (if_true _ _ _ _ h refl) ∙ e)
  | inr h ↦
      let ih = put-new fd info cs own k.1 (sym (if_false _ _ _ _ h refl) ∙ e) in
      rw h (ap (λ (ks : List ℕ). key ∷ ks) ih.0, (k.0, ih.1))
]

pub new_registry-IsRegistry : IsRegistry new_registry
new_registry-IsRegistry = (refl, tt)

pub remove_client-IsRegistry :
    (fd : ℕ) (r : Registry) → IsRegistry r → IsRegistry (remove_client fd r)
unfolding remove_client
remove_client-IsRegistry fd r (k, own) = elim (Option-cases (find_client fd r.clients)) [
  | inl e ↦ rw (e, remove_client) (k, own)
  | inr (info, e) ↦
      rw (e, remove_client)
        (keys-erase fd r.clients ∙ ap (unwatch fd) k, erase-Keyed fd r.clients own)
]

update_info-fd : (m : Message) (info : ClientInfo) → (update_info m info).fd ≡ info.fd
update_info-fd m info = by_type m.type
  where
    by_type : (t : MessageType) → (update_info (record m { type = t }) info).fd ≡ info.fd
    by_type register = refl
    by_type report_size = refl
    by_type shrink = refl
    by_type grow = refl
    by_type ack = refl
    by_type heartbeat = refl
    by_type unknown = refl

pub update_client-IsRegistry :
    (fd : ℕ) (m : Message) (r : Registry) → IsRegistry r → IsRegistry (update_client fd m r)
update_client-IsRegistry fd m r (k, own) = elim (Option-cases (find_client fd r.clients)) [
  | inl e ↦ subst (λ (o : Option ClientInfo). IsRegistry (update_found fd m r o)) (sym e) (k, own)
  | inr (info, e) ↦
      let mine : info.fd ≡ fd = sym (ap (fd_or fd) e) ∙ found-Keyed fd r.clients own in
      let known =
        put-known fd (update_info m info) info r.clients (update_info-fd m info ∙ mine) own e in
      subst (λ (o : Option ClientInfo). IsRegistry (update_found fd m r o)) (sym e)
        (known.0 ∙ k, known.1)
]

pub add_client-IsRegistry :
    (fd now : ℕ) (r : Registry)
    → find_client fd r.clients ≡ none
    → IsRegistry r
    → IsRegistry (add_client fd now r)
add_client-IsRegistry fd now r new (k, own) =
    let put = put-new fd (new_info fd now) r.clients refl own new in
    (put.0 ∙ ap (λ (ks : List ℕ). ks ++ fd ∷ []) k, put.1)
