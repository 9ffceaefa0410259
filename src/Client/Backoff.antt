-- ===== src/Client/Backoff.antt =====
-- The backoff of the listener thread (`listener_loop` of src/client/governor_client.cpp).
use memory_aware_governor.Base.{
  ℕ, zero, suc, ◌^◌, ◌≡◌, refl, sym, ◌∙◌, ap, true, false, Option, none, some, List, [], ◌∷◌, arith,
  length, if◌then◌else◌, if_true, if_false, ltb, inl, inr, ◌⊎◌,
}
use memory_aware_governor.Client.{Client, Callbacks, ConnectCalls, connect}
use memory_aware_governor.Client.Listener.{
  Loop, Round, goes_on, and_then, after_connect, next_backoff, listener_round, run_listener,
  start_loop,
}

-- The delay after `n` failures in a row, in seconds: it doubles up to 30.
abbrev pub delay : ℕ → ℕ
delay n = if ltb n 5 then 2 ^ n else 30

-- The delays of `k` failures behind `n` others, the last one first.
abbrev pub delays : ℕ → ℕ → List ℕ → List ℕ
delays n zero before = before
delays n (suc k) before = delays (suc n) k (delay n ∷ before)

abbrev pub Fails : Round → Type 0
Fails round = (round.calls.socket ≡ none) ⊎ (round.calls.connects ≡ false)

abbrev pub AllFail : List Round → Type 0
AllFail [] = Unit {0}
AllFail (round ∷ rounds) = Fails round × AllFail rounds

five_up : (n : ℕ) → ltb (suc (suc (suc (suc (suc n))))) 5 ≡ false
five_up n = ground arith

next_backoff-delay : (n : ℕ) → next_backoff (delay n) ≡ delay (suc n)
next_backoff-delay zero = refl
next_backoff-delay (suc zero) = refl
next_backoff-delay (suc (suc zero)) = refl
next_backoff-delay (suc (suc (suc zero))) = refl
next_backoff-delay (suc (suc (suc (suc zero)))) = refl
next_backoff-delay (suc (suc (suc (suc (suc n))))) = ap next_backoff (late n) ∙ sym (late (suc n))
  where
    late : (n : ℕ) → delay (suc (suc (suc (suc (suc n))))) ≡ 30
    late n = if_false _ _ _ _ (five_up n) refl

-- A connection that fails leaves the client disconnected and listening.
connect-Fails :
    (round : Round) (c : Client)
    → Fails round
    → c.connected ≡ false
    → (c1 : Client) × (connect round.calls c ≡ (c1, false))
      × (c1.connected ≡ false)
      × (c1.listening ≡ c.listening)
      × (c1.sent ≡ c.sent)
unfolding connect
connect-Fails round c f down = by_socket round.calls.socket f
  where
    Failed : ConnectCalls → Type 0
    Failed calls =
        (c1 : Client) × (connect calls c ≡ (c1, false))
        × (c1.connected ≡ false)
        × (c1.listening ≡ c.listening)
        × (c1.sent ≡ c.sent)

    by_socket :
        (s : Option ℕ)
        → (s ≡ none) ⊎ (round.calls.connects ≡ false)
        → Failed (record (round.calls) { socket = s })
    by_socket none f = (record c { sock_fd = none }, if_false _ _ _ _ down refl, down, refl, refl)
    by_socket (some fd) (inl e) = cc
    by_socket (some fd) (inr e) = (
      record c { sock_fd = none; closed = fd ∷ c.closed },
      if_false _ _ _ _ down (if_false _ _ _ _ e refl),
      down,
      refl,
      refl,
    )

module _ {S : Type 0} (callbacks : Callbacks S) where
  -- After `k` failures that begin with the delay of `n`.
  failures :
      (rounds : List Round) (n : ℕ) (l : Loop S)
      → AllFail rounds
      → l.client.listening ≡ true
      → l.client.connected ≡ false
      → l.backoff_seconds ≡ delay n
      → (l1 : Loop S) × (run_listener callbacks rounds l ≡ goes_on l1)
        × (l1.slept ≡ delays n (length rounds) l.slept)
        × (l1.owner ≡ l.owner)
        × (l1.client.connected ≡ false)
  unfolding listener_round
  failures [] n l f on down b = (l, refl, refl, refl, down)
  failures (round ∷ rounds) n l f on down b =
      let (c1, e, down1, on1, same) = connect-Fails round l.client f.0 down in
      let l1 : Loop S = record l {
        client = c1;
        slept = l.backoff_seconds ∷ l.slept;
        backoff_seconds = next_backoff l.backoff_seconds;
      } in
      let (l2, run, slept2, owner2, down2) =
        failures rounds (suc n) l1 f.1 (on1 ∙ on) down1
          (ap next_backoff b ∙ next_backoff-delay n) in
      (
        l2,
        ap (and_then callbacks (run_listener callbacks rounds))
              (if_true _ _ _ _ on (if_false _ _ _ _ down (ap (after_connect callbacks round l) e)))
            ∙ run,
        slept2 ∙ ap (λ (d : ℕ). delays (suc n) (length rounds) (d ∷ l.slept)) b,
        owner2,
        down2,
      )

  -- While every attempt to connect fails, the listener loop of a disconnected, listening client
  -- goes on from its start: it sleeps 1, 2, 4, 8, 16 and from then on 30 seconds, stays
  -- disconnected and leaves the owner of the callbacks as it is.
  pub backoff_doubles :
      (rounds : List Round) (c : Client) (s : S)
      → AllFail rounds
      → c.listening ≡ true
      → c.connected ≡ false
      → (l1 : Loop S) × (run_listener callbacks rounds (start_loop c s) ≡ goes_on l1)
        × (l1.slept ≡ delays 0 (length rounds) [])
        × (l1.owner ≡ s)
        × (l1.client.connected ≡ false)
  backoff_doubles rounds c s f on down = failures rounds 0 (start_loop c s) f on down refl
