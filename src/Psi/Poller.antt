-- ===== src/Psi/Poller.antt =====
-- The class `PsiPoller` of src/governor/psi_poller.cpp: its thread, and the loop that the thread runs.
use memory_aware_governor.Base.{Bool, true, false, Option, none, some, List, [], ◌∷◌, if◌then◌else◌}
use memory_aware_governor.Base.Double.{Doubles}
use memory_aware_governor.Psi.{PsiData}
use memory_aware_governor.Psi.Parse.{parse_psi_file}
use memory_aware_governor.Text.{Text, Error, Result, ok, throw}

-- `running_`, whether `thread_` is joinable, and whether the thread is still in its loop.
pub record Poller : Type 0 where
  pub running : Bool
  pub joinable : Bool
  pub in_loop : Bool

abbrev pub new_poller : Poller
new_poller = record { running = false; joinable = false; in_loop = false }

-- `none` if a thread that is joinable is overwritten, which terminates the process.
unfoldable pub start : Poller → Option Poller
start p =
    if p.running
    then some p
    else if p.joinable
    then none
    else some (record { running = true; joinable = true; in_loop = true })

-- `thread_.join()`; `none` while the thread is in its loop.
abbrev pub join : Poller → Option Poller
join p =
    if p.joinable then if p.in_loop then none else some (record p { joinable = false }) else some p

-- `meanwhile` is what the threads do between the exchange of the flag and the join.

-- How the loop, or a round of it, ends: it returns, or an exception of the parser terminates the
-- process, or it has not ended with what it was given, or the callback does not come to its end.
pub data Outcome (A : Type 0) : Type 0 where
  returns : A → Outcome A
  uncaught : Error → Outcome A
  stuck : Outcome A

-- What the loop meets: the flag is down, or it finds the file with a content, or none. What the
-- system calls of the callback return in the round stands beside it.
pub data Round (E : Type 0) : Type 0 where
  stopped : Round E
  polled : Option Text → E → Round E

-- A file that cannot be opened is read as the empty text.
abbrev pub read_file : Option Text → Text
read_file none = []
read_file (some content) = content

-- The other rounds follow if a round returns.
abbrev pub then_loop : {A : Type 0} → (A → Outcome A) → Outcome A → Outcome A
then_loop loop (returns state) = loop state
then_loop loop (uncaught e) = uncaught e
then_loop loop stuck = stuck

module _ (d : Doubles) where
  open d use {Double}

  -- The callback acts on its owner; `none` if it does not come to its end.
  abbrev pub Callback : Type 0 → Type 0 → Type 0
  Callback E S = E → PsiData Double → S → Option S

  -- `latest_data_`, and the owner of the callback.
  abbrev pub State : Type 0 → Type 0
  State S = PsiData Double × S

module _ (d : Doubles) (stod : Text → Result (d.Double)) {E S : Type 0} where
  open d use {Double}

  abbrev pub deliver : PsiData Double → S → Option (Callback d E S) → E → Outcome (State d S)
  deliver data_ s none calls = returns (data_, s)
  deliver data_ s (some cb) calls = elim (cb calls data_ s) [
    | none ↦ stuck
    | some s1 ↦ returns (data_, s1)
  ]

  abbrev pub parsed :
      Option (Callback d E S) → E → S → Result (PsiData Double) → Outcome (State d S)
  parsed callback calls s (throw e) = uncaught e
  parsed callback calls s (ok data_) = deliver data_ s callback calls

  -- The body of the loop; an empty text is passed over.
  unfoldable pub poll_round : Option (Callback d E S) → Text → E → State d S → Outcome (State d S)
  poll_round callback [] calls state = returns state
  poll_round callback (c ∷ content) calls (latest, s) =
      parsed callback calls s (parse_psi_file d stod (c ∷ content))

  unfoldable pub poll_loop :
      Option (Callback d E S) → List (Round E) → State d S → Outcome (State d S)
  poll_loop callback [] state = stuck
  poll_loop callback (stopped ∷ rest) state = returns state
  poll_loop callback (polled content calls ∷ rest) state =
      then_loop (poll_loop callback rest) (poll_round callback (read_file content) calls state)
