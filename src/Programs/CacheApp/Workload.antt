-- ===== src/Programs/CacheApp/Workload.antt =====
-- The workload of src/cache_app/main.cpp: the keys, the loop, and what it prints.
--
-- What the clock, the random generators and `new` return in a round of the loop is an argument, with
-- times in nanoseconds. The listener thread that `start` launches shares the cache with the loop: the
-- list of turns says in which order the two pass through their loops, each turn at one stretch. `none`
-- is a fault of the cache, an exception in the listener thread, which ends the process, a listener that
-- waits within its turn, or a loop that still runs at the end of the list. The join of `stop` is taken
-- to end.
use memory_aware_governor.Base.{
  ℕ, zero, suc, ◌+◌, ◌-◌, ◌*◌, ◌/◌, ◌%◌, Bool, ◌&&◌, Option, none, some, List, [], ◌∷◌, ◌++◌, ltb,
  leb, if◌then◌else◌, get_elem?, ◌>>=◌, u64,
}
use memory_aware_governor.Base.Double.{Doubles}
use memory_aware_governor.Base.Int.{ℤ}
use memory_aware_governor.Client.{ConnectCalls, WriteResult}
use memory_aware_governor.Lru.Segment.{Ptr}
use memory_aware_governor.Client.Listener.{
  Loop, Outcome, goes_on, finished, terminated, stuck, listener_round, start_loop,
}
use memory_aware_governor.Client.Listener
use memory_aware_governor.Governed.{
  Governed, new_governed, start, stop, get, put, get_stats, callbacks,
}
use memory_aware_governor.Lru.{Cache}
use memory_aware_governor.Programs.CacheApp.{Config}
use memory_aware_governor.Text.{Text, codes, show}

-- `kChars` without the zero at its end.
abbrev pub chars : Text
chars = codes "0123456789ABCDEFGHIJKLMNOPQRSTUVWXYZabcdefghijklmnopqrstuvwxyz"

-- `picks` are the results of `pick(rng)`; `none` if one is outside of the characters, or missing.
unfoldable pub random_string : ℕ → List ℕ → Option Text
random_string zero picks = some []
random_string (suc length) [] = none
random_string (suc length) (i ∷ picks) = do
  c ← get_elem? chars i
  s ← random_string length picks
  some (c ∷ s)

-- A round of the loop, with the results of its calls in their order: the flag and the clock in the
-- condition, the clock at the start, the draws of `dist_` and of `op_coin`, the address that `new`
-- returns if it is called, and the clock behind the operation and at the throttle.
pub record Round (D : Type 0) : Type 0 where
  pub running : Bool
  pub at_head : ℕ
  pub op_start : ℕ
  pub drawn : ℕ
  pub coin : D
  pub fresh : Ptr
  pub now : ℕ
  pub at_throttle : ℕ

-- A turn of one of the two threads.
pub data Turn (D : Type 0) : Type 0 where
  driver : Round D → Turn D
  listener : Listener.Round → Turn D

-- A printed line, besides the time of day.
pub record Line (D : Type 0) : Type 0 where
  pub cache_size : ℕ
  pub capacity : ℕ
  pub rate : D
  pub ops : ℕ

-- The variables of `main`, and its cache with the state of its listener; the lines and the sleeps in
-- nanoseconds stand in their order.
pub record Driver (D : Type 0) : Type 0 where
  pub shared : Loop (Cache Text Text)
  pub last_report : ℕ
  pub ops_since_report : ℕ
  pub total_ops : ℕ
  pub lines : List (Line D)
  pub slept : List ℕ

abbrev pub governed : {D : Type 0} → Driver D → Governed Text Text
governed s = (s.shared.client, s.shared.owner)

-- `ZipfianGenerator::next` and the key of a round.
abbrev pub next : ℕ → ℕ
next drawn = (drawn + 1) % u64

abbrev pub key_of : ℕ → Text
key_of drawn = codes "key_" ++ show (next drawn)

module _ (d : Doubles) where
  open d use {Double, literal, lt, add, mul, div, of_u64, to_u64}

  -- The weights that the constructor of `ZipfianGenerator` computes, from `1` on; `pow` is the
  -- function of the standard library.
  unfoldable pub weights : (Double → Double → Double) → Double → ℕ → ℕ → List Double
  weights pow alpha i zero = []
  weights pow alpha i (suc n) =
      div (literal 100) (pow (of_u64 (i + 1)) alpha) ∷ weights pow alpha (i + 1) n

  abbrev pub new_driver : Governed Text Text → ℕ → Driver Double
  new_driver cache start_time = record {
    shared = start_loop cache.0 cache.1;
    last_report = start_time;
    ops_since_report = 0;
    total_ops = 0;
    lines = [];
    slept = [];
  }

  module _ (config : Config Double) where
    -- `start_time + std::chrono::seconds(cfg.duration_sec)`
    abbrev pub end_time : ℕ → ℕ
    end_time start_time = start_time + config.duration_sec * 1000000000

    abbrev pub delay_per_op : ℕ
    delay_per_op = if ltb 0 config.ops_per_sec then 1000000000 / config.ops_per_sec else 0

    -- Eighty percent of the operations are reads.
    abbrev pub is_read : Round Double → Bool
    is_read r = lt r.coin (literal 80)

    abbrev pub count : Driver Double → Driver Double
    count s = record s {
      ops_since_report = (s.ops_since_report + 1) % u64;
      total_ops = (s.total_ops + 1) % u64;
    }

    -- Nanoseconds as a floating point number of seconds.
    abbrev pub seconds : ℕ → Double
    seconds ns = div (of_u64 ns) (of_u64 1000000000)

    abbrev pub line : ℕ → Driver Double → Line Double
    line now s =
        let stats = get_stats d (governed s) in
        record {
          cache_size = stats.size;
          capacity = stats.capacity;
          rate = mul stats.rate (literal 10000);
          ops = to_u64 (div (of_u64 s.ops_since_report) (seconds (now - s.last_report)));
        }

    abbrev pub report : ℕ → Driver Double → Driver Double
    report now s =
        if leb config.report_interval ((now - s.last_report) / 1000000000)
        then record s {
          lines = s.lines ++ line now s ∷ [];
          ops_since_report = 0;
          last_report = now;
        }
        else s

    abbrev pub throttle : Round Double → Driver Double → Driver Double
    throttle r s =
        if ltb 0 delay_per_op && ltb (r.at_throttle - r.op_start) delay_per_op
        then record s { slept = s.slept ++ (delay_per_op - (r.at_throttle - r.op_start)) ∷ [] }
        else s

    module _ (dec : Discrete Text) (value_template : Text) where
      abbrev pub operate : Round Double → Governed Text Text → Option (Governed Text Text)
      operate r cache =
          if is_read r
          then (do found ← get dec (key_of r.drawn) cache; some found.1)
          else put dec r.fresh (key_of r.drawn) value_template cache

      abbrev pub in_time : ℕ → Round Double → Bool
      in_time start_time r = r.running && ltb r.at_head (end_time start_time)

      -- The body of the loop behind the operation.
      abbrev pub finish_round : Round Double → Driver Double → Governed Text Text → Driver Double
      finish_round r s (client, cache) = throttle r (
          report r.now
            (count (record s { shared = record (s.shared) { client = client; owner = cache } })))

      -- The body of the loop.
      abbrev pub pass : Round Double → Driver Double → Option (Driver Double)
      pass r s = do cache ← operate r (governed s); some (finish_round r s cache)

      module _ (pid : ℤ) (reports : List WriteResult) where
        -- A turn of the listener; without a connection it has not been started.
        abbrev pub heard : Driver Double → Outcome (Cache Text Text) → Option (Driver Double)
        heard s (goes_on l) = some (record s { shared = l })
        heard s (finished l) = some (record s { shared = l })
        heard s terminated = none
        heard s stuck = none

        abbrev pub hear : Listener.Round → Driver Double → Option (Driver Double)
        hear round s =
            heard s (listener_round (callbacks dec config.entry_size pid reports) round s.shared)

        -- The two loops, up to the end of the one of `main`.
        unfoldable pub workload : ℕ → List (Turn Double) → Driver Double → Option (Driver Double)
        workload start_time [] s = none
        workload start_time (driver r ∷ rest) s =
            if in_time start_time r then pass r s >>= workload start_time rest else some s
        workload start_time (listener round ∷ rest) s = hear round s >>= workload start_time rest

  -- What the summary at the end of `main` prints.
  pub record Summary : Type 0 where
    pub total : ℕ
    pub rate : Double
    pub size : ℕ
    pub capacity : ℕ

  abbrev pub summary : Driver Double → Summary
  summary s =
      let stats = get_stats d (stop (governed s)) in
      record {
        total = s.total_ops;
        rate = mul stats.rate (literal 10000);
        size = stats.size;
        capacity = stats.capacity;
      }

  -- `main` behind the reading of the command line: the cache is started, the template for the values
  -- is made, and the loop runs from the time `start_time` on, beside the listener. `writes` are for the
  -- registration, `reports` for each report of the listener.
  unfoldable pub run_driver :
      Config Double
      → Discrete Text
      → ℤ
      → ConnectCalls
      → List WriteResult
      → List WriteResult
      → List ℕ
      → ℕ
      → List (Turn Double)
      → Option Summary
  run_driver config dec pid calls writes reports picks start_time turns = do
    cache ← start config.entry_size pid calls writes (new_governed config.capacity)
    value_template ← random_string config.entry_size picks
    s ←
        workload config dec value_template pid reports start_time turns
          (new_driver cache start_time)
    some (summary s)
