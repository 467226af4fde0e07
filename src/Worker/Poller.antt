-- ===== src/Worker/Poller.antt =====
-- poller.rs. A `Duration` is its nanoseconds; the arithmetic of floating-point numbers, which rounds, is a
-- parameter.
pub mod Runs
use khronos.Prelude.{
  ℕ, zero, suc, ◌+◌, ◌*◌, ◌/◌, ◌^◌, Bool, true, false, Option, none, some, List, [], ◌∷◌, leb,
  if◌then◌else◌,
}
use khronos.Values.{F64, as_u32, as_64}
use khronos.Server.Worker.Handlers.{TaskMessage}

-- f32 and f64, on bit patterns
pub record Floats : Type 0 where
  -- `Duration::mul_f32`, `as_secs_f64` and `from_secs_f64`
  pub mul_f32 : ℕ → ℕ → ℕ
  pub as_secs_f64 : ℕ → F64
  pub from_secs_f64 : F64 → ℕ
  pub mul : F64 → F64 → F64
  pub sub : F64 → F64 → F64
  pub div : F64 → F64 → F64
  pub max : F64 → F64 → F64
  pub u64_as_f64 : ℕ → F64

pub data ConnectionState : Type 0 where
  connected : ConnectionState
  disconnected : ConnectionState

pub record BackoffConfig : Type 0 where
  pub initial : ℕ
  pub max : ℕ
  pub jitter_factor : F64

abbrev f32_two : ℕ
f32_two = 0x40000000

abbrev pub default_config : BackoffConfig
default_config = record {
  initial = 100_000_000;
  max = 30_000_000_000;
  jitter_factor = 0x3fd3333333333333;
}

abbrev pub least : ℕ → ℕ → ℕ
least a b = if leb a b then a else b

module _ (fl : Floats) where
  -- the counter before the call gives the number
  abbrev pub rand_f64 : ℕ → F64
  rand_f64 counter =
      let n = as_64 (counter + 1) in
      let h = as_64 (as_64 (n * 6364136223846793005) + 1) in
      fl.div (fl.u64_as_f64 (h / 2 ^ 33)) (fl.u64_as_f64 0xffffffff)

  -- the loop over `0..exp`
  unfoldable pub grow : BackoffConfig → ℕ → ℕ → ℕ
  grow config zero delay = delay
  grow config (suc exp) delay = grow config exp (least (fl.mul_f32 delay f32_two) config.max)

  unfoldable pub compute : BackoffConfig → ℕ → ℕ → ℕ
  unfolding grow
  compute config counter attempt =
      let delay = fl.as_secs_f64 (grow config (least attempt 16) config.initial) in
      let jitter_range = fl.mul delay config.jitter_factor in
      let jittered = fl.sub delay (fl.mul jitter_range (rand_f64 counter)) in
      fl.from_secs_f64 (fl.max jittered (fl.as_secs_f64 config.initial))

-- what `poll_once` gives: the server's task, none, or an error
pub data PollResult : Type 0 where
  task : TaskMessage → PollResult
  idle : PollResult
  poll_error : PollResult

pub record Poller : Type 0 where
  pub state : ConnectionState
  pub reconnect_attempt : ℕ  -- u32
  pub counter : ℕ  -- the numbers drawn by rand_f64

abbrev pub start : Poller
start = record { state = disconnected; reconnect_attempt = 0; counter = 0 }

-- a round of the loop: what its poll gives, and whether the channel's receiver is there where a task is sent
abbrev pub Round : Type 0
Round = PollResult × Bool

-- what a round does beside the state: a task forwarded to the channel, or a sleep
pub data Action : Type 0 where
  forward : TaskMessage → Action
  sleep : ℕ → Action

module _ (fl : Floats) where
  abbrev pub reset : Poller → Poller
  reset p = record p { state = connected; reconnect_attempt = 0 }

  -- the attempt that the back-off is computed for
  abbrev pub next_attempt : Poller → ℕ
  next_attempt p = elim p.state [ connected ↦ 1 | disconnected ↦ as_u32 (p.reconnect_attempt + 1) ]

  abbrev pub failed : Poller → Poller
  failed p = record {
    state = disconnected;
    reconnect_attempt = next_attempt p;
    counter = p.counter + 1;
  }

  -- the loop: what its rounds do, the state that it leaves, and whether it has ended, which a task that is sent to
  -- a receiver that was dropped brings about
  unfoldable pub run : List Round → Poller → List Action × Poller × Bool
  run [] p = ([], p, false)
  run ((task t, true) ∷ rounds) p =
      let rest = run rounds (reset p) in (forward t ∷ rest.0, rest.1, rest.2)
  run ((task t, false) ∷ rounds) p = ([], reset p, true)
  run ((idle, there) ∷ rounds) p = run rounds (reset p)
  run ((poll_error, there) ∷ rounds) p =
      let rest = run rounds (failed p) in
      (sleep (compute fl default_config p.counter (next_attempt p)) ∷ rest.0, rest.1, rest.2)
