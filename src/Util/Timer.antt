-- ===== src/Util/Timer.antt =====
-- Classes `DelayedTick` and `Timer` (shaka/js/shaka-player.compiled.debug.js). The browser runs each
-- timeout at most once, at a time that is up to it; a timeout is known by its number.
use shaka_player_embedded.Base.{
  ℕ, suc, ◌<◌, ◌≡◌, refl, ◌==◌, Bool, true, false, Option, none, some, arith, if◌then◌else◌,
}

-- The timeout that has not been cancelled, its delay, and whether the timer ticks again after it.
pub record Armed : Type 0 where
  pub timeout : ℕ
  pub seconds : ℕ
  pub is_repeated : Bool

-- The timer's tick, and the number of the next timeout that `setTimeout` gives.
pub record Timer : Type 0 where
  pub ticker : Option Armed
  pub next : ℕ

abbrev pub new : ℕ → Timer
new next = record { ticker = none; next = next }

unfoldable pub stop : Timer → Timer
stop t = record t { ticker = none }

-- `tickNow`, which calls the listener once.
unfoldable pub tick_now : Timer → Bool × Timer
tick_now t = (true, stop t)

abbrev pub arm : ℕ → Bool → Timer → Timer
arm seconds is_repeated t = record {
  ticker = some (record { timeout = t.next; seconds = seconds; is_repeated = is_repeated });
  next = suc t.next;
}

unfoldable pub tick_after : ℕ → Timer → Timer
tick_after seconds t = arm seconds false (stop t)

unfoldable pub tick_every : ℕ → Timer → Timer
tick_every seconds t = arm seconds true (stop t)

abbrev pub ticked : Armed → Timer → Timer
ticked a t = if a.is_repeated then arm a.seconds true (stop t) else stop t

-- The browser runs a timeout: whether the listener is called, and the timer after it.
unfoldable pub on_timeout : ℕ → Timer → Bool × Timer
on_timeout i t = elim t.ticker [
  | none ↦ (false, t)
  | some a ↦ if a.timeout == i then (true, ticked a t) else (false, t)
]

pub data Call : Type 0 where
  call_stop call_now : Call
  call_after call_every : ℕ → Call

abbrev pub perform : Call → Timer → Timer
perform call_stop t = stop t
perform call_now t = (tick_now t).1
perform (call_after n) t = tick_after n t
perform (call_every n) t = tick_every n t

-- After any call on a timer, a timeout that was set before the call calls the listener no more.
on_timeout-perform :
    (c : Call) (i : ℕ) (t : Timer) → i < t.next → (on_timeout i (perform c t)).0 ≡ false
unfolding on_timeout stop tick_now tick_after tick_every
on_timeout-perform call_stop i t h = refl
on_timeout-perform call_now i t h = refl
on_timeout-perform (call_after n) i t h = ground arith
on_timeout-perform (call_every n) i t h = ground arith
