-- ===== src/Transport/Reconnect.antt =====
-- plugin/src/transport/Backoff.ts and ReconnectManager.ts: the retry loop after a disconnect. The
-- loop is cut at its two `await`s, the sleep and the attempt: `phase` is where it waits, and what
-- ends the wait is an event; a timer that is cleared does not fire. Fractions are exact, where
-- JavaScript rounds them to doubles.
pub mod Loop
pub mod Cancel
use Prim.Native.Nat.{◌/◌}
use obsidian_remote_ssh.Prelude.{
  ℕ, ◌+◌, ◌-◌, ◌*◌, min, List, [], ◌∷◌, ◌++◌, Bool, true, false, if◌then◌else◌, ltb, Str, codes,
  Option, none, some,
}
use obsidian_remote_ssh.Transport.Framing.{decimal}

pub record Fraction : Type 0 where
  pub numerator : ℕ
  pub denominator : ℕ

pub record BackoffConfig : Type 0 where
  pub initial_ms : ℕ
  pub multiplier : Fraction
  pub max_ms : ℕ
  pub jitter_pct : Fraction
  pub max_retries : ℕ

abbrev pub default_backoff : BackoffConfig
default_backoff = record {
  initial_ms = 1000;
  multiplier = record { numerator = 3; denominator = 2 };
  max_ms = 30000;
  jitter_pct = record { numerator = 1; denominator = 5 };
  max_retries = 5;
}

-- `Math.max(0, Math.round(a / b))`
abbrev round : ℕ → ℕ → ℕ
round a b = (2 * a + b) / (2 * b)

-- `nextDelay`, with `draw` what `rng()` returns. The nominal delay is a fraction over the
-- multiplier's denominator; a factor below 0 gives a delay of 0, as `Math.max` does.
unfoldable pub next_delay : Option ℕ → BackoffConfig → Fraction → ℕ
next_delay prev_ms cfg draw =
    let m = cfg.multiplier in
    let j = cfg.jitter_pct in
    let nominal : ℕ = elim prev_ms [
      | none ↦ cfg.initial_ms * m.denominator
      | some prev ↦ min (prev * m.numerator) (cfg.max_ms * m.denominator)
    ] in
    let factor : ℕ =
      (j.denominator * draw.denominator + j.numerator * (2 * draw.numerator))
      - j.numerator * draw.denominator in
    round (nominal * factor) (m.denominator * (j.denominator * draw.denominator))

pub data ReconnectState : Type 0 where
  idle : ReconnectState
  waiting : (attempt total_attempts delay_ms : ℕ) → ReconnectState
  attempting : (attempt total_attempts : ℕ) → ReconnectState
  recovered : ReconnectState
  failed : (reason : Str) → ReconnectState
  cancelled : ReconnectState

-- Where the loop of `run` waits, with `attempt` and `lastDelay`.
pub data Phase : Type 0 where
  not_running : Phase
  sleeping : (attempt last_delay : ℕ) → Phase
  in_attempt : (attempt last_delay : ℕ) → Phase

pub record ReconnectManager : Type 0 where
  pub is_cancelled : Bool
  pub current : ReconnectState
  pub active_timer : Bool
  pub phase : Phase

pub data Event : Type 0 where
  -- `run` is called; the sleep's timer fires; `opts.attempt` resolves or throws; `cancel` is called.
  run : (draw : Fraction) → Event
  timer : Event
  success : Event
  failure : (draw : Fraction) → Event
  cancel : Event

abbrev pub initial : ReconnectManager
initial = record { is_cancelled = false; current = idle; active_timer = false; phase = not_running }

unfoldable pub is_active : ReconnectState → Bool
is_active (waiting _ _ _) = true
is_active (attempting _ _) = true
is_active _ = false

-- `transition`, and the return of `run`.
abbrev pub finish : ReconnectState → ReconnectManager → ReconnectManager
finish s m = record m { current = s; phase = not_running }

-- The loop from its test on, up to the sleep.
unfoldable pub next_attempt :
    BackoffConfig → Fraction → ℕ → Option ℕ → ReconnectManager → ReconnectManager
unfolding next_delay
next_attempt cfg draw attempt last_delay m =
    let delay = next_delay last_delay cfg draw in
    if ltb cfg.max_retries attempt
    then finish (failed (codes "gave up after " ++ (decimal cfg.max_retries ++ codes " attempts")))
        m
    else if m.is_cancelled
    then finish cancelled m
    else record m {
      current = waiting attempt cfg.max_retries delay;
      active_timer = true;
      phase = sleeping attempt delay;
    }

unfoldable pub start_run : BackoffConfig → Fraction → ReconnectManager → ReconnectManager
unfolding next_attempt is_active
start_run cfg draw m =
    if is_active m.current
    then m
    else next_attempt cfg draw 1 none (record m { is_cancelled = false })

-- The callback of `sleep`, and the loop from there to the attempt.
unfoldable pub wake : BackoffConfig → ℕ → ℕ → ReconnectManager → ReconnectManager
wake cfg attempt delay m =
    if m.is_cancelled then finish cancelled (record m { active_timer = false }) else record m {
      current = attempting attempt cfg.max_retries;
      active_timer = false;
      phase = in_attempt attempt delay;
    }

-- A timer that was cleared does not fire. `cancel` clears the timer when it sets the flag, so the test
-- of the flag in `wake` never succeeds; it stands there as in the source.
unfoldable pub on_timer : BackoffConfig → Phase → ReconnectManager → ReconnectManager
unfolding wake
on_timer cfg (sleeping attempt delay) m = if m.active_timer then wake cfg attempt delay m else m
on_timer cfg _ m = m

unfoldable pub on_success : Phase → ReconnectManager → ReconnectManager
on_success (in_attempt attempt delay) m = finish recovered m
on_success _ m = m

unfoldable pub on_failure : BackoffConfig → Fraction → Phase → ReconnectManager → ReconnectManager
unfolding next_attempt
on_failure cfg draw (in_attempt attempt delay) m =
    next_attempt cfg draw (attempt + 1) (some delay) m
on_failure cfg draw _ m = m

unfoldable pub do_cancel : ReconnectManager → ReconnectManager
do_cancel m = record m { is_cancelled = true; active_timer = false }

-- An event; one that cannot happen in the phase changes nothing.
unfoldable pub step : BackoffConfig → Event → ReconnectManager → ReconnectManager
unfolding start_run on_timer on_success on_failure do_cancel
step cfg (run draw) m = start_run cfg draw m
step cfg timer m = on_timer cfg m.phase m
step cfg success m = on_success m.phase m
step cfg (failure draw) m = on_failure cfg draw m.phase m
step cfg cancel m = do_cancel m

unfoldable pub steps : BackoffConfig → List Event → ReconnectManager → ReconnectManager
unfolding step
steps cfg [] m = m
steps cfg (e ∷ es) m = steps cfg es (step cfg e m)
