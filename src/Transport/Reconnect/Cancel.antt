-- ===== src/Transport/Reconnect/Cancel.antt =====
-- `cancel` of plugin/src/transport/ReconnectManager.ts.
use obsidian_remote_ssh.Prelude.{
  ℕ, ◌+◌, List, [], ◌∷◌, ◌++◌, All, true, false, Bool-cases, inl, inr, if◌then◌else◌, ltb, codes,
  ◌≡◌, refl, ap, arith, ◌∙◌,
}
use obsidian_remote_ssh.Transport.Framing.{decimal}
use obsidian_remote_ssh.Transport.Reconnect.{
  BackoffConfig, Fraction, ReconnectState, failed, cancelled, next_attempt, ReconnectManager,
  sleeping, in_attempt, Event, run, timer, success, failure, cancel, recovered, is_active, step,
  steps, start_run, on_timer, on_success, on_failure, do_cancel,
}

-- The loop sleeps, and the timer that would wake it is gone.
record IsStuck (attempt delay : ℕ) (m : ReconnectManager) : Type 0 where
  asleep : m.phase ≡ sleeping attempt delay
  no_timer : m.active_timer ≡ false
  active : is_active m.current ≡ true

step-IsStuck :
    (cfg : BackoffConfig) (e : Event) (attempt delay : ℕ) (m : ReconnectManager)
    → IsStuck attempt delay m
    → IsStuck attempt delay (step cfg e m) × ((step cfg e m).current ≡ m.current)
unfolding step start_run on_timer on_success on_failure do_cancel
step-IsStuck cfg (run draw) attempt delay m h = ground (arith, h.active, h.asleep, h.no_timer)
step-IsStuck cfg timer attempt delay m h = ground (arith, h.active, h.asleep, h.no_timer)
step-IsStuck cfg success attempt delay m h = ground (arith, h.active, h.asleep, h.no_timer)
step-IsStuck cfg (failure draw) attempt delay m h = ground (arith, h.active, h.asleep, h.no_timer)
step-IsStuck cfg cancel attempt delay m h = ground (arith, h.active, h.asleep, h.no_timer)

steps-IsStuck :
    (cfg : BackoffConfig) (es : List Event) (attempt delay : ℕ) (m : ReconnectManager)
    → IsStuck attempt delay m
    → (steps cfg es m).current ≡ m.current
unfolding steps
steps-IsStuck cfg [] attempt delay m h = refl
steps-IsStuck cfg (e ∷ es) attempt delay m h =
    let next = step-IsStuck cfg e attempt delay m h in
    steps-IsStuck cfg es attempt delay (step cfg e m) next.0 ∙ next.1

-- A `cancel` that comes while the loop sleeps stops the timer and wakes nobody: whatever happens
-- afterwards, further calls of `run` included, the state stays at waiting.
pub steps-cancel_asleep :
    (cfg : BackoffConfig) (es : List Event) (attempt delay : ℕ) (m : ReconnectManager)
    → m.phase ≡ sleeping attempt delay
    → is_active m.current ≡ true
    → (steps cfg (cancel ∷ es) m).current ≡ m.current
unfolding steps step do_cancel
steps-cancel_asleep cfg es attempt delay m p a =
    steps-IsStuck cfg es attempt delay (do_cancel m)
      (record { asleep = p; no_timer = refl; active = a })

-- What the attempt has not ended by.
abbrev pub IsBetween : Event → Type 0
IsBetween success = ⊥
IsBetween (failure draw) = ⊥
IsBetween _ = Unit

-- The attempt goes on, and the flag is set.
record IsAwaited (attempt delay : ℕ) (s : ReconnectState) (m : ReconnectManager) : Type 0 where
  awaited : m.phase ≡ in_attempt attempt delay
  flagged : m.is_cancelled ≡ true
  unchanged : m.current ≡ s

step-IsAwaited :
    (cfg : BackoffConfig) (e : Event) (attempt delay : ℕ) (s : ReconnectState)
    (m : ReconnectManager)
    → is_active s ≡ true
    → IsBetween e
    → IsAwaited attempt delay s m
    → IsAwaited attempt delay s (step cfg e m)
unfolding step start_run on_timer do_cancel
step-IsAwaited cfg (run draw) attempt delay s m a b h =
    let same : is_active m.current ≡ true = ap is_active h.unchanged ∙ a in rw same h
step-IsAwaited cfg timer attempt delay s m a b h =
    let same : on_timer cfg m.phase m ≡ m = rw h.awaited refl in rw same h
step-IsAwaited cfg success attempt delay s m a b h = absurd b
step-IsAwaited cfg (failure draw) attempt delay s m a b h = absurd b
step-IsAwaited cfg cancel attempt delay s m a b h = record {
  awaited = h.awaited;
  flagged = refl;
  unchanged = h.unchanged;
}

steps-IsAwaited :
    (cfg : BackoffConfig) (es : List Event) (attempt delay : ℕ) (s : ReconnectState)
    (m : ReconnectManager)
    → is_active s ≡ true
    → All IsBetween es
    → IsAwaited attempt delay s m
    → IsAwaited attempt delay s (steps cfg es m)
unfolding steps
steps-IsAwaited cfg [] attempt delay s m a b h = h
steps-IsAwaited cfg (e ∷ es) attempt delay s m a b h =
    steps-IsAwaited cfg es attempt delay s (step cfg e m) a b.1
      (step-IsAwaited cfg e attempt delay s m a b.0 h)

steps-snoc :
    (cfg : BackoffConfig) (es : List Event) (e : Event) (m : ReconnectManager)
    → steps cfg (es ++ e ∷ []) m ≡ step cfg e (steps cfg es m)
unfolding steps
steps-snoc cfg [] e m = refl
steps-snoc cfg (f ∷ es) e m = steps-snoc cfg es e (step cfg f m)

-- How `run` ends when an attempt fails and the flag is set.
abbrev pub given_up : BackoffConfig → ℕ → ReconnectState
given_up cfg attempt =
    if ltb attempt cfg.max_retries
    then cancelled
    else failed (codes "gave up after " ++ (decimal cfg.max_retries ++ codes " attempts"))

failure-IsAwaited :
    (cfg : BackoffConfig) (draw : Fraction) (attempt delay : ℕ) (s : ReconnectState)
    (m : ReconnectManager)
    → IsAwaited attempt delay s m
    → (step cfg (failure draw) m).current ≡ given_up cfg attempt
unfolding step on_failure next_attempt
failure-IsAwaited cfg draw attempt delay s m h = elim (Bool-cases (ltb attempt cfg.max_retries)) [
  | inl more ↦
      let go_on : ltb cfg.max_retries (attempt + 1) ≡ false = ground arith in
      rw (h.awaited, more, go_on, h.flagged) refl
  | inr last ↦
      let over : ltb cfg.max_retries (attempt + 1) ≡ true = ground arith in
      rw (h.awaited, last, over) refl
]

success-IsAwaited :
    (cfg : BackoffConfig) (attempt delay : ℕ) (s : ReconnectState) (m : ReconnectManager)
    → IsAwaited attempt delay s m
    → (step cfg success m).current ≡ recovered
unfolding step on_success
success-IsAwaited cfg attempt delay s m h = rw h.awaited refl

-- A `cancel` in the middle of an attempt, while the loop is reported in progress, with any calls of
-- `run` and `cancel` after it: nothing reported changes until the attempt ends. If the attempt
-- succeeds, the cancel is lost and the loop ends recovered. If it fails, the loop ends cancelled, or,
-- when it was the last attempt, as failed.
pub steps-cancel_in_attempt :
    (cfg : BackoffConfig) (es : List Event) (draw : Fraction) (attempt delay : ℕ)
    (m : ReconnectManager)
    → m.phase ≡ in_attempt attempt delay
    → is_active m.current ≡ true
    → All IsBetween es
    → ((steps cfg (cancel ∷ es) m).current ≡ m.current)
      × ((steps cfg (cancel ∷ es ++ success ∷ []) m).current ≡ recovered)
      × ((steps cfg (cancel ∷ es ++ failure draw ∷ []) m).current ≡ given_up cfg attempt)
unfolding steps step do_cancel
steps-cancel_in_attempt cfg es draw attempt delay m p a b =
    let h : IsAwaited attempt delay m.current (steps cfg es (do_cancel m)) =
      steps-IsAwaited cfg es attempt delay m.current (do_cancel m) a b
        (record { awaited = p; flagged = refl; unchanged = refl }) in
    let ends = λ (e : Event). ap (λ n. n.current) (steps-snoc cfg es e (do_cancel m)) in
    (
      h.unchanged,
      ends success ∙ success-IsAwaited cfg attempt delay m.current (steps cfg es (do_cancel m)) h,
      ends (failure draw)
          ∙ failure-IsAwaited cfg draw attempt delay m.current (steps cfg es (do_cancel m)) h,
    )
