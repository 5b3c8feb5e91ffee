-- ===== src/Transport/Reconnect/Loop.antt =====
-- The loop of `run` in plugin/src/transport/ReconnectManager.ts.
use obsidian_remote_ssh.Prelude.{
  ℕ, ◌+◌, ◌≤◌, ◌<◌, List, [], ◌∷◌, ◌++◌, true, false, not, if◌then◌else◌, ltb, leb, codes, Option,
  some, none, ◌≡◌, refl, arith, subst, ap, ◌∙◌, sym, length, Bool-cases, inl, inr,
}
use obsidian_remote_ssh.Transport.Framing.{decimal}
use obsidian_remote_ssh.Transport.Reconnect.{
  Fraction, BackoffConfig, ReconnectManager, ReconnectState, waiting, attempting, Phase, sleeping,
  in_attempt, not_running, Event, run, timer, success, failure, cancel, recovered, failed, initial,
  finish, is_active, next_delay, next_attempt, step, steps, start_run, on_timer, on_success,
  on_failure, do_cancel, wake,
}

-- What the fields say in each phase.
abbrev pub Matches : BackoffConfig → Phase → ReconnectManager → Type 0
Matches cfg not_running m = (is_active m.current ≡ false) × (m.active_timer ≡ false)
Matches cfg (sleeping attempt delay) m =
    (m.current ≡ waiting attempt cfg.max_retries delay)
    × (1 ≤ attempt)
    × (attempt ≤ cfg.max_retries)
    × (m.active_timer ≡ not m.is_cancelled)
Matches cfg (in_attempt attempt delay) m =
    (m.current ≡ attempting attempt cfg.max_retries)
    × (1 ≤ attempt)
    × (attempt ≤ cfg.max_retries)
    × (m.active_timer ≡ false)

abbrev pub IsValid : BackoffConfig → ReconnectManager → Type 0
IsValid cfg m = Matches cfg m.phase m

next_attempt-IsValid :
    (cfg : BackoffConfig) (draw : Fraction) (attempt : ℕ) (last_delay : Option ℕ)
    (m : ReconnectManager)
    → 1 ≤ attempt
    → m.active_timer ≡ false
    → IsValid cfg (next_attempt cfg draw attempt last_delay m)
unfolding next_attempt is_active
next_attempt-IsValid cfg draw attempt last_delay m h t =
    elim (Bool-cases (ltb cfg.max_retries attempt)) [
      | inl over ↦ rw (over, next_attempt) (refl, t)
      | inr under ↦ elim (Bool-cases m.is_cancelled) [
        | inl stop ↦ rw (under, stop, next_attempt) (refl, t)
        | inr live ↦ rw (under, next_attempt, live) (refl, h, ground arith, refl)
      ]
    ]

step-IsValid :
    (cfg : BackoffConfig) (e : Event) (m : ReconnectManager)
    → IsValid cfg m
    → IsValid cfg (step cfg e m)
unfolding step
step-IsValid cfg e m h = go m.phase refl h e
  where
    waiting-active : (s : ReconnectState) (a n d : ℕ) → s ≡ waiting a n d → is_active s ≡ true
    waiting-active s a n d e = unfold is_active in rw e refl

    attempting-active : (s : ReconnectState) (a n : ℕ) → s ≡ attempting a n → is_active s ≡ true
    attempting-active s a n e = unfold is_active in rw e refl

    busy : (draw : Fraction) → is_active m.current ≡ true → start_run cfg draw m ≡ m
    busy draw a = unfold start_run in rw (a, start_run) refl

    go :
        (phase : Phase)
        → m.phase ≡ phase
        → Matches cfg phase m
        → (e : Event) → IsValid cfg (step cfg e m)
    go not_running p h (run draw) =
        unfold start_run in
        rw (h.0, start_run)
          (next_attempt-IsValid cfg draw 1 none (record m { is_cancelled = false }) (omega arith)
            h.1)
    go not_running p h timer = unfold on_timer in rw (p, on_timer) h
    go not_running p h success = unfold on_success in rw (p, on_success) h
    go not_running p h (failure draw) = unfold on_failure in rw (p, on_failure) h
    go not_running p h cancel = unfold do_cancel in rw p (h.0, refl)
    go (sleeping a d) p h (run draw) =
        subst (IsValid cfg) (sym (busy draw (waiting-active m.current _ _ _ h.0))) (rw p h)
    go (sleeping a d) p h timer =
        unfold on_timer wake in
        elim (Bool-cases m.is_cancelled) [
          | inl stop ↦
              let off : m.active_timer ≡ false = h.3 ∙ ap not stop in
              rw (p, off, on_timer) (h.0, h.1, h.2, sym (ap not stop))
          | inr live ↦
              let on : m.active_timer ≡ true = h.3 ∙ ap not live in
              rw (p, on, live, on_timer, wake) (refl, h.1, h.2, refl)
        ]
    go (sleeping a d) p h success = unfold on_success in rw (p, on_success) h
    go (sleeping a d) p h (failure draw) = unfold on_failure in rw (p, on_failure) h
    go (sleeping a d) p h cancel = unfold do_cancel in rw p (h.0, h.1, h.2, refl)
    go (in_attempt a d) p h (run draw) =
        subst (IsValid cfg) (sym (busy draw (attempting-active m.current _ _ h.0))) (rw p h)
    go (in_attempt a d) p h timer = unfold on_timer in rw (p, on_timer) h
    go (in_attempt a d) p h success =
        unfold on_success in rw (p, on_success) (unfold is_active in refl, h.3)
    go (in_attempt a d) p h (failure draw) =
        unfold on_failure in
        rw (p, on_failure)
          (next_attempt-IsValid cfg draw (a + 1) (some d) (record m { phase = in_attempt a d })
            (omega arith) h.3)
    go (in_attempt a d) p h cancel = unfold do_cancel in rw p (h.0, h.1, h.2, refl)

-- The events of a run in which these attempts fail and one more would succeed.
abbrev pub attempts : List Fraction → List Event
attempts [] = timer ∷ success ∷ []
attempts (draw ∷ draws) = timer ∷ failure draw ∷ attempts draws

abbrev gave_up : BackoffConfig → ReconnectState
gave_up cfg = failed (codes "gave up after " ++ (decimal cfg.max_retries ++ codes " attempts"))

abbrev asleep : BackoffConfig → ℕ → ℕ → ReconnectManager
asleep cfg attempt delay = record {
  is_cancelled = false;
  current = waiting attempt cfg.max_retries delay;
  active_timer = true;
  phase = sleeping attempt delay;
}

-- With no loop running these events change nothing.
step-not_running :
    (cfg : BackoffConfig) (draw : Fraction) (m : ReconnectManager)
    → m.phase ≡ not_running
    → (step cfg timer m ≡ m) × (step cfg success m ≡ m) × (step cfg (failure draw) m ≡ m)
unfolding step on_timer on_success on_failure
step-not_running cfg draw m p =
    (ap (λ x. on_timer cfg x m) p, ap (λ x. on_success x m) p, ap (λ x. on_failure cfg draw x m) p)

abbrev any_draw : Fraction
any_draw = record { numerator = 0; denominator = 1 }

steps-not_running :
    (cfg : BackoffConfig) (draws : List Fraction) (m : ReconnectManager)
    → m.phase ≡ not_running
    → steps cfg (attempts draws) m ≡ m
unfolding steps
steps-not_running cfg [] m p =
    let still = step-not_running cfg any_draw m p in ap (step cfg success) still.0 ∙ still.1
steps-not_running cfg (draw ∷ draws) m p =
    let still = step-not_running cfg draw m p in
    ap (λ x. steps cfg (attempts draws) (step cfg (failure draw) x)) still.0
    ∙ ap (steps cfg (attempts draws)) still.2
    ∙ steps-not_running cfg draws m p

next_attempt-over :
    (cfg : BackoffConfig) (draw : Fraction) (attempt : ℕ) (last_delay : Option ℕ)
    (m : ReconnectManager)
    → cfg.max_retries < attempt
    → next_attempt cfg draw attempt last_delay m ≡ finish (gave_up cfg) m
unfolding next_attempt
next_attempt-over cfg draw attempt last_delay m h =
    let over : ltb cfg.max_retries attempt ≡ true = ground arith in rw (over, next_attempt) refl

next_attempt-under :
    (cfg : BackoffConfig) (draw : Fraction) (attempt : ℕ) (last_delay : Option ℕ)
    (m : ReconnectManager)
    → attempt ≤ cfg.max_retries
    → m.is_cancelled ≡ false
    → next_attempt cfg draw attempt last_delay m
      ≡ asleep cfg attempt (next_delay last_delay cfg draw)
unfolding next_attempt
next_attempt-under cfg draw attempt last_delay m h live =
    let under : ltb cfg.max_retries attempt ≡ false = ground arith in
    rw (under, live, next_attempt) refl

steps-attempts :
    (cfg : BackoffConfig) (draws : List Fraction) (attempt delay : ℕ)
    → attempt ≤ cfg.max_retries
    → (steps cfg (attempts draws) (asleep cfg attempt delay)).current
      ≡ (if leb (attempt + length draws) cfg.max_retries then recovered else gave_up cfg)
unfolding steps step on_timer on_success on_failure wake
steps-attempts cfg [] attempt delay h = ground arith
steps-attempts cfg (draw ∷ draws) attempt delay h =
    let m : ReconnectManager = record {
      is_cancelled = false;
      current = attempting attempt cfg.max_retries;
      active_timer = false;
      phase = in_attempt attempt delay;
    } in
    let after : ReconnectManager → ReconnectState = λ x. (steps cfg (attempts draws) x).current in
    elim (Bool-cases (ltb cfg.max_retries (attempt + 1))) [
      | inl over ↦
          ap after (next_attempt-over cfg draw (attempt + 1) (some delay) m (ground arith))
          ∙ ap (λ x. x.current) (steps-not_running cfg draws (finish (gave_up cfg) m) refl)
          ∙ ground arith
      | inr under ↦
          ap after (next_attempt-under cfg draw (attempt + 1) (some delay) m (ground arith) refl)
          ∙ steps-attempts cfg draws (attempt + 1) (next_delay (some delay) cfg draw) (ground arith)
          ∙ ground arith
    ]

-- A run that is not cancelled, in which as many attempts would fail as `draws` has numbers and the
-- next succeed, ends recovered if these are fewer than `maxRetries`, and otherwise fails with the
-- message that names `maxRetries`. It starts from every state that reports no loop in progress.
pub steps-run-attempts :
    (cfg : BackoffConfig) (draw : Fraction) (draws : List Fraction) (m : ReconnectManager)
    → is_active m.current ≡ false
    → (steps cfg (run draw ∷ attempts draws) m).current ≡ (
        if ltb (length draws) cfg.max_retries
        then recovered
        else failed (codes "gave up after " ++ (decimal cfg.max_retries ++ codes " attempts")))
unfolding steps step start_run
steps-run-attempts cfg draw draws m idle =
    let m' : ReconnectManager = record m { is_cancelled = false } in
    let after : ReconnectManager → ReconnectState = λ x. (steps cfg (attempts draws) x).current in
    let started : start_run cfg draw m ≡ next_attempt cfg draw 1 none m' =
      rw (idle, start_run) refl in
    ap after started ∙ elim (Bool-cases (ltb cfg.max_retries 1)) [
      | inl over ↦
          ap after (next_attempt-over cfg draw 1 none m' (ground arith))
          ∙ ap (λ x. x.current) (steps-not_running cfg draws (finish (gave_up cfg) m') refl)
          ∙ ground arith
      | inr under ↦
          ap after (next_attempt-under cfg draw 1 none m' (ground arith) refl)
          ∙ steps-attempts cfg draws 1 (next_delay none cfg draw) (ground arith)
          ∙ ground arith
    ]

steps-keeps-IsValid :
    (cfg : BackoffConfig) (es : List Event) (m : ReconnectManager)
    → IsValid cfg m
    → IsValid cfg (steps cfg es m)
unfolding steps
steps-keeps-IsValid cfg [] m h = h
steps-keeps-IsValid cfg (e ∷ es) m h =
    steps-keeps-IsValid cfg es (step cfg e m) (step-IsValid cfg e m h)

-- After any events, calls of `run` and `cancel` in any order included, what is reported, the timer
-- and the place of the loop agree, and no attempt is numbered above `maxRetries`.
pub steps-IsValid : (cfg : BackoffConfig) (es : List Event) → IsValid cfg (steps cfg es initial)
unfolding is_active
steps-IsValid cfg es = steps-keeps-IsValid cfg es initial (refl, refl)
