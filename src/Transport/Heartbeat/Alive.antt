-- ===== src/Transport/Heartbeat/Alive.antt =====
-- plugin/src/transport/RpcHeartbeat.ts: when the heartbeat declares the daemon dead.
use obsidian_remote_ssh.Prelude.{
  ℕ, suc, ◌+◌, ◌≤◌, ◌<◌, List, [], ◌∷◌, ◌++◌, true, false, if◌then◌else◌, leb, Option, none, some,
  ◌≡◌, refl, ap, ◌∙◌, arith, Bool-cases, inl, inr, length,
}
use obsidian_remote_ssh.Transport.Heartbeat.{
  HeartbeatOptions, HeartbeatTarget, RpcHeartbeat, Output, probed, abandoned, warned, dead, disarm,
  is_armed, is_making_progress, start, stop, schedule, tick, probe_answered, probe_failed, Turn,
  starts, stops, fires, answers, fails, times_out, turn, run,
}

abbrev pub is_dead : Output → ℕ
is_dead dead = 1
is_dead _ = 0

-- How often `onDead` was called.
abbrev pub deads : List Output → ℕ
deads [] = 0
deads (o ∷ os) = is_dead o + deads os

-- How often it may be called yet.
abbrev pub spare : RpcHeartbeat → ℕ
spare h = if h.stopped then 0 else 1

pub deads-append : (xs ys : List Output) → deads (xs ++ ys) ≡ deads xs + deads ys
deads-append [] ys = omega arith
deads-append (x ∷ xs) ys = omega (arith, deads-append xs ys)

schedule-stopped : (h : RpcHeartbeat) → (schedule h).stopped ≡ h.stopped
unfolding schedule
schedule-stopped h = ground arith

start-stopped : (h : RpcHeartbeat) → (start h).stopped ≡ h.stopped
unfolding start
start-stopped h = ground (arith, schedule-stopped h)

stop-stopped : (h : RpcHeartbeat) → (stop h).stopped ≡ true
unfolding stop
stop-stopped h = ground arith

tick-dead :
    (o : HeartbeatOptions) (rpc : HeartbeatTarget) (h : RpcHeartbeat)
    → deads (tick o rpc h).1 + spare (tick o rpc h).0 ≤ spare h
unfolding tick schedule
tick-dead o rpc h = ground arith

probe_failed-dead :
    (o : HeartbeatOptions) (h : RpcHeartbeat)
    → deads (probe_failed o h).1 + spare (probe_failed o h).0 ≤ spare h
unfolding probe_failed schedule stop
probe_failed-dead o h = ground arith

turn-dead :
    (o : HeartbeatOptions) (t : Turn) (h : RpcHeartbeat)
    → deads (turn o t h).1 + spare (turn o t h).0 ≤ spare h
unfolding probe_answered schedule start stop
turn-dead o starts h = ground (arith, start-stopped h)
turn-dead o stops h = ground (arith, stop-stopped h)
turn-dead o (fires t rpc) h =
    ground (arith, tick-dead o rpc (record h { timer = none; armed = disarm t h.armed }))
turn-dead o answers h = ground arith
turn-dead o fails h = ground (arith, probe_failed-dead o h)
turn-dead o times_out h = ground (arith, probe_failed-dead o h)

pub run-dead :
    (o : HeartbeatOptions) (ts : List Turn) (h : RpcHeartbeat)
    → deads (run o ts h).1 + spare (run o ts h).0 ≤ spare h
run-dead o [] h = omega arith
run-dead o (t ∷ ts) h =
    let one = turn o t h in
    let rest = run o ts one.0 in
    omega (arith, turn-dead o t h, run-dead o ts one.0, deads-append one.1 rest.1)

-- A connection on which nothing happens: the backlog does not shrink, no byte has come for the
-- idle time, and no call is within its grace.
abbrev pub AreQuiet : HeartbeatOptions → Option ℕ → List HeartbeatTarget → Type 0
AreQuiet o last_backlog [] = Unit
AreQuiet o last_backlog (w ∷ ws) =
    (is_making_progress o w last_backlog ≡ false) × AreQuiet o (some w.outbound_backlog_bytes) ws

-- The turns of a silence: each timer fires, and the probe that it sends times out.
abbrev pub silence : ℕ → ℕ → List HeartbeatTarget → List Turn
silence t next [] = []
silence t next (w ∷ ws) = fires t w ∷ times_out ∷ silence next (next + 1) ws

-- A heartbeat that waits for its timer.
abbrev pub waiting : ℕ → ℕ → Option ℕ → List ℕ → ℕ → RpcHeartbeat
waiting t misses last_backlog armed handles = record {
  timer = some t;
  probing = false;
  misses = misses;
  stopped = false;
  last_backlog = last_backlog;
  armed = armed;
  handles = handles;
}

-- A probe is out.
abbrev probing_now : ℕ → Option ℕ → List ℕ → ℕ → RpcHeartbeat
probing_now misses last_backlog armed handles = record {
  timer = none;
  probing = true;
  misses = misses;
  stopped = false;
  last_backlog = last_backlog;
  armed = armed;
  handles = handles;
}

-- The timer of a quiet connection sends a probe.
fires-quiet :
    (o : HeartbeatOptions) (w : HeartbeatTarget) (t m : ℕ) (b : Option ℕ) (a : List ℕ) (n : ℕ)
    → is_armed t a ≡ true
    → is_making_progress o w b ≡ false
    → turn o (fires t w) (waiting t m b a n)
      ≡ (probing_now m (some w.outbound_backlog_bytes) (disarm t a) n, probed ∷ [])
unfolding tick
fires-quiet o w t m b a n armed quiet = rw (armed, tick, quiet) refl

-- The state after a probe that timed out, while misses are left.
times_out-left :
    (o : HeartbeatOptions) (m : ℕ) (b : Option ℕ) (a : List ℕ) (n : ℕ)
    → leb o.max_misses (m + 1) ≡ false
    → turn o times_out (probing_now m b a n)
      ≡ (waiting n (m + 1) b (n ∷ a) (n + 1), abandoned ∷ warned (m + 1) ∷ [])
unfolding probe_failed schedule
times_out-left o m b a n more = rw (probe_failed, more) refl

times_out-last :
    (o : HeartbeatOptions) (m : ℕ) (b : Option ℕ) (a : List ℕ) (n : ℕ)
    → leb o.max_misses (m + 1) ≡ true
    → turn o times_out (probing_now m b a n) ≡ (
      record (probing_now m b a n) { misses = m + 1; probing = false; stopped = true },
      abandoned ∷ warned (m + 1) ∷ dead ∷ [],
    )
unfolding probe_failed stop
times_out-last o m b a n last = rw (probe_failed, last) refl

-- The calls of `onDead` in a run, by its first turn.
deads-run :
    (o : HeartbeatOptions) (t : Turn) (ts : List Turn) (h h' : RpcHeartbeat) (out : List Output)
    → turn o t h ≡ (h', out)
    → deads (run o (t ∷ ts) h).1 ≡ deads out + deads (run o ts h').1
deads-run o t ts h h' out e =
    ap (λ r. deads (r.1 ++ (run o ts r.0).1)) e ∙ deads-append out (run o ts h').1

-- A heartbeat that waits for its timer with fewer than `maxMisses` misses, on a connection on which
-- nothing happens (the backlog does not shrink, no byte came for the idle time, no call is within
-- its grace) at the `length ws` next ticks, and whose probes all time out: `onDead` is called once
-- if the misses and these ticks reach `maxMisses`, and is not called if they do not.
pub run-silence :
    (o : HeartbeatOptions) (ws : List HeartbeatTarget) (t m : ℕ) (b : Option ℕ) (a : List ℕ) (n : ℕ)
    → is_armed t a ≡ true
    → m < o.max_misses
    → AreQuiet o b ws
    → deads (run o (silence t n ws) (waiting t m b a n)).1
      ≡ (if leb o.max_misses (m + length ws) then 1 else 0)
run-silence o [] t m b a n armed left quiet = ground arith
run-silence o (w ∷ ws) t m b a n armed left quiet =
    let b' : Option ℕ = some w.outbound_backlog_bytes in
    let a' = disarm t a in
    let later = silence n (n + 1) ws in
    let fired =
      deads-run o (fires t w) (times_out ∷ later) (waiting t m b a n) (probing_now m b' a' n)
        (probed ∷ []) (fires-quiet o w t m b a n armed quiet.0) in
    elim (Bool-cases (leb o.max_misses (m + 1))) [
      | inl last ↦
          let h' : RpcHeartbeat = record (probing_now m b' a' n) {
            misses = m + 1;
            probing = false;
            stopped = true;
          } in
          let missed =
            deads-run o times_out later (probing_now m b' a' n) h'
              (abandoned ∷ warned (m + 1) ∷ dead ∷ []) (times_out-last o m b' a' n last) in
          let rest : deads (run o later h').1 ≤ 0 = omega (arith, run-dead o later h') in
          let once : deads (run o (silence t n (w ∷ ws)) (waiting t m b a n)).1 ≡ 1 =
            omega (arith, fired, missed, rest) in
          once ∙ reached (length ws) last
      | inr more ↦
          let missed =
            deads-run o times_out later (probing_now m b' a' n)
              (waiting n (m + 1) b' (n ∷ a') (n + 1)) (abandoned ∷ warned (m + 1) ∷ [])
              (times_out-left o m b' a' n more) in
          let rest =
            run-silence o ws n (m + 1) b' (n ∷ a') (n + 1) (ground arith) (ground arith) quiet.1 in
          let same : deads (run o (silence t n (w ∷ ws)) (waiting t m b a n)).1
              ≡ deads (run o later (waiting n (m + 1) b' (n ∷ a') (n + 1))).1 =
            omega (arith, fired, missed) in
          same ∙ rest ∙ ap (λ k. if leb o.max_misses k then 1 else 0) (shifted (length ws))
    ]
  where
    reached :
        (k : ℕ)
        → leb o.max_misses (m + 1) ≡ true
        → ◌≡◌ {A = ℕ} 1 (if leb o.max_misses (m + suc k) then 1 else 0)
    reached k last = ground arith

    shifted : (k : ℕ) → m + 1 + k ≡ m + suc k
    shifted k = omega arith
