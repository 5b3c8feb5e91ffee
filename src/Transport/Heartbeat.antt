-- ===== src/Transport/Heartbeat.antt =====
-- plugin/src/transport/RpcHeartbeat.ts: notices a daemon that no longer answers.
-- The machine waits for a timer or for the end of a probe; what the client says of the connection
-- is an argument of the turn that asks for it.
pub mod Alive
use obsidian_remote_ssh.Prelude.{
  ℕ, ◌+◌, ◌*◌, List, [], ◌∷◌, ◌++◌, Bool, true, false, if◌then◌else◌, ltb, leb, ◌&&◌, ◌=ℕ◌, Option,
  none, some,
}
use obsidian_remote_ssh.Transport.Rpc.{OldestPending}

pub record HeartbeatOptions : Type 0 where
  pub idle_ms : ℕ
  pub probe_timeout_ms : ℕ
  pub max_misses : ℕ
  pub tick_ms : ℕ
  pub stall_grace_ms : ℕ

abbrev pub default_options : HeartbeatOptions
default_options = record {
  idle_ms = 30000;
  probe_timeout_ms = 15000;
  max_misses = 3;
  tick_ms = 10000;
  stall_grace_ms = 60000;
}

abbrev pub assumed_min_bytes_per_ms : ℕ
assumed_min_bytes_per_ms = 8

-- What the client answers when it is asked.
pub record HeartbeatTarget : Type 0 where
  pub outbound_backlog_bytes : ℕ
  pub ms_since_last_byte : ℕ
  pub oldest_pending : Option OldestPending

-- `last_backlog` is none for infinity. `armed` are the timers that are set and neither fired nor
-- cleared, `handles` how many there were.
pub record RpcHeartbeat : Type 0 where
  pub timer : Option ℕ
  pub probing : Bool
  pub misses : ℕ
  pub stopped : Bool
  pub last_backlog : Option ℕ
  pub armed : List ℕ
  pub handles : ℕ

abbrev pub init : RpcHeartbeat
init = record {
  timer = none;
  probing = false;
  misses = 0;
  stopped = false;
  last_backlog = none;
  armed = [];
  handles = 0;
}

pub data Output : Type 0 where
  -- The call of `server.info`, and its abort.
  probed abandoned : Output
  warned : (misses : ℕ) → Output
  -- The call of `onDead`.
  dead : Output

abbrev pub disarm : ℕ → List ℕ → List ℕ
disarm t [] = []
disarm t (x ∷ xs) = if x =ℕ t then xs else x ∷ disarm t xs

abbrev pub is_armed : ℕ → List ℕ → Bool
is_armed t [] = false
is_armed t (x ∷ xs) = if x =ℕ t then true else is_armed t xs

unfoldable pub schedule : RpcHeartbeat → RpcHeartbeat
schedule h =
    if h.stopped
    then h
    else record h { timer = some h.handles; armed = h.handles ∷ h.armed; handles = h.handles + 1 }

unfoldable pub start : RpcHeartbeat → RpcHeartbeat
start h = elim h.timer [ some _ ↦ h | none ↦ if h.stopped then h else schedule h ]

unfoldable pub stop : RpcHeartbeat → RpcHeartbeat
stop h = elim h.timer [
  | none ↦ record h { stopped = true }
  | some t ↦ record h { stopped = true; timer = none; armed = disarm t h.armed }
]

-- `backlog < this.lastBacklog`
abbrev pub below : ℕ → Option ℕ → Bool
below n none = true
below n (some m) = ltb n m

-- `oldest.ageMs < grace`, both sides times the assumed throughput.
abbrev pub in_grace : HeartbeatOptions → OldestPending → Bool
in_grace o p =
    ltb (assumed_min_bytes_per_ms * p.age_ms)
      (assumed_min_bytes_per_ms * o.stall_grace_ms + p.request_bytes)

-- What `isMakingProgress` returns, with `lastBacklog` as it was; it also keeps the backlog.
unfoldable pub is_making_progress : HeartbeatOptions → HeartbeatTarget → Option ℕ → Bool
is_making_progress o rpc last_backlog =
    if ltb 0 rpc.outbound_backlog_bytes && below rpc.outbound_backlog_bytes last_backlog
    then true
    else if ltb rpc.ms_since_last_byte o.idle_ms
    then true
    else elim rpc.oldest_pending [ none ↦ false | some p ↦ in_grace o p ]

-- `tick`, up to where it awaits the probe.
unfoldable pub tick : HeartbeatOptions → HeartbeatTarget → RpcHeartbeat → RpcHeartbeat × List Output
tick o rpc h =
    let seen : RpcHeartbeat = record h { last_backlog = some rpc.outbound_backlog_bytes } in
    if h.stopped
    then (h, [])
    else if h.probing
    then (schedule h, [])
    else if is_making_progress o rpc h.last_backlog
    then (schedule (record seen { misses = 0 }), [])
    else (record seen { probing = true }, probed ∷ [])

-- `tick` from the answer to the probe on.
unfoldable pub probe_answered : RpcHeartbeat → RpcHeartbeat × List Output
probe_answered h = (schedule (record h { misses = 0; probing = false }), [])

-- `tick` from the failure of the probe on.
unfoldable pub probe_failed : HeartbeatOptions → RpcHeartbeat → RpcHeartbeat × List Output
probe_failed o h =
    let missed : RpcHeartbeat = record h { misses = h.misses + 1; probing = false } in
    if h.stopped
    then (record h { probing = false }, [])
    else if leb o.max_misses (h.misses + 1)
    then (stop missed, warned (h.misses + 1) ∷ dead ∷ [])
    else (schedule missed, warned (h.misses + 1) ∷ [])

-- What ends a wait, or calls a method.
pub data Turn : Type 0 where
  starts stops : Turn
  fires : (timer : ℕ) → HeartbeatTarget → Turn
  answers fails times_out : Turn

-- The probe's promise is settled once: what comes when no probe is awaited does nothing.
abbrev pub turn : HeartbeatOptions → Turn → RpcHeartbeat → RpcHeartbeat × List Output
turn o starts h = (start h, [])
turn o stops h = (stop h, [])
turn o (fires t rpc) h =
    if is_armed t h.armed
    then tick o rpc (record h { timer = none; armed = disarm t h.armed })
    else (h, [])
turn o answers h = if h.probing then probe_answered h else (h, [])
turn o fails h = if h.probing then probe_failed o h else (h, [])
turn o times_out h =
    if h.probing then ((probe_failed o h).0, abandoned ∷ (probe_failed o h).1) else (h, [])

abbrev pub run : HeartbeatOptions → List Turn → RpcHeartbeat → RpcHeartbeat × List Output
run o [] h = (h, [])
run o (t ∷ ts) h = let (h', out) = turn o t h in let rest = run o ts h' in (rest.0, out ++ rest.1)
