-- ===== src/Tests/Transport.antt =====
-- Runs of the framing and the reconnect loop in plugin/src/transport.
use obsidian_remote_ssh.Prelude.{
  ℕ, ◌+◌, length, if◌then◌else◌, List, [], ◌∷◌, ◌++◌, map, true, false, codes, none, some, ◌≡◌,
  refl, arith,
}
use obsidian_remote_ssh.Json.{Json, num, str, obj, end, field}
use obsidian_remote_ssh.Transport.Framing.{
  FramedDuplex, message, error, message_too_large, end_stream, close, init, header, on_data,
}
use obsidian_remote_ssh.Transport.Framing.Delivery.{receive, write_messages, receive-write_messages}
use obsidian_remote_ssh.Transport.Framing.Rejection.{on_data-too_large}
use obsidian_remote_ssh.Tests.TokenText.{token_text}
use obsidian_remote_ssh.Transport.Rpc
use obsidian_remote_ssh.Transport.Rpc.{OldestPending, Turn}
use obsidian_remote_ssh.Transport.Rpc.Settle.{settled, waits, issued}
use obsidian_remote_ssh.Transport.Rpc.Life.{run-settled}
use obsidian_remote_ssh.Transport.Heartbeat
use obsidian_remote_ssh.Transport.Heartbeat.{HeartbeatTarget, default_options, is_making_progress}
use obsidian_remote_ssh.Transport.Heartbeat.Alive.{deads, silence, waiting, run-silence}
use obsidian_remote_ssh.Transport.Reconnect.{
  Fraction, ReconnectManager, default_backoff, next_delay, run, timer, success, failure, cancel,
  recovered, cancelled, initial, is_active, steps, step, start_run, next_attempt, on_timer,
  on_failure, wake,
}
use obsidian_remote_ssh.Transport.Reconnect.Loop.{
  IsValid, attempts, steps-IsValid, steps-run-attempts,
}
use obsidian_remote_ssh.Transport.Reconnect.Cancel.{steps-cancel_asleep, steps-cancel_in_attempt}

abbrev bodies : List (List ℕ)
bodies = codes "hi" ∷ [] ∷ (13 ∷ 10 ∷ 13 ∷ 10 ∷ []) ∷ []

-- The first header comes in two parts, and the others in one chunk with a body before them.
abbrev chunks : List (List ℕ × ℕ)
chunks =
    (codes "Content-Le", 5)
    ∷ (codes "ngth: 2" ++ (13 ∷ 10 ∷ 13 ∷ []), 6)
    ∷ ([], 6)
    ∷ (10 ∷ codes "h", 7)
    ∷ (
      codes "iContent-Length: 0"
          ++ (13 ∷ 10 ∷ 13 ∷ 10 ∷ codes "Content-Length: 4")
          ++ (13 ∷ 10 ∷ 13 ∷ 10 ∷ 13 ∷ 10 ∷ []),
      8,
    )
    ∷ (13 ∷ 10 ∷ [], 9)
    ∷ []

abbrev fresh : FramedDuplex
fresh = init none 0

receive-write_messages_example :
    ((receive chunks (init (some 100) 3)).1 ≡ map message bodies)
    × ((receive chunks (init (some 100) 3)).0.buffer ≡ [])
    × ((receive chunks (init (some 100) 3)).0.pending_body_length ≡ none)
    × ((receive chunks (init (some 100) 3)).0.closed ≡ false)
unfolding init write_messages
receive-write_messages_example =
    receive-write_messages fresh bodies chunks 100 3 refl
      (omega arith, (omega arith, (omega arith, tt))) refl

on_data-too_large_example : on_data (header 101) 4 (init (some 100) 3) ≡ (
  record (init (some 100) 3) { last_byte_at = 4; buffer = header 101; closed = true },
  error (message_too_large 101 100) ∷ end_stream ∷ close ∷ [],
)
unfolding init header
on_data-too_large_example =
    on_data-too_large (init (some 100) 3) 101 4 (header 101) [] refl refl (omega arith)

-- A draw in the middle, without jitter, and the first delays.
abbrev middle : Fraction
middle = record { numerator = 1; denominator = 2 }

delays :
    (next_delay none default_backoff middle ≡ 1000)
    × (next_delay (some 1000) default_backoff middle ≡ 1500)
    × (next_delay (some 25000) default_backoff middle ≡ 30000)
    × (next_delay none default_backoff (record { numerator = 0; denominator = 1 }) ≡ 800)
unfolding next_delay
delays = (refl, refl, refl, refl)

steps-IsValid_example :
    IsValid default_backoff
      (steps default_backoff (run middle ∷ timer ∷ cancel ∷ failure middle ∷ []) initial)
steps-IsValid_example =
    steps-IsValid default_backoff (run middle ∷ timer ∷ cancel ∷ failure middle ∷ [])

steps-run-attempts_example :
    (steps default_backoff (run middle ∷ attempts (middle ∷ middle ∷ [])) initial).current
    ≡ recovered
unfolding is_active
steps-run-attempts_example =
    steps-run-attempts default_backoff middle (middle ∷ middle ∷ []) initial refl

-- The loop before its second attempt.
abbrev retrying : ReconnectManager
retrying = steps default_backoff (run middle ∷ timer ∷ failure middle ∷ []) initial

steps-cancel_asleep_example :
    (steps default_backoff (cancel ∷ timer ∷ run middle ∷ []) retrying).current ≡ retrying.current
unfolding steps is_active step start_run next_attempt next_delay on_timer on_failure wake
steps-cancel_asleep_example =
    steps-cancel_asleep default_backoff (timer ∷ run middle ∷ []) 2 1500 retrying refl refl

abbrev trying : ReconnectManager
trying = steps default_backoff (run middle ∷ timer ∷ []) initial

steps-cancel_in_attempt_example :
    ((steps default_backoff (cancel ∷ run middle ∷ []) trying).current ≡ trying.current)
    × ((steps default_backoff (cancel ∷ run middle ∷ success ∷ []) trying).current ≡ recovered)
    × ((steps default_backoff (cancel ∷ run middle ∷ failure middle ∷ []) trying).current
        ≡ cancelled)
unfolding steps is_active step start_run next_attempt next_delay on_timer on_failure wake
steps-cancel_in_attempt_example =
    steps-cancel_in_attempt default_backoff (run middle ∷ []) middle 1 1000 trying refl refl
      (tt, tt)

-- Two calls, an abort of the second, the reply to the first, and the end of the stream.
abbrev reply_bytes : List ℕ
reply_bytes =
    token_text.stringify
      (obj (field (codes "id") (num 1) (field (codes "result") (str (codes "ok")) end)))

abbrev turns : List (Turn × ℕ)
turns =
    (Turn.calls (codes "fs.stat") Json.null none, 4)
    ∷ (Turn.calls (codes "fs.read") Json.null (some false), 5)
    ∷ (Turn.aborts 2, 6)
    ∷ (Turn.receives (header (length reply_bytes) ++ reply_bytes), 7)
    ∷ (Turn.ends, 8)
    ∷ []

run-settled_example :
    let r = Rpc.run token_text (λ s. s) (λ b. b) turns (Rpc.init fresh 3) in
    (settled 2 r.1 + waits 2 r.0.pending ≡ issued 2 r.0.next_id)
    × (settled 2 r.1 + (if r.0.closed then 0 else waits 2 r.0.pending) ≡ issued 2 r.0.next_id)
run-settled_example = run-settled token_text (λ s. s) (λ b. b) fresh 3 turns 2

-- A call that never ends, on a connection that is silent for longer and longer.
abbrev silent : ℕ → HeartbeatTarget
silent ms = record {
  outbound_backlog_bytes = 0;
  ms_since_last_byte = ms;
  oldest_pending = some (record { age_ms = ms; request_bytes = 800 });
}

abbrev silent_ticks : List HeartbeatTarget
silent_ticks = silent 70000 ∷ silent 95000 ∷ silent 120000 ∷ []

run-silence_example :
    deads
      (Heartbeat.run default_options (silence 0 1 silent_ticks) (waiting 0 0 (some 9) (0 ∷ []) 1)).1
    ≡ 1
unfolding is_making_progress
run-silence_example =
    run-silence default_options silent_ticks 0 0 (some 9) (0 ∷ []) 1 refl (omega arith)
      (refl, (refl, (refl, tt)))
