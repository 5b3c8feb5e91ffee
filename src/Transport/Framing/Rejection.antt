-- ===== src/Transport/Framing/Rejection.antt =====
-- What plugin/src/transport/framing.ts does with a message above its limit.
use obsidian_remote_ssh.Prelude.{
  ℕ, suc, ◌+◌, ◌<◌, List, [], ◌∷◌, ◌++◌, true, false, ltb, none, some, ◌≡◌, ap, ◌∙◌, arith,
  if◌then◌else◌, length, length-append, take, take-length-append, Bool-cases, inl, inr,
}
use obsidian_remote_ssh.Transport.Framing.{
  FramedDuplex, error, message_too_large, end_stream, close, header, find_header_end,
  parse_content_length, to_ascii, close_duplex, try_consume_frame, drain, on_data,
}
use obsidian_remote_ssh.Transport.Framing.Header.{
  find_header_end-header, parse_content_length-header,
}
use obsidian_remote_ssh.Transport.Framing.Drain.{drain-stops}
use mathlib.Core.List.{append-nil}

try_consume_frame-large :
    (s : FramedDuplex) (i n : ℕ)
    → s.pending_body_length ≡ none
    → find_header_end s.buffer ≡ some i
    → parse_content_length (to_ascii (take i s.buffer)) ≡ some n
    → s.max_message_bytes < n
    → try_consume_frame s ≡ (
      record s { closed = true },
      error (message_too_large n s.max_message_bytes)
          ∷ (if s.closed then [] else end_stream ∷ close ∷ []),
      false,
    )
unfolding try_consume_frame close_duplex
try_consume_frame-large s i n p found parsed large =
    let over : ltb s.max_message_bytes n ≡ true = ground arith in
    elim (Bool-cases s.closed) [
      | inl shut ↦
          simp (p, found, parsed, over, shut, try_consume_frame)
            (λ i. (
              record s { pending_body_length = p i; closed = shut i },
              error (message_too_large n s.max_message_bytes) ∷ [],
              false,
            ))
      | inr live ↦ simp (p, found, parsed, over, live, try_consume_frame)
    ]

-- When the header of a message above the limit has come, `onData` emits an error and closes an
-- open duplex. The bytes stay in the buffer, so that on a closed one every further chunk emits the
-- error again.
pub on_data-too_large :
    (s : FramedDuplex) (n now : ℕ) (chunk more : List ℕ)
    → s.pending_body_length ≡ none
    → s.buffer ++ chunk ≡ header n ++ more
    → s.max_message_bytes < n
    → on_data chunk now s ≡ (
      record s { last_byte_at = now; buffer = s.buffer ++ chunk; closed = true },
      error (message_too_large n s.max_message_bytes)
          ∷ (if s.closed then [] else end_stream ∷ close ∷ []),
    )
unfolding on_data
on_data-too_large s n now chunk more p e large =
    let s' : FramedDuplex = record s { last_byte_at = now; buffer = s.buffer ++ chunk } in
    let size = length (header n) in
    let found : find_header_end s'.buffer ≡ some size =
      find_header_end-header n more s'.buffer [] (append-nil s'.buffer ∙ e)
      ∙ ground (arith, ap length e, length-append (header n) more) in
    let parsed : parse_content_length (to_ascii (take size s'.buffer)) ≡ some n =
      ap (λ t. parse_content_length (to_ascii (take size t))) e
      ∙ ap (λ t. parse_content_length (to_ascii t)) (take-length-append (header n) more)
      ∙ parse_content_length-header n in
    let turn = try_consume_frame-large s' size n p found parsed large in
    let turns : length s'.buffer + 2 ≡ suc (length s'.buffer + 1) = omega arith in
    ap (λ f. drain f s') turns
    ∙ drain-stops (length s'.buffer + 1) s' (ap (λ t. t.2) turn)
    ∙ ap (λ t. (t.0, t.1)) turn
