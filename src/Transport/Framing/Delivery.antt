-- ===== src/Transport/Framing/Delivery.antt =====
-- The messages that plugin/src/transport/framing.ts delivers from a stream that arrives in chunks.
use mathlib.Core.List.{append_assoc, append-nil}
use obsidian_remote_ssh.Prelude.{
  ℕ, ◌+◌, ◌≤◌, ◌<◌, List, [], ◌∷◌, ◌++◌, map, false, Option, none, some, ◌≡◌, refl, ap, sym, ◌∙◌,
  arith, All, length, subst,
}
use obsidian_remote_ssh.Transport.Framing.{
  FramedDuplex, Event, message, header, init, write_message, on_data,
}
use obsidian_remote_ssh.Transport.Framing.Turn.{Bytes, stream, Expects, weight}
use obsidian_remote_ssh.Transport.Framing.Drain.{Delivers, Fit, stream-eq-nil, drain-Delivers}

-- What arrives, chunk by chunk, each at its time.
unfoldable pub receive : List (Bytes × ℕ) → FramedDuplex → FramedDuplex × List Event
unfolding on_data
receive [] s = (s, [])
receive ((chunk, now) ∷ chunks) s =
    let (s', events) = on_data chunk now s in
    let rest = receive chunks s' in (rest.0, events ++ rest.1)

abbrev pub joined : List (Bytes × ℕ) → Bytes
joined [] = []
joined ((chunk, now) ∷ chunks) = chunk ++ joined chunks

Expects-assoc :
    (pending : Option ℕ) (buffer chunk u : Bytes) (bodies : List Bytes)
    → Expects pending buffer (chunk ++ u) bodies
    → Expects pending (buffer ++ chunk) u bodies
Expects-assoc none buffer chunk u bodies e = append_assoc buffer chunk u ∙ e
Expects-assoc (some n) buffer chunk u [] e = e
Expects-assoc (some n) buffer chunk u (b ∷ bs) e = (e.0, append_assoc buffer chunk u ∙ e.1)

Fit-right : (limit : ℕ) (xs ys : List Bytes) → Fit limit (xs ++ ys) → Fit limit ys
Fit-right limit [] ys h = h
Fit-right limit (x ∷ xs) ys h = Fit-right limit xs ys h.1

map-append_messages :
    (xs ys : List Bytes) → map message (xs ++ ys) ≡ map message xs ++ map message ys
map-append_messages [] ys = refl
map-append_messages (x ∷ xs) ys = ap (◌∷◌ (message x)) (map-append_messages xs ys)

weight-le : (pending : Option ℕ) (buffer : Bytes) → weight pending buffer < length buffer + 2
weight-le none buffer = omega arith
weight-le (some n) buffer = omega arith

record Received (s : FramedDuplex) (bodies : List Bytes) (out : FramedDuplex × List Event)
    : Type 0 where
  sent : out.1 ≡ map message bodies
  rest : Expects out.0.pending_body_length out.0.buffer [] []
  open_still : out.0.closed ≡ s.closed

receive-Received :
    (chunks : List (Bytes × ℕ)) (s : FramedDuplex) (bodies : List Bytes)
    → Expects s.pending_body_length s.buffer (joined chunks) bodies
    → (joined chunks ≡ [] → bodies ≡ [])
    → Fit s.max_message_bytes bodies
    → Received s bodies (receive chunks s)
unfolding receive
receive-Received [] s bodies e c fits = record {
  sent = ap (map message) (sym (c refl));
  rest = subst (Expects s.pending_body_length s.buffer []) (c refl) e;
  open_still = refl;
}
receive-Received ((chunk, now) ∷ chunks) s bodies e c fits =
    let s' : FramedDuplex = record s { last_byte_at = now; buffer = s.buffer ++ chunk } in
    let d : Delivers s' (joined chunks) bodies (on_data chunk now s) =
      unfold on_data in
      drain-Delivers (length s'.buffer + 2) s' (joined chunks) bodies
        (weight-le s.pending_body_length s'.buffer)
        (Expects-assoc s.pending_body_length s.buffer chunk (joined chunks) bodies e) fits in
    let fits' : Fit s.max_message_bytes d.left =
      Fit-right s.max_message_bytes d.done d.left (subst (Fit s.max_message_bytes) d.split fits) in
    let r =
      receive-Received chunks (on_data chunk now s).0 d.left d.expects d.complete
        (rw d.limit fits') in
    record {
      sent =
          ap (λ es. es ++ (receive chunks (on_data chunk now s).0).1) d.sent
          ∙ ap (λ es. map message d.done ++ es) r.sent
          ∙ sym (map-append_messages d.done d.left)
          ∙ ap (map message) (sym d.split);
      rest = r.rest;
      open_still = r.open_still ∙ d.open_still;
    }

-- What a sender writes for these messages, one after the other; `none` is an exception.
unfoldable pub write_messages : FramedDuplex → List Bytes → Option Bytes
unfolding write_message
write_messages s [] = some []
write_messages s (b ∷ bs) = elim (write_message s b) [
  | none ↦ none
  | some w ↦ elim (write_messages s bs) [ none ↦ none | some ws ↦ some (w ++ ws) ]
]

write_messages-stream :
    (s : FramedDuplex) (bodies : List Bytes)
    → s.closed ≡ false
    → write_messages s bodies ≡ some (stream bodies)
unfolding write_messages
write_messages-stream s [] h = refl
write_messages-stream s (b ∷ bs) h =
    rw (h, write_messages, write_messages-stream s bs h)
      (ap some (append_assoc (header (length b)) b (stream bs)))

-- What one side writes, the other receives: if the bytes of these messages, none above the limit,
-- arrive on a new duplex in any chunks at any times, it emits exactly the messages in their order,
-- and no error; then it stays open, with nothing in its buffer.
pub receive-write_messages :
    (sender : FramedDuplex) (bodies : List Bytes) (chunks : List (Bytes × ℕ)) (limit start : ℕ)
    → sender.closed ≡ false
    → All (λ b. length b ≤ limit) bodies
    → write_messages sender bodies ≡ some (joined chunks)
    → ((receive chunks (init (some limit) start)).1 ≡ map message bodies)
      × ((receive chunks (init (some limit) start)).0.buffer ≡ [])
      × ((receive chunks (init (some limit) start)).0.pending_body_length ≡ none)
      × ((receive chunks (init (some limit) start)).0.closed ≡ false)
unfolding init
receive-write_messages sender bodies chunks limit start o fits w =
    let same : joined chunks ≡ stream bodies =
      some_inj (sym w ∙ write_messages-stream sender bodies o) in
    let r =
      receive-Received chunks (init (some limit) start) bodies same
        (λ nothing. stream-eq-nil bodies (sym same ∙ nothing)) fits in
    (r.sent, empty _ _ r.rest, idle _ _ r.rest, r.open_still)
  where
    some_inj : {x y : Bytes} → some x ≡ some y → x ≡ y
    some_inj e = cc e

    empty : (pending : Option ℕ) (buffer : Bytes) → Expects pending buffer [] [] → buffer ≡ []
    empty none buffer e = sym (append-nil buffer) ∙ e
    empty (some n) buffer e = absurd e

    idle : (pending : Option ℕ) (buffer : Bytes) → Expects pending buffer [] [] → pending ≡ none
    idle none buffer e = refl
    idle (some n) buffer e = absurd e
