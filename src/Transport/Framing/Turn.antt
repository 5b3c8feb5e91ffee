-- ===== src/Transport/Framing/Turn.antt =====
-- One turn of the parser's loop in plugin/src/transport/framing.ts.
use obsidian_remote_ssh.Prelude.{
  ℕ, zero, suc, ◌+◌, ◌≤◌, ◌<◌, List, [], ◌∷◌, ◌++◌, Bool, false, ltb, Option, none, some, ◌≡◌, refl,
  ap, sym, ◌∙◌, arith, All, Bool-cases, inl, inr, ◌⊎◌, length, length-append, take, drop, subst,
}
use obsidian_remote_ssh.Transport.Framing.{
  FramedDuplex, Event, message, header, find_header_end, parse_content_length, to_ascii, take_body,
  try_consume_frame,
}
use obsidian_remote_ssh.Transport.Framing.Header.{
  find_header_end-header, parse_content_length-header,
}

abbrev pub Bytes : Type 0
Bytes = List ℕ

-- The stream of these messages.
abbrev pub stream : List Bytes → Bytes
stream [] = []
stream (b ∷ bs) = header (length b) ++ (b ++ stream bs)

-- The bytes in the buffer and those still to come make up these messages.
abbrev pub Expects : Option ℕ → Bytes → Bytes → List Bytes → Type 0
Expects none buffer u bodies = buffer ++ u ≡ stream bodies
Expects (some n) buffer u [] = ⊥
Expects (some n) buffer u (b ∷ bs) = (n ≡ length b) × (buffer ++ u ≡ b ++ stream bs)

-- How many turns of the loop the bytes of the buffer can give, at most.
abbrev pub weight : Option ℕ → Bytes → ℕ
weight none buffer = length buffer
weight (some _) buffer = length buffer + 1

pub header_pos : (n : ℕ) → 0 < length (header n)
unfolding header
header_pos n = omega arith

split_front :
    (buffer u b more : Bytes)
    → buffer ++ u ≡ b ++ more
    → length b ≤ length buffer
    → (take (length b) buffer ≡ b) × (drop (length b) buffer ++ u ≡ more)
split_front buffer u [] more e h = (refl, e)
split_front [] u (c ∷ b) more e h = absurd (omega arith)
split_front (d ∷ buffer) u (c ∷ b) more e h = ground (arith, split_front buffer u b more)

length-drop : (n : ℕ) (xs : Bytes) → length (drop n xs) ≤ length xs
length-drop zero xs = omega arith
length-drop (suc n) [] = omega arith
length-drop (suc n) (x ∷ xs) = omega (arith, length-drop n xs)

length-drop_lt : (n : ℕ) (xs : Bytes) → 0 < n → n ≤ length xs → length (drop n xs) < length xs
length-drop_lt zero xs h k = absurd (omega arith)
length-drop_lt (suc n) [] h k = absurd (omega arith)
length-drop_lt (suc n) (x ∷ xs) h k = omega (arith, length-drop n xs)

-- One turn of the loop: nothing is emitted and more bytes are waited for, or the next message is.
pub record Waits (s : FramedDuplex) (u : Bytes) (bodies : List Bytes)
    (out : FramedDuplex × List Event × Bool) : Type 0 where
  pub quiet : out.1 ≡ []
  pub ends : out.2 ≡ false
  pub expects : Expects out.0.pending_body_length out.0.buffer u bodies
  pub limit : out.0.max_message_bytes ≡ s.max_message_bytes
  pub open_still : out.0.closed ≡ s.closed
  pub complete : u ≡ [] → bodies ≡ []

pub record Emits (s : FramedDuplex) (u : Bytes) (b : Bytes) (bs : List Bytes)
    (out : FramedDuplex × List Event × Bool) : Type 0 where
  pub emitted : out.1 ≡ message b ∷ []
  pub more : out.2 ≡ ltb 0 (length out.0.buffer)
  pub waiting : out.0.pending_body_length ≡ none
  pub expects : out.0.buffer ++ u ≡ stream bs
  pub limit : out.0.max_message_bytes ≡ s.max_message_bytes
  pub open_still : out.0.closed ≡ s.closed
  pub size : length out.0.buffer < weight s.pending_body_length s.buffer

abbrev pub Turn : FramedDuplex → Bytes → List Bytes → FramedDuplex × List Event × Bool → Type 0
Turn s u [] out = Waits s u [] out
Turn s u (b ∷ bs) out = Waits s u (b ∷ bs) out ⊎ Emits s u b bs out

take_body-Turn :
    (s : FramedDuplex) (u b : Bytes) (bs : List Bytes)
    → s.pending_body_length ≡ some (length b)
    → s.buffer ++ u ≡ b ++ stream bs
    → Turn s u (b ∷ bs) (take_body (length b) s)
unfolding take_body
take_body-Turn s u b bs p e = elim (Bool-cases (ltb (length s.buffer) (length b))) [
  | inl short ↦ inl (
      rw (short, take_body)
        (record {
          quiet = refl;
          ends = refl;
          expects = rw p (refl, e);
          limit = refl;
          open_still = refl;
          complete = λ nothing.
              let few : length s.buffer < length b = ground arith in
              absurd (
                omega (
                  arith,
                  ap length e,
                  ap length nothing,
                  length-append s.buffer u,
                  length-append b (stream bs),
                ));
        }))
  | inr enough ↦
      let parts = split_front s.buffer u b (stream bs) e (ground arith) in
      inr (
        rw (enough, take_body)
          (record {
            emitted = ap (λ t. message t ∷ []) parts.0;
            more = refl;
            waiting = refl;
            expects = parts.1;
            limit = refl;
            open_still = refl;
            size = rw p (omega (arith, length-drop (length b) s.buffer));
          }))
]

try_consume_frame-pending :
    (s : FramedDuplex) (n : ℕ)
    → s.pending_body_length ≡ some n
    → try_consume_frame s ≡ take_body n s
unfolding try_consume_frame
try_consume_frame-pending s n p = simp (p, try_consume_frame)

try_consume_frame-waits :
    (s : FramedDuplex)
    → s.pending_body_length ≡ none
    → find_header_end s.buffer ≡ none
    → try_consume_frame s ≡ (s, [], false)
unfolding try_consume_frame
try_consume_frame-waits s p found = simp (p, found, try_consume_frame)

try_consume_frame-header :
    (s : FramedDuplex) (i n : ℕ)
    → s.pending_body_length ≡ none
    → find_header_end s.buffer ≡ some i
    → parse_content_length (to_ascii (take i s.buffer)) ≡ some n
    → n ≤ s.max_message_bytes
    → try_consume_frame s
      ≡ take_body n (record s { buffer = drop i s.buffer; pending_body_length = some n })
unfolding try_consume_frame
try_consume_frame-header s i n p found parsed fits =
    let under : ltb s.max_message_bytes n ≡ false = ground arith in
    simp (p, found, parsed, under, try_consume_frame)

-- A turn that began by taking the header off is a turn of the whole.
from_body :
    (s : FramedDuplex) (i : ℕ) (u b : Bytes) (bs : List Bytes)
    (out : FramedDuplex × List Event × Bool)
    → s.pending_body_length ≡ none
    → 0 < i
    → i ≤ length s.buffer
    → Turn
        (record s { buffer = drop i s.buffer; pending_body_length = some (length b) })
        u
        (b ∷ bs)
        out
    → Turn s u (b ∷ bs) out
from_body s i u b bs out p h k (inl w) = inl (record {
  quiet = w.quiet;
  ends = w.ends;
  expects = w.expects;
  limit = w.limit;
  open_still = w.open_still;
  complete = w.complete;
})
from_body s i u b bs out p h k (inr e) = inr (record {
  emitted = e.emitted;
  more = e.more;
  waiting = e.waiting;
  expects = e.expects;
  limit = e.limit;
  open_still = e.open_still;
  size = rw p (omega (arith, e.size, length-drop_lt i s.buffer h k));
})

nothing_left : (buffer u : Bytes) → buffer ++ u ≡ [] → find_header_end buffer ≡ none
unfolding find_header_end
nothing_left [] u e = refl
nothing_left (c ∷ buffer) u e = ground arith

header-Waits :
    (s : FramedDuplex) (u : Bytes) (bodies : List Bytes)
    → s.pending_body_length ≡ none
    → s.buffer ++ u ≡ stream bodies
    → (u ≡ [] → bodies ≡ [])
    → Waits s u bodies (s, [], false)
header-Waits s u bodies p e c = record {
  quiet = refl;
  ends = refl;
  expects = rw p e;
  limit = refl;
  open_still = refl;
  complete = c;
}

pub try_consume_frame-Turn :
    (s : FramedDuplex) (u : Bytes) (bodies : List Bytes)
    → Expects s.pending_body_length s.buffer u bodies
    → All (λ b. length b ≤ s.max_message_bytes) bodies
    → Turn s u bodies (try_consume_frame s)
try_consume_frame-Turn s u bodies e fits = go s.pending_body_length refl bodies e fits
  where
    go :
        (pending : Option ℕ)
        → s.pending_body_length ≡ pending
        → (bodies : List Bytes) → Expects pending s.buffer u bodies
        → All (λ b. length b ≤ s.max_message_bytes) bodies
        → Turn s u bodies (try_consume_frame s)
    go (some n) p [] e fits = absurd e
    go (some n) p (b ∷ bs) e fits =
        let p' : s.pending_body_length ≡ some (length b) = p ∙ ap some e.0 in
        subst (Turn s u (b ∷ bs)) (sym (try_consume_frame-pending s (length b) p'))
          (take_body-Turn s u b bs p' e.1)
    go none p [] e fits =
        subst (Turn s u []) (sym (try_consume_frame-waits s p (nothing_left s.buffer u e)))
          (header-Waits s u [] p e (λ _. refl))
    go none p (b ∷ bs) e fits =
        let n = length b in
        let size = length (header n) in
        elim (Bool-cases (ltb (length s.buffer) size)) [
          | inl short ↦
              let found : find_header_end s.buffer ≡ none =
                find_header_end-header n (b ++ stream bs) s.buffer u e ∙ ground arith in
              let few : length s.buffer < size = ground arith in
              subst (Turn s u (b ∷ bs)) (sym (try_consume_frame-waits s p found)) (
                inl (
                  header-Waits s u (b ∷ bs) p e (λ nothing. absurd (
                    omega (
                      arith,
                      ap length e,
                      ap length nothing,
                      length-append s.buffer u,
                      length-append (header n) (b ++ stream bs),
                    )))))
          | inr enough ↦
              let found : find_header_end s.buffer ≡ some size =
                find_header_end-header n (b ++ stream bs) s.buffer u e ∙ ground arith in
              let long : size ≤ length s.buffer = ground arith in
              let parts = split_front s.buffer u (header n) (b ++ stream bs) e long in
              let parsed : parse_content_length (to_ascii (take size s.buffer)) ≡ some n =
                ap (λ t. parse_content_length (to_ascii t)) parts.0
                ∙ parse_content_length-header n in
              subst (Turn s u (b ∷ bs))
                (sym (try_consume_frame-header s size n p found parsed fits.0))
                (from_body s size u b bs _ p (header_pos n) long (
                  take_body-Turn
                    (record s { buffer = drop size s.buffer; pending_body_length = some n }) u b bs
                    refl parts.1))
        ]
