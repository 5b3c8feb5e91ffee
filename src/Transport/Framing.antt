-- ===== src/Transport/Framing.antt =====
-- plugin/src/transport/framing.ts: messages on a stream of bytes, each behind a header with its
-- length. The stream is a parameter: what it delivers are calls of `on_data` and `on_end`, and what
-- is written to it is returned. A number in a header is exact here, where JavaScript rounds above
-- 2 ^ 53.
pub mod Decimal
pub mod Header
pub mod Turn
pub mod Drain
pub mod Delivery
pub mod Rejection
use Prim.Native.Nat.{◌/◌, ◌%◌}
use obsidian_remote_ssh.Prelude.{
  ℕ, zero, suc, ◌+◌, ◌-◌, ◌*◌, List, [], ◌∷◌, ◌++◌, map, Bool, true, false, if◌then◌else◌, ltb, leb,
  ◌=ℕ◌, ◌==◌, ◌&&◌, Str, str_eq, codes, starts_with, split, Option, none, some, length, take, drop,
}
use obsidian_remote_ssh.Json.{trim, trim_start}

pub data FrameError : Type 0 where
  missing_content_length : FrameError
  message_too_large : (length limit : ℕ) → FrameError

-- What `emit` is called with, and the end of the stream that `close` asks for.
pub data Event : Type 0 where
  message : List ℕ → Event
  error : FrameError → Event
  end_stream close : Event

pub record FramedDuplex : Type 0 where
  pub buffer : List ℕ
  pub last_byte_at : ℕ
  pub pending_body_length : Option ℕ
  pub max_message_bytes : ℕ
  pub closed : Bool

-- `new FramedDuplex(stream, { maxMessageBytes })`
unfoldable pub init : Option ℕ → ℕ → FramedDuplex
init max_message_bytes now = record {
  buffer = [];
  last_byte_at = now;
  pending_body_length = none;
  max_message_bytes = elim max_message_bytes [ none ↦ 16 * 1024 * 1024 | some n ↦ n ];
  closed = false;
}

-- A number in a template literal: its decimal digits.
unfoldable pub digits : ℕ → ℕ → Str
digits zero n = []
digits (suc fuel) n = elim (ltb n 10) [
  | true ↦ (48 + n) ∷ []
  | false ↦ digits fuel (n / 10) ++ (48 + n % 10) ∷ []
]

unfoldable pub decimal : ℕ → Str
unfolding digits
decimal n = digits (suc n) n

-- `Content-Length: ${body.length}\r\n\r\n`
unfoldable pub header : ℕ → List ℕ
unfolding decimal
header n = codes "Content-Length: " ++ (decimal n ++ (13 ∷ 10 ∷ 13 ∷ 10 ∷ []))

-- What is written to the stream; `none` is the exception.
unfoldable pub write_message : FramedDuplex → List ℕ → Option (List ℕ)
unfolding header
write_message s body = if s.closed then none else some (header (length body) ++ body)

unfoldable pub close_duplex : FramedDuplex → FramedDuplex × List Event
close_duplex s = if s.closed then (s, []) else (record s { closed = true }, end_stream ∷ close ∷ [])

unfoldable pub on_end : FramedDuplex → FramedDuplex × List Event
on_end s = if s.closed then (s, []) else (record s { closed = true }, close ∷ [])

unfoldable pub ms_since_last_byte : FramedDuplex → ℕ → ℕ
ms_since_last_byte s now = now - s.last_byte_at

-- The two loops of `findHeaderEnd`, on what stands from `i - 3`, and from `i - 1`, on.
unfoldable pub crlf_end : ℕ → List ℕ → Option ℕ
crlf_end i [] = none
crlf_end i (c ∷ s) =
    let rest = crlf_end (i + 1) s in
    if starts_with (c ∷ s) (13 ∷ 10 ∷ 13 ∷ 10 ∷ []) then some (i + 1) else rest

unfoldable pub lf_end : ℕ → List ℕ → Option ℕ
lf_end i [] = none
lf_end i (c ∷ s) =
    let rest = lf_end (i + 1) s in if starts_with (c ∷ s) (10 ∷ 10 ∷ []) then some (i + 1) else rest

-- `none` is -1.
unfoldable pub find_header_end : List ℕ → Option ℕ
unfolding crlf_end lf_end
find_header_end buf = elim (crlf_end 3 buf) [ some i ↦ some i | none ↦ lf_end 1 buf ]

-- `buf.toString('ascii')`
abbrev pub to_ascii : List ℕ → Str
to_ascii = map (λ c. c % 128)

-- `s.split(/\r?\n/)`: a line break takes a carriage return in front of it along.
abbrev pub drop_cr : Str → Str
drop_cr [] = []
drop_cr (c ∷ []) = if c =ℕ 13 then [] else c ∷ []
drop_cr (c ∷ d ∷ s) = c ∷ drop_cr (d ∷ s)

abbrev pub drop_crs : List Str → List Str
drop_crs [] = []
drop_crs (l ∷ []) = l ∷ []
drop_crs (l ∷ m ∷ ls) = drop_cr l ∷ drop_crs (m ∷ ls)

unfoldable pub split_lines : Str → List Str
unfolding split
split_lines s = drop_crs (split 10 s)

-- `lines.filter(Boolean)`
abbrev pub non_empty : List Str → List Str
non_empty [] = []
non_empty ([] ∷ ls) = non_empty ls
non_empty ((c ∷ l) ∷ ls) = (c ∷ l) ∷ non_empty ls

-- `line.indexOf(c)`; `none` is -1.
unfoldable pub index_of : ℕ → Str → Option ℕ
index_of c [] = none
index_of c (d ∷ s) =
    let rest = index_of c s in
    if d =ℕ c then some 0 else elim rest [ none ↦ none | some i ↦ some (i + 1) ]

-- `toLowerCase` on ASCII.
abbrev pub to_lower_case : Str → Str
to_lower_case = map (λ c. if leb 65 c && leb c 90 then c + 32 else c)

abbrev pub is_digit : ℕ → Bool
is_digit c = leb 48 c && leb c 57

unfoldable pub read_digits : Str → ℕ → ℕ
read_digits [] acc = acc
read_digits (c ∷ s) acc =
    let more = read_digits s (acc * 10 + (c - 48)) in if is_digit c then more else acc

-- `parseInt` behind the sign; `none` is `NaN`.
unfoldable pub parse_unsigned : Str → Option ℕ
unfolding read_digits
parse_unsigned [] = none
parse_unsigned (c ∷ s) = if is_digit c then some (read_digits (c ∷ s) 0) else none

-- `parseInt(value, 10)` where it is finite and not negative.
unfoldable pub parse_length : Str → Option ℕ
unfolding parse_unsigned trim_start
parse_length value = elim (trim_start value) [
  | [] ↦ none
  | c ∷ s ↦
      if c =ℕ 43
      then parse_unsigned s
      else if c =ℕ 45
      then elim (parse_unsigned s) [ some zero ↦ some 0 | _ ↦ none ]
      else parse_unsigned (c ∷ s)
]

unfoldable pub parse_lines : List Str → Option ℕ
unfolding index_of parse_length trim
parse_lines [] = none
parse_lines (line ∷ lines) =
    let later = parse_lines lines in
    elim (index_of 58 line) [
      | none ↦ later
      | some colon ↦
          if to_lower_case (trim (take colon line)) == codes "content-length"
          then elim (parse_length (trim (drop (colon + 1) line))) [ none ↦ later | some n ↦ some n ]
          else later
    ]

unfoldable pub parse_content_length : Str → Option ℕ
unfolding parse_lines split_lines
parse_content_length headers = parse_lines (non_empty (split_lines headers))

-- The frame's body, once the length is known: the state, what is emitted, and whether there may be
-- more.
unfoldable pub take_body : ℕ → FramedDuplex → FramedDuplex × List Event × Bool
take_body n s =
    let rest = drop n s.buffer in
    if ltb (length s.buffer) n then (s, [], false) else (
      record s { buffer = rest; pending_body_length = none },
      message (take n s.buffer) ∷ [],
      ltb 0 (length rest),
    )

abbrev reject : FrameError → FramedDuplex → FramedDuplex × List Event × Bool
reject e s = ((close_duplex s).0, error e ∷ (close_duplex s).1, false)

unfoldable pub try_consume_frame : FramedDuplex → FramedDuplex × List Event × Bool
unfolding take_body close_duplex find_header_end parse_content_length
try_consume_frame s = elim s.pending_body_length [
  | some n ↦ take_body n s
  | none ↦ elim (find_header_end s.buffer) [
    | none ↦ (s, [], false)
    | some body_start ↦ elim (parse_content_length (to_ascii (take body_start s.buffer))) [
      | none ↦ reject missing_content_length s
      | some n ↦
          if ltb s.max_message_bytes n
          then reject (message_too_large n s.max_message_bytes) s
          else take_body n
              (record s { buffer = drop body_start s.buffer; pending_body_length = some n })
    ]
  ]
]

-- The `while` loop of `onData`.
unfoldable pub drain : ℕ → FramedDuplex → FramedDuplex × List Event
unfolding try_consume_frame
drain zero s = (s, [])
drain (suc fuel) s =
    let (s', events, more) = try_consume_frame s in
    elim more [
      | false ↦ (s', events)
      | true ↦ let rest = drain fuel s' in (rest.0, events ++ rest.1)
    ]

-- `drain` needs no more turns than the buffer has bytes, but for the first and the last.
unfoldable pub on_data : List ℕ → ℕ → FramedDuplex → FramedDuplex × List Event
unfolding drain
on_data chunk now s =
    let s' = record s { last_byte_at = now; buffer = s.buffer ++ chunk } in
    drain (length s'.buffer + 2) s'
