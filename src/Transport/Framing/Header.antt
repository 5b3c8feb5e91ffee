-- ===== src/Transport/Framing/Header.antt =====
-- The header that plugin/src/transport/framing.ts writes is found and read.
use mathlib.Core.List.{append_assoc, reverse, reverse_aux, reverse-reverse}
use obsidian_remote_ssh.Prelude.{
  ℕ, ◌+◌, ◌%◌, ◌<◌, List, [], ◌∷◌, ◌++◌, ltb, Str, str_discrete, none, some, ◌≡◌, ◌≢◌, refl, ap,
  sym, ◌∙◌, arith, All, All-append, if◌then◌else◌, codes, length, length-append, split,
  split-newline,
}
use native.Mathlib.Decide.{ℕ_discrete}
use obsidian_remote_ssh.Json.{is_space, trim, trim_start}
use obsidian_remote_ssh.Transport.Framing.{
  decimal, header, crlf_end, lf_end, find_header_end, to_ascii, drop_cr, split_lines, non_empty,
  index_of, parse_lines, parse_content_length,
}
use obsidian_remote_ssh.Transport.Framing.Decimal.{
  IsDigit, decimal-IsDigit, parse_length-decimal, to_ascii-digits,
}

abbrev crlf_crlf : List ℕ
crlf_crlf = 13 ∷ 10 ∷ 13 ∷ 10 ∷ []

-- Neither of the two bytes that end a line.
abbrev IsInLine : ℕ → Type 0
IsInLine c = (c ≢ 10) × (c ≢ 13)

-- What has come of a line, its end and more: the search finds the end when it has come, and not
-- before.
crlf_end-line :
    (i : ℕ) (line more buf u : List ℕ)
    → All IsInLine line
    → buf ++ u ≡ line ++ (13 ∷ 10 ∷ 13 ∷ 10 ∷ more)
    → crlf_end i buf
      ≡ (if ltb (length buf) (length line + 4) then none else some (i + length line + 1))
unfolding crlf_end
crlf_end-line i line more [] u l e = ground arith
crlf_end-line i [] more (a ∷ []) u l e = ground arith
crlf_end-line i [] more (a ∷ b ∷ []) u l e = ground arith
crlf_end-line i [] more (a ∷ b ∷ c ∷ []) u l e = ground arith
crlf_end-line i [] more (a ∷ b ∷ c ∷ d ∷ buf) u l e = ground arith
crlf_end-line i (x ∷ line) more (a ∷ buf) u l e =
    let here = l.0.1 in ground (arith, crlf_end-line (i + 1) line more buf u l.1)

lf_end-line :
    (i : ℕ) (line more buf u : List ℕ)
    → All IsInLine line
    → buf ++ u ≡ line ++ (13 ∷ 10 ∷ 13 ∷ 10 ∷ more)
    → length buf < length line + 4
    → lf_end i buf ≡ none
unfolding lf_end
lf_end-line i line more [] u l e h = refl
lf_end-line i [] more (a ∷ []) u l e h = ground arith
lf_end-line i [] more (a ∷ b ∷ []) u l e h = ground arith
lf_end-line i [] more (a ∷ b ∷ c ∷ []) u l e h = ground arith
lf_end-line i [] more (a ∷ b ∷ c ∷ d ∷ buf) u l e h = absurd (omega arith)
lf_end-line i (x ∷ line) more (a ∷ buf) u l e h =
    let here = l.0.0 in ground (arith, lf_end-line (i + 1) line more buf u l.1)

-- The line of the header.
abbrev line_of : ℕ → Str
line_of n = codes "Content-Length: " ++ decimal n

header-line_of : (n : ℕ) → header n ≡ line_of n ++ crlf_crlf
unfolding header
header-line_of n = refl

digits-IsInLine : (ds : Str) → All IsDigit ds → All IsInLine ds
digits-IsInLine [] h = tt
digits-IsInLine (c ∷ ds) h = let low = h.0.0 in ((omega arith, omega arith), digits-IsInLine ds h.1)

line_of-IsInLine : (n : ℕ) → All IsInLine (line_of n)
line_of-IsInLine n =
    All-append IsInLine (codes "Content-Length: ") (decimal n) (ground arith)
      (digits-IsInLine (decimal n) (decimal-IsDigit n))

-- When a prefix of a frame has come, the end of its header is found if it has come.
pub find_header_end-header :
    (n : ℕ) (more buf u : List ℕ)
    → buf ++ u ≡ header n ++ more
    → find_header_end buf
      ≡ (if ltb (length buf) (length (header n)) then none else some (length (header n)))
unfolding find_header_end
find_header_end-header n more buf u e =
    let e' : buf ++ u ≡ line_of n ++ (13 ∷ 10 ∷ 13 ∷ 10 ∷ more) =
      e ∙ ap (λ t. t ++ more) (header-line_of n) ∙ append_assoc (line_of n) crlf_crlf more in
    let size : length (header n) ≡ length (line_of n) + 4 =
      ap length (header-line_of n) ∙ length-append (line_of n) crlf_crlf in
    rw size (
      ground (
        arith,
        crlf_end-line 3 (line_of n) more buf u (line_of-IsInLine n) e',
        lf_end-line 1 (line_of n) more buf u (line_of-IsInLine n) e',
      ))

trim_start-digits : (ds : Str) → All IsDigit ds → trim_start ds ≡ ds
unfolding trim_start is_space
trim_start-digits [] h = refl
trim_start-digits (c ∷ ds) h = let low = h.0.0 in let high = h.0.1 in ground arith

reverse_aux-IsDigit :
    (ds acc : Str) → All IsDigit ds → All IsDigit acc → All IsDigit (reverse_aux ds acc)
reverse_aux-IsDigit [] acc h k = k
reverse_aux-IsDigit (c ∷ ds) acc h k = reverse_aux-IsDigit ds (c ∷ acc) h.1 (h.0, k)

trim-digits : (ds : Str) → All IsDigit ds → trim (32 ∷ ds) ≡ ds
unfolding trim is_space
trim-digits ds h =
    let front : trim_start (32 ∷ ds) ≡ ds = unfold trim_start in trim_start-digits ds h in
    rw (front, trim_start-digits (reverse ds) (reverse_aux-IsDigit ds [] h tt)) (reverse-reverse ds)

drop_cr-concat : (l : Str) → drop_cr (l ++ 13 ∷ []) ≡ l
drop_cr-concat [] = refl
drop_cr-concat (c ∷ []) = refl
drop_cr-concat (c ∷ d ∷ l) = ap (◌∷◌ c) (drop_cr-concat (d ∷ l))

has_no_lf : (l : Str) → All IsInLine l → All (λ c. c ≢ 10) l
has_no_lf [] h = tt
has_no_lf (c ∷ l) h = (h.0.0, has_no_lf l h.1)

split_lines-header : (n : ℕ) → non_empty (split_lines (header n)) ≡ line_of n ∷ []
unfolding split_lines split
split_lines-header n =
    let whole : header n ≡ (line_of n ++ 13 ∷ []) ++ (10 ∷ 13 ∷ 10 ∷ []) =
      header-line_of n ∙ sym (append_assoc (line_of n) (13 ∷ []) (10 ∷ 13 ∷ 10 ∷ [])) in
    let parts = split-newline 10 (line_of n ++ 13 ∷ []) (13 ∷ 10 ∷ []) (
      All-append (λ c. c ≢ 10) (line_of n) (13 ∷ []) (has_no_lf (line_of n) (line_of-IsInLine n))
        (omega arith, tt)) in
    rw (whole, parts, drop_cr-concat (line_of n)) refl

to_ascii-append : (s t : Str) → to_ascii (s ++ t) ≡ to_ascii s ++ to_ascii t
to_ascii-append [] t = refl
to_ascii-append (c ∷ s) t = ap (◌∷◌ (c % 128)) (to_ascii-append s t)

to_ascii-header : (n : ℕ) → to_ascii (header n) ≡ header n
unfolding header
to_ascii-header n =
    ap (λ t. codes "Content-Length: " ++ t)
      (to_ascii-append (decimal n) crlf_crlf
        ∙ ap (λ t. t ++ crlf_crlf) (to_ascii-digits (decimal n) (decimal-IsDigit n)))

-- The header of a frame is read as the length that it was written for.
pub parse_content_length-header : (n : ℕ) → parse_content_length (to_ascii (header n)) ≡ some n
unfolding parse_content_length parse_lines index_of str_discrete ℕ_discrete is_space trim_start trim
parse_content_length-header n =
    rw
      (
        to_ascii-header n,
        split_lines-header n,
        trim-digits (decimal n) (decimal-IsDigit n),
        parse_length-decimal n,
      )
      refl
