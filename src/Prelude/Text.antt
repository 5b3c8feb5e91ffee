-- ===== src/Prelude/Text.antt =====
-- JavaScript strings as lists of UTF-16 code units, and byte buffers as lists of bytes.
use Prim.Native.Nat.{◌+◌, ◌≤◌, ℕ}
use Prim.Native.Char.{code}
use Prim.Native.String.{String}
use mathlib.Core.Path.{◌≡◌, refl, ap, ap₂, sym, ◌∙◌}
use mathlib.Core.Logic.{◌≢◌, inl, inr}
use mathlib.Core.Bool.{Bool, true, false, ◌&&◌}
use mathlib.Core.List.{List, [], ◌∷◌, ◌++◌, append-nil}
use native.Mathlib.Decide.{ℕ_discrete}
use native.Mathlib.Omega.{arith}
use obsidian_remote_ssh.Prelude.Tests.{leb, ltb, Bool-cases, Eq, ◌=ℕ◌, if◌then◌else◌, nat_eq}
use obsidian_remote_ssh.Prelude.Lists.{All, length, length-append, drop}

abbrev pub Str : Type 0
Str = List ℕ

-- The code units of an ASCII literal.
abbrev pub codes : String → Str
codes String.[] = []
codes (String.◌∷◌ c s) = code c ∷ codes s

unfoldable pub str_discrete : Discrete Str
str_discrete = hlevel ℕ_discrete

instance abbrev pub str_eq : Eq Str
str_eq = record { dec = str_discrete }

-- `s.startsWith(p)`
abbrev pub starts_with : Str → Str → Bool
starts_with s [] = true
starts_with [] (c ∷ p) = false
starts_with (d ∷ s) (c ∷ p) = (d =ℕ c) && starts_with s p

-- `s.endsWith(p)`
unfoldable pub ends_with : Str → Str → Bool
ends_with s p = starts_with (mathlib.Core.List.reverse s) (mathlib.Core.List.reverse p)

-- `s.split(c)`, for a separator of one code unit.
abbrev cons_head : ℕ → List Str → List Str
cons_head c [] = (c ∷ []) ∷ []
cons_head c (x ∷ xs) = (c ∷ x) ∷ xs

unfoldable pub split : ℕ → Str → List Str
split sep [] = [] ∷ []
split sep (c ∷ s) = if c =ℕ sep then [] ∷ split sep s else cons_head c (split sep s)

-- `xs.join(sep)`
unfoldable pub join : Str → List Str → Str
join sep [] = []
join sep (x ∷ []) = x
join sep (x ∷ y ∷ xs) = x ++ (sep ++ join sep (y ∷ xs))

-- A prefix is what stands in front.
pub starts_with_append : (p s : Str) → starts_with (p ++ s) p ≡ true
starts_with_append [] s = refl
starts_with_append (c ∷ p) s = ground (arith, starts_with_append p s)

pub starts_with_inv : (s p : Str) → starts_with s p ≡ true → s ≡ p ++ drop (length p) s
starts_with_inv s [] h = refl
starts_with_inv [] (c ∷ p) h = ground arith
starts_with_inv (d ∷ s) (c ∷ p) h = ground (arith, starts_with_inv s p)

join-cons_head :
    (sep : ℕ) (c : ℕ) (xs : List Str)
    → xs ≢ []
    → join (sep ∷ []) (cons_head c xs) ≡ c ∷ join (sep ∷ []) xs
unfolding join
join-cons_head sep c [] h = absurd (h refl)
join-cons_head sep c (x ∷ []) h = refl
join-cons_head sep c (x ∷ y ∷ xs) h = refl

pub split-ne-nil : (sep : ℕ) (s : Str) → split sep s ≢ []
unfolding split
split-ne-nil sep [] = ground arith
split-ne-nil sep (c ∷ s) = ground (arith, cons_head-ne-nil c (split sep s))
  where
    cons_head-ne-nil : (d : ℕ) (xs : List Str) → cons_head d xs ≢ []
    cons_head-ne-nil d [] = ground arith
    cons_head-ne-nil d (x ∷ xs) = ground arith

pub length-split_pos : (sep : ℕ) (s : Str) → 1 ≤ length (split sep s)
length-split_pos sep s = go (split sep s) (split-ne-nil sep s)
  where
    go : (xs : List Str) → xs ≢ [] → 1 ≤ length xs
    go [] h = absurd (h refl)
    go (x ∷ xs) h = omega arith

-- A separator ends a part.
pub split-append : (sep : ℕ) (p s : Str) → split sep (p ++ sep ∷ s) ≡ split sep p ++ split sep s
unfolding split
split-append sep [] s = ground arith
split-append sep (c ∷ p) s = ground (
  arith,
  split-append sep p s,
  cons_head-append c (split sep p) (split sep s) (split-ne-nil sep p),
)
  where
    cons_head-append :
        (d : ℕ) (xs ys : List Str) → xs ≢ [] → cons_head d (xs ++ ys) ≡ cons_head d xs ++ ys
    cons_head-append d [] ys h = absurd (h refl)
    cons_head-append d (x ∷ xs) ys h = refl

pub length-split_append :
    (sep : ℕ) (p s : Str)
    → length (split sep (p ++ sep ∷ s)) ≡ length (split sep p) + length (split sep s)
length-split_append sep p s =
    ap length (split-append sep p s) ∙ length-append (split sep p) (split sep s)

join-cons :
    (sep : ℕ) (x : Str) (xs : List Str)
    → xs ≢ []
    → join (sep ∷ []) (x ∷ xs) ≡ x ++ (sep ∷ join (sep ∷ []) xs)
unfolding join
join-cons sep x [] h = absurd (h refl)
join-cons sep x (y ∷ xs) h = refl

-- Joining the parts with the separator gives the text back.
pub join-split : (sep : ℕ) (s : Str) → join (sep ∷ []) (split sep s) ≡ s
unfolding split
join-split sep [] = unfold join in refl
join-split sep (c ∷ s) = elim (Bool-cases (c =ℕ sep)) [
  | inl here ↦ rw here (
      join-cons sep [] (split sep s) (split-ne-nil sep s)
      ∙ ap₂ ◌∷◌ (sym (=ℕ→≡ c sep here)) (join-split sep s))
  | inr other ↦
      rw other
        (join-cons_head sep c (split sep s) (split-ne-nil sep s) ∙ ap (◌∷◌ c) (join-split sep s))
]
  where
    =ℕ→≡ : (x y : ℕ) → (x =ℕ y) ≡ true → x ≡ y
    =ℕ→≡ x y h = ground arith

-- The length in bytes of a string in UTF-8, as `TextEncoder` writes it: a surrogate pair takes four
-- bytes, and a surrogate alone is written as U+FFFD.
abbrev is_high : ℕ → Bool
is_high c = leb 0xd800 c && leb c 0xdbff

abbrev is_low : ℕ → Bool
is_low c = leb 0xdc00 c && leb c 0xdfff

-- The bytes of a code unit that is no part of a pair.
abbrev pub unit_length : ℕ → ℕ
unit_length c = if ltb c 0x80 then 1 else if ltb c 0x800 then 2 else 3

unfoldable pub utf8_length : Str → ℕ
utf8_length [] = 0
utf8_length (c ∷ []) = unit_length c
utf8_length (c ∷ d ∷ s) =
    let pair = utf8_length s + 4 in
    let single = unit_length c + utf8_length (d ∷ s) in
    if is_high c && is_low d then pair else single

-- A newline stands by itself.
pub utf8_length-newline :
    (s t : Str) → utf8_length (s ++ 10 ∷ t) ≡ utf8_length s + 1 + utf8_length t
unfolding utf8_length
utf8_length-newline [] [] = refl
utf8_length-newline [] (d ∷ t) = ground arith
utf8_length-newline (c ∷ []) t = ground (arith, utf8_length-newline [] t)
utf8_length-newline (c ∷ d ∷ s) t =
    ground (arith, utf8_length-newline s t, utf8_length-newline (d ∷ s) t)

pub split-newline :
    (sep : ℕ) (l rest : Str)
    → All (λ c. c ≢ sep) l
    → split sep (l ++ sep ∷ rest) ≡ l ∷ split sep rest
unfolding split
split-newline sep [] rest h = ground arith
split-newline sep (c ∷ l) rest (here, h) =
    let other : (c =ℕ sep) ≡ false = ground arith in rw (other, split-newline sep l rest h) refl

pub split-one : (sep : ℕ) (l : Str) → All (λ c. c ≢ sep) l → split sep l ≡ l ∷ []
unfolding split
split-one sep [] h = refl
split-one sep (c ∷ l) (here, h) =
    let other : (c =ℕ sep) ≡ false = ground arith in rw (other, split-one sep l h) refl
