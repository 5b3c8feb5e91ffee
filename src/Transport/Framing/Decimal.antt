-- ===== src/Transport/Framing/Decimal.antt =====
-- The decimal digits in a header of plugin/src/transport/framing.ts are read back.
use mathlib.Core.List.{append_assoc, append-nil}
use obsidian_remote_ssh.Prelude.{
  ℕ, zero, suc, ◌+◌, ◌/◌, ◌%◌, ◌≤◌, ◌<◌, [], ◌∷◌, ◌++◌, ltb, Str, some, ◌≡◌, ◌≢◌, refl, ap, sym,
  ◌∙◌, arith, All, All-append, Bool-cases, inl, inr,
}
use obsidian_remote_ssh.Json.{is_space, trim_start}
use obsidian_remote_ssh.Transport.Framing.{
  digits, decimal, read_digits, parse_unsigned, parse_length, to_ascii,
}

abbrev pub IsDigit : ℕ → Type 0
IsDigit c = (48 ≤ c) × (c ≤ 57)

digits-IsDigit : (fuel n : ℕ) → All IsDigit (digits fuel n)
unfolding digits
digits-IsDigit zero n = tt
digits-IsDigit (suc fuel) n = elim (Bool-cases (ltb n 10)) [
  | inl small ↦ rw (small, digits) ((omega arith, ground arith), tt)
  | inr large ↦
      rw (large, digits)
        (All-append IsDigit (digits fuel (n / 10)) _ (digits-IsDigit fuel (n / 10))
          ((omega arith, omega arith), tt))
]

pub decimal-IsDigit : (n : ℕ) → All IsDigit (decimal n)
unfolding decimal
decimal-IsDigit n = digits-IsDigit (suc n) n

digits-ne-nil : (fuel n : ℕ) → digits (suc fuel) n ≢ []
unfolding digits
digits-ne-nil fuel n = elim (Bool-cases (ltb n 10)) [
  | inl small ↦ rw (small, digits) (ground arith)
  | inr large ↦ rw (large, digits) (append-ne-nil (digits fuel (n / 10)) _)
]
  where
    append-ne-nil : (xs : Str) (c : ℕ) → xs ++ c ∷ [] ≢ []
    append-ne-nil [] c = ground arith
    append-ne-nil (x ∷ xs) c = ground arith

read_digits-digits :
    (fuel n : ℕ) (s : Str) → n < fuel → read_digits (digits fuel n ++ s) 0 ≡ read_digits s n
unfolding digits read_digits
read_digits-digits zero n s h = absurd (omega arith)
read_digits-digits (suc fuel) n s h = elim (Bool-cases (ltb n 10)) [
  | inl small ↦ rw (small, digits) (ground arith)
  | inr large ↦
      rw (large, digits, append_assoc (digits fuel (n / 10)) ((48 + n % 10) ∷ []) s)
        (read_digits-digits fuel (n / 10) ((48 + n % 10) ∷ s) (ground arith) ∙ ground arith)
]

parse_unsigned-digits :
    (ds : Str) → All IsDigit ds → ds ≢ [] → parse_unsigned ds ≡ some (read_digits ds 0)
unfolding parse_unsigned
parse_unsigned-digits [] h k = absurd (k refl)
parse_unsigned-digits (c ∷ ds) h k = let low = h.0.0 in let high = h.0.1 in ground arith

parse_length-digits : (ds : Str) → All IsDigit ds → ds ≢ [] → parse_length ds ≡ parse_unsigned ds
unfolding parse_length trim_start is_space
parse_length-digits [] h k = absurd (k refl)
parse_length-digits (c ∷ ds) h k = let low = h.0.0 in let high = h.0.1 in ground arith

pub parse_length-decimal : (n : ℕ) → parse_length (decimal n) ≡ some n
unfolding decimal
parse_length-decimal n =
    let ds = decimal-IsDigit n in
    let ne = digits-ne-nil n n in
    parse_length-digits (decimal n) ds ne
    ∙ parse_unsigned-digits (decimal n) ds ne
    ∙ ap (λ t. some (read_digits t 0)) (sym (append-nil (decimal n)))
    ∙ ap some (read_digits-digits (suc n) n [] (omega arith))
    ∙ unfold read_digits in refl

pub to_ascii-digits : (ds : Str) → All IsDigit ds → to_ascii ds ≡ ds
to_ascii-digits [] h = refl
to_ascii-digits (c ∷ ds) h =
    let low = h.0.0 in let high = h.0.1 in ground (arith, to_ascii-digits ds h.1)
