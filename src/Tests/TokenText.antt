-- ===== src/Tests/TokenText.antt =====
-- A text for JSON values, one code unit for each token, which shows that what is assumed of
-- `JSON.stringify` and `JSON.parse` can hold.
use mathlib.Core.List.{reverse, reverse_aux, append_assoc, reverse-reverse, reverse_aux, append-nil}
use obsidian_remote_ssh.Prelude.{
  ℕ, zero, suc, ◌+◌, ◌-◌, ◌≤◌, ◌<◌, [], ◌∷◌, ◌++◌, map, true, false, Str, Option, none, some, ◌≡◌,
  ◌≢◌, refl, arith, All, All-append, length, length-append, ap, ◌∙◌, sym, take, drop,
  take-length-append, drop-length-append,
}
use obsidian_remote_ssh.Json.{
  Json, null, bool, num, str, arr, obj, Items, nil, cons, Fields, end, field, JsonText, is_space,
  trim_start, trim,
}

-- A number, above all that `trim` takes off.
abbrev base : ℕ
base = 0x10000

abbrev lift : Str → Str
lift = map (λ c. c + base)

abbrev lower : Str → Str
lower = map (λ c. c - base)

lower-lift : (s : Str) → lower (lift s) ≡ s
lower-lift [] = refl
lower-lift (c ∷ s) = ground (arith, lower-lift s)

abbrev write_str : Str → Str
write_str s = (length s + base) ∷ lift s

unfoldable mutual
  pub write : Json → Str
  write null = 0 ∷ []
  write (bool false) = 1 ∷ []
  write (bool true) = 2 ∷ []
  write (num n) = 3 ∷ (n + base) ∷ []
  write (str s) = 4 ∷ write_str s
  write (arr vs) = 5 ∷ write_items vs
  write (obj fs) = 6 ∷ write_fields fs

  pub write_items : Items → Str
  write_items nil = 0 ∷ []
  write_items (cons v vs) = 1 ∷ write v ++ write_items vs

  pub write_fields : Fields → Str
  write_fields end = 0 ∷ []
  write_fields (field k v fs) = 1 ∷ write_str k ++ (write v ++ write_fields fs)

abbrev bind {ℓ κ} :
    {A : Type ℓ} {B : Type κ} → Option (A × Str) → (A → Str → Option (B × Str)) → Option (B × Str)
bind none k = none
bind (some (a, s)) k = k a s

unfoldable pub read_str : Str → Option (Str × Str)
read_str [] = none
read_str (n ∷ s) = some (lower (take (n - base) s), drop (n - base) s)

abbrev wrap {ℓ} : {A : Type ℓ} → (A → Json) → A → Str → Option (Json × Str)
wrap f a s = some (f a, s)

unfoldable mutual
  pub read : ℕ → Str → Option (Json × Str)
  read zero s = none
  read (suc f) [] = none
  read (suc f) (zero ∷ s) = some (null, s)
  read (suc f) (suc zero ∷ s) = some (bool false, s)
  read (suc f) (suc (suc zero) ∷ s) = some (bool true, s)
  read (suc f) (suc (suc (suc zero)) ∷ []) = none
  read (suc f) (suc (suc (suc zero)) ∷ n ∷ s) = some (num (n - base), s)
  read (suc f) (suc (suc (suc (suc zero))) ∷ s) = bind (read_str s) (wrap str)
  read (suc f) (suc (suc (suc (suc (suc zero)))) ∷ s) = bind (read_items f s) (wrap arr)
  read (suc f) (suc (suc (suc (suc (suc (suc n))))) ∷ s) = bind (read_fields f s) (wrap obj)

  pub read_items : ℕ → Str → Option (Items × Str)
  read_items zero s = none
  read_items (suc f) [] = none
  read_items (suc f) (zero ∷ s) = some (nil, s)
  read_items (suc f) (suc n ∷ s) =
      bind (read f s) (λ v s'. bind (read_items f s') (λ vs s''. some (cons v vs, s'')))

  pub read_fields : ℕ → Str → Option (Fields × Str)
  read_fields zero s = none
  read_fields (suc f) [] = none
  read_fields (suc f) (zero ∷ s) = some (end, s)
  read_fields (suc f) (suc n ∷ s) = bind (read_str s) (λ k s1.
      bind (read f s1) (λ v s2. bind (read_fields f s2) (λ fs s3. some (field k v fs, s3))))

length-lift : (s : Str) → length (lift s) ≡ length s
length-lift [] = refl
length-lift (c ∷ s) = ap suc (length-lift s)

read_str-write_str : (s rest : Str) → read_str (write_str s ++ rest) ≡ some (s, rest)
unfolding read_str
read_str-write_str s rest =
    let e : length s + base - base ≡ length (lift s) = omega (arith, length-lift s) in
    rw (e, take-length-append (lift s) rest, drop-length-append (lift s) rest, lower-lift s) refl

mutual
  cost : Json → ℕ
  cost null = 1
  cost (bool b) = 1
  cost (num n) = 1
  cost (str s) = 1
  cost (arr vs) = suc (cost_items vs)
  cost (obj fs) = suc (cost_fields fs)

  cost_items : Items → ℕ
  cost_items nil = 1
  cost_items (cons v vs) = suc (cost v + cost_items vs)

  cost_fields : Fields → ℕ
  cost_fields end = 1
  cost_fields (field k v fs) = suc (cost v + cost_fields fs)

cost_pos : (v : Json) → 0 < cost v
unfolding cost
cost_pos null = omega arith
cost_pos (bool b) = omega arith
cost_pos (num n) = omega arith
cost_pos (str s) = omega arith
cost_pos (arr vs) = omega arith
cost_pos (obj fs) = omega arith

mutual
  unfolding read write cost

  read-write :
      (v : Json) (f : ℕ) (rest : Str) → cost v ≤ f → read f (write v ++ rest) ≡ some (v, rest)
  read-write v zero rest h = absurd (omega (arith, cost_pos v))
  read-write null (suc f) rest h = refl
  read-write (bool false) (suc f) rest h = refl
  read-write (bool true) (suc f) rest h = refl
  read-write (num n) (suc f) rest h = ground arith
  read-write (str s) (suc f) rest h = rw (read_str-write_str s rest) refl
  read-write (arr vs) (suc f) rest h = rw (read_items-write vs f rest (omega arith)) refl
  read-write (obj fs) (suc f) rest h = rw (read_fields-write fs f rest (omega arith)) refl

  read_items-write :
      (vs : Items) (f : ℕ) (rest : Str)
      → cost_items vs ≤ f
      → read_items f (write_items vs ++ rest) ≡ some (vs, rest)
  read_items-write nil zero rest h = absurd (omega arith)
  read_items-write (cons v vs) zero rest h = absurd (omega arith)
  read_items-write nil (suc f) rest h = refl
  read_items-write (cons v vs) (suc f) rest h =
      rw
        (
          append_assoc (write v) (write_items vs) rest,
          read-write v f (write_items vs ++ rest) (omega arith),
          read_items-write vs f rest (omega arith),
        )
        refl

  read_fields-write :
      (fs : Fields) (f : ℕ) (rest : Str)
      → cost_fields fs ≤ f
      → read_fields f (write_fields fs ++ rest) ≡ some (fs, rest)
  read_fields-write end zero rest h = absurd (omega arith)
  read_fields-write (field k v fs) zero rest h = absurd (omega arith)
  read_fields-write end (suc f) rest h = refl
  read_fields-write (field k v fs) (suc f) rest h =
      rw
        (
          append_assoc (write_str k) (write v ++ write_fields fs) rest,
          append_assoc (write v) (write_fields fs) rest,
          read_str-write_str k (write v ++ (write_fields fs ++ rest)),
          read-write v f (write_fields fs ++ rest) (omega arith),
          read_fields-write fs f rest (omega arith),
        )
        refl

mutual
  unfolding write cost

  cost-le-length : (v : Json) → cost v ≤ length (write v)
  cost-le-length null = omega arith
  cost-le-length (bool false) = omega arith
  cost-le-length (bool true) = omega arith
  cost-le-length (num n) = omega arith
  cost-le-length (str s) = omega arith
  cost-le-length (arr vs) = omega (arith, cost_items-le-length vs)
  cost-le-length (obj fs) = omega (arith, cost_fields-le-length fs)

  cost_items-le-length : (vs : Items) → cost_items vs ≤ length (write_items vs)
  cost_items-le-length nil = omega arith
  cost_items-le-length (cons v vs) =
      omega
        (arith, length-append (write v) (write_items vs), cost-le-length v, cost_items-le-length vs)

  cost_fields-le-length : (fs : Fields) → cost_fields fs ≤ length (write_fields fs)
  cost_fields-le-length end = omega arith
  cost_fields-le-length (field k v fs) = omega (
    arith,
    length-append (write_str k) (write v ++ write_fields fs),
    length-append (write v) (write_fields fs),
    cost-le-length v,
    cost_fields-le-length fs,
  )

-- What `trim` and a split into lines leave alone.
abbrev pub IsSolid : ℕ → Type 0
IsSolid c = (is_space c ≡ false) × (c ≢ 10)

IsSolid-above : (c : ℕ) → IsSolid (c + base)
unfolding is_space
IsSolid-above c = (ground arith, omega arith)

IsSolid-tag : (c : ℕ) → c < 9 → IsSolid c
unfolding is_space
IsSolid-tag c h = (ground arith, omega arith)

IsSolid-str : (s : Str) → All IsSolid (write_str s)
IsSolid-str s = (IsSolid-above (length s), lifted s)
  where
    lifted : (t : Str) → All IsSolid (lift t)
    lifted [] = tt
    lifted (c ∷ t) = (IsSolid-above c, lifted t)

mutual
  unfolding write

  pub IsSolid-write : (v : Json) → All IsSolid (write v)
  IsSolid-write null = (IsSolid-tag 0 (omega arith), tt)
  IsSolid-write (bool false) = (IsSolid-tag 1 (omega arith), tt)
  IsSolid-write (bool true) = (IsSolid-tag 2 (omega arith), tt)
  IsSolid-write (num n) = (IsSolid-tag 3 (omega arith), (IsSolid-above n, tt))
  IsSolid-write (str s) = (IsSolid-tag 4 (omega arith), IsSolid-str s)
  IsSolid-write (arr vs) = (IsSolid-tag 5 (omega arith), IsSolid-items vs)
  IsSolid-write (obj fs) = (IsSolid-tag 6 (omega arith), IsSolid-fields fs)

  IsSolid-items : (vs : Items) → All IsSolid (write_items vs)
  IsSolid-items nil = (IsSolid-tag 0 (omega arith), tt)
  IsSolid-items (cons v vs) = (
    IsSolid-tag 1 (omega arith),
    All-append IsSolid (write v) (write_items vs) (IsSolid-write v) (IsSolid-items vs),
  )

  IsSolid-fields : (fs : Fields) → All IsSolid (write_fields fs)
  IsSolid-fields end = (IsSolid-tag 0 (omega arith), tt)
  IsSolid-fields (field k v fs) = (
    IsSolid-tag 1 (omega arith),
    All-append IsSolid (write_str k) (write v ++ write_fields fs) (IsSolid-str k)
        (All-append IsSolid (write v) (write_fields fs) (IsSolid-write v) (IsSolid-fields fs)),
  )

trim_start_solid : (s : Str) → All IsSolid s → trim_start s ≡ s
unfolding trim_start
trim_start_solid [] h = refl
trim_start_solid (c ∷ s) h = rw (h.0.0) refl

IsSolid-reverse_aux :
    (s acc : Str) → All IsSolid s → All IsSolid acc → All IsSolid (reverse_aux s acc)
IsSolid-reverse_aux [] acc h k = k
IsSolid-reverse_aux (c ∷ s) acc h k = IsSolid-reverse_aux s (c ∷ acc) h.1 (h.0, k)

pub trim_solid : (s : Str) → All IsSolid s → trim s ≡ s
unfolding trim
trim_solid s h =
    rw (trim_start_solid s h, trim_start_solid (reverse s) (IsSolid-reverse_aux s [] h tt))
      (reverse-reverse s)

pub one_line : (s : Str) → All IsSolid s → All (λ c. c ≢ 10) s
one_line [] h = tt
one_line (c ∷ s) h = (h.0.1, one_line s h.1)

pub write-ne-nil : (v : Json) → write v ≢ []
unfolding write
write-ne-nil null = ground arith
write-ne-nil (bool false) = ground arith
write-ne-nil (bool true) = ground arith
write-ne-nil (num n) = ground arith
write-ne-nil (str s) = ground arith
write-ne-nil (arr vs) = ground arith
write-ne-nil (obj fs) = ground arith

abbrev whole : Option (Json × Str) → Option Json
whole (some (v, [])) = some v
whole _ = none

unfoldable pub parse_tokens : Str → Option Json
unfolding read
parse_tokens s = whole (read (length s) s)

pub parse_tokens-write : (v : Json) → parse_tokens (write v) ≡ some v
unfolding parse_tokens
parse_tokens-write v = ap whole (
    ap (read (length (write v))) (sym (append-nil (write v)))
    ∙ read-write v (length (write v)) [] (cost-le-length v))

abbrev pub token_text : JsonText
token_text = record {
  stringify = write;
  parse = parse_tokens;
  parse-stringify = parse_tokens-write;
  stringify_one_line = λ v. one_line (write v) (IsSolid-write v);
  stringify-ne-nil = write-ne-nil;
  trim-stringify = λ v. trim_solid (write v) (IsSolid-write v);
}
