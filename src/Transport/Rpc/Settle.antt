-- ===== src/Transport/Rpc/Settle.antt =====
-- plugin/src/transport/RpcClient.ts: what one settlement does to the books of the calls.
use obsidian_remote_ssh.Prelude.{
  ℕ, ◌+◌, ◌≤◌, List, [], ◌∷◌, ◌++◌, true, if◌then◌else◌, ltb, leb, ◌&&◌, ◌==◌, ==_iff, Option, none,
  some, ◌≡◌, refl, sym, ap, ◌∙◌, subst, arith, nat_eq, Option-cases, Bool-cases, inl, inr,
}
use obsidian_remote_ssh.JsMap
use obsidian_remote_ssh.JsMap.{keys, IsDistinct}
use obsidian_remote_ssh.JsMap.Laws.{get-delete, delete-IsDistinct}
use obsidian_remote_ssh.Transport.Rpc.{
  PendingCall, RpcClient, Output, resolved, rejected, take, settle,
}

-- Whether an output settles the call `id`, as a number.
abbrev pub settles : ℕ → Output → ℕ
settles id (resolved j v) = if j == id then 1 else 0
settles id (rejected j r) = if j == id then 1 else 0
settles id _ = 0

-- How often the call `id` was settled.
abbrev pub settled : ℕ → List Output → ℕ
settled id [] = 0
settled id (o ∷ os) = settles id o + settled id os

-- One for a call that waits, none for any other number.
abbrev pub waits : ℕ → List (ℕ × PendingCall) → ℕ
waits id pending = elim (JsMap.get id pending) [ none ↦ 0 | some _ ↦ 1 ]

-- One for an id that was given to a call.
abbrev pub issued : ℕ → ℕ → ℕ
issued id next = if leb 1 id && ltb id next then 1 else 0

-- The client `c` after the outputs `out`.
pub record IsBooked (c : RpcClient) (out : List Output) : Type 0 where
  pub distinct : IsDistinct c.pending
  pub positive : 1 ≤ c.next_id
  pub each : (id : ℕ) → settled id out + waits id c.pending ≡ issued id c.next_id

-- A closed client waits for nothing.
abbrev pub IsShut : RpcClient → Type 0
IsShut c = c.closed ≡ true → c.pending ≡ []

pub settled-append :
    (id : ℕ) (xs ys : List Output) → settled id (xs ++ ys) ≡ settled id xs + settled id ys
settled-append id [] ys = omega arith
settled-append id (x ∷ xs) ys = omega (arith, settled-append id xs ys)

-- What `settle` does with the answer of `take`.
abbrev settle_by : (PendingCall → Output) → RpcClient × Option PendingCall → RpcClient × List Output
settle_by output (c, none) = (c, [])
settle_by output (c, some entry) = (c, output entry ∷ [])

pub settle_absent :
    (id : ℕ) (output : PendingCall → Output) (c : RpcClient)
    → JsMap.get id c.pending ≡ none
    → settle id output c ≡ (c, [])
unfolding settle take
settle_absent id output c miss =
    let gave : take id c ≡ (c, none) = rw (take, miss) refl in ap (settle_by output) gave

settle_found :
    (id : ℕ) (output : PendingCall → Output) (c : RpcClient) (e : PendingCall)
    → JsMap.get id c.pending ≡ some e
    → settle id output c ≡ (record c { pending = JsMap.delete id c.pending }, output e ∷ [])
unfolding settle take
settle_found id output c e found =
    let gave : take id c ≡ (record c { pending = JsMap.delete id c.pending }, some e) =
      rw (take, found) refl in
    ap (settle_by output) gave

pub settle-IsBooked :
    (id : ℕ) (output : PendingCall → Output) (c : RpcClient) (out : List Output)
    → ((e : PendingCall) (j : ℕ) → settles j (output e) ≡ (if id == j then 1 else 0))
    → IsBooked c out
    → IsBooked (settle id output c).0 (out ++ (settle id output c).1)
settle-IsBooked id output c out one h = elim (Option-cases (JsMap.get id c.pending)) [
  | inl miss ↦ rw (settle_absent id output c miss) (record {
    distinct = h.distinct;
    positive = h.positive;
    each = λ j. omega (arith, h.each j, settled-append j out []);
  })
  | inr (e, found) ↦ rw (settle_found id output c e found) (record {
    distinct = delete-IsDistinct id c.pending h.distinct;
    positive = h.positive;
    each = λ j.
        omega (arith, h.each j, settled-append j out (output e ∷ []), one e j, moved j e found);
  })
]
  where
    moved :
        (j : ℕ) (e : PendingCall)
        → JsMap.get id c.pending ≡ some e
        → waits j (JsMap.delete id c.pending) + (if id == j then 1 else 0) ≡ waits j c.pending
    moved j e found = elim (Bool-cases (id == j)) [
      | inl y ↦
          let here : JsMap.get j c.pending ≡ some e =
            subst (λ i. JsMap.get i c.pending ≡ some e) ((==_iff id j).0 y) found in
          rw (waits, get-delete id j c.pending h.distinct, here, y) (omega arith)
      | inr n ↦ rw (waits, get-delete id j c.pending h.distinct, n) (omega arith)
    ]

pub get-settle :
    (id : ℕ) (output : PendingCall → Output) (c : RpcClient) (j : ℕ)
    → IsDistinct c.pending
    → JsMap.get j (settle id output c).0.pending ≡ (if id == j then none else JsMap.get j c.pending)
get-settle id output c j d = elim (Option-cases (JsMap.get id c.pending)) [
  | inl miss ↦ rw (settle_absent id output c miss) (ground (arith, ==_iff id j, miss))
  | inr (e, found) ↦ rw (settle_found id output c e found) (get-delete id j c.pending d)
]

pub settle-closed :
    (id : ℕ) (output : PendingCall → Output) (c : RpcClient)
    → (settle id output c).0.closed ≡ c.closed
settle-closed id output c = elim (Option-cases (JsMap.get id c.pending)) [
  | inl miss ↦ rw (settle_absent id output c miss) refl
  | inr (e, found) ↦ rw (settle_found id output c e found) refl
]

-- The state and the outputs so far, between two turns of the event loop.
pub record IsValid (c : RpcClient) (out : List Output) : Type 0 where
  pub books : IsBooked c out
  pub shut : IsShut c

pub settle-IsValid :
    (id : ℕ) (output : PendingCall → Output) (c : RpcClient) (out : List Output)
    → ((e : PendingCall) (j : ℕ) → settles j (output e) ≡ (if id == j then 1 else 0))
    → IsValid c out
    → IsValid (settle id output c).0 (out ++ (settle id output c).1)
settle-IsValid id output c out one h = record {
  books = settle-IsBooked id output c out one h.books;
  shut = λ now.
      let empty : c.pending ≡ [] = h.shut (sym (settle-closed id output c) ∙ now) in
      let miss : JsMap.get id c.pending ≡ none = rw empty (unfold JsMap.get in refl) in
      rw (settle_absent id output c miss) empty;
}

-- Outputs that settle no call change nothing.
pub append-IsBooked :
    (c : RpcClient) (out os : List Output)
    → ((id : ℕ) → settled id os ≡ 0)
    → IsBooked c out
    → IsBooked c (out ++ os)
append-IsBooked c out os silent h = record {
  distinct = h.distinct;
  positive = h.positive;
  each = λ id. omega (arith, h.each id, settled-append id out os, silent id);
}

pub append-IsValid :
    (c : RpcClient) (out os : List Output)
    → ((id : ℕ) → settled id os ≡ 0)
    → IsValid c out
    → IsValid c (out ++ os)
append-IsValid c out os silent h = record {
  books = append-IsBooked c out os silent h.books;
  shut = h.shut;
}
