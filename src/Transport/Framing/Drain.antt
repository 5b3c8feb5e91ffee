-- ===== src/Transport/Framing/Drain.antt =====
-- The loop of `onData` in plugin/src/transport/framing.ts.
use obsidian_remote_ssh.Prelude.{
  ℕ, zero, suc, ◌≤◌, ◌<◌, List, [], ◌∷◌, ◌++◌, map, Bool, true, false, ltb, ◌≡◌, refl, ap, sym, ◌∙◌,
  arith, All, Bool-cases, inl, inr, length, subst, length-append,
}
use obsidian_remote_ssh.Transport.Framing.{
  FramedDuplex, Event, message, header, try_consume_frame, drain,
}
use obsidian_remote_ssh.Transport.Framing.Turn.{
  Bytes, stream, Expects, weight, header_pos, Waits, Emits, try_consume_frame-Turn,
}

-- Some of the messages are delivered, and all of them if nothing more is to come.
pub record Delivers (s : FramedDuplex) (u : Bytes) (bodies : List Bytes)
    (out : FramedDuplex × List Event) : Type 0 where
  pub done : List Bytes
  pub left : List Bytes
  pub split : bodies ≡ done ++ left
  pub sent : out.1 ≡ map message done
  pub expects : Expects out.0.pending_body_length out.0.buffer u left
  pub complete : u ≡ [] → left ≡ []
  pub limit : out.0.max_message_bytes ≡ s.max_message_bytes
  pub open_still : out.0.closed ≡ s.closed

abbrev pub Fit : ℕ → List Bytes → Type 0
Fit limit = All (λ b. length b ≤ limit)

pub stream-eq-nil : (bs : List Bytes) → stream bs ≡ [] → bs ≡ []
stream-eq-nil [] e = refl
stream-eq-nil (b ∷ bs) e = absurd (
    omega (
      arith,
      ap length e,
      header_pos (length b),
      length-append (header (length b)) (b ++ stream bs),
    ))

pub drain-stops :
    (fuel : ℕ) (s : FramedDuplex)
    → (try_consume_frame s).2 ≡ false
    → drain (suc fuel) s ≡ ((try_consume_frame s).0, (try_consume_frame s).1)
unfolding drain
drain-stops fuel s h = simp (h, drain)

drain-goes_on :
    (fuel : ℕ) (s : FramedDuplex)
    → (try_consume_frame s).2 ≡ true
    → drain (suc fuel) s ≡ (
      (drain fuel (try_consume_frame s).0).0,
      (try_consume_frame s).1 ++ (drain fuel (try_consume_frame s).0).1,
    )
unfolding drain
drain-goes_on fuel s h = simp (h, drain)

drain-Waits :
    (fuel : ℕ) (s : FramedDuplex) (u : Bytes) (bodies : List Bytes)
    → Waits s u bodies (try_consume_frame s)
    → Delivers s u bodies (drain (suc fuel) s)
drain-Waits fuel s u bodies w =
    subst (Delivers s u bodies) (sym (drain-stops fuel s w.ends)) (record {
      done = [];
      left = bodies;
      split = refl;
      sent = w.quiet;
      expects = w.expects;
      complete = w.complete;
      limit = w.limit;
      open_still = w.open_still;
    })

no_bytes : (xs : Bytes) → ltb 0 (length xs) ≡ false → xs ≡ []
no_bytes [] h = refl
no_bytes (x ∷ xs) h = ground arith

drain-ends :
    (fuel : ℕ) (s : FramedDuplex) (u b : Bytes) (bs : List Bytes)
    → Emits s u b bs (try_consume_frame s)
    → (try_consume_frame s).2 ≡ false
    → Delivers s u (b ∷ bs) (drain (suc fuel) s)
drain-ends fuel s u b bs m last =
    let empty : (try_consume_frame s).0.buffer ≡ [] = no_bytes _ (sym m.more ∙ last) in
    subst (Delivers s u (b ∷ bs)) (sym (drain-stops fuel s last)) (record {
      done = b ∷ [];
      left = bs;
      split = refl;
      sent = m.emitted;
      expects = rw m.waiting m.expects;
      complete = λ nothing. stream-eq-nil bs (sym m.expects ∙ ap (λ x. x ++ u) empty ∙ nothing);
      limit = m.limit;
      open_still = m.open_still;
    })

drain-continues :
    (fuel : ℕ) (s : FramedDuplex) (u b : Bytes) (bs : List Bytes)
    → Emits s u b bs (try_consume_frame s)
    → (try_consume_frame s).2 ≡ true
    → Delivers (try_consume_frame s).0 u bs (drain fuel (try_consume_frame s).0)
    → Delivers s u (b ∷ bs) (drain (suc fuel) s)
drain-continues fuel s u b bs m more rest =
    subst (Delivers s u (b ∷ bs)) (sym (drain-goes_on fuel s more)) (record {
      done = b ∷ rest.done;
      left = rest.left;
      split = ap (◌∷◌ b) rest.split;
      sent =
          ap (λ es. es ++ (drain fuel (try_consume_frame s).0).1) m.emitted
          ∙ ap (◌∷◌ (message b)) rest.sent;
      expects = rest.expects;
      complete = rest.complete;
      limit = rest.limit ∙ m.limit;
      open_still = rest.open_still ∙ m.open_still;
    })

pub drain-Delivers :
    (fuel : ℕ) (s : FramedDuplex) (u : Bytes) (bodies : List Bytes)
    → weight s.pending_body_length s.buffer < fuel
    → Expects s.pending_body_length s.buffer u bodies
    → Fit s.max_message_bytes bodies
    → Delivers s u bodies (drain fuel s)
drain-Delivers zero s u bodies f e fits = absurd (omega arith)
drain-Delivers (suc fuel) s u [] f e fits =
    drain-Waits fuel s u [] (try_consume_frame-Turn s u [] e fits)
drain-Delivers (suc fuel) s u (b ∷ bs) f e fits =
    let t : FramedDuplex × List Event × Bool = try_consume_frame s in
    elim (try_consume_frame-Turn s u (b ∷ bs) e fits) [
      | inl w ↦ drain-Waits fuel s u (b ∷ bs) w
      | inr m ↦ elim (Bool-cases t.2) [
        | inl more ↦
            let lighter : weight t.0.pending_body_length t.0.buffer < fuel =
              rw m.waiting (omega (arith, m.size)) in
            drain-continues fuel s u b bs m more
              (drain-Delivers fuel t.0 u bs lighter (rw m.waiting m.expects) (rw m.limit fits.1))
        | inr last ↦ drain-ends fuel s u b bs m last
      ]
    ]
