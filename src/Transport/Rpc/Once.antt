-- ===== src/Transport/Rpc/Once.antt =====
-- plugin/src/transport/RpcClient.ts: every call is settled once.
use mathlib.Core.List.{append_assoc}
use obsidian_remote_ssh.Prelude.{
  ℕ, List, [], ◌∷◌, ◌++◌, map, true, if◌then◌else◌, ◌==◌, Str, codes, str_eq, Option, none, some,
  ◌≡◌, refl, sym, ◌∙◌, subst, arith, nat_eq, Option-cases, Bool-cases, inl, inr,
}
use obsidian_remote_ssh.JsMap
use obsidian_remote_ssh.JsMap.{keys, IsDistinct}
use obsidian_remote_ssh.JsMap.Laws.{get-delete, get-tail, eq-nil_of_get}
use obsidian_remote_ssh.Json.{Json, num, str, obj, Fields, JsonText, member}
use obsidian_remote_ssh.Transport.Framing.{Event}
use obsidian_remote_ssh.Transport.Rpc
use obsidian_remote_ssh.Transport.Rpc.{
  Bytes, PendingCall, RpcClient, StreamError, framing, stream, Output, resolved, rejected, notified,
  told_closed, Reason, settle, truthy,
}
use obsidian_remote_ssh.Transport.Rpc.Settle.{
  settles, settled, IsBooked, IsValid, settle-IsBooked, get-settle, settle-IsValid, append-IsBooked,
  append-IsValid,
}

settled-notified :
    (id : ℕ) (params : Option Json) (hs : List ℕ) → settled id (map (λ h. notified h params) hs) ≡ 0
settled-notified id params [] = refl
settled-notified id params (h ∷ hs) = omega (arith, settled-notified id params hs)

settled-told_closed :
    (id : ℕ) (err : Option StreamError) (hs : List ℕ)
    → settled id (map (λ h. told_closed h err) hs) ≡ 0
settled-told_closed id err [] = refl
settled-told_closed id err (h ∷ hs) = omega (arith, settled-told_closed id err hs)

module _ (json : JsonText) (encode : Str → Bytes) (decode : Bytes → Str) where
  -- What a step makes of a valid state and the outputs so far.
  abbrev pub After : List Output → RpcClient × List Output → Type 0
  After out r = IsValid r.0 (out ++ r.1)

  -- A turn that does nothing.
  pub idle : (c : RpcClient) (out : List Output) → IsValid c out → After out (c, [])
  idle c out h = append-IsValid c out [] (λ id. refl) h

  pub reply-settles :
      (fs : Fields) (e : PendingCall) (id j : ℕ)
      → settles j (Rpc.reply json encode decode fs e id) ≡ (if id == j then 1 else 0)
  unfolding Rpc.reply
  reply-settles fs e id j = elim (Option-cases (member (codes "error") fs)) [
    | inl miss ↦ rw (miss, Rpc.reply) refl
    | inr (v, found) ↦ elim (Bool-cases (truthy v)) [
      | inl y ↦ rw (found, Rpc.reply, y) refl
      | inr n ↦ rw (found, Rpc.reply, n) refl
    ]
  ]

  handle_notification-IsValid :
      (method : Str) (params : Option Json) (c : RpcClient) (out : List Output)
      → IsValid c out
      → After out (Rpc.handle_notification json encode decode method params c)
  unfolding Rpc.handle_notification
  handle_notification-IsValid method params c out h =
      elim (Option-cases (JsMap.get method c.notification_handlers)) [
        | inl miss ↦ rw (Rpc.handle_notification, miss) (idle c out h)
        | inr (hs, found) ↦
            rw (Rpc.handle_notification, found)
              (append-IsValid c out (map (λ x. notified x params) hs)
                (λ id. settled-notified id params hs) h)
      ]

  handle_method-IsValid :
      (v : Option Json) (fs : Fields) (c : RpcClient) (out : List Output)
      → IsValid c out
      → After out (Rpc.handle_method json encode decode v fs c)
  handle_method-IsValid (some (str method)) fs c out h =
      handle_notification-IsValid method (member (codes "params") fs) c out h
  handle_method-IsValid _ fs c out h = idle c out h

  handle_id-IsValid :
      (v : Option Json) (fs : Fields) (c : RpcClient) (out : List Output)
      → IsValid c out
      → After out (Rpc.handle_id json encode decode v fs c)
  handle_id-IsValid (some (num id)) fs c out h =
      settle-IsValid id (λ e. Rpc.reply json encode decode fs e id) c out
        (λ e j. reply-settles fs e id j) h
  handle_id-IsValid _ fs c out h = handle_method-IsValid (member (codes "method") fs) fs c out h

  handle_message-IsValid :
      (body : Bytes) (now : ℕ) (c : RpcClient) (out : List Output)
      → IsValid c out
      → After out (Rpc.handle_message json encode decode body now c)
  unfolding Rpc.handle_message Rpc.handle_parsed Rpc.handle_envelope
  handle_message-IsValid body now c out h = by_value (json.parse (decode body))
    where
      by_value :
          (v : Option Json)
          → After out (Rpc.handle_parsed json encode decode v (record c { last_message_at = now }))
      by_value (some (obj fs)) =
          handle_id-IsValid (member (codes "id") fs) fs (record c { last_message_at = now }) out
            (record {
              books = record {
                distinct = h.books.distinct;
                positive = h.books.positive;
                each = h.books.each;
              };
              shut = h.shut;
            })
      by_value _ =
          idle (record c { last_message_at = now }) out
            (record {
              books = record {
                distinct = h.books.distinct;
                positive = h.books.positive;
                each = h.books.each;
              };
              shut = h.shut;
            })

  -- After the loop over the ids of all pending calls none is pending.
  reject_all-IsBooked :
      (reason : Reason) (l : List (ℕ × PendingCall)) (c : RpcClient) (out : List Output)
      → IsDistinct l
      → ((j : ℕ) → JsMap.get j l ≡ JsMap.get j c.pending)
      → IsBooked c out
      → IsBooked
          (Rpc.reject_all json encode decode reason (keys l) c).0
          (out ++ (Rpc.reject_all json encode decode reason (keys l) c).1)
        × ((Rpc.reject_all json encode decode reason (keys l) c).0.pending ≡ [])
  unfolding Rpc.reject_all
  reject_all-IsBooked reason [] c out d same h = (
    append-IsBooked c out [] (λ id. refl) h,
    eq-nil_of_get c.pending (λ j. sym (same j) ∙ unfold JsMap.get in refl),
  )
  reject_all-IsBooked reason ((k, v) ∷ l) c out d same h =
      let s = settle k (λ _. rejected k reason) c in
      let h' : IsBooked s.0 (out ++ s.1) =
        settle-IsBooked k (λ _. rejected k reason) c out (λ e j. refl) h in
      let rest =
        reject_all-IsBooked reason l s.0 (out ++ s.1) d.1
          (λ j.
            get-tail k j v l c.pending d h.distinct (same j)
            ∙ get-delete k j c.pending h.distinct
            ∙ sym (get-settle k (λ _. rejected k reason) c j h.distinct))
          h' in
      let r = Rpc.reject_all json encode decode reason (keys l) s.0 in
      (subst (IsBooked r.0) (append_assoc out s.1 r.1) rest.0, rest.1)

  pub handle_close-IsValid :
      (err : Option StreamError) (c : RpcClient) (out : List Output)
      → IsValid c out
      → After out (Rpc.handle_close json encode decode err c)
  unfolding Rpc.handle_close
  handle_close-IsValid err c out h = elim (Bool-cases c.closed) [
    | inl already ↦
        rw (Rpc.handle_close, already)
          (idle (record c { closed = true }) out
            (record {
              books = record {
                distinct = h.books.distinct;
                positive = h.books.positive;
                each = h.books.each;
              };
              shut = λ _. h.shut already;
            }))
    | inr open_ ↦
        let reason : Reason = elim err [
          | none ↦ Rpc.stream_closed
          | some e ↦ Rpc.stream_failed e
        ] in
        let c' : RpcClient = record c { closed = true } in
        let r = Rpc.reject_all json encode decode reason (keys c.pending) c' in
        let told = map (λ h. told_closed h err) c.close_handlers in
        let done =
          reject_all-IsBooked reason c.pending c' out h.books.distinct (λ j. refl)
            (record {
              distinct = h.books.distinct;
              positive = h.books.positive;
              each = h.books.each;
            }) in
        let books' : IsBooked r.0 ((out ++ r.1) ++ told) =
          append-IsBooked r.0 (out ++ r.1) told (λ id. settled-told_closed id err c.close_handlers)
            done.0 in
        rw (Rpc.handle_close, open_)
          (record {
            books = subst (IsBooked r.0) (append_assoc out r.1 told) books';
            shut = λ _. done.1;
          })
  ]

  handle_event-IsValid :
      (e : Event) (now : ℕ) (c : RpcClient) (out : List Output)
      → IsValid c out
      → After out (Rpc.handle_event json encode decode e now c)
  unfolding Rpc.handle_event
  handle_event-IsValid (Event.message body) now c out h = handle_message-IsValid body now c out h
  handle_event-IsValid Event.close now c out h = handle_close-IsValid none c out h
  handle_event-IsValid (Event.error e) now c out h = handle_close-IsValid (some (framing e)) c out h
  handle_event-IsValid Event.end_stream now c out h = idle c out h

  pub handle_events-IsValid :
      (es : List Event) (now : ℕ) (c : RpcClient) (out : List Output)
      → IsValid c out
      → After out (Rpc.handle_events json encode decode es now c)
  unfolding Rpc.handle_events
  handle_events-IsValid [] now c out h = idle c out h
  handle_events-IsValid (e ∷ es) now c out h =
      let one = Rpc.handle_event json encode decode e now c in
      let rest = Rpc.handle_events json encode decode es now one.0 in
      subst (IsValid rest.0) (append_assoc out one.1 rest.1)
        (handle_events-IsValid es now one.0 (out ++ one.1) (handle_event-IsValid e now c out h))
