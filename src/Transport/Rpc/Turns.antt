-- ===== src/Transport/Rpc/Turns.antt =====
-- plugin/src/transport/RpcClient.ts: what each turn does to the books of the calls.
use obsidian_remote_ssh.Prelude.{
  ℕ, ◌+◌, List, [], ◌∷◌, ◌++◌, Bool, true, false, if◌then◌else◌, ◌==◌, ==_iff, Str, str_eq, Option,
  none, some, ◌≡◌, refl, subst, arith, nat_eq, Option-cases, Bool-cases, inl, inr,
}
use obsidian_remote_ssh.JsMap
use obsidian_remote_ssh.JsMap.{keys, IsDistinct}
use obsidian_remote_ssh.JsMap.Laws.{set-IsDistinct, get-set}
use obsidian_remote_ssh.Json.{Json, JsonText}
use obsidian_remote_ssh.Transport.Framing
use obsidian_remote_ssh.Transport.Framing.{FramedDuplex, Event}
use obsidian_remote_ssh.Transport.Rpc
use obsidian_remote_ssh.Transport.Rpc.{
  Bytes, PendingCall, RpcClient, StreamError, stream, Output, resolved, rejected, refused, written,
  Reason, settle, request_json, Turn, calls, aborts, receives, ends, fails, closes, listens,
  unlistens, watches, unwatches, turn, run, remove_first,
}
use obsidian_remote_ssh.Transport.Rpc.Settle.{
  settled, waits, issued, IsBooked, IsValid, settle-IsValid, append-IsValid,
}
use obsidian_remote_ssh.Transport.Rpc.Once.{
  After, idle, handle_close-IsValid, handle_events-IsValid,
}

-- No call waits for the next id: an entry for it is a new one.
get-next_id :
    (c : RpcClient) (out : List Output) → IsBooked c out → JsMap.get c.next_id c.pending ≡ none
get-next_id c out h = elim (Option-cases (JsMap.get c.next_id c.pending)) [
  | inl miss ↦ miss
  | inr (e, found) ↦
      let one : waits c.next_id c.pending ≡ 1 = rw (waits, found) refl in
      absurd (impossible one (h.each c.next_id))
]
  where
    impossible :
        waits c.next_id c.pending ≡ 1
        → settled c.next_id out + waits c.next_id c.pending ≡ issued c.next_id c.next_id
        → ⊥
    impossible one all = ground arith

-- The client with a new call entered.
abbrev entered : PendingCall → RpcClient → RpcClient
entered e c = record c { next_id = c.next_id + 1; pending = JsMap.set c.next_id e c.pending }

entered-IsValid :
    (e : PendingCall) (c : RpcClient) (out : List Output)
    → c.closed ≡ false
    → IsValid c out
    → IsValid (entered e c) out
entered-IsValid e c out open_ h = record {
  books = record {
    distinct = set-IsDistinct c.next_id e c.pending h.books.distinct;
    positive = omega (arith, h.books.positive);
    each = λ id. elim (Bool-cases (c.next_id == id)) [
      | inl y ↦
          let same = (==_iff c.next_id id).0 y in
          let fresh : JsMap.get id c.pending ≡ none =
            subst (λ i. JsMap.get i c.pending ≡ none) same (get-next_id c out h.books) in
          rw (waits, get-set c.next_id id e c.pending, y) (absent id fresh (h.books.each id) same)
      | inr n ↦ rw (waits, get-set c.next_id id e c.pending, n) (other id (h.books.each id) n)
    ];
  };
  shut = λ now. ground (arith, open_, now);
}
  where
    absent :
        (id : ℕ)
        → JsMap.get id c.pending ≡ none
        → settled id out + waits id c.pending ≡ issued id c.next_id
        → c.next_id ≡ id
        → settled id out + 1 ≡ issued id (c.next_id + 1)
    absent id fresh all same =
        let p = h.books.positive in
        let none_waits : waits id c.pending ≡ 0 = rw (waits, fresh) refl in ground arith

    other :
        (id : ℕ)
        → settled id out + waits id c.pending ≡ issued id c.next_id
        → (c.next_id == id) ≡ false
        → settled id out + waits id c.pending ≡ issued id (c.next_id + 1)
    other id all n = ground (arith, ==_iff c.next_id id)

send-IsValid :
    (json : JsonText) (encode : Str → Bytes) (decode : Bytes → Str) (id : ℕ) (body : Bytes)
    (c : RpcClient) (out : List Output)
    → IsValid c out
    → After json encode decode out (Rpc.send json encode decode id body c)
send-IsValid json encode decode id body c out h = by_write (Framing.write_message c.framed body)
  where
    by_write :
        (w : Option Bytes)
        → After json encode decode out (elim w as (λ _. RpcClient × List Output) [
          | none ↦ settle id (λ _. rejected id Rpc.not_written) c
          | some bytes ↦ (c, written bytes ∷ [])
        ])
    by_write none = settle-IsValid id (λ _. rejected id Rpc.not_written) c out (λ e j. refl) h
    by_write (some bytes) = append-IsValid c out (written bytes ∷ []) (λ j. omega arith) h

module _ (json : JsonText) (encode : Str → Bytes) (decode : Bytes → Str) where
  start-IsValid :
      (signal : Option Bool) (id : ℕ) (body : Bytes) (c : RpcClient) (out : List Output)
      → IsValid c out
      → After json encode decode out (Rpc.start json encode decode signal id body c)
  start-IsValid (some true) id body c out h =
      settle-IsValid id (λ e. rejected id (Rpc.abandoned e.method)) c out (λ e j. refl) h
  start-IsValid (some false) id body c out h = send-IsValid json encode decode id body c out h
  start-IsValid none id body c out h = send-IsValid json encode decode id body c out h

  call-IsValid :
      (method : Str) (params : Json) (signal : Option Bool) (now : ℕ) (c : RpcClient)
      (out : List Output)
      → IsValid c out
      → After json encode decode out (Rpc.call json encode decode method params signal now c)
  unfolding Rpc.call
  call-IsValid method params signal now c out h = by_closed c.closed refl
    where
      by_closed :
          (b : Bool)
          → c.closed ≡ b
          → After json encode decode out (
              if b
              then (c, refused ∷ [])
              else Rpc.call_open json encode decode method params signal now c)
      by_closed true e = append-IsValid c out (refused ∷ []) (λ j. omega arith) h
      by_closed false e = start-IsValid signal _ _ _ out (entered-IsValid _ c out e h)

  abort-IsValid :
      (id : ℕ) (c : RpcClient) (out : List Output)
      → IsValid c out
      → After json encode decode out (Rpc.abort id c)
  unfolding Rpc.abort
  abort-IsValid id c out h = elim (Option-cases (JsMap.get id c.pending)) [
    | inl miss ↦ rw (Rpc.abort, miss) (idle json encode decode c out h)
    | inr (e, found) ↦ rw (Rpc.abort, found) (by_listening e.listening)
  ]
    where
      by_listening :
          (b : Bool)
          → After json encode decode out
              (if b then settle id (λ e. rejected id (Rpc.abandoned e.method)) c else (c, []))
      by_listening true =
          settle-IsValid id (λ e. rejected id (Rpc.abandoned e.method)) c out (λ e j. refl) h
      by_listening false = idle json encode decode c out h

  -- The parts of a client that the books do not speak of may change.
  other-IsValid :
      (framed : FramedDuplex) (handlers : List (Str × List ℕ)) (watchers : List ℕ) (c : RpcClient)
      (out : List Output)
      → IsValid c out
      → IsValid
          (record c {
            framed = framed;
            notification_handlers = handlers;
            close_handlers = watchers;
          })
          out
  other-IsValid framed handlers watchers c out h = record {
    books = record {
      distinct = h.books.distinct;
      positive = h.books.positive;
      each = h.books.each;
    };
    shut = h.shut;
  }

  framed-IsValid :
      (framed : FramedDuplex) (c : RpcClient) (out : List Output)
      → IsValid c out
      → IsValid (record c { framed = framed }) out
  framed-IsValid framed c out h =
      other-IsValid framed c.notification_handlers c.close_handlers c out h

  listening-IsValid :
      (handlers : List (Str × List ℕ)) (watchers : List ℕ) (c : RpcClient) (out : List Output)
      → IsValid c out
      → After json encode decode out
          (record c { notification_handlers = handlers; close_handlers = watchers }, [])
  listening-IsValid handlers watchers c out h =
      idle json encode decode _ out (other-IsValid c.framed handlers watchers c out h)

  close_client-IsValid :
      (now : ℕ) (c : RpcClient) (out : List Output)
      → IsValid c out
      → After json encode decode out (Rpc.close_client json encode decode now c)
  unfolding Rpc.close_client
  close_client-IsValid now c out h = by_closed c.closed
    where
      by_closed :
          (b : Bool)
          → After json encode decode out (
              if b
              then (c, [])
              else Rpc.handle_events json encode decode
                  (Framing.close_duplex c.framed).1
                  now
                  (record c { framed = (Framing.close_duplex c.framed).0 }))
      by_closed true = idle json encode decode c out h
      by_closed false =
          handle_events-IsValid json encode decode (Framing.close_duplex c.framed).1 now _ out
            (framed-IsValid (Framing.close_duplex c.framed).0 c out h)

  pub turn-IsValid :
      (t : Turn) (now : ℕ) (c : RpcClient) (out : List Output)
      → IsValid c out
      → After json encode decode out (turn json encode decode t now c)
  unfolding Rpc.on_data Rpc.on_end Rpc.on_stream_error Rpc.on_notification Rpc.on_close
      Rpc.off_close Rpc.off_notification
  turn-IsValid (calls method params signal) now c out h =
      call-IsValid method params signal now c out h
  turn-IsValid (aborts id) now c out h = abort-IsValid id c out h
  turn-IsValid (receives chunk) now c out h =
      handle_events-IsValid json encode decode (Framing.on_data chunk now c.framed).1 now _ out
        (framed-IsValid (Framing.on_data chunk now c.framed).0 c out h)
  turn-IsValid ends now c out h =
      handle_events-IsValid json encode decode (Framing.on_end c.framed).1 now _ out
        (framed-IsValid (Framing.on_end c.framed).0 c out h)
  turn-IsValid (fails message) now c out h =
      handle_close-IsValid json encode decode (some (stream message)) c out h
  turn-IsValid closes now c out h = close_client-IsValid now c out h
  turn-IsValid (listens method handler) now c out h =
      listening-IsValid (Rpc.on_notification method handler c).notification_handlers
        c.close_handlers c out h
  turn-IsValid (unlistens method handler) now c out h =
      elim (Option-cases (JsMap.get method c.notification_handlers)) [
        | inl miss ↦ rw (Rpc.off_notification, miss) (idle json encode decode c out h)
        | inr (hs, found) ↦
            rw (Rpc.off_notification, found)
              (listening-IsValid
                (JsMap.set method (remove_first handler hs) c.notification_handlers)
                c.close_handlers c out h)
      ]
  turn-IsValid (watches handler) now c out h =
      listening-IsValid c.notification_handlers (c.close_handlers ++ handler ∷ []) c out h
  turn-IsValid (unwatches handler) now c out h =
      listening-IsValid c.notification_handlers (remove_first handler c.close_handlers) c out h
