-- ===== src/Transport/Rpc.antt =====
-- plugin/src/transport/RpcClient.ts: calls to the daemon and their replies over the framed stream.
-- A call is known by its id, a handler by a number that stands for the function. What a method
-- causes outside of the client, promises that settle included, is a list of outputs.
pub mod Settle
pub mod Once
pub mod Turns
pub mod Life
use Prim.Native.String.{String}
use obsidian_remote_ssh.Prelude.{
  ℕ, ◌+◌, ◌-◌, List, [], ◌∷◌, ◌++◌, map, Bool, true, false, if◌then◌else◌, ltb, ◌=ℕ◌, Str, str_eq,
  codes, Option, none, some, length, nat_eq,
}
use obsidian_remote_ssh.JsMap
use obsidian_remote_ssh.JsMap.{keys, values}
use obsidian_remote_ssh.Json.{Json, num, str, bool, obj, Fields, end, field, JsonText, member}
use obsidian_remote_ssh.Transport.Framing
use obsidian_remote_ssh.Transport.Framing.{FramedDuplex, FrameError, Event}

abbrev pub Bytes : Type 0
Bytes = List ℕ

pub record PendingCall : Type 0 where
  pub method : Str
  pub sent_at : ℕ
  pub request_bytes : ℕ
  -- Whether `onSettle` holds the removal of an abort listener.
  pub listening : Bool

-- The error that an `error` event of the framed stream carries.
pub data StreamError : Type 0 where
  framing : FrameError → StreamError
  stream : (message : Str) → StreamError

-- Why a promise is rejected. The parts of the daemon's error are as they come.
pub data Reason : Type 0 where
  daemon : (code message data_ : Option Json) → Reason
  abandoned : (method : Str) → Reason
  not_written stream_closed : Reason
  stream_failed : StreamError → Reason

pub data Output : Type 0 where
  resolved : (id : ℕ) → Json → Output
  rejected : (id : ℕ) → Reason → Output
  -- `call` throws, with no id taken.
  refused : Output
  written : Bytes → Output
  notified : (handler : ℕ) → Option Json → Output
  told_closed : (handler : ℕ) → Option StreamError → Output

pub record RpcClient : Type 0 where
  pub next_id : ℕ
  pub pending : List (ℕ × PendingCall)
  pub notification_handlers : List (Str × List ℕ)
  pub close_handlers : List ℕ
  pub closed : Bool
  pub last_message_at : ℕ
  pub framed : FramedDuplex

-- `new RpcClient(framed)`
unfoldable pub init : FramedDuplex → ℕ → RpcClient
init framed now = record {
  next_id = 1;
  pending = [];
  notification_handlers = [];
  close_handlers = [];
  closed = false;
  last_message_at = now;
  framed = framed;
}

unfoldable pub take : ℕ → RpcClient → RpcClient × Option PendingCall
take id c = elim (JsMap.get id c.pending) [
  | none ↦ (c, none)
  | some entry ↦ (record c { pending = JsMap.delete id c.pending }, some entry)
]

-- `this.take(id)`, and a settlement if it gave the entry.
unfoldable pub settle : ℕ → (PendingCall → Output) → RpcClient → RpcClient × List Output
unfolding take
settle id output c =
    let (c', taken) = take id c in
    elim taken [ none ↦ (c', []) | some entry ↦ (c', output entry ∷ []) ]

-- The abort listener of a call.
unfoldable pub abort : ℕ → RpcClient → RpcClient × List Output
unfolding settle
abort id c = elim (JsMap.get id c.pending) [
  | none ↦ (c, [])
  | some entry ↦
      if entry.listening then settle id (λ e. rejected id (abandoned e.method)) c else (c, [])
]

unfoldable pub request_json : ℕ → Str → Json → Json
request_json id method params = obj (
    field (codes "jsonrpc") (str (codes "2.0")) (
      field (codes "id") (num id)
        (field (codes "method") (str method) (field (codes "params") params end))))

-- `v.k` of any value but null.
abbrev pub property : Str → Json → Option Json
property k (obj fs) = member k fs
property k _ = none

-- Whether a value is true in a condition.
abbrev pub truthy : Json → Bool
truthy Json.null = false
truthy (bool b) = b
truthy (num n) = ltb 0 n
truthy (str []) = false
truthy _ = true

module _ (json : JsonText) (encode : Str → Bytes) (decode : Bytes → Str) where
  -- The body of the promise of `call` from `writeMessage` on.
  abbrev pub send : ℕ → Bytes → RpcClient → RpcClient × List Output
  send id body c = elim (Framing.write_message c.framed body) [
    | none ↦ settle id (λ _. rejected id not_written) c
    | some bytes ↦ (c, written bytes ∷ [])
  ]

  -- The body of the promise. `signal` is none, or whether it is aborted already.
  abbrev pub start : Option Bool → ℕ → Bytes → RpcClient → RpcClient × List Output
  start (some true) id body c = settle id (λ e. rejected id (abandoned e.method)) c
  start (some false) id body c = send id body c
  start none id body c = send id body c

  -- `call` on an open client.
  abbrev pub call_open : Str → Json → Option Bool → ℕ → RpcClient → RpcClient × List Output
  call_open method params signal now c =
      let id = c.next_id in
      let body = encode (json.stringify (request_json id method params)) in
      let entry : PendingCall = record {
        method = method;
        sent_at = now;
        request_bytes = length body;
        listening = elim signal [ none ↦ false | some aborted ↦ if aborted then false else true ];
      } in
      start signal id body (record c { next_id = id + 1; pending = JsMap.set id entry c.pending })

  unfoldable pub call : Str → Json → Option Bool → ℕ → RpcClient → RpcClient × List Output
  call method params signal now c =
      if c.closed then (c, refused ∷ []) else call_open method params signal now c

  -- A reply, by its fields.
  unfoldable pub reply : Fields → PendingCall → ℕ → Output
  unfolding member
  reply fs entry id = elim (member (codes "error") fs) [
    | none ↦ resolved id (elim (member (codes "result") fs) [ none ↦ Json.null | some v ↦ v ])
    | some e ↦
        if truthy e
        then rejected id (
            daemon (property (codes "code") e) (property (codes "message") e)
              (property (codes "data") e))
        else resolved id (elim (member (codes "result") fs) [ none ↦ Json.null | some v ↦ v ])
  ]

  unfoldable pub handle_notification : Str → Option Json → RpcClient → RpcClient × List Output
  handle_notification method params c = elim (JsMap.get method c.notification_handlers) [
    | none ↦ (c, [])
    | some list ↦ (c, map (λ h. notified h params) list)
  ]

  -- What an envelope without an id is taken for, by its field `method`.
  abbrev pub handle_method : Option Json → Fields → RpcClient → RpcClient × List Output
  handle_method (some (str method)) fs c = handle_notification method (member (codes "params") fs) c
  handle_method _ fs c = (c, [])

  -- The envelope, by its field `id`.
  abbrev pub handle_id : Option Json → Fields → RpcClient → RpcClient × List Output
  handle_id (some (num id)) fs c = settle id (λ entry. reply fs entry id) c
  handle_id _ fs c = handle_method (member (codes "method") fs) fs c

  unfoldable pub handle_envelope : Fields → RpcClient → RpcClient × List Output
  handle_envelope fs c = handle_id (member (codes "id") fs) fs c

  -- An array has neither of the fields that are asked for.
  unfoldable pub handle_parsed : Option Json → RpcClient → RpcClient × List Output
  unfolding handle_envelope
  handle_parsed (some (obj fs)) c = handle_envelope fs c
  handle_parsed _ c = (c, [])

  unfoldable pub handle_message : Bytes → ℕ → RpcClient → RpcClient × List Output
  unfolding handle_parsed
  handle_message body now c =
      handle_parsed (json.parse (decode body)) (record c { last_message_at = now })

  -- The loop over the ids in `handleClose`.
  unfoldable pub reject_all : Reason → List ℕ → RpcClient → RpcClient × List Output
  unfolding settle
  reject_all reason [] c = (c, [])
  reject_all reason (id ∷ ids) c =
      let (c', out) = settle id (λ _. rejected id reason) c in
      let rest = reject_all reason ids c' in (rest.0, out ++ rest.1)

  unfoldable pub handle_close : Option StreamError → RpcClient → RpcClient × List Output
  unfolding reject_all
  handle_close err c =
      let reason : Reason = elim err [ none ↦ stream_closed | some e ↦ stream_failed e ] in
      let out = reject_all reason (keys c.pending) (record c { closed = true }) in
      if c.closed then (c, []) else (out.0, out.1 ++ map (λ h. told_closed h err) c.close_handlers)

  -- What the listeners on the framed stream do.
  unfoldable pub handle_event : Event → ℕ → RpcClient → RpcClient × List Output
  unfolding handle_message handle_close
  handle_event (Event.message body) now c = handle_message body now c
  handle_event Event.close now c = handle_close none c
  handle_event (Event.error e) now c = handle_close (some (framing e)) c
  handle_event Event.end_stream now c = (c, [])

  unfoldable pub handle_events : List Event → ℕ → RpcClient → RpcClient × List Output
  unfolding handle_event
  handle_events [] now c = (c, [])
  handle_events (e ∷ es) now c =
      let (c', out) = handle_event e now c in
      let rest = handle_events es now c' in (rest.0, out ++ rest.1)

  -- Bytes arrive; the stream ends; the stream fails; `close` is called.
  unfoldable pub on_data : Bytes → ℕ → RpcClient → RpcClient × List Output
  unfolding handle_events
  on_data chunk now c =
      let (framed, events) = Framing.on_data chunk now c.framed in
      handle_events events now (record c { framed = framed })

  unfoldable pub on_end : ℕ → RpcClient → RpcClient × List Output
  unfolding handle_events
  on_end now c =
      let (framed, events) = Framing.on_end c.framed in
      handle_events events now (record c { framed = framed })

  unfoldable pub on_stream_error : Str → RpcClient → RpcClient × List Output
  unfolding handle_close
  on_stream_error message c = handle_close (some (stream message)) c

  unfoldable pub close_client : ℕ → RpcClient → RpcClient × List Output
  unfolding handle_events
  close_client now c =
      let (framed, events) = Framing.close_duplex c.framed in
      if c.closed then (c, []) else handle_events events now (record c { framed = framed })

-- `onNotification`, and its disposer.
unfoldable pub on_notification : Str → ℕ → RpcClient → RpcClient
on_notification method handler c = record c {
  notification_handlers =
      JsMap.set method
        ((elim (JsMap.get method c.notification_handlers) as (λ _. List ℕ) [
          | none ↦ []
          | some l ↦ l
        ])
          ++ handler ∷ [])
        c.notification_handlers;
}

-- `list.splice(list.indexOf(h), 1)` where it stands in the list.
abbrev pub remove_first : ℕ → List ℕ → List ℕ
remove_first h [] = []
remove_first h (x ∷ xs) = if x =ℕ h then xs else x ∷ remove_first h xs

unfoldable pub off_notification : Str → ℕ → RpcClient → RpcClient
off_notification method handler c = elim (JsMap.get method c.notification_handlers) [
  | none ↦ c
  | some list ↦ record c {
    notification_handlers = JsMap.set method (remove_first handler list) c.notification_handlers;
  }
]

unfoldable pub on_close : ℕ → RpcClient → RpcClient
on_close handler c = record c { close_handlers = c.close_handlers ++ handler ∷ [] }

unfoldable pub off_close : ℕ → RpcClient → RpcClient
off_close handler c = record c { close_handlers = remove_first handler c.close_handlers }

unfoldable pub pending_count : RpcClient → ℕ
pending_count c = length c.pending

unfoldable pub ms_since_last_message : RpcClient → ℕ → ℕ
ms_since_last_message c now = now - c.last_message_at

pub record OldestPending : Type 0 where
  pub age_ms : ℕ
  pub request_bytes : ℕ

-- The loop of `oldestPending`, from the second value on.
unfoldable pub oldest_of : PendingCall → List PendingCall → PendingCall
oldest_of oldest [] = oldest
oldest_of oldest (p ∷ ps) = oldest_of (if ltb p.sent_at oldest.sent_at then p else oldest) ps

unfoldable pub oldest_pending : RpcClient → ℕ → Option OldestPending
unfolding oldest_of
oldest_pending c now = elim (values c.pending) [
  | [] ↦ none
  | p ∷ ps ↦
      let oldest : PendingCall = oldest_of p ps in
      some (record { age_ms = now - oldest.sent_at; request_bytes = oldest.request_bytes })
]

-- What happens to a client in a turn of the event loop.
pub data Turn : Type 0 where
  calls : (method : Str) → (params : Json) → (signal : Option Bool) → Turn
  aborts : (id : ℕ) → Turn
  receives : Bytes → Turn
  ends : Turn
  fails : (message : Str) → Turn
  closes : Turn
  listens : (method : Str) → (handler : ℕ) → Turn
  unlistens : (method : Str) → (handler : ℕ) → Turn
  watches : (handler : ℕ) → Turn
  unwatches : (handler : ℕ) → Turn

module _ (json : JsonText) (encode : Str → Bytes) (decode : Bytes → Str) where
  abbrev pub turn : Turn → ℕ → RpcClient → RpcClient × List Output
  turn (calls method params signal) now c = call json encode decode method params signal now c
  turn (aborts id) now c = abort id c
  turn (receives chunk) now c = on_data json encode decode chunk now c
  turn ends now c = on_end json encode decode now c
  turn (fails message) now c = on_stream_error json encode decode message c
  turn closes now c = close_client json encode decode now c
  turn (listens method handler) now c = (on_notification method handler c, [])
  turn (unlistens method handler) now c = (off_notification method handler c, [])
  turn (watches handler) now c = (on_close handler c, [])
  turn (unwatches handler) now c = (off_close handler c, [])

  -- The turns in order, each with the time at which it happens.
  abbrev pub run : List (Turn × ℕ) → RpcClient → RpcClient × List Output
  run [] c = (c, [])
  run ((t, now) ∷ ts) c =
      let (c', out) = turn t now c in let rest = run ts c' in (rest.0, out ++ rest.1)
