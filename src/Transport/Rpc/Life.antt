-- ===== src/Transport/Rpc/Life.antt =====
-- plugin/src/transport/RpcClient.ts: the calls of a client through its whole life.
use mathlib.Core.List.{append_assoc}
use obsidian_remote_ssh.Prelude.{
  ℕ, ◌+◌, List, [], ◌∷◌, ◌++◌, true, false, if◌then◌else◌, Str, str_eq, ◌≡◌, refl, subst, arith,
  nat_eq, Bool-cases, inl, inr, ◌⊎◌,
}
use obsidian_remote_ssh.JsMap
use obsidian_remote_ssh.JsMap.{keys, IsDistinct}
use obsidian_remote_ssh.Json.{JsonText}
use obsidian_remote_ssh.Transport.Framing.{FramedDuplex}
use obsidian_remote_ssh.Transport.Rpc
use obsidian_remote_ssh.Transport.Rpc.{
  Bytes, PendingCall, RpcClient, StreamError, stream, Output, resolved, rejected, refused, written,
  Reason, settle, request_json, Turn, calls, aborts, receives, ends, fails, closes, listens,
  unlistens, watches, unwatches, turn, run, remove_first,
}
use obsidian_remote_ssh.Transport.Rpc.Settle.{settled, waits, issued, IsValid}
use obsidian_remote_ssh.Transport.Rpc.Once.{After, idle}
use obsidian_remote_ssh.Transport.Rpc.Turns.{turn-IsValid}

init-IsValid : (framed : FramedDuplex) (started : ℕ) → IsValid (Rpc.init framed started) []
unfolding Rpc.init
init-IsValid framed started = record {
  books = record {
    distinct = tt;
    positive = omega arith;
    each = λ j. unfold JsMap.get in none_issued j;
  };
  shut = λ _. refl;
}
  where
    none_issued : (j : ℕ) → 0 + 0 ≡ issued j 1
    none_issued j = ground arith

module _ (json : JsonText) (encode : Str → Bytes) (decode : Bytes → Str) where
  run-IsValid :
      (ts : List (Turn × ℕ)) (c : RpcClient) (out : List Output)
      → IsValid c out
      → After json encode decode out (run json encode decode ts c)
  run-IsValid [] c out h = idle json encode decode c out h
  run-IsValid ((t, now) ∷ ts) c out h =
      let one = turn json encode decode t now c in
      let rest = run json encode decode ts one.0 in
      subst (IsValid rest.0) (append_assoc out one.1 rest.1)
        (run-IsValid ts one.0 (out ++ one.1) (turn-IsValid json encode decode t now c out h))

  -- A client that is created and then lives through any turns, calls, aborts, bytes of any content,
  -- the end, the failure and the closing of the stream among them: each id that was given to a call
  -- is either still pending and was never settled, or was settled (resolved or rejected) exactly
  -- once; no other number was ever settled; and of a closed client no call is pending, so each was
  -- settled.
  pub run-settled :
      (framed : FramedDuplex) (started : ℕ) (ts : List (Turn × ℕ)) (id : ℕ)
      → let r = run json encode decode ts (Rpc.init framed started) in
        (settled id r.1 + waits id r.0.pending ≡ issued id r.0.next_id)
        × (settled id r.1 + (if r.0.closed then 0 else waits id r.0.pending)
            ≡ issued id r.0.next_id)
  run-settled framed started ts id =
      let r = run json encode decode ts (Rpc.init framed started) in
      let valid : IsValid r.0 r.1 = run-IsValid ts _ [] (init-IsValid framed started) in
      (valid.books.each id, closed_all r.0 r.1 valid (Bool-cases r.0.closed))
    where
      closed_all :
          (c : RpcClient) (out : List Output)
          → IsValid c out
          → (c.closed ≡ true) ⊎ (c.closed ≡ false)
          → settled id out + (if c.closed then 0 else waits id c.pending) ≡ issued id c.next_id
      closed_all c out h (inr open_) = rw open_ (h.books.each id)
      closed_all c out h (inl shut) =
          let idle_now : waits id c.pending ≡ 0 = rw (h.shut shut) (unfold JsMap.get in refl) in
          rw shut (omega (arith, h.books.each id, idle_now))
