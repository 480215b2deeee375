-- ===== src/Relay/Returns.antt =====
-- proxy/tcp.go: `relay` returns.
use wc3ts.Prelude.{
  ℕ, ◌≡◌, ◌≤◌, refl, ap, true, false, List, [], ◌∷◌, ◌++◌, Option, none, some, Bytes, length, take,
  arith,
}
use wc3ts.Relay.{
  Chunk, arrived, eof, broken, Half, copy_read, copy_step, copy_run, Turn, relay, relay_done,
  start_relay,
}
use wc3ts.Relay.Delivery.{Ends, remote_turns, client_turns, relay_run-halves, copy_run-closed}

-- A direction with enough turns is closed at last, also if a write fails.
copy_run-closes :
    (os : List (Option ℕ)) (input : List Chunk) (out : Bytes)
    → Ends input
    → length input ≤ length os
    → (copy_run os (record { input = input; output = out; closed = false })).closed ≡ true
unfolding copy_run copy_step copy_read Ends
copy_run-closes os [] out e l = absurd e
copy_run-closes [] (c ∷ rest) out e l = absurd (omega arith)
copy_run-closes (none ∷ os) (arrived s ∷ rest) out e l =
    copy_run-closes os rest (out ++ s) e (omega arith)
copy_run-closes (some n ∷ os) (arrived s ∷ rest) out e l =
    ap (λ (h : Half). h.closed) (copy_run-closed os rest (out ++ take n s))
copy_run-closes (none ∷ os) (eof ∷ rest) out e l =
    ap (λ (h : Half). h.closed) (copy_run-closed os rest out)
copy_run-closes (some n ∷ os) (eof ∷ rest) out e l =
    ap (λ (h : Half). h.closed) (copy_run-closed os rest out)
copy_run-closes (none ∷ os) (broken ∷ rest) out e l =
    ap (λ (h : Half). h.closed) (copy_run-closed os rest out)
copy_run-closes (some n ∷ os) (broken ∷ rest) out e l =
    ap (λ (h : Half). h.closed) (copy_run-closed os rest out)

-- If both streams end, in good order or with an error, and each direction has as many turns as its
-- stream has reads, then `relay` returns, whatever the writes do: neither side waits for the other.
pub relay_returns :
    (turns : List Turn) (client remote : List Chunk)
    → Ends client
    → Ends remote
    → length client ≤ length (remote_turns turns)
    → length remote ≤ length (client_turns turns)
    → relay_done (relay turns client remote) ≡ true
unfolding relay relay_done
relay_returns turns client remote ce re cl rl =
    rw
      (
        relay_run-halves turns (start_relay client remote),
        copy_run-closes (remote_turns turns) client [] ce cl,
        copy_run-closes (client_turns turns) remote [] re rl,
      )
      refl
