-- ===== src/Relay/Delivery.antt =====
-- proxy/tcp.go: what `relay` delivers.
use wc3ts.Prelude.{
  ℕ, suc, ◌≡◌, ◌≤◌, refl, sym, subst, ap, ◌∙◌, Bool, true, false, List, [], ◌∷◌, ◌++◌, Option, none,
  some, Bytes, take, drop, zero, length, All, arith, append-nil, append_assoc,
}
use wc3ts.Relay.{
  Chunk, arrived, eof, broken, Half, copy_read, copy_step, copy_run, Relay, Turn, remote_turn,
  client_turn, relay_step, relay_run, relay, relay_done, start_half, start_relay,
}

-- The bytes of a stream, up to its end.
unfoldable pub stream : List Chunk → Bytes
stream [] = []
stream (arrived s ∷ rest) = s ++ stream rest
stream (eof ∷ rest) = []
stream (broken ∷ rest) = []

-- The stream has an end.
unfoldable pub Ends : List Chunk → Type 0
Ends [] = ⊥
Ends (arrived s ∷ rest) = Ends rest
Ends (eof ∷ rest) = Unit
Ends (broken ∷ rest) = Unit

unfoldable pub remote_turns : List Turn → List (Option ℕ)
remote_turns [] = []
remote_turns (remote_turn o ∷ ts) = o ∷ remote_turns ts
remote_turns (client_turn o ∷ ts) = remote_turns ts

unfoldable pub client_turns : List Turn → List (Option ℕ)
client_turns [] = []
client_turns (remote_turn o ∷ ts) = client_turns ts
client_turns (client_turn o ∷ ts) = o ∷ client_turns ts

-- Neither direction sees the other: an interleaving does what its two parts do one by one.
pub relay_run-halves :
    (ts : List Turn) (r : Relay)
    → relay_run ts r ≡ record {
      to_remote = copy_run (remote_turns ts) r.to_remote;
      to_client = copy_run (client_turns ts) r.to_client;
    }
unfolding relay_run relay_step copy_run remote_turns client_turns
relay_run-halves [] r = refl
relay_run-halves (remote_turn o ∷ ts) r = relay_run-halves ts (relay_step (remote_turn o) r)
relay_run-halves (client_turn o ∷ ts) r = relay_run-halves ts (relay_step (client_turn o) r)

pub take-drop : (n : ℕ) (s : Bytes) → take n s ++ drop n s ≡ s
take-drop zero s = refl
take-drop (suc n) [] = refl
take-drop (suc n) (c ∷ s) = ap (◌∷◌ c) (take-drop n s)

-- Some bytes `q` are still missing of all that `h` is to write after `out`.
abbrev pub Prefixes : Half → Bytes → Type 0
Prefixes h whole = (q : Bytes) × (h.output ++ q ≡ whole)

-- An open half has written `whole` but for its unread stream.
pub record Copying (whole : Bytes) (h : Half) : Type 0 where
  pub prefixes : Prefixes h whole
  pub rest : h.closed ≡ false → h.output ++ stream h.input ≡ whole

copy_read-Copying :
    (whole : Bytes) (o : Option ℕ) (input : List Chunk) (out : Bytes)
    → out ++ stream input ≡ whole
    → Copying whole (copy_read o input (record { input = input; output = out; closed = false }))
unfolding copy_read stream
copy_read-Copying whole o [] out e = record { prefixes = ([], e); rest = λ _. e }
copy_read-Copying whole none (arrived s ∷ rest) out e =
    let e' = append_assoc out s (stream rest) ∙ e in
    record { prefixes = (stream rest, e'); rest = λ _. e' }
copy_read-Copying whole (some n) (arrived s ∷ rest) out e = record {
  prefixes = (
    drop n s ++ stream rest,
    append_assoc out (take n s) (drop n s ++ stream rest)
        ∙ ap (λ t. out ++ t)
            (sym (append_assoc (take n s) (drop n s) (stream rest))
              ∙ ap (λ t. t ++ stream rest) (take-drop n s))
        ∙ e,
  );
  rest = λ c. cc;
}
copy_read-Copying whole none (eof ∷ rest) out e = record { prefixes = ([], e); rest = λ c. cc }
copy_read-Copying whole (some n) (eof ∷ rest) out e = record { prefixes = ([], e); rest = λ c. cc }
copy_read-Copying whole none (broken ∷ rest) out e = record { prefixes = ([], e); rest = λ c. cc }
copy_read-Copying whole (some n) (broken ∷ rest) out e = record {
  prefixes = ([], e);
  rest = λ c. cc;
}

copy_step-Copying :
    (whole : Bytes) (o : Option ℕ) (input : List Chunk) (out : Bytes) (closed : Bool)
    → Copying whole (record { input = input; output = out; closed = closed })
    → Copying whole (copy_step o (record { input = input; output = out; closed = closed }))
unfolding copy_step
copy_step-Copying whole o input out true c = c
copy_step-Copying whole o input out false c = copy_read-Copying whole o input out (c.rest refl)

copy_run-Copying :
    (whole : Bytes) (os : List (Option ℕ)) (h : Half)
    → Copying whole h
    → Copying whole (copy_run os h)
unfolding copy_run
copy_run-Copying whole [] h c = c
copy_run-Copying whole (o ∷ os) h c =
    copy_run-Copying whole os (copy_step o h)
      (copy_step-Copying whole o h.input h.output h.closed c)

start-Copying : (input : List Chunk) → Copying (stream input) (start_half input)
start-Copying input = record { prefixes = (stream input, refl); rest = λ _. refl }

-- Under every interleaving, what has been written in a direction is a prefix of the stream that is
-- read in this direction, however the reads and writes end.
pub relay-Prefixes :
    (turns : List Turn) (client remote : List Chunk)
    → Prefixes (relay turns client remote).to_remote (stream client)
      × Prefixes (relay turns client remote).to_client (stream remote)
unfolding relay
relay-Prefixes turns client remote = rw (relay_run-halves turns (start_relay client remote)) (
  (copy_run-Copying _ (remote_turns turns) _ (start-Copying client)).prefixes,
  (copy_run-Copying _ (client_turns turns) _ (start-Copying remote)).prefixes,
)

-- A closed half stays as it is.
pub copy_run-closed :
    (os : List (Option ℕ)) (input : List Chunk) (out : Bytes)
    → copy_run os (record { input = input; output = out; closed = true })
      ≡ record { input = input; output = out; closed = true }
unfolding copy_run copy_step
copy_run-closed [] input out = refl
copy_run-closed (o ∷ os) input out = copy_run-closed os input out

-- The half has ended with the whole stream written.
pub record Delivered (whole : Bytes) (h : Half) : Type 0 where
  pub ended : h.closed ≡ true
  pub all_written : h.output ≡ whole

abbrev pub AllWritten : List (Option ℕ) → Type 0
AllWritten os = All (λ o. o ≡ none) os

copy_run-Delivered :
    (os : List (Option ℕ)) (input : List Chunk) (out : Bytes)
    → Ends input
    → AllWritten os
    → length input ≤ length os
    → Delivered
        (out ++ stream input)
        (copy_run os (record { input = input; output = out; closed = false }))
unfolding copy_run copy_step copy_read stream Ends
copy_run-Delivered os [] out e w l = absurd e
copy_run-Delivered [] (x ∷ rest) out e w l = absurd (omega arith)
copy_run-Delivered (some n ∷ os) (x ∷ rest) out e w l = absurd (cc w.0)
copy_run-Delivered (none ∷ os) (arrived s ∷ rest) out e w l =
    subst
      (λ t. Delivered t (copy_run os (record { input = rest; output = out ++ s; closed = false })))
      (append_assoc out s (stream rest)) (copy_run-Delivered os rest (out ++ s) e w.1 (omega arith))
copy_run-Delivered (none ∷ os) (eof ∷ rest) out e w l =
    rw (copy_run-closed os rest out) (record { ended = refl; all_written = sym (append-nil out) })
copy_run-Delivered (none ∷ os) (broken ∷ rest) out e w l =
    rw (copy_run-closed os rest out) (record { ended = refl; all_written = sym (append-nil out) })

-- If both streams have an end, no write fails, and each direction has as many turns as its stream
-- has reads, then `relay` returns, and each side has received everything that the other sent.
pub relay_delivers :
    (turns : List Turn) (client remote : List Chunk)
    → Ends client
    → Ends remote
    → AllWritten (remote_turns turns)
    → AllWritten (client_turns turns)
    → length client ≤ length (remote_turns turns)
    → length remote ≤ length (client_turns turns)
    → (relay_done (relay turns client remote) ≡ true)
      × ((relay turns client remote).to_remote.output ≡ stream client)
      × ((relay turns client remote).to_client.output ≡ stream remote)
unfolding relay relay_done
relay_delivers turns client remote ce re cw dw cl rl =
    let c = copy_run-Delivered (remote_turns turns) client [] ce cw cl in
    let r = copy_run-Delivered (client_turns turns) remote [] re dw rl in
    rw (relay_run-halves turns (start_relay client remote), c.ended, r.ended)
      (refl, c.all_written, r.all_written)
