-- ===== src/Program/Catches.antt =====
-- cmd/wc3ts/run.go with tui/: the event loop works off what it is sent.
use wc3ts.Prelude.{
  ℕ, ◌+◌, ◌≤◌, ◌≡◌, refl, sym, ap, ◌∙◌, Bool, true, false, subst, List, [], ◌∷◌, ◌++◌, Option, none,
  some, Bytes, Perm, append-nil, length, arith, inl, inr, ◌⊎◌,
}
use wc3ts.Prelude.Assoc.{values}
use wc3ts.W3gs.{Decoder}
use wc3ts.Tailscale.{Peer}
use wc3ts.Sorting.{Sorter}
use wc3ts.Version.{Info}
use wc3ts.App.{App, AppEvent, System, services, run_exec, version_chosen, refresh_chosen, app_step}
use wc3ts.Tui.{Tables, Effect, version_called, refresh_called, quit, log_msg}
use wc3ts.Tui.Update.{update}
use wc3ts.Tui.Effects.{most_effects, length-update}
use wc3ts.Program.{
  Program, Incoming, message, quit_message, Loop, receiving, blocked, ended, to_screen, serve, post,
  send_own, call_back, perform, take_message, receive_in, receive_next, receives, Reaches, log_line,
  level_info, level_debug, version_record, refresh_record, then_step, start_program,
}
use wc3ts.Peer.{refresh}
use wc3ts.Program.Service.{to_screen-probes}
use wc3ts.Program.Current.{Reaches-Current}

-- The rounds of the loop that a message takes: a key may add a line for the log.
unfoldable pub cost : Incoming → ℕ
unfolding most_effects
cost (message msg) = most_effects msg + 1
cost quit_message = 1

unfoldable pub rounds : List Incoming → ℕ
unfolding cost
rounds [] = 0
rounds (i ∷ l) = cost i + rounds l

rounds-append : (l m : List Incoming) → rounds (l ++ m) ≡ rounds l + rounds m
unfolding rounds
rounds-append [] m = omega arith
rounds-append (i ∷ l) m = let rest = rounds-append l m in omega arith

no_rounds : (l : List Incoming) → rounds l ≡ 0 → l ≡ []
unfolding rounds cost
no_rounds [] e = refl
no_rounds (message msg ∷ l) e = absurd (omega arith)
no_rounds (quit_message ∷ l) e = absurd (omega arith)

-- The loop goes on as it was, or has blocked in a send of its own.
Stays : Bool → Loop → Loop → Type 0
Stays send_blocks l m = (m ≡ l) ⊎ ((m ≡ blocked) × (send_blocks ≡ true))

Stays-trans :
    (send_blocks : Bool) (l m n : Loop)
    → Stays send_blocks l m
    → Stays send_blocks m n
    → Stays send_blocks l n
unfolding Stays
Stays-trans b l m n s (inr stops) = inr stops
Stays-trans b l m n (inl d) (inl e) = inl (e ∙ d)
Stays-trans b l m n (inr (d, t)) (inl e) = inr (e ∙ d, t)

-- The user has quit, or the loop has blocked in a send of its own.
abbrev pub Halted : {ops : Tables} → Bool → Program ops → Type 0
Halted send_blocks q = (q.loop ≡ ended) ⊎ ((q.loop ≡ blocked) × (send_blocks ≡ true))

rounds-send_own :
    {ops : Tables} (decode : Decoder) (b : Bool) (o : Option Bytes) (p : Program ops)
    → (rounds (send_own decode b o p).pending ≤ rounds p.pending + 1)
      × Stays b p.loop (send_own decode b o p).loop
unfolding send_own post Stays
rounds-send_own decode b none p = (omega arith, inl refl)
rounds-send_own decode true (some line) p = (omega arith, inr (refl, refl))
rounds-send_own decode false (some line) p =
    let split = rounds-append p.pending (message (log_msg line) ∷ []) in
    let one : rounds (message (log_msg line) ∷ []) ≡ 1 = unfold rounds cost in refl in
    (omega arith, inl refl)

module _ {ops : Tables} (decode : Decoder) (send_blocks : Bool) where
  rounds-call_back :
      (e : AppEvent) (o : Option Bytes) (p : Program ops)
      → to_screen (app_step decode e p.app).1 ≡ []
      → (rounds (call_back decode send_blocks e o p).pending ≤ rounds p.pending + 1)
        × Stays send_blocks p.loop (call_back decode send_blocks e o p).loop
  unfolding call_back serve Stays
  rounds-call_back e o p silent =
      let (bound, same) = rounds-send_own decode send_blocks o (serve decode send_blocks e p) in
      let still : (serve decode send_blocks e p).pending ≡ p.pending =
        ap (λ l. p.pending ++ l) silent ∙ append-nil p.pending in
      let here = ap rounds still in (omega arith, same)

  -- A service that is called back sends nothing to the interface.
  rounds-perform :
      (time : Bytes) (effects : List Effect) (p : Program ops)
      → (rounds (perform decode send_blocks time effects p).pending
          ≤ rounds p.pending + length effects)
        × Stays send_blocks p.loop (perform decode send_blocks time effects p).loop
  unfolding perform Stays
  rounds-perform time [] p = (omega arith, inl refl)
  rounds-perform time (version_called v ∷ effects) p =
      let line = log_line p.log_ready level_info (version_record time v) in
      let (one, same) =
        rounds-call_back (version_chosen v) line p (unfold app_step to_screen in refl) in
      let (more, still) =
        rounds-perform time effects (call_back decode send_blocks (version_chosen v) line p) in
      (omega arith, Stays-trans send_blocks _ _ _ same still)
  rounds-perform time (refresh_called ∷ effects) p =
      let line = log_line p.log_ready level_debug (refresh_record time) in
      let (one, same) =
        rounds-call_back refresh_chosen line p
          (unfold app_step in to_screen-probes (refresh p.app.peer_manager)) in
      let (more, still) =
        rounds-perform time effects (call_back decode send_blocks refresh_chosen line p) in
      (omega arith, Stays-trans send_blocks _ _ _ same still)
  rounds-perform time (quit ∷ effects) p =
      let asked : Program ops = record p { pending = p.pending ++ quit_message ∷ [] } in
      let split = rounds-append p.pending (quit_message ∷ []) in
      let one : rounds (quit_message ∷ []) ≡ 1 = unfold rounds cost in refl in
      let (more, still) = rounds-perform time effects asked in (omega arith, still)

  -- The rounds of the loop, each with its sorter and its time.
  pub receive_all : List (Sorter Peer × Bytes) → Program ops → Program ops
  receive_all [] p = p
  receive_all ((sorter, time) ∷ turns) p =
      receive_all turns (receive_next decode send_blocks sorter time p)

  Reaches-receive_all :
      (turns : List (Sorter Peer × Bytes)) (p q : Program ops)
      → Reaches decode send_blocks p q
      → Reaches decode send_blocks p (receive_all turns q)
  unfolding receive_all
  Reaches-receive_all [] p q r = r
  Reaches-receive_all ((sorter, time) ∷ turns) p q r =
      Reaches-receive_all turns p _ (then_step q _ r (receives sorter time))

  receive_all-Halted :
      (turns : List (Sorter Peer × Bytes)) (p : Program ops)
      → Halted send_blocks p
      → receive_all turns p ≡ p
  unfolding receive_all receive_next receive_in
  receive_all-Halted [] p h = refl
  receive_all-Halted ((sorter, time) ∷ turns) p (inl e) =
      ap (receive_all turns) (ap (λ l. receive_in decode send_blocks sorter time l p) e)
      ∙ receive_all-Halted turns p (inl e)
  receive_all-Halted ((sorter, time) ∷ turns) p (inr (e, t)) =
      ap (receive_all turns) (ap (λ l. receive_in decode send_blocks sorter time l p) e)
      ∙ receive_all-Halted turns p (inr (e, t))

  -- A round takes a message off, or halts the loop, or there is none.
  rounds-take_message :
      (sorter : Sorter Peer) (time : Bytes) (l : List Incoming) (p : Program ops) (n : ℕ)
      → p.pending ≡ l
      → p.loop ≡ receiving
      → rounds l ≤ n + 1
      → let q = take_message decode send_blocks sorter time l p in
        Halted send_blocks q ⊎ ((q.loop ≡ receiving) × (rounds q.pending ≤ n))
  unfolding take_message Stays
  rounds-take_message sorter time [] p n e opens bound = inr (
    opens,
    let none_due = ap rounds e in
        let zero_cost : rounds [] ≡ 0 = unfold rounds in refl in omega arith,
  )
  rounds-take_message sorter time (quit_message ∷ rest) p n e opens bound = inl (inl refl)
  rounds-take_message sorter time (message msg ∷ rest) p n e opens bound =
      let (screen, effects) = update ops sorter msg p.screen in
      let (fewer, same) =
        rounds-perform time effects (record p { screen = screen; pending = rest }) in
      let few = length-update ops sorter msg p.screen in
      let taken : rounds (message msg ∷ rest) ≡ most_effects msg + 1 + rounds rest =
        unfold rounds cost in refl in
      elim same [ inl still ↦ inr (still ∙ opens, omega arith) | inr stops ↦ inl (inr stops) ]

  rounds-receive_all :
      (turns : List (Sorter Peer × Bytes)) (p : Program ops)
      → p.loop ≡ receiving
      → rounds p.pending ≤ length turns
      → let q = receive_all turns p in Halted send_blocks q ⊎ (q.pending ≡ [])
  unfolding receive_all receive_next
  rounds-receive_all [] p opens bound = inr (no_rounds p.pending (omega arith))
  rounds-receive_all ((sorter, time) ∷ turns) p opens bound =
      let next =
        rounds-take_message sorter time p.pending p (length turns) refl opens (omega arith) in
      let does : take_message decode send_blocks sorter time p.pending p
          ≡ receive_next decode send_blocks sorter time p =
        ap (λ l. receive_in decode send_blocks sorter time l p) (sym opens) in
      subst (λ q. Halted send_blocks (receive_all turns q) ⊎ ((receive_all turns q).pending ≡ []))
        does
        (elim next [
          | inl e ↦ inl (subst (Halted send_blocks) (sym (receive_all-Halted turns _ e)) e)
          | inr (still, fewer) ↦ rounds-receive_all turns _ still fewer
        ])

  -- In a program that has started and whose event loop receives: once the loop has gone round as
  -- often as `rounds` says of what is under way, which is once for each message and twice for each
  -- key, one of three things is so: the user has quit; or the loop has blocked in a send to itself,
  -- which only happens if such a send blocks; or nothing is under way any more, and the interface has
  -- the games of the registry and the peers of the discovery, each in some order.
  pub catches_up :
      (product : Bytes) (version : ℕ) (sys : System) (build : Info) (a : App) (p : Program ops)
      (turns : List (Sorter Peer × Bytes))
      → run_exec product version sys ≡ services a
      → Reaches decode send_blocks (start_program build a) p
      → p.loop ≡ receiving
      → rounds p.pending ≤ length turns
      → let q = receive_all turns p in
        Halted send_blocks q
        ⊎ ((q.pending ≡ [])
            × Perm q.screen.games (values q.app.registry.games)
            × Perm q.screen.peers q.app.discovery.peers)
  catches_up product version sys build a p turns starts reaches opens bound =
      let q = receive_all turns p in
      let current =
        Reaches-Current decode send_blocks product version sys build a q starts
          (Reaches-receive_all turns _ p reaches) in
      elim (rounds-receive_all turns p opens bound) [
        | inl e ↦ inl e
        | inr e ↦ inr (e, current.same_games e, current.same_peers e)
      ]
