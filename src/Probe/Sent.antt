-- ===== src/Probe/Sent.antt =====
-- cmd/wc3ts/probe.go: what the command sends, and whether it returns.
use wc3ts.Prelude.{◌≡◌, ◌≢◌, refl, ℕ, Bytes, codes, sym, ap, ◌∙◌, inl, inr}
use wc3ts.W3gs.{SearchGame}
use wc3ts.Probe.Receive.{
  Explained, Received, finished, still_waiting, read_failed, deadline_failed, receive_responses,
}
use wc3ts.Probe.Receive.Silent.{Stops, Over, receive_responses-Over}
use wc3ts.Probe.{waiting, refused, Products, Session, probe_hosts, ProbeArgs, probe_exec, result_of}
use wc3ts.Probe.Errors.{Accepted-probe_hosts, begun}

Over-ne-waiting : (r : Received) → Over r → result_of r ≢ waiting
unfolding Over
Over-ne-waiting (finished n) h = cc
Over-ne-waiting (read_failed n) h = cc
Over-ne-waiting (deadline_failed n) h = cc
Over-ne-waiting (still_waiting n) h = absurd h

-- The product that a text names.
pub data Names (c : Products) (s : Bytes) : Bytes → Type 0 where
  w3xp : s ≡ codes "W3XP" → Names c s c.product_tft
  tft : s ≡ codes "TFT" → Names c s c.product_tft
  war3 : s ≡ codes "WAR3" → Names c s c.product_roc
  roc : s ≡ codes "ROC" → Names c s c.product_roc

-- The search for a version of a product.
abbrev pub search_for : Bytes → ℕ → SearchGame
search_for product version = record {
  game_version = record { product = product; version = version };
  host_counter = 1;
}

module _ (c : Products) (x : Explained) (s : Session) (a : ProbeArgs) where
  -- If a read fails at last, by the timeout or another error, then the command returns, with or
  -- without an error: it does not wait for ever.
  pub probe_exec-returns : Stops s.reads → (probe_exec c x s a).result ≢ waiting
  unfolding probe_hosts
  probe_exec-returns h e = elim (begun c x s a) [
    | inl (n, _, same) ↦ let r : refused n ≡ waiting = sym (ap (λ p. p.result) same) ∙ e in cc r
    | inr (v, ok, on) ↦
        let r : (probe_exec c x s a).result
            ≡ result_of (receive_responses x a.timeout s.deadline s.reads).1 =
          rw (Accepted-probe_hosts c x s a v ok, on) refl in
        Over-ne-waiting _ (receive_responses-Over x a.timeout s.deadline s.reads h) (sym r ∙ e)
  ]
