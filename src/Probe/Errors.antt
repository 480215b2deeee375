-- ===== src/Probe/Errors.antt =====
-- cmd/wc3ts/probe.go: the errors of the command.
use wc3ts.Prelude.{
  ℕ, ◌+◌, ◌⊎◌, take, ◌≡◌, ◌≢◌, ◌↔◌, refl, sym, ◌∙◌, true, false, List, [], ◌∷◌, Option, none, some,
  Bytes, arith, Bool-cases, inl, inr, subst,
}
use wc3ts.Text.{Parsed, number, failed, NumError}
use wc3ts.Net.{UdpAddr}
use wc3ts.Net.Ip.{udp_text}
use wc3ts.W3gs.{GameVersion}
use wc3ts.Config.{parse_version}
use wc3ts.Probe.Receive.{
  Explained, Read, datagram_read, timed_out, read_error, Received, finished, read_failed,
  deadline_failed, still_waiting, receive_reads, receive_responses, buffer_size, handle_packet,
}
use wc3ts.Probe.{
  ProbeError, no_hosts, socket_error, invalid_version, unknown_product, receive_error, ProbeResult,
  result_of, refuse, refused, Products, parse_product, Session, probe_hosts, probe_with, ProbeArgs,
  probe_exec,
}

-- The flags and the hosts are right, for this product and version.
pub record Accepted (c : Products) (a : ProbeArgs) (v : GameVersion) : Type 0 where
  pub some_hosts : a.hosts ≢ []
  pub right_version : parse_version a.version_str ≡ number v.version
  pub right_product : parse_product c a.product ≡ some v.product

-- A read fails with the error, and the reads before it bring datagrams.
pub data FailsWith (e : Bytes) : List Read → Type 0 where
  at_once : (rest : List Read) → FailsWith e (read_error e ∷ rest)
  after :
      {s : Bytes} {f : UdpAddr} {rest : List Read}
      → FailsWith e rest
      → FailsWith e (datagram_read s f ∷ rest)

-- When the command fails, and with which error.
pub data Fails (c : Products) (s : Session) (a : ProbeArgs) : ProbeError → Type 0 where
  without_hosts : a.hosts ≡ [] → Fails c s a no_hosts
  by_version :
      (e : NumError)
      → a.hosts ≢ []
      → parse_version a.version_str ≡ failed e
      → Fails c s a (invalid_version e)
  by_product :
      (v : ℕ)
      → a.hosts ≢ []
      → parse_version a.version_str ≡ number v
      → parse_product c a.product ≡ none
      → Fails c s a (unknown_product a.product)
  by_socket : (v : GameVersion) → Accepted c a v → s.socket ≡ false → Fails c s a socket_error
  by_deadline :
      (v : GameVersion) (e : Bytes)
      → Accepted c a v
      → s.socket ≡ true
      → s.deadline ≡ some e
      → Fails c s a (receive_error e)
  by_read :
      (v : GameVersion) (e : Bytes)
      → Accepted c a v
      → s.socket ≡ true
      → s.deadline ≡ none
      → FailsWith e s.reads
      → Fails c s a (receive_error e)

fails-read :
    (e : Bytes) (x : Explained) (reads : List Read) (found : ℕ)
    → FailsWith e reads
    → (receive_reads x reads found).1 ≡ read_failed e
unfolding receive_reads
fails-read e x _ found (at_once rest) = refl
fails-read e x _ found (after h) = fails-read e x _ _ h

-- The reads do not end with an error.
Quiet : Received → Type 0
Quiet (finished n) = Unit
Quiet (still_waiting n) = Unit
Quiet (read_failed e) = ⊥
Quiet (deadline_failed e) = ⊥

fails_or_Quiet :
    (x : Explained) (reads : List Read) (found : ℕ)
    → ((e : Bytes) × FailsWith e reads) ⊎ Quiet (receive_reads x reads found).1
unfolding receive_reads Quiet
fails_or_Quiet x [] found = inr tt
fails_or_Quiet x (timed_out ∷ rest) found = inr tt
fails_or_Quiet x (read_error e ∷ rest) found = inl (e, at_once rest)
fails_or_Quiet x (datagram_read s f ∷ rest) found =
    elim (fails_or_Quiet x rest (found + (handle_packet x (take buffer_size s) (udp_text f)).1)) [
      | inl (e, h) ↦ inl (e, after h)
      | inr q ↦ inr q
    ]

Quiet-result_of : (r : Received) (e : ProbeError) → Quiet r → ¬ (result_of r ≡ refused e)
unfolding Quiet
Quiet-result_of (finished n) e q = cc
Quiet-result_of (still_waiting n) e q = cc
Quiet-result_of (read_failed n) e q = absurd q
Quiet-result_of (deadline_failed n) e q = absurd q

module _ (c : Products) (x : Explained) (s : Session) (a : ProbeArgs) where
  pub Accepted-probe_hosts :
      (v : GameVersion) → Accepted c a v → probe_exec c x s a ≡ probe_hosts x s a.hosts a.timeout v
  unfolding probe_exec probe_with
  Accepted-probe_hosts v ok = go a.hosts refl
    where
      go :
          (hs : List Bytes)
          → a.hosts ≡ hs
          → probe_exec c x s a ≡ probe_hosts x s a.hosts a.timeout v
      go [] e = absurd (ok.some_hosts e)
      go (h ∷ hs) e = rw (e, ok.right_version, ok.right_product) refl

  abbrev Ends : ProbeResult → Type 0
  Ends r = (probe_exec c x s a).result ≡ r

  Fails-refused : (e : ProbeError) → Fails c s a e → Ends (refused e)
  unfolding probe_exec probe_with probe_hosts receive_responses
  Fails-refused e (without_hosts h) = rw h refl
  Fails-refused e (by_version n ne h) = ground arith
  Fails-refused e (by_product v ne hv hp) = ground arith
  Fails-refused e (by_socket v ok h) = rw (Accepted-probe_hosts v ok, h) refl
  Fails-refused e (by_deadline v n ok h hd) = rw (Accepted-probe_hosts v ok, h, hd) refl
  Fails-refused e (by_read v n ok h hd hr) =
      rw (Accepted-probe_hosts v ok, h, hd, fails-read n x s.reads 0 hr) refl

  -- The command fails, or it does not.
  abbrev Settled : Type 0
  Settled = ((e : ProbeError) × Fails c s a e) ⊎ ((e : ProbeError) → ¬ Ends (refused e))

  open_settled :
      (v : GameVersion) (d : Option Bytes)
      → Accepted c a v
      → s.socket ≡ true
      → s.deadline ≡ d
      → Settled
  unfolding probe_hosts receive_responses
  open_settled v (some n) ok h hd = inl (receive_error n, by_deadline v n ok h hd)
  open_settled v none ok h hd = elim (fails_or_Quiet x s.reads 0) [
    | inl (n, f) ↦ inl (receive_error n, by_read v n ok h hd f)
    | inr q ↦
        let ends : (probe_exec c x s a).result ≡ result_of (receive_reads x s.reads 0).1 =
          rw (Accepted-probe_hosts v ok, h, hd) refl in
        inr (λ e r. Quiet-result_of _ e q (sym ends ∙ r))
  ]

  -- Before anything is sent: the command is refused, and has done nothing; or its socket is open.
  abbrev pub Begun : Type 0
  Begun =
      ((e : ProbeError) × Fails c s a e × (probe_exec c x s a ≡ refuse e))
      ⊎ ((v : GameVersion) × Accepted c a v × (s.socket ≡ true))

  begun_with :
      (hs : List Bytes) (pv : Parsed) (pp : Option Bytes)
      → a.hosts ≡ hs
      → parse_version a.version_str ≡ pv
      → parse_product c a.product ≡ pp
      → Begun
  unfolding probe_exec probe_with probe_hosts
  begun_with [] pv pp eh ev ep = inl (no_hosts, without_hosts eh, rw eh refl)
  begun_with (h ∷ hs) (failed e) pp eh ev ep =
      inl (invalid_version e, by_version e (cc) ev, rw (eh, ev) refl)
  begun_with (h ∷ hs) (number v) none eh ev ep =
      inl (unknown_product a.product, by_product v (cc) ev ep, rw (eh, ev, ep) refl)
  begun_with (h ∷ hs) (number v) (some p) eh ev ep =
      let version : GameVersion = record { product = p; version = v } in
      let ok : Accepted c a version = record {
        some_hosts = cc;
        right_version = ev;
        right_product = ep;
      } in
      elim (Bool-cases s.socket) [
        | inl on ↦ inr (version, ok, on)
        | inr off ↦
            inl (
              socket_error,
              by_socket version ok off,
              rw (Accepted-probe_hosts version ok, off) refl,
            )
      ]

  pub begun : Begun
  begun = begun_with a.hosts _ _ refl refl refl

  settled : Settled
  settled = elim begun [
    | inl (e, f, _) ↦ inl (e, f)
    | inr (v, ok, on) ↦ open_settled v s.deadline ok on refl
  ]

  -- The command fails with an error exactly when there is no host, the version is not a number of 32
  -- bits, the product has no known name, the socket cannot be opened, the deadline cannot be set, or
  -- a read before the timeout fails; the first of these that is so gives the error.
  pub refused-Fails : (e : ProbeError) → (probe_exec c x s a).result ≡ refused e ↔ Fails c s a e
  refused-Fails e = (
    λ r. elim settled [
      | inl (e', f) ↦
          let same : refused e' ≡ refused e = sym (Fails-refused e' f) ∙ r in
          subst (Fails c s a) (cc same) f
      | inr not_refused ↦ absurd (not_refused e r)
    ],
    Fails-refused e,
  )
