-- ===== src/Proxy/Segments.antt =====
-- proxy/tcp.go: `readJoinPacket` takes one read for one packet, however the packet arrives.
use wc3ts.Prelude.{
  ℕ, zero, suc, ◌-◌, ◌≤◌, ◌<◌, ◌≡◌, ◌⊎◌, inl, inr, refl, sym, ap, ◌∙◌, true, List, [], ◌∷◌, ◌++◌,
  none, some, Bytes, take, length, arith, Bool-cases, leb,
}
use wc3ts.W3gs.{Join, join, Decoder}
use wc3ts.Game.{Game}
use wc3ts.Game.Registry.{Registry, GameWalk, lookup}
use wc3ts.Game.Registry.View.{IsValid}
use wc3ts.Game.Registry.Find.{Answers}
use wc3ts.Relay.{Chunk, arrived}
use wc3ts.Relay.Delivery.{stream}
use wc3ts.Proxy.{
  Connection, joined, failed, deserialize_error, close_client, read_first, parse_join,
  read_join_packet, route, handle_connection,
}
use wc3ts.Proxy.Handler.{served}
use wc3ts.Proxy.Arrival.{only_is_served}

-- What `w3gs.Deserialize` does with one packet: what follows the packet is left alone, and a part of
-- the packet is an error.
pub record Framed (decode : Decoder) (packet : Bytes) (j : Join) : Type 0 where
  pub whole : (t : Bytes) → decode (packet ++ t) ≡ some (join j)
  pub partial : (n : ℕ) → n < length packet → decode (take n packet) ≡ none

-- A connection that has something to read in time, and whose deadlines can be set.
pub record Reads (c : Connection) (s : Bytes) (rest : List Chunk) : Type 0 where
  pub deadline_set : c.set_deadline ≡ true
  pub timely : c.in_time ≡ true
  pub deadline_cleared : c.clear_deadline ≡ true
  pub sends : c.client ≡ arrived s ∷ rest

take-of_more : (n : ℕ) (s t : Bytes) → take n s ≡ take (length (take n s)) (s ++ t)
take-of_more zero s t = refl
take-of_more (suc n) [] t = refl
take-of_more (suc n) (x ∷ s) t = ap (◌∷◌ x) (take-of_more n s t)

take-long : (n : ℕ) (s t : Bytes) → length s ≤ n → take n (s ++ t) ≡ s ++ take (n - length s) t
take-long n [] t h = ap (λ k. take k t) (omega arith)
take-long zero (x ∷ s) t h = absurd (omega arith)
take-long (suc n) (x ∷ s) t h =
    ap (◌∷◌ x) (take-long n s t (omega arith) ∙ ap (λ k. s ++ take k t) (omega arith))

take-short : (n : ℕ) (s t : Bytes) → n ≤ length s → take n (s ++ t) ≡ take n s
take-short zero s t h = refl
take-short (suc n) [] t h = absurd (omega arith)
take-short (suc n) (x ∷ s) t h = ap (◌∷◌ x) (take-short n s t (omega arith))

module _ (decode : Decoder) (w : GameWalk) (r : Registry) (c : Connection) (s : Bytes)
    (rest : List Chunk) (packet more : Bytes) (j : Join) (reads : Reads c s rest)
    (framed : Framed decode packet j) (sent : stream c.client ≡ packet ++ more) where
  raw-front : take 512 s ≡ take (length (take 512 s)) (packet ++ more)
  unfolding stream
  raw-front =
      take-of_more 512 s (stream rest)
      ∙ ap (take (length (take 512 s))) (sym (ap stream reads.sends) ∙ sent)

  decodes-whole : length packet ≤ length (take 512 s) → decode (take 512 s) ≡ some (join j)
  decodes-whole h =
      ap decode (raw-front ∙ take-long (length (take 512 s)) packet more h) ∙ framed.whole _

  decodes-partial : length (take 512 s) < length packet → decode (take 512 s) ≡ none
  decodes-partial h =
      ap decode (raw-front ∙ take-short (length (take 512 s)) packet more (omega arith))
      ∙ framed.partial _ h

  reads-whole :
      length packet ≤ length (take 512 s) → read_join_packet decode c ≡ joined j (take 512 s)
  unfolding read_join_packet read_first parse_join
  reads-whole h =
      rw (reads.deadline_set, reads.timely, reads.deadline_cleared, reads.sends, decodes-whole h)
        refl

  reads-partial :
      length (take 512 s) < length packet → read_join_packet decode c ≡ failed deserialize_error
  unfolding read_join_packet read_first parse_join
  reads-partial h =
      rw (reads.deadline_set, reads.timely, reads.deadline_cleared, reads.sends, decodes-partial h)
        refl

  -- In a valid registry, if the game under `k` is the only remote game with the host counter of a Join
  -- packet, the deadlines can be set, and something arrives in time: a client that sends this packet
  -- first is served with the game if the first read gets the whole packet; and if it does not,
  -- since the packet has arrived in part or is longer than 512 bytes, the client is turned away,
  -- whatever arrives later.
  pub first_read_decides :
      (k : Bytes) (g : Game)
      → IsValid r
      → lookup k r.games ≡ some g
      → Answers j.host_counter g
      → ((i : Bytes) (x : Game) → lookup i r.games ≡ some x → Answers j.host_counter x → i ≡ k)
      → ((length packet ≤ length (take 512 s))
          × (handle_connection decode w r c ≡ served c (take 512 s) g))
        ⊎ ((length (take 512 s) < length packet)
            × (read_join_packet decode c ≡ failed deserialize_error)
            × (handle_connection decode w r c ≡ close_client ∷ []))
  unfolding handle_connection route
  first_read_decides k g v bound a only =
      elim (Bool-cases (leb (length packet) (length (take 512 s)))) [
        | inl fits ↦
            let h : length packet ≤ length (take 512 s) = ground arith in
            inl (h, only_is_served decode w r c j (take 512 s) k g v (reads-whole h) bound a only)
        | inr cut ↦
            let h : length (take 512 s) < length packet = ground arith in
            inr (h, reads-partial h, rw (reads-partial h) refl)
      ]
