-- ===== src/Proxy/Arrival.antt =====
-- proxy/tcp.go: `handleConnection` when nothing fails.
use wc3ts.Prelude.{
  ◌≡◌, ◌≤◌, refl, sym, subst, ap, ◌∙◌, true, List, [], ◌∷◌, ◌++◌, some, Bytes, take, length, drop,
  arith, append_assoc,
}
use wc3ts.W3gs.{Join, join, Decoder}
use wc3ts.Game.{Game}
use wc3ts.Game.Registry.{Registry, GameWalk, lookup}
use wc3ts.Game.Registry.View.{IsValid}
use wc3ts.Game.Registry.Find.{Answers, find_unique}
use wc3ts.Relay.{Chunk, arrived, Relay, relay, relay_done}
use wc3ts.Relay.Delivery.{
  stream, Ends, AllWritten, remote_turns, client_turns, relay_delivers, take-drop,
}
use wc3ts.Proxy.{
  Connection, joined, dial, write_remote, relayed, close_remote, close_client, read_first,
  parse_join, read_join_packet, after_first, remote_addr, route, handle_connection,
}
use wc3ts.Proxy.Handler.{served, to_game-served}

-- A connection whose first read gets a Join packet in time.
pub record Joins (decode : Decoder) (c : Connection) (s : Bytes) (rest : List Chunk) (j : Join)
    : Type 0 where
  pub deadline_set : c.set_deadline ≡ true
  pub timely : c.in_time ≡ true
  pub deadline_cleared : c.clear_deadline ≡ true
  pub sends : c.client ≡ arrived s ∷ rest
  pub decodes : decode (take 512 s) ≡ some (join j)

-- A connection on which nothing fails: the host is reached, both streams have an end, every write
-- succeeds, and each direction of the relay has a turn for each read.
pub record Works (c : Connection) : Type 0 where
  pub dialled : c.dials ≡ true
  pub forwarded : c.writes ≡ true
  pub client_ends : Ends c.client
  pub remote_ends : Ends c.remote
  pub remote_writes : AllWritten (remote_turns c.turns)
  pub client_writes : AllWritten (client_turns c.turns)
  pub remote_enough : length c.client ≤ length (remote_turns c.turns)
  pub client_enough : length c.remote ≤ length (client_turns c.turns)

-- In a valid registry, a player is served with the only remote game that has the host counter of the
-- player's Join packet.
pub only_is_served :
    (decode : Decoder) (w : GameWalk) (r : Registry) (c : Connection) (j : Join) (raw k : Bytes)
    (g : Game)
    → IsValid r
    → read_join_packet decode c ≡ joined j raw
    → lookup k r.games ≡ some g
    → Answers j.host_counter g
    → ((i : Bytes) (x : Game) → lookup i r.games ≡ some x → Answers j.host_counter x → i ≡ k)
    → handle_connection decode w r c ≡ served c raw g
unfolding handle_connection route
only_is_served decode w r c j raw k g v reads bound a only =
    rw (reads, find_unique w j.host_counter r v k g bound a only)
      (to_game-served decode w r c raw g)

module _ (decode : Decoder) (w : GameWalk) (r : Registry) (c : Connection) (s : Bytes)
    (rest : List Chunk) (j : Join) (first : Joins decode c s rest j) where
  read_join_packet-Joins : read_join_packet decode c ≡ joined j (take 512 s)
  unfolding read_join_packet read_first parse_join
  read_join_packet-Joins =
      rw (first.deadline_set, first.timely, first.deadline_cleared, first.sends, first.decodes) refl

  -- The bytes that the relay still has to read follow those of the first read.
  after_first-stream : take 512 s ++ stream (after_first c.client) ≡ stream c.client
  unfolding after_first stream
  after_first-stream = rw first.sends (
      sym (append_assoc (take 512 s) (drop 512 s) (stream rest))
      ∙ ap (λ t. t ++ stream rest) (take-drop 512 s))

  after_first-Ends : Ends c.client → Ends (after_first c.client)
  unfolding after_first Ends
  after_first-Ends e = rw first.sends (subst Ends first.sends e)

  length-after_first : length (after_first c.client) ≡ length c.client
  unfolding after_first
  length-after_first = rw first.sends refl

  served-Works :
      (g : Game)
      → Works c
      → (end : Relay) × (served c (take 512 s) g
          ≡ dial (remote_addr g) true
            ∷ write_remote (take 512 s)
            ∷ relayed end
            ∷ close_remote
            ∷ close_client
            ∷ [])
        × (take 512 s ++ end.to_remote.output ≡ stream c.client)
        × (end.to_client.output ≡ stream c.remote)
        × (relay_done end ≡ true)
  unfolding served
  served-Works g k =
      let (done, out, back) =
        relay_delivers c.turns (after_first c.client) c.remote (after_first-Ends k.client_ends)
          k.remote_ends k.remote_writes k.client_writes
          (omega (arith, length-after_first, k.remote_enough)) k.client_enough in
      (
        relay c.turns (after_first c.client) c.remote,
        rw (k.dialled, k.forwarded) refl,
        ap (λ t. take 512 s ++ t) out ∙ after_first-stream,
        back,
        done,
      )

  -- In a valid registry, if the game under `k` is the only remote game with the host counter of the
  -- Join packet that the client sends first, and nothing fails, then the host of that game is
  -- dialled, the client and the host receive all that the other sent, from the first byte to the
  -- last, and then both connections are closed.
  pub join_arrives :
      (k : Bytes) (g : Game)
      → IsValid r
      → lookup k r.games ≡ some g
      → Answers j.host_counter g
      → ((i : Bytes) (x : Game) → lookup i r.games ≡ some x → Answers j.host_counter x → i ≡ k)
      → Works c
      → (end : Relay) × (handle_connection decode w r c
          ≡ dial (remote_addr g) true
            ∷ write_remote (take 512 s)
            ∷ relayed end
            ∷ close_remote
            ∷ close_client
            ∷ [])
        × (take 512 s ++ end.to_remote.output ≡ stream c.client)
        × (end.to_client.output ≡ stream c.remote)
        × (relay_done end ≡ true)
  join_arrives k g v bound a only works =
      let (end, trace, sent, back, done) = served-Works g works in
      (
        end,
        only_is_served decode w r c j (take 512 s) k g v read_join_packet-Joins bound a only
            ∙ trace,
        sent,
        back,
        done,
      )
