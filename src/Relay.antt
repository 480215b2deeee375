-- ===== src/Relay.antt =====
-- proxy/tcp.go, `relay`: bytes are copied in both directions between two connections, each by a
-- goroutine of its own. A value of `Turn` is one round of the loop of `io.Copy` in one of them; a
-- list of turns is an interleaving.
pub mod Delivery
pub mod Returns
use wc3ts.Prelude.{
  ℕ, Bool, true, false, ◌&&◌, List, [], ◌∷◌, ◌++◌, Option, none, some, Bytes, take, if◌then◌else◌,
}

-- What a read returns: bytes, the end of the stream, or an error.
pub data Chunk : Type 0 where
  arrived : Bytes → Chunk
  eof broken : Chunk

-- One direction: what is still to be read, what was written, and whether the loop has ended and
-- the write side of the other connection is closed.
pub record Half : Type 0 where
  pub input : List Chunk
  pub output : Bytes
  pub closed : Bool

-- One round of the loop with what the write did: `none` if it wrote everything, else the number of
-- bytes that it wrote before it failed. With nothing to read the loop waits.
pub copy_read : Option ℕ → List Chunk → Half → Half
copy_read written [] h = h
copy_read none (arrived s ∷ rest) h = record h { input = rest; output = h.output ++ s }
copy_read (some n) (arrived s ∷ rest) h = record {
  input = rest;
  output = h.output ++ take n s;
  closed = true;
}
copy_read written (eof ∷ rest) h = record h { input = rest; closed = true }
copy_read written (broken ∷ rest) h = record h { input = rest; closed = true }

pub copy_step : Option ℕ → Half → Half
unfolding copy_read
copy_step written h = if h.closed then h else copy_read written h.input h

pub copy_run : List (Option ℕ) → Half → Half
unfolding copy_step
copy_run [] h = h
copy_run (o ∷ os) h = copy_run os (copy_step o h)

-- `to_remote` copies from the client to the host, `to_client` from the host to the client.
pub record Relay : Type 0 where
  pub to_remote : Half
  pub to_client : Half

pub data Turn : Type 0 where
  remote_turn client_turn : Option ℕ → Turn

pub relay_step : Turn → Relay → Relay
unfolding copy_step
relay_step (remote_turn o) r = record r { to_remote = copy_step o r.to_remote }
relay_step (client_turn o) r = record r { to_client = copy_step o r.to_client }

pub relay_run : List Turn → Relay → Relay
unfolding relay_step
relay_run [] r = r
relay_run (t ∷ ts) r = relay_run ts (relay_step t r)

abbrev pub start_half : List Chunk → Half
start_half input = record { input = input; output = []; closed = false }

abbrev pub start_relay : List Chunk → List Chunk → Relay
start_relay client remote = record { to_remote = start_half client; to_client = start_half remote }

-- `relay` on the two streams that are still to be read, under an interleaving
unfoldable pub relay : List Turn → List Chunk → List Chunk → Relay
unfolding relay_run
relay turns client remote = relay_run turns (start_relay client remote)

-- `wg.Wait` returns
pub relay_done : Relay → Bool
relay_done r = r.to_remote.closed && r.to_client.closed
