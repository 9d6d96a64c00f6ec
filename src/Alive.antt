-- ===== src/Alive.antt =====
-- aliveService.go and handlerAlive.go: a node asks another to decrypt random bytes, and takes it for
-- alive where the answer is right.
pub mod Answering
use Prim.Native.Nat.{min}
use swift_go.Prelude.{
  ℕ, suc, ◌-◌, ◌*◌, ◌^◌, Bool, true, false, ◌&&◌, Option, none, some, List, [], ◌∷◌, ◌++◌, Result,
  ok, err, Error, runtime_panic, leb, ◌==◌, if◌then◌else◌, Bytes, equal, ℤ, pos, negsuc,
}
use swift_go.Io.{Time, second}
use swift_go.Node.{Node, Gcm, Zlib, encode, decode}
use swift_go.Api.{Writer, Part, failed, sent, octet_stream, return_api_error, send_response}

-- `pollingInterval` in nanoseconds. The service is made only for a setting above 0.
unfoldable pub polling_interval : ℤ → ℕ
polling_interval (pos n) = n * second
polling_interval (negsuc n) = 0

-- `newAliveService`, by the interval of its loop: a setting of 0 is a panic, and the ticker of the loop
-- panics for one below.
unfoldable pub new_alive_service : ℤ → Result ℕ
unfolding polling_interval
new_alive_service (pos (suc n)) = ok (polling_interval (pos (suc n)))
new_alive_service _ = err runtime_panic

-- `time.Now().UTC().Sub(n.accessed) >= a.pollingInterval`, where `Sub` stops at the ends of int64
unfoldable pub is_due : ℕ → Time → Node → Bool
is_due interval now n = leb n.accessed now && leb interval (min (now - n.accessed) (2 ^ 63 - 1))

-- What the calls of a round return: the two readings of the clock, `nonce`, and `randomBytes`.
pub record Round : Type 0 where
  pub now : Time
  pub later : Time
  pub nonce : Result Bytes
  pub random : Result Bytes

-- a slice that is nil after an error, which is only logged
abbrev pub or_nil : Result Bytes → Bytes
or_nil (ok b) = b
or_nil (err e) = []

abbrev pub dead : Node → Node
dead n = record n { alive = false }

-- The nodes are shared by pointer: a heap has the node of every address.
abbrev pub update : (ℕ → Node) → ℕ → Node → ℕ → Node
update heap a n b = if a == b then n else heap b

module _ (g : Gcm) (z : Zlib) where
  -- `post` is `callAlive`: the answer of a host to the POST of some bytes.
  module _ (post : Bytes → Bytes → Result Bytes) (interval : ℕ) where
    abbrev answered : Round → Node → Bytes → Result Bytes → Node
    answered round n v (err e) = dead n
    answered round n v (ok b) =
        if equal v b then record n { alive = true; accessed = round.later } else dead n

    abbrev asked : Round → Node → Result Bytes → Node
    asked round n (err e) = dead n
    asked round n (ok v) = answered round n v (post n.domain (or_nil (encode g z round.random n v)))

    unfoldable pub poll_node : Round → Node → Node
    unfolding is_due
    poll_node round n = if is_due interval round.now n then asked round n round.nonce else n

    -- `rounds` has what the calls return while the node with a number is polled.
    unfoldable pub poll_each : (ℕ → Round) → ℕ → List Node → (ℕ → Node) → ℕ → Node
    unfolding poll_node
    poll_each rounds k [] heap = heap
    poll_each rounds k (n ∷ ns) heap =
        poll_each rounds (suc k) ns (update heap n.address (poll_node (rounds k) (heap n.address)))

    -- An error of `getAllNodes` leaves all nodes as they are.
    unfoldable pub poll_nodes : (ℕ → Round) → Result (List Node) → (ℕ → Node) → ℕ → Node
    unfolding poll_each
    poll_nodes rounds (err e) heap = heap
    poll_nodes rounds (ok ns) heap = poll_each rounds 0 ns heap

    -- `aliveLoop`, for some ticks: what the calls of each return, and the nodes that it gets
    unfoldable pub alive_loop : List ((ℕ → Round) × Result (List Node)) → (ℕ → Node) → ℕ → Node
    unfolding poll_nodes
    alive_loop [] heap = heap
    alive_loop ((rounds, ns) ∷ ticks) heap = alive_loop ticks (poll_nodes rounds ns heap)

  -- The handler goes on after the answer for a missing node, and calls a method of a nil pointer,
  -- which reads a field of it.
  unfoldable pub handle_alive :
      (Bytes → Option Node) → Bytes → Result Bytes → Writer → Result Writer
  unfolding return_api_error send_response
  handle_alive get_node host (err e) w = ok (return_api_error e 500 w)
  handle_alive get_node host (ok b) w = decoded (get_node host)
    where
      sent_or_error : Result Bytes → Writer
      sent_or_error (ok d) = send_response octet_stream d w
      sent_or_error (err e) = return_api_error e 400 w

      decoded : Option Node → Result Writer
      decoded none = err runtime_panic
      decoded (some n) = ok (sent_or_error (decode g z n b))

  -- The body of an answer, as its caller reads it; `text` is the text of an error. After a panic the
  -- server closes the connection.
  abbrev body_of : (Error → Bytes) → List Part → Bytes
  body_of text [] = []
  body_of text (failed e ∷ ps) = text e ++ body_of text ps
  body_of text (sent content b ∷ ps) = b ++ body_of text ps

  abbrev pub read_all : (Error → Bytes) → Result Writer → Result Bytes
  read_all text (ok w) = ok (body_of text w.parts)
  read_all text (err e) = err e
