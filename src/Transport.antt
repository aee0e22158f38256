-- ===== src/Transport.antt =====
-- raft-kv/transport/proto.h: the frames. The client of peer.cpp, the server of raft_server.cpp and the peers
-- of transport.cpp are below. A handler of boost.asio is a function that is called with what the
-- operation ended in.
pub mod Client
pub mod Peers
pub mod Server
pub mod Delivery
use kvd.Base.{ℕ, ◌+◌, ◌*◌, ◌/◌, ◌%◌, List, [], ◌∷◌, ◌++◌, add32, length}

abbrev pub transport_stream : ℕ
transport_stream = 1

abbrev pub transport_debug : ℕ
transport_debug = 5

-- The TransportMeta of a frame, with the length in the order of the network.
unfoldable pub meta_bytes : ℕ → ℕ → List ℕ
meta_bytes type len =
    type ∷ len / 16777216 % 256 ∷ len / 65536 % 256 ∷ len / 256 % 256 ∷ len % 256 ∷ []

-- The bytes of a uint32_t in the order of the host.
unfoldable pub host_bytes : ℕ → List ℕ
host_bytes n = n % 256 ∷ n / 256 % 256 ∷ n / 65536 % 256 ∷ n / 16777216 % 256 ∷ []

-- The DebugMessage that a peer sends at the count `tick` of such numbers.
unfoldable pub debug_bytes : ℕ → List ℕ
debug_bytes tick = host_bytes tick ++ host_bytes (add32 tick 1)

-- A frame on the wire.
unfoldable pub frame : ℕ → List ℕ → List ℕ
frame type payload = meta_bytes type (length payload) ++ payload
