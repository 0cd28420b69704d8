-- ===== src/Remote/RoundTrip.antt =====
-- Two remotes of src/remote.rs, one at each end.
use mpconn.Base.{◌≡◌, ◌<◌, ◌^◌, refl, some, length, [], ◌∷◌, ◌++◌, List, done}
use mpconn.Messages.{Bytes}
use mpconn.Net.{SocketAddr}
use mpconn.Remote.{
  Lz4, IsLz4, received, sent, AsyncRemote, udp, udp_lz4, write_udp, unparsed, write, read,
  get_interface,
}

-- Both compress, or neither does.
abbrev pub IsSameKind : AsyncRemote → AsyncRemote → Type 0
IsSameKind (udp a) (udp b) = Unit
IsSameKind (udp_lz4 a) (udp_lz4 b) = Unit
IsSameKind (udp a) (udp_lz4 b) = ⊥
IsSameKind (udp_lz4 a) (udp b) = ⊥

abbrev pub output_of : AsyncRemote → List (Bytes × SocketAddr)
output_of (udp r) = r.output
output_of (udp_lz4 r) = r.output

-- The remote after it sent one more datagram.
abbrev pub with_datagram : Bytes → SocketAddr → AsyncRemote → AsyncRemote
with_datagram datagram destination (udp r) =
    udp (record r { output = r.output ++ (datagram, destination) ∷ [] })
with_datagram datagram destination (udp_lz4 r) =
    udp_lz4 (record r { output = r.output ++ (datagram, destination) ∷ [] })

-- A `write` that the socket takes sends one datagram to the destination. A remote of the same kind that
-- receives the datagram reads the bytes that were written, if there are fewer than 2^32 of them, with
-- its own interface and the sender's address.
pub read-write :
    (lz4 : Lz4) (buffer : Bytes) (destination from : SocketAddr) (a b : AsyncRemote)
    → IsLz4 lz4
    → IsSameKind a b
    → length buffer < 2 ^ 32
    → (datagram : Bytes) × (write lz4 sent buffer destination a
        ≡ done (with_datagram datagram destination a))
      × (read lz4 (some (received datagram from)) b
          ≡ done (some (unparsed (get_interface b) buffer from)))
unfolding write read write_udp get_interface
read-write lz4 buffer destination from (udp r) (udp q) law same short = (buffer, refl, refl)
read-write lz4 buffer destination from (udp_lz4 r) (udp_lz4 q) law same short =
    (lz4.compress buffer, refl, rw (law buffer short) refl)
read-write lz4 buffer destination from (udp r) (udp_lz4 q) law same short = absurd same
read-write lz4 buffer destination from (udp_lz4 r) (udp q) law same short = absurd same
