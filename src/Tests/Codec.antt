-- ===== src/Tests/Codec.antt =====
-- A codec that keeps the promises of `Bincode.IsBincode`: a tag and the fields, each in one item.
use mpconn.Base.{
  ℕ, zero, suc, ◌^◌, ◌≡◌, refl, subst, Bool, true, ◌&&◌, Option-cases, inl, inr, Option, none, some,
  [], ◌∷◌, ltb, if◌then◌else◌, arith,
}
use mathlib.Core.Option.{some-injective}
use mpconn.Bincode.{Bincode, IsBincode, IsBytes, IsTunIp, IsMessage}
use mpconn.Messages.{Bytes, Messages, packet, keepalive}

all_bytes : Bytes → Bool
all_bytes [] = true
all_bytes (b ∷ bs) = ltb b 256 && all_bytes bs

all_bytes-IsBytes : (bs : Bytes) → all_bytes bs ≡ true → IsBytes bs
unfolding all_bytes
all_bytes-IsBytes [] h = tt
all_bytes-IsBytes (b ∷ bs) h = ground (arith, all_bytes-IsBytes bs)

IsBytes-all_bytes : (bs : Bytes) → IsBytes bs → all_bytes bs ≡ true
unfolding all_bytes
IsBytes-all_bytes [] h = refl
IsBytes-all_bytes (b ∷ bs) h = ground (arith, IsBytes-all_bytes bs h.1)

is_tun_ip : Option ℕ → Bool
is_tun_ip none = true
is_tun_ip (some ip) = ltb ip (2 ^ 32)

is_tun_ip-IsTunIp : (o : Option ℕ) → is_tun_ip o ≡ true → IsTunIp o
unfolding is_tun_ip
is_tun_ip-IsTunIp none h = tt
is_tun_ip-IsTunIp (some ip) h = ground arith

IsTunIp-is_tun_ip : (o : Option ℕ) → IsTunIp o → is_tun_ip o ≡ true
unfolding is_tun_ip
IsTunIp-is_tun_ip none h = refl
IsTunIp-is_tun_ip (some ip) h = ground arith

is_message : Messages → Bool
unfolding all_bytes is_tun_ip
is_message (packet p) = ltb p.seq (2 ^ 64) && ltb p.peer_id (2 ^ 16) && all_bytes p.bytes
is_message (keepalive k) = ltb k.peer_id (2 ^ 16) && is_tun_ip k.tun_ip

is_message-IsMessage : (m : Messages) → is_message m ≡ true → IsMessage m
unfolding is_message
is_message-IsMessage (packet p) h = ground (arith, all_bytes-IsBytes p.bytes)
is_message-IsMessage (keepalive k) h = ground (arith, is_tun_ip-IsTunIp k.tun_ip)

IsMessage-is_message : (m : Messages) → IsMessage m → is_message m ≡ true
unfolding is_message
IsMessage-is_message (packet p) h = ground (arith, IsBytes-all_bytes p.bytes)
IsMessage-is_message (keepalive k) h = ground (arith, IsTunIp-is_tun_ip k.tun_ip)

checked : Messages → Option Messages
unfolding is_message
checked m = if is_message m then some m else none

plain_serialize : Messages → Option Bytes
plain_serialize (packet p) = some (0 ∷ p.seq ∷ p.peer_id ∷ p.bytes)
plain_serialize (keepalive k) = elim k.tun_ip [
  | none ↦ some (1 ∷ k.peer_id ∷ [])
  | some ip ↦ some (1 ∷ k.peer_id ∷ ip ∷ [])
]

parse : Bytes → Option Messages
parse (zero ∷ seq ∷ peer_id ∷ bytes) =
    some (packet (record { seq = seq; peer_id = peer_id; bytes = bytes }))
parse (suc zero ∷ peer_id ∷ []) = some (keepalive (record { peer_id = peer_id; tun_ip = none }))
parse (suc zero ∷ peer_id ∷ ip ∷ []) =
    some (keepalive (record { peer_id = peer_id; tun_ip = some ip }))
parse _ = none

plain_deserialize : Bytes → Option Messages
unfolding parse checked
plain_deserialize bs = elim (parse bs) [ none ↦ none | some m ↦ checked m ]

plain_total : (m : Messages) → IsMessage m → (b : Bytes) × (plain_serialize m ≡ some b)
unfolding plain_serialize
plain_total (packet p) h = (0 ∷ p.seq ∷ p.peer_id ∷ p.bytes, refl)
plain_total (keepalive k) h = elim (Option-cases k.tun_ip) [
  | inl e ↦ (1 ∷ k.peer_id ∷ [], ground (arith, e))
  | inr (ip, e) ↦ (1 ∷ k.peer_id ∷ ip ∷ [], ground (arith, e))
]

checked_typed : (m n : Messages) → checked m ≡ some n → is_message n ≡ true
unfolding checked
checked_typed m n h = ground arith

plain_typed : (b : Bytes) (m : Messages) → plain_deserialize b ≡ some m → IsMessage m
unfolding plain_deserialize
plain_typed b m h = is_message-IsMessage m (elim (Option-cases (parse b)) [
  | inl e ↦ absurd (ground (arith, e, h))
  | inr (n, e) ↦ checked_typed n m (ground (arith, e, h))
])

parse_keepalive :
    (peer_id : ℕ) (tun_ip : Option ℕ) (b : Bytes)
    → plain_serialize (keepalive (record { peer_id = peer_id; tun_ip = tun_ip })) ≡ some b
    → parse b ≡ some (keepalive (record { peer_id = peer_id; tun_ip = tun_ip }))
unfolding plain_serialize parse
parse_keepalive peer_id none b h =
    subst (λ x. parse x ≡ some (keepalive (record { peer_id = peer_id; tun_ip = none })))
      (some-injective _ _ h) refl
parse_keepalive peer_id (some ip) b h =
    subst (λ x. parse x ≡ some (keepalive (record { peer_id = peer_id; tun_ip = some ip })))
      (some-injective _ _ h) refl

parse-plain_serialize : (m : Messages) (b : Bytes) → plain_serialize m ≡ some b → parse b ≡ some m
unfolding plain_serialize parse
parse-plain_serialize (packet p) b h =
    subst (λ x. parse x ≡ some (packet p)) (some-injective _ _ h) refl
parse-plain_serialize (keepalive k) b h = parse_keepalive k.peer_id k.tun_ip b h

plain_round_trip :
    (m : Messages) (b : Bytes)
    → IsMessage m
    → plain_serialize m ≡ some b
    → plain_deserialize b ≡ some m
unfolding plain_deserialize checked
plain_round_trip m b range h =
    ground (arith, parse-plain_serialize m b h, IsMessage-is_message m range)

unfoldable pub plain : Bincode
unfolding plain_serialize plain_deserialize
plain = record { serialize = plain_serialize; deserialize = plain_deserialize }

pub plain-IsBincode : IsBincode plain
unfolding plain plain_serialize plain_deserialize
plain-IsBincode = record { total = plain_total; typed = plain_typed; round_trip = plain_round_trip }
