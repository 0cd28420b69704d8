-- ===== src/Bincode.antt =====
-- The crate `bincode`, as src/connection_manager.rs uses it on `Messages`. The crate is not part of
-- the repository: its two functions are a parameter of the model, and `IsBincode` is what its
-- documentation promises.
use mpconn.Base.{ℕ, ◌<◌, ◌^◌, ◌≡◌, Option, none, some, All, Outcome, done, panic, not_serializable}
use mpconn.Messages.{Bytes, Messages, packet, keepalive}

pub record Bincode : Type 0 where
  -- `serialize`, where `none` is an error
  pub serialize : Messages → Option Bytes
  -- `deserialize::<Messages>`, where `none` is an error
  pub deserialize : Bytes → Option Messages

abbrev pub IsBytes : Bytes → Type 0
IsBytes = All (λ b. b < 256)

abbrev pub IsTunIp : Option ℕ → Type 0
IsTunIp none = Unit
IsTunIp (some ip) = ip < 2 ^ 32

-- A value of the Rust type: each number fits its width.
abbrev pub IsMessage : Messages → Type 0
IsMessage (packet p) = (p.seq < 2 ^ 64) × (p.peer_id < 2 ^ 16) × IsBytes p.bytes
IsMessage (keepalive k) = (k.peer_id < 2 ^ 16) × IsTunIp k.tun_ip

-- Every message can be serialized, what is deserialized has the Rust type, and a serialized message
-- reads back.
pub record IsBincode (codec : Bincode) : Type 0 where
  pub total : (m : Messages) → IsMessage m → (b : Bytes) × (codec.serialize m ≡ some b)
  pub typed : (b : Bytes) (m : Messages) → codec.deserialize b ≡ some m → IsMessage m
  pub round_trip :
      (m : Messages) (b : Bytes)
      → IsMessage m
      → codec.serialize m ≡ some b
      → codec.deserialize b ≡ some m

-- `serialize(…).unwrap()`
unfoldable pub serialize_unwrap : Bincode → Messages → Outcome Bytes
serialize_unwrap codec m = elim (codec.serialize m) [
  | some bytes ↦ done bytes
  | none ↦ panic not_serializable
]

pub serialize_unwrap_total :
    (codec : Bincode) (m : Messages)
    → IsBincode codec
    → IsMessage m
    → (b : Bytes) × (serialize_unwrap codec m ≡ done b) × (codec.deserialize b ≡ some m)
unfolding serialize_unwrap
serialize_unwrap_total codec m law h =
    let (b, e) = law.total m h in (b, rw (e, serialize_unwrap), law.round_trip m b h e)
