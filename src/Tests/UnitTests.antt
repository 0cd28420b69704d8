-- ===== src/Tests/UnitTests.antt =====
-- The unit tests of src/sequencer.rs, as the program runs them: a test returns, or panics where an
-- assertion fails.
use mpconn.Base.{
  ℕ, ◌≡◌, refl, none, some, List, [], ◌∷◌, ◌==◌, check, Outcome, done, panic, ◌>>=◌, io_failure,
}
use mpconn.Base.BTreeMap
use mpconn.Messages.{Packet}
use mpconn.PeerList.{from_millis}
use mpconn.Sequencer.{Sequencer, new, insert_packet, get_next_packet, get_queue_length}

abbrev packet_of : ℕ → Packet
packet_of seq = record { seq = seq; peer_id = 0; bytes = [] }

-- `for packet in packets { sequencer.insert_packet(packet) }`
insert_all : List Packet → Sequencer → Sequencer
insert_all [] s = s
insert_all (pkt ∷ pkts) s = insert_all pkts (insert_packet pkt s)

-- `for expected_seq in expected { … }`, each round with its reading of the clock
expect_all : ℕ → List ℕ → Sequencer → Outcome Sequencer
expect_all now [] s = done s
expect_all now (expected_seq ∷ expected) s =
    let (s', next) = get_next_packet now s in
    elim next [
      | none ↦ panic io_failure
      | some pkt ↦ check (pkt.seq == expected_seq) >>= λ _. expect_all now expected s'
    ]

unordered_insert : ℕ → Outcome (Unit {0})
unfolding new insert_all expect_all
unordered_insert now = do
  let packets = packet_of 0 ∷ packet_of 3 ∷ packet_of 1 ∷ packet_of 2 ∷ []
  _ ← expect_all now (0 ∷ 1 ∷ 2 ∷ 3 ∷ []) (insert_all packets (new (from_millis 1) now))
  done tt

unordered_insert_duplicates : ℕ → Outcome (Unit {0})
unfolding new insert_all expect_all
unordered_insert_duplicates now = do
  let packets = packet_of 0 ∷ packet_of 3 ∷ packet_of 3 ∷ packet_of 1 ∷ packet_of 2 ∷ []
  s ← expect_all now (0 ∷ 1 ∷ 2 ∷ 3 ∷ []) (insert_all packets (new (from_millis 1) now))
  check (get_queue_length s == 0)

unordered_insert_passes : (now : ℕ) → unordered_insert now ≡ done tt
unfolding unordered_insert insert_packet get_next_packet BTreeMap.or_insert
unordered_insert_passes now = refl

unordered_insert_duplicates_passes : (now : ℕ) → unordered_insert_duplicates now ≡ done tt
unfolding unordered_insert_duplicates insert_packet get_next_packet get_queue_length
    BTreeMap.or_insert
unordered_insert_duplicates_passes now = refl
