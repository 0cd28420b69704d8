-- ===== src/PeerList/Counters.antt =====
-- The transmit counters of src/peer_list.rs, and which peers are known.
use mpconn.Base.{
  All, All-mono, [], ◌∷◌, some, ℕ, ◌+◌, ◌%◌, ◌^◌, ◌≡◌, refl, ap, Option-cases, inl, inr, true, ite,
  ℕ_discrete, arith, done, ◌>>=◌,
}
use mpconn.Base.HashMap
use mpconn.Base.HashMap.{HashMap, keys, get-insert, get-update, keys-update}
use mpconn.Net.{SocketAddr}
use mpconn.Sequencer.{Sequencer}
use mpconn.PeerList.{
  get_peer_ids, get_peer_sequencer, set_peer_sequencer, Peer, PeerList, add_peer, see_connection,
  new_peer, insert_connection, get_peer_tx_counter, increment_tx_counter, increment_peer_tx_counter,
}

-- The peer has an entry in the list.
abbrev pub IsKnown : ℕ → PeerList → Type 0
IsKnown peer_id list = HashMap.contains_key ℕ_discrete peer_id list.peers ≡ true

-- `increment_peer_tx_counter` adds one, as a `u64`, to the counter of its peer, and changes no other
-- counter; reading the counter of an unknown peer panics before and after.
pub get_peer_tx_counter-increment :
    (i j : ℕ) (list : PeerList)
    → get_peer_tx_counter j (increment_peer_tx_counter i list) ≡ (
        get_peer_tx_counter j list >>= λ counter.
        done (ite (ℕ_discrete i j) ((counter + 1) % 2 ^ 64) counter))
unfolding get_peer_tx_counter increment_peer_tx_counter increment_tx_counter
get_peer_tx_counter-increment i j list =
    ground (arith, get-update ℕ_discrete i j increment_tx_counter list.peers)

pub get_peer_tx_counter_known :
    (i : ℕ) (list : PeerList)
    → IsKnown i list
    → (counter : ℕ) × (get_peer_tx_counter i list ≡ done counter)
unfolding get_peer_tx_counter HashMap.contains_key
get_peer_tx_counter_known i list h = elim (Option-cases (HashMap.get ℕ_discrete i list.peers)) [
  | inl e ↦ absurd (ground arith)
  | inr (peer, e) ↦ (peer.tx_counter, rw (e, get_peer_tx_counter))
]

pub add_peer-IsKnown_self :
    (i : ℕ) (a : SocketAddr) (now : ℕ) (list : PeerList) → IsKnown i (add_peer i a now list)
unfolding add_peer HashMap.contains_key
add_peer-IsKnown_self i a now list = ground (
  arith,
  get-insert ℕ_discrete i i (insert_connection a now (new_peer now)) list.peers,
  get-update ℕ_discrete i i (see_connection a now) list.peers,
)

pub add_peer-IsKnown :
    (i j : ℕ) (a : SocketAddr) (now : ℕ) (list : PeerList)
    → IsKnown j list
    → IsKnown j (add_peer i a now list)
unfolding add_peer HashMap.contains_key
add_peer-IsKnown i j a now list h = ground (
  arith,
  get-insert ℕ_discrete i j (insert_connection a now (new_peer now)) list.peers,
  get-update ℕ_discrete i j (see_connection a now) list.peers,
)

pub update-IsKnown :
    (i j : ℕ) (f : Peer → Peer) (list : PeerList)
    → IsKnown j list
    → IsKnown j (record list { peers = HashMap.update ℕ_discrete i f list.peers })
unfolding HashMap.contains_key
update-IsKnown i j f list h = ground (arith, get-update ℕ_discrete i j f list.peers)

pub increment_peer_tx_counter-IsKnown :
    (i j : ℕ) (list : PeerList) → IsKnown j list → IsKnown j (increment_peer_tx_counter i list)
unfolding increment_peer_tx_counter
increment_peer_tx_counter-IsKnown i j list h = update-IsKnown i j increment_tx_counter list h

pub set_peer_sequencer-IsKnown :
    (i j : ℕ) (s : Sequencer) (list : PeerList)
    → IsKnown j list
    → IsKnown j (set_peer_sequencer i s list)
unfolding set_peer_sequencer
set_peer_sequencer-IsKnown i j s list h =
    update-IsKnown i j (λ peer. record peer { sequencer = s }) list h

-- A peer whose sequencer is found is known.
pub get_peer_sequencer-IsKnown :
    (i : ℕ) (s : Sequencer) (list : PeerList) → get_peer_sequencer i list ≡ some s → IsKnown i list
unfolding get_peer_sequencer HashMap.contains_key
get_peer_sequencer-IsKnown i s list h = ground (arith, h)

contains_key_skip :
    (j k : ℕ) (peer : Peer) (m : HashMap ℕ Peer)
    → HashMap.contains_key ℕ_discrete j m ≡ true
    → HashMap.contains_key ℕ_discrete j ((k, peer) ∷ m) ≡ true
unfolding HashMap.contains_key HashMap.get
contains_key_skip j k peer m h = ground arith

contains_key_head :
    (k : ℕ) (peer : Peer) (m : HashMap ℕ Peer)
    → HashMap.contains_key ℕ_discrete k ((k, peer) ∷ m) ≡ true
unfolding HashMap.contains_key HashMap.get
contains_key_head k peer m = ground arith

keys-contains_key :
    (m : HashMap ℕ Peer) → All (λ k. HashMap.contains_key ℕ_discrete k m ≡ true) (keys m)
keys-contains_key [] = tt
keys-contains_key ((k, peer) ∷ m) = (
  contains_key_head k peer m,
  All-mono _ _ (keys m) (λ j. contains_key_skip j k peer m) (keys-contains_key m),
)

pub get_peer_ids-IsKnown : (list : PeerList) → All (λ j. IsKnown j list) (get_peer_ids list)
unfolding get_peer_ids
get_peer_ids-IsKnown list = keys-contains_key list.peers

update_same :
    (i : ℕ) (s : Sequencer) (m : HashMap ℕ Peer) (peer : Peer)
    → HashMap.get ℕ_discrete i m ≡ some peer
    → peer.sequencer ≡ s
    → HashMap.update ℕ_discrete i (λ p. record p { sequencer = s }) m ≡ m
unfolding HashMap.get HashMap.update
update_same i s [] peer h e = cc
update_same i s ((j, w) ∷ m) peer h e = ground (arith, update_same i s m peer)

-- To write back what was read changes nothing.
pub set_peer_sequencer_same :
    (i : ℕ) (s : Sequencer) (list : PeerList)
    → get_peer_sequencer i list ≡ some s
    → set_peer_sequencer i s list ≡ list
unfolding get_peer_sequencer set_peer_sequencer
set_peer_sequencer_same i s list h = elim (Option-cases (HashMap.get ℕ_discrete i list.peers)) [
  | inl e ↦ absurd (ground (arith, e, h))
  | inr (peer, e) ↦ ground (arith, update_same i s list.peers peer e (ground (arith, e, h)))
]

pub get_peer_sequencer-set :
    (i : ℕ) (s t : Sequencer) (list : PeerList)
    → get_peer_sequencer i list ≡ some s
    → get_peer_sequencer i (set_peer_sequencer i t list) ≡ some t
unfolding get_peer_sequencer set_peer_sequencer
get_peer_sequencer-set i s t list h =
    ground (arith, get-update ℕ_discrete i i (λ p. record p { sequencer = t }) list.peers)

update_twice :
    (i : ℕ) (s t : Sequencer) (m : HashMap ℕ Peer)
    → HashMap.update ℕ_discrete i
        (λ p. record p { sequencer = t })
        (HashMap.update ℕ_discrete i (λ p. record p { sequencer = s }) m)
      ≡ HashMap.update ℕ_discrete i (λ p. record p { sequencer = t }) m
unfolding HashMap.update
update_twice i s t [] = refl
update_twice i s t ((j, w) ∷ m) = ground (arith, update_twice i s t m)

-- A second write of a peer's sequencer replaces the first.
pub set_peer_sequencer-set :
    (i : ℕ) (s t : Sequencer) (list : PeerList)
    → set_peer_sequencer i t (set_peer_sequencer i s list) ≡ set_peer_sequencer i t list
unfolding set_peer_sequencer
set_peer_sequencer-set i s t list =
    ap (λ peers. record list { peers = peers }) (update_twice i s t list.peers)

see_connection_sequencer :
    (a : SocketAddr) (now : ℕ) (peer : Peer)
    → (see_connection a now peer).sequencer ≡ peer.sequencer
unfolding see_connection insert_connection
see_connection_sequencer a now peer = ground arith

-- A keepalive leaves the sequencers of the known peers as they are.
pub get_peer_sequencer-add_peer :
    (i j : ℕ) (a : SocketAddr) (now : ℕ) (s : Sequencer) (list : PeerList)
    → get_peer_sequencer j list ≡ some s
    → get_peer_sequencer j (add_peer i a now list) ≡ some s
unfolding get_peer_sequencer add_peer
get_peer_sequencer-add_peer i j a now s list h =
    elim (Option-cases (HashMap.get ℕ_discrete j list.peers)) [
      | inl e ↦ absurd (ground (arith, h, e))
      | inr (peer, e) ↦ ground (
        arith,
        h,
        e,
        get-insert ℕ_discrete i j (insert_connection a now (new_peer now)) list.peers,
        get-update ℕ_discrete i j (see_connection a now) list.peers,
        see_connection_sequencer a now peer,
      )
    ]
