-- ===== src/Net.antt =====
-- The addresses of `std::net` that the program passes on and compares.
use mpconn.Base.{ℕ, List, ℕ_discrete}

-- An address as the number that its bytes spell, most significant byte first.
abbrev pub Ipv4Addr : Type 0
Ipv4Addr = ℕ

pub data IpAddr : Type 0 where
  v4 : Ipv4Addr → IpAddr
  v6 : ℕ → IpAddr

pub record SocketAddr : Type 0 where
  pub ip : IpAddr
  pub port : ℕ

-- `[u8; 6]`
abbrev pub MacAddr : Type 0
MacAddr = List ℕ

unfoldable pub IpAddr-discrete : Discrete IpAddr
unfolding ℕ_discrete
IpAddr-discrete = hlevel ℕ_discrete

unfoldable pub SocketAddr-discrete : Discrete SocketAddr
unfolding IpAddr-discrete ℕ_discrete
SocketAddr-discrete = hlevel (IpAddr-discrete, ℕ_discrete)

unfoldable pub MacAddr-discrete : Discrete MacAddr
unfolding ℕ_discrete
MacAddr-discrete = hlevel ℕ_discrete
