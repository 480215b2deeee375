-- ===== src/App/Setup.antt =====
-- cmd/wc3ts/run.go: how the services are set up, and the errors of it.
use Prim.Native.Nat.{min}
use wc3ts.Prelude.{
  ℕ, ◌≡◌, ◌≢◌, refl, subst, Bool, true, false, List, [], ◌∷◌, Option, none, some, Option-cases, inl,
  inr, if◌then◌else◌,
}
use wc3ts.Prelude.Int.{pos}
use wc3ts.Net.{Addr, UdpAddr, as_slice, is_valid, v4, v6, invalid}
use wc3ts.Config.{Config}
use wc3ts.Game.Registry.{new_registry}
use wc3ts.Lan.{new_broadcaster, open_broadcaster}
use wc3ts.Tailscale.{first_ipv4, fetch_self_ip, new_discovery}
use wc3ts.Peer.{new_manager, new_responder, set_version}
use wc3ts.Proxy.{ListenAddr, tcp_addr, other_addr, new_tcp_proxy}
use wc3ts.App.{
  App, System, Started, proxy_error, manager_error, broadcaster_error, services, safe_uint16,
  responder_on, services_on, init_with, init_services,
}
use wc3ts.App.Consistent.{started, safe_uint16-pos}

-- The address that the responder of a system has.
pub responder_of : Bool → Option Addr → Option UdpAddr
responder_of socket none = none
responder_of socket (some ip) =
    if socket then some (record { ip = as_slice ip; port = 6112 }) else none

-- The first IPv4 address that the daemon reports.
abbrev pub reported : Option (List Addr) → Option Addr
reported none = none
reported (some addrs) = first_ipv4 addrs

-- A program whose services are set up, and have not run yet.
pub record Ready (cfg : Config) (sys : System) (port : ℕ) (a : App) : Type 0 where
  pub no_games : a.registry.games ≡ []
  pub of_port : a.proxy_port ≡ port
  pub announced_port : a.broadcaster.proxy_port ≡ min port 65535
  pub probes_with : a.peer_manager.version ≡ cfg.game_version
  pub listens : a.responder ≡ responder_of sys.responder_socket (reported sys.status)

first_ipv4-valid : (addrs : List Addr) (ip : Addr) → first_ipv4 addrs ≡ some ip → is_valid ip ≡ true
unfolding first_ipv4
first_ipv4-valid [] ip e = cc
first_ipv4-valid (invalid ∷ rest) ip e = first_ipv4-valid rest ip e
first_ipv4-valid (v4 a b c d ∷ rest) ip e =
    let same : v4 a b c d ≡ ip = cc e in subst (λ x. is_valid x ≡ true) same refl
first_ipv4-valid (v6 s ∷ rest) ip e = first_ipv4-valid rest ip e

responder-listens :
    (socket : Bool) (status : Option (List Addr))
    → responder_on socket (fetch_self_ip status (new_discovery true)).1
      ≡ responder_of socket (reported status)
unfolding responder_on fetch_self_ip responder_of new_responder
responder-listens socket none = refl
responder-listens socket (some addrs) = elim (Option-cases (first_ipv4 addrs)) [
  | inl e ↦ rw (e, fetch_self_ip) refl
  | inr (ip, e) ↦ rw (e, fetch_self_ip) (rw (first_ipv4-valid addrs ip e) refl)
]

started-Ready : (cfg : Config) (sys : System) (port : ℕ) → Ready cfg sys port (started cfg sys port)
unfolding services_on new_registry set_version new_broadcaster
started-Ready cfg sys port = record {
  no_games = refl;
  of_port = refl;
  announced_port = safe_uint16-pos port;
  probes_with = refl;
  listens = responder-listens sys.responder_socket sys.status;
}

-- What the set-up of the services comes to.
pub data SetUp (cfg : Config) (sys : System) : Started → Type 0 where
  no_proxy : ((port : ℕ) → sys.listener ≢ some (tcp_addr port)) → SetUp cfg sys proxy_error
  no_manager :
      (port : ℕ)
      → sys.listener ≡ some (tcp_addr port)
      → sys.manager_socket ≡ false
      → SetUp cfg sys manager_error
  no_broadcaster :
      (port : ℕ)
      → sys.listener ≡ some (tcp_addr port)
      → sys.manager_socket ≡ true
      → sys.broadcaster_socket ≡ false
      → SetUp cfg sys broadcaster_error
  ready :
      (port : ℕ) (a : App)
      → sys.listener ≡ some (tcp_addr port)
      → sys.manager_socket ≡ true
      → sys.broadcaster_socket ≡ true
      → Ready cfg sys port a
      → SetUp cfg sys (services a)

module _ (cfg : Config) (sys : System) where
  sockets-SetUp :
      (port : ℕ) (m b : Bool)
      → sys.listener ≡ some (tcp_addr port)
      → sys.manager_socket ≡ m
      → sys.broadcaster_socket ≡ b
      → SetUp cfg sys (elim (new_manager m) [
        | none ↦ manager_error
        | some manager ↦ elim (open_broadcaster b (safe_uint16 (pos port))) [
          | none ↦ broadcaster_error
          | some broadcaster ↦ services (services_on cfg sys port manager broadcaster)
        ]
      ])
  unfolding new_manager open_broadcaster
  sockets-SetUp port false b e em eb = no_manager port e em
  sockets-SetUp port true false e em eb = no_broadcaster port e em eb
  sockets-SetUp port true true e em eb = ready port _ e em eb (started-Ready cfg sys port)

  listened-SetUp :
      (o : Option ListenAddr)
      → sys.listener ≡ o
      → SetUp cfg sys (init_with cfg sys (new_tcp_proxy o).0)
  unfolding init_with new_tcp_proxy new_manager open_broadcaster
  listened-SetUp none e = no_proxy (λ port e'. cc (e, e'))
  listened-SetUp (some other_addr) e = no_proxy (λ port e'. cc (e, e'))
  listened-SetUp (some (tcp_addr port)) e = sockets-SetUp port _ _ e refl refl

  -- The set-up fails exactly if there is no TCP port to listen on, the socket of the peer manager
  -- cannot be opened, or that of the broadcaster, and the first of these gives the error. Otherwise
  -- the registry is empty, the proxy's port is the one that is announced, or 65535 if that is
  -- smaller, the manager probes with the configured version, and there is a responder on the first
  -- IPv4 address that the daemon reports, at port 6112, if it reports one and the socket opens; that
  -- there is none is no error.
  pub init_services-SetUp : SetUp cfg sys (init_services cfg sys)
  unfolding init_services
  init_services-SetUp = listened-SetUp sys.listener refl
