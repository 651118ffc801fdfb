-- ===== src/Server/Broker/Represents.antt =====
-- server.c: when a server stands for a broker, and what it is for a run to do what the specification says.
use tcp_udp_client_server.Base.{◌≡◌, ℕ, refl, ap, Bool, true, false, if◌then◌else◌}
use tcp_udp_client_server.DList.Shape.{bodies}
use tcp_udp_client_server.Outcome.{Outcome, exited, fault, Cmd, Ends, ends}
use tcp_udp_client_server.Server.{Server, keep_tcp, on_tcp}
use tcp_udp_client_server.Server.Broker.{
  Verdict, undefined, exits, becomes, Desk, Broker, with_desk,
}
use tcp_udp_client_server.Poller.Watched.{watched}
use tcp_udp_client_server.Server.Invariant.{IsSound}
use tcp_udp_client_server.TcpServer.{TcpServer}
use tcp_udp_client_server.TcpServer.Invariant.{IsWellFormed}

-- What the lists hold, without their addresses.
abbrev pub desk_of : (t : TcpServer) → IsWellFormed t → Desk
desk_of t w = record {
  members = bodies w.members;
  held = bodies w.held;
  last = t.recv_msg;
  printed = t.printed;
}

abbrev pub broker_of : (s : Server) → IsSound s → Broker
broker_of s i = record { watched = watched s.poller; desk = desk_of s.tcp_server i.tcp_server }

-- The lists of the server on the descriptor `tcp_fd` are well-formed and hold what the desk says.
pub record IsDesk (tcp_fd : ℕ) (d : Desk) (t : TcpServer) : Type 0 where
  pub well : IsWellFormed t
  pub fd : t.fd ≡ tcp_fd
  pub same : desk_of t well ≡ d

-- The server is sound, has its sockets on the two descriptors, and watches and holds what the broker says.
pub record Represents (udp_fd tcp_fd : ℕ) (b : Broker) (s : Server) : Type 0 where
  pub sound : IsSound s
  pub udp : s.udp_server.fd ≡ udp_fd
  pub tcp : s.tcp_server.fd ≡ tcp_fd
  pub same : broker_of s sound ≡ b

-- A run against what the specification says of it.
module _ {B S : Type 0} (P : B → S → Type 0) where
  abbrev pub Refines : Verdict B → Outcome S (Unit {0}) → Type 0
  Refines undefined r = r ≡ fault
  Refines (exits c) r = (s : S) × (r ≡ exited c s)
  Refines (becomes b) r = Ends (λ _. P b) r

  pub Refines-if :
      (b : Bool) (v u : Verdict B) (r q : Outcome S (Unit {0}))
      → (b ≡ true → Refines v r)
      → (b ≡ false → Refines u q)
      → Refines (if b then v else u) (if b then r else q)
  Refines-if true v u r q h k = h refl
  Refines-if false v u r q h k = k refl

  pub Refines-either :
      (b : Bool) (v u : Verdict B) (r : Outcome S (Unit {0}))
      → (b ≡ true → Refines v r)
      → (b ≡ false → Refines u r)
      → Refines (if b then v else u) r
  Refines-either true v u r h k = h refl
  Refines-either false v u r h k = k refl

  -- Where the specification is undefined in one case only.
  pub Refines-unless :
      (b : Bool) (d : B) (r : Outcome S (Unit {0}))
      → (b ≡ true → r ≡ fault)
      → (b ≡ false → Ends (λ _. P d) r)
      → Refines (if b then undefined else becomes d) r
  Refines-unless true d r h k = h refl
  Refines-unless false d r h k = k refl

  pub Refines-where :
      (b : Bool) (d : B) (r : Outcome S (Unit {0}))
      → (b ≡ true → Ends (λ _. P d) r)
      → (b ≡ false → r ≡ fault)
      → Refines (if b then becomes d else undefined) r
  Refines-where true d r h k = h refl
  Refines-where false d r h k = k refl

-- A run on the TCP server, in the state of the whole.
module _ (s : Server) (i : IsSound s) where
  pub on_tcp-Ends :
      {d : Desk} {r : Outcome TcpServer (Unit {0})}
      → Ends (λ _. IsDesk s.tcp_server.fd d) r
      → Ends
          (λ _.
            Represents s.udp_server.fd s.tcp_server.fd
              (record { watched = watched s.poller; desk = d }))
          (keep_tcp s r)
  on_tcp-Ends (ends d) = ends (record {
    sound = record { poller = i.poller; tcp_server = d.well };
    udp = refl;
    tcp = d.fd;
    same = ap (λ (e : Desk). record { watched = watched s.poller; desk = e }) d.same;
  })

  pub on_tcp-Refines :
      (v : Verdict Desk) (m : Cmd TcpServer (Unit {0}))
      → Refines (IsDesk s.tcp_server.fd) v (m s.tcp_server)
      → Refines
          (Represents s.udp_server.fd s.tcp_server.fd)
          (with_desk (watched s.poller) v)
          (on_tcp m s)
  unfolding on_tcp
  on_tcp-Refines undefined m e = ap (keep_tcp s) e
  on_tcp-Refines (exits c) m (t, e) = (record s { tcp_server = t }, ap (keep_tcp s) e)
  on_tcp-Refines (becomes d) m e = on_tcp-Ends e
