-- ===== src/Tcp/Options.antt =====
-- SPSock.cpp: the address that `Listen` binds to, and the options of an accepted connection.
use spsock.Prelude.{
  ℕ, ◌≡◌, List, [], ◌∷◌, ◌++◌, Option, none, some, Bool, true, false, arith, ℤ, if◌then◌else◌,
}
use spsock.Tcp.{Server, Linger, enable_linger, enable_keep_alive}

-- `sockaddr_in` and `sockaddr_in6`, with addresses of the type `Addr`.
pub record SockAddr (Addr : Type 0) : Type 0 where
  pub family : ℕ
  pub port : ℕ
  pub addr : Addr

-- Of a family, with what `htons` and `inet_pton` answer and the address that stands for any.
module _ {Text Addr : Type 0} (family : ℕ) (htons : ℕ → ℕ) (inet_pton : Text → Option Addr)
    (any : Addr) where
  -- `SOCKADDR_IN::INIT`: whether the text was an address, and what stands in `address`.
  unfoldable pub init_address : SockAddr Addr → Option Text → ℕ → Bool × SockAddr Addr
  init_address address none port = (true, record { family = family; port = htons port; addr = any })
  init_address address (some ip) port = elim (inet_pton ip) [
    | none ↦ (false, record address { family = family; port = htons port })
    | some a ↦ (true, record { family = family; port = htons port; addr = a })
  ]

-- The options that `setsockopt` is asked for on a connection. A refusal is only logged.
pub data SockOption : Type 0 where
  so_linger : Linger → SockOption
  so_keepalive : Bool → SockOption
  tcp_keepidle tcp_keepcnt tcp_keepintvl : ℤ → SockOption

unfoldable pub set_linger : Server → List SockOption
set_linger s = so_linger s.lin ∷ []

unfoldable pub set_keep_alive : Server → List SockOption
set_keep_alive s =
    so_keepalive s.alive.keep_alive
    ∷ tcp_keepidle s.alive.alive_seconds
    ∷ tcp_keepcnt s.alive.detect_times
    ∷ tcp_keepintvl s.alive.detect_interval
    ∷ []

-- Those that `HandleConnect` asks for.
unfoldable pub connection_options : Server → List SockOption
unfolding set_linger set_keep_alive
connection_options s =
    (if s.alive.keep_alive then set_keep_alive s else [])
    ++ (if s.lin.l_onoff then set_linger s else [])

-- The options of the connections that come after a call of `EnableKeepAlive` and one of `EnableLinger`
-- that were not refused are those of the two calls, whatever was set before.
pub connection_options_lem :
    (alive linger : Bool) (idle times interval wait_seconds : ℤ) (s : Server)
    → (enable_keep_alive alive idle times interval s).0 ≡ true
    → (enable_linger linger wait_seconds s).0 ≡ true
    → let (ok, s1) = enable_keep_alive alive idle times interval s in
      let (ok', s2) = enable_linger linger wait_seconds s1 in
      connection_options s2
      ≡ (if alive
          then so_keepalive true
            ∷ tcp_keepidle idle
            ∷ tcp_keepcnt times
            ∷ tcp_keepintvl interval
            ∷ []
          else [])
        ++ (if linger
            then so_linger (record { l_onoff = true; l_linger = wait_seconds }) ∷ []
            else [])
unfolding connection_options set_keep_alive set_linger enable_keep_alive enable_linger
connection_options_lem alive linger idle times interval wait_seconds s ok ok' = ground arith
