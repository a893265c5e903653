-- ===== src/Plugin/Interfaces.antt =====
-- What the constructor of RoboMaster of robomaster_sim/src/robomaster.cpp needs of the network: those
-- of the parts that open sockets, in src/discovery.cpp, src/server.cpp and src/streamer.cpp.
use msde_robotics.Prelude.{
  ℕ, List, [], ◌∷◌, Bool, false, ◌&&◌, ◌||◌, Option, none, some, if◌then◌else◌,
}
use msde_robotics.Prelude.Int.{ℤ}

-- The arguments of the constructor of `RoboMaster`.
pub record Interface : Type 0 where
  pub serial_number : List ℕ
  pub camera_use_udp : Bool
  pub camera_bitrate : ℤ
  pub ip : List ℕ
  pub prefix_len : ℕ

pub data Transport : Type 0 where
  udp tcp : Transport

-- boost::asio: the address that a text stands for as one of version 4, where `make_address` and
-- `to_v4` do not throw; the one without a text; whether an address is a loopback; whether `network_v4`
-- takes the address and the length of a prefix; and whether a socket can be bound to a port of an
-- address, which it cannot where another one has the port.
pub record Sockets : Type 0 where
  pub make_address : List ℕ → Option ℕ
  pub any_address : ℕ
  pub is_loopback : ℕ → Bool
  pub is_network : ℕ → ℕ → Bool
  pub can_bind : Transport → ℕ → ℕ → Bool

module _ (n : Sockets) where
  open n use {make_address, any_address, is_loopback, is_network, can_bind}

  unfoldable pub address_of : List ℕ → Option ℕ
  address_of [] = some any_address
  address_of (c ∷ cs) = make_address (c ∷ cs)

  -- PORT is 39393. The address of the broadcast needs the network, but on a loopback.
  unfoldable pub opens_discovery : ℕ → ℕ → Bool
  opens_discovery address prefix_len =
      can_bind udp address 39393 && (is_loopback address || is_network address prefix_len)

  unfoldable pub opens_server : ℕ → ℕ → Bool
  opens_server address port = can_bind udp address port

  -- UDP_PORT is 11111 and PORT 40921.
  unfoldable pub opens_streamer : Bool → ℕ → Bool
  opens_streamer use_udp address =
      if use_udp then can_bind udp address 11111 else can_bind tcp address 40921

  -- Whether the constructor does not throw.
  unfoldable pub opens : Interface → Bool
  unfolding address_of opens_discovery opens_server opens_streamer
  opens i = elim (address_of i.ip) [
    | none ↦ false
    | some address ↦
        opens_discovery address i.prefix_len
        && opens_server address 30030
        && opens_server address 20020
        && opens_streamer i.camera_use_udp address
  ]
