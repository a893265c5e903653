-- ===== src/Plugin/Registry/Bound.antt =====
-- When the interface of a robot can be made in robomaster_sim/coppeliaSim_plugin/plugin.cpp.
use msde_robotics.Prelude.{
  Bool, true, false, ℕ, ◌≡◌, refl, sym, ◌∙◌, List, [], ◌∷◌, All, none, some, inl, inr, arith, ◌&&◌,
  ◌||◌, if◌then◌else◌, Option-cases,
}
use msde_robotics.Plugin.Registry.{Creation, interface_of}
use msde_robotics.Plugin.Interfaces.{
  Sockets, udp, tcp, address_of, opens_discovery, opens_server, opens_streamer, opens,
}

-- The address of a text, or any address where there is none.
abbrev pub Resolves : Sockets → List ℕ → ℕ → Type 0
Resolves n [] address = n.any_address ≡ address
Resolves n (c ∷ cs) address = n.make_address (c ∷ cs) ≡ some address

-- The address is known, the ports of the discovery, of the commands and of the connection can be
-- bound, and so can the one of the video; and the prefix fits the address, if that is no loopback.
abbrev pub IsBound : Sockets → Creation → List ℕ × ℕ → Type 0
IsBound n c (ip, prefix_len) =
    (address : ℕ) × Resolves n ip address
    × All (λ port. n.can_bind udp address port ≡ true) (39393 ∷ 30030 ∷ 20020 ∷ [])
    × ((if c.camera_use_udp then n.can_bind udp address 11111 else n.can_bind tcp address 40921)
        ≡ true)
    × ((n.is_loopback address || n.is_network address prefix_len) ≡ true)

resolves :
    (n : Sockets) (ip : List ℕ) (address : ℕ)
    → address_of n ip ≡ some address
    → Resolves n ip address
unfolding address_of
resolves n [] address e = ground (arith, e)
resolves n (c ∷ cs) address e = e

address_of-Resolves :
    (n : Sockets) (ip : List ℕ) (address : ℕ)
    → Resolves n ip address
    → address_of n ip ≡ some address
unfolding address_of
address_of-Resolves n [] address e = rw e refl
address_of-Resolves n (c ∷ cs) address e = e

-- The tests for one address.
opens_at :
    (n : Sockets) (c : Creation) (ip : List ℕ) (prefix_len a : ℕ)
    → address_of n ip ≡ some a
    → opens n (interface_of c (ip, prefix_len)) ≡ (
        (n.can_bind udp a 39393 && (n.is_loopback a || n.is_network a prefix_len))
        && n.can_bind udp a 30030
        && n.can_bind udp a 20020
        && (if c.camera_use_udp then n.can_bind udp a 11111 else n.can_bind tcp a 40921))
unfolding opens opens_discovery opens_server opens_streamer
opens_at n c ip prefix_len a e = rw e refl

closed_at :
    (n : Sockets) (c : Creation) (ip : List ℕ) (prefix_len : ℕ)
    → address_of n ip ≡ none
    → opens n (interface_of c (ip, prefix_len)) ≡ false
unfolding opens
closed_at n c ip prefix_len e = rw e refl

all_hold :
    (discovery net commands connection video : Bool)
    → ((discovery && net) && commands && connection && video) ≡ true
    → (discovery ≡ true) × (commands ≡ true) × (connection ≡ true) × (video ≡ true) × (net ≡ true)
all_hold discovery net commands connection video h = ground (arith, h)

pub opens-IsBound :
    (n : Sockets) (c : Creation) (found : List ℕ × ℕ)
    → opens n (interface_of c found) ≡ true
    → IsBound n c found
opens-IsBound n c (ip, prefix_len) h = elim (Option-cases (address_of n ip)) [
  | inl e ↦ ground (arith, closed_at n c ip prefix_len e, h)
  | inr (a, e) ↦
      let (d, k, l, v, w) =
        all_hold (n.can_bind udp a 39393) (n.is_loopback a || n.is_network a prefix_len)
          (n.can_bind udp a 30030) (n.can_bind udp a 20020) _
          (sym (opens_at n c ip prefix_len a e) ∙ h) in
      (a, resolves n ip a e, (d, (k, (l, _))), v, w)
]

pub opens-not-IsBound :
    (n : Sockets) (c : Creation) (found : List ℕ × ℕ)
    → opens n (interface_of c found) ≡ false
    → ¬ IsBound n c found
opens-not-IsBound n c (ip, prefix_len) h (a, r, (d, (k, (l, u))), video, net) =
    let e = opens_at n c ip prefix_len a (address_of-Resolves n ip a r) in
    let open_ : opens n (interface_of c (ip, prefix_len)) ≡ true =
      e ∙ rw (d, k, l, video, net) refl in
    cc (open_, h)
