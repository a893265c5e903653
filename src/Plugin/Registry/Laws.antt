-- ===== src/Plugin/Registry/Laws.antt =====
-- What add_robot of robomaster_sim/coppeliaSim_plugin/plugin.cpp does to the plugin's robots.
use msde_robotics.Prelude.{
  Bool-cases, ℕ, ◌+◌, ◌≤◌, ◌≡◌, ◌≢◌, refl, ◌⊎◌, inl, inr, List, [], ◌∷◌, Option, none, some, ◌==◌,
  if◌then◌else◌, arith, Option-cases,
}
use msde_robotics.Prelude.SortedMap.{lookup, emplace, IsSorted, lookup-emplace, emplace-From}
use msde_robotics.Wire.Bytes.{Float}
use msde_robotics.Robot.Maths.{Math}
use msde_robotics.Robot.Machine.{Memory}
use msde_robotics.Plugin.Registry.{
  Creation, Member, Registry, Models, Outcome, created, not_located, thrown, make_member, register,
  add_robot, interface_of,
}
use msde_robotics.Plugin.Interfaces.{Interface, Sockets, opens}
use msde_robotics.Plugin.Registry.Bound.{IsBound, opens-IsBound, opens-not-IsBound}
use msde_robotics.Plugin.Network.{get_ip}

-- The handles ascend, and the next one and all above it are not in use.
pub record IsWellFormed (st : Registry) : Type 0 where
  pub sorted : IsSorted st.robots
  pub fresh : (j : ℕ) → st.next_robot_handle ≤ j → lookup j st.robots ≡ none

-- The network is no text, or its text was read and the interface's sockets can be bound.
abbrev pub IsOpen : Sockets → Creation → Type 0
IsOpen n c =
    (c.remote_api_network ≡ [])
    ⊎ ((found : List ℕ × ℕ) × (get_ip c.remote_api_network ≡ some found) × IsBound n c found)

-- The network is a text which was not read, or the interface's sockets cannot be bound.
abbrev pub IsClosed : Sockets → Creation → Type 0
IsClosed n c =
    (c.remote_api_network ≢ [])
    × ((get_ip c.remote_api_network ≡ none)
        ⊎ ((found : List ℕ × ℕ) × (get_ip c.remote_api_network ≡ some found)
            × (¬ IsBound n c found)))

-- What a creation has done to the registry.
abbrev pub Done : Sockets → Option Member → Creation → Registry → Registry → Outcome → Type 0
Done n made c st st' (created h) =
    (h ≡ st.next_robot_handle)
    × ((j : ℕ) → lookup j st'.robots ≡ (if h == j then made else lookup j st.robots))
    × (made ≢ none)
    × IsOpen n c
    × IsWellFormed st'
Done n made c st st' not_located = (st' ≡ st) × (made ≡ none)
Done n made c st st' thrown =
    IsClosed n c
    × (made ≢ none)
    × ((j : ℕ)
        → lookup j st'.robots ≡ (if st.next_robot_handle == j then made else lookup j st.robots))
    × (st'.next_robot_handle ≡ st.next_robot_handle)
    × (st'.interfaces ≡ st.interfaces)

pub List-cases : {A : Type 0} (xs : List A) → (xs ≡ []) ⊎ ((x : A) × (ys : List A) × (xs ≡ x ∷ ys))
List-cases [] = inl refl
List-cases (x ∷ ys) = inr (x, ys, refl)

module _ (n : Sockets) (c : Creation) (member : Member) (st : Registry) (v : IsWellFormed st) where
  lookup-stored :
      (j : ℕ)
      → lookup j (emplace st.next_robot_handle member st.robots)
        ≡ (if st.next_robot_handle == j then some member else lookup j st.robots)
  lookup-stored j =
      let free = v.fresh st.next_robot_handle (omega arith) in
      rw (lookup-emplace j st.next_robot_handle 0 member st.robots v.sorted, free) refl

  stored-IsWellFormed :
      (interfaces : List (ℕ × Interface))
      → IsWellFormed (record {
        next_robot_handle = st.next_robot_handle + 1;
        robots = emplace st.next_robot_handle member st.robots;
        interfaces = interfaces;
      })
  stored-IsWellFormed interfaces = record {
    sorted = emplace-From st.next_robot_handle 0 member st.robots (omega arith) v.sorted;
    fresh = λ j h. ground (arith, lookup-stored j, v.fresh j);
  }

  register-Done : Done n (some member) c st (register n c member st).0 (register n c member st).1
  unfolding register
  register-Done =
      let handle = st.next_robot_handle in
      let stored : Registry = record st { robots = emplace handle member st.robots } in
      let made : some member ≢ none = λ d. cc d in
      elim (List-cases c.remote_api_network) [
        | inl e ↦
            let done : register n c member st
                ≡ (record stored { next_robot_handle = handle + 1 }, created handle) =
              rw (register, e) refl in
            rw done (refl, lookup-stored, made, inl e, stored-IsWellFormed st.interfaces)
        | inr (b, bs, e) ↦
            let text : c.remote_api_network ≢ [] = λ d. cc (e, d) in
            elim (Option-cases (get_ip c.remote_api_network)) [
              | inl e' ↦
                  let done : register n c member st ≡ (stored, thrown) =
                    rw (register, e, e') refl in
                  rw done ((text, inl e'), made, lookup-stored, refl, refl)
              | inr (found, e') ↦ elim (Bool-cases (opens n (interface_of c found))) [
                | inl o ↦
                    let opened : Registry = record stored {
                      next_robot_handle = handle + 1;
                      interfaces = emplace handle (interface_of c found) st.interfaces;
                    } in
                    let done : register n c member st ≡ (opened, created handle) =
                      rw (register, e, e', o) refl in
                    rw done (
                      refl,
                      lookup-stored,
                      made,
                      inr (found, e', opens-IsBound n c found o),
                      stored-IsWellFormed _,
                    )
                | inr o ↦
                    let done : register n c member st ≡ (stored, thrown) =
                      rw (register, e, e', o) refl in
                    rw done (
                      (text, inr (found, e', opens-not-IsBound n c found o)),
                      made,
                      lookup-stored,
                      refl,
                      refl,
                    )
              ]
            ]
      ]

-- On a registry whose handles ascend and whose next handle and all above it are not in use,
-- add_robot has one of three outcomes. It returns the next handle: then no network was given, or its
-- text was read and the interface can be bound; this handle has the new robot, every other one what
-- it had before, and the registry is of this kind again. It returns -1: then no robot could be made,
-- and the registry is the same. Or it throws: then a network was given, and its prefix could not be
-- read or the interface not be bound; the robot is stored under the next handle, which does not
-- change, every other handle has what it had before, and no interface is added. An interface can be
-- bound where its address is known, the ports 39393, 30030 and 20020 and the one of the video are
-- free, and the prefix fits the address, if that is no loopback.
pub add_robot-Done :
    (m : Math) (o : Models) (n : Sockets) (memory : Memory) (unset : Float) (c : Creation)
    (st : Registry)
    → IsWellFormed st
    → let done = add_robot m o n memory unset c st in
      Done n (make_member m o memory unset c) c st done.0 done.1
unfolding add_robot
add_robot-Done m o n memory unset c st v = elim (Option-cases (make_member m o memory unset c)) [
  | inl e ↦ rw (e, add_robot) (refl, refl)
  | inr (member, e) ↦ rw (e, add_robot) (register-Done n c member st v)
]
