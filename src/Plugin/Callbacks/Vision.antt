-- ===== src/Plugin/Callbacks/Vision.antt =====
-- robomaster_sim/coppeliaSim_plugin/plugin.cpp: the scripts' functions about the machine vision, and
-- the list of the robots.
use msde_robotics.Prelude.{ℕ, ◌%◌, List, [], ◌∷◌, Option}
use msde_robotics.Wire.Bytes.{Float}
use msde_robotics.Robot.Platform.{Double}
use msde_robotics.Robot.Maths.{Math}
use msde_robotics.Robot.Objects.{Body}
use msde_robotics.Robot.Devices.{set_enable}
use msde_robotics.Plugin.Vision.{Sight}
use msde_robotics.Plugin.Vision.Classes.{set_vision_class}
use msde_robotics.Plugin.Vision.Detector.{configure_vision}
use msde_robotics.Plugin.Registry.{Registry}
use msde_robotics.Plugin.Callbacks.{on_member, on_robot, of_robot}

-- A function that changes the members for the vision.
unfoldable pub on_sight : ℕ → (Sight → Sight) → Registry → Registry
unfolding on_member
on_sight handle f st =
    (on_member handle tt (λ member. (record member { sight = f member.sight }, tt)) st).0

-- `roots` are the handles of the objects with the name.
unfoldable pub set_class : (ℕ → ℕ → Double) → (ℕ → List ℕ) → ℕ → List ℕ → ℕ → Registry → Registry
unfolding on_sight
set_class size shapes handle roots type =
    on_sight handle (set_vision_class size shapes (type % 256) roots)

unfoldable pub configure : Math → ℕ → Float → Float → Float → Registry → Registry
unfolding on_sight
configure m handle min_width min_height tolerance =
    on_sight handle (configure_vision m min_width min_height tolerance)

unfoldable pub enable_vision : ℕ → ℕ → Registry → Registry
unfolding on_robot
enable_vision handle mask =
    on_robot handle (λ r. record r { vision_enabled = set_enable (mask % 256) r.vision_enabled })

unfoldable pub get_detected_robots : ℕ → Registry → Option (List Body)
unfolding of_robot
get_detected_robots handle = of_robot handle (λ r. r.detected_objects.robots)

unfoldable pub get_detected_people : ℕ → Registry → Option (List Body)
unfolding of_robot
get_detected_people handle = of_robot handle (λ r. r.detected_objects.people)

unfoldable pub keys : {A : Type 0} → List (ℕ × A) → List ℕ
keys [] = []
keys ((k, v) ∷ rest) = k ∷ keys rest

unfoldable pub get_handles : Registry → List ℕ
unfolding keys
get_handles st = keys st.robots
