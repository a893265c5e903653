-- ===== src/Plugin/Vision/Classes.antt =====
-- robomaster_sim/coppeliaSim_plugin/coppeliasim_robot.cpp: the objects that the detector knows.
use msde_robotics.Prelude.{ℕ, List, [], ◌∷◌, Bool, false, ◌==◌, if◌then◌else◌}
use msde_robotics.Prelude.Int.{ℤ, pos, negsuc}
use msde_robotics.Prelude.SortedMap.{assign}
use msde_robotics.Robot.Platform.{Double}
use msde_robotics.Plugin.Vision.{Corner, Sight}

-- `get_vertices`: `size_params[i]` of the object with the handle is `size handle i`.
unfoldable pub get_vertices : (ℕ → ℕ → Double) → ℕ → List Corner
get_vertices size handle =
    let corner = λ (i j k : ℕ).
      let c : Corner = record { x = size handle i; y = size handle j; z = size handle k } in c in
    corner 0 2 4
    ∷ corner 0 2 5
    ∷ corner 0 3 4
    ∷ corner 0 3 5
    ∷ corner 1 2 4
    ∷ corner 1 2 5
    ∷ corner 1 3 4
    ∷ corner 1 3 5
    ∷ []

-- The inner loop of `set_vision_class`.
unfoldable pub classify : ℕ → ℕ → List ℕ → Sight → Sight
classify kind root [] s = s
classify kind root (h ∷ hs) s = classify kind root hs (record s {
  vision_class_for_handle = assign h kind s.vision_class_for_handle;
  root_for_handle = assign h root s.root_for_handle;
})

abbrev pub is_handle : ℤ → ℕ → Bool
is_handle (pos n) root = n == root
is_handle (negsuc n) root = false

-- The simulator gives the handles of the objects with the name, one after the other, and each
-- object's shapes.
unfoldable pub set_vision_class : (ℕ → ℕ → Double) → (ℕ → List ℕ) → ℕ → List ℕ → Sight → Sight
unfolding classify get_vertices
set_vision_class size shapes kind [] s = s
set_vision_class size shapes kind (root ∷ roots) s = set_vision_class size shapes kind roots (
    if is_handle s.root_handle root
    then s
    else classify kind root (shapes root)
        (record s { vertices_for_root = assign root (get_vertices size root) s.vertices_for_root }))
