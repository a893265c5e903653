-- ===== src/Plugin/Vision/Registered.antt =====
-- What set_vision_class of robomaster_sim/coppeliaSim_plugin/coppeliasim_robot.cpp registers.
use msde_robotics.Prelude.{
  ℕ, ◌%◌, ◌<◌, ◌≡◌, refl, ◌⊎◌, true, false, inl, inr, List, [], ◌∷◌, some, ◌==◌, All, arith,
  Bool-cases, if_split,
}
use msde_robotics.Prelude.SortedMap.{lookup, assign, lookup-assign}
use msde_robotics.Robot.Platform.{Double}
use msde_robotics.Plugin.Vision.{Corner, Sight}
use msde_robotics.Plugin.Vision.Classes.{is_handle, get_vertices, classify, set_vision_class}
use msde_robotics.Plugin.Vision.Boxes.{IsRooted}
use msde_robotics.Plugin.Vision.Models.{HasModels}

-- A registered model stays registered under any key.
assign-some :
    {A : Type 0} (j k : ℕ) (v w : A) (m : List (ℕ × A))
    → lookup j m ≡ some w
    → (u : A) × (lookup j (assign k v m) ≡ some u)
assign-some j k v w m e =
    rw (lookup-assign j k v m)
      (if_split (λ o. (u : _) × (o ≡ some u)) (k == j) _ _ (λ _. (v, refl)) (λ _. (w, e)))

assign_cases :
    (j k v r : ℕ) (m : List (ℕ × ℕ))
    → lookup j (assign k v m) ≡ some r
    → (((k == j) ≡ true) × (v ≡ r)) ⊎ (((k == j) ≡ false) × (lookup j m ≡ some r))
assign_cases j k v r m h = elim (Bool-cases (k == j)) [
  | inl same ↦ inl (same, ground (arith, lookup-assign j k v m))
  | inr other ↦ inr (other, ground (arith, lookup-assign j k v m))
]

-- What the detector needs of the registered objects.
pub record IsRegistered (s : Sight) : Type 0 where
  pub rooted : IsRooted s
  pub models : HasModels s

low_byte :
    (root : ℕ) (corners : List Corner) (m : List (ℕ × List Corner))
    → root < 256
    → lookup (root % 256) (assign root corners m) ≡ some corners
low_byte root corners m h = ground (arith, lookup-assign (root % 256) root corners m)

module _ (kind root : ℕ) (corners : List Corner) where
  one-IsRegistered :
      (h : ℕ) (s : Sight)
      → lookup (root % 256) s.vertices_for_root ≡ some corners
      → IsRegistered s
      → IsRegistered (record s {
        vision_class_for_handle = assign h kind s.vision_class_for_handle;
        root_for_handle = assign h root s.root_for_handle;
      })
  one-IsRegistered h s e v = record {
    rooted = λ j k found. elim (assign_cases j h kind k s.vision_class_for_handle found) [
      | inl (same, _) ↦ (root, rw (lookup-assign j h root s.root_for_handle, same) refl)
      | inr (other, found') ↦
          let (r, e') = v.rooted j k found' in
          (r, rw (lookup-assign j h root s.root_for_handle, other) e')
    ];
    models = λ j r found. elim (assign_cases j h root r s.root_for_handle found) [
      | inl (_, same) ↦ (corners, rw (← same) e)
      | inr (_, found') ↦ v.models j r found'
    ];
  }

  classify-IsRegistered :
      (hs : List ℕ) (s : Sight)
      → lookup (root % 256) s.vertices_for_root ≡ some corners
      → IsRegistered s
      → IsRegistered (classify kind root hs s)
  unfolding classify
  classify-IsRegistered [] s e v = v
  classify-IsRegistered (h ∷ hs) s e v = classify-IsRegistered hs _ e (one-IsRegistered h s e v)

-- set_vision_class keeps every object's root and every root's model registered, where the handles
-- of the models are below 256.
pub set_vision_class-IsRegistered :
    (size : ℕ → ℕ → Double) (shapes : ℕ → List ℕ) (kind : ℕ) (roots : List ℕ) (s : Sight)
    → All (λ root. root < 256) roots
    → IsRegistered s
    → IsRegistered (set_vision_class size shapes kind roots s)
unfolding set_vision_class
set_vision_class-IsRegistered size shapes kind [] s h v = v
set_vision_class-IsRegistered size shapes kind (root ∷ roots) s h v =
    set_vision_class-IsRegistered size shapes kind roots _ h.1 (
      if_split IsRegistered (is_handle s.root_handle root) _ _ (λ _. v)
        (λ _.
          let corners = get_vertices size root in
          classify-IsRegistered kind root corners (shapes root) _
            (low_byte root corners s.vertices_for_root h.0)
            (record {
              rooted = v.rooted;
              models = λ j r found.
                  let (vs, e) = v.models j r found in
                  assign-some (r % 256) root corners vs s.vertices_for_root e;
            })))
