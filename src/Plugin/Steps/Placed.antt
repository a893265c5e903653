-- ===== src/Plugin/Steps/Placed.antt =====
-- A robot that `add_robot` of robomaster_sim/coppeliaSim_plugin/plugin.cpp makes is placed.
use msde_robotics.Prelude.{
  ℕ, zero, suc, ◌<◌, ◌≡◌, refl, List, [], ◌∷◌, Bool, true, false, Option, none, some, get_or,
  length, All, arith, inl, inr, Bool-cases,
}
use msde_robotics.Prelude.Int.{ℤ, negsuc}
use msde_robotics.Wire.Bytes.{◌>>=◌, Float}
use msde_robotics.Robot.Maths.{Math}
use msde_robotics.Robot.Machine.{Memory, new_robot}
use msde_robotics.Plugin.Registry.{Models, Creation, is_missing, find_all, find_leds, make_member}
use msde_robotics.Plugin.Steps.Forwarded.{IsFound, IsPlaced}

-- The result, if there is one, has the property.
abbrev pub Ensures : {A : Type 0} → (A → Type 0) → Option A → Type 0
Ensures P none = Unit {0}
Ensures P (some a) = P a

bind-Ensures :
    {A B : Type 0} (P : A → Type 0) (Q : B → Type 0) (o : Option A) (f : A → Option B)
    → Ensures P o
    → ((a : A) → P a → Ensures Q (f a))
    → Ensures Q (o >>= f)
bind-Ensures P Q none f h k = tt
bind-Ensures P Q (some a) f h k = k a h

-- What a loop over numbered objects finds: as many handles as it looked for.
abbrev Finds : ℕ → List ℤ → Type 0
Finds n hs = All IsFound hs × (length hs ≡ n)

find_all-Finds : (get : ℕ → ℤ) (i count : ℕ) → Ensures (Finds count) (find_all get i count)
unfolding find_all
find_all-Finds get i zero = (tt, refl)
find_all-Finds get i (suc count) =
    let others =
      bind-Ensures (Finds count) (Finds (suc count)) (find_all get (suc i) count)
        (λ rest. some (get i ∷ rest)) (find_all-Finds get (suc i) count) in
    elim (Bool-cases (is_missing (get i))) [
      | inl e ↦ rw e tt
      | inr e ↦ rw e (others (λ rest h. ((e, h.0), omega (arith, h.1))))
    ]

weaken : (o : Option (List ℤ)) → Ensures (Finds 8) o → Ensures (All IsFound) o
weaken none h = tt
weaken (some hs) h = h.0

find_leds-Ensures : (get : ℕ → ℤ) (enabled : Bool) → Ensures (All IsFound) (find_leds get enabled)
unfolding find_leds
find_leds-Ensures get true = weaken (find_all get 0 8) (find_all-Finds get 0 8)
find_leds-Ensures get false = tt

get_or-All :
    {A : Type 0} (P : A → Type 0) (xs : List A) (i : ℕ) (d : A)
    → All P xs
    → i < length xs
    → P (get_or xs i d)
get_or-All P [] i d h k = elim k [ ]
get_or-All P (x ∷ xs) zero d h k = h.0
get_or-All P (x ∷ xs) (suc i) d h k = get_or-All P xs i d h.1 (omega arith)

-- Every robot that is made has found its wheels and lights, and has the slots of three servos.
pub make_member-IsPlaced :
    (m : Math) (o : Models) (memory : Memory) (unset : Float) (c : Creation)
    → Ensures IsPlaced (make_member m o memory unset c)
unfolding make_member new_robot
make_member-IsPlaced m o memory unset c =
    bind-Ensures (Finds 4) IsPlaced (find_all _ 0 4) _ (find_all-Finds _ 0 4) λ wheels hw.
      bind-Ensures (Finds 4) IsPlaced (find_all _ 0 4) _ (find_all-Finds _ 0 4) λ leds hl.
        bind-Ensures (All IsFound) IsPlaced (find_leds _ _) _ (find_leds-Ensures _ _) λ left h0.
          bind-Ensures (All IsFound) IsPlaced (find_leds _ _) _ (find_leds-Ensures _ _) λ right h1.
            record {
              located = record {
                front_left = get_or-All IsFound wheels 0 (negsuc 0) hw.0 (omega (arith, hw.1));
                front_right = get_or-All IsFound wheels 1 (negsuc 0) hw.0 (omega (arith, hw.1));
                rear_left = get_or-All IsFound wheels 2 (negsuc 0) hw.0 (omega (arith, hw.1));
                rear_right = get_or-All IsFound wheels 3 (negsuc 0) hw.0 (omega (arith, hw.1));
                chassis_leds = hl.0;
                gimbal_leds = (h0, (h1, tt));
                servos = refl;
              };
              servos = refl;
            }
