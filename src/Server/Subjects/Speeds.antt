-- ===== src/Server/Subjects/Speeds.antt =====
-- What a client of robomaster_sim reads from the published ESC data about the wheels' speeds.
use msde_robotics.Prelude.{
  ℕ, zero, suc, ◌^◌, ◌<◌, ◌≤◌, ◌≡◌, refl, ◌⊎◌, inl, inr, ltb, Bool-cases, ap₂, List, [], ◌∷◌, map,
  some, All, arith,
}
use msde_robotics.Prelude.Int.{ℤ, pos, negsuc, neg, signed, pattern_of, pos_part, neg_part}
use msde_robotics.Wire.Bytes.{write, Float}
use msde_robotics.Messages.Replies.{write_at}
use msde_robotics.Robot.Maths.{Math, rpm_from_angular_speed}
use msde_robotics.Robot.Machine.{Robot}
use msde_robotics.Commands.Subjects.{write_each, encode_esc}
use msde_robotics.Commands.Subjects.Layout.{read_each, packed, read_each-packed}
use msde_robotics.Server.Updates.Motion.{clamp_int, esc_speed, truncated, update_esc}
use msde_robotics.Server.Subjects.{Kept, subject_data}

-- An integer of at most 16 bits, with 8192 on both sides.
IsSmall : ℤ → Type 0
IsSmall z = (pos_part z < 8193) × (neg_part z < 8193)

clamp_int-IsSmall : (z : ℤ) → IsSmall (clamp_int z (negsuc 8191) (pos 8191))
unfolding clamp_int IsSmall
clamp_int-IsSmall (pos n) = ground arith
clamp_int-IsSmall (negsuc n) = ground arith

neg-IsSmall : (z : ℤ) → IsSmall z → IsSmall (neg z)
unfolding IsSmall
neg-IsSmall (pos zero) h = h
neg-IsSmall (pos (suc n)) h = (h.1, h.0)
neg-IsSmall (negsuc n) h = (h.1, h.0)

signed-pattern_of : (z : ℤ) → IsSmall z → signed 16 (pattern_of 16 z) ≡ z
unfolding IsSmall
signed-pattern_of (pos n) h = ground arith
signed-pattern_of (negsuc n) h = ground arith

pattern_of-bound : (z : ℤ) → IsSmall z → pattern_of 16 z < 256 ^ 2
unfolding IsSmall
pattern_of-bound (pos n) h = omega arith
pattern_of-bound (negsuc n) h = omega arith

map-signed : (zs : List ℤ) → All IsSmall zs → map (signed 16) (map (pattern_of 16) zs) ≡ zs
map-signed [] h = refl
map-signed (z ∷ zs) h = ap₂ (λ y ys. y ∷ ys) (signed-pattern_of z h.0) (map-signed zs h.1)

map-bound : (zs : List ℤ) → All IsSmall zs → All (λ v. v < 256 ^ 2) (map (pattern_of 16) zs)
map-bound [] h = h
map-bound (z ∷ zs) h = (pattern_of-bound z h.0, map-bound zs h.1)

-- A number that is limited to -8192 and 8191.
abbrev pub IsLimited : ℤ → ℤ → Type 0
IsLimited v limited =
    ((pos_part v ≤ 8191) × (neg_part v ≤ 8192) × (limited ≡ v))
    ⊎ ((8191 < pos_part v) × (limited ≡ pos 8191))
    ⊎ ((8192 < neg_part v) × (limited ≡ negsuc 8191))

clamp_int-IsLimited : (z : ℤ) → IsLimited z (clamp_int z (negsuc 8191) (pos 8191))
unfolding clamp_int
clamp_int-IsLimited (pos n) = elim (Bool-cases (ltb 8191 n)) [
  | inl e ↦ inr (inl (ground arith))
  | inr e ↦ inl (ground arith)
]
clamp_int-IsLimited (negsuc n) = elim (Bool-cases (ltb 8191 n)) [
  | inl e ↦ inr (inr (ground arith))
  | inr e ↦ inl (ground arith)
]

module _ (m : Math) where
  open m use {fp, div_double, mul_double, round_double, to_ℤ, double_of_ℤ}
  open fp use {widen}

  -- The revolutions per minute of a speed in radians per second without its fraction, rounded;
  -- 0x404e_0000_0000_0000 is 60.0 and 0x4019_21fb_5444_2d18 is 2π.
  abbrev pub revolutions : Float → ℤ
  revolutions speed = to_ℤ (
      round_double (
        div_double (mul_double (double_of_ℤ (to_ℤ (widen speed))) 0x404e_0000_0000_0000)
          0x4019_21fb_5444_2d18))

  esc_speed-IsSmall : (speed : Float) → IsSmall (esc_speed m speed)
  unfolding esc_speed
  esc_speed-IsSmall speed = clamp_int-IsSmall (rpm_from_angular_speed m (truncated m speed))

  esc_speed-IsLimited : (speed : Float) → IsLimited (revolutions speed) (esc_speed m speed)
  unfolding esc_speed rpm_from_angular_speed
  esc_speed-IsLimited speed = clamp_int-IsLimited (revolutions speed)

  -- The speeds that `update_esc` stores, as integers.
  unfoldable esc_speeds : Robot → List ℤ
  esc_speeds r =
      let w = r.chassis.wheel_speeds.current in
      esc_speed m w.front_right
      ∷ neg (esc_speed m w.front_left)
      ∷ neg (esc_speed m w.rear_left)
      ∷ esc_speed m w.rear_right
      ∷ []

  esc_speeds-IsSmall : (r : Robot) → All IsSmall (esc_speeds r)
  unfolding esc_speeds
  esc_speeds-IsSmall r =
      let small = esc_speed-IsSmall in
      (small _, (neg-IsSmall _ (small _), (neg-IsSmall _ (small _), (small _, _))))

  -- For every robot, a client that reads four signed numbers of 16 bits from the data of the ESC
  -- topic gets the numbers of the wheels front right, front left, rear left and rear right, the two
  -- left ones negated. The number of a wheel is its speed in radians per second without its fraction,
  -- converted to revolutions per minute, rounded, and limited to -8192 and 8191; so a left one can be
  -- 8192.
  pub subject_data-esc_speed :
      (k : Kept) (r : Robot)
      → let w = r.chassis.wheel_speeds.current in
        (values rest : List ℕ) × (a b c d : ℤ) × (read_each 2 4
            (subject_data m k r 0x00020009c14cb7c5)
          ≡ some (values, rest))
        × (map (signed 16) values ≡ a ∷ neg b ∷ neg c ∷ d ∷ [])
        × IsLimited (revolutions w.front_right) a
        × IsLimited (revolutions w.front_left) b
        × IsLimited (revolutions w.rear_left) c
        × IsLimited (revolutions w.rear_right) d
  unfolding subject_data update_esc encode_esc write_each write_at write packed esc_speeds
  subject_data-esc_speed k r =
      let w = r.chassis.wheel_speeds.current in
      let read =
        read_each-packed 2 (map (pattern_of 16) (esc_speeds r)) _
          (map-bound (esc_speeds r) (esc_speeds-IsSmall r)) in
      (
        map (pattern_of 16) (esc_speeds r),
        _,
        esc_speed m w.front_right,
        esc_speed m w.front_left,
        esc_speed m w.rear_left,
        esc_speed m w.rear_right,
        read,
        map-signed (esc_speeds r) (esc_speeds-IsSmall r),
        esc_speed-IsLimited w.front_right,
        esc_speed-IsLimited w.front_left,
        esc_speed-IsLimited w.rear_left,
        esc_speed-IsLimited w.rear_right,
      )
