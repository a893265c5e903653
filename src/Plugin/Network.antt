-- ===== src/Plugin/Network.antt =====
-- robomaster_sim/coppeliaSim_plugin/plugin.cpp: the address that scripts give to a robot.
use msde_robotics.Prelude.{
  ℕ, ◌+◌, ◌-◌, ◌*◌, ◌%◌, ◌^◌, List, [], ◌∷◌, Bool, true, false, ◌&&◌, ◌||◌, Option, none, some, ltb,
  leb, ◌==◌, if◌then◌else◌,
}
use msde_robotics.Wire.Bytes.{◌>>=◌}

unfoldable pub is_space : ℕ → Bool
is_space c = c == 32 || (leb 9 c && leb c 13)

-- The digits in front, read as a number; `none` if there is none, or the number exceeds 64 bits.
unfoldable pub read_digits : Bool → ℕ → List ℕ → Option ℕ
read_digits any value [] = if any && ltb value (2 ^ 64) then some value else none
read_digits any value (c ∷ cs) =
    let rest = read_digits true (10 * value + (c - 48)) cs in
    if leb 48 c && leb c 57 then rest else if any && ltb value (2 ^ 64) then some value else none

-- `std::stoul`, whose sign negates; 43 is a plus and 45 a minus.
unfoldable pub stoul : List ℕ → Option ℕ
unfolding is_space read_digits
stoul [] = none
stoul (c ∷ cs) =
    let skipped = stoul cs in
    if is_space c
    then skipped
    else if c == 43
    then read_digits false 0 cs
    else if c == 45
    then (do value ← read_digits false 0 cs; some ((2 ^ 64 - value) % 2 ^ 64))
    else read_digits false 0 (c ∷ cs)

-- The text before the first '/', which is 47, and the number behind it, as `unsigned`, or 0. `none`
-- is the exception of `stoul`.
unfoldable pub get_ip : List ℕ → Option (List ℕ × ℕ)
unfolding stoul
get_ip [] = some ([], 0)
get_ip (c ∷ cs) =
    let rest = get_ip cs in
    if c == 47
    then (do prefix ← stoul cs; some ([], prefix % 2 ^ 32))
    else (do found ← rest; some (c ∷ found.0, found.1))
