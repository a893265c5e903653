-- ===== src/Examples/Dummy.antt =====
-- An image of two columns on four columns and two rows.
use msde_robotics.Prelude.{
  ℕ, ◌+◌, ◌-◌, ◌*◌, ◌<◌, ◌≡◌, List, ◌&&◌, some, ltb, ◌==◌, if◌then◌else◌, length, get_elem?, arith,
}
use msde_robotics.Robot.Dummy.Strip.{generate_strip_image}
use msde_robotics.Robot.Dummy.Strip.Positions.{byte_at}
use msde_robotics.Robot.Dummy.Strip.Columns.{covers, generate_strip_image-covers}

generate_strip_image-covers_example :
    let last = if ltb 5 3 then 5 + 4 else 5 in
    (image : List ℕ) × (generate_strip_image 3 5 4 2 ≡ some image)
    × (length image ≡ 4 * 2 * 3)
    × ((row column part : ℕ)
        → row < 2
        → column < 4
        → part < 3
        → get_elem? image (byte_at 4 row column part)
          ≡ some (if part == 0 && covers (last - 3) 3 4 column then 255 else 0))
generate_strip_image-covers_example =
    generate_strip_image-covers 3 5 4 2 (omega arith) (omega arith) (omega arith) (omega arith)
