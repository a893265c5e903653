-- ===== src/Robot/Dummy/Strip.antt =====
-- robomaster_sim/src/dummy_robot.cpp: the camera's image of a robot without a simulator.
pub mod Positions
pub mod Columns
use msde_robotics.Prelude.{
  ℕ, zero, suc, ◌+◌, ◌-◌, ◌*◌, ◌%◌, ◌^◌, List, ◌&&◌, Option, none, some, ltb, ◌==◌, if◌then◌else◌,
  replicate, set,
}

-- The inner loop with `left` rounds to go, from row j on. A row is `width` pixels of three bytes.
unfoldable pub paint_column : ℕ → ℕ → ℕ → ℕ → ℕ → List ℕ → List ℕ
paint_column zero i j width size buffer = buffer
paint_column (suc left) i j width size buffer =
    paint_column left i (suc j) width size (set buffer ((3 * (j * width + i)) % size) 255)

-- The outer loop, from column i on.
unfoldable pub paint_columns : ℕ → ℕ → ℕ → ℕ → ℕ → List ℕ → List ℕ
unfolding paint_column
paint_columns zero i width height size buffer = buffer
paint_columns (suc left) i width height size buffer =
    paint_columns left (suc i) width height size (paint_column height i 0 width size buffer)

-- The numbers are `unsigned` of 32 bits. `none` is a division by 0, where the loops' body runs on an
-- empty image.
unfoldable pub generate_strip_image : ℕ → ℕ → ℕ → ℕ → Option (List ℕ)
unfolding paint_columns
generate_strip_image i0 i1 width height =
    let size = (width * height * 3) % 2 ^ 32 in
    let last = if ltb i1 i0 then (i1 + width) % 2 ^ 32 else i1 in
    if size == 0 && ltb i0 last && ltb 0 height
    then none
    else some (paint_columns (last - i0) i0 width height size (replicate size 0))
