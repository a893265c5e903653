-- ===== src/Commands/Subjects/Layout.antt =====
-- A client reads the subjects' fields back, one behind the other.
use msde_robotics.Prelude.{
  ℕ, zero, suc, ◌^◌, ◌<◌, ◌≡◌, refl, List, [], ◌∷◌, ◌++◌, Option, some, drop, length, All,
}
use msde_robotics.Wire.Bytes.{◌>>=◌, read, write, read-write}
use msde_robotics.Messages.Replies.{write_at}
use msde_robotics.Commands.Subjects.{write_each, Velocity, encode_velocity, Esc, encode_esc}

-- `count` fields of `width` bytes, and what follows them.
unfoldable pub read_each : ℕ → ℕ → List ℕ → Option (List ℕ × List ℕ)
read_each width zero buffer = some ([], buffer)
read_each width (suc count) buffer = do
  value ← read width buffer
  others ← read_each width count (drop width buffer)
  some (value ∷ others.0, others.1)

-- The fields' bytes, one behind the other, before `rest`.
unfoldable pub packed : ℕ → List ℕ → List ℕ → List ℕ
packed width [] rest = rest
packed width (v ∷ values) rest = write width v ++ packed width values rest

drop-write : (width v : ℕ) (rest : List ℕ) → drop width (write width v ++ rest) ≡ rest
unfolding write
drop-write zero v rest = refl
drop-write (suc width) v rest = drop-write width _ rest

pub read_each-packed :
    (width : ℕ) (values rest : List ℕ)
    → All (λ v. v < 256 ^ width) values
    → read_each width (length values) (packed width values rest) ≡ some (values, rest)
unfolding read_each packed
read_each-packed width [] rest h = refl
read_each-packed width (v ∷ values) rest h =
    rw
      (
        read-write width v (packed width values rest) h.0,
        drop-write width v (packed width values rest),
        read_each-packed width values rest h.1,
      )
      refl

-- A client that reads six floats of 32 bits from a velocity subject's data gets its six fields
-- back, which fit into 32 bits, and nothing follows them.
encode_velocity_lem :
    (s : Velocity)
    → All (λ v. v < 256 ^ 4) (s.vgx ∷ s.vgy ∷ s.vgz ∷ s.vbx ∷ s.vby ∷ s.vbz ∷ [])
    → read_each 4 6 (encode_velocity s)
      ≡ some (s.vgx ∷ s.vgy ∷ s.vgz ∷ s.vbx ∷ s.vby ∷ s.vbz ∷ [], [])
unfolding encode_velocity write_each write_at write packed
encode_velocity_lem s h =
    read_each-packed 4 (s.vgx ∷ s.vgy ∷ s.vgz ∷ s.vbx ∷ s.vby ∷ s.vbz ∷ []) [] h

-- The four speeds and the four angles of 16 bits, the four times of 32 bits and the four states
-- of 8 bits of an ESC subject's data come back in this order, and nothing follows them.
encode_esc_lem :
    (s0 s1 s2 s3 a0 a1 a2 a3 t0 t1 t2 t3 x0 x1 x2 x3 : ℕ)
    → All (λ v. v < 256 ^ 2) (s0 ∷ s1 ∷ s2 ∷ s3 ∷ a0 ∷ a1 ∷ a2 ∷ a3 ∷ [])
    → All (λ v. v < 256 ^ 4) (t0 ∷ t1 ∷ t2 ∷ t3 ∷ [])
    → All (λ v. v < 256 ^ 1) (x0 ∷ x1 ∷ x2 ∷ x3 ∷ [])
    → let esc : Esc = record {
      speed = s0 ∷ s1 ∷ s2 ∷ s3 ∷ [];
      angle = a0 ∷ a1 ∷ a2 ∷ a3 ∷ [];
      timestamp = t0 ∷ t1 ∷ t2 ∷ t3 ∷ [];
      state = x0 ∷ x1 ∷ x2 ∷ x3 ∷ [];
    } in
      (times states : List ℕ) × (read_each 2 8 (encode_esc esc)
        ≡ some (s0 ∷ s1 ∷ s2 ∷ s3 ∷ a0 ∷ a1 ∷ a2 ∷ a3 ∷ [], times))
      × (read_each 4 4 times ≡ some (t0 ∷ t1 ∷ t2 ∷ t3 ∷ [], states))
      × (read_each 1 4 states ≡ some (x0 ∷ x1 ∷ x2 ∷ x3 ∷ [], []))
unfolding encode_esc write_each write_at write packed
encode_esc_lem s0 s1 s2 s3 a0 a1 a2 a3 t0 t1 t2 t3 x0 x1 x2 x3 hs ht hx =
    let states : List ℕ = packed 1 (x0 ∷ x1 ∷ x2 ∷ x3 ∷ []) [] in
    let times : List ℕ = packed 4 (t0 ∷ t1 ∷ t2 ∷ t3 ∷ []) states in
    (
      times,
      states,
      read_each-packed 2 (s0 ∷ s1 ∷ s2 ∷ s3 ∷ a0 ∷ a1 ∷ a2 ∷ a3 ∷ []) times hs,
      read_each-packed 4 (t0 ∷ t1 ∷ t2 ∷ t3 ∷ []) states ht,
      read_each-packed 1 (x0 ∷ x1 ∷ x2 ∷ x3 ∷ []) [] hx,
    )
