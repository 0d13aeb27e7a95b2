-- ===== src/Vec2i/Tests.antt =====
-- Runs of the vectors, and the theorems on two of them. The word of -1 is 2 ^ 32 - 1.
use scal_base.Prelude.{◌-◌, ◌^◌, ◌≡◌, refl, arith, true, false, ltb, if◌then◌else◌}
use scal_base.Vec2i.{
  Vec2i, add, add_value, subtract, subtract_value, scale, multiply, negate, int_abs, int_lt,
  manhattan_distance, vec_min, vec_max, equal, not_equal, pack_int64, unpack_int64,
}
use scal_base.Vec2i.Packing.{unpack_int64-pack_int64}

abbrev left : Vec2i
left = record { x = 2 ^ 32 - 1; y = 0 }

abbrev up : Vec2i
up = record { x = 0; y = 2 ^ 32 - 1 }

sums :
    (add left up ≡ record { x = 2 ^ 32 - 1; y = 2 ^ 32 - 1 })
    × (subtract up left ≡ record { x = 1; y = 2 ^ 32 - 1 })
    × (negate left ≡ record { x = 1; y = 0 })
    × (multiply left left ≡ record { x = 1; y = 0 })
    × (scale left 3 ≡ record { x = 2 ^ 32 - 3; y = 0 })
    × (add_value left 1 ≡ record { x = 0; y = 1 })
    × (subtract_value up 1 ≡ record { x = 2 ^ 32 - 1; y = 2 ^ 32 - 2 })
unfolding add subtract negate multiply scale add_value subtract_value
sums = (refl, refl, refl, refl, refl, refl, refl)

bounds_and_tests :
    (vec_min left up ≡ record { x = 0; y = 0 })
    × (vec_max left up ≡ record { x = 2 ^ 32 - 1; y = 2 ^ 32 - 1 })
    × (equal left up ≡ false)
    × (not_equal left up ≡ true)
    × (manhattan_distance left (record { x = 4; y = 3 }) ≡ 5)
unfolding manhattan_distance int_abs vec_min vec_max int_lt equal not_equal
bounds_and_tests = (refl, refl, refl, refl, refl)

unpack_int64-pack_int64_example :
    unpack_int64 (pack_int64 up)
    ≡ record { x = if ltb up.y (2 ^ 31) then up.x else 2 ^ 32 - 1; y = 2 ^ 32 - 1 }
unpack_int64-pack_int64_example = unpack_int64-pack_int64 up (omega arith) (omega arith)
