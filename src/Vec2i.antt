-- ===== src/Vec2i.antt =====
-- Lib/Vec2i.h: vectors of two `int`, and their packing into an `i64`. An `int` is its 32-bit word and an `i64` its
-- 64-bit word, in two's complement; a sum that overflows is undefined in the source, and wraps around here.
pub mod Packing
mod Tests
use Prim.Native.Nat.{bit_or}
use scal_base.Prelude.{
  ℕ, ◌+◌, ◌-◌, ◌*◌, ◌/◌, ◌%◌, ◌^◌, Bool, true, false, not, ◌&&◌, ◌||◌, ◌==◌, ltb, if◌then◌else◌,
  sub32,
}
use scal_base.Prelude.Words.{u32, u64}

pub record Vec2i : Type 0 where
  pub x : ℕ
  pub y : ℕ

-- `(i64)v`
unfoldable pub sign_extend : ℕ → ℕ
sign_extend v = if ltb v (2 ^ 31) then v else v + (2 ^ 64 - 2 ^ 32)

unfoldable pub pack_int64 : Vec2i → ℕ
unfolding sign_extend
pack_int64 v = bit_or (u64 (sign_extend v.x * 2 ^ 32)) (sign_extend v.y)

-- The cast to `int` keeps the low half, so that it does not matter that `>>` fills in the sign.
unfoldable pub unpack_int64 : ℕ → Vec2i
unpack_int64 packed = record { x = u32 (packed / 2 ^ 32); y = u32 packed }

unfoldable pub add : Vec2i → Vec2i → Vec2i
add v o = record { x = u32 (v.x + o.x); y = u32 (v.y + o.y) }

unfoldable pub add_value : Vec2i → ℕ → Vec2i
add_value v value = record { x = u32 (v.x + value); y = u32 (v.y + value) }

unfoldable pub subtract : Vec2i → Vec2i → Vec2i
subtract v o = record { x = sub32 v.x o.x; y = sub32 v.y o.y }

unfoldable pub subtract_value : Vec2i → ℕ → Vec2i
subtract_value v value = record { x = sub32 v.x value; y = sub32 v.y value }

unfoldable pub scale : Vec2i → ℕ → Vec2i
scale v value = record { x = u32 (v.x * value); y = u32 (v.y * value) }

unfoldable pub multiply : Vec2i → Vec2i → Vec2i
multiply v o = record { x = u32 (v.x * o.x); y = u32 (v.y * o.y) }

unfoldable pub negate : Vec2i → Vec2i
negate v = record { x = sub32 0 v.x; y = sub32 0 v.y }

-- `a < b` of two `int`: adding 2 ^ 31 turns their order into that of the words.
unfoldable pub int_lt : ℕ → ℕ → Bool
int_lt a b = ltb (u32 (a + 2 ^ 31)) (u32 (b + 2 ^ 31))

unfoldable pub vec_min : Vec2i → Vec2i → Vec2i
unfolding int_lt
vec_min v min = record {
  x = if int_lt v.x min.x then min.x else v.x;
  y = if int_lt v.y min.y then min.y else v.y;
}

unfoldable pub vec_max : Vec2i → Vec2i → Vec2i
unfolding int_lt
vec_max v max = record {
  x = if int_lt max.x v.x then max.x else v.x;
  y = if int_lt max.y v.y then max.y else v.y;
}

-- `zpl_abs` of an `int`
unfoldable pub int_abs : ℕ → ℕ
int_abs a = if ltb a (2 ^ 31) then a else u32 (2 ^ 32 - a)

unfoldable pub manhattan_distance : Vec2i → Vec2i → ℕ
unfolding int_abs int_lt
manhattan_distance v o =
    let x_length = int_abs (sub32 v.x o.x) in
    let y_length = int_abs (sub32 v.y o.y) in
    if int_lt y_length x_length then x_length else y_length

unfoldable pub equal : Vec2i → Vec2i → Bool
equal left right = left.x == right.x && left.y == right.y

unfoldable pub not_equal : Vec2i → Vec2i → Bool
not_equal left right = not (left.x == right.x) || not (left.y == right.y)
