-- ===== src/Common/Clock.antt =====
-- Go's `time`: instants and durations in nanoseconds.
-- An instant counts from the zero time, so `IsZero` is `t ≡ zero_time`.
use mathlib.Core.Path.{◌≡◌}
use mathlib.Core.Bool.{Bool}
use native.Mathlib.Omega.{arith}
use Prim.Native.Nat.{◌*◌, ◌+◌}
use go_backend_kit.Common.Tests.{if◌then◌else◌}
use go_backend_kit.Common.Int.{ℤ, pos, negsuc, ◌+ℤ◌, ◌-ℤ◌, ltb_ℤ, eq_ℤ, InInt64}

abbrev pub Time : Type 0
Time = ℤ

abbrev pub Duration : Type 0
Duration = ℤ

abbrev pub zero_time : Time
zero_time = pos 0

abbrev pub is_zero : Time → Bool
is_zero t = eq_ℤ t zero_time

-- `a.After(b)` and `a.Before(b)`
abbrev pub after : Time → Time → Bool
after a b = ltb_ℤ b a

abbrev pub before : Time → Time → Bool
before a b = ltb_ℤ a b

-- `t.Add(d)`
abbrev pub add_time : Time → Duration → Time
add_time t d = t +ℤ d

abbrev pub max_int64 : ℤ
max_int64 = pos 9223372036854775807

abbrev pub min_int64 : ℤ
min_int64 = negsuc 9223372036854775807

-- A difference out of range becomes the nearest duration.
abbrev pub saturate : ℤ → ℤ
saturate z = if ltb_ℤ max_int64 z then max_int64 else if ltb_ℤ z min_int64 then min_int64 else z

-- `a.Sub(b)`
unfoldable pub sub_time : Time → Time → Duration
sub_time a b = saturate (a -ℤ b)

abbrev pub seconds : ℤ → Duration
seconds (pos n) = pos (n * 1000000000)
seconds (negsuc n) = negsuc (n * 1000000000 + 999999999)

pub sub_time-InInt64 : (a b : Time) → InInt64 (sub_time a b)
unfolding sub_time
sub_time-InInt64 a b = ground arith

pub sub_time_self : (a : Time) → sub_time a a ≡ pos 0
unfolding sub_time ◌-ℤ◌
sub_time_self a = ground arith
