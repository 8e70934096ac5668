-- ===== src/Base/Int.antt =====
-- C's `int` results over the native numbers, under the library's names.
use Prim.Native.Nat.{ℕ, ◌-◌}
use mathlib.Core.Bool.{Bool, true, false}
use ocserv_ppa.Base.Tests.{leb, ◌==◌, if◌then◌else◌}

-- `negsuc n` is -(n + 1).
pub data ℤ : Type 0 where
  pos : ℕ → ℤ
  negsuc : ℕ → ℤ

-- a - b, as an integer.
abbrev pub sub_ℕ : ℕ → ℕ → ℤ
sub_ℕ a b = if leb b a then pos (a - b) else negsuc (b - a - 1)

-- `ret < 0`
abbrev pub is_neg : ℤ → Bool
is_neg (pos n) = false
is_neg (negsuc n) = true

-- `ret == 0`
abbrev pub is_zero : ℤ → Bool
is_zero (pos n) = n == 0
is_zero (negsuc n) = false

-- The codes of src/defs.h that the models return.
abbrev pub err_bad_command : ℤ
err_bad_command = negsuc 1

abbrev pub err_auth_fail : ℤ
err_auth_fail = negsuc 2

abbrev pub err_auth_continue : ℤ
err_auth_continue = negsuc 3

abbrev pub err_mem : ℤ
err_mem = negsuc 5

abbrev pub err_no_ip : ℤ
err_no_ip = negsuc 7

abbrev pub is_auth_continue : ℤ → Bool
is_auth_continue (pos n) = false
is_auth_continue (negsuc n) = n == 3
