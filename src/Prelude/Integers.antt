-- ===== src/Prelude/Integers.antt =====
-- Integers, for differences of times.
use Prim.Native.Nat.{ℕ, suc, ◌-◌}
use nestjs_cqrs_saga.Prelude.Tests.{if◌then◌else◌, leb}

pub data ℤ : Type 0 where
  pos : ℕ → ℤ
  negsuc : ℕ → ℤ

-- `m - n`
abbrev pub minus : ℕ → ℕ → ℤ
minus m n = if leb n m then pos (m - n) else negsuc (n - suc m)
