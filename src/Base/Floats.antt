-- ===== src/Base/Floats.antt =====
-- `f32`, as its bit pattern, with the operations that the program makes. The language fixes them
-- (IEEE 754); they are passed as a record, so that what is proved holds whatever they return.
use distributed_processing_e.Base.{ℕ}

abbrev pub F32 : Type 0
F32 = ℕ

-- 0.0 and 100.0
abbrev pub f32_zero : F32
f32_zero = 0

abbrev pub f32_hundred : F32
f32_hundred = 0x42c80000

pub record Floats : Type 0 where
  -- `n as f32`
  pub of_usize : ℕ → F32
  pub div : F32 → F32 → F32
  pub mul : F32 → F32 → F32
  -- `x as u32`, which saturates
  pub to_u32 : F32 → ℕ
