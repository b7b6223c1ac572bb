-- ===== src/Transform/Floats.antt =====
-- Rust's `f32`, as a parameter: the type, and the operations of it that the source calls.
use imgx.Base.{ℕ, Text, Bool, Option}

pub record Floats : Type 1 where
  pub F32 : Type 0
  -- `s.parse::<f32>().ok()`
  pub parse : Text → Option F32
  -- the literal `n / 10 ^ k`
  pub literal : ℕ → ℕ → F32
  pub is_nan : F32 → Bool
  pub is_infinite : F32 → Bool
  -- `a == b`, `a <= b` and `a < b`
  pub eq : F32 → F32 → Bool
  pub le : F32 → F32 → Bool
  pub lt : F32 → F32 → Bool
  pub mul : F32 → F32 → F32
  pub min : F32 → F32 → F32
  -- `n as f32` and the saturating `x as u32`
  pub of_u32 : ℕ → F32
  pub to_u32 : F32 → ℕ
  -- `format!("{x:.k}")`
  pub fixed : ℕ → F32 → Text
