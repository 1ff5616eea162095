-- ===== src/Base/CLib.antt =====
-- What the C functions of the components return where the answer is only success or failure, and
-- the functions of the C library that several components call.
use Prim.Native.Nat.{ℕ}
use mathlib.Core.List.{List, ◌++◌}
use esp32_components.Base.Lists.{take, replicate}
use esp32_components.Base.Slices.{splice}

-- `done` is 0 (or ESP_OK) and `failed` is a negative return value.
pub data Status : Type 0 where
  done failed : Status

-- `strncpy(dst, src, n)`: at most `n` bytes of `src`, padded with zero bytes. `src` is the text
-- before its terminator.
abbrev pub strncpy : List ℕ → List ℕ → ℕ → List ℕ
strncpy dst src n = splice dst 0 (take n (src ++ replicate n 0))
