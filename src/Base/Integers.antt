-- ===== src/Base/Integers.antt =====
-- Python's int, where it may be below 0.
use Prim.Native.Nat.{ℕ, suc}
use Prim.Native.String.{String, ◌++◌}
use indy_perf.Base.Texts.{show}

pub data ℤ : Type 0 where
  pos negsuc : ℕ → ℤ

-- str(i)
unfoldable pub show_int : ℤ → String
show_int (pos n) = show n
show_int (negsuc n) = "-" ++ show (suc n)
