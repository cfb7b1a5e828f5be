-- ===== src/Prelude/Update.antt =====
-- A map from numbers as a function, with one key written.
use Prim.Native.Nat.{ℕ}
use nbdpsy_mcp.Prelude.Tests.{◌==◌, if◌then◌else◌}

module _ {ℓ} {V : Type ℓ} (old : ℕ → V) (key : ℕ) (value : V) where
  abbrev pub update : ℕ → V
  update k = if key == k then value else old k
