-- ===== src/Common/Strings.antt =====
-- C strings, as lists of the bytes before the NUL, and buffers that hold them.
use Prim.Native.Nat.{ℕ, suc, ◌+◌}
use mathlib.Core.Bool.{Bool, true, false, ◌&&◌}
use mathlib.Core.List.{List, [], ◌∷◌}
use mathlib.Core.Option
use mathlib.Core.Option.{Option, none, some}
use c_utilities.Common.Tests.{ltb, ◌==◌, if◌then◌else◌}
use c_utilities.Common.Lists.{length, set}
use c_utilities.Common.Run.{Run, done, fault}

abbrev pub Bytes : Type 0
Bytes = List ℕ

-- strcmp(s, t) == 0
abbrev pub same : Bytes → Bytes → Bool
same [] [] = true
same [] (y ∷ t) = false
same (x ∷ s) [] = false
same (x ∷ s) (y ∷ t) = x == y && same s t

-- strlen of what is left of a buffer: `none` when it has no NUL
abbrev pub strlen : Bytes → Option ℕ
strlen [] = none
strlen (x ∷ s) = let rest = strlen s in if x == 0 then some 0 else Option.map suc rest

-- Bytes stored one after the other from offset `p` on.
abbrev pub write_at : Bytes → ℕ → Bytes → Run Bytes
write_at buffer p [] = done buffer
write_at buffer p (x ∷ s) =
    let rest = write_at (set buffer p x) (p + 1) s in if ltb p (length buffer) then rest else fault
