-- ===== src/Prelude/Text.antt =====
-- Texts walked character by character. `len`, `len_utf8`, `slice` and `++` are the native ones, with
-- the meaning of Rust's: lengths and positions count bytes of UTF-8.
use Prim.Native.Char.{code}
use Prim.Native.String.{String}
use Prim.Native.Nat.{ℕ}
use mathlib.Core.Bool.{Bool, true, ◌&&◌, ◌||◌}
use young_agent.Prelude.Tests.{leb, eqb}
pub use Prim.Native.Char.{Char, code, len_utf8}
pub use Prim.Native.String.{◌++◌ as push_str, len, slice}

-- `char::is_whitespace`: the code points with the Unicode property White_Space.
abbrev pub is_whitespace : ℕ → Bool
is_whitespace c =
    (leb 0x09 c && leb c 0x0d)
    || (eqb c 0x20 || eqb c 0x85 || eqb c 0xa0 || eqb c 0x1680)
    || (leb 0x2000 c && leb c 0x200a)
    || (eqb c 0x2028 || eqb c 0x2029 || eqb c 0x202f || eqb c 0x205f || eqb c 0x3000)

-- `s.trim().is_empty()`: every character is white space.
unfoldable pub is_blank : String → Bool
is_blank String.[] = true
is_blank (String.◌∷◌ c s) = is_whitespace (code c) && is_blank s
