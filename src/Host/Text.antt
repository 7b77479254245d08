-- ===== src/Host/Text.antt =====
-- Texts that `format!` builds: the pieces in order, with numbers kept as numbers.
use Prim.Native.Char.{code}
use jolt_ncp.Base.{ℕ, String, List, [], ◌∷◌}

pub data Piece : Type 0 where
  lit : String → Piece
  -- `{}` of a number
  dec : ℕ → Piece
  -- `{:x}` of a number and of a `Byte32`
  hex : ℕ → Piece
  hash_hex : ℕ → Piece
  -- `{}` of an `i8`, given as its byte
  signed : ℕ → Piece
  -- `{:.n}` of the quotient of two numbers as `f64`
  fixed : ℕ → ℕ → ℕ → Piece
  -- text that comes from outside, as its code points
  chars : List ℕ → Piece

abbrev pub Text : Type 0
Text = List Piece

abbrev pub msg : String → Text
msg s = lit s ∷ []

-- The code points of a literal, where the program looks at its characters.
abbrev pub codes : String → List ℕ
codes String.[] = []
codes (String.◌∷◌ letter rest) = code letter ∷ codes rest
