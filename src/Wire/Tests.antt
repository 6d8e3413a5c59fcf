-- ===== src/Wire/Tests.antt =====
-- Runs of the byte order functions, and their theorem at a value of tests/ntohll.c.
use galaxie.Prelude.{◌≡◌, refl, ◌∷◌, []}
use galaxie.Wire.{be32, swap32, ntohll}

be32_run : be32 0xdeadbeef ≡ 0xde ∷ 0xad ∷ 0xbe ∷ 0xef ∷ []
unfolding be32
be32_run = refl

ntohll_run : ntohll swap32 0x0123456789abcdef ≡ 0xefcdab8967452301
unfolding ntohll swap32
ntohll_run = refl
