-- ===== src/Db/Files/Equality.antt =====
-- `bytes.Equal` is equality.
use scouter_server_go.Common.{◌≡◌, refl, true, List, [], ◌∷◌, ℕ, arith}
use scouter_server_go.Db.Files.{bytes_equal}

pub bytes_equal_refl : (xs : List ℕ) → bytes_equal xs xs ≡ true
unfolding bytes_equal
bytes_equal_refl [] = refl
bytes_equal_refl (x ∷ xs) = ground (arith, bytes_equal_refl xs)

pub bytes_equal-eq : (xs ys : List ℕ) → bytes_equal xs ys ≡ true → xs ≡ ys
unfolding bytes_equal
bytes_equal-eq [] [] h = refl
bytes_equal-eq [] (y ∷ ys) h = absurd (ground arith)
bytes_equal-eq (x ∷ xs) [] h = absurd (ground arith)
bytes_equal-eq (x ∷ xs) (y ∷ ys) h = ground (arith, bytes_equal-eq xs ys)
