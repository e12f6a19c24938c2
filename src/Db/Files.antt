-- ===== src/Db/Files.antt =====
-- An os.File as internal/db/io uses it: its bytes and a cursor, with the reads and writes that stop
-- at the end of the file or extend it. A device does not fail.
pub mod Overwrite
pub mod Equality
use scouter_server_go.Common.{
  ℕ, zero, suc, ◌+◌, ◌-◌, ◌*◌, ◌/◌, ◌%◌, ◌^◌, ◌==◌, Bool, true, false, ◌&&◌, Option, List, [], ◌∷◌,
  ◌++◌, length, take, drop, leb, ltb, none, some, if◌then◌else◌,
}

-- What an operation of the package returns. `end_of_file` is io.EOF, `bad_offset` what a seek or a
-- read at a negative offset returns, the others the errors that the package makes. `panic` is a
-- run-time panic; `stuck` is no outcome of the program: a loop of the model ran out of fuel.
pub data FileError : Type 0 where
  end_of_file : FileError
  bad_offset : FileError
  beyond_buffer : FileError
  truncated_length : FileError
  invalid_key : FileError

pub data Outcome {ℓ} (A : Type ℓ) : Type ℓ where
  ok : A → Outcome A
  err : FileError → Outcome A
  panic : Outcome A
  stuck : Outcome A

pub record File : Type 0 where
  pub content : List ℕ
  pub cursor : ℕ

-- The first `n` bytes, with zeros behind the last one: a buffer that a short read filled.
unfoldable pub padded : ℕ → List ℕ → List ℕ
padded zero xs = []
padded (suc n) [] = 0 ∷ padded n []
padded (suc n) (x ∷ xs) = x ∷ padded n xs

-- `xs[lo:lo+n]`
abbrev pub slice : ℕ → ℕ → List ℕ → List ℕ
slice lo n xs = take n (drop lo xs)

-- `Seek(pos, 0)`
unfoldable pub seek : ℕ → File → Outcome File
seek pos f = if ltb pos (2 ^ 63) then ok (record f { cursor = pos }) else err bad_offset

-- `Seek(n, 1)` forward.
unfoldable pub seek_by : ℕ → File → File
seek_by n f = record f { cursor = f.cursor + n }

-- `Read` of `n` bytes: at least one, or the end of the file.
unfoldable pub read : ℕ → File → Outcome (List ℕ × File)
read n f =
    if n == 0
    then ok ([], f)
    else if leb (length f.content) f.cursor
    then err end_of_file
    else (let got = take n (drop f.cursor f.content) in
        ok (padded n got, record f { cursor = f.cursor + length got }))

-- The bytes that `ReadAt` finds for a buffer of `n` bytes.
unfoldable pub read_at : ℕ → ℕ → File → List ℕ
read_at n pos f = slice pos n f.content

-- `b` over the bytes from `pos` on; a gap behind the end is filled with zeros.
unfoldable pub overwrite : ℕ → List ℕ → List ℕ → List ℕ
overwrite pos [] xs = xs
overwrite pos (b ∷ bs) xs = padded pos xs ++ ((b ∷ bs) ++ drop (pos + length (b ∷ bs)) xs)

-- `Write` at the cursor.
unfoldable pub write : List ℕ → File → File
write b f = record f { content = overwrite f.cursor b f.content; cursor = f.cursor + length b }

abbrev pub then_with {ℓ κ} : {A : Type ℓ} {B : Type κ} → Outcome A → (A → Outcome B) → Outcome B
then_with (ok a) f = f a
then_with (err e) f = err e
then_with panic f = panic
then_with stuck f = stuck

infixl 5 ◌>>=◌
abbrev pub ◌>>=◌ {ℓ κ} : {A : Type ℓ} {B : Type κ} → Outcome A → (A → Outcome B) → Outcome B
m >>= f = then_with m f

-- `bytes.Equal`
unfoldable pub bytes_equal : List ℕ → List ℕ → Bool
bytes_equal [] [] = true
bytes_equal (x ∷ xs) (y ∷ ys) = x == y && bytes_equal xs ys
bytes_equal xs ys = false
