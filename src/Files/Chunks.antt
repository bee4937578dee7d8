-- ===== src/Files/Chunks.antt =====
-- crates/mymesh-files/src/transfer.rs: a file goes over in chunks, and is written chunk by chunk.
pub mod Resume
use my_mesh.Base.{
  ℕ, zero, suc, ◌+◌, ◌-◌, min, Option, none, some, List, [], ◌∷◌, ◌++◌, arith, length, take, drop,
  nat_eq, text_eq, Result, ok, err, panic, ◌>>=◌, ◌>>◌, Text,
}

abbrev pub chunk_size : ℕ
chunk_size = 65536

abbrev pub u64_max : ℕ
u64_max = 18446744073709551615

-- What `read` gives of an open file, from a position and for a number of bytes that is wanted: it may
-- give fewer, and gives none at the end.
abbrev pub Reader : Type 0
Reader = ℕ → ℕ → Result Text

abbrev pub Chunk : Type 0
Chunk = ℕ × Text

-- The loop of `Get`: what it sent, and the position that it reached. The fuel bounds the reads.
unfoldable pub get_loop : ℕ → Reader → ℕ → ℕ → Option (Result (List Chunk × ℕ))
get_loop fuel read zero at = some (ok ([], at))
get_loop zero read (suc remaining) at = none
get_loop (suc fuel) read (suc remaining) at = elim (read at (min (suc remaining) chunk_size)) [
  | err e ↦ some (err e)
  | panic ↦ some panic
  | ok [] ↦ some (ok ([], at))
  | ok (b ∷ bytes) ↦
      let n = length (b ∷ bytes) in
      elim (get_loop fuel read (suc remaining - n) (at + n)) [
        | none ↦ none
        | some (err e) ↦ some (err e)
        | some panic ↦ some panic
        | some (ok (chunks, end)) ↦ some (ok ((at, b ∷ bytes) ∷ chunks, end))
      ]
]

-- What `seek` and `write_all` leave of the bytes of a file, from a position that is not past its end.
unfoldable pub write_at : ℕ → Text → Text → Text
write_at offset bytes content = take offset content ++ bytes ++ drop (offset + length bytes) content
