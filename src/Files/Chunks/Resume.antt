-- ===== src/Files/Chunks/Resume.antt =====
-- crates/mymesh-files/src/transfer.rs: the chunks of a `Get` follow each other and are the bytes
-- that were asked for; bytes that are written at the end of a file.
use my_mesh.Base.{
  take_add, drop_add, drop_all, take_all, ℕ, zero, suc, ◌+◌, ◌-◌, ◌≤◌, ◌<◌, min, ◌≡◌, refl, sym, ap,
  ◌∙◌, subst, ◌⊎◌, inl, inr, some, List, [], ◌∷◌, ◌++◌, append-nil, arith, length, take, drop,
  length-append, length-take, length-drop, nat_eq, text_eq, ok, Text,
}
use my_mesh.Files.Chunks.{chunk_size, u64_max, Reader, Chunk, get_loop, write_at}

-- A reader gives the bytes of a content from a position: some of those that are wanted, as long as
-- there are any.
unfoldable pub IsReader : Text → Reader → Type 0
IsReader c read =
    (at want : ℕ)
    → 0 < want
    → ((length c ≤ at) × (read at want ≡ ok []))
      ⊎ ((n : ℕ) × (0 < n)
          × (n ≤ want)
          × (at + n ≤ length c)
          × (read at want ≡ ok (take n (drop at c))))

-- Chunks that follow each other from a position, none empty, none over 64 KiB.
unfoldable pub IsSplit : ℕ → List Chunk → Type 0
IsSplit at [] = Unit {0}
IsSplit at ((offset, bytes) ∷ chunks) =
    (offset ≡ at)
    × (0 < length bytes)
    × (length bytes ≤ chunk_size)
    × IsSplit (at + length bytes) chunks

unfoldable pub joined : List Chunk → Text
joined [] = []
joined ((offset, bytes) ∷ chunks) = bytes ++ joined chunks

-- Bytes that are written at the end of a content are added to it.
pub write_at_end : (c bytes : Text) → write_at (length c) bytes c ≡ c ++ bytes
unfolding write_at
write_at_end c bytes =
    rw
      (
        take_all (length c) c (omega arith),
        drop_all (length c + length bytes) c (omega arith),
        append-nil (c ++ bytes),
      )
      refl

no_more : (at : ℕ) → at + 0 ≡ at
no_more at = omega arith

abbrev left : ℕ → Text → ℕ
left at c = length c - at

get_loop_step :
    (read : Reader) (fuel remaining at end : ℕ) (bytes : Text) (chunks : List Chunk)
    → 0 < length bytes
    → read at (min (suc remaining) chunk_size) ≡ ok bytes
    → get_loop fuel read (suc remaining - length bytes) (at + length bytes)
      ≡ some (ok (chunks, end))
    → get_loop (suc fuel) read (suc remaining) at ≡ some (ok ((at, bytes) ∷ chunks, end))
unfolding get_loop
get_loop_step read fuel remaining at end [] chunks h given rest = absurd (omega (arith, h))
get_loop_step read fuel remaining at end (b ∷ bytes) chunks h given rest =
    rw (given, get_loop, rest) refl

-- Where the fuel exceeds the bytes that are left, the loop ends well; its chunks follow each other
-- from the position and are the bytes that were asked for, and it ends where they do.
get_loop_lem :
    (c : Text) (read : Reader)
    → IsReader c read
    → (fuel remaining at : ℕ) → left at c < fuel
    → (chunks : List Chunk) × (get_loop fuel read remaining at
        ≡ some (ok (chunks, at + length (joined chunks))))
      × IsSplit at chunks
      × (joined chunks ≡ take remaining (drop at c))
unfolding get_loop IsSplit joined IsReader
get_loop_lem c read h fuel zero at enough = ([], rw (no_more at) refl, tt, refl)
get_loop_lem c read h zero (suc remaining) at enough = absurd (omega (arith, enough))
get_loop_lem c read h (suc fuel) (suc remaining) at enough =
    elim (h at (min (suc remaining) chunk_size) (omega arith)) [
      | inl (over, nothing) ↦
          ([], rw (nothing, get_loop, no_more at) refl, tt, rw (drop_all at c over) refl)
      | inr (n, positive, wanted, inside, given) ↦
          let bytes = take n (drop at c) in
          let size : length bytes ≡ n =
            omega (arith, length-take n (drop at c), length-drop at c, inside) in
          let (chunks, ran, split, all_) =
            get_loop_lem c read h fuel (suc remaining - n) (at + n)
              (omega (arith, enough, positive, inside)) in
          let whole : n + (suc remaining - n) ≡ suc remaining = omega (arith, wanted) in
          (
            (at, bytes) ∷ chunks,
            get_loop_step read fuel remaining at (at + length (bytes ++ joined chunks)) bytes chunks
                (omega (arith, size, positive)) given
                (subst
                  (λ k.
                    get_loop fuel read (suc remaining - k) (at + k)
                    ≡ some (ok (chunks, at + length (bytes ++ joined chunks))))
                  (sym size)
                  (ran
                    ∙ ap (λ e. some (ok (chunks, e)))
                        (omega (arith, length-append bytes (joined chunks), size)))),
            (
              refl,
              omega (arith, size, positive),
              omega (arith, size, wanted),
              subst (λ k. IsSplit (at + k) chunks) (sym size) split,
            ),
            ap (λ t. bytes ++ t) (all_ ∙ ap (take (suc remaining - n)) (drop_add at n c))
                ∙ sym (take_add n (suc remaining - n) (drop at c))
                ∙ ap (λ k. take k (drop at c)) whole,
          )
    ]

-- One loop from the end of a part ends at the file's length, with chunks that follow each other from
-- there and are the rest of the file.
pub get_loop_rest :
    (c : Text) (read : Reader) (fuel part : ℕ)
    → IsReader c read
    → length c ≤ u64_max
    → part ≤ length c
    → length c - part < fuel
    → (chunks : List Chunk) × (get_loop fuel read u64_max part ≡ some (ok (chunks, length c)))
      × IsSplit part chunks
      × (joined chunks ≡ drop part c)
get_loop_rest c read fuel part h fits there enough =
    let (chunks, ran, split, all_) = get_loop_lem c read h fuel u64_max part enough in
    let rest_length : length (drop part c) ≡ length c - part = length-drop part c in
    let rest : joined chunks ≡ drop part c =
      all_ ∙ take_all u64_max (drop part c) (omega (arith, rest_length, fits)) in
    (
      chunks,
      ran
          ∙ ap (λ n. some (ok (chunks, n)))
              (ap (λ t. part + length t) rest ∙ omega (arith, rest_length, there)),
      split,
      rest,
    )
