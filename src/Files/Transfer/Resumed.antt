-- ===== src/Files/Transfer/Resumed.antt =====
-- crates/mymesh-files/src/transfer.rs: a file of which a part is there is resumed: the chunks of a
-- `Get` from the end of the part, each written by `write_chunk`.
use my_mesh.Base.{
  ℕ, ◌+◌, ◌-◌, ◌≤◌, ◌<◌, ◌≡◌, refl, sym, ap, ◌∙◌, subst, Bool, true, false, some, none, List, [],
  ◌∷◌, ◌++◌, map, append_assoc, append-nil, arith, length, take, length-append, take-append-drop,
  length-take, nat_eq, text_eq, Result, ok, err, panic, Text,
}
use my_mesh.Protocol.Messages.{FileMessage, get, chunk, done}
use my_mesh.Files.Sandbox.{resolve}
use my_mesh.Files.Chunks.{u64_max, Reader, Chunk, write_at}
use my_mesh.Files.Chunks.Resume.{IsReader, IsSplit, joined, write_at_end, get_loop_rest}
use my_mesh.Files.Transfer.{
  PathBuf, Os, get_replies, get_file, on_path, at_path, apply_host_message, write_chunk,
}

-- That the file at a path can be opened and written, and has a content: an open for writing leaves
-- it, or empties it where it is to truncate, and a write puts the bytes where they are to go.
pub record IsFileAt {S : Type 0} (os : Os S) (p : PathBuf) (content : S → Text) : Type 0 where
  pub opened : (t : Bool) (s : S) → (os.open_for_write t p s).0 ≡ ok tt
  pub kept : (s : S) → content (os.open_for_write false p s).1 ≡ content s
  pub emptied : (s : S) → content (os.open_for_write true p s).1 ≡ []
  pub taken : (at : ℕ) (bytes : Text) (s : S) → (os.write_all p at bytes s).0 ≡ ok tt
  pub written :
      (at : ℕ) (bytes : Text) (s : S)
      → at ≤ length (content s)
      → content (os.write_all p at bytes s).1 ≡ write_at at bytes (content s)

-- `write_chunk` for one chunk after the other; the first that fails ends it.
unfoldable pub write_each :
    {S : Type 0} → Os S → PathBuf → Text → List Chunk → S → Result (Unit {0}) × S
write_each os root path [] s = (ok tt, s)
write_each os root path ((offset, bytes) ∷ chunks) s =
    let (r, s') = write_chunk os root path offset bytes s in
    elim r [ ok _ ↦ write_each os root path chunks s' | err e ↦ (err e, s') | panic ↦ (panic, s') ]

module _ {S : Type 0} (os : Os S) (root : PathBuf) (path : Text) (p : PathBuf) (content : S → Text)
    (at_path : resolve root path ≡ ok p) (file : IsFileAt os p content) where
  -- A chunk for the end of the file is added to it.
  write_chunk_end :
      (bytes : Text) (s : S) (offset : ℕ)
      → offset ≡ length (content s)
      → let (r, s') = write_chunk os root path offset bytes s in
        (r ≡ ok tt) × (content s' ≡ content s ++ bytes)
  unfolding write_chunk
  write_chunk_end bytes s offset at_end =
      let open_one = (os.open_for_write false p s).1 in
      let same : content open_one ≡ content s = file.kept s in
      let inside : offset ≤ length (content open_one) = omega (arith, at_end, ap length same) in
      let put_there =
        file.written offset bytes open_one inside
        ∙ ap (write_at offset bytes) same
        ∙ ap (λ n. write_at n bytes (content s)) at_end
        ∙ write_at_end (content s) bytes in
      ground (arith, at_path, file.opened false s, file.taken offset bytes open_one, put_there)

  write_each_end :
      (chunks : List Chunk) (s : S)
      → IsSplit (length (content s)) chunks
      → let (r, s') = write_each os root path chunks s in
        (r ≡ ok tt) × (content s' ≡ content s ++ joined chunks)
  unfolding write_each IsSplit joined
  write_each_end [] s h = (refl, sym (append-nil (content s)))
  write_each_end ((offset, bytes) ∷ chunks) s (at_end, some_, small, rest) =
      let s' = (write_chunk os root path offset bytes s).1 in
      let (good, added) = write_chunk_end bytes s offset at_end in
      let longer : length (content s) + length bytes ≡ length (content s') =
        sym (ap length added ∙ length-append (content s) bytes) in
      let (all_good, all_added) =
        write_each_end chunks s' (subst (λ n. IsSplit n chunks) longer rest) in
      let whole =
        all_added
        ∙ ap (λ t. t ++ joined chunks) added
        ∙ append_assoc (content s) bytes (joined chunks) in
      ground (arith, good, all_good, whole)

-- A file of less than 2^64 bytes, at a path that resolves and can be opened, of which another host
-- has a part is resumed by one `Get` from the end of the part, whatever number of bytes each read
-- gives: with more fuel than bytes that are left the answer is chunks and then the number of bytes
-- that were left, and changes nothing; and the chunks, given to `write_chunk` one after the other
-- for the part, at a path that resolves and can be opened and written, all succeed and leave the
-- whole file.
pub write_each-get :
    {S T : Type 0}
    → (here : Os S) (there : Os T) (root base : PathBuf) (path name : Text) (p q : PathBuf)
      (content : T → Text) (debug : FileMessage → Text) (c : Text) (read : Reader) (fuel part : ℕ)
      (s : S) (t : T)
    → resolve root path ≡ ok p
    → here.open_file p s ≡ ok read
    → IsReader c read
    → resolve base name ≡ ok q
    → IsFileAt there q content
    → content t ≡ take part c
    → length c ≤ u64_max
    → part ≤ length c
    → length c - part < fuel
    → (chunks : List Chunk) × (apply_host_message here root debug fuel (get path part none) s
        ≡ some (ok (map (λ k. chunk k.0 k.1) chunks ++ done path (length c - part) ∷ []), s))
      × ((write_each there base name chunks t).0 ≡ ok tt)
      × (content (write_each there base name chunks t).1 ≡ c)
unfolding apply_host_message at_path on_path get_file get_replies
write_each-get here there root base path name p q content debug c read fuel part s t resolved found
      reads at_name file has_part fits inside enough =
    let (chunks, ran, split, rest) = get_loop_rest c read fuel part reads fits inside enough in
    let part_length : length (content t) ≡ part =
      ap length has_part ∙ omega (arith, length-take part c, inside) in
    let (good, whole) =
      write_each_end there base name q content at_name file chunks t
        (subst (λ n. IsSplit n chunks) (sym part_length) split) in
    (
      chunks,
      ground (arith, resolved, found, ran),
      good,
      whole
          ∙ ap (λ u. u ++ joined chunks) has_part
          ∙ ap (λ u. take part c ++ u) rest
          ∙ take-append-drop part c,
    )
