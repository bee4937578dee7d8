-- ===== src/Files/Transfer/Confined.antt =====
-- crates/mymesh-files/src/transfer.rs: the host's side touches nothing that is not under the root.
use my_mesh.Base.{
  ℕ, ◌≡◌, refl, inl, inr, Bool, true, false, Option, some, arith, Option-cases, Result-cases, ◌==◌,
  nat_eq, text_eq, Text,
}
use my_mesh.Protocol.Messages.{FileMessage, list, stat, get, put, mkdir, remove, rename}
use my_mesh.Files.Sandbox.{resolve, pop, is_under, resolve-is_under}
use my_mesh.Files.Transfer.{
  PathBuf, Os, get_file, put_file, remove_path, on_path, at_path, both_paths, apply_host_message,
  write_chunk,
}

-- Systems that cannot be told apart by calls on paths under a root, nor by making a directory that
-- holds such a path.
pub record IsSameUnder {S : Type 0} (root : PathBuf) (a b : Os S) : Type 0 where
  pub read_dir : (p : PathBuf) → is_under p root ≡ true → (s : S) → a.read_dir p s ≡ b.read_dir p s
  pub metadata : (p : PathBuf) → is_under p root ≡ true → (s : S) → a.metadata p s ≡ b.metadata p s
  pub is_dir : (p : PathBuf) → is_under p root ≡ true → (s : S) → a.is_dir p s ≡ b.is_dir p s
  pub open_file :
      (p : PathBuf) → is_under p root ≡ true → (s : S) → a.open_file p s ≡ b.open_file p s
  pub create_dir_all :
      (p : PathBuf) → is_under p root ≡ true → (s : S) → a.create_dir_all p s ≡ b.create_dir_all p s
  pub create_parent :
      (p q : PathBuf)
      → is_under p root ≡ true
      → pop p ≡ some q
      → (s : S) → a.create_dir_all q s ≡ b.create_dir_all q s
  pub open_for_write :
      (t : Bool) (p : PathBuf)
      → is_under p root ≡ true
      → (s : S) → a.open_for_write t p s ≡ b.open_for_write t p s
  pub write_all :
      (p : PathBuf)
      → is_under p root ≡ true
      → (n : ℕ) (t : Text) (s : S) → a.write_all p n t s ≡ b.write_all p n t s
  pub remove_dir_all :
      (p : PathBuf) → is_under p root ≡ true → (s : S) → a.remove_dir_all p s ≡ b.remove_dir_all p s
  pub remove_dir :
      (p : PathBuf) → is_under p root ≡ true → (s : S) → a.remove_dir p s ≡ b.remove_dir p s
  pub remove_file :
      (p : PathBuf) → is_under p root ≡ true → (s : S) → a.remove_file p s ≡ b.remove_file p s
  pub rename :
      (p q : PathBuf)
      → is_under p root ≡ true
      → is_under q root ≡ true
      → (s : S) → a.rename p q s ≡ b.rename p q s

module _ {S : Type 0} (root : PathBuf) (a b : Os S) (same : IsSameUnder root a b) where
  get_file_same :
      (fuel : ℕ) (p : PathBuf) (path : Text) (offset : ℕ) (len : Option ℕ) (s : S)
      → is_under p root ≡ true
      → get_file a root fuel p path offset len s ≡ get_file b root fuel p path offset len s
  unfolding get_file
  get_file_same fuel p path offset len s u = ground (arith, same.open_file p u s)

  put_file_same :
      (p : PathBuf) (resume : ℕ) (s : S)
      → is_under p root ≡ true
      → put_file a root p resume s ≡ put_file b root p resume s
  unfolding put_file
  put_file_same p resume s u = elim (Option-cases (pop p)) [
    | inl e ↦ ground (arith, e, same.open_for_write (resume == 0) p u s)
    | inr (q, e) ↦ ground (
      arith,
      e,
      same.create_parent p q u e s,
      same.open_for_write (resume == 0) p u (a.create_dir_all q s).1,
    )
  ]

  remove_path_same :
      (p : PathBuf) (recursive : Bool) (s : S)
      → is_under p root ≡ true
      → remove_path a root p recursive s ≡ remove_path b root p recursive s
  unfolding remove_path
  remove_path_same p true s u =
      ground (arith, same.remove_dir_all p u s, same.remove_file p u (a.remove_dir_all p s).1)
  remove_path_same p false s u =
      ground (arith, same.is_dir p u s, same.remove_dir p u s, same.remove_file p u s)

  on_path_same :
      (fuel : ℕ) (m : FileMessage) (p : PathBuf) (s : S)
      → is_under p root ≡ true
      → on_path a root fuel m p s ≡ on_path b root fuel m p s
  unfolding on_path
  on_path_same fuel (list path) p s u = ground (arith, same.read_dir p u s)
  on_path_same fuel (stat path) p s u = ground (arith, same.metadata p u s)
  on_path_same fuel (get path offset len) p s u =
      ground (arith, get_file_same fuel p path offset len s u)
  on_path_same fuel (put path size mode resume) p s u = ground (arith, put_file_same p resume s u)
  on_path_same fuel (mkdir path) p s u = ground (arith, same.create_dir_all p u s)
  on_path_same fuel (remove path recursive) p s u = ground (arith, remove_path_same p recursive s u)
  on_path_same fuel _ p s u = refl

  at_path_same :
      (fuel : ℕ) (path : Text) (m : FileMessage) (s : S)
      → at_path a root fuel path m s ≡ at_path b root fuel path m s
  unfolding at_path
  at_path_same fuel path m s = elim (Result-cases (resolve root path)) [
    | inr bad ↦ ground (arith, bad)
    | inl (p, e) ↦ rw (e, at_path) (on_path_same fuel m p s (resolve-is_under root p path e))
  ]

  rename_same :
      (debug : FileMessage → Text) (fuel : ℕ) (source target : Text) (s : S)
      → apply_host_message a root debug fuel (rename source target) s
        ≡ apply_host_message b root debug fuel (rename source target) s
  unfolding apply_host_message both_paths
  rename_same debug fuel source target s = elim (Result-cases (resolve root source)) [
    | inr bad ↦ ground (arith, bad)
    | inl (p, e) ↦ elim (Result-cases (resolve root target)) [
      | inr bad ↦ ground (arith, e, bad)
      | inl (q, f) ↦
          let u = resolve-is_under root p source e in
          let v = resolve-is_under root q target f in ground (arith, e, f, same.rename p q u v s)
    ]
  ]

  -- Systems that cannot be told apart by calls on paths under the root, or by making a directory
  -- that holds such a path, answer every message the same and are left the same.
  pub apply_host_message_confined :
      (debug : FileMessage → Text) (fuel : ℕ) (m : FileMessage) (s : S)
      → apply_host_message a root debug fuel m s ≡ apply_host_message b root debug fuel m s
  unfolding apply_host_message
  apply_host_message_confined debug fuel (list path) s = at_path_same fuel path (list path) s
  apply_host_message_confined debug fuel (stat path) s = at_path_same fuel path (stat path) s
  apply_host_message_confined debug fuel (get path offset len) s =
      at_path_same fuel path (get path offset len) s
  apply_host_message_confined debug fuel (put path size mode resume) s =
      at_path_same fuel path (put path size mode resume) s
  apply_host_message_confined debug fuel (mkdir path) s = at_path_same fuel path (mkdir path) s
  apply_host_message_confined debug fuel (remove path recursive) s =
      at_path_same fuel path (remove path recursive) s
  apply_host_message_confined debug fuel (rename source target) s =
      rename_same debug fuel source target s
  apply_host_message_confined debug fuel _ s = refl

  -- The same of a chunk that is written.
  pub write_chunk_confined :
      (path : Text) (offset : ℕ) (bytes : Text) (s : S)
      → write_chunk a root path offset bytes s ≡ write_chunk b root path offset bytes s
  unfolding write_chunk
  write_chunk_confined path offset bytes s = elim (Result-cases (resolve root path)) [
    | inr bad ↦ ground (arith, bad)
    | inl (p, e) ↦
        let u = resolve-is_under root p path e in
        ground (
          arith,
          e,
          same.open_for_write false p u s,
          same.write_all p u offset bytes (a.open_for_write false p s).1,
        )
  ]
