-- ===== src/Files/Transfer.antt =====
-- crates/mymesh-files/src/transfer.rs: the host's side of the file channel. The operating system's
-- calls are a parameter, on a state that only they know; `mode` is part of what they tell.
pub mod Confined
pub mod Resumed
use my_mesh.Base.{
  ℕ, ◌+◌, ◌-◌, ◌/◌, Bool, true, false, Option, none, some, List, [], ◌∷◌, ◌++◌, map, arith,
  if◌then◌else◌, ◌==◌, nat_eq, text_eq, protocol, Result, ok, err, panic, ◌>>=◌, ◌>>◌, Text, text,
  text_lt, sort_by, ℤ,
}
use my_mesh.Protocol.Messages.{
  FileEntry, FileMessage, list, list_result, stat, stat_result, get, put, chunk, done, mkdir,
  remove, rename, error,
}
use my_mesh.Files.Sandbox.{resolve, pop}
use my_mesh.Files.Chunks.{u64_max, Reader, Chunk, get_loop}

pub record Meta : Type 0 where
  pub is_dir : Bool
  pub len : ℕ
  pub modified : Option ℤ
  pub mode : ℕ

abbrev pub PathBuf : Type 0
PathBuf = List Text

-- `std::fs`: what the calls of the source give, and what they leave.
pub record Os (S : Type 0) : Type 0 where
  pub read_dir : PathBuf → S → Result (List (Text × Meta))
  pub metadata : PathBuf → S → Result Meta
  pub is_dir : PathBuf → S → Bool
  -- `File::open` and `seek`.
  pub open_file : PathBuf → S → Result Reader
  pub create_dir_all : PathBuf → S → Result (Unit {0}) × S
  -- `OpenOptions`, with `create` and `write`, and whether to truncate.
  pub open_for_write : Bool → PathBuf → S → Result (Unit {0}) × S
  -- `seek` and `write_all`.
  pub write_all : PathBuf → ℕ → Text → S → Result (Unit {0}) × S
  pub remove_dir_all : PathBuf → S → Result (Unit {0}) × S
  pub remove_dir : PathBuf → S → Result (Unit {0}) × S
  pub remove_file : PathBuf → S → Result (Unit {0}) × S
  pub rename : PathBuf → PathBuf → S → Result (Unit {0}) × S

-- `trim_end_matches('/')`.
unfoldable pub trim_slashes : Text → Text
trim_slashes [] = []
trim_slashes (c ∷ s) = elim (trim_slashes s) [
  | [] ↦ if c == 47 then [] else c ∷ []
  | d ∷ t ↦ c ∷ d ∷ t
]

unfoldable pub entry_in : Text → Text × Meta → FileEntry
unfolding trim_slashes
entry_in path (name, meta) = record {
  name = name;
  path = trim_slashes path ++ text "/" ++ name;
  is_dir = meta.is_dir;
  size = meta.len;
  modified = meta.modified;
  mode = meta.mode;
}

-- `file_name().unwrap_or_default()`.
unfoldable pub last_name : PathBuf → Text
last_name [] = []
last_name (x ∷ []) = x
last_name (x ∷ y ∷ p) = last_name (y ∷ p)

unfoldable pub entry_of : PathBuf → Text → Meta → FileEntry
unfolding last_name
entry_of p path meta = record {
  name = last_name p;
  path = path;
  is_dir = meta.is_dir;
  size = meta.len;
  modified = meta.modified;
  mode = meta.mode;
}

-- `length.unwrap_or(u64::MAX)`.
abbrev wanted : Option ℕ → ℕ
wanted none = u64_max
wanted (some n) = n

-- What the loop of `Get` sent, and the message at its end.
unfoldable pub get_replies : Text → ℕ → List Chunk × ℕ → List FileMessage
get_replies path offset (chunks, end) =
    map (λ c. chunk c.0 c.1) chunks ++ done path (end - offset) ∷ []

-- The replies to a call that only changes files.
unfoldable pub answered :
    {S : Type 0} → List FileMessage → Result (Unit {0}) × S → Result (List FileMessage) × S
answered replies (r, s) = (r >> ok replies, s)

unfoldable pub both_paths : PathBuf → Text → Text → Result (PathBuf × PathBuf)
both_paths root source target = do a ← resolve root source; b ← resolve root target; ok (a, b)

module _ {S : Type 0} (os : Os S) (root : PathBuf) where
  get_file : ℕ → PathBuf → Text → ℕ → Option ℕ → S → Option (Result (List FileMessage))
  unfolding get_replies
  get_file fuel p path offset len s = elim (os.open_file p s) [
    | err e ↦ some (err e)
    | panic ↦ some panic
    | ok read ↦ elim (get_loop fuel read (wanted len) offset) [
      | none ↦ none
      | some r ↦ some (do sent ← r; ok (get_replies path offset sent))
    ]
  ]

  put_file : PathBuf → ℕ → S → Result (Unit {0}) × S
  put_file p resume_from s =
      let opened = os.open_for_write (resume_from == 0) p in
      elim (pop p) [
        | none ↦ opened s
        | some parent ↦
            let (r, s') = os.create_dir_all parent s in
            elim r [ ok _ ↦ opened s' | err e ↦ (err e, s') | panic ↦ (panic, s') ]
      ]

  remove_path : PathBuf → Bool → S → Result (Unit {0}) × S
  remove_path p true s =
      let (r, s') = os.remove_dir_all p s in
      elim r [ ok _ ↦ (ok tt, s') | err e ↦ os.remove_file p s' | panic ↦ (panic, s') ]
  remove_path p false s = if os.is_dir p s then os.remove_dir p s else os.remove_file p s

  -- What a message does once its path is resolved; `Get` runs out of fuel as nothing.
  on_path : ℕ → FileMessage → PathBuf → S → Option (Result (List FileMessage) × S)
  unfolding entry_in entry_of get_file put_file remove_path answered
  on_path fuel (list path) p s = some (
    (do
      found ← os.read_dir p s
      ok (list_result (sort_by (λ a b. text_lt a.name b.name) (map (entry_in path) found)) ∷ [])),
    s,
  )
  on_path fuel (stat path) p s =
      some ((do meta ← os.metadata p s; ok (stat_result (entry_of p path meta) ∷ [])), s)
  on_path fuel (get path offset len) p s = elim (get_file fuel p path offset len s) [
    | none ↦ none
    | some r ↦ some (r, s)
  ]
  on_path fuel (put path size mode resume_from) p s = some (answered [] (put_file p resume_from s))
  on_path fuel (mkdir path) p s = some (answered (done path 0 ∷ []) (os.create_dir_all p s))
  on_path fuel (remove path recursive) p s =
      some (answered (done path 0 ∷ []) (remove_path p recursive s))
  on_path fuel _ p s = some (ok [], s)

  -- The messages with one path.
  at_path : ℕ → Text → FileMessage → S → Option (Result (List FileMessage) × S)
  unfolding on_path
  at_path fuel path m s = elim (resolve root path) [
    | ok p ↦ on_path fuel m p s
    | err e ↦ some (err e, s)
    | panic ↦ some (panic, s)
  ]

  unfoldable pub apply_host_message :
      (debug : FileMessage → Text) → ℕ → FileMessage → S → Option (Result (List FileMessage) × S)
  unfolding at_path answered both_paths
  apply_host_message debug fuel (list path) s = at_path fuel path (list path) s
  apply_host_message debug fuel (stat path) s = at_path fuel path (stat path) s
  apply_host_message debug fuel (get path offset len) s = at_path fuel path (get path offset len) s
  apply_host_message debug fuel (put path size mode resume_from) s =
      at_path fuel path (put path size mode resume_from) s
  apply_host_message debug fuel (chunk offset bytes) s =
      some (err (protocol (text "Chunk must be handled via write_chunk with active path")), s)
  apply_host_message debug fuel (mkdir path) s = at_path fuel path (mkdir path) s
  apply_host_message debug fuel (remove path recursive) s =
      at_path fuel path (remove path recursive) s
  apply_host_message debug fuel (rename source target) s =
      some (elim (both_paths root source target) [
        | ok (a, b) ↦ answered (done target 0 ∷ []) (os.rename a b s)
        | err e ↦ (err e, s)
        | panic ↦ (panic, s)
      ])
  apply_host_message debug fuel m s =
      some (ok (error (text "host cannot handle " ++ debug m) ∷ []), s)

  unfoldable pub write_chunk : Text → ℕ → Text → S → Result (Unit {0}) × S
  write_chunk path offset bytes s = elim (resolve root path) [
    | err e ↦ (err e, s)
    | panic ↦ (panic, s)
    | ok p ↦
        let (r, s') = os.open_for_write false p s in
        elim r [ ok _ ↦ os.write_all p offset bytes s' | err e ↦ (err e, s') | panic ↦ (panic, s') ]
  ]
