-- ===== src/Examples/Services.antt =====
-- The statements on the mailbox, on the transfer of files and on names, tried.
use my_mesh.Base.{
  ℕ, suc, ◌≤◌, ◌≡◌, refl, ap, ◌⊎◌, inl, inr, true, false, none, some, List, [], ◌∷◌, ◌++◌, arith,
  ℕ_discrete, leb, if◌then◌else◌, Bool-cases, length, take, drop, map, replicate, text_discrete,
  nat_eq, text_eq, io, Result, ok, err, Text, text, text_lt, trim, to_ascii_lowercase, join, be16,
  be32, sort_by,
}
use my_mesh.Base.{drop_all, starts_with}
use my_mesh.Base.Dict.{lookup, insert}
use my_mesh.Core.Identity.{DeviceId, DeviceId-discrete, id_eq}
use my_mesh.Core.MeshIp.{mesh_ipv4}
use my_mesh.Core.Device.{DeviceRecord, get, list}
use my_mesh.Core.Device.Naming.{resolve_query}
use my_mesh.Core.Device.Naming.Resolve.{resolve_query_sound}
use my_mesh.Protocol.Messages.{reject, FileMessage, stat, chunk, done}
use my_mesh.Net.Rendezvous.{Use, sends, receives, run}
use my_mesh.Net.Rendezvous.Lanes.{taken, pushed, matched, unmatched}
use my_mesh.Net.Rendezvous.Fifo.{lane_of, uses_of, handed, run_lem}
use my_mesh.Files.Sandbox.{is_under, resolve}
use my_mesh.Files.Chunks.{Reader, Chunk, write_at}
use my_mesh.Files.Chunks.Resume.{IsReader}
use my_mesh.Files.Transfer.{Meta, PathBuf, Os, apply_host_message}
use my_mesh.Files.Transfer.Confined.{IsSameUnder, apply_host_message_confined}
use my_mesh.Files.Transfer.Resumed.{IsFileAt, write_each, write_each-get}
use my_mesh.Session.Magic.{
  Utf8, ParseIp, NameMap, Plane, trim_dots, trim_end_dots, push_name, push_names, push_devices,
  name_map, resolve_host,
}
use my_mesh.Session.Magic.Dns.{octets_of, build_dns_response}
use my_mesh.Session.Magic.Query.{wire, build_dns_response-wire}
use my_mesh.Session.Magic.Names.{HasAll, resolve_host_known}
use my_mesh.Examples.Plain.{plain_hex, plain_unicode}
use my_mesh.Examples.Devices.{alice, bob, laptop, phone, two_device_store, two_devices-IsKeyed}

-- A guest asks before the host has told anything; another pairing goes on under another code.
abbrev code : Text
code = 52 ∷ 50 ∷ []

abbrev history : List Use
history =
    receives code false 7
    ∷ sends code true (reject (1 ∷ []))
    ∷ sends (52 ∷ []) true (reject [])
    ∷ sends code true (reject (2 ∷ []))
    ∷ receives code false 8
    ∷ []

run_lem_example :
    (handed code true (run history []).0
      ≡ matched (taken (uses_of code true history)) (pushed (uses_of code true history)))
    × (lane_of code true (run history []).1
        ≡ unmatched (taken (uses_of code true history)) (pushed (uses_of code true history)))
run_lem_example = run_lem code true history

-- A file of three bytes, which is read byte by byte.
abbrev pub three : Text
three = 10 ∷ 20 ∷ 30 ∷ []

abbrev pub slow : Reader
slow at want = ok (take 1 (drop at three))

slow-IsReader : IsReader three slow
unfolding IsReader
slow-IsReader at want h = elim (Bool-cases (leb (length three) at)) [
  | inl over ↦
      let past : length three ≤ at = ground (arith, over) in
      inl (past, ap (λ (t : Text). ok (take 1 t)) (drop_all at three past))
  | inr before ↦ inr (1, omega arith, h, ground (arith, before), refl)
]

-- A system in which what is outside of a root answers with a number.
abbrev pub root : PathBuf
root = (115 ∷ []) ∷ []

abbrev pub a_file : Meta
a_file = record { is_dir = false; len = 3; modified = none; mode = 420 }

abbrev pub fine : ℕ → Result (Unit {0}) × ℕ
fine s = (ok tt, suc s)

abbrev pub system : ℕ → Os ℕ
system n = record {
  read_dir = λ p s. if is_under p root then ok [] else err (io n);
  metadata = λ p s. if is_under p root then ok a_file else err (io n);
  is_dir = λ p s. false;
  open_file = λ p s. if is_under p root then ok slow else err (io n);
  create_dir_all = λ p s. fine s;
  open_for_write = λ t p s. fine s;
  write_all = λ p at bytes s. fine s;
  remove_dir_all = λ p s. fine s;
  remove_dir = λ p s. fine s;
  remove_file = λ p s. fine s;
  rename = λ p q s. fine s;
}

-- A system that has one file.
abbrev one_file : Os Text
one_file = record {
  read_dir = λ p s. ok [];
  metadata = λ p s. ok a_file;
  is_dir = λ p s. false;
  open_file = λ p s. ok slow;
  create_dir_all = λ p s. (ok tt, s);
  open_for_write = λ t p s. (ok tt, if t then [] else s);
  write_all = λ p at bytes s. (ok tt, write_at at bytes s);
  remove_dir_all = λ p s. (ok tt, s);
  remove_dir = λ p s. (ok tt, s);
  remove_file = λ p s. (ok tt, s);
  rename = λ p q s. (ok tt, s);
}

abbrev b_path : PathBuf
b_path = (115 ∷ []) ∷ (98 ∷ []) ∷ []

resolves_b : resolve root (98 ∷ []) ≡ ok b_path
unfolding resolve starts_with text text_discrete ℕ_discrete
resolves_b = refl

one_file-IsFileAt : IsFileAt one_file b_path (λ s. s)
one_file-IsFileAt = record {
  opened = λ t s. refl;
  kept = λ s. refl;
  emptied = λ s. refl;
  taken = λ at bytes s. refl;
  written = λ at bytes s h. refl;
}

write_each-get_example :
    (chunks : List Chunk) × (apply_host_message
        (system 2)
        root
        (λ m. [])
        4
        (FileMessage.get (98 ∷ []) 1 none)
        0
      ≡ some (ok (map (λ k. chunk k.0 k.1) chunks ++ done (98 ∷ []) 2 ∷ []), 0))
    × ((write_each one_file root (98 ∷ []) chunks (10 ∷ [])).0 ≡ ok tt)
    × ((write_each one_file root (98 ∷ []) chunks (10 ∷ [])).1 ≡ three)
unfolding is_under text_discrete ℕ_discrete
write_each-get_example =
    write_each-get (system 2) one_file root root (98 ∷ []) (98 ∷ []) b_path b_path (λ s. s)
      (λ m. []) three slow 4 1 0 (10 ∷ []) resolves_b refl slow-IsReader resolves_b
      one_file-IsFileAt refl (omega arith) (omega arith) (omega arith)

systems_same : IsSameUnder root (system 13) (system 2)
systems_same = record {
  read_dir = λ p u s. ground (arith, u);
  metadata = λ p u s. ground (arith, u);
  is_dir = λ p u s. refl;
  open_file = λ p u s. ground (arith, u);
  create_dir_all = λ p u s. refl;
  create_parent = λ p q u e s. refl;
  open_for_write = λ t p u s. refl;
  write_all = λ p u at bytes s. refl;
  remove_dir_all = λ p u s. refl;
  remove_dir = λ p u s. refl;
  remove_file = λ p u s. refl;
  rename = λ p q u v s. refl;
}

apply_host_message_confined_example :
    apply_host_message (system 13) root (λ m. []) 4 (stat (97 ∷ [])) 0
    ≡ apply_host_message (system 2) root (λ m. []) 4 (stat (97 ∷ [])) 0
apply_host_message_confined_example =
    apply_host_message_confined root (system 13) (system 2) systems_same (λ m. []) 4
      (stat (97 ∷ [])) 0

-- ASCII alone, and no text that is an address.
abbrev plain_utf : Utf8
plain_utf = record { lossy = λ t. t; lossy-ascii = λ t h. refl }

abbrev no_ips : ParseIp
no_ips = record { parse = λ t. none }

abbrev some_names : NameMap
some_names = (98 ∷ 46 ∷ 109 ∷ [], (bob, mesh_ipv4 bob)) ∷ []

abbrev asked : List Text
asked = (98 ∷ []) ∷ (109 ∷ []) ∷ []

build_dns_response-wire_example :
    build_dns_response ⦃uni = plain_unicode⦄ ⦃utf = plain_utf⦄
      (replicate 12 7 ++ (wire asked ++ (be16 1 ++ be16 1)))
      some_names
    ≡ some (elim (lookup (to_ascii_lowercase (join (text ".") asked)) some_names) [
      | none ↦
          take 2 (replicate 12 7)
          ++ be16 33155
          ++ be16 1
          ++ be16 0
          ++ be16 0
          ++ be16 0
          ++ (wire asked ++ (be16 1 ++ be16 1))
      | some (id, ip) ↦
          take 2 (replicate 12 7)
          ++ be16 33152
          ++ be16 1
          ++ be16 1
          ++ be16 0
          ++ be16 0
          ++ (wire asked ++ (be16 1 ++ be16 1))
          ++ be16 49164
          ++ be16 1
          ++ be16 1
          ++ be32 30
          ++ be16 4
          ++ octets_of ip
    ])
build_dns_response-wire_example =
    build_dns_response-wire ⦃uni = plain_unicode⦄ ⦃utf = plain_utf⦄ (replicate 12 7) asked (be16 1)
      some_names refl refl
      (
        (omega arith, omega arith, (omega arith, tt)),
        ((omega arith, omega arith, (omega arith, tt)), tt),
      )

-- A device that is this node, or is stored.
abbrev IsOurs : DeviceId → Type 0
IsOurs j = (j ≡ alice) ⊎ ((r : DeviceRecord) × (get two_device_store j ≡ some r))

abbrev here : Plane
here = record { local_id = alice; label = 97 ∷ []; domain = 109 ∷ [] }

all-IsOurs : HasAll IsOurs alice (list two_device_store)
unfolding HasAll list sort_by get lookup DeviceId-discrete text_discrete ℕ_discrete text_lt
all-IsOurs = (inl refl, ((λ t. inr (laptop, refl)), ((λ t. inr (phone, refl)), tt)))

query-IsOurs :
    (j : DeviceId)
    → resolve_query ⦃hex = plain_hex⦄ ⦃uni = plain_unicode⦄ (66 ∷ []) two_device_store ≡ ok j
    → IsOurs j
query-IsOurs j h =
    let (r, e, m) =
      resolve_query_sound ⦃hex = plain_hex⦄ ⦃uni = plain_unicode⦄ (66 ∷ []) two_device_store j
        two_devices-IsKeyed h in
    inr (r, e)

finds_bob :
    resolve_host ⦃uni = plain_unicode⦄ ⦃hex = plain_hex⦄ ⦃ip = no_ips⦄ here
      (ok two_device_store)
      (66 ∷ [])
    ≡ ok bob
unfolding resolve_host name_map push_devices push_names push_name list sort_by trim trim_end_dots
    trim_dots to_ascii_lowercase insert lookup text_discrete DeviceId-discrete ℕ_discrete text
    text_lt
finds_bob = refl

resolve_host_known_example : IsOurs bob
resolve_host_known_example =
    resolve_host_known ⦃uni = plain_unicode⦄ IsOurs ⦃hex = plain_hex⦄ ⦃ip = no_ips⦄ here
      two_device_store (66 ∷ []) bob all-IsOurs query-IsOurs finds_bob
