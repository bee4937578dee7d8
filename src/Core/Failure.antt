-- ===== src/Core/Failure.antt =====
-- crates/mymesh-core/src/error.rs: the text of an error. `io_text` gives that of an operating system error.
use my_mesh.Base.{
  ℕ, ◌++◌, Error, io, config, identity, pairing, protocol, session, network, not_found,
  permission_denied, serialize, other, Text, text,
}

-- `Display`.
unfoldable pub display : (ℕ → Text) → Error → Text
display io_text (io n) = text "io: " ++ io_text n
display io_text (config m) = text "config: " ++ m
display io_text (identity m) = text "identity: " ++ m
display io_text (pairing m) = text "pairing: " ++ m
display io_text (protocol m) = text "protocol: " ++ m
display io_text (session m) = text "session: " ++ m
display io_text (network m) = text "network: " ++ m
display io_text (not_found m) = text "not found: " ++ m
display io_text (permission_denied m) = text "permission denied: " ++ m
display io_text (serialize m) = text "serialize: " ++ m
display io_text (other m) = m
