-- ===== src/Crypto/Identity.antt =====
-- crates/mymesh-crypto/src/identity.rs: the node's identity, over `ed25519_dalek`.
use my_mesh.Base.{
  ◌≡◌, Option, none, some, ◌++◌, if◌then◌else◌, length, ◌==◌, nat_eq, text_eq, identity, Result, ok,
  err, Text, text, decimal,
}
use my_mesh.Core.Identity.{DeviceId, id_eq}

-- The signature scheme: a key is derived from a secret, `check` refuses a signature with a message,
-- and it accepts what `sign` makes under the same secret's key.
pub record Ed25519 : Type 0 where
  pub verifying_key : Text → Text
  pub sign : Text → Text → Text
  pub check : Text → Text → Text → Option Text
  pub check-sign :
      (secret message : Text) → check (verifying_key secret) message (sign secret message) ≡ none

-- `Identity`, by its 32 secret bytes.
pub record Identity : Type 0 where
  pub secret : Text

module _ ⦃ed : Ed25519⦄ where
  unfoldable pub device_id : Identity → DeviceId
  device_id i = record { bytes = ed.verifying_key i.secret }

  unfoldable pub sign : Identity → Text → Text
  sign i message = ed.sign i.secret message

  -- `IdentityPublic::verify` under a verifying key.
  unfoldable pub verify : Text → Text → Text → Result (Unit {0})
  verify key message signature = elim (ed.check key message signature) [
    | none ↦ ok tt
    | some why ↦ err (identity why)
  ]

  -- What an identity signs verifies under the bytes of its device id.
  pub verify-sign :
      (i : Identity) (message : Text) → verify (device_id i).bytes message (sign i message) ≡ ok tt
  unfolding device_id sign verify
  verify-sign i message = rw (ed.check-sign i.secret message, verify)

-- `Identity::load` of the bytes of a file.
unfoldable pub load_identity : Text → Result Identity
load_identity bytes =
    if length bytes == 32
    then ok (record { secret = bytes })
    else err (identity (text "identity key must be 32 bytes, got " ++ decimal (length bytes)))
