-- ===== src/Session/Pair.antt =====
-- crates/mymesh-session/src/pair.rs: the pairing ceremony of the host, which shows a code, and of the
-- guest, which is given it: what they make of each other's messages.
pub mod Ceremony
pub mod Vouched
pub mod Stages
pub mod Meeting
pub mod Local
use my_mesh.Base.{
  ℕ, ◌+◌, Option, none, some, List, [], ◌++◌, arith, if◌then◌else◌, ◌==◌, nat_eq, text_eq, identity,
  pairing, Result, ok, err, ◌>>=◌, ◌>>◌, Text, text,
}
use my_mesh.Core.Identity.{Hex, DeviceId, id_eq, fingerprint, label_new}
use my_mesh.Core.Device.{Capability, trusted, DeviceRecord}
use my_mesh.Crypto.Identity.{Ed25519, Identity, device_id, sign, verify}
use my_mesh.Crypto.Words.{PairingCode}
use my_mesh.Crypto.Pairing.{Spake, host, SharedSecret}
use my_mesh.Protocol.Messages.{
  IdentityCard, PairingMessage, spake, identity_offer, identity_accept, reject,
}

-- The trait `Rendezvous`, as one ceremony meets it: what `send` answers to a message, and what the
-- calls of `recv` give, by their number; and the `Debug` text of a message.
pub record Mailbox : Type 0 where
  pub on_send : PairingMessage → Result (Unit {0})
  pub on_recv : ℕ → Result PairingMessage
  pub debug : PairingMessage → Text

pub record PairOutcome : Type 0 where
  pub code : Option PairingCode
  pub peer : DeviceRecord
  pub shared_confirm : Text

-- What a side brings: its identity, label and capabilities, what its generator gives to the key
-- exchange, the times at which a record is made, and what the operating system answers to a write.
pub record Side : Type 0 where
  pub identity : Identity
  pub label : Text
  pub capabilities : List Capability
  pub random : Text
  pub linked_now : ℕ
  pub seen_now : ℕ
  pub disk : Option ℕ

unfoldable pub spake_of : Mailbox → PairingMessage → Result Text
spake_of mail (spake m) = ok m
spake_of mail m = err (pairing (text "expected SPAKE message, got " ++ mail.debug m))

-- What is signed and bound: id, label and key.
unfoldable pub material : DeviceId → Text → Text → Text
material id label key = id.bytes ++ label ++ key

module _ ⦃pake : Spake⦄ where
  unfoldable pub binder : SharedSecret → Text → Text
  binder secret m = pake.sha256 (secret.bytes ++ m)

module _ ⦃hex : Hex⦄ ⦃ed : Ed25519⦄ ⦃pake : Spake⦄ where
  -- This side's id, label and key, signed and bound to the secret.
  unfoldable pub card : Side → SharedSecret → IdentityCard
  unfolding binder material
  card me secret =
      let id = device_id me.identity in
      let m = material id me.label id.bytes in
      record {
        device_id = id;
        label = me.label;
        verifying_key = id.bytes;
        capabilities = me.capabilities;
        signature = sign me.identity m;
        binder = binder secret m;
      }

  -- The check of the other side's: the binder first, then the signature under the key it names.
  unfoldable pub check_card : Text → SharedSecret → IdentityCard → Result (Unit {0})
  unfolding binder material
  check_card mismatch secret c =
      let m = material c.device_id c.label c.verifying_key in
      if binder secret m == c.binder
      then verify c.verifying_key m c.signature
      else err (pairing mismatch)

  unfoldable pub peer_record : Side → IdentityCard → Result DeviceRecord
  peer_record me c = do
    label ← label_new c.label
    ok (record {
      id = c.device_id;
      label = label;
      fingerprint = fingerprint c.device_id;
      capabilities = c.capabilities;
      trust = trusted;
      linked_at = me.linked_now;
      last_seen = some me.seen_now;
      endpoint_hint = none;
      mesh_id = none;
      aliases = [];
      groups = [];
    })

  -- What the host makes of the guest's answer.
  unfoldable pub accepted_peer :
      Side → Mailbox → SharedSecret → PairingMessage → Result DeviceRecord
  unfolding check_card peer_record
  accepted_peer me mail secret (identity_accept c) = do
    check_card (text "binder mismatch") secret c
    (if c.device_id.bytes == c.verifying_key
        then peer_record me c
        else err (pairing (text "device id mismatch")))
  accepted_peer me mail secret (reject reason) = err (pairing reason)
  accepted_peer me mail secret m = err (pairing (text "unexpected message: " ++ mail.debug m))

  -- What the guest makes of the host's offer.
  unfoldable pub offered_peer : Side → Mailbox → SharedSecret → PairingMessage → Result DeviceRecord
  unfolding check_card peer_record
  offered_peer me mail secret (identity_offer c) = do
    check_card (text "host binder mismatch") secret c
    peer_record me c
  offered_peer me mail secret m =
      err (pairing (text "expected identity offer, got " ++ mail.debug m))
