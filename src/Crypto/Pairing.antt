-- ===== src/Crypto/Pairing.antt =====
-- crates/mymesh-crypto/src/pairing.rs: the key exchange with which two nodes that know the same pairing
-- code come to one secret.
use my_mesh.Base.{
  ◌≡◌, ◌⊎◌, inl, inr, ◌++◌, arith, ltb, if◌then◌else◌, length, take, nat_eq, text_eq, pairing,
  Result, ok, err, Text, text,
}

-- The `spake2` crate: from a password and what the random generator gives, a state, which is opaque,
-- and the message for the other side; the two sides of one password get one key of 32 bytes. From the
-- `sha2` and `hkdf` crates, digests and derived keys.
pub record Spake : Type 0 where
  pub start : Text → Text → Text × Text
  pub finish : Text → Text → Text ⊎ Text
  pub agree :
      (password r q : Text)
      → (key : Text) × (length key ≡ 32)
        × (finish (start password r).0 (start password q).1 ≡ inr key)
        × (finish (start password q).0 (start password r).1 ≡ inr key)
  pub sha256 : Text → Text
  pub expand : Text → Text → Text

pub data PairingRole : Type 0 where
  host guest : PairingRole

-- `SharedSecret([u8; 32])`.
pub record SharedSecret : Type 0 where
  pub bytes : Text

pub record PairingSession : Type 0 where
  pub role : PairingRole
  pub state : Text
  pub outbound_msg : Text

module _ ⦃spake : Spake⦄ where
  unfoldable pub derive : SharedSecret → Text → Text
  derive secret info = spake.expand secret.bytes info

  -- `start`, which never fails.
  unfoldable pub start : PairingRole → Text → Text → PairingSession
  start role password random =
      let (state, msg) = spake.start password random in
      record { role = role; state = state; outbound_msg = msg }

  finished : Text ⊎ Text → Result SharedSecret
  finished (inl e) = err (pairing (text "SPAKE2 failed: " ++ e))
  finished (inr key) =
      if ltb (length key) 32
      then err (pairing (text "shared key too short"))
      else ok (record { bytes = take 32 key })

  unfoldable pub finish : PairingSession → Text → Result SharedSecret
  unfolding finished
  finish s peer_msg = finished (spake.finish s.state peer_msg)

  -- Two sides that start with one password finish with one secret, each on the other's message.
  pub finish-start :
      (a b : PairingRole) (password r q : Text)
      → (secret : SharedSecret) × (finish (start a password r) (start b password q).outbound_msg
          ≡ ok secret)
        × (finish (start b password q) (start a password r).outbound_msg ≡ ok secret)
  unfolding finish start finished
  finish-start a b password r q =
      let (key, long, here, there) = spake.agree password r q in
      (record { bytes = take 32 key }, ground (arith, long, here), ground (arith, long, there))
