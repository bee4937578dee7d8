-- ===== src/Examples/Devices.antt =====
-- Devices and stores on which the statements are tried.
use my_mesh.Base.{
  ℕ, zero, suc, ◌<◌, refl, none, [], ◌∷◌, arith, ℕ_discrete, replicate, text_discrete, nat_eq,
  text_eq, holds, Text, IsBytes,
}
use my_mesh.Base.Dict.{Dict, lookup}
use my_mesh.Core.Identity.{DeviceId, DeviceId-discrete, id_eq, IsId}
use my_mesh.Core.Device.{
  terminal, files, TrustState, trusted, revoked, DeviceRecord, DeviceStore, file_of,
}
use my_mesh.Core.Device.Persist.{IsKeyed}
use my_mesh.Examples.Plain.{plain_hex}

-- The id whose bytes are all the same.
abbrev pub id_of : ℕ → DeviceId
id_of c = record { bytes = replicate 32 c }

pub replicate-IsBytes : (n c : ℕ) → c < 256 → IsBytes (replicate n c)
replicate-IsBytes zero c h = tt
replicate-IsBytes (suc n) c h = (h, replicate-IsBytes n c h)

pub id_of-IsId : (c : ℕ) → c < 256 → IsId (id_of c)
id_of-IsId c h = (refl, replicate-IsBytes 32 c h)

abbrev pub alice : DeviceId
alice = id_of 1

abbrev pub bob : DeviceId
bob = id_of 2

abbrev pub carol : DeviceId
carol = id_of 3

abbrev pub device : DeviceId → Text → TrustState → DeviceRecord
device id name trust = record {
  id = id;
  label = record { name = name };
  fingerprint = [];
  capabilities = terminal ∷ files ∷ [];
  trust = trust;
  linked_at = 5;
  last_seen = none;
  endpoint_hint = none;
  mesh_id = none;
  aliases = [];
  groups = [];
}

abbrev pub laptop : DeviceRecord
laptop = device bob (98 ∷ []) trusted

abbrev pub phone : DeviceRecord
phone = device carol (99 ∷ []) revoked

abbrev pub two_devices : Dict DeviceId DeviceRecord
two_devices = (bob, laptop) ∷ (carol, phone) ∷ []

abbrev pub two_device_store : DeviceStore
two_device_store = record {
  devices = two_devices;
  file = holds (file_of ⦃hex = plain_hex⦄ two_devices);
}

pub two_devices-IsKeyed : IsKeyed two_devices
unfolding lookup DeviceId-discrete text_discrete ℕ_discrete
two_devices-IsKeyed =
    (refl, id_of-IsId 2 (omega arith), refl, (refl, id_of-IsId 3 (omega arith), refl, tt))
