-- ===== src/Examples/Stores.antt =====
-- The statements on the store of devices, tried.
use my_mesh.Base.{
  ◌≤◌, ◌≡◌, refl, ◌⊎◌, length, starts_with, true, false, none, some, [], ◌∷◌, arith, ℕ_discrete,
  if◌then◌else◌, ◌==◌, text_discrete, nat_eq, text_eq, ok, text, trim, to_ascii_lowercase, sort_by,
  dedup,
}
use my_mesh.Base.Dict.{lookup}
use my_mesh.Core.Identity.{DeviceId-discrete, id_eq, short}
use my_mesh.Core.Device.{
  terminal, DeviceRecord, get, is_trusted, allows, open_store, upsert, revoke, flush,
}
use my_mesh.Core.Device.Persist.{upsert-open, flush-open}
use my_mesh.Core.Device.Trust.{revoke_lem, marked_revoked}
use my_mesh.Core.Device.Persist.{IsKeyed}
use my_mesh.Core.Device.Naming.{add_alias, resolve_query, query_host, is_exact_match, hits}
use my_mesh.Core.Device.Naming.Aliases.{HasUniqueAliases, add_alias-HasUniqueAliases}
use my_mesh.Core.Device.Naming.Found.{IsCalled, IsCalledLike, resolve_query_found}
use my_mesh.Examples.Plain.{plain_hex, plain_unicode}
use my_mesh.Examples.Devices.{bob, carol, laptop, two_device_store, two_devices-IsKeyed, id_of-IsId}

upsert-open_example :
    IsKeyed (upsert ⦃hex = plain_hex⦄ none laptop two_device_store).1.devices
    × (open_store (upsert ⦃hex = plain_hex⦄ none laptop two_device_store).1.file
        ≡ ok (upsert ⦃hex = plain_hex⦄ none laptop two_device_store).1)
upsert-open_example =
    upsert-open ⦃hex = plain_hex⦄ laptop two_device_store (id_of-IsId 2 (omega arith))
      two_devices-IsKeyed

saved : open_store two_device_store.file ≡ ok two_device_store
unfolding flush
saved = flush-open ⦃hex = plain_hex⦄ two_device_store two_devices-IsKeyed

revoke_lem_example :
    (is_trusted (revoke ⦃hex = plain_hex⦄ (some 28) bob two_device_store).1 bob ≡ false)
    × (allows (revoke ⦃hex = plain_hex⦄ (some 28) bob two_device_store).1 bob terminal ≡ false)
    × (get (revoke ⦃hex = plain_hex⦄ (some 28) bob two_device_store).1 carol ≡ (
        if bob == carol
        then marked_revoked (get two_device_store bob)
        else get two_device_store carol))
revoke_lem_example = revoke_lem ⦃hex = plain_hex⦄ (some 28) bob two_device_store carol terminal

no_aliases : HasUniqueAliases two_device_store
unfolding get lookup
no_aliases = record { unique = λ a i j. ground arith }

add_alias-HasUniqueAliases_example :
    HasUniqueAliases
      (add_alias ⦃hex = plain_hex⦄ ⦃uni = plain_unicode⦄ none bob (97 ∷ 98 ∷ []) two_device_store).1
add_alias-HasUniqueAliases_example =
    add_alias-HasUniqueAliases ⦃hex = plain_hex⦄ ⦃uni = plain_unicode⦄ none bob (97 ∷ 98 ∷ [])
      two_device_store two_devices-IsKeyed no_aliases

finds_laptop :
    resolve_query ⦃hex = plain_hex⦄ ⦃uni = plain_unicode⦄ (66 ∷ []) two_device_store ≡ ok bob
unfolding resolve_query hits dedup sort_by is_exact_match text_discrete to_ascii_lowercase
    query_host text trim ℕ_discrete DeviceId-discrete
finds_laptop = refl

resolve_query_found_example :
    (r : DeviceRecord) × (get two_device_store bob ≡ some r)
    × (r.id ≡ bob)
    × (IsCalled ⦃hex = plain_hex⦄ ⦃uni = plain_unicode⦄
          (query_host ⦃hex = plain_hex⦄ ⦃uni = plain_unicode⦄ (66 ∷ []))
          r
        ⊎ IsCalledLike ⦃hex = plain_hex⦄ ⦃uni = plain_unicode⦄
            (to_ascii_lowercase (query_host ⦃hex = plain_hex⦄ ⦃uni = plain_unicode⦄ (66 ∷ [])))
            r
        ⊎ ((starts_with
                (short ⦃hex = plain_hex⦄ bob)
                (to_ascii_lowercase (query_host ⦃hex = plain_hex⦄ ⦃uni = plain_unicode⦄ (66 ∷ [])))
              ≡ true)
            × (length (
                  to_ascii_lowercase (query_host ⦃hex = plain_hex⦄ ⦃uni = plain_unicode⦄ (66 ∷ [])))
                ≤ 8)))
resolve_query_found_example =
    resolve_query_found ⦃hex = plain_hex⦄ ⦃uni = plain_unicode⦄ (66 ∷ []) two_device_store bob
      two_devices-IsKeyed finds_laptop
