-- ===== src/Session/Pair/Meeting.antt =====
-- crates/mymesh-session/src/pair.rs: the two sides that have the same code, each given what the other
-- handed to the rendezvous, in turn, come to know each them.
use my_mesh.Base.{
  ◌≤◌, ◌≡◌, refl, ap, ◌∙◌, none, some, [], arith, length, get_or, nat_eq, text_eq, ok, Text,
}
use my_mesh.Core.Identity.{Hex, id_eq}
use my_mesh.Base.Dict.{lookup-insert}
use my_mesh.Core.Device.{get, flush, DeviceRecord, DeviceStore, upsert}
use my_mesh.Core.Device.Naming.{Unicode}
use my_mesh.Crypto.Identity.{Ed25519, device_id}
use my_mesh.Crypto.Words.{PairingCode, password_bytes, parse_code}
use my_mesh.Crypto.Pairing.{Spake, host, guest, SharedSecret, finish-start}
use my_mesh.Protocol.Messages.{reject}
use my_mesh.Session.Pair.{Mailbox, Side}
use my_mesh.Session.Pair.Ceremony.{outcome, run_host_pair_code, run_guest_pair}
use my_mesh.Session.Pair.Stages.{
  messages, IsMail, fresh, record_by, host_first, guest_first, host_second, guest_whole, host_whole,
}

module _ ⦃hex : Hex⦄ ⦃ed : Ed25519⦄ ⦃pake : Spake⦄ where
  get-upsert_self : (r : DeviceRecord) (s : DeviceStore) → get (upsert none r s).1 r.id ≡ some r
  unfolding get upsert flush
  get-upsert_self r s = ground (arith, lookup-insert r.id r.id r s.devices)

  upsert-none : (r : DeviceRecord) (s : DeviceStore) → (upsert none r s).0 ≡ ok tt
  unfolding upsert flush
  upsert-none r s = refl

  -- Where a host shows a code and a guest enters a text that is read as that code, where the
  -- labels have at most 64 bytes, the stores can be written, every send succeeds, and what each of
  -- the two receives as its first and second message is what the other one sent as its first and
  -- second, both succeed with one secret, the same confirmation and the code, and each finds the
  -- other in its store, trusted, with its id, label and capabilities.
  pub run_host_pair_code-run_guest_pair :
      ⦃uni : Unicode⦄
      → (h g : Side) (host_mail guest_mail : Mailbox) (code : PairingCode) (raw : Text)
        (h_store g_store : DeviceStore)
      → parse_code raw ≡ ok code
      → length h.label ≤ 64
      → length g.label ≤ 64
      → h.disk ≡ none
      → g.disk ≡ none
      → IsMail host_mail (messages (run_guest_pair g guest_mail raw (fresh g_store)).1.sent)
      → IsMail guest_mail (messages (run_host_pair_code h host_mail code (fresh h_store)).1.sent)
      → (secret : SharedSecret) × ((run_host_pair_code h host_mail code (fresh h_store)).0
          ≡ ok (outcome code (record_by h g) secret))
        × ((run_guest_pair g guest_mail raw (fresh g_store)).0
            ≡ ok (outcome code (record_by g h) secret))
        × (get (run_host_pair_code h host_mail code (fresh h_store)).1.store (device_id g.identity)
            ≡ some (record_by h g))
        × (get (run_guest_pair g guest_mail raw (fresh g_store)).1.store (device_id h.identity)
            ≡ some (record_by g h))
  run_host_pair_code-run_guest_pair h g host_mail guest_mail code raw h_store g_store e0 h_fits
        g_fits h_disk g_disk to_host to_guest =
      let (secret, host_agrees, guest_agrees) =
        finish-start host guest (password_bytes code) h.random g.random in
      let h0 =
        to_host.gives 0 (omega arith)
        ∙ ap ok (guest_first g guest_mail to_guest.accepts g_store raw code e0) in
      let g0 =
        to_guest.gives 0 (omega arith)
        ∙ ap ok (host_first h host_mail to_host.accepts h_store code) in
      let g1 =
        to_guest.gives 1 (omega arith)
        ∙ ap ok (host_second h host_mail to_host.accepts h_store code _ secret h0 host_agrees) in
      let guest_done =
        guest_whole g guest_mail to_guest.accepts g_store raw code _ secret h e0 g0 guest_agrees g1
          h_fits in
      let h1 =
        to_host.gives 1 (omega arith)
        ∙ ap (λ out. ok (get_or (messages out.1.sent) 1 (reject []))) guest_done in
      let host_done =
        host_whole h host_mail to_host.accepts h_store code _ secret g h0 host_agrees h1 g_fits in
      (
        secret,
        rw (host_done, h_disk, upsert-none (record_by h g) h_store) refl,
        rw (guest_done, g_disk, upsert-none (record_by g h) g_store) refl,
        rw (host_done, h_disk) (get-upsert_self (record_by h g) h_store),
        rw (guest_done, g_disk) (get-upsert_self (record_by g h) g_store),
      )
