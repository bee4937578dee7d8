-- ===== src/Session/Delivery/Lost.antt =====
-- crates/mymesh-session/src/agent.rs: what becomes of the tellings that wait.
use my_mesh.Base.{
  ◌≤◌, ◌≡◌, refl, sym, ap, ◌∙◌, subst, ◌≢◌, true, false, none, some, List, [], ◌∷◌, arith, length,
  All, ==_self, nat_eq, text_eq, Error, ok, err, missing, holds, Text,
}
use my_mesh.Core.Identity.{Hex, DeviceId, id_eq, IsId, DeviceLabel}
use my_mesh.Core.Identity.Laws.{label_new_short}
use my_mesh.Core.Device.{DeviceStore, open_store, get, is_trusted, upsert, flush}
use my_mesh.Core.Device.Persist.{IsKeyed, upsert-open}
use my_mesh.Core.Device.Trust.{get-upsert}
use my_mesh.Core.Mesh.{PendingKick, PendingKickStore, get_kick, open_kicks}
use my_mesh.Core.Join.{Chrono}
use my_mesh.Crypto.Identity.{Ed25519}
use my_mesh.Protocol.Messages.{ControlMessage}
use my_mesh.Session.Handshake.{Codec}
use my_mesh.Session.Call.{
  LeaveOutboxItem, AgentState, Env, Agent, open_devices, open_pending, on_devices,
}
use my_mesh.Session.Delivery.{
  item_signature, dial_send, deliver_items, flush_items, remove_outbox, flush_leave_outbox,
  trust_target, kicked_record, dial_kick_notice, leave_message,
}

-- The items whose signature can be read back.
abbrev HasSignature : ⦃hex : Hex⦄ → LeaveOutboxItem → Type 0
HasSignature i = (s : Text) × (item_signature i ≡ some s)

abbrev label_of : PendingKick → DeviceLabel
label_of k = record { name = k.target_label }

module _ ⦃hex : Hex⦄ ⦃chrono : Chrono⦄ ⦃ed : Ed25519⦄ ⦃codec : Codec⦄ (env : Env)
    (agent : Agent) where
  -- To a peer that is not trusted nothing is sent, and the call succeeds.
  pub dial_send_untrusted :
      (peer : DeviceId) (m : ControlMessage) (w : AgentState) (s : DeviceStore)
      → open_store w.devices ≡ ok s
      → is_trusted s peer ≡ false
      → dial_send env agent peer m w ≡ (ok tt, w)
  unfolding dial_send open_devices
  dial_send_untrusted peer m w s e h = ground (arith, e, h)

  deliver_items_untrusted :
      (items : List LeaveOutboxItem) (w : AgentState) (s : DeviceStore)
      → open_store w.devices ≡ ok s
      → ((j : DeviceId) → is_trusted s j ≡ false)
      → All HasSignature items
      → deliver_items env agent items w ≡ (ok [], w)
  unfolding deliver_items
  deliver_items_untrusted [] w s e none_trusted h = refl
  deliver_items_untrusted (i ∷ rest) w s e none_trusted ((t, f), h) = ground (
    arith,
    f,
    dial_send_untrusted i.peer (leave_message i t) w s e (none_trusted i.peer),
    deliver_items_untrusted rest w s e none_trusted h,
  )

  -- Where the disk takes the writes, and the items that wait can be read back, a node that trusts
  -- nobody, as one that was kicked, sends nothing of its leaving: the call succeeds, the outbox is
  -- removed, and nothing else changes.
  pub flush_leave_outbox_lost :
      (items : List LeaveOutboxItem) (w : AgentState) (s : DeviceStore)
      → env.disk ≡ none
      → open_store w.devices ≡ ok s
      → ((j : DeviceId) → is_trusted s j ≡ false)
      → All HasSignature items
      → items ≢ []
      → w.outbox ≡ holds items
      → flush_leave_outbox env agent w ≡ (ok tt, record w { outbox = missing })
  unfolding flush_leave_outbox flush_items remove_outbox
  flush_leave_outbox_lost [] w s d e none_trusted h n o = absurd (n refl)
  flush_leave_outbox_lost (i ∷ rest) w s d e none_trusted h n o =
      ground (arith, o, deliver_items_untrusted (i ∷ rest) w s e none_trusted h, d)

  trust_target_new :
      (target : DeviceId) (w : AgentState) (s : DeviceStore) (pk : PendingKickStore)
      (k : PendingKick)
      → env.disk ≡ none
      → open_store w.devices ≡ ok s
      → get s target ≡ none
      → open_kicks w.kicks ≡ ok pk
      → get_kick pk target ≡ some k
      → length k.target_label ≤ 64
      → trust_target env agent target w ≡ (
        ok tt,
        record w { devices = (upsert none (kicked_record env.now target k (label_of k)) s).1.file },
      )
  unfolding trust_target open_devices open_pending on_devices upsert flush
  trust_target_new target w s pk k d e gone p there short_label =
      ground (arith, e, gone, p, there, label_new_short k.target_label short_label, d)

  dial_fails :
      (target : DeviceId) (m : ControlMessage) (w w' : AgentState) (s' : DeviceStore) (x : Error)
      → trust_target env agent target w ≡ (ok tt, w')
      → open_store w'.devices ≡ ok s'
      → env.dial target ≡ err x
      → dial_kick_notice env agent target m w ≡ (err x, w')
  unfolding dial_kick_notice open_devices
  dial_fails target m w w' s' x t e fails = ground (arith, t, e, fails)

  -- Where the disk takes the writes, a device for which a kick waits, and which is not stored, is
  -- stored as trusted after a dial that fails, with which the call ends; the store keeps each
  -- record once, under its id, the id is 32 bytes and the label at most 64.
  pub dial_kick_notice_failed :
      (target : DeviceId) (m : ControlMessage) (w : AgentState) (s : DeviceStore)
      (pk : PendingKickStore) (k : PendingKick) (x : Error)
      → env.disk ≡ none
      → open_store w.devices ≡ ok s
      → IsKeyed s.devices
      → get s target ≡ none
      → open_kicks w.kicks ≡ ok pk
      → get_kick pk target ≡ some k
      → IsId target
      → length k.target_label ≤ 64
      → env.dial target ≡ err x
      → (s' : DeviceStore) × (open_store (dial_kick_notice env agent target m w).1.devices ≡ ok s')
        × (is_trusted s' target ≡ true)
        × ((dial_kick_notice env agent target m w).0 ≡ err x)
  dial_kick_notice_failed target m w s pk k x d e keyed gone p there v short_label fails =
      let r = kicked_record env.now target k (label_of k) in
      let s' = (upsert none r s).1 in
      let at_target : r.id ≡ target = unfold kicked_record in refl in
      let reopened = upsert-open r s (subst (λ i. IsId i) (sym at_target) v) keyed in
      let trusted_now : is_trusted s' target ≡ true =
        unfold is_trusted kicked_record in
        ground (arith, get-upsert none r s target, ==_self target, at_target) in
      let failed =
        dial_fails target m w (record w { devices = s'.file }) s' x
          (trust_target_new target w s pk k d e gone p there short_label) reopened.1 fails in
      (s', ap (λ c. open_store c.1.devices) failed ∙ reopened.1, trusted_now, ap (λ c. c.0) failed)
