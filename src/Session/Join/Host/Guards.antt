-- ===== src/Session/Join/Host/Guards.antt =====
-- crates/mymesh-session/src/join.rs: whom a host lets in.
use my_mesh.Base.{
  ℕ, ◌≡◌, refl, subst, ◌⊎◌, inl, inr, true, false, Option, some, List, [], ◌∷◌, ◌++◌, arith,
  Bool-cases, Result-cases, ◌==◌, ==_iff, nat_eq, text_eq, ok, Text, text, ℤ,
}
use my_mesh.Core.Identity.{Hex, DeviceId, id_eq, short}
use my_mesh.Core.Device.{Capability}
use my_mesh.Core.Join.{
  Chrono, ArmState, is_effectively_armed, load_arm, accept, take_decision, clear_pending,
  write_pending,
}
use my_mesh.Crypto.Identity.{Ed25519, Identity, device_id}
use my_mesh.Protocol.Frame.{Frame}
use my_mesh.Protocol.Messages.{ControlMessage, join_request, join_pending}
use my_mesh.Session.Handshake.{Codec, Conn}
use my_mesh.Session.Join.{verify_request, is_out_of_range}
use my_mesh.Session.Join.Host.{
  HostFiles, Look, say, refuse, await_decision, look, take_here, decline, settle, on_sound,
  on_request, on_message, handle_join_as_host, pending_of,
}

module _ ⦃codec : Codec⦄ (conn : Conn) where
  refuse-devices : (t : Text) (w : HostFiles) → (refuse conn t w).1.devices ≡ w.devices
  unfolding refuse
  refuse-devices t w = ground arith

  say-devices : (m : ControlMessage) (w : HostFiles) → (say conn m w).1.devices ≡ w.devices
  unfolding say
  say-devices m w = ground arith

module _ ⦃hex : Hex⦄ where
  -- What a look leaves.
  abbrev after : DeviceId → Look → HostFiles → HostFiles
  after id l w = record w { arm = l.arm; joins = (take_decision id l.joins).1 }

  await_decision-devices :
      (id : DeviceId) (ls : List Look) (w : HostFiles)
      → (await_decision id ls w).1.devices ≡ w.devices
  unfolding await_decision look take_here
  await_decision-devices id [] w = refl
  await_decision-devices id (l ∷ ls) w = ground (arith, await_decision-devices id ls (after id l w))

  -- The decision comes from the looks alone.
  await_decision_looks :
      (id : DeviceId) (ls : List Look) (v w : HostFiles)
      → (await_decision id ls v).0 ≡ (await_decision id ls w).0
  unfolding await_decision look take_here
  await_decision_looks id [] v w = refl
  await_decision_looks id (l ∷ ls) v w =
      ground (arith, await_decision_looks id ls (after id l v) (after id l w))

  -- That one of the looks finds the decision to accept a joiner.
  unfoldable pub IsAccepted : DeviceId → List Look → Type 0
  IsAccepted id [] = ⊥
  IsAccepted id (l ∷ ls) = ((take_decision id l.joins).0 ≡ ok (some accept)) ⊎ IsAccepted id ls

  await_decision-IsAccepted :
      (id : DeviceId) (ls : List Look) (w : HostFiles)
      → (await_decision id ls w).0 ≡ ok accept
      → IsAccepted id ls
  unfolding await_decision look take_here IsAccepted
  await_decision-IsAccepted id [] w h = absurd (ground (arith, h))
  await_decision-IsAccepted id (l ∷ ls) w h =
      ground (arith, h, await_decision-IsAccepted id ls (after id l w))

module _ ⦃hex : Hex⦄ ⦃chrono : Chrono⦄ ⦃ed : Ed25519⦄ ⦃codec : Codec⦄ (disk : Option ℕ) (now : ℕ)
    (uuid : Text) (me : Identity) (my_label : Text) (conn : Conn) where
  decline-devices :
      (id : DeviceId) (t : Text) (w : HostFiles)
      → (decline disk now uuid me my_label conn id t w).1.devices ≡ w.devices
  unfolding decline clear_pending
  decline-devices id t w = ground (arith, say-devices conn)

  -- What let a joiner in.
  abbrev pub IsGranted : DeviceId → Text → Text → ℤ → Text → List Look → HostFiles → Type 0
  IsGranted id label key ts signature looks w =
      (id ≡ conn.peer)
      × (key ≡ id.bytes)
      × (verify_request id label ts signature ≡ ok tt)
      × (is_out_of_range (chrono.to_unix now) ts ≡ false)
      × ((await_decision id looks w).0 ≡ ok accept)

  settle_safe :
      (id : DeviceId) (label : Text) (caps : List Capability) (looks : List Look) (w : HostFiles)
      → ((settle disk now uuid me my_label conn id label caps looks w).1.devices ≡ w.devices)
        ⊎ ((await_decision id looks w).0 ≡ ok accept)
  unfolding settle
  settle_safe id label caps looks w =
      ground (
        arith,
        await_decision-devices id looks w,
        decline-devices id _ (await_decision id looks w).1,
      )

  on_sound_safe :
      (id : DeviceId) (label : Text) (caps : List Capability) (looks : List Look) (w : HostFiles)
      → ((on_sound disk now uuid me my_label conn id label caps looks w).1.devices ≡ w.devices)
        ⊎ ((await_decision id looks w).0 ≡ ok accept)
  unfolding on_sound
  on_sound_safe id label caps looks w =
      let p = pending_of disk now uuid me my_label conn id label caps in
      let w1 = record w { joins = (write_pending disk p w.joins).1 } in
      let asked =
        join_pending (device_id me) my_label
          (text "approve with: mymesh requests accept " ++ short id) in
      let w2 = (say conn asked w1).1 in
      ground (
        arith,
        settle_safe id label caps looks w2,
        await_decision_looks id looks w2 w,
        say-devices conn asked w1,
      )

  on_request_safe :
      (id : DeviceId) (label key : Text) (caps : List Capability) (ts : ℤ) (signature : Text)
      (looks : List Look) (w : HostFiles)
      → ((on_request disk now uuid me my_label conn id label key caps ts signature looks
            w).1.devices
          ≡ w.devices)
        ⊎ IsGranted id label key ts signature looks w
  unfolding on_request
  on_request_safe id label key caps ts signature looks w = ground (
    arith,
    refuse-devices conn,
    on_sound_safe id label caps looks w,
    ==_iff id conn.peer,
    ==_iff key id.bytes,
  )

  -- What a host knows of a joiner that it let in.
  abbrev pub WasAsked : ControlMessage → List Look → HostFiles → Type 0
  WasAsked m looks w =
      (label : Text) × (caps : List Capability) × (ts : ℤ) × (signature : Text) × (m
        ≡ join_request 1 conn.peer label conn.peer.bytes caps ts signature)
      × (verify_request conn.peer label ts signature ≡ ok tt)
      × (is_out_of_range (chrono.to_unix now) ts ≡ false)
      × ((await_decision conn.peer looks w).0 ≡ ok accept)
      × IsAccepted conn.peer looks

  on_message_safe :
      (m : ControlMessage) (looks : List Look) (w : HostFiles)
      → ((on_message disk now uuid me my_label conn m looks w).1.devices ≡ w.devices)
        ⊎ WasAsked m looks w
  unfolding on_message
  on_message_safe (join_request version id label key caps ts signature) looks w =
      elim (Bool-cases (version == 1)) [
        | inr off ↦ inl (ground (arith, off))
        | inl one ↦ elim (on_request_safe id label key caps ts signature looks w) [
          | inl same ↦ inl (ground (arith, one, same))
          | inr (at_peer, own_key, verified, fresh, granted) ↦
              let at_end : (await_decision conn.peer looks w).0 ≡ ok accept =
                subst (λ i. (await_decision i looks w).0 ≡ ok accept) at_peer granted in
              inr (
                label,
                caps,
                ts,
                signature,
                ground (arith, one, ==_iff version 1, at_peer, own_key),
                subst (λ i. verify_request i label ts signature ≡ ok tt) at_peer verified,
                fresh,
                at_end,
                await_decision-IsAccepted conn.peer looks w at_end,
              )
        ]
      ]
  on_message_safe _ looks w = inl (refuse-devices conn _ w)

  -- The device file is as it was, unless the node was armed, the first frame that was received is
  -- a request of protocol version 1 in the name and under the key of the peer of the connection,
  -- its signature verifies, its time is not out of range, and the decision that was awaited is to
  -- accept, as one of the looks for it found.
  pub handle_join_as_host_safe :
      (looks : List Look) (w : HostFiles)
      → ((handle_join_as_host disk now uuid me my_label conn looks w).1.devices ≡ w.devices)
        ⊎ ((a : ArmState) × (f : Frame) × (m : ControlMessage) × (load_arm w.arm ≡ ok a)
            × (is_effectively_armed now a ≡ true)
            × (conn.recv ≡ ok f)
            × (codec.decode f.payload ≡ ok m)
            × WasAsked m looks w)
  unfolding handle_join_as_host
  handle_join_as_host_safe looks w = elim (Result-cases (load_arm w.arm)) [
    | inr bad ↦ inl (ground (arith, bad))
    | inl (a, loaded) ↦ elim (Bool-cases (is_effectively_armed now a)) [
      | inr off ↦ inl (ground (arith, loaded, off, refuse-devices conn _ w))
      | inl armed ↦ elim (Result-cases conn.recv) [
        | inr bad ↦ inl (ground (arith, loaded, armed, bad))
        | inl (f, got) ↦ elim (Result-cases (codec.decode f.payload)) [
          | inr bad ↦ inl (ground (arith, loaded, armed, got, bad))
          | inl (m, read) ↦ elim (on_message_safe m looks w) [
            | inl same ↦ inl (ground (arith, loaded, armed, got, read, same))
            | inr asked ↦ inr (a, f, m, loaded, armed, got, read, asked)
          ]
        ]
      ]
    ]
  ]
