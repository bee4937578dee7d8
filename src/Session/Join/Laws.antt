-- ===== src/Session/Join/Laws.antt =====
-- crates/mymesh-session/src/join.rs: what the two sides of a join make of each other's messages.
use my_mesh.Base.{
  ℕ, ◌+◌, ◌≤◌, ◌<◌, ◌≡◌, sym, subst, ◌↔◌, ◌⊎◌, inl, inr, false, Option, none, some, List, [], ◌∷◌,
  ◌++◌, arith, Option-cases, Result-cases, nat_eq, text_eq, ok, holds, Text, text, ℤ, distance,
}
use my_mesh.Base.Dict.{insert, remove}
use my_mesh.Base.Stateful.{◌>>=◌, ◌>>◌}
use my_mesh.Core.Identity.{Hex, DeviceId, id_eq, to_string, fingerprint}
use my_mesh.Core.Device.{Capability, DeviceRecord}
use my_mesh.Core.Join.{Chrono}
use my_mesh.Crypto.Identity.{Ed25519, Identity, device_id}
use my_mesh.Protocol.Frame.{Frame}
use my_mesh.Protocol.Messages.{
  ControlMessage, join_accept, join_pending, join_deny, membership_snapshot,
}
use my_mesh.Session.Handshake.{Codec, Conn, control_frame}
use my_mesh.Session.MeshSync.Apply.{Node}
use my_mesh.Session.Join.{is_out_of_range, verify_accept, joined_record}
use my_mesh.Session.Join.Guest.{
  Ending, at_end, accepted, apply_roster, await_host, run_join_as_guest,
}
use my_mesh.Session.Join.Host.{HostFiles}

-- Of times whose difference is at least 3600 less than 2^64, those count as near that are at most
-- 3600 seconds apart, and those that are exactly 2^63 apart.
pub is_out_of_range_iff :
    (now ts : ℤ)
    → distance now ts + 3600 < 18446744073709551616
    → (is_out_of_range now ts ≡ false)
      ↔ ((distance now ts ≤ 3600) ⊎ (distance now ts ≡ 9223372036854775808))
unfolding is_out_of_range
is_out_of_range_iff now ts h = ground (arith, h)

module _ ⦃hex : Hex⦄ ⦃chrono : Chrono⦄ ⦃ed : Ed25519⦄ ⦃codec : Codec⦄ (disk : Option ℕ) (now : ℕ)
    (uuid : Text) (me : Identity) (my_label : Text) (conn : Conn) where
  -- The files of a host on which a request is written and an older decision on it removed, and which
  -- has sent a message.
  abbrev pub noted : DeviceId → Text → List Capability → Text → HostFiles → HostFiles
  noted id label caps b w = record w {
    joins = record {
      pending =
          insert (to_string id ++ text ".json")
            (holds (record {
              device_id = id;
              label = label;
              capabilities = caps;
              received_at = now;
              fingerprint = fingerprint id;
            }))
            w.joins.pending;
      decisions = remove (to_string id ++ text ".json") w.joins.decisions;
    };
    sent = w.sent ++ control_frame b ∷ [];
  }

module _ ⦃hex : Hex⦄ ⦃chrono : Chrono⦄ ⦃ed : Ed25519⦄ ⦃codec : Codec⦄ (disk : Option ℕ) (now : ℕ)
    (uuid : Text) (me : Identity) (ending : Ending) where
  -- That among frames there is an acceptance which verifies under the id of a record.
  unfoldable pub IsTold : DeviceRecord → List Frame → Type 0
  IsTold r [] = ⊥
  IsTold r (f ∷ fs) =
      ((label : Text) × (caps : List Capability) × (signature : Text) × (codec.decode f.payload
          ≡ ok (join_accept r.id label caps signature))
        × (verify_accept r.id label signature ≡ ok tt))
      ⊎ IsTold r fs

  accepted_lem :
      (id : DeviceId) (label : Text) (caps : List Capability) (signature : Text) (n : Node)
      (q : DeviceRecord)
      → (accepted disk now uuid me id label caps signature n).0 ≡ ok q
      → (q.id ≡ id) × (verify_accept id label signature ≡ ok tt)
  unfolding accepted joined_record
  accepted_lem id label caps signature n q e = ground (arith, e)

  -- That the record was there before, or is told by the frames.
  abbrev Known : Option DeviceRecord → DeviceRecord → List Frame → Type 0
  Known host r fs = (host ≡ some r) ⊎ IsTold r fs

  later :
      (host : Option DeviceRecord) (r : DeviceRecord) (f : Frame) (fs : List Frame)
      → Known host r fs
      → Known host r (f ∷ fs)
  unfolding IsTold
  later host r f fs (inl same) = inl same
  later host r f fs (inr told) = inr (inr told)

  told_step :
      (m : ControlMessage) (host : Option DeviceRecord) (f : Frame) (fs : List Frame) (n : Node)
      (r : DeviceRecord)
      → ((h : Option DeviceRecord) (v : Node)
          → (await_host disk now uuid me ending h fs v).0 ≡ ok r
          → Known h r fs)
      → codec.decode f.payload ≡ ok m
      → (await_host disk now uuid me ending host (f ∷ fs) n).0 ≡ ok r
      → Known host r (f ∷ fs)
  unfolding await_host IsTold
  told_step (join_pending host_id host_label message) host f fs n r ih read e =
      later host r f fs (ih host n (ground (arith, read, e)))
  told_step (join_accept id label caps signature) host f fs n r ih read e =
      let call = accepted disk now uuid me id label caps signature n in
      elim (Result-cases call.0) [
        | inr bad ↦ absurd (ground (arith, read, e, bad))
        | inl (q, done) ↦
            let (at_host, verified) = accepted_lem id label caps signature n q done in
            elim (ih (some q) call.1 (ground (arith, read, e, done))) [
              | inr told ↦ inr (inr told)
              | inl same ↦
                  let r_at : id ≡ r.id = ground (arith, same, at_host) in
                  inr (
                    inl (
                      label,
                      caps,
                      signature,
                      subst (λ i. codec.decode f.payload ≡ ok (join_accept i label caps signature))
                          r_at read,
                      subst (λ i. verify_accept i label signature ≡ ok tt) r_at verified,
                    ))
            ]
      ]
  told_step (membership_snapshot nonce roster) host f fs n r ih read e =
      let call = apply_roster disk now uuid me roster n in
      elim (Result-cases call.0) [
        | inr bad ↦ absurd (ground (arith, read, e, bad))
        | inl (k, done) ↦ elim (Option-cases host) [
          | inl new ↦ later host r f fs (
              subst (λ h. Known h r fs) (sym new)
                (ih none call.1 (ground (arith, read, e, done, new))))
          | inr (q, there) ↦ inl (ground (arith, read, e, done, there))
        ]
      ]
  told_step (join_deny reason) host f fs n r ih read e = absurd (ground (arith, read, e))
  told_step _ host f fs n r ih read e = inl (ground (arith, read, e))

  await_host_told :
      (host : Option DeviceRecord) (fs : List Frame) (n : Node) (r : DeviceRecord)
      → (await_host disk now uuid me ending host fs n).0 ≡ ok r
      → Known host r fs
  unfolding await_host at_end
  await_host_told host [] n r e = inl (ground (arith, e))
  await_host_told host (f ∷ fs) n r e = elim (Result-cases (codec.decode f.payload)) [
    | inr bad ↦ absurd (ground (arith, e, bad))
    | inl (m, read) ↦ told_step m host f fs n r (λ h v. await_host_told h fs v r) read e
  ]

  -- A join that succeeds returns the record of a host whose acceptance is among the frames that
  -- were received, with a signature that verifies under the id of that record.
  pub run_join_as_guest-IsTold :
      (conn : Conn) (label : Text) (caps : List Capability) (fs : List Frame) (n : Node)
      (r : DeviceRecord)
      → (run_join_as_guest disk now uuid me conn label caps ending fs n).0 ≡ ok r
      → IsTold r fs
  unfolding run_join_as_guest
  run_join_as_guest-IsTold conn label caps fs n r e =
      elim (await_host_told none fs n r (ground (arith, e))) [
        | inl bad ↦ absurd (ground (arith, bad))
        | inr told ↦ told
      ]
