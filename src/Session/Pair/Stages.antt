-- ===== src/Session/Pair/Stages.antt =====
-- crates/mymesh-session/src/pair.rs: what each side sends and what comes of it, stage by stage, where every
-- send succeeds.
use my_mesh.Base.{
  true, ℕ, ◌≤◌, ◌<◌, ◌≡◌, refl, inl, inr, false, none, some, List, [], ◌∷◌, map, arith,
  Result-cases, length, get_or, nat_eq, text_eq, ok, ◌>>◌, Text, text,
}
use my_mesh.Core.Identity.{Hex, id_eq, fingerprint}
use my_mesh.Core.Device.{trusted, DeviceRecord, DeviceStore, upsert}
use my_mesh.Core.Device.Naming.{Unicode}
use my_mesh.Core.Identity.Laws.{label_new_short}
use my_mesh.Crypto.Identity.{Ed25519, device_id, verify-sign}
use my_mesh.Crypto.Words.{PairingCode, as_string, password_bytes, parse_code}
use my_mesh.Crypto.Pairing.{Spake, host, guest, SharedSecret, start, finish}
use my_mesh.Protocol.Messages.{PairingMessage, spake, identity_offer, identity_accept, reject}
use my_mesh.Session.Pair.{
  Mailbox, Side, material, binder, spake_of, card, check_card, peer_record, accepted_peer,
  offered_peer,
}
use my_mesh.Session.Pair.Ceremony.{
  Sent, Ceremony, outcome, send_to, store_peer, run_host_pair_code, run_guest_pair,
}

-- What the k-th call of `recv` gives to a side: what the other side handed over as its k-th message.
abbrev pub messages : List Sent → List PairingMessage
messages = map (λ (s : Sent). s.message)

pub record IsMail (mail : Mailbox) (arrived : List PairingMessage) : Type 0 where
  pub accepts : (m : PairingMessage) → mail.on_send m ≡ ok tt
  pub gives : (k : ℕ) → k < 2 → mail.on_recv k ≡ ok (get_or arrived k (reject []))

abbrev pub fresh : DeviceStore → Ceremony
fresh store = record { store = store; sent = [] }

module _ ⦃hex : Hex⦄ ⦃ed : Ed25519⦄ ⦃pake : Spake⦄ where
  -- The record that a side makes of the them.
  abbrev pub record_by : Side → Side → DeviceRecord
  record_by me them = record {
    id = device_id them.identity;
    label = record { name = them.label };
    fingerprint = fingerprint (device_id them.identity);
    capabilities = them.capabilities;
    trust = trusted;
    linked_at = me.linked_now;
    last_seen = some me.seen_now;
    endpoint_hint = none;
    mesh_id = none;
    aliases = [];
    groups = [];
  }

  own_key :
      (them : Side) (secret : SharedSecret)
      → (card them secret).device_id.bytes ≡ (card them secret).verifying_key
  unfolding card
  own_key them secret = refl

  own_card_passes :
      (mismatch : Text) (secret : SharedSecret) (them : Side)
      → check_card mismatch secret (card them secret) ≡ ok tt
  unfolding check_card card material binder device_id
  own_card_passes mismatch secret them = ground (
    arith,
    verify-sign them.identity
        (material (device_id them.identity) them.label (device_id them.identity).bytes),
  )

  peer_record-card :
      (me them : Side) (secret : SharedSecret)
      → length them.label ≤ 64
      → peer_record me (card them secret) ≡ ok (record_by me them)
  unfolding peer_record card
  peer_record-card me them secret h = ground (arith, label_new_short them.label h)

  module _ (me : Side) (mail : Mailbox) (accepts : (m : PairingMessage) → mail.on_send m ≡ ok tt)
      (store : DeviceStore) where
    -- Whatever is received, the first message is that of the key exchange.
    pub host_first :
        (code : PairingCode)
        → get_or (messages (run_host_pair_code me mail code (fresh store)).1.sent) 0 (reject [])
          ≡ spake (start host (password_bytes code) me.random).outbound_msg
    unfolding run_host_pair_code send_to store_peer
    host_first code =
        let session = start host (password_bytes code) me.random in
        elim (Result-cases (mail.on_recv 0)) [
          | inr bad ↦ ground (arith, accepts (spake session.outbound_msg), bad)
          | inl (m, e1) ↦ elim (Result-cases (spake_of mail m)) [
            | inr bad ↦ ground (arith, accepts (spake session.outbound_msg), e1, bad)
            | inl (told, e2) ↦ elim (Result-cases (finish session told)) [
              | inr bad ↦ ground (arith, accepts (spake session.outbound_msg), e1, e2, bad)
              | inl (secret, e3) ↦ elim (Result-cases (mail.on_recv 1)) [
                | inr bad ↦ ground (
                  arith,
                  accepts (spake session.outbound_msg),
                  e1,
                  e2,
                  e3,
                  accepts (identity_offer (card me secret)),
                  bad,
                )
                | inl (answer, e4) ↦ elim (Result-cases (accepted_peer me mail secret answer)) [
                  | inr bad ↦ ground (
                    arith,
                    accepts (spake session.outbound_msg),
                    e1,
                    e2,
                    e3,
                    accepts (identity_offer (card me secret)),
                    e4,
                    bad,
                  )
                  | inl (peer, e5) ↦ ground (
                    arith,
                    accepts (spake session.outbound_msg),
                    e1,
                    e2,
                    e3,
                    accepts (identity_offer (card me secret)),
                    e4,
                    e5,
                  )
                ]
              ]
            ]
          ]
        ]

    pub guest_first :
        ⦃uni : Unicode⦄
        → (raw : Text) (code : PairingCode) → parse_code raw ≡ ok code
        → get_or (messages (run_guest_pair me mail raw (fresh store)).1.sent) 0 (reject [])
          ≡ spake (start guest (password_bytes code) me.random).outbound_msg
    unfolding run_guest_pair send_to store_peer
    guest_first raw code e0 =
        let session = start guest (password_bytes code) me.random in
        elim (Result-cases (mail.on_recv 0)) [
          | inr bad ↦ ground (arith, e0, accepts (spake session.outbound_msg), bad)
          | inl (m, e1) ↦ elim (Result-cases (spake_of mail m)) [
            | inr bad ↦ ground (arith, e0, accepts (spake session.outbound_msg), e1, bad)
            | inl (told, e2) ↦ elim (Result-cases (finish session told)) [
              | inr bad ↦ ground (arith, e0, accepts (spake session.outbound_msg), e1, e2, bad)
              | inl (secret, e3) ↦ elim (Result-cases (mail.on_recv 1)) [
                | inr bad ↦
                    ground (arith, e0, accepts (spake session.outbound_msg), e1, e2, e3, bad)
                | inl (offer, e4) ↦ elim (Result-cases (offered_peer me mail secret offer)) [
                  | inr bad ↦
                      ground (arith, e0, accepts (spake session.outbound_msg), e1, e2, e3, e4, bad)
                  | inl (peer, e5) ↦ ground (
                    arith,
                    e0,
                    accepts (spake session.outbound_msg),
                    e1,
                    e2,
                    e3,
                    e4,
                    e5,
                    accepts (identity_accept (card me secret)),
                  )
                ]
              ]
            ]
          ]
        ]

    -- Once a secret is agreed on, the host's second message is its card.
    pub host_second :
        (code : PairingCode) (told : Text) (secret : SharedSecret)
        → mail.on_recv 0 ≡ ok (spake told)
        → finish (start host (password_bytes code) me.random) told ≡ ok secret
        → get_or (messages (run_host_pair_code me mail code (fresh store)).1.sent) 1 (reject [])
          ≡ identity_offer (card me secret)
    unfolding run_host_pair_code send_to store_peer spake_of
    host_second code told secret e1 e3 =
        let session = start host (password_bytes code) me.random in
        elim (Result-cases (mail.on_recv 1)) [
          | inr bad ↦ ground (
            arith,
            accepts (spake session.outbound_msg),
            e1,
            e3,
            accepts (identity_offer (card me secret)),
            bad,
          )
          | inl (answer, e4) ↦ elim (Result-cases (accepted_peer me mail secret answer)) [
            | inr bad ↦ ground (
              arith,
              accepts (spake session.outbound_msg),
              e1,
              e3,
              accepts (identity_offer (card me secret)),
              e4,
              bad,
            )
            | inl (peer, e5) ↦ ground (
              arith,
              accepts (spake session.outbound_msg),
              e1,
              e3,
              accepts (identity_offer (card me secret)),
              e4,
              e5,
            )
          ]
        ]

    pub guest_whole :
        ⦃uni : Unicode⦄
        → (raw : Text) (code : PairingCode) (told : Text) (secret : SharedSecret) (them : Side)
        → parse_code raw ≡ ok code
        → mail.on_recv 0 ≡ ok (spake told)
        → finish (start guest (password_bytes code) me.random) told ≡ ok secret
        → mail.on_recv 1 ≡ ok (identity_offer (card them secret))
        → length them.label ≤ 64
        → let (r, s) = upsert me.disk (record_by me them) store in
          run_guest_pair me mail raw (fresh store) ≡ (
            r >> ok (outcome code (record_by me them) secret),
            record {
              store = s;
              sent =
                  record {
                    code = as_string code;
                    as_host = false;
                    message = spake (start guest (password_bytes code) me.random).outbound_msg;
                  }
                  ∷ record {
                    code = as_string code;
                    as_host = false;
                    message = identity_accept (card me secret);
                  }
                  ∷ [];
            },
          )
    unfolding run_guest_pair send_to store_peer spake_of offered_peer
    guest_whole raw code told secret them e0 e1 e3 e4 fits =
        let session = start guest (password_bytes code) me.random in
        ground (
          arith,
          e0,
          accepts (spake session.outbound_msg),
          e1,
          e3,
          e4,
          own_card_passes (text "host binder mismatch") secret them,
          peer_record-card me them secret fits,
          accepts (identity_accept (card me secret)),
        )

    pub host_whole :
        (code : PairingCode) (told : Text) (secret : SharedSecret) (them : Side)
        → mail.on_recv 0 ≡ ok (spake told)
        → finish (start host (password_bytes code) me.random) told ≡ ok secret
        → mail.on_recv 1 ≡ ok (identity_accept (card them secret))
        → length them.label ≤ 64
        → let (r, s) = upsert me.disk (record_by me them) store in
          run_host_pair_code me mail code (fresh store) ≡ (
            r >> ok (outcome code (record_by me them) secret),
            record {
              store = s;
              sent =
                  record {
                    code = as_string code;
                    as_host = true;
                    message = spake (start host (password_bytes code) me.random).outbound_msg;
                  }
                  ∷ record {
                    code = as_string code;
                    as_host = true;
                    message = identity_offer (card me secret);
                  }
                  ∷ [];
            },
          )
    unfolding run_host_pair_code send_to store_peer spake_of accepted_peer
    host_whole code told secret them e1 e3 e4 fits =
        let session = start host (password_bytes code) me.random in
        let own : (card them secret).device_id.bytes ≡ (card them secret).verifying_key =
          own_key them secret in
        ground (
          arith,
          accepts (spake session.outbound_msg),
          e1,
          e3,
          e4,
          own,
          own_card_passes (text "binder mismatch") secret them,
          peer_record-card me them secret fits,
          accepts (identity_offer (card me secret)),
        )
