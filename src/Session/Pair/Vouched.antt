-- ===== src/Session/Pair/Vouched.antt =====
-- crates/mymesh-session/src/pair.rs: a side stores a device only where its card was checked.
use my_mesh.Base.{
  ◌≡◌, refl, ap, ◌∙◌, ◌⊎◌, inl, inr, Bool, true, false, arith, if◌then◌else◌, Result-cases, nat_eq,
  text_eq, Result, ok, ◌>>◌, Text, text,
}
use my_mesh.Base.{is_ok}
use my_mesh.Core.Identity.{Hex, id_eq, label_new}
use my_mesh.Core.Device.{trusted, DeviceRecord, upsert}
use my_mesh.Core.Device.Naming.{Unicode}
use my_mesh.Crypto.Identity.{Ed25519, verify}
use my_mesh.Crypto.Words.{PairingCode, password_bytes, parse_code}
use my_mesh.Crypto.Pairing.{Spake, host, guest, SharedSecret, start, finish}
use my_mesh.Protocol.Messages.{
  IdentityCard, PairingMessage, spake, identity_offer, identity_accept, reject,
}
use my_mesh.Session.Pair.{
  Mailbox, PairOutcome, Side, material, binder, spake_of, card, check_card, peer_record,
  accepted_peer, offered_peer,
}
use my_mesh.Session.Pair.Ceremony.{Ceremony, outcome, send_to, run_host_pair_code, run_guest_pair}

module _ ⦃hex : Hex⦄ ⦃ed : Ed25519⦄ ⦃pake : Spake⦄ where
  -- The card is bound to the secret and signed under the key it names; the record has its id.
  pub record IsVouched (secret : SharedSecret) (c : IdentityCard) (peer : DeviceRecord)
      : Type 0 where
    pub bound : binder secret (material c.device_id c.label c.verifying_key) ≡ c.binder
    pub signed :
        verify c.verifying_key (material c.device_id c.label c.verifying_key) c.signature ≡ ok tt
    pub names : peer.id ≡ c.device_id
    pub trusts : peer.trust ≡ trusted

  card_lem :
      (mismatch : Text) (me : Side) (secret : SharedSecret) (c : IdentityCard) (peer : DeviceRecord)
      → check_card mismatch secret c ≡ ok tt
      → peer_record me c ≡ ok peer
      → IsVouched secret c peer
  unfolding check_card peer_record
  card_lem mismatch me secret c peer h k = record {
    bound = ground (arith, h);
    signed = ground (arith, h);
    names = elim (Result-cases (label_new c.label)) [
      | inl (l, e) ↦ ground (arith, e, k)
      | inr bad ↦ ground (arith, bad, k)
    ];
    trusts = elim (Result-cases (label_new c.label)) [
      | inl (l, e) ↦ ground (arith, e, k)
      | inr bad ↦ ground (arith, bad, k)
    ];
  }

  host_card :
      (me : Side) (mail : Mailbox) (secret : SharedSecret) (m : PairingMessage)
      (peer : DeviceRecord)
      → accepted_peer me mail secret m ≡ ok peer
      → (c : IdentityCard) × (m ≡ identity_accept c)
        × (c.device_id.bytes ≡ c.verifying_key)
        × IsVouched secret c peer
  unfolding accepted_peer
  host_card me mail secret (identity_accept c) peer h =
      elim (Result-cases (check_card (text "binder mismatch") secret c)) [
        | inl (u, e) ↦ (
          c,
          refl,
          ground (arith, e, h),
          card_lem (text "binder mismatch") me secret c peer e (ground (arith, e, h)),
        )
        | inr bad ↦ absurd (ground (arith, bad, h))
      ]
  host_card me mail secret (reject reason) peer h = absurd (ground (arith, h))
  host_card me mail secret (spake m) peer h = absurd (ground (arith, h))
  host_card me mail secret (identity_offer c) peer h = absurd (ground (arith, h))

  guest_card :
      (me : Side) (mail : Mailbox) (secret : SharedSecret) (m : PairingMessage)
      (peer : DeviceRecord)
      → offered_peer me mail secret m ≡ ok peer
      → (c : IdentityCard) × (m ≡ identity_offer c) × IsVouched secret c peer
  unfolding offered_peer
  guest_card me mail secret (identity_offer c) peer h =
      elim (Result-cases (check_card (text "host binder mismatch") secret c)) [
        | inl (u, e) ↦ (
          c,
          refl,
          card_lem (text "host binder mismatch") me secret c peer e (ground (arith, e, h)),
        )
        | inr bad ↦ absurd (ground (arith, bad, h))
      ]
  guest_card me mail secret (reject reason) peer h = absurd (ground (arith, h))
  guest_card me mail secret (spake m) peer h = absurd (ground (arith, h))
  guest_card me mail secret (identity_accept c) peer h = absurd (ground (arith, h))

  spake_lem :
      (mail : Mailbox) (m : PairingMessage) (b : Text) → spake_of mail m ≡ ok b → m ≡ spake b
  unfolding spake_of
  spake_lem mail (spake m) b h = ground (arith, h)
  spake_lem mail (reject reason) b h = absurd (ground (arith, h))
  spake_lem mail (identity_offer c) b h = absurd (ground (arith, h))
  spake_lem mail (identity_accept c) b h = absurd (ground (arith, h))

  -- A side of the ceremony stored what its peer said and proved; the host asks more of the card.
  pub record IsPaired (as_host : Bool) (me : Side) (mail : Mailbox) (code : PairingCode)
      (w : Ceremony) (out : Result PairOutcome × Ceremony) : Type 0 where
    pub told : Text
    pub secret : SharedSecret
    pub peer_card : IdentityCard
    pub peer : DeviceRecord
    pub first : mail.on_recv 0 ≡ ok (spake told)
    pub agreed :
        finish (start (if as_host then host else guest) (password_bytes code) me.random) told
        ≡ ok secret
    pub second :
        mail.on_recv 1
        ≡ ok (if as_host then identity_accept peer_card else identity_offer peer_card)
    pub own_key :
        if as_host then (peer_card.device_id.bytes ≡ peer_card.verifying_key) else Unit {0}
    pub vouched : IsVouched secret peer_card peer
    pub result : out.0 ≡ (upsert me.disk peer w.store).0 >> ok (outcome code peer secret)
    pub stored : out.1.store ≡ (upsert me.disk peer w.store).1

  abbrev pub IsRefused : Ceremony → Result PairOutcome × Ceremony → Type 0
  IsRefused w out = (is_ok out.0 ≡ false) × (out.1.store ≡ w.store)

  -- A host that pairs either does not succeed and its store is as it was, or it received the
  -- message of a key exchange that finishes with a secret, and then the acceptance of a device
  -- whose id is its key, whose card is bound to that secret and signed under that key; the store
  -- is then what the write of one record leaves, with that id and trusted, and the result is an
  -- outcome where that write succeeds.
  pub run_host_pair_code_lem :
      (me : Side) (mail : Mailbox) (code : PairingCode) (w : Ceremony)
      → IsRefused w (run_host_pair_code me mail code w)
        ⊎ IsPaired true me mail code w (run_host_pair_code me mail code w)
  unfolding run_host_pair_code send_to
  run_host_pair_code_lem me mail code w =
      let session = start host (password_bytes code) me.random in
      elim (Result-cases (mail.on_send (spake session.outbound_msg))) [
        | inr bad ↦ inl (ground (arith, bad))
        | inl (u, e1) ↦ elim (Result-cases (mail.on_recv 0)) [
          | inr bad ↦ inl (ground (arith, e1, bad))
          | inl (m, e2) ↦ elim (Result-cases (spake_of mail m)) [
            | inr bad ↦ inl (ground (arith, e1, e2, bad))
            | inl (told, e3) ↦ elim (Result-cases (finish session told)) [
              | inr bad ↦ inl (ground (arith, e1, e2, e3, bad))
              | inl (secret, e4) ↦
                  elim (Result-cases (mail.on_send (identity_offer (card me secret)))) [
                    | inr bad ↦ inl (ground (arith, e1, e2, e3, e4, bad))
                    | inl (v, e5) ↦ elim (Result-cases (mail.on_recv 1)) [
                      | inr bad ↦ inl (ground (arith, e1, e2, e3, e4, e5, bad))
                      | inl (answer, e6) ↦
                          elim (Result-cases (accepted_peer me mail secret answer)) [
                            | inr bad ↦ inl (ground (arith, e1, e2, e3, e4, e5, e6, bad))
                            | inl (peer, e7) ↦
                                let (c, is_accept, own, vouched) =
                                  host_card me mail secret answer peer e7 in
                                inr (record {
                                  told = told;
                                  secret = secret;
                                  peer_card = c;
                                  peer = peer;
                                  first = e2 ∙ ap ok (spake_lem mail m told e3);
                                  agreed = e4;
                                  second = e6 ∙ ap ok is_accept;
                                  own_key = own;
                                  vouched = vouched;
                                  result = ground (arith, e1, e2, e3, e4, e5, e6, e7);
                                  stored = ground (arith, e1, e2, e3, e4, e5, e6, e7);
                                })
                          ]
                    ]
                  ]
            ]
          ]
        ]
      ]

  -- A guest that pairs either does not succeed and its store is as it was, or its text is a code,
  -- and it received the message of a key exchange that finishes with a secret, and then an offer
  -- whose card is bound to that secret and signed under the key that the card names; the store is
  -- then what the write of one trusted record with the id of the card leaves, and the result is an
  -- outcome where that write succeeds.
  pub run_guest_pair_lem :
      ⦃uni : Unicode⦄
      → (me : Side) (mail : Mailbox) (raw : Text) (w : Ceremony)
      → IsRefused w (run_guest_pair me mail raw w)
        ⊎ ((code : PairingCode) × (parse_code raw ≡ ok code)
            × IsPaired false me mail code w (run_guest_pair me mail raw w))
  unfolding run_guest_pair send_to
  run_guest_pair_lem me mail raw w = elim (Result-cases (parse_code raw)) [
    | inr bad ↦ inl (ground (arith, bad))
    | inl (code, e0) ↦
        let session = start guest (password_bytes code) me.random in
        elim (Result-cases (mail.on_send (spake session.outbound_msg))) [
          | inr bad ↦ inl (ground (arith, e0, bad))
          | inl (u, e1) ↦ elim (Result-cases (mail.on_recv 0)) [
            | inr bad ↦ inl (ground (arith, e0, e1, bad))
            | inl (m, e2) ↦ elim (Result-cases (spake_of mail m)) [
              | inr bad ↦ inl (ground (arith, e0, e1, e2, bad))
              | inl (told, e3) ↦ elim (Result-cases (finish session told)) [
                | inr bad ↦ inl (ground (arith, e0, e1, e2, e3, bad))
                | inl (secret, e4) ↦ elim (Result-cases (mail.on_recv 1)) [
                  | inr bad ↦ inl (ground (arith, e0, e1, e2, e3, e4, bad))
                  | inl (offer, e5) ↦ elim (Result-cases (offered_peer me mail secret offer)) [
                    | inr bad ↦ inl (ground (arith, e0, e1, e2, e3, e4, e5, bad))
                    | inl (peer, e6) ↦
                        elim (Result-cases (mail.on_send (identity_accept (card me secret)))) [
                          | inr bad ↦ inl (ground (arith, e0, e1, e2, e3, e4, e5, e6, bad))
                          | inl (v, e7) ↦
                              let (c, is_offer, vouched) =
                                guest_card me mail secret offer peer e6 in
                              inr (
                                code,
                                e0,
                                record {
                                  told = told;
                                  secret = secret;
                                  peer_card = c;
                                  peer = peer;
                                  first = e2 ∙ ap ok (spake_lem mail m told e3);
                                  agreed = e4;
                                  second = e5 ∙ ap ok is_offer;
                                  own_key = tt;
                                  vouched = vouched;
                                  result = ground (arith, e0, e1, e2, e3, e4, e5, e6, e7);
                                  stored = ground (arith, e0, e1, e2, e3, e4, e5, e6, e7);
                                },
                              )
                        ]
                  ]
                ]
              ]
            ]
          ]
        ]
  ]
