-- ===== src/Session/Handshake/Laws.antt =====
-- crates/mymesh-session/src/session.rs: who gets a session, and with which capabilities.
use my_mesh.Base.{
  em_dash, ◌≡◌, refl, sym, ap, ◌∙◌, inl, inr, Bool, true, false, not, ◌&&◌, List, [], ◌∷◌, ◌++◌,
  arith, if◌then◌else◌, Option-cases, keep_if, contains, ==_self, nat_eq, text_eq, Error,
  permission_denied, Result, ok, err, panic, ◌>>=◌, Text, text,
}
use my_mesh.Core.Identity.{Hex, DeviceId, id_eq, to_string}
use my_mesh.Core.Device.{Capability, cap_eq, DeviceStore, get, is_trusted, allows}
use my_mesh.Crypto.Identity.{Ed25519, device_id}
use my_mesh.Protocol.Frame.{Frame}
use my_mesh.Protocol.Messages.{ControlMessage, hello}
use my_mesh.Session.Handshake.{
  Codec, Session, Conn, Handshake, Local, hello_of, ack_of, control_frame, accepted_caps,
  send_control, check_ack, handshake_dialer, check_hello, answer, handshake_acceptor,
}

>>=-ok :
    {A B : Type 0} (r : Result A) (k : A → Result B) (b : B)
    → (r >>= k) ≡ ok b
    → (a : A) × (r ≡ ok a) × (k a ≡ ok b)
>>=-ok (ok a) k b h = (a, refl, h)
>>=-ok (err e) k b h = cc
>>=-ok panic k b h = cc

ok-injective : {A : Type 0} {a b : A} → ok a ≡ ok b → a ≡ b
ok-injective h = cc

guarded :
    (b : Bool) (e : Error) (y : Handshake) (s : Session)
    → (if not b then (err e, []) else y).0 ≡ ok s
    → (b ≡ true) × (y.0 ≡ ok s)
guarded true e y s h = (refl, h)
guarded false e y s h = cc

contains-keep_if :
    (p : Capability → Bool) (xs : List Capability) (c : Capability)
    → contains (keep_if p xs) c ≡ (contains xs c && p c)
contains-keep_if p [] c = refl
contains-keep_if p (x ∷ xs) c = ground (arith, contains-keep_if p xs c)

-- For a trusted peer, a capability is accepted where it is offered, told, and allowed by the store.
contains-accepted_caps :
    (offered told : List Capability) (store : DeviceStore) (peer : DeviceId) (c : Capability)
    → is_trusted store peer ≡ true
    → contains (accepted_caps offered told (get store peer)) c
      ≡ (contains offered c && contains told c && allows store peer c)
unfolding accepted_caps is_trusted allows
contains-accepted_caps offered told store peer c h = elim (Option-cases (get store peer)) [
  | inl e ↦ ground (arith, e)
  | inr (r, e) ↦ rw e (
      ground (
        arith,
        e,
        contains-keep_if (contains r.capabilities) (keep_if (contains told) offered) c,
        contains-keep_if (contains told) offered c,
      ))
]

module _ ⦃hex : Hex⦄ ⦃ed : Ed25519⦄ ⦃codec : Codec⦄ where
  check_hello_ok :
      (peer : DeviceId) (m : ControlMessage) (told : List Capability)
      → check_hello peer m ≡ ok told
      → (label signature : Text) × (m ≡ hello 1 peer label told signature)
  unfolding check_hello
  check_hello_ok peer (hello v d label t sig) told h = (label, sig, ground arith)
  check_hello_ok peer _ told h = cc

  answer_ok :
      (l : Local) (store : DeviceStore) (conn : Conn) (r : Result (List Capability)) (s : Session)
      → (answer l store conn r).0 ≡ ok s
      → (told : List Capability) × (r ≡ ok told)
        × (s ≡ record {
          local_id = device_id l.identity;
          peer_id = conn.peer;
          capabilities = accepted_caps l.offered told (get store conn.peer);
        })
  unfolding answer
  answer_ok l store conn (ok told) s h =
      let (a, e, f) =
        >>=-ok (send_control conn (ack_of l (accepted_caps l.offered told (get store conn.peer)))).0
          _ s h in
      (told, refl, sym (ok-injective f))
  answer_ok l store conn (err e) s h = cc
  answer_ok l store conn panic s h = cc

  -- A session that an acceptor gets is with a trusted peer, from which it read a hello of version 1
  -- with the peer's own id, and its capabilities are exactly those that this node offers, that the
  -- hello tells, and that the store allows to the peer.
  pub handshake_acceptor_lem :
      (l : Local) (store : DeviceStore) (conn : Conn) (s : Session) (c : Capability)
      → (handshake_acceptor l store conn).0 ≡ ok s
      → (f : Frame) × (told : List Capability) × (label signature : Text) × (is_trusted store
            conn.peer
          ≡ true)
        × (s.peer_id ≡ conn.peer)
        × (conn.recv ≡ ok f)
        × (codec.decode f.payload ≡ ok (hello 1 conn.peer label told signature))
        × (contains s.capabilities c
            ≡ (contains l.offered c && contains told c && allows store conn.peer c))
  unfolding handshake_acceptor
  handshake_acceptor_lem l store conn s c h =
      let (t, h') = guarded (is_trusted store conn.peer) _ _ s h in
      let (told, e, same) = answer_ok l store conn _ s h' in
      let (f, recv, e') = >>=-ok conn.recv _ told e in
      let (m, decoded, e'') = >>=-ok (codec.decode f.payload) _ told e' in
      let (label, signature, is_hello) = check_hello_ok conn.peer m told e'' in
      (
        f,
        told,
        label,
        signature,
        t,
        ap (λ (q : Session). q.peer_id) same,
        recv,
        decoded ∙ ap ok is_hello,
        ap (λ (q : Session). contains q.capabilities c) same
            ∙ contains-accepted_caps l.offered told store conn.peer c t,
      )

  -- A peer that the store does not trust gets no session from either side: the call is refused, and
  -- nothing is sent.
  pub handshake_untrusted :
      (l : Local) (store : DeviceStore) (conn : Conn)
      → is_trusted store conn.peer ≡ false
      → (m : Text) × (m' : Text) × (handshake_dialer l store conn ≡ (err (permission_denied m), []))
        × (handshake_acceptor l store conn ≡ (err (permission_denied m'), []))
  unfolding handshake_dialer handshake_acceptor
  handshake_untrusted l store conn h = (
    text "peer " ++ to_string conn.peer ++ text " is not a linked device",
    text "peer "
        ++ to_string conn.peer
        ++ text " is not a linked device "
        ++ em_dash
        ++ text " unlink/ignore",
    rw h refl,
    rw h refl,
  )

  send_control_ok :
      (conn : Conn) (m : ControlMessage) (b : Text)
      → codec.encode m ≡ ok b
      → conn.send (control_frame b) ≡ ok tt
      → send_control conn m ≡ (ok tt, control_frame b ∷ [])
  unfolding send_control
  send_control_ok conn m b e w = rw (e, send_control, w) refl

  hello_told :
      (l : Local) (peer : DeviceId)
      → peer ≡ device_id l.identity
      → check_hello peer (hello_of l) ≡ ok l.offered
  unfolding check_hello hello_of
  hello_told l peer e = ground arith

  answer_told :
      (l : Local) (store : DeviceStore) (conn : Conn) (told : List Capability) (bytes : Text)
      → codec.encode (ack_of l (accepted_caps l.offered told (get store conn.peer))) ≡ ok bytes
      → conn.send (control_frame bytes) ≡ ok tt
      → answer l store conn (ok told) ≡ (
        ok (record {
          local_id = device_id l.identity;
          peer_id = conn.peer;
          capabilities = accepted_caps l.offered told (get store conn.peer);
        }),
        control_frame bytes ∷ [],
      )
  unfolding answer
  answer_told l store conn told bytes e w = rw (send_control_ok conn _ bytes e w) refl

  -- Where two nodes trust each other, each is who the other takes it for, what is sent is what
  -- arrives, and both messages can be encoded, the handshake ends with a session on each side. The
  -- acceptor's capabilities are those that both sides and its store allow; the dialer's are all that
  -- it offered.
  pub handshake_meets :
      (a b : Local) (sa sb : DeviceStore) (ca cb : Conn) (bytes bytes' : Text)
      → is_trusted sa ca.peer ≡ true
      → is_trusted sb cb.peer ≡ true
      → ca.peer ≡ device_id b.identity
      → cb.peer ≡ device_id a.identity
      → codec.encode (hello_of a) ≡ ok bytes
      → codec.encode (ack_of b (accepted_caps b.offered a.offered (get sb cb.peer))) ≡ ok bytes'
      → ca.send (control_frame bytes) ≡ ok tt
      → cb.send (control_frame bytes') ≡ ok tt
      → cb.recv ≡ ok (control_frame bytes)
      → ca.recv ≡ ok (control_frame bytes')
      → (handshake_dialer a sa ca ≡ (
        ok (record {
          local_id = device_id a.identity;
          peer_id = device_id b.identity;
          capabilities = a.offered;
        }),
        control_frame bytes ∷ [],
      ))
        × (handshake_acceptor b sb cb ≡ (
          ok (record {
            local_id = device_id b.identity;
            peer_id = device_id a.identity;
            capabilities = accepted_caps b.offered a.offered (get sb cb.peer);
          }),
          control_frame bytes' ∷ [],
        ))
  unfolding handshake_dialer handshake_acceptor
  handshake_meets a b sa sb ca cb bytes bytes' ta tb pa pb ea eb wa wb rb ra =
      let accepted = accepted_caps b.offered a.offered (get sb cb.peer) in
      let da = codec.decode-encode _ bytes ea in
      let db = codec.decode-encode _ bytes' eb in
      (
        rw
            (
              ta,
              send_control_ok ca (hello_of a) bytes ea wa,
              ra,
              db,
              ack_of,
              check_ack,
              pa,
              ==_self (device_id b.identity),
            )
            refl,
        rw (tb, rb, da, hello_told a cb.peer pb, answer_told b sb cb a.offered bytes' eb wb)
            (ap
              (λ p. (
                ok (record {
                  local_id = device_id b.identity;
                  peer_id = p;
                  capabilities = accepted;
                }),
                control_frame bytes' ∷ [],
              ))
              pb),
      )
