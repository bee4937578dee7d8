-- ===== src/Session/Carrier/Token.antt =====
-- crates/mymesh-session/src/carrier.rs: the token of a window is one, whoever asks and however often,
-- and a request is let in with that token only, while the host is armed.
use my_mesh.Base.{
  ℕ, bit_or, bit_xor, ◌≡◌, refl, ap, ◌∙◌, subst, ◌≢◌, ◌↔◌, true, Option, none, some, [], ◌∷◌, arith,
  ℕ_discrete, length, nat_eq, text_eq, ok, JsonFile, missing, corrupt, holds, Text, IsBytes,
}
use my_mesh.Base.{bit_xor_self, bit_xor_zero, bit_or_zero, or_nothing}
use my_mesh.Core.Join.{ArmState, is_effectively_armed, load_arm}
use my_mesh.Session.Carrier.{
  Base64, BootstrapToken, BootstrapPersist, Carrier, Moment, gathered, ct_eq, mint, restored,
  restore, token_until, synced, ensure_bootstrap_locked,
}

gathered_zero : (v : ℕ) (a b : Text) → length a ≡ length b → gathered v a b ≡ 0 → (v ≡ 0) × (a ≡ b)
unfolding gathered
gathered_zero v [] [] n h = (h, refl)
gathered_zero v [] (y ∷ b) n h = absurd (omega (arith, n))
gathered_zero v (x ∷ a) [] n h = absurd (omega (arith, n))
gathered_zero v (x ∷ a) (y ∷ b) n h =
    let (all_zero, same) = gathered_zero (bit_or v (bit_xor x y)) a b (omega (arith, n)) h in
    let (before, here) = bit_or_zero v (bit_xor x y) all_zero in
    (before, ground (arith, same, bit_xor_zero x y here))

gathered_self : (a : Text) → gathered 0 a a ≡ 0
unfolding gathered
gathered_self [] = refl
gathered_self (x ∷ a) =
    ap (λ d. gathered (bit_or 0 d) a a) (bit_xor_self x)
    ∙ ap (λ d. gathered d a a) or_nothing
    ∙ gathered_self a

-- The comparison of two byte strings holds exactly where they are equal.
pub ct_eq_iff : (a b : Text) → (ct_eq a b ≡ true) ↔ (a ≡ b)
unfolding ct_eq
ct_eq_iff a b = (
  λ h. (gathered_zero 0 a b (ground (arith, h)) (ground (arith, h))).1,
  λ e. subst (λ c. ct_eq a c ≡ true) e (ground (arith, gathered_self a)),
)

abbrev pub IsRaw : Text → Type 0
IsRaw raw = (length raw ≡ 32) × IsBytes raw

module _ ⦃base64 : Base64⦄ where
  abbrev pub kept_in_file : Text → ℕ → BootstrapPersist
  kept_in_file raw until = record { token = base64.encode raw; until = until }

  -- The token in memory is the one in the file, and that of the file is 32 bytes encoded.
  pub record IsKept (w : Carrier) : Type 0 where
    pub memory :
        (b : BootstrapToken)
        → w.bootstrap ≡ some b
        → IsRaw b.raw × (w.bootstrap_file ≡ holds (kept_in_file b.raw b.until))
    pub file :
        (p : BootstrapPersist)
        → w.bootstrap_file ≡ holds p
        → (raw : Text) × IsRaw raw × (p.token ≡ base64.encode raw)

  -- The state with the token of a window.
  abbrev pub with_token : Text → ℕ → Carrier → Carrier
  with_token raw until w = record w {
    bootstrap = some (record { raw = raw; until = until });
    bootstrap_file = holds (kept_in_file raw until);
  }

  -- The server is started anew: what was in memory is gone.
  abbrev pub restarted : Carrier → Carrier
  restarted w = record w { bootstrap = none }

  -- The window is open at `now` and ends at `until`.
  pub record IsWindow (w : Carrier) (now until : ℕ) : Type 0 where
    pub arm : ArmState
    pub loads : load_arm w.arm_file ≡ ok arm
    pub armed : is_effectively_armed now arm ≡ true
    pub ends : arm.until ≡ some until

  mint_lem :
      (t : Moment) (until : ℕ)
      → t.disk ≡ none
      → (w : Carrier) → mint t until w ≡ (ok (base64.encode t.random), with_token t.random until w)
  unfolding mint
  mint_lem t until writes w = ground (arith, writes)

  module _ (t : Moment) (until : ℕ) (drawn : IsRaw t.random) (writes : t.disk ≡ none) where
    restore_lem :
        (w : Carrier) (f : JsonFile BootstrapPersist)
        → w.bootstrap_file ≡ f
        → IsKept w
        → (raw : Text) × IsRaw raw
          × (restore t until f w ≡ (ok (base64.encode raw), with_token raw until w))
    unfolding restore restored
    restore_lem w missing e k = (t.random, drawn, mint_lem t until writes w)
    restore_lem w (corrupt message) e k = (t.random, drawn, mint_lem t until writes w)
    restore_lem w (holds p) e k = elim (ℕ_discrete p.until until) [
      | no n ↦ (t.random, drawn, ground (arith, n, mint_lem t until writes w))
      | yes same ↦
          let (raw, v, shown) = k.file p e in
          (raw, v, ground (arith, same, shown, e, base64.decode-encode raw v.1, v.0))
    ]

    token_lem :
        (w : Carrier) (m : Option BootstrapToken)
        → w.bootstrap ≡ m
        → IsKept w
        → (raw : Text) × IsRaw raw
          × (token_until t until m w ≡ (ok (base64.encode raw), with_token raw until w))
    unfolding token_until
    token_lem w none e k = restore_lem w w.bootstrap_file refl k
    token_lem w (some b) e k = elim (ℕ_discrete b.until until) [
      | no n ↦
          let (raw, v, done) = restore_lem w w.bootstrap_file refl k in
          (raw, v, ground (arith, n, done))
      | yes same ↦ let (v, filed) = k.memory b e in (b.raw, v, ground (arith, same, e, filed))
    ]

    pub ensure_lem :
        (w : Carrier)
        → IsWindow w t.now until
        → IsKept w
        → (raw : Text) × IsRaw raw
          × (ensure_bootstrap_locked t w ≡ (ok (base64.encode raw), with_token raw until w))
    unfolding ensure_bootstrap_locked synced
    ensure_lem w win k =
        let (raw, v, done) = token_lem w w.bootstrap refl k in
        (raw, v, ground (arith, win.loads, win.armed, win.ends, done))

  with_token-IsKept :
      (raw : Text) (until : ℕ) (w : Carrier) → IsRaw raw → IsKept (with_token raw until w)
  with_token-IsKept raw until w v = record {
    memory = λ b e. ground (arith, e, v);
    file = λ p e. (raw, v, ground (arith, e));
  }

  again_lem :
      (t : Moment) (until : ℕ) (raw : Text) (w : Carrier)
      → IsRaw raw
      → IsWindow w t.now until
      → (ensure_bootstrap_locked t (with_token raw until w)
          ≡ (ok (base64.encode raw), with_token raw until w))
        × (ensure_bootstrap_locked t (restarted (with_token raw until w))
            ≡ (ok (base64.encode raw), with_token raw until w))
  unfolding ensure_bootstrap_locked synced token_until restore restored
  again_lem t until raw w v win = (
    ground (arith, win.loads, win.armed, win.ends),
    ground (arith, win.loads, win.armed, win.ends, base64.decode-encode raw v.1, v.0),
  )

  -- Where the disk takes the write and the random bytes are 32, of a state in which the token in
  -- memory is the one in the file, `ensure_bootstrap_locked` makes such a state again, and the
  -- token that it gives is the one that is given at any later time of the same window, also by a
  -- server that has lost its memory.
  pub ensure_bootstrap_locked_lem :
      (t later : Moment) (until : ℕ) (w : Carrier)
      → IsRaw t.random
      → t.disk ≡ none
      → IsKept w
      → IsWindow w t.now until
      → IsWindow w later.now until
      → (raw : Text) × IsKept (with_token raw until w)
        × (ensure_bootstrap_locked t w ≡ (ok (base64.encode raw), with_token raw until w))
        × (ensure_bootstrap_locked later (with_token raw until w)
            ≡ (ok (base64.encode raw), with_token raw until w))
        × (ensure_bootstrap_locked later (restarted (with_token raw until w))
            ≡ (ok (base64.encode raw), with_token raw until w))
  ensure_bootstrap_locked_lem t later until w drawn writes k first second =
      let (raw, v, done) = ensure_lem t until drawn writes w first k in
      let (same, after_restart) = again_lem later until raw w v second in
      (raw, with_token-IsKept raw until w v, done, same, after_restart)

  -- In a window from which neither memory nor the file has a token, the token is the fresh one.
  pub ensure_bootstrap_locked_fresh :
      (t : Moment) (until : ℕ) (w : Carrier)
      → t.disk ≡ none
      → IsWindow w t.now until
      → ((b : BootstrapToken) → w.bootstrap ≡ some b → b.until ≢ until)
      → ((p : BootstrapPersist) → w.bootstrap_file ≡ holds p → p.until ≢ until)
      → ensure_bootstrap_locked t w ≡ (ok (base64.encode t.random), with_token t.random until w)
  unfolding ensure_bootstrap_locked synced token_until restore
  ensure_bootstrap_locked_fresh t until w writes win old_memory old_file =
      ground
        (arith, win.loads, win.armed, win.ends, fresh_token w.bootstrap w.bootstrap_file refl refl)
    where
      fresh_file :
          (f : JsonFile BootstrapPersist)
          → w.bootstrap_file ≡ f
          → restore t until f w ≡ (ok (base64.encode t.random), with_token t.random until w)
      fresh_file missing e = mint_lem t until writes w
      fresh_file (corrupt message) e = mint_lem t until writes w
      fresh_file (holds p) e = ground (arith, old_file p e, mint_lem t until writes w)

      fresh_token :
          (m : Option BootstrapToken) (f : JsonFile BootstrapPersist)
          → w.bootstrap ≡ m
          → w.bootstrap_file ≡ f
          → token_until t until m w ≡ (ok (base64.encode t.random), with_token t.random until w)
      fresh_token none f e d = fresh_file w.bootstrap_file refl
      fresh_token (some b) f e d = ground (arith, old_memory b e, fresh_file w.bootstrap_file refl)
