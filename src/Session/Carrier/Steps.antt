-- ===== src/Session/Carrier/Steps.antt =====
-- crates/mymesh-session/src/carrier.rs: `ensure_bootstrap_locked` gives a token of the window that is open.
use my_mesh.Base.{
  ℕ, ◌≡◌, refl, sym, ap, ◌∙◌, ◌≢◌, inl, inr, true, false, Option, none, some, arith, ℕ_discrete,
  Bool-cases, Option-cases, Result-cases, length, ◌==◌, nat_eq, text_eq, Result, ok, JsonFile,
  missing, corrupt, holds, Text,
}
use my_mesh.Core.Join.{is_effectively_armed, load_arm}
use my_mesh.Session.Carrier.{
  Base64, BootstrapToken, BootstrapPersist, Carrier, Moment, mint, restored, restore, token_until,
  synced, ensure_bootstrap_locked,
}
use my_mesh.Session.Carrier.Token.{IsWindow}

if_same : (a b : ℕ) → a ≡ b → (a == b) ≡ true
if_same a b e = ground (arith, e)

if_other : (a b : ℕ) → a ≢ b → (a == b) ≡ false
if_other a b n = ground (arith, n)

module _ ⦃base64 : Base64⦄ where
  -- A step gives a token of the window; joins and arm file stay.
  record IsStep (until : ℕ) (w : Carrier) (out : Result Text × Carrier) : Type 0 where
    token : Text
    kept : BootstrapToken
    gives : out.0 ≡ ok token
    memory : out.1.bootstrap ≡ some kept
    window : kept.until ≡ until
    joins : out.1.joins ≡ w.joins
    arm_file : out.1.arm_file ≡ w.arm_file

  mint-IsStep : (t : Moment) (until : ℕ) (w : Carrier) → IsStep until w (mint t until w)
  unfolding mint
  mint-IsStep t until w = record {
    token = base64.encode t.random;
    kept = record { raw = t.random; until = until };
    gives = refl;
    memory = refl;
    window = refl;
    joins = refl;
    arm_file = refl;
  }

  restored-IsStep :
      (t : Moment) (until : ℕ) (p : BootstrapPersist) (d : Option Text) (w : Carrier)
      → p.until ≡ until
      → IsStep until w (restored t until p d w)
  unfolding restored
  restored-IsStep t until p none w e = mint-IsStep t until w
  restored-IsStep t until p (some raw) w e = elim (ℕ_discrete (length raw) 32) [
    | yes long ↦ record {
      token = p.token;
      kept = record { raw = raw; until = p.until };
      gives = ground (arith, long);
      memory = ground (arith, long);
      window = e;
      joins = ground (arith, long);
      arm_file = ground (arith, long);
    }
    | no short ↦ rw (if_other (length raw) 32 short) (mint-IsStep t until w)
  ]

  restore-IsStep :
      (t : Moment) (until : ℕ) (f : JsonFile BootstrapPersist) (w : Carrier)
      → IsStep until w (restore t until f w)
  unfolding restore
  restore-IsStep t until missing w = mint-IsStep t until w
  restore-IsStep t until (corrupt message) w = mint-IsStep t until w
  restore-IsStep t until (holds p) w = elim (ℕ_discrete p.until until) [
    | yes same ↦
        rw (if_same p.until until same) (restored-IsStep t until p (base64.decode p.token) w same)
    | no n ↦ rw (if_other p.until until n) (mint-IsStep t until w)
  ]

  token-IsStep :
      (t : Moment) (until : ℕ) (m : Option BootstrapToken) (w : Carrier)
      → w.bootstrap ≡ m
      → IsStep until w (token_until t until m w)
  unfolding token_until
  token-IsStep t until none w e = restore-IsStep t until w.bootstrap_file w
  token-IsStep t until (some b) w e = elim (ℕ_discrete b.until until) [
    | yes same ↦ record {
      token = base64.encode b.raw;
      kept = b;
      gives = ground (arith, same);
      memory = ground (arith, same, e);
      window = same;
      joins = ground (arith, same);
      arm_file = ground (arith, same);
    }
    | no n ↦ rw (if_other b.until until n) (restore-IsStep t until w.bootstrap_file w)
  ]

  pub ensure-IsWindow :
      (t : Moment) (w : Carrier) (token : Text)
      → (ensure_bootstrap_locked t w).0 ≡ ok token
      → (b : BootstrapToken) × ((ensure_bootstrap_locked t w).1.bootstrap ≡ some b)
        × IsWindow w t.now b.until
  unfolding ensure_bootstrap_locked synced
  ensure-IsWindow t w token h = elim (Result-cases (load_arm w.arm_file)) [
    | inr bad ↦ absurd (ground (arith, bad, h))
    | inl (a, loads) ↦ elim (Bool-cases (is_effectively_armed t.now a)) [
      | inr closed ↦ absurd (ground (arith, loads, closed, h))
      | inl armed ↦ elim (Option-cases a.until) [
        | inl endless ↦ absurd (ground (arith, loads, armed, endless, h))
        | inr (until, ends) ↦
            let step = token-IsStep t until w.bootstrap w refl in
            (
              step.kept,
              ground (arith, loads, armed, ends, step.memory),
              record {
                arm = a;
                loads = loads;
                armed = armed;
                ends = ends ∙ ap some (sym step.window);
              },
            )
      ]
    ]
  ]

  pub ensure_keeps :
      (t : Moment) (w : Carrier)
      → ((ensure_bootstrap_locked t w).1.joins ≡ w.joins)
        × ((ensure_bootstrap_locked t w).1.arm_file ≡ w.arm_file)
  unfolding ensure_bootstrap_locked synced
  ensure_keeps t w = elim (Result-cases (load_arm w.arm_file)) [
    | inr bad ↦ ground (arith, bad)
    | inl (a, loads) ↦ elim (Bool-cases (is_effectively_armed t.now a)) [
      | inr closed ↦ ground (arith, loads, closed)
      | inl armed ↦ elim (Option-cases a.until) [
        | inl endless ↦ ground (arith, loads, armed, endless)
        | inr (until, ends) ↦
            let step = token-IsStep t until w.bootstrap w refl in
            ground (arith, loads, armed, ends, step.joins, step.arm_file)
      ]
    ]
  ]
