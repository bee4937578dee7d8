-- ===== src/Session/Carrier/LetIn.antt =====
-- crates/mymesh-session/src/carrier.rs: a request is let in with the token of the open window only, and
-- with that token it is.
use my_mesh.Base.{
  ℕ, ◌≡◌, refl, ◌≢◌, ◌⊎◌, inl, inr, Bool, true, false, Option, some, [], ◌∷◌, ◌++◌, arith,
  Bool-cases, Option-cases, Result-cases, All, nat_eq, text_eq, Text, text, trim-visible, IsVisible,
  starts_with,
}
use my_mesh.Base.{strip_prefix}
use my_mesh.Core.Join.{is_effectively_armed}
use my_mesh.Session.Carrier.{
  Base64, IsUrlSafe, BootstrapToken, Carrier, Moment, PairError, ct_eq, nonempty, bearer,
  extract_bearer, token_until, synced, ensure_bootstrap_locked, arm_or_default, match_token,
  check_token, presented_bytes, presented_token, require_bootstrap,
}
use my_mesh.Session.Carrier.Token.{ct_eq_iff, IsRaw, IsWindow}
use my_mesh.Session.Carrier.Steps.{ensure-IsWindow, ensure_keeps}

module _ ⦃base64 : Base64⦄ where
  -- The request presents the token of the window, which is open both times it is looked at.
  pub record IsLetIn (t : Moment) (header : Option Text) (w : Carrier) (raw : Text) : Type 0 where
    pub told : Text
    pub kept : BootstrapToken
    pub bears : extract_bearer header ≡ some told
    pub decodes : presented_bytes told ≡ some raw
    pub memory : (ensure_bootstrap_locked t w).1.bootstrap ≡ some kept
    pub same : kept.raw ≡ raw
    pub window : IsWindow w t.now kept.until
    pub still : is_effectively_armed t.later (arm_or_default w) ≡ true

  abbrev pub is_refused : PairError ⊎ Text → Bool
  is_refused (inl e) = true
  is_refused (inr raw) = false

  -- Refused, or let in; joins and arm file stay.
  abbrev pub IsKeeping : Carrier → (PairError ⊎ Text) × Carrier → Type 0
  IsKeeping w out = (out.1.joins ≡ w.joins) × (out.1.arm_file ≡ w.arm_file)

  abbrev pub IsAnswer : Moment → Option Text → Carrier → (PairError ⊎ Text) × Carrier → Type 0
  IsAnswer t header w out =
      ((is_refused out.0 ≡ true) × IsKeeping w out)
      ⊎ ((raw : Text) × (out.0 ≡ inr raw) × IsKeeping w out × IsLetIn t header w raw)

  same_arm : (v w : Carrier) → v.arm_file ≡ w.arm_file → arm_or_default v ≡ arm_or_default w
  unfolding arm_or_default
  same_arm v w e = ground (arith, e)

  -- A request is refused, or it bears the token of the window that is open; the joins and the arm
  -- file stay either way.
  pub require_bootstrap_lem :
      (t : Moment) (header : Option Text) (w : Carrier)
      → IsAnswer t header w (require_bootstrap t header w)
  unfolding require_bootstrap presented_token check_token match_token
  require_bootstrap_lem t header w = elim (Option-cases (extract_bearer header)) [
    | inl bare ↦ inl (ground (arith, bare))
    | inr (told, bears) ↦ elim (Option-cases (presented_bytes told)) [
      | inl garbled ↦ inl (ground (arith, bears, garbled))
      | inr (raw, decodes) ↦
          let keeps = ensure_keeps t w in
          elim (Result-cases (ensure_bootstrap_locked t w).0) [
            | inr bad ↦ inl (ground (arith, bears, decodes, bad, keeps))
            | inl (token, ensured) ↦
                let (kept, memory, window) = ensure-IsWindow t w token ensured in
                elim (Bool-cases (ct_eq kept.raw raw)) [
                  | inr differs ↦
                      inl (ground (arith, bears, decodes, ensured, memory, differs, keeps))
                  | inl matches ↦
                      let arm_same = same_arm (ensure_bootstrap_locked t w).1 w keeps.1 in
                      let same = (ct_eq_iff kept.raw raw).0 matches in
                      elim (Bool-cases (is_effectively_armed t.later (arm_or_default w))) [
                        | inr closed ↦ inl (
                            ground (
                              arith, bears, decodes, ensured, memory, matches, closed, arm_same,
                              keeps,
                            ))
                        | inl still ↦ inr (
                          raw,
                          ground (
                            arith, bears, decodes, ensured, memory, matches, same, still, arm_same,
                          ),
                          ground (
                            arith, bears, decodes, ensured, memory, matches, still, arm_same, keeps,
                          ),
                          record {
                            told = told;
                            kept = kept;
                            bears = bears;
                            decodes = decodes;
                            memory = memory;
                            same = same;
                            window = window;
                            still = still;
                          },
                        )
                      ]
                ]
          ]
    ]
  ]

  url_safe-IsVisible : (s : Text) → All IsUrlSafe s → All IsVisible s
  url_safe-IsVisible [] h = tt
  url_safe-IsVisible (c ∷ s) h = (ground (arith, h.0), url_safe-IsVisible s h.1)

  -- The header of a token is read back.
  bears_token :
      (token : Text)
      → All IsUrlSafe token
      → token ≢ []
      → extract_bearer (some (text "Bearer " ++ token)) ≡ some token
  unfolding extract_bearer bearer nonempty strip_prefix starts_with text
  bears_token token h n = ground (arith, trim-visible token (url_safe-IsVisible token h), n)

  -- A request that bears the token in memory is let in and changes nothing.
  pub require_bootstrap_own :
      (t : Moment) (raw : Text) (until : ℕ) (w : Carrier)
      → IsRaw raw
      → w.bootstrap ≡ some (record { raw = raw; until = until })
      → IsWindow w t.now until
      → IsWindow w t.later until
      → require_bootstrap t (some (text "Bearer " ++ base64.encode raw)) w ≡ (inr raw, w)
  unfolding require_bootstrap presented_token check_token match_token presented_bytes
      ensure_bootstrap_locked synced token_until arm_or_default
  require_bootstrap_own t raw until w v e first second = ground (
    arith,
    v,
    e,
    bears_token (base64.encode raw) (base64.encode-IsUrlSafe raw v.1)
        (base64.encode-nonempty raw (ground (arith, v.0))),
    base64.decode-encode raw v.1,
    first.loads,
    first.armed,
    first.ends,
    second.loads,
    second.armed,
    second.ends,
    (ct_eq_iff raw raw).1 refl,
  )
