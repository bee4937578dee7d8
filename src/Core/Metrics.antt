-- ===== src/Core/Metrics.antt =====
-- crates/mymesh-core/src/metrics.rs: the history of probes of a peer. A float is the number of its bits.
use my_mesh.Base.{
  ℕ, suc, ◌+◌, ◌-◌, min, ◌≡◌, refl, ap, ◌∙◌, inl, inr, Bool, Option, none, some, List, [], ◌∷◌,
  ◌++◌, arith, ltb, if◌then◌else◌, Bool-cases, length, drop, length-append, length-drop, ◌==◌,
  ==_self, nat_eq, text_eq, Error, io, serialize, Result, ok, err, JsonFile, corrupt, holds, Text,
  text,
}
use my_mesh.Base.Dict.{Dict, lookup, insert, lookup-insert}
use my_mesh.Core.Identity.{Hex, DeviceId, id_eq, to_string}

abbrev pub max_samples : ℕ
max_samples = 60

pub record LatencySample : Type 0 where
  pub at : ℕ
  pub rtt_ms : Option ℕ
  pub is_ok : Bool
  pub note : Option Text

pub record HostStatsSnap : Type 0 where
  pub at : ℕ
  pub cpu_pct : ℕ
  pub mem_used_bytes : ℕ
  pub mem_total_bytes : ℕ
  pub disk_used_bytes : ℕ
  pub disk_total_bytes : ℕ
  pub net_rx_bytes : ℕ
  pub net_tx_bytes : ℕ
  pub load_1 : ℕ
  pub uptime_secs : ℕ
  pub hostname : Text

pub record BandwidthResult : Type 0 where
  pub at : ℕ
  pub bytes : ℕ
  pub elapsed_ms : ℕ
  pub mbps : ℕ
  pub direction : Text

pub record PeerMetrics : Type 0 where
  pub device_id : Option DeviceId
  pub samples : List LatencySample
  pub last_bandwidth : Option BandwidthResult
  pub last_host : Option HostStatsSnap

-- `while len > MAX_SAMPLES { pop_front }`.
trim_front : List LatencySample → List LatencySample
trim_front [] = []
trim_front (x ∷ xs) =
    let rest = trim_front xs in if ltb max_samples (length (x ∷ xs)) then rest else x ∷ xs

unfoldable pub push_latency : LatencySample → PeerMetrics → PeerMetrics
unfolding trim_front
push_latency s m = record m { samples = trim_front (m.samples ++ s ∷ []) }

-- `iter().rev().find_map`: the last sample with a time.
last_some : List LatencySample → Option ℕ → Option ℕ
last_some [] found = found
last_some (s ∷ xs) found = last_some xs (elim s.rtt_ms [ none ↦ found | some t ↦ some t ])

unfoldable pub latest_rtt : PeerMetrics → Option ℕ
unfolding last_some
latest_rtt m = last_some m.samples none

-- The directory of metrics: a file for each device.
abbrev pub MetricsDir : Type 0
MetricsDir = Dict Text (JsonFile PeerMetrics)

module _ ⦃hex : Hex⦄ where
  unfoldable pub metrics_name : DeviceId → Text
  metrics_name id = to_string id ++ text ".json"

  loaded : DeviceId → Option (JsonFile PeerMetrics) → Result PeerMetrics
  loaded id (some (corrupt message)) = err (serialize message)
  loaded id (some (holds m)) = ok (record m { device_id = some id })
  loaded id _ =
      ok (record { device_id = some id; samples = []; last_bandwidth = none; last_host = none })

  unfoldable pub load_metrics : MetricsDir → DeviceId → Result PeerMetrics
  unfolding loaded metrics_name
  load_metrics dir id = loaded id (lookup (metrics_name id) dir)

  unfoldable pub save_metrics : Option ℕ → PeerMetrics → MetricsDir → Result (Unit {0}) × MetricsDir
  unfolding metrics_name
  save_metrics disk m dir = elim m.device_id [
    | none ↦ (err (Error.other (text "metrics missing device id")), dir)
    | some id ↦ elim disk [
      | none ↦ (ok tt, insert (metrics_name id) (holds m) dir)
      | some e ↦ (err (io e), dir)
    ]
  ]

trim_front_lem : (xs : List LatencySample) → trim_front xs ≡ drop (length xs - max_samples) xs
unfolding trim_front
trim_front_lem [] = refl
trim_front_lem (x ∷ xs) = elim (Bool-cases (ltb max_samples (suc (length xs)))) [
  | inl e ↦
      let more : suc (length xs) - max_samples ≡ suc (length xs - max_samples) = ground arith in
      rw (e, more) (trim_front_lem xs)
  | inr e ↦ let fits : suc (length xs) - max_samples ≡ 0 = ground arith in rw (e, fits) refl
]

-- A pushed sample stands last, and of it and those before the newest sixty are kept.
pub push_latency_lem :
    (s : LatencySample) (m : PeerMetrics)
    → ((push_latency s m).samples ≡ drop (length m.samples + 1 - max_samples) (m.samples ++ s ∷ []))
      × (length (push_latency s m).samples ≡ min max_samples (length m.samples + 1))
unfolding push_latency
push_latency_lem s m =
    let xs = m.samples ++ s ∷ [] in
    let n : length xs ≡ length m.samples + 1 = omega (arith, length-append m.samples (s ∷ [])) in
    let kept = trim_front_lem xs in
    (
      kept ∙ ap (λ k. drop (k - max_samples) xs) n,
      omega (arith, ap length kept, length-drop (length xs - max_samples) xs, n),
    )

module _ ⦃hex : Hex⦄ where
  -- Metrics of a device that are saved are what is next loaded for it; for a device with another
  -- file the load gives what it gave.
  pub load_metrics-save_metrics :
      (m : PeerMetrics) (id j : DeviceId) (dir : MetricsDir)
      → (let mine : PeerMetrics = record m { device_id = some id } in
          let (r, dir') = save_metrics none mine dir in
          (r ≡ ok tt)
          × (load_metrics dir' id ≡ ok mine)
          × (load_metrics dir' j ≡ (
              if metrics_name id == metrics_name j
              then ok (record m { device_id = some j })
              else load_metrics dir j)))
  unfolding load_metrics save_metrics loaded
  load_metrics-save_metrics m id j dir =
      let mine : PeerMetrics = record m { device_id = some id } in
      let name = metrics_name id in
      (
        refl,
        rw (lookup-insert name name (holds mine) dir, ==_self name) refl,
        rw (lookup-insert (metrics_name j) name (holds mine) dir) (ground arith),
      )
