-- ===== src/Metrics/Tests.antt =====
-- An export of two resources, split at a cap of two points, and the theorem at it.
use teecryptor.Prelude.{
  true, ◌&&◌, all, ◌==◌, if◌then◌else◌, ℕ, ◌+◌, ◌<◌, ◌≤◌, ◌≡◌, refl, ◌⊎◌, some, List, [], ◌∷◌, map,
  All, arith, Bytes, Result, ok, String, false, none,
}
use teecryptor.Metrics.Split.{
  Proto, gauge, histogram, ExportRequest, point_count, total_points, total_scopes, total_metrics,
  metric_slice, place_metric, push_metric, flush, open_resource, place, push_piece, split_metric,
  split_metrics, split_scopes, split_resources, last_chunk, split_request, count_data, slice_data,
}
use teecryptor.Metrics.Rows.{rows, all_rows}
use teecryptor.Metrics.Shells.{IsChunk}
use teecryptor.Decrypt.{as_str, u8, u32}
use teecryptor.Boot.Numbers.{to_string}
use teecryptor.Metrics.LabelLaws.{IsBounded, track_metrics-IsBounded}
use teecryptor.Metrics.Labels.{
  static, rendered, DecryptLabels, default_labels, get_or_init, set_host_chain_id,
  set_acp_presented, set_encryption_type, new_chain_labels, find_label, label, acp_label,
  width_label, outcome_label, timed, DecryptSample, observe_decrypt, contains, decrypt_sample,
  track_metrics, method_label,
}
use teecryptor.Metrics.Health.{Health, Probes, new_health, probed, healthy, probe_round}
use teecryptor.Metrics.HealthLaws.{probe_round-healthy, new_health-IsMonitoring}
use teecryptor.Metrics.SplitLaws.{split_request-IsChunk}

abbrev toy : Proto
toy = record { Resource = ℕ; Scope = ℕ; Meta = ℕ; Shell = Unit {0}; Point = ℕ }

-- Three points under the first resource, and one under the second.
abbrev export : ExportRequest toy
export =
    record {
      resource = 1;
      scope_metrics =
          record {
            scope = 5;
            metrics = record { meta = 7; payload = some (gauge tt (10 ∷ 11 ∷ 12 ∷ [])) } ∷ [];
            schema_url = [];
          }
          ∷ [];
      schema_url = [];
    }
    ∷ record {
      resource = 2;
      scope_metrics =
          record {
            scope = 5;
            metrics = record { meta = 8; payload = some (histogram tt (13 ∷ [])) } ∷ [];
            schema_url = [];
          }
          ∷ [];
      schema_url = [];
    }
    ∷ []

-- An encoding that spells the number of resources and of points.
abbrev sizes : ExportRequest toy → Bytes
sizes req = length_of req ∷ total_points req ∷ []
  where
    length_of : ExportRequest toy → ℕ
    length_of [] = 0
    length_of (rm ∷ rms) = length_of rms + 1

abbrev read : Bytes → Result String (ExportRequest toy)
read body = ok export

-- Two points fill the first chunk; the second has the third of the metric and the next resource.
two_chunks : split_request sizes 2 read [] ≡ some (ok ((1 ∷ 2 ∷ []) ∷ (2 ∷ 2 ∷ []) ∷ []))
unfolding split_request split_resources split_scopes split_metrics split_metric push_piece place
    open_resource flush place_metric push_metric metric_slice slice_data point_count count_data
    total_points total_scopes total_metrics last_chunk
two_chunks = refl

split_request-IsChunk_example :
    ((total_points export ≤ 2) × (split_request sizes 2 read [] ≡ some (ok ([] ∷ []))))
    ⊎ ((2 < total_points export)
        × ((rs : List (ExportRequest toy)) × (split_request sizes 2 read []
              ≡ some (ok (map sizes rs)))
            × All (IsChunk 2) rs
            × (all_rows rs ≡ rows export)))
split_request-IsChunk_example =
    split_request-IsChunk sizes 2 (omega arith) read [] export refl
      (omega arith, (omega arith, (omega arith, tt)))

-- A chain that was up goes down.
abbrev probes : Probes
probes = record { ct_source_up = true; registry_up = true; chain_up = λ id. id == 1 }

abbrev monitored : Health
monitored = new_health (probed true) (1 ∷ 5 ∷ [])

probe_round-healthy_example : healthy (probe_round true (1 ∷ 5 ∷ []) probes monitored) ≡ (
    (probes.ct_source_up && (if true then probes.registry_up else true))
    && all probes.chain_up (1 ∷ 5 ∷ []))
probe_round-healthy_example =
    probe_round-healthy true (1 ∷ 5 ∷ []) probes monitored (refl, (refl, tt))
      (new_health-IsMonitoring true (1 ∷ 5 ∷ [])).0

-- A handler writes the chain and the presence of an ACP; `fetch_decrypt` adds the type.
abbrev written : DecryptLabels
written = set_encryption_type u8 (set_acp_presented true (set_host_chain_id 5 default_labels))

-- The first write of each cell stays.
first_writes :
    set_encryption_type u32 (set_acp_presented false (set_host_chain_id 1 written)) ≡ written
unfolding set_host_chain_id set_acp_presented set_encryption_type get_or_init
first_writes = refl

methods : (method_label "GET" ∷ method_label "FOOBAR" ∷ []) ≡ ("GET" ∷ "OTHER" ∷ [])
unfolding method_label
methods = refl

outcomes :
    (outcome_label (some "ct_not_ready") 204 ∷ outcome_label none 200 ∷ outcome_label none 422 ∷ [])
    ≡ ("ct_not_ready" ∷ "ok" ∷ "rejected" ∷ [])
unfolding outcome_label
outcomes = refl

-- The chain 5 is served, the chain 9 is not.
chain_runs :
    (label (new_chain_labels (4 ∷ 5 ∷ [])) (some 5) ≡ rendered (to_string 5))
    × (label (new_chain_labels (4 ∷ 5 ∷ [])) (some 9) ≡ static "other")
unfolding label find_label new_chain_labels
chain_runs = (refl, refl)

abbrev sample : DecryptSample
sample = record {
  route = "/v2/decrypt";
  host_chain = rendered (to_string 5);
  acp = "present";
  encryption_type = "u8";
  outcome = "ok";
}

recorded :
    (track_metrics (new_chain_labels (4 ∷ 5 ∷ [])) (some "/v2/decrypt") "POST" written none 200 7).1
    ≡ some (sample, some ("/v2/decrypt", "u8", 7))
unfolding track_metrics decrypt_sample contains observe_decrypt timed label find_label
    new_chain_labels acp_label width_label as_str outcome_label set_host_chain_id set_acp_presented
    set_encryption_type get_or_init
recorded = refl

track_metrics-IsBounded_example :
    IsBounded (4 ∷ 5 ∷ []) none written.encryption_type 7 (sample, some ("/v2/decrypt", "u8", 7))
track_metrics-IsBounded_example =
    track_metrics-IsBounded (4 ∷ 5 ∷ []) (some "/v2/decrypt") "POST" written none 200 7
      (sample, some ("/v2/decrypt", "u8", 7)) recorded
