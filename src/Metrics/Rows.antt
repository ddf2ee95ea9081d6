-- ===== src/Metrics/Rows.antt =====
-- The abstract view of an export: its points in their order, each with what it stands under.
use teecryptor.Prelude.{
  ℕ, zero, suc, ◌-◌, ◌≡◌, refl, sym, ap, ◌∙◌, Option, none, some, List, [], ◌∷◌, ◌++◌, map, length,
  arith, Bytes, append_assoc, length-append, length-map, take_nil,
}
use teecryptor.Metrics.Split.{
  Proto, Data, Metric, ScopeMetrics, ResourceMetrics, ExportRequest, gauge, sum, histogram,
  exponential_histogram, summary, slice, count_data, slice_data, point_count, metric_slice,
  total_metrics, total_scopes, total_points,
}

-- What a message stands under: its contents and its schema URL.
abbrev pub Under : Type 0 → Type 0
Under A = A × Bytes

-- A point under its resource, its scope and its metric, the metric without its points.
pub record Row (P : Proto) : Type 0 where
  pub resource : Under P.Resource
  pub scope : Under P.Scope
  pub metric : Metric P
  pub point : P.Point

slice_nil : {A : Type 0} (start end : ℕ) → slice {A = A} [] start end ≡ []
slice_nil zero end = take_nil (end - 0)
slice_nil (suc start) end = take_nil (end - suc start)

module _ {P : Proto} where
  abbrev pub points : Option (Data P) → List P.Point
  points none = []
  points (some (gauge d ps)) = ps
  points (some (sum d ps)) = ps
  points (some (histogram d ps)) = ps
  points (some (exponential_histogram d ps)) = ps
  points (some (summary d ps)) = ps

  abbrev pub blank : Option (Data P) → Option (Data P)
  blank none = none
  blank (some (gauge d ps)) = some (gauge d [])
  blank (some (sum d ps)) = some (sum d [])
  blank (some (histogram d ps)) = some (histogram d [])
  blank (some (exponential_histogram d ps)) = some (exponential_histogram d [])
  blank (some (summary d ps)) = some (summary d [])

  abbrev pub resource_of : ResourceMetrics P → Under P.Resource
  resource_of rm = (rm.resource, rm.schema_url)

  abbrev pub scope_of : ScopeMetrics P → Under P.Scope
  scope_of sm = (sm.scope, sm.schema_url)

  abbrev row_of : Under P.Resource → Under P.Scope → P.Meta → Option (Data P) → P.Point → Row P
  row_of rm sm meta empty p = record {
    resource = rm;
    scope = sm;
    metric = record { meta = meta; payload = empty };
    point = p;
  }

  abbrev pub row : Under P.Resource → Under P.Scope → Metric P → P.Point → Row P
  row rm sm m p = row_of rm sm m.meta (blank m.payload) p

  abbrev pub metric_rows : Under P.Resource → Under P.Scope → Metric P → List (Row P)
  metric_rows rm sm m = map (row rm sm m) (points m.payload)

  abbrev pub metrics_rows : Under P.Resource → Under P.Scope → List (Metric P) → List (Row P)
  metrics_rows rm sm [] = []
  metrics_rows rm sm (m ∷ ms) = metric_rows rm sm m ++ metrics_rows rm sm ms

  abbrev pub scopes_rows : Under P.Resource → List (ScopeMetrics P) → List (Row P)
  scopes_rows rm [] = []
  scopes_rows rm (sm ∷ sms) = metrics_rows rm (scope_of sm) sm.metrics ++ scopes_rows rm sms

  abbrev pub rows : ExportRequest P → List (Row P)
  rows [] = []
  rows (rm ∷ rms) = scopes_rows (resource_of rm) rm.scope_metrics ++ rows rms

  -- all requests, one after another
  abbrev pub all_rows : List (ExportRequest P) → List (Row P)
  all_rows [] = []
  all_rows (r ∷ rs) = rows r ++ all_rows rs

  pub metrics_rows-append :
      (rm : Under P.Resource) (sm : Under P.Scope) (xs ys : List (Metric P))
      → metrics_rows rm sm (xs ++ ys) ≡ metrics_rows rm sm xs ++ metrics_rows rm sm ys
  metrics_rows-append rm sm [] ys = refl
  metrics_rows-append rm sm (x ∷ xs) ys =
      ap (λ l. metric_rows rm sm x ++ l) (metrics_rows-append rm sm xs ys)
      ∙ sym (append_assoc (metric_rows rm sm x) _ _)

  pub scopes_rows-append :
      (rm : Under P.Resource) (xs ys : List (ScopeMetrics P))
      → scopes_rows rm (xs ++ ys) ≡ scopes_rows rm xs ++ scopes_rows rm ys
  scopes_rows-append rm [] ys = refl
  scopes_rows-append rm (x ∷ xs) ys =
      ap (λ l. metrics_rows rm (scope_of x) x.metrics ++ l) (scopes_rows-append rm xs ys)
      ∙ sym (append_assoc (metrics_rows rm (scope_of x) x.metrics) _ _)

  pub rows-append : (xs ys : ExportRequest P) → rows (xs ++ ys) ≡ rows xs ++ rows ys
  rows-append [] ys = refl
  rows-append (x ∷ xs) ys =
      ap (λ l. scopes_rows (resource_of x) x.scope_metrics ++ l) (rows-append xs ys)
      ∙ sym (append_assoc (scopes_rows (resource_of x) x.scope_metrics) _ _)

  pub all_rows-append :
      (xs ys : List (ExportRequest P)) → all_rows (xs ++ ys) ≡ all_rows xs ++ all_rows ys
  all_rows-append [] ys = refl
  all_rows-append (x ∷ xs) ys =
      ap (λ l. rows x ++ l) (all_rows-append xs ys) ∙ sym (append_assoc (rows x) _ _)

  count_data-points : (o : Option (Data P)) → count_data o ≡ length (points o)
  unfolding count_data
  count_data-points none = refl
  count_data-points (some (gauge d ps)) = refl
  count_data-points (some (sum d ps)) = refl
  count_data-points (some (histogram d ps)) = refl
  count_data-points (some (exponential_histogram d ps)) = refl
  count_data-points (some (summary d ps)) = refl

  slice_data-points :
      (o : Option (Data P)) (start end : ℕ)
      → points (slice_data o start end) ≡ slice (points o) start end
  unfolding slice_data
  slice_data-points none start end = sym (slice_nil start end)
  slice_data-points (some (gauge d ps)) start end = refl
  slice_data-points (some (sum d ps)) start end = refl
  slice_data-points (some (histogram d ps)) start end = refl
  slice_data-points (some (exponential_histogram d ps)) start end = refl
  slice_data-points (some (summary d ps)) start end = refl

  slice_data-blank :
      (o : Option (Data P)) (start end : ℕ) → blank (slice_data o start end) ≡ blank o
  unfolding slice_data
  slice_data-blank none start end = refl
  slice_data-blank (some (gauge d ps)) start end = refl
  slice_data-blank (some (sum d ps)) start end = refl
  slice_data-blank (some (histogram d ps)) start end = refl
  slice_data-blank (some (exponential_histogram d ps)) start end = refl
  slice_data-blank (some (summary d ps)) start end = refl

  -- A piece of a metric has the rows of its range.
  pub metric_slice-rows :
      (rm : Under P.Resource) (sm : Under P.Scope) (m : Metric P) (start end : ℕ)
      → metric_rows rm sm (metric_slice m start end)
        ≡ map (row rm sm m) (slice (points m.payload) start end)
  unfolding metric_slice
  metric_slice-rows rm sm m start end =
      ap (λ ps. map (row rm sm (metric_slice m start end)) ps)
        (slice_data-points m.payload start end)
      ∙ ap (λ b. map (λ p. row_of rm sm m.meta b p) (slice (points m.payload) start end))
          (slice_data-blank m.payload start end)

  -- What the code counts is the number of rows.
  pub point_count-rows :
      (rm : Under P.Resource) (sm : Under P.Scope) (m : Metric P)
      → point_count m ≡ length (metric_rows rm sm m)
  unfolding point_count
  point_count-rows rm sm m = count_data-points m.payload ∙ sym (length-map (row rm sm m) _)

  total_metrics-rows :
      (rm : Under P.Resource) (sm : Under P.Scope) (ms : List (Metric P))
      → total_metrics ms ≡ length (metrics_rows rm sm ms)
  unfolding total_metrics
  total_metrics-rows rm sm [] = refl
  total_metrics-rows rm sm (m ∷ ms) = omega (
    arith,
    point_count-rows rm sm m,
    total_metrics-rows rm sm ms,
    length-append (metric_rows rm sm m) (metrics_rows rm sm ms),
  )

  total_scopes-rows :
      (rm : Under P.Resource) (sms : List (ScopeMetrics P))
      → total_scopes sms ≡ length (scopes_rows rm sms)
  unfolding total_scopes
  total_scopes-rows rm [] = refl
  total_scopes-rows rm (sm ∷ sms) = omega (
    arith,
    total_metrics-rows rm (scope_of sm) sm.metrics,
    total_scopes-rows rm sms,
    length-append (metrics_rows rm (scope_of sm) sm.metrics) (scopes_rows rm sms),
  )

  total_points-rows : (req : ExportRequest P) → total_points req ≡ length (rows req)
  unfolding total_points
  total_points-rows [] = refl
  total_points-rows (rm ∷ rms) = omega (
    arith,
    total_scopes-rows (resource_of rm) rm.scope_metrics,
    total_points-rows rms,
    length-append (scopes_rows (resource_of rm) rm.scope_metrics) (rows rms),
  )
