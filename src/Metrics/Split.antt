-- ===== src/Metrics/Split.antt =====
-- src/metrics/otlp_split.rs: an export is split into requests of at most `max` points.
use teecryptor.Prelude.{
  ℕ, zero, suc, ◌+◌, ◌-◌, Bool, not, ◌&&◌, Option, none, some, List, [], ◌∷◌, ◌++◌, length, take,
  drop, ltb, leb, ◌==◌, if◌then◌else◌, Bytes, Result, ok, err, u64_mod,
}

-- The generated message types of `opentelemetry_proto`: what a message holds besides its points, and
-- the points.
pub record Proto : Type 1 where
  pub Resource : Type 0
  pub Scope : Type 0
  pub Meta : Type 0
  pub Shell : Type 0
  pub Point : Type 0

-- `metric::Data`, each variant with its other fields and its data points.
pub data Data (P : Proto) : Type 0 where
  gauge : P.Shell → List P.Point → Data P
  sum : P.Shell → List P.Point → Data P
  histogram : P.Shell → List P.Point → Data P
  exponential_histogram : P.Shell → List P.Point → Data P
  summary : P.Shell → List P.Point → Data P

pub record Metric (P : Proto) : Type 0 where
  pub meta : P.Meta
  pub payload : Option (Data P)

pub record ScopeMetrics (P : Proto) : Type 0 where
  pub scope : P.Scope
  pub metrics : List (Metric P)
  pub schema_url : Bytes

pub record ResourceMetrics (P : Proto) : Type 0 where
  pub resource : P.Resource
  pub scope_metrics : List (ScopeMetrics P)
  pub schema_url : Bytes

-- `ExportMetricsServiceRequest`
abbrev pub ExportRequest : Proto → Type 0
ExportRequest P = List (ResourceMetrics P)

abbrev pub usize_max : ℕ
usize_max = u64_mod - 1

-- The mutable locals of the walk. `cur_ri` and `cur_si` are `usize_max` when no shell is open.
pub record Splitter (P : Proto) : Type 0 where
  pub chunks : List Bytes
  pub current : ExportRequest P
  pub current_points : ℕ
  pub cur_ri : ℕ
  pub cur_si : ℕ

-- `xs[start..end].to_vec()`
abbrev pub slice {ℓ} : {A : Type ℓ} → List A → (start end : ℕ) → List A
slice xs start end = take (end - start) (drop start xs)

-- `(start + max).min(n)`
abbrev pub piece_end : (max n start : ℕ) → ℕ
piece_end max n start = if leb (start + max) n then start + max else n

-- A write through `last_mut().expect(..)`, which panics (`none`) on an empty list.
abbrev pub modify_last {ℓ} : {A : Type ℓ} → (A → Option A) → List A → Option (List A)
modify_last f [] = none
modify_last f (x ∷ []) = elim (f x) [ none ↦ none | some y ↦ some (y ∷ []) ]
modify_last f (x ∷ y ∷ xs) = elim (modify_last f (y ∷ xs)) [ none ↦ none | some ys ↦ some (x ∷ ys) ]

abbrev pub and_continue : {A B : Type 0} → Option A → (A → Option B) → Option B
and_continue none f = none
and_continue (some a) f = f a

module _ {P : Proto} where
  unfoldable pub count_data : Option (Data P) → ℕ
  count_data (some (gauge d points)) = length points
  count_data (some (sum d points)) = length points
  count_data (some (histogram d points)) = length points
  count_data (some (exponential_histogram d points)) = length points
  count_data (some (summary d points)) = length points
  count_data none = 0

  unfoldable pub point_count : Metric P → ℕ
  unfolding count_data
  point_count m = count_data m.payload

  unfoldable pub slice_data : Option (Data P) → (start end : ℕ) → Option (Data P)
  slice_data (some (gauge d points)) start end = some (gauge d (slice points start end))
  slice_data (some (sum d points)) start end = some (sum d (slice points start end))
  slice_data (some (histogram d points)) start end = some (histogram d (slice points start end))
  slice_data (some (exponential_histogram d points)) start end =
      some (exponential_histogram d (slice points start end))
  slice_data (some (summary d points)) start end = some (summary d (slice points start end))
  slice_data none start end = none

  -- A copy that carries only a range of the points.
  unfoldable pub metric_slice : Metric P → (start end : ℕ) → Metric P
  unfolding slice_data
  metric_slice m start end = record m { payload = slice_data m.payload start end }

  -- The sum that decides whether there is anything to split.
  unfoldable pub total_metrics : List (Metric P) → ℕ
  total_metrics [] = 0
  total_metrics (m ∷ ms) = point_count m + total_metrics ms

  unfoldable pub total_scopes : List (ScopeMetrics P) → ℕ
  total_scopes [] = 0
  total_scopes (sm ∷ sms) = total_metrics sm.metrics + total_scopes sms

  unfoldable pub total_points : ExportRequest P → ℕ
  total_points [] = 0
  total_points (rm ∷ rms) = total_scopes rm.scope_metrics + total_points rms

  unfoldable pub push_metric : Metric P → ScopeMetrics P → ScopeMetrics P
  push_metric m sm = record sm { metrics = sm.metrics ++ (m ∷ []) }

  -- A metric under the scope `sm`, whose shell is pushed first if it is not open.
  unfoldable pub place_metric :
      (open_ : Bool) → ScopeMetrics P → Metric P → ResourceMetrics P → Option (ResourceMetrics P)
  place_metric open_ sm m rm =
      let shells =
        if open_ then rm.scope_metrics else rm.scope_metrics ++ (record sm { metrics = [] } ∷ []) in
      and_continue (modify_last (λ s. some (push_metric m s)) shells)
        (λ scopes. some (record rm { scope_metrics = scopes }))

  unfoldable pub open_resource : (ri : ℕ) → ResourceMetrics P → Splitter P → Splitter P
  open_resource ri rm st =
      if not (st.cur_ri == ri)
      then record st {
        current = st.current ++ (record rm { scope_metrics = [] } ∷ []);
        cur_ri = ri;
        cur_si = usize_max;
      }
      else st

  -- The piece of a metric, once the resource is open.
  unfoldable pub place :
      (si points : ℕ) → ScopeMetrics P → Metric P → Splitter P → Option (Splitter P)
  place si points sm m st =
      and_continue (modify_last (place_metric (st.cur_si == si) sm m) st.current) (λ rms.
        some
          (record st { current = rms; current_points = st.current_points + points; cur_si = si }))

  abbrev pub nothing_split : Splitter P
  nothing_split = record {
    chunks = [];
    current = [];
    current_points = 0;
    cur_ri = usize_max;
    cur_si = usize_max;
  }

module _ {P : Proto} (encode : ExportRequest P → Bytes) (max : ℕ) where
  -- A chunk is closed when the next piece does not fit any more.
  unfoldable pub flush : (points : ℕ) → Splitter P → Splitter P
  flush points st =
      if ltb max (st.current_points + points) && ltb 0 st.current_points
      then record {
        chunks = st.chunks ++ (encode st.current ∷ []);
        current = [];
        current_points = 0;
        cur_ri = usize_max;
        cur_si = usize_max;
      }
      else st

  unfoldable pub push_piece :
      (ri : ℕ)
      → ResourceMetrics P
      → (si : ℕ) → ScopeMetrics P
      → Metric P
      → (start end : ℕ) → Splitter P
      → Option (Splitter P)
  push_piece ri rm si sm m start end st =
      place si (end - start) sm (metric_slice m start end)
        (open_resource ri rm (flush (end - start) st))

module _ {P : Proto} (encode : ExportRequest P → Bytes) (max : ℕ) (ri : ℕ)
    (rm : ResourceMetrics P) where
  -- The `while` of one metric, on fuel; without enough of it the walk has no result.
  unfoldable pub split_metric :
      (si : ℕ) → ScopeMetrics P → Metric P → (fuel start : ℕ) → Splitter P → Option (Splitter P)
  split_metric si sm m zero start st = if ltb start (point_count m) then none else some st
  split_metric si sm m (suc fuel) start st =
      let rest =
        and_continue
          (push_piece encode max ri rm si sm m start (piece_end max (point_count m) start) st)
          (λ st'. split_metric si sm m fuel (piece_end max (point_count m) start) st') in
      if ltb start (point_count m) then rest else some st

  -- a metric without points makes no step of its `while`, as `continue` does
  unfoldable pub split_metrics :
      (si : ℕ) → ScopeMetrics P → List (Metric P) → Splitter P → Option (Splitter P)
  split_metrics si sm [] st = some st
  split_metrics si sm (m ∷ ms) st =
      and_continue
        (if point_count m == 0 then some st else split_metric si sm m (point_count m) 0 st)
        (λ st'. split_metrics si sm ms st')

  unfoldable pub split_scopes : (si : ℕ) → List (ScopeMetrics P) → Splitter P → Option (Splitter P)
  split_scopes si [] st = some st
  split_scopes si (sm ∷ sms) st =
      and_continue (split_metrics si sm sm.metrics st) (λ st'. split_scopes (suc si) sms st')

module _ {P : Proto} (encode : ExportRequest P → Bytes) (max : ℕ) where
  unfoldable pub split_resources : (ri : ℕ) → ExportRequest P → Splitter P → Option (Splitter P)
  split_resources ri [] st = some st
  split_resources ri (rm ∷ rms) st =
      and_continue (split_scopes encode max ri rm 0 rm.scope_metrics st)
        (λ st'. split_resources (suc ri) rms st')

  unfoldable pub last_chunk : Splitter P → List Bytes
  last_chunk st =
      if ltb 0 st.current_points then st.chunks ++ (encode st.current ∷ []) else st.chunks

  -- `none` stands for a panic or a loop that does not end.
  unfoldable pub split_request :
      {DecodeError : Type 0}
      → (decode : Bytes → Result DecodeError (ExportRequest P)) → (body : Bytes)
      → Option (Result DecodeError (List Bytes))
  split_request decode body = elim (decode body) [
    | err e ↦ some (err e)
    | ok req ↦
        if leb (total_points req) max
        then some (ok (body ∷ []))
        else and_continue (split_resources 0 req nothing_split) (λ st. some (ok (last_chunk st)))
  ]
