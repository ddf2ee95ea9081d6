-- ===== src/Metrics/Shells.antt =====
-- The shells that a walk has open, and what a write below the last of them adds to the rows.
use teecryptor.Prelude.{
  ℕ, ◌≤◌, ◌<◌, ◌≡◌, ◌≢◌, refl, sym, ap, ◌∙◌, ◌⊎◌, true, false, Option, some, List, [], ◌∷◌, ◌++◌,
  length, append-nil, append_assoc,
}
use teecryptor.Metrics.Split.{
  Proto, Metric, ScopeMetrics, ResourceMetrics, ExportRequest, Splitter, usize_max, modify_last,
  push_metric, place_metric,
}
use teecryptor.Metrics.Rows.{
  Row, Under, metric_rows, metrics_rows, scopes_rows, rows, resource_of, scope_of,
  metrics_rows-append, scopes_rows-append, rows-append,
}

pub modify_last-append {ℓ} :
    {A : Type ℓ} (f : A → Option A) (xs : List A) (x y : A)
    → f x ≡ some y
    → modify_last f (xs ++ (x ∷ [])) ≡ some (xs ++ (y ∷ []))
modify_last-append f [] x y h = rw h
modify_last-append f (a ∷ []) x y h = rw h
modify_last-append f (a ∷ b ∷ xs) x y h = rw (modify_last-append f (b ∷ xs) x y h)

module _ {P : Proto} where
  -- The last scope of the last resource is the one of the walk.
  abbrev pub InScope : ResourceMetrics P → ScopeMetrics P → ExportRequest P → Type 0
  InScope rm sm req =
      (front : ExportRequest P) × (scopes : List (ScopeMetrics P)) × (ms : List (Metric P)) × (req
        ≡ front ++ (record rm { scope_metrics = scopes ++ (record sm { metrics = ms } ∷ []) } ∷ []))

  abbrev pub InResource : ResourceMetrics P → ExportRequest P → Type 0
  InResource rm req =
      (front : ExportRequest P) × (scopes : List (ScopeMetrics P)) × (req
        ≡ front ++ (record rm { scope_metrics = scopes } ∷ []))

  -- where the walk stands before the scope `si` of the resource `ri`
  abbrev pub IsBefore : (ri : ℕ) → ResourceMetrics P → (si : ℕ) → Splitter P → Type 0
  IsBefore ri rm si st =
      ((st.cur_ri ≡ usize_max) ⊎ (st.cur_ri < ri))
      ⊎ ((st.cur_ri ≡ ri) × (st.cur_si < si) × InResource rm st.current)

  abbrev pub IsInside :
      (ri : ℕ) → ResourceMetrics P → (si : ℕ) → ScopeMetrics P → Splitter P → Type 0
  IsInside ri rm si sm st = (st.cur_ri ≡ ri) × (st.cur_si ≡ si) × InScope rm sm st.current

  abbrev pub IsOpen : (ri : ℕ) → ResourceMetrics P → (si : ℕ) → ScopeMetrics P → Splitter P → Type 0
  IsOpen ri rm si sm st = IsBefore ri rm si st ⊎ IsInside ri rm si sm st

  -- The resource is open, and the code's test says whether the scope is.
  abbrev pub IsReady :
      (ri : ℕ) → ResourceMetrics P → (si : ℕ) → ScopeMetrics P → Splitter P → Type 0
  IsReady ri rm si sm st =
      (st.cur_ri ≡ ri)
      × (((st.cur_si ≡ si) × InScope rm sm st.current)
          ⊎ ((st.cur_si ≢ si) × InResource rm st.current))

  -- A request of at least one and at most `max` points.
  abbrev pub IsChunk : (max : ℕ) → ExportRequest P → Type 0
  IsChunk max req = (0 < length (rows req)) × (length (rows req) ≤ max)

pub place_metric-open :
    {P : Proto} (rm : ResourceMetrics P) (sm : ScopeMetrics P) (m : Metric P)
    (scopes : List (ScopeMetrics P)) (ms : List (Metric P))
    → place_metric true sm m
        (record rm { scope_metrics = scopes ++ (record sm { metrics = ms } ∷ []) })
      ≡ some (record rm { scope_metrics = scopes ++ (record sm { metrics = ms ++ (m ∷ []) } ∷ []) })
unfolding place_metric push_metric
place_metric-open rm sm m scopes ms = rw (
    modify_last-append (λ s. some (push_metric m s)) scopes (record sm { metrics = ms })
      (record sm { metrics = ms ++ (m ∷ []) }) refl)

pub place_metric-new :
    {P : Proto} (rm : ResourceMetrics P) (sm : ScopeMetrics P) (m : Metric P)
    (scopes : List (ScopeMetrics P))
    → place_metric false sm m (record rm { scope_metrics = scopes })
      ≡ some (record rm { scope_metrics = scopes ++ (record sm { metrics = m ∷ [] } ∷ []) })
unfolding place_metric push_metric
place_metric-new rm sm m scopes = rw (
    modify_last-append (λ s. some (push_metric m s)) scopes (record sm { metrics = [] })
      (record sm { metrics = m ∷ [] }) refl)

pub rows_last :
    {P : Proto} (front : ExportRequest P) (rm : ResourceMetrics P)
    → rows (front ++ (rm ∷ [])) ≡ rows front ++ scopes_rows (resource_of rm) rm.scope_metrics
rows_last front rm =
    rows-append front (rm ∷ [])
    ∙ ap (λ l. rows front ++ l) (append-nil (scopes_rows (resource_of rm) rm.scope_metrics))

pub scopes_rows_last :
    {P : Proto} (r : Under P.Resource) (scopes : List (ScopeMetrics P)) (sm : ScopeMetrics P)
    → scopes_rows r (scopes ++ (sm ∷ []))
      ≡ scopes_rows r scopes ++ metrics_rows r (scope_of sm) sm.metrics
scopes_rows_last r scopes sm =
    scopes_rows-append r scopes (sm ∷ [])
    ∙ ap (λ l. scopes_rows r scopes ++ l) (append-nil (metrics_rows r (scope_of sm) sm.metrics))

pub metrics_rows_last :
    {P : Proto} (r : Under P.Resource) (s : Under P.Scope) (ms : List (Metric P)) (m : Metric P)
    → metrics_rows r s (ms ++ (m ∷ [])) ≡ metrics_rows r s ms ++ metric_rows r s m
metrics_rows_last r s ms m =
    metrics_rows-append r s ms (m ∷ [])
    ∙ ap (λ l. metrics_rows r s ms ++ l) (append-nil (metric_rows r s m))

pub extend_last :
    {P : Proto} (front : ExportRequest P) (a b : ResourceMetrics P) (added : List (Row P))
    → scopes_rows (resource_of b) b.scope_metrics
      ≡ scopes_rows (resource_of a) a.scope_metrics ++ added
    → rows (front ++ (b ∷ [])) ≡ rows (front ++ (a ∷ [])) ++ added
extend_last front a b added more =
    rows_last front b
    ∙ ap (λ l. rows front ++ l) more
    ∙ sym (append_assoc (rows front) _ added)
    ∙ ap (λ l. l ++ added) (sym (rows_last front a))

pub extend_scope :
    {P : Proto} (r : Under P.Resource) (scopes : List (ScopeMetrics P)) (a b : ScopeMetrics P)
    (added : List (Row P))
    → metrics_rows r (scope_of b) b.metrics ≡ metrics_rows r (scope_of a) a.metrics ++ added
    → scopes_rows r (scopes ++ (b ∷ [])) ≡ scopes_rows r (scopes ++ (a ∷ [])) ++ added
extend_scope r scopes a b added more =
    scopes_rows_last r scopes b
    ∙ ap (λ l. scopes_rows r scopes ++ l) more
    ∙ sym (append_assoc (scopes_rows r scopes) _ added)
    ∙ ap (λ l. l ++ added) (sym (scopes_rows_last r scopes a))
