-- ===== src/Metrics/Piece.antt =====
-- One piece of a metric: what it adds to the rows that the walk holds.
use teecryptor.Prelude.{
  ℕ, ◌+◌, ◌-◌, ◌≤◌, ◌<◌, ◌≡◌, refl, sym, ap, ◌∙◌, inl, inr, true, false, some, List, [], ◌∷◌, ◌++◌,
  map, length, All, arith, Bytes, append-nil, append_assoc, length-append, map-append, ltb, ◌==◌,
  Bool-cases, ◌&&◌,
}
use teecryptor.Metrics.Split.{
  Proto, Metric, ScopeMetrics, ResourceMetrics, ExportRequest, Splitter, usize_max, modify_last,
  place_metric, flush, open_resource, place, push_piece, metric_slice,
}
use teecryptor.Metrics.Rows.{
  Row, metric_rows, scopes_rows, rows, all_rows, resource_of, scope_of, all_rows-append,
}
use teecryptor.Metrics.Shells.{
  modify_last-append, place_metric-open, place_metric-new, rows_last, scopes_rows_last,
  metrics_rows_last, extend_last, extend_scope, IsInside, IsOpen, IsReady, IsChunk,
}

module _ {P : Proto} (encode : ExportRequest P → Bytes) (max : ℕ) where
  -- The closed chunks and the open one hold exactly the rows that the walk has passed.
  abbrev pub Holds : List (Row P) → Splitter P → Type 0
  Holds passed st =
      (rs : List (ExportRequest P)) × (st.chunks ≡ map encode rs)
      × All (IsChunk max) rs
      × (all_rows rs ++ rows st.current ≡ passed)
      × (length (rows st.current) ≡ st.current_points)
      × (st.current_points ≤ max)

  All-last :
      (rs : List (ExportRequest P)) (r : ExportRequest P)
      → All (IsChunk max) rs
      → IsChunk max r
      → All (IsChunk max) (rs ++ (r ∷ []))
  All-last [] r hs h = (h, tt)
  All-last (x ∷ rs) r hs h = (hs.0, All-last rs r hs.1 h)

  all_rows_last :
      (rs : List (ExportRequest P)) (r : ExportRequest P)
      → all_rows (rs ++ (r ∷ [])) ≡ all_rows rs ++ rows r
  all_rows_last rs r =
      all_rows-append rs (r ∷ []) ∙ ap (λ l. all_rows rs ++ l) (append-nil (rows r))

  -- The open request, closed as a chunk.
  pub close :
      (passed : List (Row P)) (st : Splitter P)
      → Holds passed st
      → 0 < st.current_points
      → (rs : List (ExportRequest P)) × (st.chunks ++ (encode st.current ∷ []) ≡ map encode rs)
        × All (IsChunk max) rs
        × (all_rows rs ≡ passed)
  close passed st (rs, made, chunks, held, counted, small) some_points = (
    rs ++ (st.current ∷ []),
    ap (λ l. l ++ (encode st.current ∷ [])) made ∙ sym (map-append encode rs (st.current ∷ [])),
    All-last rs st.current chunks (omega arith, omega arith),
    all_rows_last rs st.current ∙ held,
  )

  flush-Holds :
      (passed : List (Row P)) (points : ℕ) (st : Splitter P)
      → points ≤ max
      → Holds passed st
      → Holds passed (flush encode max points st)
        × ((flush encode max points st).current_points + points ≤ max)
  unfolding flush
  flush-Holds passed points st fits held =
      elim (Bool-cases (ltb max (st.current_points + points) && ltb 0 st.current_points)) [
        | inl full ↦
            let (rs, made, chunks, all) = close passed st held (ground arith) in
            let after : (all_rows rs ++ [] ≡ passed) = append-nil (all_rows rs) ∙ all in
            rw full ((rs, made, chunks, after, refl, omega arith), omega arith)
        | inr room ↦ rw room (held, ground arith)
      ]

  flush-IsOpen :
      (ri : ℕ) (rm : ResourceMetrics P) (si : ℕ) (sm : ScopeMetrics P) (points : ℕ)
      (st : Splitter P)
      → IsOpen ri rm si sm st
      → IsOpen ri rm si sm (flush encode max points st)
  unfolding flush
  flush-IsOpen ri rm si sm points st open_ =
      elim (Bool-cases (ltb max (st.current_points + points) && ltb 0 st.current_points)) [
        | inl full ↦ rw full (inl (inl (inl refl)))
        | inr room ↦ rw room open_
      ]

  open_resource-Holds :
      (passed : List (Row P)) (ri : ℕ) (rm : ResourceMetrics P) (st : Splitter P)
      → Holds passed st
      → Holds passed (open_resource ri rm st)
        × ((open_resource ri rm st).current_points ≡ st.current_points)
  unfolding open_resource
  open_resource-Holds passed ri rm st (rs, made, chunks, all, counted, small) =
      elim (Bool-cases (st.cur_ri == ri)) [
        | inl same ↦ rw same ((rs, made, chunks, all, counted, small), refl)
        | inr other ↦
            let shell : ResourceMetrics P = record rm { scope_metrics = [] } in
            let nothing : (rows (st.current ++ (shell ∷ [])) ≡ rows st.current) =
              rows_last st.current shell ∙ append-nil (rows st.current) in
            rw other (
              (
                rs,
                made,
                chunks,
                ap (λ l. all_rows rs ++ l) nothing ∙ all,
                ap length nothing ∙ counted,
                small,
              ),
              refl,
            )
      ]

  open_resource-IsReady :
      (ri : ℕ) (rm : ResourceMetrics P) (si : ℕ) (sm : ScopeMetrics P) (st : Splitter P)
      → ri < usize_max
      → si < usize_max
      → IsOpen ri rm si sm st
      → IsReady ri rm si sm (open_resource ri rm st)
  unfolding open_resource
  open_resource-IsReady ri rm si sm st small_r small_s (inl (inl stale)) =
      let other : (st.cur_ri == ri) ≡ false = ground arith in
      rw other (refl, inr (omega arith, (st.current, [], refl)))
  open_resource-IsReady ri rm si sm st small_r small_s (inl (inr (same, earlier, inside))) =
      let kept : (st.cur_ri == ri) ≡ true = ground arith in
      rw kept (same, inr (omega arith, inside))
  open_resource-IsReady ri rm si sm st small_r small_s (inr (same, scope, inside)) =
      let kept : (st.cur_ri == ri) ≡ true = ground arith in rw kept (same, inl (scope, inside))

module _ {P : Proto} (rm : ResourceMetrics P) (sm : ScopeMetrics P) (m : Metric P) where
  -- A metric that is placed adds its rows at the end, and leaves its scope open.
  place-IsInside :
      (ri si points : ℕ) (st : Splitter P)
      → IsReady ri rm si sm st
      → (st' : Splitter P) × (place si points sm m st ≡ some st')
        × IsInside ri rm si sm st'
        × (rows st'.current ≡ rows st.current ++ metric_rows (resource_of rm) (scope_of sm) m)
        × (st'.chunks ≡ st.chunks)
        × (st'.current_points ≡ st.current_points + points)
  unfolding place
  place-IsInside ri si points st (here, inl (same, (front, scopes, ms, is))) =
      let kept : (st.cur_si == si) ≡ true = ground arith in
      let new : ScopeMetrics P = record sm { metrics = ms ++ (m ∷ []) } in
      let old : ScopeMetrics P = record sm { metrics = ms } in
      let after : ResourceMetrics P = record rm { scope_metrics = scopes ++ (new ∷ []) } in
      let before : ResourceMetrics P = record rm { scope_metrics = scopes ++ (old ∷ []) } in
      let moved : (modify_last (place_metric true sm m) st.current ≡ some (front ++ (after ∷ []))) =
        rw is (
          modify_last-append (place_metric true sm m) front before after
            (place_metric-open rm sm m scopes ms)) in
      (
        record st {
          current = front ++ (after ∷ []);
          current_points = st.current_points + points;
          cur_si = si;
        },
        rw (kept, moved) refl,
        (here, refl, (front, scopes, ms ++ (m ∷ []), refl)),
        extend_last front before after _ (
              extend_scope (resource_of rm) scopes old new _
                (metrics_rows_last (resource_of rm) (scope_of sm) ms m))
            ∙ ap (λ l. rows l ++ metric_rows (resource_of rm) (scope_of sm) m) (sym is),
        refl,
        refl,
      )
  place-IsInside ri si points st (here, inr (new_, (front, scopes, is))) =
      let other : (st.cur_si == si) ≡ false = ground arith in
      let new : ScopeMetrics P = record sm { metrics = m ∷ [] } in
      let after : ResourceMetrics P = record rm { scope_metrics = scopes ++ (new ∷ []) } in
      let before : ResourceMetrics P = record rm { scope_metrics = scopes } in
      let moved : (modify_last (place_metric false sm m) st.current
          ≡ some (front ++ (after ∷ []))) =
        rw is (
          modify_last-append (place_metric false sm m) front before after
            (place_metric-new rm sm m scopes)) in
      (
        record st {
          current = front ++ (after ∷ []);
          current_points = st.current_points + points;
          cur_si = si;
        },
        rw (other, moved) refl,
        (here, refl, (front, scopes, m ∷ [], refl)),
        extend_last front before after _ (
              scopes_rows_last (resource_of rm) scopes new
              ∙ ap (λ l. scopes_rows (resource_of rm) scopes ++ l)
                  (append-nil (metric_rows (resource_of rm) (scope_of sm) m)))
            ∙ ap (λ l. rows l ++ metric_rows (resource_of rm) (scope_of sm) m) (sym is),
        refl,
        refl,
      )

module _ {P : Proto} (encode : ExportRequest P → Bytes) (max : ℕ) (ri : ℕ) (rm : ResourceMetrics P)
    (si : ℕ) (sm : ScopeMetrics P) (small_r : ri < usize_max) (small_s : si < usize_max) where
  -- A piece that fits a chunk is pushed, with no panic, and is the last that the walk holds.
  pub push_piece-Holds :
      (m : Metric P) (start end : ℕ) (passed : List (Row P)) (st : Splitter P)
      → end - start ≤ max
      → length (metric_rows (resource_of rm) (scope_of sm) (metric_slice m start end)) ≡ end - start
      → Holds encode max passed st
      → IsOpen ri rm si sm st
      → (st' : Splitter P) × (push_piece encode max ri rm si sm m start end st ≡ some st')
        × Holds encode max
            (passed ++ metric_rows (resource_of rm) (scope_of sm) (metric_slice m start end))
            st'
        × IsInside ri rm si sm st'
  unfolding push_piece
  push_piece-Holds m start end passed st fits sized held open_ =
      let st₁ : Splitter P = flush encode max (end - start) st in
      let (held₁, room) = flush-Holds encode max passed (end - start) st fits held in
      let (held₂, same) = open_resource-Holds encode max passed ri rm st₁ held₁ in
      let ready =
        open_resource-IsReady encode max ri rm si sm st₁ small_r small_s
          (flush-IsOpen encode max ri rm si sm (end - start) st open_) in
      let (st', done, inside, more, chunks, points) =
        place-IsInside rm sm (metric_slice m start end) ri si (end - start)
          (open_resource ri rm st₁) ready in
      let (rs, made, bounded, all, counted, small) = held₂ in
      let added = metric_rows (resource_of rm) (scope_of sm) (metric_slice m start end) in
      (
        st',
        done,
        (
          rs,
          chunks ∙ made,
          bounded,
          ap (λ l. all_rows rs ++ l) more
              ∙ sym (append_assoc (all_rows rs) _ added)
              ∙ ap (λ l. l ++ added) all,
          omega (
            arith,
            ap length more,
            length-append (rows (open_resource ri rm st₁).current) added,
            counted,
            points,
            sized,
          ),
          omega (arith, points, same, room),
        ),
        inside,
      )
