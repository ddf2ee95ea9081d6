-- ===== src/Metrics/SplitLaws.antt =====
-- The whole walk: nothing is lost or moved, and every chunk keeps to the cap.
use teecryptor.Prelude.{
  ℕ, zero, suc, ◌+◌, ◌-◌, ◌≤◌, ◌<◌, ◌≡◌, refl, sym, ap, ◌∙◌, ◌⊎◌, inl, inr, false, some, List, [],
  ◌∷◌, ◌++◌, map, length, take, drop, All, arith, Bytes, append-nil, append_assoc, length-map,
  length-take, length-drop, take-drop, take_all, map-append, ltb, leb, ◌==◌, Bool-cases,
  if◌then◌else◌, Result, ok,
}
use mathlib.Core.Path.{subst}
use teecryptor.Metrics.Split.{
  Proto, Metric, ScopeMetrics, ResourceMetrics, ExportRequest, Splitter, usize_max, slice,
  piece_end, point_count, metric_slice, total_points, split_metric, split_metrics, split_scopes,
  split_resources, nothing_split, last_chunk, split_request,
}
use teecryptor.Metrics.Rows.{
  Row, points, row, metric_rows, metrics_rows, scopes_rows, rows, all_rows, resource_of, scope_of,
  metric_slice-rows, point_count-rows,
}
use teecryptor.Metrics.Shells.{IsBefore, IsOpen, IsChunk}
use teecryptor.Metrics.Piece.{Holds, close, push_piece-Holds}

length_zero : {A : Type 0} (xs : List A) → length xs ≡ 0 → xs ≡ []
length_zero [] e = refl
length_zero (x ∷ xs) e = absurd (omega arith)

piece_end_bounds :
    (max n start : ℕ)
    → 0 < max
    → start < n
    → (start < piece_end max n start)
      × (piece_end max n start ≤ n)
      × (piece_end max n start - start ≤ max)
piece_end_bounds max n start positive more = ground arith

module _ {P : Proto} (encode : ExportRequest P → Bytes) (max : ℕ) (positive : 0 < max) (ri : ℕ)
    (rm : ResourceMetrics P) (small_r : ri < usize_max) where
  module _ (si : ℕ) (sm : ScopeMetrics P) (small_s : si < usize_max) where
    -- the rows of the first `n` points of a metric
    abbrev rows_upto : Metric P → (n : ℕ) → List (Row P)
    rows_upto m n = map (row (resource_of rm) (scope_of sm) m) (take n (points m.payload))

    rows_upto-slice :
        (m : Metric P) (start end : ℕ)
        → start ≤ end
        → rows_upto m start ++ metric_rows (resource_of rm) (scope_of sm) (metric_slice m start end)
          ≡ rows_upto m end
    rows_upto-slice m start end ordered =
        let f = row (resource_of rm) (scope_of sm) m in
        let ps = points m.payload in
        let whole : start + (end - start) ≡ end = omega arith in
        ap (λ l. rows_upto m start ++ l)
          (metric_slice-rows (resource_of rm) (scope_of sm) m start end)
        ∙ sym (map-append f (take start ps) (slice ps start end))
        ∙ ap (map f) (take-drop start (end - start) ps)
        ∙ ap (λ n. rows_upto m n) whole

    length-metric_slice :
        (m : Metric P) (start end : ℕ)
        → end ≤ point_count m
        → length (metric_rows (resource_of rm) (scope_of sm) (metric_slice m start end))
          ≡ end - start
    length-metric_slice m start end fits =
        let ps = points m.payload in
        let count : point_count m ≡ length ps =
          point_count-rows (resource_of rm) (scope_of sm) m ∙ length-map _ ps in
        ap length (metric_slice-rows (resource_of rm) (scope_of sm) m start end)
        ∙ length-map _ (slice ps start end)
        ∙ length-take (end - start) (drop start ps) (let left = length-drop start ps in omega arith)

    -- The walk over one metric ends with the fuel of its points, and holds all of them.
    split_metric-Holds :
        (m : Metric P) (fuel start : ℕ) (passed : List (Row P)) (st : Splitter P)
        → point_count m ≤ start + fuel
        → start ≤ point_count m
        → Holds encode max (passed ++ rows_upto m start) st
        → IsOpen ri rm si sm st
        → (st' : Splitter P) × (split_metric encode max ri rm si sm m fuel start st ≡ some st')
          × Holds encode max (passed ++ rows_upto m (point_count m)) st'
          × IsOpen ri rm si sm st'
    unfolding split_metric
    split_metric-Holds m zero start passed st enough within held open_ =
        let over : ltb start (point_count m) ≡ false = ground arith in
        let done : start ≡ point_count m = omega arith in
        (
          st,
          rw over refl,
          subst (λ n. Holds encode max (passed ++ rows_upto m n) st) done held,
          open_,
        )
    split_metric-Holds m (suc fuel) start passed st enough within held open_ =
        elim (Bool-cases (ltb start (point_count m))) [
          | inr over ↦
              let done : start ≡ point_count m = ground arith in
              (
                st,
                rw over refl,
                subst (λ n. Holds encode max (passed ++ rows_upto m n) st) done held,
                open_,
              )
          | inl more ↦
              let end = piece_end max (point_count m) start in
              let (forward, inside, fits) =
                piece_end_bounds max (point_count m) start positive (ground arith) in
              let (st₁, pushed, held₁, here) =
                push_piece-Holds encode max ri rm si sm small_r small_s m start end _ st fits
                  (length-metric_slice m start end inside) held open_ in
              let (st', done, held', open') =
                split_metric-Holds m fuel end passed st₁ (omega arith) inside
                  (subst (λ l. Holds encode max l st₁)
                    (append_assoc passed (rows_upto m start) _
                      ∙ ap (λ l. passed ++ l) (rows_upto-slice m start end (omega arith)))
                    held₁)
                  (inr here) in
              (st', rw (more, pushed) done, held', open')
        ]

    rows_upto_all :
        (m : Metric P) → rows_upto m (point_count m) ≡ metric_rows (resource_of rm) (scope_of sm) m
    rows_upto_all m =
        let count : point_count m ≡ length (points m.payload) =
          point_count-rows (resource_of rm) (scope_of sm) m ∙ length-map _ (points m.payload) in
        ap (λ n. rows_upto m n) count
        ∙ ap (map (row (resource_of rm) (scope_of sm) m)) (take_all (points m.payload))

    split_one-Holds :
        (m : Metric P) (passed : List (Row P)) (st : Splitter P)
        → Holds encode max passed st
        → IsOpen ri rm si sm st
        → (st' : Splitter P) × ((if point_count m == 0
              then some st
              else split_metric encode max ri rm si sm m (point_count m) 0 st)
            ≡ some st')
          × Holds encode max (passed ++ metric_rows (resource_of rm) (scope_of sm) m) st'
          × IsOpen ri rm si sm st'
    split_one-Holds m passed st held open_ =
        let none_yet : Holds encode max (passed ++ rows_upto m 0) st =
          subst (λ l. Holds encode max l st) (sym (append-nil passed)) held in
        let all = ap (λ l. passed ++ l) (rows_upto_all m) in
        elim (Bool-cases (point_count m == 0)) [
          | inl empty ↦
              let nothing : 0 ≡ point_count m = ground arith in
              (
                st,
                rw empty refl,
                subst (λ l. Holds encode max l st) (ap (λ n. passed ++ rows_upto m n) nothing ∙ all)
                    none_yet,
                open_,
              )
          | inr some_points ↦
              let (st', done, held', open') =
                split_metric-Holds m (point_count m) 0 passed st (omega arith) (omega arith)
                  none_yet open_ in
              (st', rw some_points done, subst (λ l. Holds encode max l st') all held', open')
        ]

    split_metrics-Holds :
        (ms : List (Metric P)) (passed : List (Row P)) (st : Splitter P)
        → Holds encode max passed st
        → IsOpen ri rm si sm st
        → (st' : Splitter P) × (split_metrics encode max ri rm si sm ms st ≡ some st')
          × Holds encode max (passed ++ metrics_rows (resource_of rm) (scope_of sm) ms) st'
          × IsOpen ri rm si sm st'
    unfolding split_metrics
    split_metrics-Holds [] passed st held open_ =
        (st, refl, subst (λ l. Holds encode max l st) (sym (append-nil passed)) held, open_)
    split_metrics-Holds (m ∷ ms) passed st held open_ =
        let (st₁, one, held₁, open₁) = split_one-Holds m passed st held open_ in
        let (st', done, held', open') = split_metrics-Holds ms _ st₁ held₁ open₁ in
        (
          st',
          rw one done,
          subst (λ l. Holds encode max l st')
              (append_assoc passed (metric_rows (resource_of rm) (scope_of sm) m) _) held',
          open',
        )

    -- The next scope finds this one passed.
    IsOpen-IsBefore : (st : Splitter P) → IsOpen ri rm si sm st → IsBefore ri rm (suc si) st
    IsOpen-IsBefore st (inl (inl stale)) = inl stale
    IsOpen-IsBefore st (inl (inr (same, earlier, inside))) = inr (same, omega arith, inside)
    IsOpen-IsBefore st (inr (same, here, (front, scopes, ms, is))) =
        inr (same, omega arith, (front, scopes ++ (record sm { metrics = ms } ∷ []), is))

  split_scopes-Holds :
      (si : ℕ) (sms : List (ScopeMetrics P)) (passed : List (Row P)) (st : Splitter P)
      → si + length sms ≤ usize_max
      → Holds encode max passed st
      → IsBefore ri rm si st
      → (st' : Splitter P) × (split_scopes encode max ri rm si sms st ≡ some st')
        × Holds encode max (passed ++ scopes_rows (resource_of rm) sms) st'
        × ((st'.cur_ri ≡ usize_max) ⊎ (st'.cur_ri < suc ri))
  unfolding split_scopes
  split_scopes-Holds si [] passed st few held before =
      (st, refl, subst (λ l. Holds encode max l st) (sym (append-nil passed)) held, ground arith)
  split_scopes-Holds si (sm ∷ sms) passed st few held before =
      let (st₁, one, held₁, open₁) =
        split_metrics-Holds si sm (omega arith) sm.metrics passed st held (inl before) in
      let (st', done, held', past) =
        split_scopes-Holds (suc si) sms _ st₁ (omega arith) held₁
          (IsOpen-IsBefore si sm (omega arith) st₁ open₁) in
      (
        st',
        rw one done,
        subst (λ l. Holds encode max l st')
            (append_assoc passed (metrics_rows (resource_of rm) (scope_of sm) sm.metrics) _) held',
        past,
      )

module _ {P : Proto} (encode : ExportRequest P → Bytes) (max : ℕ) (positive : 0 < max) where
  -- Every index of the export is below `usize::MAX`, which the walk keeps for "no shell is open".
  abbrev pub IsIndexed : ExportRequest P → Type 0
  IsIndexed req = (length req ≤ usize_max) × All (λ rm. length rm.scope_metrics ≤ usize_max) req

  split_resources-Holds :
      (ri : ℕ) (rms : ExportRequest P) (passed : List (Row P)) (st : Splitter P)
      → ri + length rms ≤ usize_max
      → All (λ rm. length rm.scope_metrics ≤ usize_max) rms
      → Holds encode max passed st
      → (st.cur_ri ≡ usize_max) ⊎ (st.cur_ri < ri)
      → (st' : Splitter P) × (split_resources encode max ri rms st ≡ some st')
        × Holds encode max (passed ++ rows rms) st'
  unfolding split_resources
  split_resources-Holds ri [] passed st few small held before =
      (st, refl, subst (λ l. Holds encode max l st) (sym (append-nil passed)) held)
  split_resources-Holds ri (rm ∷ rms) passed st few small held before =
      let (st₁, one, held₁, past) =
        split_scopes-Holds encode max positive ri rm (omega arith) 0 rm.scope_metrics passed st
          (omega (arith, small.0)) held (inl before) in
      let (st', done, held') =
        split_resources-Holds (suc ri) rms _ st₁ (omega arith) small.1 held₁ past in
      (
        st',
        rw one done,
        subst (λ l. Holds encode max l st')
            (append_assoc passed (scopes_rows (resource_of rm) rm.scope_metrics) _) held',
      )

  last_chunk_lem :
      (passed : List (Row P)) (st : Splitter P)
      → Holds encode max passed st
      → (rs : List (ExportRequest P)) × (last_chunk encode max st ≡ map encode rs)
        × All (IsChunk max) rs
        × (all_rows rs ≡ passed)
  unfolding last_chunk
  last_chunk_lem passed st held = elim (Bool-cases (ltb 0 st.current_points)) [
    | inl left ↦ rw left (close encode max passed st held (ground arith))
    | inr empty ↦
        let (rs, made, chunks, all, counted, small) = held in
        let no_rows : (rows st.current ≡ []) = length_zero (rows st.current) (ground arith) in
        rw empty (
          rs,
          made,
          chunks,
          sym (append-nil (all_rows rs)) ∙ ap (λ l. all_rows rs ++ l) (sym no_rows) ∙ all,
        )
  ]

  -- Splitting ends without a panic, and loses nothing: an export within the cap is passed on as it
  -- came, and a larger one becomes requests of at least one and at most `max` points each, which
  -- hold, one after another, the points of the export in their order, each under its own resource,
  -- scope and metric. The cap is positive and the indexes of the export are below `usize::MAX`.
  pub split_request-IsChunk :
      {DecodeError : Type 0} (decode : Bytes → Result DecodeError (ExportRequest P)) (body : Bytes)
      (req : ExportRequest P)
      → decode body ≡ ok req
      → IsIndexed req
      → ((total_points req ≤ max) × (split_request encode max decode body ≡ some (ok (body ∷ []))))
        ⊎ ((max < total_points req)
            × ((rs : List (ExportRequest P)) × (split_request encode max decode body
                  ≡ some (ok (map encode rs)))
                × All (IsChunk max) rs
                × (all_rows rs ≡ rows req)))
  unfolding split_request
  split_request-IsChunk decode body req read (few, small) =
      elim (Bool-cases (leb (total_points req) max)) [
        | inl within ↦ inl (ground arith, rw (read, split_request, within) refl)
        | inr over ↦
            let (st, walked, held) =
              split_resources-Holds 0 req [] nothing_split (omega arith) small
                ([], refl, tt, refl, refl, omega arith) (inl refl) in
            let (rs, made, chunks, all) = last_chunk_lem (rows req) st held in
            inr (ground arith, (rs, rw (read, split_request, over, walked, made) refl, chunks, all))
      ]
