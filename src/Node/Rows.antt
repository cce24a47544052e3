-- ===== src/Node/Rows.antt =====
-- Call after call of the scan node.
use mathlib.Core.List.{append_assoc}
use pg_duckdb.Common.{
  ℕ, zero, suc, ◌+◌, ◌≡◌, ◌≢◌, refl, sym, ap, ap₂, ◌∙◌, Bool, true, false, Option, none, some, List,
  [], ◌∷◌, ◌++◌, leb, if◌then◌else◌, length, get_elem?, map, arith, length-append,
}
use pg_duckdb.Node.{
  ScanState, Fetched, tuple, empty_slot, past_end, begun, convert_row, store, read_row, read_chunk,
  fetch, is_empty, exec_fetch, exec_executed, exec_custom_scan,
}

module _ {V D : Type 0} (convert : ℕ → V → Option D) where
  abbrev pub Row : Type 0
  Row = List (Option V)

  -- So many calls, outside of EXPLAIN, and what they return.
  unfoldable pub calls : ℕ → Option (List (List Row)) → ScanState V → ScanState V × List (Fetched D)
  calls zero result s = (s, [])
  calls (suc n) result s =
      let (t, fetched) = exec_custom_scan convert false result s in
      let (u, later) = calls n result t in (u, fetched ∷ later)

  -- The rows of the chunks up to the first empty one, and every one of them converted.
  unfoldable pub rows_of : List (List Row) → List Row
  rows_of [] = []
  rows_of ([] ∷ chunks) = []
  rows_of ((r ∷ rs) ∷ chunks) = (r ∷ rs) ++ rows_of chunks

  -- Rows that all convert, and the tuples that they become.
  pub data Convert : List Row → List (List (Option D)) → Type 0 where
    no_rows : Convert [] []
    and_row :
        {r : Row} {t : List (Option D)} {rs : List Row} {ts : List (List (Option D))}
        → convert_row convert 0 r ≡ some t
        → Convert rs ts
        → Convert (r ∷ rs) (t ∷ ts)

  elem-append : (pre post : List Row) (r : Row) → get_elem? (pre ++ r ∷ post) (length pre) ≡ some r
  elem-append [] post r = refl
  elem-append (p ∷ pre) post r = elem-append pre post r

  -- The node between two calls, with the chunks to come and what of the current one has been read.
  abbrev at_fetch : List (List Row) → Option (List Row) → ℕ → ScanState V
  at_fetch chunks chunk row = record {
    prepared = true;
    is_executed = true;
    fetch_next = true;
    query_results = some chunks;
    current_data_chunk = chunk;
    current_row = row;
  }

  abbrev at_row : List (List Row) → List Row → ℕ → ScanState V
  at_row chunks chunk row = record {
    prepared = true;
    is_executed = true;
    fetch_next = false;
    query_results = some chunks;
    current_data_chunk = some chunk;
    current_row = row;
  }

  -- Reading a row that is there: the next state depends on whether it is the last.
  last-row : (pre : List Row) (r : Row) → leb (length (pre ++ r ∷ [])) (length pre + 1) ≡ true
  last-row [] r = refl
  last-row (p ∷ pre) r = ground (arith, last-row pre r)

  more-rows :
      (pre post : List Row) (r q : Row)
      → leb (length (pre ++ r ∷ q ∷ post)) (length pre + 1) ≡ false
  more-rows [] post r q = ground arith
  more-rows (p ∷ pre) post r q = ground (arith, more-rows pre post r q)

  -- Reading a row that is there: the next state depends on whether it is the last.
  read-last :
      (chunks : List (List Row)) (pre : List Row) (r : Row) (t : List (Option D))
      → convert_row convert 0 r ≡ some t
      → read_chunk convert (at_row chunks (pre ++ r ∷ []) (length pre)) (some (pre ++ r ∷ []))
        ≡ (at_fetch chunks none (length pre + 1), tuple t)
  unfolding read_chunk
  read-last chunks pre r t h = rw (elem-append pre [] r, h, last-row pre r) refl

  read-more :
      (chunks : List (List Row)) (pre post : List Row) (r q : Row) (t : List (Option D))
      → convert_row convert 0 r ≡ some t
      → read_chunk convert
          (at_row chunks (pre ++ r ∷ q ∷ post) (length pre))
          (some (pre ++ r ∷ q ∷ post))
        ≡ (at_row chunks (pre ++ r ∷ q ∷ post) (length pre + 1), tuple t)
  unfolding read_chunk
  read-more chunks pre post r q t h =
      rw (elem-append pre (q ∷ post) r, h, more-rows pre post r q) refl

  -- The same row, counted from the next one on.
  shift :
      (chunks : List (List Row)) (pre post : List Row) (r q : Row)
      → at_row chunks (pre ++ r ∷ q ∷ post) (length pre + 1)
        ≡ at_row chunks ((pre ++ r ∷ []) ++ q ∷ post) (length (pre ++ r ∷ []))
  shift chunks pre post r q =
      ap₂ (at_row chunks) (sym (append_assoc pre (r ∷ []) (q ∷ post)))
        (sym (length-append pre (r ∷ [])))

  calls-chunk :
      (result : Option (List (List Row))) (chunks : List (List Row)) (pre post : List Row) (r : Row)
      (ts : List (List (Option D)))
      → Convert (r ∷ post ++ rows_of chunks) ts
      → (calls (suc (length ts)) result (at_row chunks (pre ++ r ∷ post) (length pre))).1
        ≡ map tuple ts ++ empty_slot ∷ []
  unfolding calls rows_of exec_custom_scan exec_executed
  calls-chunk result [] pre [] r ts (and_row {t = t} h no_rows) = rw (read-last [] pre r t h) refl
  calls-chunk result ([] ∷ chunks) pre [] r ts (and_row {t = t} h no_rows) =
      rw (read-last ([] ∷ chunks) pre r t h) refl
  calls-chunk result ((q ∷ qs) ∷ chunks) pre [] r ts (and_row {t = t} h hs) =
      rw (read-last ((q ∷ qs) ∷ chunks) pre r t h)
        (ap (◌∷◌ (tuple t)) (calls-chunk result chunks [] qs q _ hs))
  calls-chunk result chunks pre (q ∷ post) r ts (and_row {t = t} {ts = us} h hs) =
      rw (read-more chunks pre post r q t h) (
        ap (λ s. tuple t ∷ (calls (suc (length us)) result s).1) (shift chunks pre post r q)
        ∙ ap (◌∷◌ (tuple t)) (calls-chunk result chunks (pre ++ r ∷ []) post q us hs))

  calls-begun :
      (chunks : List (List Row)) (ts : List (List (Option D)))
      → Convert (rows_of chunks) ts
      → (calls (suc (length ts)) (some chunks) (begun V)).1 ≡ map tuple ts ++ empty_slot ∷ []
  unfolding calls rows_of exec_custom_scan exec_executed
  calls-begun [] ts no_rows = refl
  calls-begun ([] ∷ chunks) ts no_rows = refl
  calls-begun ((r ∷ rs) ∷ chunks) ts hs =
      calls-chunk (some ((r ∷ rs) ∷ chunks)) chunks [] rs r ts hs

-- Call after call, the scan node returns every row of the result once, in order, from the first chunk
-- up to the first empty one, and then an empty slot; the rows all convert.
pub calls-rows :
    (V D : Type 0) (convert : ℕ → V → Option D) (chunks : List (List (List (Option V))))
    (ts : List (List (Option D)))
    → Convert convert (rows_of convert chunks) ts
    → (calls convert (suc (length ts)) (some chunks) (begun V)).1 ≡ map tuple ts ++ empty_slot ∷ []
calls-rows V D convert chunks ts h = calls-begun convert chunks ts h

module _ {V D : Type 0} (convert : ℕ → V → Option D) where
  read-none :
      (s : ScanState V) (c : Option (List (List (Option V))))
      → is_empty convert c ≡ true
      → (read_chunk convert s c).1 ≡ past_end
  unfolding read_chunk
  read-none s none h = refl
  read-none s (some []) h = refl
  read-none s (some (r ∷ rs)) h = cc

  store-full :
      (s t : ScanState V) (o : Option (List (Option D))) → (store convert s t o).1 ≢ empty_slot
  store-full s t none = ground arith
  store-full s t (some ds) = ground arith

  read_row-full :
      (s : ScanState V) (chunk : List (List (Option V))) (o : Option (List (Option V)))
      → (read_row convert s chunk o).1 ≢ empty_slot
  read_row-full s chunk none = ground arith
  read_row-full s chunk (some vs) = store-full s _ (convert_row convert 0 vs)

  read_chunk-full :
      (s : ScanState V) (c : Option (List (List (Option V))))
      → (read_chunk convert s c).1 ≢ empty_slot
  unfolding read_chunk
  read_chunk-full s none = ground arith
  read_chunk-full s (some chunk) = read_row-full s chunk (get_elem? chunk s.current_row)

  -- The result is executed, and there is no row left.
  record IsAtEnd (s : ScanState V) : Type 0 where
    executed : s.is_executed ≡ true
    fetched : s.fetch_next ≡ false
    nothing_left : is_empty convert s.current_data_chunk ≡ true

  fetch-IsAtEnd :
      (s : ScanState V) (o : Option (List (List (List (Option V)))))
      → s.is_executed ≡ true
      → (exec_fetch convert s o).1 ≡ empty_slot
      → IsAtEnd (exec_fetch convert s o).0
  fetch-IsAtEnd s none e h = ground arith
  fetch-IsAtEnd s (some []) e h = ground arith
  fetch-IsAtEnd s (some ([] ∷ chunks)) e h = ground arith
  fetch-IsAtEnd s (some ((r ∷ rs) ∷ chunks)) e h =
      absurd (read_chunk-full (fetch convert s ((r ∷ rs) ∷ chunks)) (some (r ∷ rs)) h)

  either-IsAtEnd :
      (b : Bool) (s : ScanState V)
      → s.is_executed ≡ true
      → (if b
          then exec_fetch convert s s.query_results
          else read_chunk convert s s.current_data_chunk).1
        ≡ empty_slot
      → IsAtEnd
          (if b
            then exec_fetch convert s s.query_results
            else read_chunk convert s s.current_data_chunk).0
  either-IsAtEnd true s e h = fetch-IsAtEnd s s.query_results e h
  either-IsAtEnd false s e h = absurd (read_chunk-full s s.current_data_chunk h)

  exec-IsAtEnd :
      (s : ScanState V)
      → s.is_executed ≡ true
      → (exec_executed convert s).1 ≡ empty_slot
      → IsAtEnd (exec_executed convert s).0
  unfolding exec_executed
  exec-IsAtEnd s e h = either-IsAtEnd s.fetch_next s e h

  at_end-past_end : (s : ScanState V) → IsAtEnd s → (exec_executed convert s).1 ≡ past_end
  unfolding exec_executed
  at_end-past_end s i = simp (i.fetched) (read-none s s.current_data_chunk i.nothing_left)

  exec-executed :
      (result : Option (List (List (List (Option V))))) (s : ScanState V)
      → s.is_executed ≡ true
      → exec_custom_scan convert false result s ≡ exec_executed convert s
  unfolding exec_custom_scan
  exec-executed result s e = simp (e) refl

-- A call after the one that returned the empty slot reads a row of a chunk that is not there.
pub exec_custom_scan-again :
    (V D : Type 0) (convert : ℕ → V → Option D) (result : Option (List (List (List (Option V)))))
    (s : ScanState V)
    → s.is_executed ≡ true
    → (exec_custom_scan convert false result s).1 ≡ empty_slot
    → (exec_custom_scan convert false result (exec_custom_scan convert false result s).0).1
      ≡ past_end
exec_custom_scan-again V D convert result s e h =
    let first = exec-executed convert result s e in
    let i = exec-IsAtEnd convert s e (sym (ap (λ r. r.1) first) ∙ h) in
    ap (λ r. (exec_custom_scan convert false result r.0).1) first
    ∙ ap (λ r. r.1) (exec-executed convert result (exec_executed convert s).0 i.executed)
    ∙ at_end-past_end convert (exec_executed convert s).0 i
