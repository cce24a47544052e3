-- ===== src/Scan/Readers/Complete.antt =====
-- Call after call, until the workers are done.
use pg_duckdb.Common.{
  ℕ, zero, suc, ◌+◌, ◌≤◌, ◌<◌, ◌≡◌, refl, ap, sym, ◌∙◌, ◌⊎◌, inl, inr, Option, none, some, List, [],
  ◌∷◌, ◌==◌, if◌then◌else◌, length, get_elem?, set, length-set, ◌>>=◌, arith,
}
use pg_duckdb.Scan.Readers.{
  Event, nothing, tuple, Readers, remove, Round, returns, goes_on, wrapped, without_reader,
  round_at, round, follow, get_next_worker_tuple,
}

-- The sum of a measure over all the readers.
unfoldable pub total : (List Event → ℕ) → List (List Event) → ℕ
total f [] = 0
total f (r ∷ rs) = f r + total f rs

total-set :
    (f : List Event → ℕ) (rs : List (List Event)) (n : ℕ) (r r' : List Event)
    → get_elem? rs n ≡ some r
    → total f (set rs n r') + f r ≡ total f rs + f r'
unfolding total
total-set f [] n r r' h = ground arith
total-set f (q ∷ rs) zero r r' h = ground arith
total-set f (q ∷ rs) (suc n) r r' h = ground (arith, total-set f rs n r r' h)

total-remove :
    (f : List Event → ℕ) (rs : List (List Event)) (n : ℕ) (r : List Event)
    → get_elem? rs n ≡ some r
    → total f (remove rs n) + f r ≡ total f rs
unfolding total remove
total-remove f [] n r h = ground arith
total-remove f (q ∷ rs) zero r h = ground arith
total-remove f (q ∷ rs) (suc n) r h = ground (arith, total-remove f rs n r h)

-- Events and readers that are left.
unfoldable pub size : List Event → ℕ
size es = length es + 1

-- How often is the number the tuple?
abbrev pub hit : ℕ → ℕ → ℕ
hit x t = if x == t then 1 else 0

-- How often does a tuple come in the queue?
unfoldable pub queued : ℕ → List Event → ℕ
queued x [] = 0
queued x (nothing ∷ es) = queued x es
queued x (tuple t ∷ es) = hit x t + queued x es

abbrev pub pending : ℕ → Readers → ℕ
pending x s = total (queued x) s.readers

abbrev pub left : Readers → ℕ
left s = total size s.readers

-- The next place is one of a reader, unless there is none.
abbrev pub IsWithin : Readers → Type 0
IsWithin s = (s.readers ≡ []) ⊎ (s.next < length s.readers)

-- A round loses no tuple.
record Kept (x : ℕ) (s t : Readers) (found : ℕ) : Type 0 where
  within : IsWithin t
  same : pending x s ≡ found + pending x t
  less : left t < left s

abbrev KeptRound : ℕ → Readers → Round → Type 0
KeptRound x s (returns t none) = pending x s ≡ 0
KeptRound x s (returns t (some y)) = Kept x s t (hit x y)
KeptRound x s (goes_on t) = Kept x s t 0

get-none : (rs : List (List Event)) (n : ℕ) → get_elem? rs n ≡ none → length rs ≤ n
get-none [] n h = ground arith
get-none (r ∷ rs) zero h = ground arith
get-none (r ∷ rs) (suc n) h = ground (arith, get-none rs n h)

wrapped-within : (n : ℕ) (rs : List (List Event)) → (rs ≡ []) ⊎ (wrapped n rs < length rs)
wrapped-within n [] = inl refl
wrapped-within n (r ∷ rs) = inr (ground arith)

removed-Kept :
    (x : ℕ) (s : Readers) (rs : List (List Event))
    → pending x s ≡ total (queued x) rs
    → left s ≡ total size rs + 1
    → KeptRound x s (without_reader rs s.next)
unfolding total
removed-Kept x s [] h k = h
removed-Kept x s (r ∷ rs) h k = record {
  within = wrapped-within s.next (r ∷ rs);
  same = omega (arith, h);
  less = omega (arith, k);
}

none-Kept :
    (x : ℕ) (rs : List (List Event)) (n : ℕ)
    → (rs ≡ []) ⊎ (n < length rs)
    → get_elem? rs n ≡ none
    → total (queued x) rs ≡ 0
unfolding total
none-Kept x [] n w h = refl
none-Kept x (r ∷ rs) n w h = ground (arith, get-none (r ∷ rs) n h)

round_at-Kept :
    (x : ℕ) (s : Readers) (o : Option (List Event))
    → IsWithin s
    → get_elem? s.readers s.next ≡ o
    → KeptRound x s (round_at s o)
unfolding size queued
round_at-Kept x s none w h = none-Kept x s.readers s.next w h
round_at-Kept x s (some []) w h =
    removed-Kept x s (remove s.readers s.next)
      (omega (arith, total-remove (queued x) s.readers s.next [] h))
      (omega (arith, total-remove size s.readers s.next [] h))
round_at-Kept x s (some (tuple t ∷ es)) w h = record {
  within = ground (arith, get-none s.readers s.next, length-set s.readers s.next es);
  same = ground (arith, total-set (queued x) s.readers s.next (tuple t ∷ es) es h);
  less = omega (arith, total-set size s.readers s.next (tuple t ∷ es) es h);
}
round_at-Kept x s (some (nothing ∷ es)) w h = record {
  within = wrapped-within (s.next + 1) (set s.readers s.next es);
  same = omega (arith, total-set (queued x) s.readers s.next (nothing ∷ es) es h);
  less = omega (arith, total-set size s.readers s.next (nothing ∷ es) es h);
}

-- What a call of the function keeps, for what it returns.
abbrev KeptResult : ℕ → Readers → Readers × Option ℕ → Type 0
KeptResult x s (t, none) = pending x s ≡ 0
KeptResult x s (t, some y) = Kept x s t (hit x y)

Kept-result :
    (x : ℕ) (s t : Readers) (r : Readers × Option ℕ)
    → Kept x s t 0
    → KeptResult x t r
    → KeptResult x s r
Kept-result x s t (u, none) k h = omega (arith, k.same, h)
Kept-result x s t (u, some y) k h = record {
  within = h.within;
  same = omega (arith, k.same, h.same);
  less = omega (arith, k.less, h.less);
}

-- The function returns.
abbrev Returned : ℕ → ℕ → Readers → Type 0
Returned fuel x s =
    (result : Readers × Option ℕ) × (get_next_worker_tuple fuel s ≡ some result)
    × KeptResult x s result

follow-Kept :
    (fuel x : ℕ) (s : Readers) (r : Round)
    → ((t : Readers) → left t < fuel → IsWithin t → Returned fuel x t)
    → left s ≤ fuel
    → KeptRound x s r
    → (result : Readers × Option ℕ) × (follow (get_next_worker_tuple fuel) r ≡ some result)
      × KeptResult x s result
follow-Kept fuel x s (returns t none) again h k = ((t, none), refl, k)
follow-Kept fuel x s (returns t (some y)) again h k = ((t, some y), refl, k)
follow-Kept fuel x s (goes_on t) again h k =
    let (result, e, kept) = again t (omega (arith, k.less, h)) k.within in
    (result, e, Kept-result x s t result k kept)

next-Kept : (fuel x : ℕ) (s : Readers) → left s < fuel → IsWithin s → Returned fuel x s
unfolding get_next_worker_tuple round
next-Kept zero x s h w = absurd (omega (arith, h))
next-Kept (suc fuel) x s h w =
    follow-Kept fuel x s (round s) (next-Kept fuel x) (omega (arith, h))
      (round_at-Kept x s (get_elem? s.readers s.next) w refl)

-- The tuples that so many calls return, up to the first NULL; each call has the same fuel.
abbrev pub gather : (Readers → Option (List ℕ)) → Option (Readers × Option ℕ) → Option (List ℕ)
gather rest none = none
gather rest (some (t, none)) = some []
gather rest (some (t, some y)) = do ys ← rest t; some (y ∷ ys)

unfoldable pub all_tuples : ℕ → ℕ → Readers → Option (List ℕ)
all_tuples fuel zero s = none
all_tuples fuel (suc calls) s = gather (all_tuples fuel calls) (get_next_worker_tuple fuel s)

unfoldable pub count : ℕ → List ℕ → ℕ
count x [] = 0
count x (y ∷ ys) = hit x y + count x ys

gather-count :
    (fuel x : ℕ) (s : Readers) (rest : Readers → Option (List ℕ)) (r : Readers × Option ℕ)
    → KeptResult x s r
    → ((t : Readers)
        → left t < left s
        → IsWithin t
        → (ys : List ℕ) × (rest t ≡ some ys) × (count x ys ≡ pending x t))
    → (ys : List ℕ) × (gather rest (some r) ≡ some ys) × (count x ys ≡ pending x s)
unfolding count
gather-count fuel x s rest (t, none) k again = ([], refl, sym k)
gather-count fuel x s rest (t, some y) k again =
    let (ys, e, c) = again t k.less k.within in (y ∷ ys, rw e refl, omega (arith, c, k.same))

calls-count :
    (fuel x calls : ℕ) (s : Readers)
    → left s < fuel
    → left s < calls
    → IsWithin s
    → (ys : List ℕ) × (all_tuples fuel calls s ≡ some ys) × (count x ys ≡ pending x s)
unfolding all_tuples
calls-count fuel x zero s f h w = absurd (omega (arith, h))
calls-count fuel x (suc calls) s f h w =
    let (r, e, kept) = next-Kept fuel x s f w in
    let (ys, g, c) =
      gather-count fuel x s (all_tuples fuel calls) r kept
        (λ t l v. calls-count fuel x calls t (omega (arith, l, f)) (omega (arith, l, h)) v) in
    (ys, ap (gather (all_tuples fuel calls)) e ∙ g, c)

-- With more fuel and more calls than there are events and workers, the calls of GetNextWorkerTuple
-- end, and before the NULL at the end they return each tuple exactly as often as the workers' queues
-- hold it, whatever the queues hold and however often they have nothing for the moment; the next
-- reader is one that is there, as it is at the start.
pub all_tuples-count :
    (fuel calls x : ℕ) (s : Readers)
    → left s < fuel
    → left s < calls
    → IsWithin s
    → (ys : List ℕ) × (all_tuples fuel calls s ≡ some ys) × (count x ys ≡ pending x s)
all_tuples-count fuel calls x s f h w = calls-count fuel x calls s f h w
