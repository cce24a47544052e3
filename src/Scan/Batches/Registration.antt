-- ===== src/Scan/Batches/Registration.antt =====
-- The local states of a scan, as threads create them and come to the end of the scan.
use pg_duckdb.Common.{ℕ, zero, suc, ◌+◌, ◌≤◌, ◌≡◌, ap, ◌∙◌, ◌⊎◌, inl, inr, Bool, true, false, arith}
use pg_duckdb.Common.Int.{ℤ, pos, negsuc}
use pg_duckdb.Scan.Batches.{Global, is_negative, register_local_state, unregister_local_state}

-- The local states that have been registered or refused, and have not come to the end.
pub record Threads : Type 0 where
  pub global : Global
  pub registered : ℕ
  pub refused : ℕ

abbrev pub created : Threads → Global × Bool → Threads
created t (g, true) = record t { global = g; registered = t.registered + 1 }
created t (g, false) = record t { global = g; refused = t.refused + 1 }

-- Each local state is unregistered at most once, refused or not.
pub data Step : Threads → Threads → Type 0 where
  creates : (t : Threads) → Step t (created t (register_local_state t.global))
  ends :
      (t : Threads) (n : ℕ)
      → t.registered ≡ n + 1
      → Step t (record t { global = unregister_local_state t.global; registered = n })
  refused_ends :
      (t : Threads) (n : ℕ)
      → t.refused ≡ n + 1
      → Step t (record t { global = unregister_local_state t.global; refused = n })

pub data Reach (s : Threads) : Threads → Type 0 where
  here : Reach s s
  next : {t u : Threads} → Reach s t → Step t u → Reach s u

abbrev pub start : Threads
start = record {
  global = record { registered_local_states = pos 0; cleanups = 0 };
  registered = 0;
  refused = 0;
}

record IsOpen (t : Threads) : Type 0 where
  counted : t.global.registered_local_states ≡ pos t.registered
  none_refused : t.refused ≡ 0
  no_cleanup : t.global.cleanups ≡ 0

record IsClosed (t : Threads) : Type 0 where
  negative : is_negative t.global.registered_local_states ≡ true
  none_registered : t.registered ≡ 0
  one_cleanup : t.global.cleanups ≡ 1

creates-IsOpen :
    (g : Global) (n r : ℕ)
    → IsOpen (record { global = g; registered = n; refused = r })
    → IsOpen (created (record { global = g; registered = n; refused = r }) (register_local_state g))
unfolding register_local_state
creates-IsOpen g n r i = ground arith

creates-IsClosed :
    (g : Global) (n r : ℕ)
    → IsClosed (record { global = g; registered = n; refused = r })
    → IsClosed
        (created (record { global = g; registered = n; refused = r }) (register_local_state g))
unfolding register_local_state
creates-IsClosed g n r i = ground arith

-- Either the reader is there and the count is that of the registered local states, or it has been
-- cleaned up and none of them is left.
IsCounted : Threads → Type 0
IsCounted t = IsOpen t ⊎ IsClosed t

creates-IsCounted :
    (t : Threads) → IsCounted t → IsCounted (created t (register_local_state t.global))
unfolding IsCounted
creates-IsCounted t (inl i) = inl (creates-IsOpen t.global t.registered t.refused i)
creates-IsCounted t (inr i) = inr (creates-IsClosed t.global t.registered t.refused i)

-- The end of a registered local state, where the count is that many.
open_end :
    (n : ℕ) (z : ℤ) (c r : ℕ)
    → z ≡ pos (n + 1)
    → r ≡ 0
    → c ≡ 0
    → IsCounted (record {
      global = unregister_local_state (record { registered_local_states = z; cleanups = c });
      registered = n;
      refused = r;
    })
unfolding IsCounted unregister_local_state
open_end zero (pos (suc m)) c r e h k = ground arith
open_end (suc n) (pos (suc m)) c r e h k = inl (ground arith)
open_end n (pos zero) c r e h k = ground arith
open_end n (negsuc m) c r e h k = ground arith

-- The end of one that was refused only makes the count more negative.
refused_end :
    (z : ℤ) (c m n : ℕ)
    → is_negative z ≡ true
    → m ≡ 0
    → c ≡ 1
    → IsCounted (record {
      global = unregister_local_state (record { registered_local_states = z; cleanups = c });
      registered = m;
      refused = n;
    })
unfolding IsCounted unregister_local_state
refused_end (pos k) c m n h i j = ground arith
refused_end (negsuc k) c m n h i j = inr (ground arith)

Step-IsCounted : (s t : Threads) → Step s t → IsCounted s → IsCounted t
unfolding IsCounted
Step-IsCounted s t (creates _) i = creates-IsCounted s i
Step-IsCounted s t (ends _ n h) (inl i) =
    open_end n s.global.registered_local_states s.global.cleanups s.refused (i.counted ∙ ap pos h)
      i.none_refused i.no_cleanup
Step-IsCounted s t (ends _ n h) (inr i) = absurd (omega (arith, i.none_registered, h))
Step-IsCounted s t (refused_ends _ n h) (inl i) = absurd (omega (arith, i.none_refused, h))
Step-IsCounted s t (refused_ends _ n h) (inr i) =
    refused_end s.global.registered_local_states s.global.cleanups s.registered n i.negative
      i.none_registered i.one_cleanup

Reach-IsCounted : (s t : Threads) → Reach s t → IsCounted s → IsCounted t
Reach-IsCounted s t here i = i
Reach-IsCounted s t (next r st) i = Step-IsCounted _ t st (Reach-IsCounted s _ r i)

-- However threads create their local states and come to the end of the scan: the reader is cleaned up
-- at most once, and not while a local state that has been registered goes on.
pub Reach-cleanups :
    (t : Threads)
    → Reach start t
    → ((t.global.cleanups ≡ 0) ⊎ (t.registered ≡ 0)) × (t.global.cleanups ≤ 1)
unfolding IsCounted
Reach-cleanups t r = elim (Reach-IsCounted start t r (inl (ground arith))) [
  | inl i ↦ (inl i.no_cleanup, omega (arith, i.no_cleanup))
  | inr i ↦ (inr i.none_registered, omega (arith, i.one_cleanup))
]
