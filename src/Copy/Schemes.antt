-- ===== src/Copy/Schemes.antt =====
-- The prefixes of remote files in `NeedsDuckdbExecution`, and the test on the path of the file in
-- `IsAllowedStatement`.
use pg_duckdb.Common.{
  ℕ, ◌≤◌, Bool, true, false, ◌&&◌, ◌||◌, none, some, List, [], ◌∷◌, ◌++◌, leb, ◌≡◌, refl, sym,
  subst, inl, inr, Bool-cases, arith,
}
use pg_duckdb.Hooks.{State}
use pg_duckdb.Worker.Sync.{Text}
use pg_duckdb.Worker.Sync.Loop.{eq_text}
use pg_duckdb.Ruleutils.{has_prefix}
use pg_duckdb.Ruleutils.SchemaNames.{eq_text_sound}
use pg_duckdb.Sql.{lit, ok}
use pg_duckdb.Copy.{
  Env, CopyStmt, skip_alnum, scheme_end, scheme_of, matches_uri_scheme, any_of, remote_prefixes,
  copy_refused,
}

-- isalpha and isalnum on the letters, the digits and the colon
pub record IsAscii (e : Env) : Type 0 where
  pub letters : (c : ℕ) → 97 ≤ c → c ≤ 122 → e.is_alpha c ≡ true
  pub letters_alnum : (c : ℕ) → 97 ≤ c → c ≤ 122 → e.is_alnum c ≡ true
  pub digits_alnum : (c : ℕ) → 48 ≤ c → c ≤ 57 → e.is_alnum c ≡ true
  pub colon : e.is_alnum 58 ≡ false

abbrev is_lower : ℕ → Bool
is_lower c = leb 97 c && leb c 122

abbrev is_digit : ℕ → Bool
is_digit c = leb 48 c && leb c 57

-- Small letters and digits, and then "://".
ends_scheme : Text → Bool
ends_scheme [] = false
ends_scheme (c ∷ cs) = eq_text (c ∷ cs) scheme_end || ((is_lower c || is_digit c) && ends_scheme cs)

names_scheme : Text → Bool
names_scheme [] = false
names_scheme (c ∷ cs) = is_lower c && ends_scheme cs

has_prefix_append : (f p : Text) → has_prefix f p ≡ true → (rest : Text) × (f ≡ p ++ rest)
has_prefix_append f [] h = (f, refl)
has_prefix_append [] (p ∷ ps) h = cc
has_prefix_append (c ∷ cs) (p ∷ ps) h =
    let (rest, eq) = has_prefix_append cs ps (ground arith) in (rest, ground arith)

all_name : List Text → Bool
all_name [] = true
all_name (p ∷ ps) = names_scheme p && all_name ps

remote_prefixes-all_name : all_name remote_prefixes ≡ true
unfolding all_name names_scheme ends_scheme remote_prefixes lit
remote_prefixes-all_name = refl

module _ {e : Env} (ascii : IsAscii e) where
  alnum : (c : ℕ) → (is_lower c || is_digit c) ≡ true → e.is_alnum c ≡ true
  alnum c h = ground (arith, ascii.letters_alnum c, ascii.digits_alnum c)

  skip_alnum-scheme_end :
      (rest : Text) → has_prefix (skip_alnum e (scheme_end ++ rest)) scheme_end ≡ true
  unfolding skip_alnum
  skip_alnum-scheme_end rest = rw ascii.colon

  skip_alnum-ends_scheme :
      (p rest : Text)
      → ends_scheme p ≡ true
      → has_prefix (skip_alnum e (p ++ rest)) scheme_end ≡ true
  unfolding skip_alnum ends_scheme
  skip_alnum-ends_scheme [] rest h = cc
  skip_alnum-ends_scheme (c ∷ cs) rest h = elim (Bool-cases (eq_text (c ∷ cs) scheme_end)) [
    | inl q ↦
        subst (λ (t : Text). has_prefix (skip_alnum e (t ++ rest)) scheme_end ≡ true)
          (sym (eq_text_sound (c ∷ cs) scheme_end q)) (skip_alnum-scheme_end rest)
    | inr q ↦ ground (arith, alnum c, skip_alnum-ends_scheme cs rest)
  ]

  scheme_of-names_scheme : (p rest : Text) → names_scheme p ≡ true → scheme_of e (p ++ rest) ≡ true
  unfolding names_scheme
  scheme_of-names_scheme [] rest h = cc
  scheme_of-names_scheme (c ∷ cs) rest h =
      ground (arith, ascii.letters c, skip_alnum-ends_scheme cs rest)

  scheme_of-any_of :
      (f : Text) (ps : List Text)
      → all_name ps ≡ true
      → any_of (has_prefix f) ps ≡ true
      → scheme_of e f ≡ true
  unfolding all_name
  scheme_of-any_of f [] h k = cc
  scheme_of-any_of f (p ∷ ps) h k = elim (Bool-cases (has_prefix f p)) [
    | inl q ↦
        let (rest, eq) = has_prefix_append f p q in
        rw eq (scheme_of-names_scheme p rest (ground arith))
    | inr q ↦ scheme_of-any_of f ps (ground arith) (ground arith)
  ]

  -- The COPY of a query to a file with one of the prefixes of remote files is never refused for its
  -- path, whatever Postgres takes for an absolute path, if small letters and digits are letters and
  -- digits for the C library, and the colon is not.
  pub copy_refused_remote :
      (s : State) (stmt : CopyStmt) (f : Text)
      → stmt.relation ≡ none
      → stmt.filename ≡ some f
      → any_of (has_prefix f) remote_prefixes ≡ true
      → copy_refused e s stmt ≡ ok none
  unfolding copy_refused matches_uri_scheme
  copy_refused_remote s stmt f no_relation named remote =
      rw (no_relation, named, scheme_of-any_of f remote_prefixes remote_prefixes-all_name remote)
        (ground arith)
