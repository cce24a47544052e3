-- ===== src/Ruleutils/SchemaNames.antt =====
-- The schema names that the background worker makes for MotherDuck's databases, and what
-- `pgduckdb_db_and_schema` reads from them.
use pg_duckdb.Common.{
  ℕ, true, false, [], ◌∷◌, ◌++◌, some, ◌==◌, if◌then◌else◌, ◌≡◌, ◌≢◌, refl, ◌∙◌, ap, arith, inl,
  inr, Bool-cases,
}
use mathlib.Core.List.{append_assoc, append-nil}
use pg_duckdb.Worker.Sync.{Text, Postgres}
use pg_duckdb.Worker.Sync.Loop.{eq_text, main_name, ddb_prefix, pg_schema_name}
use pg_duckdb.Sql.{ok}
use pg_duckdb.Ruleutils.{
  Env, only_db, schema_at, dollar, duckdb_am, db_part, schema_part, named_parts, db_and_schema,
}

-- KeywordHelper::EscapeQuotes(text, '$') doubles the dollars.
abbrev pub double_dollars : Text → Text
double_dollars [] = []
double_dollars (c ∷ cs) =
    let rest = double_dollars cs in if c == dollar then c ∷ c ∷ rest else c ∷ rest

abbrev pub NoDollar : Text → Type 0
NoDollar [] = Unit {0}
NoDollar (c ∷ cs) = ((c == dollar) ≡ false) × NoDollar cs

double_dollars_plain : (t : Text) → NoDollar t → double_dollars t ≡ t
double_dollars_plain [] h = refl
double_dollars_plain (c ∷ cs) h = rw h.0 (ap (λ (r : Text). c ∷ r) (double_dollars_plain cs h.1))

db_part_plain : (acc t : Text) → NoDollar t → db_part acc t ≡ only_db (acc ++ t)
unfolding db_part
db_part_plain acc [] h = rw (append-nil acc)
db_part_plain acc (c ∷ []) h = rw h.0
db_part_plain acc (c ∷ d ∷ rest) h =
    rw h.0
      (db_part_plain (acc ++ c ∷ []) (d ∷ rest) h.1 ∙ rw (append_assoc acc (c ∷ []) (d ∷ rest)))

db_part-schema :
    (acc t : Text) (d : ℕ) (rest : Text)
    → NoDollar t
    → (d == dollar) ≡ false
    → db_part acc (t ++ dollar ∷ d ∷ rest) ≡ schema_at (acc ++ t) (d ∷ rest)
unfolding db_part
db_part-schema acc [] d rest h hd = rw (hd, append-nil acc)
db_part-schema acc (c ∷ []) d rest h hd = rw (h.0, hd)
db_part-schema acc (c ∷ b ∷ t) d rest h hd =
    rw h.0 (
      db_part-schema (acc ++ c ∷ []) (b ∷ t) d rest h.1 hd ∙ rw (append_assoc acc (c ∷ []) (b ∷ t)))

schema_part_plain : (acc t : Text) → NoDollar t → schema_part acc t ≡ acc ++ t
unfolding schema_part
schema_part_plain acc [] h = rw (append-nil acc)
schema_part_plain acc (c ∷ []) h = rw h.0
schema_part_plain acc (c ∷ d ∷ rest) h =
    rw h.0
      (schema_part_plain (acc ++ c ∷ []) (d ∷ rest) h.1 ∙ rw (append_assoc acc (c ∷ []) (d ∷ rest)))

double_dollars-append :
    (p q : Text)
    → NoDollar p
    → NoDollar q
    → double_dollars (p ++ dollar ∷ q) ≡ p ++ dollar ∷ dollar ∷ q
double_dollars-append [] q hp hq =
    ap (λ (r : Text). dollar ∷ dollar ∷ r) (double_dollars_plain q hq)
double_dollars-append (c ∷ p) q hp hq =
    rw hp.0 (ap (λ (r : Text). c ∷ r) (double_dollars-append p q hp.1 hq))

-- Two dollars: the first is copied, and the second ends the database's name.
db_part_two :
    (acc p : Text) (d : ℕ) (rest : Text)
    → NoDollar p
    → (d == dollar) ≡ false
    → db_part acc (p ++ dollar ∷ dollar ∷ d ∷ rest)
      ≡ schema_at (acc ++ (p ++ dollar ∷ [])) (d ∷ rest)
unfolding db_part
db_part_two acc [] d rest h hd = rw hd
db_part_two acc (c ∷ []) d rest h hd =
    rw (h.0, hd)
      (ap (λ (r : Text). schema_at r (d ∷ rest)) (append_assoc acc (c ∷ []) (dollar ∷ [])))
db_part_two acc (c ∷ b ∷ p) d rest h hd = rw h.0 (
    db_part_two (acc ++ c ∷ []) (b ∷ p) d rest h.1 hd
    ∙ rw (append_assoc acc (c ∷ []) (b ∷ p ++ dollar ∷ [])))

pub eq_text_sound : (s t : Text) → eq_text s t ≡ true → s ≡ t
eq_text_sound [] [] h = refl
eq_text_sound [] (d ∷ ds) h = cc
eq_text_sound (c ∷ cs) [] h = cc
eq_text_sound (c ∷ cs) (d ∷ ds) h = ground (arith, eq_text_sound cs ds)

module _ (e : Env) (on : e.motherduck_enabled ≡ true) where
  db_and_schema-ddb :
      (t : Text) → db_and_schema e (ddb_prefix ++ t) (some duckdb_am) ≡ named_parts (db_part [] t)
  unfolding db_and_schema
  db_and_schema-ddb t = rw on

  module _ {C : Type 0} (pg : Postgres C)
      (escapes : (t : Text) → pg.escape_quotes t ≡ double_dollars t) where
    pg_schema_name_plain :
        (db schema : Text)
        → NoDollar db
        → NoDollar schema
        → pg_schema_name pg db schema false
          ≡ ddb_prefix ++ (db ++ (if eq_text schema main_name then [] else (dollar ∷ schema)))
    unfolding pg_schema_name
    pg_schema_name_plain db schema hd hs =
        rw (escapes db, escapes schema, double_dollars_plain db hd, double_dollars_plain schema hs)

    -- With MotherDuck enabled, and quotes escaped by doubling, the schema name that the worker makes for
    -- a schema of a database that is not the default one is read back as that database and that schema,
    -- if neither name has a dollar and the schema's is not empty.
    pub db_and_schema-pg_schema_name :
        (db schema : Text)
        → NoDollar db
        → NoDollar schema
        → schema ≢ []
        → db_and_schema e (pg_schema_name pg db schema false) (some duckdb_am) ≡ ok (db, schema)
    db_and_schema-pg_schema_name db [] hd hs ne = absurd (ne refl)
    db_and_schema-pg_schema_name db (c ∷ cs) hd hs ne =
        rw (pg_schema_name_plain db (c ∷ cs) hd hs)
          (elim (Bool-cases (eq_text (c ∷ cs) main_name)) [
            | inl m ↦ rw m (
                db_and_schema-ddb (db ++ [])
                ∙ rw (append-nil db, db_part_plain [] db hd)
                    (ground (arith, eq_text_sound (c ∷ cs) main_name)))
            | inr m ↦ rw m (
                db_and_schema-ddb (db ++ dollar ∷ c ∷ cs)
                ∙ rw (db_part-schema [] db c cs hd hs.0, schema_part_plain [] (c ∷ cs) hs))
          ])

    -- The name made for the main schema of a database whose name has one dollar, that is not last
    -- in it, is read as another database, which ends at that dollar, and as a schema that is named after
    -- the rest.
    pub pg_schema_name-dollar :
        (p q : Text)
        → NoDollar p
        → NoDollar q
        → q ≢ []
        → db_and_schema e (pg_schema_name pg (p ++ dollar ∷ q) main_name false) (some duckdb_am)
          ≡ ok (p ++ dollar ∷ [], q)
    unfolding pg_schema_name
    pg_schema_name-dollar p [] hp hq ne = absurd (ne refl)
    pg_schema_name-dollar p (c ∷ cs) hp hq ne =
        rw
          (
            escapes (p ++ dollar ∷ c ∷ cs),
            double_dollars-append p (c ∷ cs) hp hq,
            append-nil (p ++ dollar ∷ dollar ∷ c ∷ cs),
          )
          (db_and_schema-ddb (p ++ dollar ∷ dollar ∷ c ∷ cs)
            ∙ rw (db_part_two [] p c cs hp hq.0, schema_part_plain [] (c ∷ cs) hq))
