-- ===== src/Postgres/Session.antt =====
-- What `psql` does with the statements of its files under ON_ERROR_STOP, by PostgreSQL's manual: it
-- stops at the first error, and a transaction that is open when it disconnects is rolled back.
pub mod Opened
use cs_backup_helper.Base.{
  ◌≡◌, ◌≢◌, refl, ap, ◌∙◌, ◌||◌, inl, inr, Bool, true, false, Bool-cases, Option, Option-cases,
  none, some, List, [], ◌∷◌, ◌++◌, map, All, if◌then◌else◌, arith, is_empty,
}
use cs_backup_helper.Base.Text.{Text, codes, text_eq, starts_with}
use cs_backup_helper.Postgres.Objects.{LiveObject, ObjectType, drop_order}
use cs_backup_helper.Postgres.Plan.{Replacement}
use cs_backup_helper.Postgres.Prelude.{
  prelude_lines, drop_statements, drop_statement, drop_schemas, of_type,
}

pub data Command : Type 0 where
  begin commit : Command
  other : Text → Command

-- A line that is one whole statement.
abbrev pub command_of : Text → Command
command_of line =
    if text_eq line (codes "BEGIN;")
    then begin
    else if text_eq line (codes "COMMIT;")
    then commit
    else other line

-- The last command commits, and no other does.
abbrev pub EndsInCommit : List Command → Type 0
EndsInCommit [] = ⊥
EndsInCommit (c ∷ []) = c ≡ commit
EndsInCommit (c ∷ d ∷ cs) = (c ≢ commit) × EndsInCommit (d ∷ cs)

-- A statement that sets a parameter of the session, in the two forms that are used.
abbrev pub is_setting : Text → Bool
is_setting t = starts_with (codes "SET ") t || starts_with (codes "SELECT pg_catalog.set_config(") t

-- The database as others see it, and within the open transaction, if there is one.
pub record Session (D : Type 0) : Type 0 where
  pub committed : D
  pub working : Option D

module _ {D : Type 0} (effect : Text → D → Option D) (can_commit : D → Bool) where
  abbrev begun : D → Option D → Session D
  begun d none = record { committed = d; working = some d }
  begun d (some x) = record { committed = d; working = some x }

  abbrev ended : D → Option D → Option (Session D)
  ended d none = some (record { committed = d; working = none })
  ended d (some x) = if can_commit x then some (record { committed = x; working = none }) else none

  abbrev outside : Option D → Option (Session D)
  outside none = none
  outside (some x) = some (record { committed = x; working = none })

  abbrev inside : D → Option D → Option (Session D)
  inside d none = none
  inside d (some x) = some (record { committed = d; working = some x })

  abbrev done : Text → D → Option D → Option (Session D)
  done t d none = outside (effect t d)
  done t d (some x) = inside d (effect t x)

  -- A statement fails or leads to the next state. BEGIN within a transaction and COMMIT outside of
  -- one only warn.
  abbrev pub step : Command → Session D → Option (Session D)
  step begin s = some (begun s.committed s.working)
  step commit s = ended s.committed s.working
  step (other t) s = done t s.committed s.working

  -- Whether all went through, and the database afterwards.
  unfoldable pub execute : List Command → Session D → Bool × D
  execute [] s = (true, s.committed)
  execute (c ∷ cs) s = elim (step c s) [ none ↦ (false, s.committed) | some t ↦ execute cs t ]

  -- The session of a database, with no open transaction or within one.
  abbrev pub idle : D → Session D
  idle d = record { committed = d; working = none }

  abbrev in_transaction : D → D → Session D
  in_transaction d x = record { committed = d; working = some x }

  stopped_within :
      (cs : List Command) (d x : D)
      → EndsInCommit cs
      → (execute cs (in_transaction d x)).0 ≡ false
      → (execute cs (in_transaction d x)).1 ≡ d
  unfolding execute
  stopped_within [] d x e h = absurd e
  stopped_within (begin ∷ []) d x e h = cc
  stopped_within (other t ∷ []) d x e h = cc
  stopped_within (commit ∷ []) d x e h = elim (Bool-cases (can_commit x)) [
    | inl y ↦ absurd (ground arith)
    | inr n ↦ rw (execute, n)
  ]
  stopped_within (begin ∷ c ∷ cs) d x (_, e) h = stopped_within (c ∷ cs) d x e h
  stopped_within (commit ∷ c ∷ cs) d x (n, e) h = absurd (n refl)
  stopped_within (other t ∷ c ∷ cs) d x (_, e) h = elim (Option-cases (effect t x)) [
    | inl q ↦ rw (execute, q)
    | inr (y, q) ↦
        let r = stopped_within (c ∷ cs) d y e in rw (execute, q) (r (rw (execute, q) at h))
  ]

  -- Settings change no database, and what follows BEGIN is rolled back.
  pub stopped :
      (keeps : (t : Text) (d x : D) → is_setting t ≡ true → effect t d ≡ some x → x ≡ d)
      (ts : List Text) (cs : List Command) (d : D)
      → All (λ t. is_setting t ≡ true) ts
      → EndsInCommit cs
      → (execute (map (λ t. other t) ts ++ (begin ∷ cs)) (idle d)).0 ≡ false
      → (execute (map (λ t. other t) ts ++ (begin ∷ cs)) (idle d)).1 ≡ d
  unfolding execute
  stopped keeps [] cs d a e h = stopped_within cs d d e h
  stopped keeps (t ∷ ts) cs d (s, a) e h = elim (Option-cases (effect t d)) [
    | inl q ↦ rw (execute, q)
    | inr (y, q) ↦
        let r = stopped keeps ts cs y a e in
        rw (execute, q) (r (rw (execute, q) at h) ∙ keeps t d y s q)
  ]
