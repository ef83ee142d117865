-- ===== src/Relational/Catalog/Names.antt =====
-- What the catalogue keeps: every table under its own name, with the hash of its name as prefix.
use svacara_db.Prelude.{
  ◌^◌, ◌≤◌, ◌<◌, ◌≡◌, refl, sym, arith, Bool-cases, inl, inr, none, some, [], ◌∷◌, All, ltb,
  if◌then◌else◌,
}
use mathlib.Core.Path.{subst}
use svacara_db.Bytes.{Bytes}
use svacara_db.Bytes.Compare.{bytes_eq, bytes_eq_refl, eq_of_bytes_eq}
use svacara_db.Storage.{is_some}
use svacara_db.Relational.{TableDef, hash_table_name}
use svacara_db.Relational.Keys.{hash_from-lt}
use svacara_db.Relational.Catalog.{Tables, lookup, insert, Db, table_def, create_table}

pub lookup-insert :
    (tables : Tables) (k j : Bytes) (t : TableDef)
    → lookup (insert tables k t) j ≡ (if bytes_eq k j then some t else lookup tables j)
lookup-insert [] k j t = refl
lookup-insert ((i, u) ∷ tables) k j t = ground (
  arith,
  lookup-insert tables k j t,
  eq_of_bytes_eq i k,
  eq_of_bytes_eq i j,
  eq_of_bytes_eq k j,
  bytes_eq_refl i,
  bytes_eq_refl k,
)

-- A table that `CreateTable` accepts is found under its name with the hash of the name as prefix,
-- every other name finds what it found before, and the store is as it was. The name was free and
-- the table has a primary key.
pub create_table-lookup :
    {S : Type 0} (db : Db S) (tdef : TableDef) (j : Bytes)
    → (create_table db tdef).1 ≡ none
    → (table_def (create_table db tdef).0 j ≡ (
        if bytes_eq tdef.name j
        then some (record tdef { prefix = hash_table_name tdef.name })
        else table_def db j))
      × (table_def db tdef.name ≡ none)
      × (1 ≤ tdef.p_keys)
unfolding create_table table_def
create_table-lookup db tdef j h = ground (
  arith,
  lookup-insert db.tables tdef.name j (record tdef { prefix = hash_table_name tdef.name }),
)

-- A table in the catalogue.
pub record IsListed (name : Bytes) (tdef : TableDef) : Type 0 where
  pub named : tdef.name ≡ name
  pub hashed : tdef.prefix ≡ hash_table_name name
  pub narrow : tdef.prefix < 2 ^ 32
  pub keyed : 1 ≤ tdef.p_keys

abbrev pub IsCatalog : Tables → Type 0
IsCatalog = All (λ e. IsListed e.0 e.1)

insert-IsCatalog :
    (tables : Tables) (k : Bytes) (t : TableDef)
    → IsCatalog tables
    → IsListed k t
    → IsCatalog (insert tables k t)
insert-IsCatalog [] k t c l = (l, tt)
insert-IsCatalog ((i, u) ∷ tables) k t (cu, c) l = elim (Bool-cases (bytes_eq i k)) [
  | inl e ↦ rw e (subst (λ n. IsListed n t) (sym (eq_of_bytes_eq i k e)) l, c)
  | inr e ↦ rw e (cu, insert-IsCatalog tables k t c l)
]

-- `CreateTable` keeps the catalogue well formed, whether it accepts the table or not: every table
-- stands under its own name, its prefix is the hash of the name and below 2 ^ 32, and it has a
-- primary key.
pub create_table-IsCatalog :
    {S : Type 0} (db : Db S) (tdef : TableDef)
    → IsCatalog db.tables
    → IsCatalog (create_table db tdef).0.tables
unfolding create_table
create_table-IsCatalog db tdef c = elim (Bool-cases (is_some (lookup db.tables tdef.name))) [
  | inl e ↦ rw e c
  | inr e ↦ elim (Bool-cases (ltb tdef.p_keys 1)) [
    | inl f ↦ rw (e, f) c
    | inr f ↦
        rw (e, f)
          (insert-IsCatalog db.tables tdef.name _ c (record {
            named = refl;
            hashed = refl;
            narrow = hash_from-lt 5381 tdef.name (omega arith);
            keyed = ground arith;
          }))
  ]
]
