-- ===== src/Storage/Schema.antt =====
-- internal/store/migrate.go: the schema version of the file, and the steps that bring an older file
-- up to it. The errors of bbolt are left out.
use tortui.Base.{
  List, ℕ, Option, ◌≡◌, ◌∷◌, ◌*◌, ◌+◌, none, some, suc, Bool-cases, [], arith, get_elem?,
  if◌then◌else◌, zero, Option-cases, not, inl, nat_eqb, inr, length, ltb, subst, ◌-◌, refl,
}
use tortui.Storage.{File}

pub data SchemaError : Type 0 where
  not_eight_bytes unsupported_schema_version no_migration : SchemaError
  migration_failed : ℕ → SchemaError

pub data Ensured : Type 0 where
  ensured : ℕ → File → Ensured
  not_opened : SchemaError → Ensured

abbrev pub current_schema_version : ℕ
current_schema_version = 1

-- binary.BigEndian.Uint64
unfoldable pub big_endian : ℕ → List ℕ → ℕ
big_endian n [] = n
big_endian n (b ∷ bytes) = big_endian (n * 256 + b) bytes

-- migrations[version-1]
abbrev pub migration_of : List (File → Option File) → ℕ → Option (File → Option File)
migration_of migrations zero = none
migration_of migrations (suc i) = get_elem? migrations i

-- The loop of ensureSchema, from `version`, for the steps that are left to `current`.
unfoldable pub migrate : List (File → Option File) → ℕ → ℕ → File → Ensured
migrate migrations zero version file = ensured version file
migrate migrations (suc left) version file = elim (migration_of migrations version) [
  | none ↦ not_opened no_migration
  | some step ↦ elim (step file) [
    | none ↦ not_opened (migration_failed version)
    | some file' ↦ migrate migrations left (version + 1) file'
  ]
]

-- ensureSchema: `raw` is what the meta bucket holds, and the result has what is put there.
unfoldable pub ensure_schema : ℕ → List (File → Option File) → Option (List ℕ) → File → Ensured
unfolding big_endian migrate
ensure_schema current migrations none file = ensured current file
ensure_schema current migrations (some raw) file =
    if not (nat_eqb (length raw) 8)
    then not_opened not_eight_bytes
    else if ltb current (big_endian 0 raw)
    then not_opened unsupported_schema_version
    else migrate migrations (current - big_endian 0 raw) (big_endian 0 raw) file

abbrev IsCurrent : ℕ → Ensured → Type 0
IsCurrent current (ensured version file) = version ≡ current
IsCurrent current (not_opened err) = Unit

migrate-IsCurrent :
    (migrations : List (File → Option File)) (left version : ℕ) (file : File)
    → IsCurrent (version + left) (migrate migrations left version file)
unfolding migrate
migrate-IsCurrent migrations zero version file = omega arith
migrate-IsCurrent migrations (suc left) version file =
    elim (Option-cases (migration_of migrations version)) [
      | inl q ↦ rw (migrate, q) tt
      | inr (step, q) ↦ elim (Option-cases (step file)) [
        | inl r ↦ rw (migrate, q, r) tt
        | inr (file', r) ↦
            rw (migrate, q, r)
              (subst (λ n. IsCurrent n (migrate migrations left (version + 1) file')) (omega arith)
                (migrate-IsCurrent migrations left (version + 1) file'))
      ]
    ]

-- A file that ensureSchema accepts has the current version afterwards, whichever it had before.
ensure_schema-IsCurrent :
    (current : ℕ) (migrations : List (File → Option File)) (raw : Option (List ℕ)) (file : File)
    → IsCurrent current (ensure_schema current migrations raw file)
unfolding ensure_schema
ensure_schema-IsCurrent current migrations none file = refl
ensure_schema-IsCurrent current migrations (some raw) file =
    elim (Bool-cases (not (nat_eqb (length raw) 8))) [
      | inl q ↦ rw q tt
      | inr q ↦ elim (Bool-cases (ltb current (big_endian 0 raw))) [
        | inl r ↦ rw (q, r) tt
        | inr r ↦
            rw (q, r)
              (subst
                (λ n.
                  IsCurrent n
                    (migrate migrations (current - big_endian 0 raw) (big_endian 0 raw) file))
                (ground arith)
                (migrate-IsCurrent migrations (current - big_endian 0 raw) (big_endian 0 raw) file))
      ]
    ]
