-- ===== src/Diff/Files.antt =====
-- ddl/*_migration.go: what a sql method returns, and how it fills its buffers.
use sqddl.Base.{ℕ, ◌+◌, List, [], ◌∷◌, ◌++◌, Bytes, codes, map, ◌==◌, if◌then◌else◌}
use sqddl.Helpers.Numbers.{two_digits}
use sqddl.Writers.Pieces.{texts, when, is_given, is_foreign, newline}

-- filenames, bufs, warnings
pub record MigrationFiles : Type 0 where
  pub filenames : List Bytes
  pub bufs : List Bytes
  pub warnings : List Bytes

-- if buf.Len() > 0 { buf.WriteString("\n") }
abbrev pub separated : Bytes → Bytes
separated buf = buf ++ when (is_given buf) newline

-- a blank line if there is something in front, and the text
unfoldable pub add_block : Bytes → Bytes → Bytes
add_block text buf = separated buf ++ text

-- a loop that writes to the buffer
unfoldable pub each_write {ℓ} : {A : Type ℓ} → (A → Bytes → Bytes) → List A → Bytes → Bytes
each_write write [] buf = buf
each_write write (x ∷ xs) buf = each_write write xs (write x buf)

-- A sql method under way: `n`, and what it returns.
pub record Output : Type 0 where
  pub n : ℕ
  pub filenames : List Bytes
  pub bufs : List Bytes
  pub warnings : List Bytes

abbrev pub no_output : List Bytes → Output
no_output warnings = record { n = 0; filenames = []; bufs = []; warnings = warnings }

abbrev pub finished : Output → MigrationFiles
finished o = record { filenames = o.filenames; bufs = o.bufs; warnings = o.warnings }

-- n++
abbrev pub bump : Output → Output
bump o = record o { n = o.n + 1 }

-- prefix + "_" + fmt.Sprintf("%02d", n) + rest
abbrev pub numbered : Bytes → ℕ → Bytes → Bytes
numbered prefix n rest = texts (prefix ∷ codes "_" ∷ two_digits n ∷ rest ∷ [])

-- filenames = append(filenames, ...)
unfoldable pub put_name : Bytes → Bytes → Output → Output
put_name prefix name o = record o { filenames = o.filenames ++ numbered prefix o.n name ∷ [] }

-- bufs = append(bufs, buf), where `text` is what is written to buf
unfoldable pub put_buf : Bytes → Output → Output
put_buf text o = record o { bufs = o.bufs ++ text ∷ [] }

abbrev pub warn : List Bytes → Output → Output
warn texts o = record o { warnings = o.warnings ++ texts }

-- strings.ReplaceAll(name, " ", "_")
unfoldable pub underlined : Bytes → Bytes
underlined name = map (λ c. if c == b' ' then b'_' else c) name

-- the name of a table in the name of a file, with its schema in front if that is not the current one
unfoldable pub file_label : Bytes → Bytes → Bytes → Bytes
file_label current schema name =
    when (is_foreign schema current) (underlined schema ++ codes "_") ++ underlined name

-- a loop that writes files
unfoldable pub each_file {ℓ} : {A : Type ℓ} → (A → Output → Output) → List A → Output → Output
each_file file [] o = o
each_file file (x ∷ xs) o = each_file file xs (file x o)
