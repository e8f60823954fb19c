-- ===== src/Worker/Disk.antt =====
-- The files of a worker: a map from paths to bytes. The file system is not under src/: `faults` lists,
-- for each coming operation, the error with which it fails, if it does.
use distributed_processing_e.Base.{ℕ, String, Option, none, some, List, [], ◌∷◌, ◌++◌}
use distributed_processing_e.Base.Eq.{string_eq}
use distributed_processing_e.Base.Map.{HashMap, get, insert, remove}
use distributed_processing_e.Base.Outcome.{Outcome, ok, err}

pub record Disk : Type 0 where
  pub files : HashMap String (List ℕ)
  pub faults : List (Option String)

-- The next operation: it fails, or it does its work.
abbrev operation {ℓ} :
    {A : Type ℓ} → Disk → List (Option String) → (Disk → Outcome A × Disk) → Outcome A × Disk
operation d [] act = act d
operation d (none ∷ rest) act = act (record d { faults = rest })
operation d (some e ∷ rest) act = (err e, record d { faults = rest })

-- What follows an operation: on an error, and on a result.
abbrev pub after {ℓ κ} :
    {A : Type ℓ} {X : Type κ} → Outcome A × Disk → (String → Disk → X) → (A → Disk → X) → X
after (err e, d) failed done = failed e d
after (ok a, d) failed done = done a d

abbrev pub bytes_of : Option (List ℕ) → List ℕ
bytes_of none = []
bytes_of (some bs) = bs

-- `create_dir_all`, which changes no file.
abbrev pub make_dir : Disk → Outcome (Unit {0}) × Disk
make_dir d = operation d d.faults (λ d. (ok tt, d))

-- `OpenOptions::new().create(true).append(true).open(path)`
abbrev pub open_append : String → Disk → Outcome (Unit {0}) × Disk
open_append path d =
    operation d d.faults
      (λ d. (ok tt, record d { files = insert d.files path (bytes_of (get d.files path)) }))

-- `write_all` on a file that was opened to append. A write that fails is taken to write nothing.
abbrev pub append_bytes : String → List ℕ → Disk → Outcome (Unit {0}) × Disk
append_bytes path bytes d =
    operation d d.faults (λ d.
      (ok tt, record d { files = insert d.files path (bytes_of (get d.files path) ++ bytes) }))

abbrev pub contents : Option (List ℕ) → Outcome (List ℕ)
contents none = err "No such file or directory (os error 2)"
contents (some bytes) = ok bytes

-- Opening a file and reading all of it.
abbrev pub read_all : String → Disk → Outcome (List ℕ) × Disk
read_all path d = operation d d.faults (λ d. (contents (get d.files path), d))

-- `fs::remove_file(path).ok()`
abbrev pub remove_file : String → Disk → Disk
remove_file path d =
    let removed : Outcome (Unit {0}) × Disk =
      operation d d.faults (λ d. (ok tt, record d { files = remove d.files path })) in
    removed.1

-- `File::create(path)` and `write_all`: two operations. Where the second one fails the file is left
-- empty.
abbrev pub write_file : String → List ℕ → Disk → Outcome (Unit {0}) × Disk
write_file path bytes d =
    after (operation d d.faults (λ d. (ok (tt {0}), record d { files = insert d.files path [] })))
      (λ e d. (err e, d))
      (λ _ d₁.
        operation d₁ d₁.faults (λ d. (ok tt, record d { files = insert d.files path bytes })))
