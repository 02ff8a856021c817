-- ===== src/Files/Atomic.antt =====
-- `writeAtomically`: create a temporary file in the directory, write, chmod, close, rename, with
-- `defer os.Remove(tmpName)`.
use ubuntu_daemon.Base.{ℕ, Option, none, some, List, [], ◌∷◌, ◌++◌, Text, Result, ok, err, take}
use ubuntu_daemon.Files.Table.{Disk, File, write, remove}

-- What each system call answers: `some` is its error.
pub record Calls : Type 0 where
  pub mkdir : Option Text
  pub create : Option Text
  pub temp_name : Text
  pub write_data : Option Text
  pub written : ℕ  -- the bytes that a failing write has left behind
  pub chmod : Option Text
  pub close : Option Text
  pub rename : Option Text

abbrev pub all_succeed : Text → Calls
all_succeed name = record {
  mkdir = none;
  create = none;
  temp_name = name;
  write_data = none;
  written = 0;
  chmod = none;
  close = none;
  rename = none;
}

-- The result, the disk at the end, and the disk after each call that changed it: those are what a
-- reader, or the daemon after a crash, can find.
pub record Outcome : Type 0 where
  pub result : Result (Unit {0})
  pub disk : Disk
  pub seen : List Disk

-- The deferred removal after a failure.
abbrev pub give_up : Calls → Text → Disk → List Disk → Outcome
give_up calls e d seen =
    let d' = remove d calls.temp_name in
    record { result = err e; disk = d'; seen = seen ++ (d' ∷ []) }

-- `os.Rename`, and the deferred removal, which finds nothing more to remove.
abbrev pub rename_over : Calls → Text → File → Disk → List Disk → Outcome
rename_over calls path f d seen =
    let d' = write (remove d calls.temp_name) path f in
    let d'' = remove d' calls.temp_name in
    record { result = ok tt; disk = d''; seen = seen ++ (d' ∷ d'' ∷ []) }

abbrev pub temp_mode : ℕ
temp_mode = 0o600

unfoldable pub write_atomically : Calls → Text → Text → ℕ → Disk → Outcome
write_atomically calls path content mode d = elim calls.create [
  | some e ↦ record { result = err e; disk = d; seen = [] }
  | none ↦
      let d₁ = write d calls.temp_name (record { content = []; mode = temp_mode }) in
      elim calls.write_data [
        | some e ↦
            let part : File = record { content = take calls.written content; mode = temp_mode } in
            let d₂ = write d₁ calls.temp_name part in give_up calls e d₂ (d₁ ∷ d₂ ∷ [])
        | none ↦
            let d₂ = write d₁ calls.temp_name (record { content = content; mode = temp_mode }) in
            elim calls.chmod [
              | some e ↦ give_up calls e d₂ (d₁ ∷ d₂ ∷ [])
              | none ↦
                  let f : File = record { content = content; mode = mode } in
                  let d₃ = write d₂ calls.temp_name f in
                  elim calls.close [
                    | some e ↦ give_up calls e d₃ (d₁ ∷ d₂ ∷ d₃ ∷ [])
                    | none ↦ elim calls.rename [
                      | some e ↦ give_up calls e d₃ (d₁ ∷ d₂ ∷ d₃ ∷ [])
                      | none ↦ rename_over calls path f d₃ (d₁ ∷ d₂ ∷ d₃ ∷ [])
                    ]
                  ]
            ]
      ]
]

-- `os.MkdirAll` first, as in the configuration's `writeAtomically` and in `storeWriteFile`.
unfoldable pub store_write_file : Calls → Text → Text → ℕ → Disk → Outcome
store_write_file calls path content mode d = elim calls.mkdir [
  | some e ↦ record { result = err e; disk = d; seen = [] }
  | none ↦ write_atomically calls path content mode d
]
