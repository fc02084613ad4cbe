-- ===== src/Config/Secret.antt =====
-- internal/config/config.go: secrets, from the environment or from a file.
pub mod Safe
use orka_gateway_telegram.Prelude.{
  ℕ, ◌/◌, ◌%◌, Bool, true, false, not, ◌&&◌, ◌||◌, Option, none, some, [], ◌∷◌, ◌++◌, Text, bytes,
  eqb, ◌==◌, if◌then◌else◌,
}
use orka_gateway_telegram.Text.Space.{trim_space}
use orka_gateway_telegram.Text.Replace.{has_prefix}
use orka_gateway_telegram.Config.System.{
  FileInfo, System, Error, set_only_one, inspect_file, accessible_file, read_file_failed, Loaded,
  ok, err,
}

infixl 5 ◌>>=◌
abbrev pub ◌>>=◌ : {A B : Type 0} → Option A → (A → Option B) → Option B
none >>= f = none
some a >>= f = f a

-- relative == ".." or with the prefix "../"
unfoldable pub escapes : Text → Bool
escapes relative = relative == bytes ".." || has_prefix (bytes "../") relative

-- info.Mode().Perm() & 0o027: the bit for writing of the group, or a bit of the others.
unfoldable pub is_exposed : ℕ → Bool
is_exposed permissions = not (eqb (permissions / 16 % 2) 0) || not (eqb (permissions % 8) 0)

module _ (sys : System) where
  -- The target of a symlink, if it is inside the directory of the link.
  unfoldable pub resolved_link : Text → Option Text
  resolved_link path = do
    resolved ← sys.eval_symlinks path
    base ← sys.eval_symlinks (sys.dir path)
    base' ← sys.abs base
    resolved' ← sys.abs resolved
    relative ← sys.rel base' resolved'
    if escapes relative then none else some resolved'

  unfoldable pub actual_path : Text → Option Text
  actual_path path = do
    is_link ← sys.is_symlink path
    if is_link then resolved_link path else some path

  unfoldable pub resolve_secret_file : Text → Option (Text × FileInfo)
  resolve_secret_file path = do
    actual ← actual_path path
    info ← sys.stat actual
    if not info.is_regular then none else some (actual, info)

  abbrev pub read_secret : Text → Option (Text × FileInfo) → Loaded Text
  read_secret name none = err (inspect_file name)
  read_secret name (some (actual, info)) =
      if is_exposed info.permissions
      then err (accessible_file name)
      else elim (sys.read_file actual) [
        | none ↦ err (read_file_failed name)
        | some data' ↦ ok (trim_space data')
      ]

  unfoldable pub secret : Text → Loaded Text
  secret name =
      let value = trim_space (sys.getenv name) in
      let file = trim_space (sys.getenv (name ++ bytes "_FILE")) in
      if not (value == []) && not (file == [])
      then err (set_only_one name)
      else if file == []
      then ok value
      else read_secret name (resolve_secret_file file)
