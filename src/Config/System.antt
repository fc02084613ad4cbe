-- ===== src/Config/System.antt =====
-- What internal/config calls of the packages os, path/filepath, strconv and time: the environment and
-- the files are parameters.
use orka_gateway_telegram.Prelude.{ℕ, Bool, Option, Text, List}
use orka_gateway_telegram.Prelude.Int.{ℤ}

-- os.FileInfo: the permission bits, and whether the file is regular.
pub record FileInfo : Type 0 where
  pub permissions : ℕ
  pub is_regular : Bool

-- `none` stands for an error. `is_symlink` is what Lstat says of the mode.
pub record System : Type 0 where
  pub getenv : Text → Text
  pub is_symlink : Text → Option Bool
  pub eval_symlinks : Text → Option Text
  pub dir : Text → Text
  pub abs : Text → Option Text
  pub rel : (base target : Text) → Option Text
  pub stat : Text → Option FileInfo
  pub read_file : Text → Option Text
  pub parse_duration : Text → Option ℤ

-- The errors of Load, each with the name of the variable. `incomplete` has those of Validate.
pub data Error : Type 0 where
  set_only_one inspect_file accessible_file read_file_failed : (name : Text) → Error
  not_a_duration not_an_integer : (name : Text) → Error
  incomplete : List Text → Error

pub data Loaded (A : Type 0) : Type 0 where
  ok : A → Loaded A
  err : Error → Loaded A

infixl 5 ◌>>=◌
abbrev pub ◌>>=◌ : {A B : Type 0} → Loaded A → (A → Loaded B) → Loaded B
ok a >>= f = f a
err e >>= f = err e
