-- ===== src/Config/Secret/Safe.antt =====
-- internal/config/config.go: where a secret comes from.
use orka_gateway_telegram.Prelude.{
  ◌≡◌, refl, sym, ap, ◌∙◌, subst, ◌⊎◌, inl, inr, Bool, true, false, not, Option, none, some, [],
  ◌++◌, Text, bytes, ◌==◌, arith, Bool-cases, Option-cases, if◌then◌else◌,
}
use orka_gateway_telegram.Text.Space.{trim_space}
use orka_gateway_telegram.Config.System.{FileInfo, System, ok}
use orka_gateway_telegram.Config.Secret.{
  escapes, is_exposed, ◌>>=◌, resolved_link, actual_path, resolve_secret_file, read_secret, secret,
}

module _ (sys : System) where
  -- The path `actual` is not that of a symlink, or it is where the symlink leads, which is inside
  -- the directory that the symlink is in.
  pub data Inside (path : Text) : Text → Type 0 where
    not_linked : sys.is_symlink path ≡ some false → Inside path path
    linked :
        (resolved base base' actual relative : Text)
        → sys.is_symlink path ≡ some true
        → sys.eval_symlinks path ≡ some resolved
        → sys.eval_symlinks (sys.dir path) ≡ some base
        → sys.abs base ≡ some base'
        → sys.abs resolved ≡ some actual
        → sys.rel base' actual ≡ some relative
        → escapes relative ≡ false
        → Inside path actual

  bind-some :
      {A B : Type 0} (m : Option A) (f : A → Option B) (b : B)
      → (m >>= f) ≡ some b
      → (a : A) × (m ≡ some a) × (f a ≡ some b)
  bind-some none f b h = cc
  bind-some (some a) f b h = (a, refl, h)

  guard-some :
      {A : Type 0} (b : Bool) (x y : A)
      → (if b then none else some x) ≡ some y
      → (b ≡ false) × (x ≡ y)
  guard-some true x y h = cc
  guard-some false x y h = (refl, ground arith)

  resolved_link-Inside :
      (path actual : Text)
      → sys.is_symlink path ≡ some true
      → resolved_link sys path ≡ some actual
      → Inside path actual
  unfolding resolved_link
  resolved_link-Inside path actual e h =
      let (resolved, e₁, h₁) = bind-some (sys.eval_symlinks path) _ actual h in
      let (base, e₂, h₂) = bind-some (sys.eval_symlinks (sys.dir path)) _ actual h₁ in
      let (base', e₃, h₃) = bind-some (sys.abs base) _ actual h₂ in
      let (resolved', e₄, h₄) = bind-some (sys.abs resolved) _ actual h₃ in
      let (relative, e₅, h₅) = bind-some (sys.rel base' resolved') _ actual h₄ in
      let (inside, final) = guard-some (escapes relative) resolved' actual h₅ in
      linked resolved base base' actual relative e e₁ e₂ e₃ (e₄ ∙ ap some final)
        (ap (λ t. sys.rel base' t) (sym final) ∙ e₅) inside

  actual_path-Inside :
      (path actual : Text) → actual_path sys path ≡ some actual → Inside path actual
  unfolding actual_path
  actual_path-Inside path actual h =
      let (link, e, k) = bind-some (sys.is_symlink path) _ actual h in ends link e k
    where
      ends :
          (link : Bool)
          → sys.is_symlink path ≡ some link
          → (if link then resolved_link sys path else some path) ≡ some actual
          → Inside path actual
      ends true e k = resolved_link-Inside path actual e k
      ends false e k =
          let p : path ≡ actual = ground arith in subst (λ t. Inside path t) p (not_linked e)

  -- Where the value of a secret that Load takes comes from: only one of the two variables is set,
  -- and a file is regular, inside the directory of its link, and closed to others.
  pub data Source (name value : Text) : Type 0 where
    from_variable :
        trim_space (sys.getenv (name ++ bytes "_FILE")) ≡ []
        → value ≡ trim_space (sys.getenv name)
        → Source name value
    from_file :
        (actual content : Text) (info : FileInfo)
        → trim_space (sys.getenv name) ≡ []
        → Inside (trim_space (sys.getenv (name ++ bytes "_FILE"))) actual
        → sys.stat actual ≡ some info
        → info.is_regular ≡ true
        → is_exposed info.permissions ≡ false
        → sys.read_file actual ≡ some content
        → value ≡ trim_space content
        → Source name value

  resolve_secret_file-Inside :
      (path actual : Text) (info : FileInfo)
      → resolve_secret_file sys path ≡ some (actual, info)
      → Inside path actual × (sys.stat actual ≡ some info) × (info.is_regular ≡ true)
  unfolding resolve_secret_file
  resolve_secret_file-Inside path actual info h =
      let (a, e, h₁) = bind-some (actual_path sys path) _ (actual, info) h in
      let (i, e₁, h₂) = bind-some (sys.stat a) _ (actual, info) h₁ in
      let (regular, pair) = guard-some (not i.is_regular) (a, i) (actual, info) h₂ in
      let p : a ≡ actual = ap (λ x. x.0) pair in
      let q : i ≡ info = ap (λ x. x.1) pair in
      (
        actual_path-Inside path actual (e ∙ ap some p),
        ap sys.stat (sym p) ∙ e₁ ∙ ap some q,
        ground (arith, regular, q),
      )

  read_secret-ok :
      (name value actual : Text) (info : FileInfo)
      → read_secret sys name (some (actual, info)) ≡ ok value
      → (is_exposed info.permissions ≡ false)
        × (content : Text) × (sys.read_file actual ≡ some content)
        × (value ≡ trim_space content)
  read_secret-ok name value actual info h = elim (Bool-cases (is_exposed info.permissions)) [
    | inl e ↦ ground arith
    | inr e ↦ elim (Option-cases (sys.read_file actual)) [
      | inl e' ↦ ground arith
      | inr (content, e') ↦ (e, content, e', ground arith)
    ]
  ]

  read_secret-Source :
      (name value : Text) (found : Option (Text × FileInfo))
      → resolve_secret_file sys (trim_space (sys.getenv (name ++ bytes "_FILE"))) ≡ found
      → trim_space (sys.getenv name) ≡ []
      → read_secret sys name found ≡ ok value
      → Source name value
  read_secret-Source name value none e blank h = cc
  read_secret-Source name value (some (actual, info)) e blank h =
      let (inside, stat, regular) = resolve_secret_file-Inside _ actual info e in
      let (closed, content, read, same) = read_secret-ok name value actual info h in
      from_file actual content info blank inside stat regular closed read same

  -- A text that is not the empty one is not blank, and the other way round.
  blank-cases : (t : Text) → ((t == []) ≡ true) × (t ≡ []) ⊎ ((t == []) ≡ false)
  blank-cases t = elim (Bool-cases (t == [])) [ inl e ↦ inl (e, ground arith) | inr e ↦ inr e ]

  -- A secret that is read has a source.
  pub secret-Source : (name value : Text) → secret sys name ≡ ok value → Source name value
  unfolding secret
  secret-Source name value h =
      elim (blank-cases (trim_space (sys.getenv (name ++ bytes "_FILE")))) [
        | inl (e, blank) ↦ from_variable blank (ground arith)
        | inr e ↦ elim (blank-cases (trim_space (sys.getenv name))) [
          | inl (e', blank) ↦ read_secret-Source name value _ refl blank (ground arith)
          | inr e' ↦ ground arith
        ]
      ]
