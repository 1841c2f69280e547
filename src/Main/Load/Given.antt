-- ===== src/Main/Load/Given.antt =====
-- What `loadConfig` of cmd/lbsync/main.go makes of flags that are given.
use mathlib.Core.List.{append_assoc}
use lbsync.Prelude.{
  text, ◌⊎◌, ℕ, ◌≡◌, ◌∙◌, refl, sym, ap, Text, same, same_iff, Bool, Bool-cases, inl, inr, true,
  false, not, ◌&&◌, ◌==◌, Option, none, some, List, [], ◌∷◌, ◌++◌, Result, ok, err, Error, ◌>>=◌,
  wrapped, All, arith, if◌then◌else◌,
}
use lbsync.Prelude.Dict.{Dict, lookup}
use lbsync.Main.Strings.{cut}
use lbsync.Main.Load.{
  parse_bool, no_flag, terminator, Config, Flag, text_flag, int_flag, duration_flag, bool_flag,
  flags, Readers, set, bad_value, named, cut_name, name_of, spelling, assigned, alone, given,
  parse_one, parse_args, load_config, next,
}

-- How a flag is given: `-name=value`, `-name value`, or `-name` alone, with one dash or two.
pub data Style : Type 0 where
  joined : Style
  apart : Style
  bare : Style

pub record Setting : Type 0 where
  pub name : Text
  pub value : Text
  pub flag : Flag
  pub style : Style
  pub two_dashes : Bool

abbrev dashed : Bool → Text → Text
dashed two t = if two then b'-' ∷ b'-' ∷ t else b'-' ∷ t

abbrev pub args_of : Setting → List Text
args_of s = elim s.style [
  | joined ↦ dashed s.two_dashes (s.name ++ (b'=' ∷ s.value)) ∷ []
  | apart ↦ dashed s.two_dashes s.name ∷ s.value ∷ []
  | bare ↦ dashed s.two_dashes s.name ∷ []
]

abbrev pub all_args : List Setting → List Text
all_args [] = []
all_args (s ∷ more) = args_of s ++ all_args more

-- A boolean flag takes no argument; alone, it stands for `true`.
abbrev pub Fits : Flag → Style → Text → Type 0
Fits f joined value = Unit
Fits (bool_flag f) apart value = ⊥
Fits (bool_flag f) bare value = value ≡ text "true"
Fits f apart value = Unit
Fits f bare value = ⊥

-- The flag is one of loadConfig.
abbrev pub IsDefined : Setting → Type 0
IsDefined s = (lookup flags s.name ≡ some s.flag) × Fits s.flag s.style s.value

-- Set, with the error of Parse.
abbrev pub assign : Readers → Setting → Config → Result Config
assign v s c = elim (set v s.flag s.value c) [
  | err e ↦ err (wrapped (bad_value s.name s.flag s.value) e)
  | ok c' ↦ ok c'
]

-- The flags set their fields one after the other, up to the first value that cannot be read.
abbrev pub assign_all : Readers → List Setting → Config → Result Config
assign_all v [] c = ok c
assign_all v (s ∷ more) c = assign v s c >>= assign_all v more

abbrev lacks : ℕ → Text → Bool
lacks c [] = true
lacks c (x ∷ t) = not (x == c) && lacks c t

abbrev is_name : Text → Bool
is_name [] = false
is_name (x ∷ t) = not (x == b'-') && lacks b'=' (x ∷ t)

abbrev all_names : Dict Flag → Bool
all_names [] = true
all_names ((name, f) ∷ more) = is_name name && all_names more

lookup-is_name :
    (m : Dict Flag) (name : Text) (f : Flag)
    → all_names m ≡ true
    → lookup m name ≡ some f
    → is_name name ≡ true
unfolding lookup
lookup-is_name [] name f good h = absurd (cc)
lookup-is_name ((j, g) ∷ m) name f good h = elim (Bool-cases (same j name)) [
  | inl e ↦ rw (← (same_iff j name).0 e) (ground arith)
  | inr e ↦ lookup-is_name m name f (ground arith) (rw e at h)
]

flags-all_names : all_names flags ≡ true
unfolding flags
flags-all_names = refl

cut-lacks : (c : ℕ) (t : Text) → lacks c t ≡ true → cut c t ≡ none
unfolding cut
cut-lacks c [] h = refl
cut-lacks c (x ∷ t) h = ground (arith, cut-lacks c t)

cut-append : (c : ℕ) (t s : Text) → lacks c t ≡ true → cut c (t ++ (c ∷ s)) ≡ some (t, s)
unfolding cut
cut-append c [] s h = ground arith
cut-append c (x ∷ t) s h = ground (arith, cut-append c t s)

spelling_name :
    (two : Bool) (x : ℕ) (t : Text)
    → (x == b'-') ≡ false
    → (x == b'=') ≡ false
    → spelling (dashed two (x ∷ t)) ≡ cut_name (x ∷ t) (cut b'=' (x ∷ t))
unfolding spelling name_of
spelling_name true x t h k = rw (h, k) refl
spelling_name false x t h k = rw (h, k) refl

-- The spelling of a name with what follows it.
spelling_joined :
    (two : Bool) (name value : Text)
    → is_name name ≡ true
    → spelling (dashed two (name ++ (b'=' ∷ value))) ≡ named name (some value)
spelling_joined two [] value h = absurd (cc)
spelling_joined two (x ∷ t) value h =
    spelling_name two x (t ++ (b'=' ∷ value)) (ground arith) (ground arith)
    ∙ ap (cut_name (x ∷ (t ++ (b'=' ∷ value)))) (cut-append b'=' (x ∷ t) value (ground arith))

spelling_apart :
    (two : Bool) (name : Text) → is_name name ≡ true → spelling (dashed two name) ≡ named name none
spelling_apart two [] h = absurd (cc)
spelling_apart two (x ∷ t) h =
    spelling_name two x t (ground arith) (ground arith)
    ∙ ap (cut_name (x ∷ t)) (cut-lacks b'=' (x ∷ t) (ground arith))

module _ (v : Readers) where
  assign_ok : (s : Setting) (c c' : Config) → set v s.flag s.value c ≡ ok c' → assign v s c ≡ ok c'
  assign_ok s c c' h = rw (h, assign) refl

  assign_err :
      (s : Setting) (c : Config) (e : Error)
      → set v s.flag s.value c ≡ err e
      → assign v s c ≡ err (wrapped (bad_value s.name s.flag s.value) e)
  assign_err s c e h = rw (h, assign) refl

  -- What Parse makes of the value of a flag, and of the arguments behind it.
  assigned_then :
      (s : Setting) (r : Result Config) (waiting : Option (Text × Flag)) (arg : Text)
      (args : List Text) (c : Config)
      → set v s.flag s.value c ≡ r
      → parse_one v waiting arg c ≡ assigned v s.name s.flag s.value c
      → parse_args v waiting (arg ∷ args) c ≡ (assign v s c >>= parse_args v none args)
  unfolding parse_args assigned
  assigned_then s (ok c') waiting arg args c h e =
      rw (e, parse_args, h, assigned)
        (sym (ap (λ (r : Result Config). r >>= parse_args v none args) (assign_ok s c c' h)))
  assigned_then s (err x) waiting arg args c h e =
      rw (e, parse_args, h, assigned)
        (sym (ap (λ (r : Result Config). r >>= parse_args v none args) (assign_err s c x h)))

  joined_first :
      (s : Setting) (c : Config)
      → is_name s.name ≡ true
      → lookup flags s.name ≡ some s.flag
      → parse_one v none (dashed s.two_dashes (s.name ++ (b'=' ∷ s.value))) c
        ≡ assigned v s.name s.flag s.value c
  unfolding parse_one given
  joined_first s c good h = rw (spelling_joined s.two_dashes s.name s.value good, h, parse_one) refl

  apart_first :
      (s : Setting) (c : Config)
      → is_name s.name ≡ true
      → lookup flags s.name ≡ some s.flag
      → parse_one v none (dashed s.two_dashes s.name) c ≡ alone v s.name s.flag c
  unfolding parse_one given
  apart_first s c good h = rw (spelling_apart s.two_dashes s.name good, h, parse_one) refl

  alone_waits :
      (f : Flag) (name value : Text) (c : Config)
      → Fits f apart value
      → alone v name f c ≡ next (some (name, f)) c
  unfolding alone
  alone_waits (text_flag g) name value c fits = refl
  alone_waits (int_flag g) name value c fits = refl
  alone_waits (duration_flag g) name value c fits = refl
  alone_waits (bool_flag g) name value c fits = absurd fits

  alone_set :
      (s : Setting) (c : Config)
      → Fits s.flag bare s.value
      → (c' : Config) × (alone v s.name s.flag c ≡ next none c') × (assign v s c ≡ ok c')
  alone_set s c fits = by_flag s.flag refl fits
    where
      by_flag :
          (f : Flag)
          → s.flag ≡ f
          → Fits f bare s.value
          → (c' : Config) × (alone v s.name s.flag c ≡ next none c') × (assign v s c ≡ ok c')
      by_flag (text_flag g) h fits = absurd fits
      by_flag (int_flag g) h fits = absurd fits
      by_flag (duration_flag g) h fits = absurd fits
      by_flag (bool_flag g) h fits = (
        g true c,
        unfold alone in rw h refl,
        assign_ok s c (g true c) (unfold set parse_bool same in rw (h, fits) refl),
      )

  setting_then :
      (s : Setting) (style : Style) (args : List Text) (c : Config)
      → s.style ≡ style
      → IsDefined s
      → parse_args v none (args_of s ++ args) c ≡ (assign v s c >>= parse_args v none args)
  unfolding parse_args
  setting_then s joined args c e (defined, fits) = rw e (
      assigned_then s _ none _ args c refl
        (joined_first s c (lookup-is_name flags s.name s.flag flags-all_names defined) defined))
  setting_then s apart args c e (defined, fits) =
      rw
        (
          e,
          apart_first s c (lookup-is_name flags s.name s.flag flags-all_names defined) defined,
          alone_waits s.flag s.name s.value c (rw e at fits),
          parse_args,
        )
        (assigned_then s _ (some (s.name, s.flag)) s.value args c refl (unfold parse_one in refl))
  setting_then s bare args c e (defined, fits) =
      let (c', waits, assigned_) = alone_set s c (rw e at fits) in
      rw
        (
          e,
          apart_first s c (lookup-is_name flags s.name s.flag flags-all_names defined) defined,
          waits,
          parse_args,
        )
        (sym (ap (λ (r : Result Config). r >>= parse_args v none args) assigned_))

  -- A chain that goes on in two ways that agree.
  then_agree :
      (r : Result Config) (f g : Config → Result Config)
      → ((c : Config) → f c ≡ g c)
      → (r >>= f) ≡ (r >>= g)
  then_agree (ok c) f g h = h c
  then_agree (err e) f g h = refl

  -- The arguments end, or the first of them is no flag, or is `--`.
  abbrev pub Ends : List Text → Type 0
  Ends [] = Unit {0}
  Ends (arg ∷ args) = (spelling arg ≡ no_flag) ⊎ (spelling arg ≡ terminator)

  parse_args-Ends : (rest : List Text) (c : Config) → Ends rest → parse_args v none rest c ≡ ok c
  unfolding parse_args parse_one
  parse_args-Ends [] c ends = refl
  parse_args-Ends (arg ∷ args) c (inl e) = rw (e, parse_args) refl
  parse_args-Ends (arg ∷ args) c (inr e) = rw (e, parse_args) refl

  parse_args-all_args :
      (settings : List Setting) (rest : List Text) (c : Config)
      → All IsDefined settings
      → Ends rest
      → parse_args v none (all_args settings ++ rest) c ≡ assign_all v settings c
  parse_args-all_args [] rest c defined ends = parse_args-Ends rest c ends
  parse_args-all_args (s ∷ more) rest c (one, others) ends =
      ap (λ (args : List Text). parse_args v none args c)
        (append_assoc (args_of s) (all_args more) rest)
      ∙ setting_then s s.style (all_args more ++ rest) c refl one
      ∙ then_agree (assign v s c) _ _ (λ c'. parse_args-all_args more rest c' others ends)

  -- Flags of loadConfig that are given, with one dash or two, each as `-name=value`, as `-name value` if it
  -- is not boolean, or as `-name` alone if it is: they set their fields one after the other over what the
  -- environment gives, so a flag prevails over the environment and over an earlier one of its name. The
  -- first value that cannot be read ends it, with the error of that flag. Whatever stands behind the
  -- first argument that is no flag, or behind `--`, is ignored without an error, further flags included.
  pub load_config-given :
      (env : Config) (settings : List Setting) (rest : List Text)
      → All IsDefined settings
      → Ends rest
      → load_config v (ok env) (all_args settings ++ rest) ≡ assign_all v settings env
  unfolding load_config
  load_config-given env settings rest defined ends =
      parse_args-all_args settings rest env defined ends
