-- ===== src/Kernel/Module.antt =====
-- modules/module.c: loadable parts of the kernel. A module's functions `init` and `exit` act on the state `W`
-- of the kernel; a null function is `none`, and a string its characters.
use ceblar.Prelude.{
  ℕ, Bool, true, false, ◌&&◌, ◌||◌, ◌==◌, ltb, leb, if◌then◌else◌, Option, none, some, List, [],
  ◌∷◌, ◌++◌, length, get_or, take,
}

abbrev pub Text : Type 0
Text = List ℕ

-- `kernel_module_t`, without the texts that no function reads. `depends` holds the names before the first
-- null one, at most four.
pub record KernelModule (W : Type 0) : Type 0 where
  pub name : Option Text
  pub init : Option (W → Bool × W)
  pub exit : Option (W → W)
  pub depends : List Text
  pub refcount : ℕ
  pub loaded : Bool

abbrev pub max_modules : ℕ
max_modules = 32

-- The first character of a string, 0 for the empty one.
abbrev pub first_char : Text → ℕ
first_char t = get_or t 0 0

-- The comparison of `module_unload`, character by character.
unfoldable pub same_text : Text → Text → Bool
same_text [] [] = true
same_text [] (c ∷ n) = false
same_text (c ∷ a) [] = false
same_text (c ∷ a) (d ∷ n) = c == d && same_text a n

abbrev pub same_start : Option Text → Text → Bool
same_start none n = false
same_start (some t) n = first_char t == first_char n

abbrev pub is_named : Option Text → Text → Bool
is_named none n = false
is_named (some t) n = same_text t n

module _ {W : Type 0} where
  -- A call with a module; `none` is the result -1.
  unfoldable pub module_register :
      KernelModule W → List (KernelModule W) → Option (List (KernelModule W))
  module_register m mods = if leb max_modules (length mods) then none else some (mods ++ m ∷ [])

  -- Compares first characters only, as the code does.
  unfoldable pub dep_loaded : Text → List (KernelModule W) → Bool
  dep_loaded n [] = false
  dep_loaded n (m ∷ mods) = (m.loaded && same_start m.name n) || dep_loaded n mods

  unfoldable pub all_loaded : List Text → List (KernelModule W) → Bool
  all_loaded [] mods = true
  all_loaded (n ∷ names) mods = dep_loaded n mods && all_loaded names mods

  abbrev pub run_init : Option (W → Bool × W) → W → Bool × W
  run_init none w = (true, w)
  run_init (some f) w = f w

  -- The loop of `module_load_all`: the modules already passed, and those left.
  unfoldable pub load_from :
      List (KernelModule W) → List (KernelModule W) → W → Bool × List (KernelModule W) × W
  load_from passed [] w = (true, passed, w)
  load_from passed (m ∷ mods) w = elim (all_loaded (take 4 m.depends) (passed ++ m ∷ mods)) [
    | false ↦ (false, passed ++ m ∷ mods, w)
    | true ↦
        let (ok, w₁) = if m.loaded then (true, w) else run_init m.init w in
        elim ok [
          | false ↦ (false, passed ++ m ∷ mods, w₁)
          | true ↦ load_from (passed ++ record m { loaded = true } ∷ []) mods w₁
        ]
  ]

  unfoldable pub module_load_all : List (KernelModule W) → W → Bool × List (KernelModule W) × W
  module_load_all = load_from []

  abbrev pub run_exit : Option (W → W) → W → W
  run_exit none w = w
  run_exit (some f) w = f w

  -- The first module of that name; `refcount` is an `int`, counted here from 0.
  unfoldable pub module_unload : Text → List (KernelModule W) → W → Bool × List (KernelModule W) × W
  module_unload n [] w = (false, [], w)
  module_unload n (m ∷ mods) w =
      let (ok, mods', w') = module_unload n mods w in
      if is_named m.name n
      then (if ltb 0 m.refcount
          then (false, m ∷ mods, w)
          else (true, record m { loaded = false } ∷ mods, run_exit m.exit w))
      else (ok, m ∷ mods', w')

  unfoldable pub module_count : List (KernelModule W) → ℕ
  module_count = length
