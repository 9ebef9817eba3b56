-- ===== src/Registry/Names.antt =====
-- The names of the registered modules.
use clue_getter.Prelude.{
  ◌≡◌, refl, sym, ◌∙◌, inl, inr, Bool, true, false, Option, none, some, List, [], ◌∷◌, ◌++◌,
  if◌then◌else◌, any, Bool-cases, arith, ◌||◌,
}
use clue_getter.Prelude.Text.{Text, ◌==◌, eq_iff, eq_refl, is_empty}
use clue_getter.Prelude.Go.{ok}
use clue_getter.Registry.{
  Module, Registry, is_named, register_ipc, finish_register, module_register, not_found,
  find_module, get_module,
}

-- No name is empty, and none is that of two modules.
abbrev pub IsDistinct : List Module → Type 0
IsDistinct [] = Unit
IsDistinct (m ∷ ms) = (is_empty m.name ≡ false) × (any (is_named m.name) ms ≡ false) × IsDistinct ms

false_ne : false ≡ true → ⊥
false_ne e = cc e

or_parts : (a b : Bool) → (a || b) ≡ false → (a ≡ false) × (b ≡ false)
or_parts false b e = (refl, e)
or_parts true b e = absurd (false_ne (sym e))

any-append :
    (p : Module → Bool) (ms : List Module) (m : Module) → any p (ms ++ m ∷ []) ≡ (any p ms || p m)
any-append p [] m = ground arith
any-append p (first ∷ ms) m = ground (arith, any-append p ms m)

is_named_sym : (m m' : Module) → is_named m.name m' ≡ is_named m'.name m
unfolding is_named
is_named_sym m m' = ground (arith, eq_iff m.name m'.name, eq_iff m'.name m.name)

append-IsDistinct :
    (ms : List Module) (m : Module)
    → is_empty m.name ≡ false
    → any (is_named m.name) ms ≡ false
    → IsDistinct ms
    → IsDistinct (ms ++ m ∷ [])
append-IsDistinct [] m named new h = (named, refl, tt)
append-IsDistinct (first ∷ ms) m named new (named', new', h) = (
  named',
  any-append (is_named first.name) ms m
      ∙ rw (new', is_named_sym first m)
          ((or_parts (is_named m.name first) (any (is_named m.name) ms) new).0),
  append-IsDistinct ms m named ((or_parts (is_named m.name first) (any (is_named m.name) ms) new).1)
      h,
)

find-append :
    (ms : List Module) (m : Module) (caller : Text)
    → any (is_named m.name) ms ≡ false
    → find_module m.name caller (ms ++ m ∷ [])
      ≡ (if m.enabled then ok (some m) else not_found caller)
unfolding find_module is_named
find-append [] m caller new = rw (eq_refl m.name) refl
find-append (first ∷ ms) m caller new = elim (Bool-cases (first.name == m.name)) [
  | inl same ↦ absurd (false_ne (sym (rw same at new)))
  | inr other ↦ rw (other, find-append ms m caller (rw other at new)) refl
]

finish_register-IsDistinct :
    (r : Registry) (m : Module) (handlers : List Text × Bool)
    → is_empty m.name ≡ false
    → any (is_named m.name) r.modules ≡ false
    → IsDistinct r.modules
    → IsDistinct (finish_register r m handlers).0.modules
unfolding finish_register
finish_register-IsDistinct r m (handlers, true) named new h =
    append-IsDistinct r.modules m named new h
finish_register-IsDistinct r m (handlers, false) named new h = h

-- Whatever registers, and whether the call returns or panics, no module has an empty name, and no two
-- have one name.
pub module_register-IsDistinct :
    (r : Registry) (m : Option Module)
    → IsDistinct r.modules
    → IsDistinct (module_register r m).0.modules
unfolding module_register
module_register-IsDistinct r none h = h
module_register-IsDistinct r (some m) h = elim (Bool-cases (is_empty m.name)) [
  | inl nameless ↦ rw (module_register, nameless) h
  | inr named ↦ elim (Bool-cases (any (is_named m.name) r.modules)) [
    | inl twice ↦ rw (module_register, named, twice) h
    | inr new ↦
        rw (module_register, named, new)
          (finish_register-IsDistinct r m (register_ipc r.ipc_handlers m.ipc_names) named new h)
  ]
]

find-finish_register :
    (r : Registry) (m : Module) (caller : Text) (handlers : List Text × Bool)
    → any (is_named m.name) r.modules ≡ false
    → (finish_register r m handlers).1 ≡ true
    → get_module (finish_register r m handlers).0 m.name caller
      ≡ (if m.enabled then ok (some m) else not_found caller)
unfolding finish_register get_module
find-finish_register r m caller (handlers, true) new done = find-append r.modules m caller new
find-finish_register r m caller (handlers, false) new done = absurd (false_ne done)

-- A module whose registration returned is found by its name if it is enabled; if it is not, there is
-- no module of that name, for which a caller that gives its own name panics.
pub get_module-module_register :
    (r : Registry) (m : Module) (caller : Text)
    → (module_register r (some m)).1 ≡ true
    → get_module (module_register r (some m)).0 m.name caller
      ≡ (if m.enabled then ok (some m) else not_found caller)
unfolding module_register
get_module-module_register r m caller done = elim (Bool-cases (is_empty m.name)) [
  | inl nameless ↦ absurd (false_ne (rw (module_register, nameless) at done))
  | inr named ↦ elim (Bool-cases (any (is_named m.name) r.modules)) [
    | inl twice ↦ absurd (false_ne (rw (module_register, named, twice) at done))
    | inr new ↦
        rw (module_register, named, new)
          (find-finish_register r m caller (register_ipc r.ipc_handlers m.ipc_names) new
            (rw (module_register, named, new) at done))
  ]
]
