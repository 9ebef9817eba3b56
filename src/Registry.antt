-- ===== src/Registry.antt =====
-- core/module.go: the modules that register themselves, and the lookup of one by its name.
pub mod Names
mod Tests
use clue_getter.Prelude.{
  Bool, true, false, not, ◌||◌, Option, none, some, List, [], ◌∷◌, ◌++◌, if◌then◌else◌, any, keep,
}
use clue_getter.Prelude.Text.{Text, ◌==◌, is_empty}
use clue_getter.Prelude.Go.{Go, ok, panic}

pub record Module : Type 0 where
  pub name : Text
  pub enabled : Bool
  pub ipc_names : List Text

pub record Registry : Type 0 where
  pub modules : List Module
  pub ipc_handlers : List Text

unfoldable pub is_named : Text → Module → Bool
unfolding ◌==◌
is_named name m = m.name == name

unfoldable pub has_handler : Text → List Text → Bool
unfolding ◌==◌
has_handler name handlers = any (λ h. h == name) handlers

-- The loop over a module's handlers; false where it panics, with the handlers until then.
unfoldable pub register_ipc : List Text → List Text → List Text × Bool
unfolding has_handler
register_ipc handlers [] = (handlers, true)
register_ipc handlers (name ∷ names) =
    let rest = register_ipc (handlers ++ name ∷ []) names in
    if has_handler name handlers then (handlers, false) else rest

unfoldable pub finish_register : Registry → Module → List Text × Bool → Registry × Bool
finish_register r m (handlers, true) =
    (record { modules = r.modules ++ m ∷ []; ipc_handlers = handlers }, true)
finish_register r m (handlers, false) = (record r { ipc_handlers = handlers }, false)

-- `ModuleRegister`: the new registry, and whether the call returned.
unfoldable pub module_register : Registry → Option Module → Registry × Bool
unfolding is_named register_ipc finish_register
module_register r none = (r, false)
module_register r (some m) =
    if is_empty m.name
    then (r, false)
    else if any (is_named m.name) r.modules
    then (r, false)
    else finish_register r m (register_ipc r.ipc_handlers m.ipc_names)

-- `Modules`
unfoldable pub enabled_modules : Registry → List Module
enabled_modules r = keep (λ (m : Module). m.enabled) r.modules

-- `Module`: where none is found it panics if the caller gave its name.
unfoldable pub not_found : Text → Go (Option Module)
not_found caller = if is_empty caller then ok none else panic

unfoldable pub find_module : Text → Text → List Module → Go (Option Module)
unfolding is_named not_found
find_module name caller [] = not_found caller
find_module name caller (m ∷ ms) =
    let rest = find_module name caller ms in
    if not (is_named name m) then rest else if m.enabled then ok (some m) else not_found caller

unfoldable pub get_module : Registry → Text → Text → Go (Option Module)
unfolding find_module
get_module r name caller = find_module name caller r.modules
