-- ===== src/Registry/Tests.antt =====
-- Tests of the registry, and its theorems at concrete inputs.
use clue_getter.Prelude.{◌≡◌, refl, true, false, some, [], ◌∷◌}
use clue_getter.Prelude.Text.{text, ◌==◌}
use clue_getter.Registry.{Module, Registry, module_register}
use clue_getter.Registry.Names.{IsDistinct, module_register-IsDistinct}

abbrev quotas : Module
quotas = record { name = text "quotas"; enabled = true; ipc_names = text "flush" ∷ [] }

abbrev bayes : Module
bayes = record { name = text "bayes"; enabled = false; ipc_names = text "flush" ∷ [] }

abbrev registry : Registry
registry = record { modules = quotas ∷ []; ipc_handlers = text "flush" ∷ [] }

taken_handler_test : (module_register registry (some bayes)).1 ≡ false
unfolding module_register ◌==◌
taken_handler_test = refl

module_register-IsDistinct_example : IsDistinct (module_register registry (some bayes)).0.modules
module_register-IsDistinct_example =
    module_register-IsDistinct registry (some bayes) (refl, refl, tt)
