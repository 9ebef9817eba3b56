-- ===== src/Daemon/Targets.antt =====
-- core/redis.go: for whom a remote call is, by the target that its channel names.
use clue_getter.Prelude.{
  ℕ, ◌^◌, ◌<◌, ◌≡◌, refl, ap, ◌∙◌, Bool, true, false, List, [], ◌∷◌, ◌++◌, arith, eqb,
  if◌then◌else◌,
}
use clue_getter.Prelude.Int.{is_int, equals}
use clue_getter.Prelude.Int.Printed.{atoi-show, is_empty-show}
use clue_getter.Prelude.Text.{Text, text, show, is_empty, ◌==◌}
use clue_getter.Prelude.Text.Cutting.{Lacks, Lacks-show}
use clue_getter.Dict.{Dict}
use clue_getter.Daemon.Rpc.{
  Service, is_addressed, all_listeners, channels_for, redis_rpc, redis_rpc_lem,
}

-- All services, those of an instance by its number, or those of a host by its name.
pub data Target : Type 0 where
  all_services : Target
  instance_number : ℕ → Target
  host_name : Text → Target

-- The target as it is written in the name of a channel.
abbrev pub written : Target → Text
written all_services = []
written (instance_number n) = show n
written (host_name host) = host

-- Whether a service is meant.
abbrev pub names : Target → Service → Bool
names all_services self = true
names (instance_number n) self = eqb n self.instance_id
names (host_name host) self = host == self.hostname

-- What can be written: a number that is an int, and a host whose name is no number.
abbrev pub IsWritable : Target → Type 0
IsWritable all_services = Unit
IsWritable (instance_number n) = n < 2 ^ 63
IsWritable (host_name host) = (is_empty host ≡ false) × (is_int host ≡ false) × Lacks b'!' host

written-Lacks : (target : Target) → IsWritable target → Lacks b'!' (written target)
written-Lacks all_services h = tt
written-Lacks (instance_number n) h = Lacks-show b'!' n (omega arith)
written-Lacks (host_name host) (some_host, no_number, h) = h

is_addressed-written :
    (self : Service) (target : Target)
    → IsWritable target
    → is_addressed self (written target) ≡ names target self
unfolding is_addressed is_int equals
is_addressed-written self all_services h = refl
is_addressed-written self (instance_number n) h =
    let (number, same) = atoi-show n h in rw (number, is_empty-show n, same) refl
is_addressed-written self (host_name host) (some_host, no_number, h) =
    rw (no_number, some_host) refl

-- A message for a pattern that is published for all services, for an instance whose number is below
-- 2 ^ 63, or for a host whose name is neither empty nor a number and has no "!", reaches each channel
-- that a module names for the pattern where the service is meant: where the numbers of the instances,
-- or the names of the hosts, are equal. It reaches nobody where the service is not meant.
pub redis_rpc_reaches :
    {C : Type 0} (self : Service) (modules : List (Dict C)) (target : Target) (pattern : Text)
    → IsWritable target
    → redis_rpc self
        (all_listeners modules [])
        (text "cluegetter" ++ b'!' ∷ (written target ++ b'!' ∷ pattern))
      ≡ (if names target self then channels_for pattern modules else [])
redis_rpc_reaches self modules target pattern h =
    redis_rpc_lem self modules (written target) pattern (written-Lacks target h)
    ∙ ap (λ b. if b then channels_for pattern modules else []) (is_addressed-written self target h)
