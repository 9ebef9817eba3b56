-- ===== src/Daemon/Rpc.antt =====
-- core/redis.go: messages of other hosts, that redis publishes on channels.
use clue_getter.Prelude.{
  ℕ, ◌≡◌, refl, sym, ap, ◌∙◌, inl, inr, Bool-cases, Option-cases, Bool, not, ◌&&◌, ◌||◌, Option,
  none, some, List, [], ◌∷◌, ◌++◌, any, if◌then◌else◌,
}
use clue_getter.Prelude.Int.{atoi, is_int, equals}
use clue_getter.Prelude.Text.{Text, text, cut, is_empty, ◌==◌, eq_refl, eq_iff}
use clue_getter.Prelude.Text.Cutting.{Lacks, free_of, cut-append}
use clue_getter.Dict.{Dict, lookup, insert, lookup-insert}
use mathlib.Core.List.{append_assoc, append-nil}

-- The program's `instance` and `hostname`.
pub record Service : Type 0 where
  pub hostname : Text
  pub instance_id : ℕ

-- strings.SplitN(s, "!", 3), none where it has fewer than three elements.
abbrev rest_of : Text → Option (Text × Text) → Option (Text × Text × Text)
rest_of first none = none
rest_of first (some (second, third)) = some (first, second, third)

abbrev elements_of : Option (Text × Text) → Option (Text × Text × Text)
unfolding cut
elements_of none = none
elements_of (some (first, rest)) = rest_of first (cut b'!' rest)

-- Whether a message for a target is for this service: for all, for its instance by number, or for
-- its host by name.
unfoldable pub is_addressed : Service → Text → Bool
unfolding ◌==◌ is_int atoi equals
is_addressed self target =
    if is_int target && not (is_empty target)
    then equals (atoi target) self.instance_id
    else is_empty target || target == self.hostname

prefix_free : Lacks b'!' (text "cluegetter")
prefix_free = free_of b'!' (text "cluegetter") refl

elements_read :
    (target pattern : Text)
    → Lacks b'!' target
    → elements_of (cut b'!' (text "cluegetter" ++ b'!' ∷ (target ++ b'!' ∷ pattern)))
      ≡ some (text "cluegetter", target, pattern)
unfolding elements_of
elements_read target pattern h =
    ap elements_of (cut-append b'!' (text "cluegetter") (target ++ b'!' ∷ pattern) prefix_free)
    ∙ ap (rest_of (text "cluegetter")) (cut-append b'!' target pattern h)

module _ {C : Type 0} where
  abbrev listeners_with : Text → C → Option (List C) → Dict (List C) → Dict (List C)
  listeners_with pattern channel none listeners = insert pattern (channel ∷ []) listeners
  listeners_with pattern channel (some channels) listeners =
      insert pattern (channels ++ channel ∷ []) listeners

  -- The channels of one module, for each of its patterns, and of all.
  unfoldable pub add_listeners : Dict C → Dict (List C) → Dict (List C)
  unfolding lookup insert ◌==◌
  add_listeners [] listeners = listeners
  add_listeners ((pattern, channel) ∷ rpc) listeners =
      add_listeners rpc (listeners_with pattern channel (lookup pattern listeners) listeners)

  unfoldable pub all_listeners : List (Dict C) → Dict (List C) → Dict (List C)
  unfolding add_listeners
  all_listeners [] listeners = listeners
  all_listeners (rpc ∷ modules) listeners = all_listeners modules (add_listeners rpc listeners)

  abbrev pub or_nobody : Option (List C) → List C
  or_nobody none = []
  or_nobody (some channels) = channels

  abbrev pub route : Service → Dict (List C) → Option (Text × Text × Text) → List C
  unfolding lookup
  route self listeners none = []
  route self listeners (some (prefix, target, pattern)) =
      if not (prefix == text "cluegetter")
      then []
      else if not (is_addressed self target)
      then []
      else or_nobody (lookup pattern listeners)

  -- A round of `redisRpc`: who gets a message that is published on a channel.
  unfoldable pub redis_rpc : Service → Dict (List C) → Text → List C
  unfolding cut is_addressed
  redis_rpc self listeners channel = route self listeners (elements_of (cut b'!' channel))

  -- The channels for a pattern, of one module and of all.
  abbrev pub own_channels : Text → Dict C → List C
  own_channels pattern [] = []
  own_channels pattern ((p, channel) ∷ rpc) =
      if p == pattern then channel ∷ own_channels pattern rpc else own_channels pattern rpc

  abbrev pub channels_for : Text → List (Dict C) → List C
  channels_for pattern [] = []
  channels_for pattern (rpc ∷ modules) = own_channels pattern rpc ++ channels_for pattern modules

  lookup-listeners_with :
      (pattern p : Text) (channel : C) (listeners : Dict (List C))
      → or_nobody (lookup pattern (listeners_with p channel (lookup p listeners) listeners)) ≡ (
          if p == pattern
          then or_nobody (lookup pattern listeners) ++ channel ∷ []
          else or_nobody (lookup pattern listeners))
  lookup-listeners_with pattern p channel listeners = elim (Option-cases (lookup p listeners)) [
    | inl missing ↦ elim (Bool-cases (p == pattern)) [
      | inl same ↦
          rw
            (
              ← (eq_iff p pattern).0 same,
              missing,
              eq_refl p,
              lookup-insert p p (channel ∷ []) listeners,
              eq_refl p,
            )
            refl
      | inr apart ↦
          rw (missing, apart, lookup-insert p pattern (channel ∷ []) listeners, apart) refl
    ]
    | inr (channels, found) ↦ elim (Bool-cases (p == pattern)) [
      | inl same ↦
          rw
            (
              ← (eq_iff p pattern).0 same,
              found,
              eq_refl p,
              lookup-insert p p (channels ++ channel ∷ []) listeners,
              eq_refl p,
            )
            refl
      | inr apart ↦
          rw (found, apart, lookup-insert p pattern (channels ++ channel ∷ []) listeners, apart)
            refl
    ]
  ]

  lookup-add_listeners :
      (pattern : Text) (rpc : Dict C) (listeners : Dict (List C))
      → or_nobody (lookup pattern (add_listeners rpc listeners))
        ≡ or_nobody (lookup pattern listeners) ++ own_channels pattern rpc
  unfolding add_listeners
  lookup-add_listeners pattern [] listeners = sym (append-nil _)
  lookup-add_listeners pattern ((p, channel) ∷ rpc) listeners =
      lookup-add_listeners pattern rpc (listeners_with p channel (lookup p listeners) listeners)
      ∙ elim (Bool-cases (p == pattern)) [
        | inl same ↦
            rw (lookup-listeners_with pattern p channel listeners, same)
              (append_assoc (or_nobody (lookup pattern listeners)) (channel ∷ [])
                (own_channels pattern rpc))
        | inr apart ↦ rw (lookup-listeners_with pattern p channel listeners, apart) refl
      ]

  lookup-all_listeners :
      (pattern : Text) (modules : List (Dict C)) (listeners : Dict (List C))
      → or_nobody (lookup pattern (all_listeners modules listeners))
        ≡ or_nobody (lookup pattern listeners) ++ channels_for pattern modules
  unfolding all_listeners
  lookup-all_listeners pattern [] listeners = sym (append-nil _)
  lookup-all_listeners pattern (rpc ∷ modules) listeners =
      lookup-all_listeners pattern modules (add_listeners rpc listeners)
      ∙ rw (lookup-add_listeners pattern rpc listeners) (
          append_assoc (or_nobody (lookup pattern listeners)) (own_channels pattern rpc)
            (channels_for pattern modules))

  -- A message for a target without a "!" reaches the channels for its pattern where the test of the
  -- target passes.
  pub redis_rpc_lem :
      (self : Service) (modules : List (Dict C)) (target pattern : Text)
      → Lacks b'!' target
      → redis_rpc self
          (all_listeners modules [])
          (text "cluegetter" ++ b'!' ∷ (target ++ b'!' ∷ pattern))
        ≡ (if is_addressed self target then channels_for pattern modules else [])
  unfolding redis_rpc route
  redis_rpc_lem self modules target pattern h =
      ap (route self (all_listeners modules [])) (elements_read target pattern h)
      ∙ elim (Bool-cases (is_addressed self target)) [
        | inl ours ↦ rw (ours, lookup-all_listeners pattern modules []) refl
        | inr theirs ↦ rw theirs refl
      ]

-- `redisDumpPublish`: the name of the file that gets a message, none where it is not kept.
unfoldable pub redis_dump_publish : Text → List (Text → Bool) → Text → Text → Option Text
redis_dump_publish dump_dir dump_keys direction key =
    if is_empty dump_dir
    then none
    else if any (λ (matches : Text → Bool). matches key) dump_keys
    then some (text "cluegetter-redisPublish-" ++ (key ++ b'-' ∷ (direction ++ text "-")))
    else none
