-- ===== src/Quotas/Order.antt =====
-- quotas/quotas.go: the verdict does not depend on the order in which the goroutines send.
use clue_getter.Prelude.{
  ◌≡◌, refl, ap, ◌∙◌, Bool, true, false, ◌||◌, inl, inr, List, [], ◌∷◌, any, if◌then◌else◌,
  Bool-cases,
}
use clue_getter.Prelude.Text.{Text, is_empty}
use clue_getter.Prelude.Float.{Float}
use clue_getter.Message.{Action, permit, tempfail, Callback}
use clue_getter.Quotas.Polling.{QuotasResult}
use clue_getter.Quotas.Verdict.{
  exceeds, reject_text, reject_msg, callbacks_from, callbacks_of, verdict_on, verdict_with,
}
use mathlib.Core.List.{Perm, Permᴰ, Perm-prop, append_assoc, perm_append_comm}
use mathlib.Core.List.Perm
use mathlib.Core.Logic.{∥∥₁_elim}
use mathlib.Core.Bool.{Bool-set}

if_same : (b : Bool) → (if b then false else false) ≡ false
if_same true = refl
if_same false = refl

or_swap : (a b c : Bool) → (a || (b || c)) ≡ (b || (a || c))
or_swap true true c = refl
or_swap true false c = refl
or_swap false b c = refl

is_empty-reject_msg :
    (msg : Text) (rs : List QuotasResult)
    → is_empty (reject_msg msg rs) ≡ (if any exceeds rs then false else is_empty msg)
unfolding reject_msg reject_text
is_empty-reject_msg msg [] = refl
is_empty-reject_msg msg (r ∷ rs) = elim (Bool-cases (exceeds r)) [
  | inl over ↦ rw (over, is_empty-reject_msg (reject_text r) rs) (if_same (any exceeds rs))
  | inr under ↦ rw under (is_empty-reject_msg msg rs)
]

any-Permᴰ : {rs ss : List QuotasResult} → Permᴰ rs ss → any exceeds rs ≡ any exceeds ss
any-Permᴰ Permᴰ.nil = refl
any-Permᴰ (Permᴰ.cons {a} {b} e p) = rw (ap exceeds e, any-Permᴰ p) refl
any-Permᴰ (Permᴰ.swap {a' = a'} {b' = b'} {l = l} e f) =
    rw (ap exceeds e, ap exceeds f) (or_swap (exceeds b') (exceeds a') (any exceeds l))
any-Permᴰ (Permᴰ.trans p q) = any-Permᴰ p ∙ any-Permᴰ q

any-Perm : {rs ss : List QuotasResult} → Perm rs ss → any exceeds rs ≡ any exceeds ss
any-Perm p = ∥∥₁_elim p (Bool-set _ _) any-Permᴰ

abbrev own_callbacks : QuotasResult → List Callback
own_callbacks r = callbacks_from 1 r.extra_count r.key

callbacks_of-Permᴰ :
    {rs ss : List QuotasResult} → Permᴰ rs ss → Perm (callbacks_of rs) (callbacks_of ss)
unfolding callbacks_of
callbacks_of-Permᴰ Permᴰ.nil = Perm.nil
callbacks_of-Permᴰ (Permᴰ.cons {a} {b} {l₁} {l₂} e p) =
    rw (ap own_callbacks e) (Perm.append_left (own_callbacks b) (callbacks_of-Permᴰ p))
callbacks_of-Permᴰ (Permᴰ.swap {a} {b} {a'} {b'} {l} e f) =
    rw (ap own_callbacks e, ap own_callbacks f, ← append_assoc, ← append_assoc)
      (Perm.append_right (callbacks_of l) (perm_append_comm (own_callbacks b') (own_callbacks a')))
callbacks_of-Permᴰ (Permᴰ.trans p q) = Perm.trans (callbacks_of-Permᴰ p) (callbacks_of-Permᴰ q)

callbacks_of-Perm :
    {rs ss : List QuotasResult} → Perm rs ss → Perm (callbacks_of rs) (callbacks_of ss)
callbacks_of-Perm p = ∥∥₁_elim p Perm-prop callbacks_of-Permᴰ

module _ {F : Type 0} (fl : Float F) (hundred : F) where
  if_deferred :
      (b : Bool)
      → ◌≡◌ {A = Action}
          (if (if b then false else true) then permit else tempfail)
          (if b then tempfail else permit)
  if_deferred true = refl
  if_deferred false = refl

  verdict_with_action :
      (cs : List Callback) (msg : Text)
      → ((verdict_with fl hundred cs msg).suggested_action
          ≡ (if is_empty msg then permit else tempfail))
        × ((verdict_with fl hundred cs msg).callbacks ≡ cs)
  verdict_with_action cs [] = (refl, refl)
  verdict_with_action cs (c ∷ msg) = (refl, refl)

  -- In whatever order the goroutines send their results, the message is deferred if some quota is
  -- exceeded and permitted if none is, and the same tallies are prepared for it.
  pub verdict_on_unordered :
      (rs ss : List QuotasResult)
      → Perm rs ss
      → ((verdict_on fl hundred ss).suggested_action
          ≡ (if any exceeds rs then tempfail else permit))
        × Perm (verdict_on fl hundred rs).callbacks (verdict_on fl hundred ss).callbacks
  unfolding verdict_on
  verdict_on_unordered rs ss p =
      let (action, cs) = verdict_with_action (callbacks_of ss) (reject_msg [] ss) in
      let (_, bs) = verdict_with_action (callbacks_of rs) (reject_msg [] rs) in
      (
        rw (action, is_empty-reject_msg [] ss, any-Perm p) (if_deferred (any exceeds ss)),
        rw (cs, bs) (callbacks_of-Perm p),
      )
