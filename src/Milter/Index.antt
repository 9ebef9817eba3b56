-- ===== src/Milter/Index.antt =====
-- core/milter.go: what a callback leaves of the sessions of the others.
use clue_getter.Prelude.{
  ℕ, ◌≡◌, ◌≢◌, refl, sym, ap, ◌∙◌, inl, inr, Bool, true, false, not, ◌&&◌, Option, none, some,
  arith, Bool-cases, Option-cases, if◌then◌else◌,
}
use mathlib.Core.Path.{subst}
use clue_getter.Prelude.Text.{Text, ◌==◌, eq_iff}
use clue_getter.Prelude.Go.{Go, ok, panic, Go-cases}
use clue_getter.Dict.{lookup, lookup-insert, lookup-delete}
use clue_getter.Message.{Message}
use clue_getter.Milter.{
  Session, Status, Milter, MilterConfig, Ctx, is_whitelisted, put_session, delete_session,
  get_session, with_session, milter_handle_error,
}
use clue_getter.Milter.Lifecycle.{abort_body, close_body}
use clue_getter.Milter.Mail.{last_message, with_message}

eq_ne : (s t : Text) → t ≢ s → (s == t) ≡ false
eq_ne s t ne = ground (arith, eq_iff s t)

some_inj : {A : Type 0} {a b : A} → some a ≡ some b → a ≡ b
some_inj e = cc

found_inj : {A : Type 0} {a b : A} → ok (some a) ≡ ok (some b) → a ≡ b
found_inj e = cc

panic_ne : {A : Type 0} {a : A} → ◌≡◌ {A = Go A} panic (ok a) → ⊥
panic_ne e = cc

nil_ne :
    {A : Type 0} {a : A} (return_nil : Bool)
    → ◌≡◌ {A = Go (Option A)} (if return_nil then ok none else panic) (ok (some a))
    → ⊥
nil_ne true e = cc
nil_ne false e = cc

none_ne : {A : Type 0} {a : A} → ◌≡◌ {A = Option A} none (some a) → ⊥
none_ne e = cc

module _ {F : Type 0} where
  -- Each session stands in the index under its own id.
  abbrev pub IsIndexed : Milter F → Type 0
  IsIndexed m = (u : Text) (s : Session F) → lookup u m.sessions ≡ some s → s.id ≡ u

  -- The new state is indexed, and the sessions but one are those of the old one.
  abbrev pub IsLocal : Text → Milter F → Milter F → Type 0
  IsLocal u m m' = IsIndexed m' × ((v : Text) → v ≢ u → lookup v m'.sessions ≡ lookup v m.sessions)

  pub IsLocal-refl : (u : Text) (m : Milter F) → IsIndexed m → IsLocal u m m
  IsLocal-refl u m h = (h, λ v ne. refl)

  pub IsLocal-trans :
      (u : Text) (m m' m'' : Milter F) → IsLocal u m m' → IsLocal u m' m'' → IsLocal u m m''
  IsLocal-trans u m m' m'' (h, l) (h', l') = (h', λ v ne. l' v ne ∙ l v ne)

  pub put_session-IsLocal :
      (m : Milter F) (s : Session F) → IsIndexed m → IsLocal s.id m (put_session m s)
  unfolding put_session
  put_session-IsLocal m s h = (
    (λ v s' e.
        let found = sym (lookup-insert s.id v s m.sessions) ∙ e in
        elim (Bool-cases (s.id == v)) [
          | inl same ↦
              ap (λ (x : Session F). x.id) (sym (some_inj (rw same at found)))
              ∙ (eq_iff s.id v).0 same
          | inr other ↦ h v s' (rw other at found)
        ]),
    (λ v ne. rw (lookup-insert s.id v s m.sessions, eq_ne s.id v ne) refl),
  )

  pub delete_session-IsLocal :
      (m : Milter F) (now : ℕ) (s : Session F)
      → IsIndexed m
      → IsLocal s.id m (delete_session m now s)
  unfolding delete_session
  delete_session-IsLocal m now s h = (
    (λ v s' e.
        let found = sym (lookup-delete s.id v m.sessions) ∙ e in
        elim (Bool-cases (s.id == v)) [
          | inl same ↦ absurd (none_ne (rw same at found))
          | inr other ↦ h v s' (rw other at found)
        ]),
    (λ v ne. rw (lookup-delete s.id v m.sessions, eq_ne s.id v ne) refl),
  )

  -- The same where the id is given by an equation.
  pub put_at :
      (u : Text) (m : Milter F) (s : Session F)
      → IsIndexed m
      → s.id ≡ u
      → IsLocal u m (put_session m s)
  put_at u m s h e = subst (λ x. IsLocal x m (put_session m s)) e (put_session-IsLocal m s h)

  -- What is found has the id that was looked for.
  pub get_session-id :
      (m : Milter F) (ctx : Ctx) (keep return_nil : Bool) (s : Session F)
      → IsIndexed m
      → get_session m ctx keep return_nil ≡ ok (some s)
      → s.id ≡ ctx.priv
  unfolding get_session
  get_session-id m ctx keep return_nil s h e = elim (Bool-cases (keep && not ctx.is_kept)) [
    | inl lost ↦ absurd (panic_ne (rw lost at e))
    | inr kept ↦ elim (Option-cases (lookup ctx.priv m.sessions)) [
      | inl missing ↦ absurd (nil_ne return_nil (rw (kept, missing) at e))
      | inr (s', found) ↦
          ap (λ (x : Session F). x.id) (sym (found_inj (rw (kept, found) at e)))
          ∙ h ctx.priv s' found
    ]
  ]

  -- A callback is local if what it does with its session is.
  pub with_session-IsLocal :
      (m : Milter F) (ctx : Ctx) (handler : Milter F → Session F → Milter F × Go Status)
      → IsIndexed m
      → ((m' : Milter F) (s : Session F)
          → IsIndexed m'
          → s.id ≡ ctx.priv
          → IsLocal ctx.priv m' (handler m' s).0)
      → IsLocal ctx.priv m (with_session m ctx handler).0
  unfolding with_session
  with_session-IsLocal m ctx handler h local = elim (Go-cases (get_session m ctx true false)) [
    | inl lost ↦ rw (with_session, lost) (IsLocal-refl ctx.priv m h)
    | inr (none, nil) ↦ rw (with_session, nil) (IsLocal-refl ctx.priv m h)
    | inr (some s, found) ↦
        let id = get_session-id m ctx true false s h found in
        let stored = put_at ctx.priv m s h id in
        rw (with_session, found)
          (IsLocal-trans ctx.priv m (put_session m s) (handler (put_session m s) s).0 stored
            (local (put_session m s) s stored.0 id))
  ]

  -- The part of `with_message` that has the session.
  abbrev in_message :
      (Milter F → Session F → Message F → Milter F × Go Status)
      → Milter F
      → Session F
      → Milter F × Go Status
  in_message handler m s = elim (last_message s.messages) [
    | none ↦ (m, panic)
    | some msg ↦ handler m s msg
  ]

  pub with_message-IsLocal :
      (m : Milter F) (ctx : Ctx) (handler : Milter F → Session F → Message F → Milter F × Go Status)
      → IsIndexed m
      → ((m' : Milter F) (s : Session F) (msg : Message F)
          → IsIndexed m'
          → s.id ≡ ctx.priv
          → IsLocal ctx.priv m' (handler m' s msg).0)
      → IsLocal ctx.priv m (with_message m ctx handler).0
  unfolding with_message
  with_message-IsLocal m ctx handler h local =
      with_session-IsLocal m ctx (in_message handler) h λ m' s h' id.
        elim (Option-cases (last_message s.messages)) [
          | inl missing ↦ rw (in_message, missing) (IsLocal-refl ctx.priv m' h')
          | inr (msg, found) ↦ rw (in_message, found) (local m' s msg h' id)
        ]

  pub milter_handle_error-IsLocal :
      (config : MilterConfig) (m : Milter F) (ctx : Ctx) (u : Text) (result : Go Status)
      → IsIndexed m
      → u ≡ ctx.priv
      → IsLocal u m (milter_handle_error config ctx (m, result)).0
  unfolding milter_handle_error
  milter_handle_error-IsLocal config m ctx u (ok status) h e = IsLocal-refl u m h
  milter_handle_error-IsLocal config m ctx u panic h e = elim (Bool-cases config.noop) [
    | inl noop ↦ rw noop (IsLocal-refl u m h)
    | inr live ↦ elim (Go-cases (get_session m ctx true true)) [
      | inl lost ↦ rw (live, lost) (IsLocal-refl u m h)
      | inr (none, nil) ↦ rw (live, nil) (IsLocal-refl u m h)
      | inr (some s, found) ↦
          let stored = put_at u m s h (get_session-id m ctx true true s h found ∙ sym e) in
          elim (Bool-cases (is_whitelisted config s)) [
            | inl listed ↦ rw (live, found, listed) stored
            | inr other ↦ rw (live, found, other) stored
          ]
    ]
  ]

  -- A callback that keeps the data and ends its session, or does nothing.
  pub close_body-IsLocal :
      (m : Milter F) (ctx : Ctx) (now : ℕ)
      → IsIndexed m
      → IsLocal ctx.priv m (close_body m ctx now).0
  unfolding close_body
  close_body-IsLocal m ctx now h = elim (Go-cases (get_session m ctx false true)) [
    | inl lost ↦ rw (close_body, lost) (IsLocal-refl ctx.priv m h)
    | inr (none, nil) ↦ rw (close_body, nil) (IsLocal-refl ctx.priv m h)
    | inr (some s, found) ↦
        rw (close_body, found)
          (subst (λ x. IsLocal x m (delete_session m now s))
            (get_session-id m ctx false true s h found) (delete_session-IsLocal m now s h))
  ]

  pub abort_body-IsLocal :
      (m : Milter F) (ctx : Ctx) → IsIndexed m → IsLocal ctx.priv m (abort_body m ctx).0
  unfolding abort_body
  abort_body-IsLocal m ctx h = elim (Go-cases (get_session m ctx true true)) [
    | inl lost ↦ rw (abort_body, lost) (IsLocal-refl ctx.priv m h)
    | inr (none, nil) ↦ rw (abort_body, nil) (IsLocal-refl ctx.priv m h)
    | inr (some s, found) ↦
        rw (abort_body, found) (put_at ctx.priv m s h (get_session-id m ctx true true s h found))
  ]
