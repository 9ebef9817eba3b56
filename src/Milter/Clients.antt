-- ===== src/Milter/Clients.antt =====
-- core/milterSession.go: the id of a session, the mail servers that sessions come from, and the end
-- of a session.
use clue_getter.Prelude.{
  ℕ, ◌≡◌, refl, inl, inr, Bool, true, ◌&&◌, Option, none, some, List, [], ◌∷◌, ◌++◌, if◌then◌else◌,
  map, Bool-cases,
}
use clue_getter.Prelude.Text.{Text, ◌==◌, eq_refl}
use clue_getter.Prelude.Go.{Go, ok, panic}
use clue_getter.Registry.{Module, Registry, enabled_modules}
use clue_getter.Milter.{Session}

-- `SetId`, where `zero_id` is the id of 16 zero bytes.
unfoldable pub set_id : {F : Type 0} → Text → Session F → Text → Go (Session F)
unfolding ◌==◌
set_id zero_id s id =
    if s.id == zero_id then (if id == zero_id then panic else ok (record s { id = id })) else panic

pub record Client : Type 0 where
  pub id : ℕ
  pub hostname : Text
  pub daemon_name : Text

unfoldable pub is_client : Text → Text → Client → Bool
unfolding ◌==◌
is_client hostname daemon_name c = c.hostname == hostname && c.daemon_name == daemon_name

unfoldable pub find_client : Text → Text → List Client → Option Client
unfolding is_client
find_client hostname daemon_name [] = none
find_client hostname daemon_name (c ∷ cs) =
    let rest = find_client hostname daemon_name cs in
    if is_client hostname daemon_name c then some c else rest

-- `milterSessionGetClient`: the clients that are known then, and the client. What the database answers
-- to an insertion is the id, or none for an error.
unfoldable pub add_client : List Client → Text → Text → Option ℕ → List Client × Go Client
add_client clients hostname daemon_name none = (clients, panic)
add_client clients hostname daemon_name (some id) =
    let c : Client = record { id = id; hostname = hostname; daemon_name = daemon_name } in
    (clients ++ c ∷ [], ok c)

unfoldable pub get_client : List Client → Text → Text → Option ℕ → List Client × Go Client
unfolding find_client add_client
get_client clients hostname daemon_name inserted = elim (find_client hostname daemon_name clients) [
  | some c ↦ (clients, ok c)
  | none ↦ add_client clients hostname daemon_name inserted
]

-- `milterSessionPostDisconnectModule` for each session that was queued: which module sees which.
unfoldable pub process_queue : {F : Type 0} → Registry → List (Session F) → List (Text × Session F)
unfolding enabled_modules
process_queue r [] = []
process_queue r (s ∷ queue) =
    map (λ (m : Module). (m.name, s)) (enabled_modules r) ++ process_queue r queue

find_client-append :
    (hostname daemon_name : Text) (clients : List Client) (c : Client)
    → find_client hostname daemon_name clients ≡ none
    → is_client hostname daemon_name c ≡ true
    → find_client hostname daemon_name (clients ++ c ∷ []) ≡ some c
unfolding find_client
find_client-append hostname daemon_name [] c new same = rw same refl
find_client-append hostname daemon_name (first ∷ clients) c new same =
    elim (Bool-cases (is_client hostname daemon_name first)) [
      | inl known ↦ absurd (cc (rw known at new))
      | inr other ↦
          rw other (find_client-append hostname daemon_name clients c (rw other at new) same)
    ]

get_client-known :
    (clients : List Client) (hostname daemon_name : Text) (c : Client) (inserted : Option ℕ)
    → find_client hostname daemon_name clients ≡ some c
    → get_client clients hostname daemon_name inserted ≡ (clients, ok c)
unfolding get_client
get_client-known clients hostname daemon_name c inserted e = rw (get_client, e) refl

get_client-new :
    (clients : List Client) (hostname daemon_name : Text) (id : ℕ)
    → find_client hostname daemon_name clients ≡ none
    → get_client clients hostname daemon_name (some id) ≡ (
      clients ++ (record { id = id; hostname = hostname; daemon_name = daemon_name }) ∷ [],
      ok (record { id = id; hostname = hostname; daemon_name = daemon_name }),
    )
unfolding get_client add_client
get_client-new clients hostname daemon_name id new = rw (get_client, new) refl

-- A client that was inserted is found from then on, whatever the database would answer: it is not
-- inserted again, and stays the same.
pub get_client_lem :
    (clients : List Client) (hostname daemon_name : Text) (id : ℕ) (inserted : Option ℕ)
    → find_client hostname daemon_name clients ≡ none
    → get_client (get_client clients hostname daemon_name (some id)).0 hostname daemon_name inserted
      ≡ get_client clients hostname daemon_name (some id)
unfolding is_client
get_client_lem clients hostname daemon_name id inserted new =
    let c : Client = record { id = id; hostname = hostname; daemon_name = daemon_name } in
    let same : is_client hostname daemon_name c ≡ true =
      rw (eq_refl hostname, eq_refl daemon_name) refl in
    rw (get_client-new clients hostname daemon_name id new) (
      get_client-known (clients ++ c ∷ []) hostname daemon_name c inserted
        (find_client-append hostname daemon_name clients c new same))
