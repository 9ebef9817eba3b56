-- ===== src/Index.antt =====
-- elasticsearch/index.go: the sessions of the database, read page by page and handed on in batches.
pub mod Pages
pub mod Complete
pub mod Period
pub mod Hydration
pub mod Edits
pub mod Fields
pub mod Restored
mod Tests
use clue_getter.Prelude.{
  ℕ, zero, suc, ◌+◌, Bool, true, false, ◌||◌, Option, none, some, List, [], ◌∷◌, ◌++◌,
  if◌then◌else◌, length, ltb, leb, eqb,
}
use clue_getter.Prelude.Text.{Text}
use clue_getter.Prelude.Go.{Go, ok, panic, ◌>>=◌}

-- The columns of a session that the query reads, with its 16 bytes of id as a number, and times in
-- seconds; none for a session that was not disconnected.
pub record StoredSession : Type 0 where
  pub id : ℕ
  pub instance_id : ℕ
  pub date_connect : ℕ
  pub date_disconnect : Option ℕ
  pub ip : Text
  pub reverse_dns : Text
  pub helo : Text
  pub sasl_username : Text
  pub sasl_method : Text
  pub cert_issuer : Text
  pub cert_subject : Text
  pub cipher_bits : ℕ
  pub cipher : Text
  pub tls_version : Text
  pub mta_host_name : Text
  pub mta_daemon_name : Text

-- sessions[sess.IdArray()] = sess
unfoldable pub keep_session : StoredSession → List StoredSession → List StoredSession
keep_session s [] = s ∷ []
keep_session s (t ∷ sessions) =
    let rest = keep_session s sessions in if eqb t.id s.id then s ∷ sessions else t ∷ rest

-- What one page gives: the batches that were sent, the last id, and the count.
pub record Page : Type 0 where
  pub batches : List (List StoredSession)
  pub last_id : ℕ
  pub count : ℕ

module _ (not_before not_after : ℕ) where
  abbrev pub is_out : StoredSession → Bool
  is_out s = ltb not_after s.date_connect || ltb s.date_connect not_before

  -- The loop over the rows, a row as the session that Scan reads, none where it fails. SetId panics
  -- at an id that is zero. A batch, a map by id in the source, is here a list in the order of reading.
  unfoldable pub read_rows :
      List (List StoredSession) → List StoredSession → ℕ → ℕ → List (Option StoredSession) → Go Page
  unfolding keep_session
  read_rows sent sessions last count [] =
      ok (record { batches = sent ++ sessions ∷ []; last_id = last; count = count })
  read_rows sent sessions last count (none ∷ rows) = read_rows sent sessions last count rows
  read_rows sent sessions last count (some s ∷ rows) =
      let skipped = read_rows sent sessions s.id count rows in
      let sent_now = read_rows (sent ++ keep_session s sessions ∷ []) [] s.id (count + 1) rows in
      let kept = read_rows sent (keep_session s sessions) s.id (count + 1) rows in
      if eqb s.id 0
      then panic
      else if is_out s
      then skipped
      else if ltb 64 (length (keep_session s sessions))
      then sent_now
      else kept

  -- `query` is the page of the database from an id downwards, at most 512 rows; the test says whether
  -- it has the id itself.
  module _ (query : Bool → ℕ → List (Option StoredSession)) where
    -- `indexFetchSessionsFromDb`
    unfoldable pub fetch_sessions : ℕ → Bool → Go Page
    unfolding read_rows
    fetch_sessions start include_id = read_rows [] [] 0 0 (query include_id start)

    -- The loop of `indexSessionsFromDb` on fuel: the batches, none where the fuel runs out.
    unfoldable pub fetch_rest : ℕ → Page → Go (Option (List (List StoredSession)))
    unfolding fetch_sessions
    fetch_rest zero page = ok none
    fetch_rest (suc fuel) page =
        if eqb page.count 0
        then ok (some page.batches)
        else fetch_sessions page.last_id false >>= λ next.
            fetch_rest fuel (record next { batches = page.batches ++ next.batches })

    -- `indexSessionsFromDb`
    unfoldable pub index_sessions : ℕ → ℕ → Go (Option (List (List StoredSession)))
    unfolding fetch_rest
    index_sessions fuel start = fetch_sessions start true >>= λ page. fetch_rest fuel page
