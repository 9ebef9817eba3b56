-- ===== src/Quotas/Tests.antt =====
-- Tests of the quotas, with lists and sorted sets in maps for redis, and its theorems at a concrete
-- input.
use clue_getter.Prelude.{
  ℕ, ◌≡◌, ◌≢◌, refl, inl, inr, Bool, true, false, Option, none, some, List, [], ◌∷◌, ◌++◌,
  Bool-cases, ◌≤◌, arith, any, if◌then◌else◌,
}
use clue_getter.Prelude.Go.{Go, ok, panic}
use clue_getter.Prelude.Int.{ℤ, pos, minus, atoi, to_bits, show_int}
use clue_getter.Prelude.Text.{Text, text, cut, ◌==◌, eq_iff, eq_refl, show, split, to_upper}
use clue_getter.Prelude.Float.{whole}
use clue_getter.Dict.{Dict, lookup, insert, delete, lookup-insert, total}
use clue_getter.Address.{from_string, to_string, get_sld}
use clue_getter.Quotas.{Redis, QuotasConfig, QuotasModule, Delivery, get_msg_factors, init}
use clue_getter.Quotas.Definitions.{
  insert_all, definitions_key, quota_key, definition_text, insert_regexes_for_selector,
  update_from_rdbms, regexes_load,
}
use clue_getter.Quotas.Polling.{
  period_and_curb, poll_by_selector, counts_key, count_in_period, distinct_from, has_duplicates,
  poll_factors, extra_count_of, QuotasResult, result_of, poll_by_selector_and_period,
}
use clue_getter.Quotas.Verdict.{
  callbacks_of, verdict_on, message_check, exceeds, reject_text, add_all, sasluser_stats, not_found,
  redirect, bad_request, stats,
}
use clue_getter.Quotas.Windows.{in_range, purged, is_recent, recent, IsJudged, poll_refines_window}
use mathlib.Core.List.{Perm, reverse}
use mathlib.Core.List.Perm
use clue_getter.Quotas.Order.{verdict_on_unordered}
use clue_getter.Quotas.Limits.{permitted_within_curb}
use clue_getter.Message.{permit, tempfail}

record Stored : Type 0 where
  lists : Dict (List Text)
  sets : Dict (Dict ℕ)

abbrev or_empty : {A : Type 0} → Option (List A) → List A
or_empty none = []
or_empty (some xs) = xs

abbrev set_at : Stored → Text → Dict ℕ
set_at s key = or_empty (lookup key s.sets)

abbrev memory : Redis Stored
memory = record {
  l_range = λ s key. or_empty (lookup key s.lists);
  l_push = λ s key values. record s {
    lists = insert key (reverse values ++ or_empty (lookup key s.lists)) s.lists;
  };
  del = λ s key. record s { lists = delete key s.lists };
  expire = λ s key ttl. s;
  set_nx = λ s key value ttl. (s, some true);
  z_count = λ s key start end. total (in_range start end) (set_at s key);
  z_rem_range_by_score =
      λ s key start. record s { sets = insert key (purged start (set_at s key)) s.sets };
  z_add = λ s key score member. record s {
    sets = insert key (insert member score (set_at s key)) s.sets;
  };
}

z_count_memory :
    (s : Stored) (key : Text) (start : ℤ) (end : ℕ)
    → memory.z_count s key start end ≡ total (in_range start end) (set_at s key)
z_count_memory s key start end = refl

z_rem_memory :
    (s : Stored) (key : Text) (start : ℤ)
    → set_at (memory.z_rem_range_by_score s key start) key ≡ purged start (set_at s key)
z_rem_memory s key start =
    rw (lookup-insert key key (purged start (set_at s key)) s.sets, eq_refl key) refl

z_add_memory :
    (s : Stored) (key : Text) (score : ℕ) (member : Text)
    → set_at (memory.z_add s key score member) key ≡ insert member score (set_at s key)
z_add_memory s key score member =
    rw (lookup-insert key key (insert member score (set_at s key)) s.sets, eq_refl key) refl

z_add_other_memory :
    (s : Stored) (key other : Text) (score : ℕ) (member : Text)
    → key ≢ other
    → set_at (memory.z_add s key score member) other ≡ set_at s other
z_add_other_memory s key other score member ne = elim (Bool-cases (key == other)) [
  | inl same ↦ absurd (ne ((eq_iff key other).0 same))
  | inr apart ↦ rw (lookup-insert key other (insert member score (set_at s key)) s.sets, apart) refl
]

conf : QuotasConfig
unfolding cut message_check get_msg_factors init regexes_load update_from_rdbms insert_all lookup
    insert delete ◌==◌ to_string from_string get_sld to_upper show show_int atoi minus to_bits split
    period_and_curb poll_by_selector poll_factors extra_count_of counts_key count_in_period
    distinct_from has_duplicates insert_regexes_for_selector definitions_key quota_key
    definition_text total is_recent callbacks_of verdict_on reject_text exceeds add_all
    sasluser_stats
conf = record {
  account_sender = true;
  account_sender_domain = false;
  account_sender_sld = false;
  account_recipient = true;
  account_recipient_domain = false;
  account_recipient_sld = false;
  account_client_address = false;
  account_sasl_username = false;
  tally_status = text "permit" ∷ (text "Reject" ∷ []);
}

abbrev quotas : QuotasModule
quotas = record {
  config = conf;
  instance_id = 1;
  regexes =
      record { selector = text "sender"; matches = λ value. true; period = pos 60; curb = pos 3 }
      ∷ [];
  tally_statuses = [];
}

init_test : init quotas ≡ some (record quotas { tally_statuses = 0 ∷ 2 ∷ [] })
unfolding conf
init_test = refl

abbrev delivery : Delivery
delivery = record {
  queue_id = text "4F1";
  sender = from_string (text "ann@a.org");
  rcpt = from_string (text "bob@b.org") ∷ (from_string (text "cy@b.org") ∷ []);
  ip = text "192.0.2.1";
  sasl_username = text "ann";
}

abbrev no_suffix : Text → Text
no_suffix domain = domain

abbrev empty : Stored
empty = record { lists = []; sets = [] }

-- A definition for the sender is made from the regular expression; the message is let pass.
abbrev after_check : Go (Stored × Bool)
after_check = elim (message_check whole 100 memory no_suffix quotas true 1000 delivery empty) [
  | panic ↦ panic
  | ok (s, none) ↦ ok (s, false)
  | ok (s, some r) ↦ ok (add_all memory (0 ∷ []) 1000 delivery.queue_id 0 r.callbacks s, true)
]

abbrev counts : Text
counts = text "{cluegetter-1-quotas-sender_ann@a.org}-counts-60"

abbrev after : Stored
after = record {
  lists = (text "{cluegetter-1-quotas-sender_ann@a.org}-definitions", text "60_3" ∷ []) ∷ [];
  sets = (counts, (text "4F1-1", 1000) ∷ ((text "4F1-2", 1000) ∷ [])) ∷ [];
}

after_check_test : after_check ≡ ok (after, true)
unfolding conf
after_check_test = refl

-- A user's statistics, for the three kinds of wrong requests and for one without quotas.
sasluser_stats_test :
    (sasluser_stats memory quotas 1000 [] (text "1") empty ≡ ok (empty, not_found))
    × (sasluser_stats memory quotas 1000 (text "ann") [] empty ≡ ok (empty, redirect))
    × (sasluser_stats memory quotas 1000 (text "ann") (text "x") empty ≡ ok (empty, bad_request))
    × (sasluser_stats memory quotas 1000 (text "ann") (text "2") empty ≡ ok (empty, stats []))
unfolding conf
sasluser_stats_test = (refl, refl, refl, refl)

poll_refines_window_example :
    (store' : Stored) × (r : QuotasResult) × (poll_by_selector_and_period memory after 1060 1
        (text "sender")
        (text "ann@a.org")
        2
        (text "60_3")
      ≡ ok (store', r))
    × IsJudged memory set_at z_count_memory z_rem_memory 60 1060 3 2 after store' r
unfolding conf
poll_refines_window_example =
    poll_refines_window memory set_at z_count_memory z_rem_memory after 1060 1 (text "sender")
      (text "ann@a.org") 2 (text "60_3") 60 3 refl (omega arith)

abbrev sender_result : QuotasResult
unfolding conf
sender_result = result_of 1 (text "sender") (text "ann@a.org") 2 (pos 60) (pos 5) 2

abbrev rcpt_result : QuotasResult
unfolding conf
rcpt_result = result_of 1 (text "recipient") (text "bob@b.org") 1 (pos 60) (pos 5) 0

verdict_on_unordered_example :
    ((verdict_on whole 100 (rcpt_result ∷ (sender_result ∷ []))).suggested_action
      ≡ (if any exceeds (sender_result ∷ (rcpt_result ∷ [])) then tempfail else permit))
    × Perm
        (verdict_on whole 100 (sender_result ∷ (rcpt_result ∷ []))).callbacks
        (verdict_on whole 100 (rcpt_result ∷ (sender_result ∷ []))).callbacks
unfolding conf
verdict_on_unordered_example =
    verdict_on_unordered whole 100 (sender_result ∷ (rcpt_result ∷ []))
      (rcpt_result ∷ (sender_result ∷ [])) (Perm.swap rcpt_result sender_result [])

permitted_within_curb_example :
    recent 60 1003 (
      set_at
        (add_all memory
          (0 ∷ [])
          1003
          (text "4F2")
          0
          (callbacks_of (rcpt_result ∷ (sender_result ∷ [])))
          after)
        sender_result.key)
    ≤ 5
unfolding conf
permitted_within_curb_example =
    permitted_within_curb memory set_at z_add_memory z_add_other_memory (λ s key other ttl. refl)
      whole 100 (0 ∷ []) 1001 1003 (text "4F2") 0 60 (rcpt_result ∷ (sender_result ∷ []))
      sender_result after refl (inr (inl refl)) (omega arith)
      ((λ e. omega arith), ((λ e. omega arith), tt)) (refl, (refl, tt))
      (omega arith, (omega arith, tt)) (omega arith)
